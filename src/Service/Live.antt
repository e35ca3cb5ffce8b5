-- ===== src/Service/Live.antt =====
-- src/main.rs, `run_live_sentinel_daemon_ext`: the loop of ticks of 100 ms, and the verdict that a
-- tick dispatches. What is printed is left out.
pub mod Ticks
use kavach_npu.Prelude.{
  ℕ, zero, suc, ◌+◌, ◌*◌, ◌%◌, ◌^◌, Bool, true, false, not, ◌&&◌, List, [], ◌∷◌, Option, none, some,
  Result, ok, err, ltb, if◌then◌else◌, replicate,
}
use kavach_npu.Prelude.Float.{Float, Floats}
use kavach_npu.Core.Config.{KavachConfig}
use kavach_npu.Core.Contracts.{Verdict, suspend_and_alert}
use kavach_npu.Firewall.Broker.{EnforcementBroker, new_broker}
use kavach_npu.Tripwire.Operation.{WriteBurstTracker}
use kavach_npu.Tripwire.Window.{build_burst_matrix}
use kavach_npu.Beacon.Engine.{TcnEngine, build_engine_matrix}
use kavach_npu.Events.Tracker.{EventSequenceTracker}
use kavach_npu.Events.Features.{build_event_matrix}
use kavach_npu.Npu.Tensor.{
  default_params, io_from_f32_matrix, net_from_f32_matrix, audit_from_f32_matrix,
}
use kavach_npu.Npu.Session.{
  NpuSession, NpuError, evaluate_io_head, evaluate_net_head, evaluate_audit_head,
}

-- The broker of the live daemon.
unfoldable pub live_broker : KavachConfig → EnforcementBroker
live_broker config =
    new_broker config.allowlist.required_policy_generation config.containment.hard_kill_enabled
      config.containment.minimum_corroborating_evidence (replicate 32 0x77) false

-- `start_ts + tick * 100`
abbrev pub tick_time : ℕ → ℕ → ℕ
tick_time start_ts tick = (start_ts + tick * 100) % 2 ^ 64

unfoldable pub live_verdict : KavachConfig → ℕ → ℕ → Verdict
live_verdict config start_ts tick = record {
  protocol_version = record { major = 1; minor = 0 };
  request_id = (tick % 256) ∷ replicate 15 0;
  issued_at_unix_ms = tick_time start_ts tick;
  expires_at_unix_ms = (tick_time start_ts tick + 10000) % 2 ^ 64;
  detector_instance_id = replicate 16 0xDE;
  requested_action = suspend_and_alert;
  evidence_digest = replicate 32 0xEE;
  model_bundle_sha256 = replicate 32 0x77;
  policy_generation = config.allowlist.required_policy_generation;
  target_process_id = 1337;
  target_process_start_filetime = 133500000000000000;
  corroborating_evidence_count = 3;
  flags = 0;
}

module _ (fl : Floats) (sha256 : List ℕ → List ℕ) where
  open fl use {double, single}

  -- `if let Ok(score) = .. && score >= 0.85`
  abbrev pub is_anomaly : Result NpuError single.F → Bool
  is_anomaly (ok score) = single.le (single.lit 85 2) score
  is_anomaly (err e) = false

  -- The body of the loop: the session behind it, and the verdict dispatched.
  unfoldable pub live_tick :
      KavachConfig
      → ℕ
      → ℕ
      → WriteBurstTracker double
      → TcnEngine
      → EventSequenceTracker
      → NpuSession
      → NpuSession × Option Verdict
  live_tick config start_ts tick tracker flows events s =
      let params = default_params single in
      let (s1, io_score) =
        evaluate_io_head single s
          (io_from_f32_matrix single (build_burst_matrix fl sha256 tracker) params) in
      let (s2, net_score) =
        evaluate_net_head single s1
          (net_from_f32_matrix single (build_engine_matrix fl flows) params) in
      let (s3, audit_score) =
        evaluate_audit_head single s2
          (audit_from_f32_matrix single (build_event_matrix single sha256 events) params) in
      (s3, if is_anomaly io_score then some (live_verdict config start_ts tick) else none)

abbrev pub with_tick : ℕ → Option (List ℕ) → Option (List ℕ)
with_tick tick none = none
with_tick tick (some ticks) = some (tick ∷ ticks)

-- The ticks whose bodies run, on fuel; `none` means that the fuel ran out.
unfoldable pub live_loop : Bool → ℕ → ℕ → ℕ → Option (List ℕ)
live_loop continuous max_ticks zero tick = none
live_loop continuous max_ticks (suc fuel) tick =
    let next = (tick + 1) % 2 ^ 64 in
    elim (not continuous && ltb max_ticks next) [
      | true ↦ some []
      | false ↦ with_tick next (live_loop continuous max_ticks fuel next)
    ]
