-- ===== src/Tests/Samples.antt =====
-- Inputs that the tests and the examples share, after the samples of the repository's own tests.
use kavach_npu.Prelude.{ℕ, ◌-◌, ◌^◌, false, List, [], ◌∷◌, replicate}
use kavach_npu.Core.Contracts.{Verdict, suspend_and_alert}
use kavach_npu.Firewall.Broker.{EnforcementBroker}
use kavach_npu.Wsl.Records.{GuestWriteRecord, write}

abbrev pub sample_verdict : Verdict
sample_verdict = record {
  protocol_version = record { major = 1; minor = 0 };
  request_id = replicate 16 0x12;
  issued_at_unix_ms = 1000;
  expires_at_unix_ms = 5000;
  detector_instance_id = replicate 16 0x34;
  requested_action = suspend_and_alert;
  evidence_digest = replicate 32 0x56;
  model_bundle_sha256 = replicate 32 0x78;
  policy_generation = 7;
  target_process_id = 100;
  target_process_start_filetime = 12345;
  corroborating_evidence_count = 3;
  flags = 0;
}

-- The same verdict with the last expiry that a u64 holds.
abbrev pub last_verdict : Verdict
last_verdict = record sample_verdict {
  issued_at_unix_ms = 2 ^ 64 - 2;
  expires_at_unix_ms = 2 ^ 64 - 1;
}

abbrev pub sample_broker : EnforcementBroker
sample_broker = record {
  active_policy_generation = 7;
  hard_kill_enabled = false;
  minimum_corroborating_evidence = 3;
  trusted_model_sha256 = replicate 32 0x78;
  is_model_degraded = false;
  replay_cache = [];
  rule_registry = record { rules = []; next_filter_id = 1 };
}

-- The 139 bytes of `sample_verdict`.
abbrev pub sample_wire : List ℕ
sample_wire =
    0 ∷ 1 ∷ 0 ∷ 0 ∷ 18 ∷ 18 ∷ 18 ∷ 18 ∷ 18 ∷ 18 ∷ 18 ∷ 18 ∷ 18 ∷ 18 ∷ 18 ∷ 18 ∷ 18 ∷ 18 ∷ 18 ∷ 18
    ∷ 0 ∷ 0 ∷ 0 ∷ 0 ∷ 0 ∷ 0 ∷ 3 ∷ 232 ∷ 0 ∷ 0 ∷ 0 ∷ 0 ∷ 0 ∷ 0 ∷ 19 ∷ 136 ∷ 52 ∷ 52 ∷ 52 ∷ 52 ∷ 52
    ∷ 52 ∷ 52 ∷ 52 ∷ 52 ∷ 52 ∷ 52 ∷ 52 ∷ 52 ∷ 52 ∷ 52 ∷ 52 ∷ 1 ∷ 86 ∷ 86 ∷ 86 ∷ 86 ∷ 86 ∷ 86 ∷ 86
    ∷ 86 ∷ 86 ∷ 86 ∷ 86 ∷ 86 ∷ 86 ∷ 86 ∷ 86 ∷ 86 ∷ 86 ∷ 86 ∷ 86 ∷ 86 ∷ 86 ∷ 86 ∷ 86 ∷ 86 ∷ 86 ∷ 86
    ∷ 86 ∷ 86 ∷ 86 ∷ 86 ∷ 86 ∷ 86 ∷ 120 ∷ 120 ∷ 120 ∷ 120 ∷ 120 ∷ 120 ∷ 120 ∷ 120 ∷ 120 ∷ 120 ∷ 120
    ∷ 120 ∷ 120 ∷ 120 ∷ 120 ∷ 120 ∷ 120 ∷ 120 ∷ 120 ∷ 120 ∷ 120 ∷ 120 ∷ 120 ∷ 120 ∷ 120 ∷ 120 ∷ 120
    ∷ 120 ∷ 120 ∷ 120 ∷ 120 ∷ 120 ∷ 0 ∷ 0 ∷ 0 ∷ 0 ∷ 0 ∷ 0 ∷ 0 ∷ 7 ∷ 0 ∷ 0 ∷ 0 ∷ 100 ∷ 0 ∷ 0 ∷ 0 ∷ 0
    ∷ 0 ∷ 0 ∷ 48 ∷ 57 ∷ 3 ∷ 0 ∷ []

-- A write to /mnt/c/a.
abbrev pub sample_record : GuestWriteRecord
sample_record = record {
  version = record { major = 1; minor = 0 };
  sequence_number = 1;
  guest_monotonic_ns = 12345678;
  guest_realtime_ns = 1700000000000000;
  guest_process_id = 1024;
  guest_process_start_ticks = 99999;
  distribution_id = replicate 16 0xdd;
  mount_namespace_id = 4026531840;
  executable_sha256 = replicate 32 0xee;
  cgroup_sha256 = replicate 32 0;
  operation = write;
  normalized_path = b'/' ∷ b'm' ∷ b'n' ∷ b't' ∷ b'/' ∷ b'c' ∷ b'/' ∷ b'a' ∷ [];
  byte_range_start = 0;
  byte_range_length = 4096;
  flags = 0;
}

-- Its frame.
abbrev pub sample_frame : List ℕ
sample_frame =
    0 ∷ 0 ∷ 0 ∷ 157 ∷ 0 ∷ 1 ∷ 0 ∷ 0 ∷ 0 ∷ 0 ∷ 0 ∷ 0 ∷ 0 ∷ 0 ∷ 0 ∷ 1 ∷ 0 ∷ 0 ∷ 0 ∷ 0 ∷ 0 ∷ 188 ∷ 97
    ∷ 78 ∷ 0 ∷ 6 ∷ 10 ∷ 36 ∷ 24 ∷ 30 ∷ 64 ∷ 0 ∷ 0 ∷ 0 ∷ 4 ∷ 0 ∷ 0 ∷ 0 ∷ 0 ∷ 0 ∷ 0 ∷ 1 ∷ 134 ∷ 159
    ∷ 221 ∷ 221 ∷ 221 ∷ 221 ∷ 221 ∷ 221 ∷ 221 ∷ 221 ∷ 221 ∷ 221 ∷ 221 ∷ 221 ∷ 221 ∷ 221 ∷ 221 ∷ 221
    ∷ 0 ∷ 0 ∷ 0 ∷ 0 ∷ 240 ∷ 0 ∷ 0 ∷ 0 ∷ 238 ∷ 238 ∷ 238 ∷ 238 ∷ 238 ∷ 238 ∷ 238 ∷ 238 ∷ 238 ∷ 238
    ∷ 238 ∷ 238 ∷ 238 ∷ 238 ∷ 238 ∷ 238 ∷ 238 ∷ 238 ∷ 238 ∷ 238 ∷ 238 ∷ 238 ∷ 238 ∷ 238 ∷ 238 ∷ 238
    ∷ 238 ∷ 238 ∷ 238 ∷ 238 ∷ 238 ∷ 238 ∷ 0 ∷ 0 ∷ 0 ∷ 0 ∷ 0 ∷ 0 ∷ 0 ∷ 0 ∷ 0 ∷ 0 ∷ 0 ∷ 0 ∷ 0 ∷ 0 ∷ 0
    ∷ 0 ∷ 0 ∷ 0 ∷ 0 ∷ 0 ∷ 0 ∷ 0 ∷ 0 ∷ 0 ∷ 0 ∷ 0 ∷ 0 ∷ 0 ∷ 0 ∷ 0 ∷ 0 ∷ 0 ∷ 1 ∷ 0 ∷ 0 ∷ 0 ∷ 0 ∷ 0 ∷ 0
    ∷ 0 ∷ 0 ∷ 0 ∷ 0 ∷ 0 ∷ 0 ∷ 0 ∷ 0 ∷ 16 ∷ 0 ∷ 0 ∷ 0 ∷ 0 ∷ 8 ∷ 47 ∷ 109 ∷ 110 ∷ 116 ∷ 47 ∷ 99 ∷ 47
    ∷ 97 ∷ []
