-- ===== src/Core/Contracts.antt =====
-- crates/kavach-core/src/lib.rs: the types that the detector and the broker share.
-- A `[u8; N]` is a list of N bytes and a machine integer a number; `IsVerdict` states their ranges.
use kavach_npu.Prelude.{ℕ, ◌<◌, ◌^◌, Bool, true, false, List}
use kavach_npu.Prelude.Bytes.{IsBytes}

pub record ArtifactVersion : Type 0 where
  pub major : ℕ
  pub minor : ℕ

pub data EnforcementAction : Type 0 where
  alert suspend_and_alert hard_kill : EnforcementAction

-- `action as u8`: the declared discriminants.
unfoldable pub action_byte : EnforcementAction → ℕ
action_byte alert = 0
action_byte suspend_and_alert = 1
action_byte hard_kill = 2

-- `a == EnforcementAction::Alert`
abbrev pub is_alert : EnforcementAction → Bool
is_alert alert = true
is_alert suspend_and_alert = false
is_alert hard_kill = false

pub record Verdict : Type 0 where
  pub protocol_version : ArtifactVersion
  pub request_id : List ℕ
  pub issued_at_unix_ms : ℕ
  pub expires_at_unix_ms : ℕ
  pub detector_instance_id : List ℕ
  pub requested_action : EnforcementAction
  pub evidence_digest : List ℕ
  pub model_bundle_sha256 : List ℕ
  pub policy_generation : ℕ
  pub target_process_id : ℕ
  pub target_process_start_filetime : ℕ
  pub corroborating_evidence_count : ℕ
  pub flags : ℕ

-- The ranges that Rust's field types give.
pub record IsVerdict (v : Verdict) : Type 0 where
  pub major_fits : v.protocol_version.major < 256 ^ 2
  pub minor_fits : v.protocol_version.minor < 256 ^ 2
  pub request_id_fits : IsBytes 16 v.request_id
  pub issued_at_fits : v.issued_at_unix_ms < 256 ^ 8
  pub expires_at_fits : v.expires_at_unix_ms < 256 ^ 8
  pub detector_instance_id_fits : IsBytes 16 v.detector_instance_id
  pub evidence_digest_fits : IsBytes 32 v.evidence_digest
  pub model_bundle_fits : IsBytes 32 v.model_bundle_sha256
  pub policy_generation_fits : v.policy_generation < 256 ^ 8
  pub target_process_id_fits : v.target_process_id < 256 ^ 4
  pub start_filetime_fits : v.target_process_start_filetime < 256 ^ 8
  pub evidence_count_fits : v.corroborating_evidence_count < 256
  pub flags_fits : v.flags < 256

pub data DispatchError : Type 0 where
  broker_unreachable version_mismatch replay_detected malformed_message : DispatchError
  authentication_failed expired action_denied : DispatchError
