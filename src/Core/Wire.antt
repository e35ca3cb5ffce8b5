-- ===== src/Core/Wire.antt =====
-- crates/kavach-core/src/wire.rs: the 139-byte big-endian form of a verdict, and the checks that
-- the decoder makes on it.
pub mod RoundTrip
pub mod Sound
use kavach_npu.Prelude.{
  ℕ, zero, suc, ◌-◌, ◌≡◌, Bool, true, false, not, ◌&&◌, List, [], ◌∷◌, Result, ok, err, ◌>>=◌, ◌>>◌,
  reject_if, ltb, ◌==◌, replicate, length, arith,
}
use kavach_npu.Prelude.Bytes.{be_bytes, be_at, byte_at, slice, copy_into}
use kavach_npu.Core.Contracts.{
  Verdict, ArtifactVersion, EnforcementAction, alert, suspend_and_alert, hard_kill, action_byte,
  is_alert, DispatchError, version_mismatch, malformed_message,
}

abbrev pub verdict_wire_size : ℕ
verdict_wire_size = 139

abbrev pub supported_protocol_major : ℕ
supported_protocol_major = 1

abbrev pub max_expiry_window_ms : ℕ
max_expiry_window_ms = 30000

pub data WireError : Type 0 where
  invalid_length : (expected actual : ℕ) → WireError
  unsupported_major_version : ℕ → WireError
  invalid_action : ℕ → WireError
  nonzero_flags : ℕ → WireError
  timestamp_order_violation : (issued_at expires_at : ℕ) → WireError
  excessive_expiry_window : (delta_ms : ℕ) → WireError
  zero_target_process_id : EnforcementAction → WireError

-- `impl From<WireError> for DispatchError`
unfoldable pub dispatch_error : WireError → DispatchError
dispatch_error (unsupported_major_version m) = version_mismatch
dispatch_error (invalid_length e a) = malformed_message
dispatch_error (invalid_action b) = malformed_message
dispatch_error (nonzero_flags f) = malformed_message
dispatch_error (timestamp_order_violation i e) = malformed_message
dispatch_error (excessive_expiry_window d) = malformed_message
dispatch_error (zero_target_process_id a) = malformed_message

-- Each field is copied to its own range of a zeroed buffer, in the order of the source.
unfoldable pub to_wire : Verdict → List ℕ
to_wire v =
    let b0 = replicate verdict_wire_size 0 in
    let b1 = copy_into b0 0 (be_bytes 2 v.protocol_version.major) in
    let b2 = copy_into b1 2 (be_bytes 2 v.protocol_version.minor) in
    let b3 = copy_into b2 4 v.request_id in
    let b4 = copy_into b3 20 (be_bytes 8 v.issued_at_unix_ms) in
    let b5 = copy_into b4 28 (be_bytes 8 v.expires_at_unix_ms) in
    let b6 = copy_into b5 36 v.detector_instance_id in
    let b7 = copy_into b6 52 (action_byte v.requested_action ∷ []) in
    let b8 = copy_into b7 53 v.evidence_digest in
    let b9 = copy_into b8 85 v.model_bundle_sha256 in
    let b10 = copy_into b9 117 (be_bytes 8 v.policy_generation) in
    let b11 = copy_into b10 125 (be_bytes 4 v.target_process_id) in
    let b12 = copy_into b11 129 (be_bytes 8 v.target_process_start_filetime) in
    let b13 = copy_into b12 137 (v.corroborating_evidence_count ∷ []) in
    copy_into b13 138 (v.flags ∷ [])

-- `match buf[52] { .. }`
unfoldable pub action_of_byte : ℕ → Result WireError EnforcementAction
action_of_byte zero = ok alert
action_of_byte (suc zero) = ok suspend_and_alert
action_of_byte (suc (suc zero)) = ok hard_kill
action_of_byte (suc (suc (suc n))) = err (invalid_action (suc (suc (suc n))))

-- The checks stand in the source's order, between the reads.
unfoldable pub from_wire : List ℕ → Result WireError Verdict
from_wire buf = do
  let major = be_at 0 2 buf
  reject_if (not (major == supported_protocol_major)) (unsupported_major_version major)
  let minor = be_at 2 4 buf
  let request_id = slice 4 20 buf
  let issued_at = be_at 20 28 buf
  let expires_at = be_at 28 36 buf
  reject_if (ltb expires_at issued_at) (timestamp_order_violation issued_at expires_at)
  let delta = expires_at - issued_at
  reject_if (ltb max_expiry_window_ms delta) (excessive_expiry_window delta)
  let detector_instance_id = slice 36 52 buf
  requested_action ← action_of_byte (byte_at 52 buf)
  let evidence_digest = slice 53 85 buf
  let model_bundle_sha256 = slice 85 117 buf
  let policy_generation = be_at 117 125 buf
  let target_process_id = be_at 125 129 buf
  reject_if (target_process_id == 0 && not (is_alert requested_action))
      (zero_target_process_id requested_action)
  let start_filetime = be_at 129 137 buf
  let evidence_count = byte_at 137 buf
  let flags = byte_at 138 buf
  reject_if (not (flags == 0)) (nonzero_flags flags)
  ok (record {
    protocol_version = record { major = major; minor = minor };
    request_id = request_id;
    issued_at_unix_ms = issued_at;
    expires_at_unix_ms = expires_at;
    detector_instance_id = detector_instance_id;
    requested_action = requested_action;
    evidence_digest = evidence_digest;
    model_bundle_sha256 = model_bundle_sha256;
    policy_generation = policy_generation;
    target_process_id = target_process_id;
    target_process_start_filetime = start_filetime;
    corroborating_evidence_count = evidence_count;
    flags = flags;
  })

unfoldable pub from_slice : List ℕ → Result WireError Verdict
from_slice xs = do
  reject_if (not (length xs == verdict_wire_size)) (invalid_length verdict_wire_size (length xs))
  from_wire xs
