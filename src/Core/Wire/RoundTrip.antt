-- ===== src/Core/Wire/RoundTrip.antt =====
-- crates/kavach-core/src/wire.rs: decoding what was encoded, and encoding what was decoded.
use kavach_npu.Prelude.{
  ℕ, ◌-◌, ◌<◌, ◌≤◌, ◌≡◌, refl, true, false, ◌&&◌, not, ltb, ◌==◌, ◌⊎◌, List, [], ◌∷◌, ok, length,
  replicate, sym, ap, ◌∙◌, arith,
}
use kavach_npu.Prelude.Bytes.{
  be_bytes, be_at, byte_at, slice, flatten, copy_fields, copy_fields-flatten, length-be_bytes,
  length-flatten, be_at-flatten, byte_at-flatten, slice-flatten,
}
use kavach_npu.Core.Contracts.{
  Verdict, IsVerdict, EnforcementAction, alert, suspend_and_alert, hard_kill, action_byte, is_alert,
}
use kavach_npu.Core.Wire.{from_wire, from_slice, to_wire, action_of_byte}

-- What the decoder demands of a verdict, beyond the ranges of its fields.
pub record IsAcceptable (v : Verdict) : Type 0 where
  pub version : v.protocol_version.major ≡ 1
  pub order : v.issued_at_unix_ms ≤ v.expires_at_unix_ms
  pub window : v.expires_at_unix_ms - v.issued_at_unix_ms ≤ 30000
  pub target : (v.requested_action ≡ alert) ⊎ (0 < v.target_process_id)
  pub no_flags : v.flags ≡ 0

action_of_byte-action_byte : (a : EnforcementAction) → action_of_byte (action_byte a) ≡ ok a
unfolding action_of_byte action_byte
action_of_byte-action_byte alert = refl
action_of_byte-action_byte suspend_and_alert = refl
action_of_byte-action_byte hard_kill = refl

-- The five tests, as the decoder makes them.
acceptable_tests :
    (v : Verdict)
    → IsAcceptable v
    → ((v.protocol_version.major == 1) ≡ true)
      × (ltb v.expires_at_unix_ms v.issued_at_unix_ms ≡ false)
      × (ltb 30000 (v.expires_at_unix_ms - v.issued_at_unix_ms) ≡ false)
      × ((v.target_process_id == 0 && not (is_alert v.requested_action)) ≡ false)
      × ((v.flags == 0) ≡ true)
acceptable_tests v acc = ground arith

-- The decoder reads only these fourteen parts of the buffer.
from_wire_of_parts :
    (buf : List ℕ) (v : Verdict)
    → IsAcceptable v
    → be_at 0 2 buf ≡ v.protocol_version.major
    → be_at 2 4 buf ≡ v.protocol_version.minor
    → slice 4 20 buf ≡ v.request_id
    → be_at 20 28 buf ≡ v.issued_at_unix_ms
    → be_at 28 36 buf ≡ v.expires_at_unix_ms
    → slice 36 52 buf ≡ v.detector_instance_id
    → action_of_byte (byte_at 52 buf) ≡ ok v.requested_action
    → slice 53 85 buf ≡ v.evidence_digest
    → slice 85 117 buf ≡ v.model_bundle_sha256
    → be_at 117 125 buf ≡ v.policy_generation
    → be_at 125 129 buf ≡ v.target_process_id
    → be_at 129 137 buf ≡ v.target_process_start_filetime
    → byte_at 137 buf ≡ v.corroborating_evidence_count
    → byte_at 138 buf ≡ v.flags
    → from_wire buf ≡ ok v
unfolding from_wire
from_wire_of_parts buf v acc e0 e1 e2 e3 e4 e5 e6 e7 e8 e9 e10 e11 e12 e13 =
    let (t0, t1, t2, t3, t4) = acceptable_tests v acc in
    rw (e0, e1, e2, e3, e4, e5, e6, e7, e8, e9, e10, e11, e12, e13, from_wire)
      (rw (t0, t1, t2, t3, t4))

ruleset facts = (arith, length-be_bytes)

-- The fourteen fields in wire order.
abbrev pub fields : Verdict → List (List ℕ)
fields v =
    be_bytes 2 v.protocol_version.major
    ∷ be_bytes 2 v.protocol_version.minor
    ∷ v.request_id
    ∷ be_bytes 8 v.issued_at_unix_ms
    ∷ be_bytes 8 v.expires_at_unix_ms
    ∷ v.detector_instance_id
    ∷ (action_byte v.requested_action ∷ [])
    ∷ v.evidence_digest
    ∷ v.model_bundle_sha256
    ∷ be_bytes 8 v.policy_generation
    ∷ be_bytes 4 v.target_process_id
    ∷ be_bytes 8 v.target_process_start_filetime
    ∷ (v.corroborating_evidence_count ∷ [])
    ∷ (v.flags ∷ [])
    ∷ []

to_wire-copy_fields :
    (v : Verdict) → IsVerdict v → to_wire v ≡ copy_fields (replicate 139 0) 0 (fields v)
unfolding to_wire copy_fields
to_wire-copy_fields v ok_v = simp (
  length-be_bytes, ok_v.request_id_fits.0, ok_v.detector_instance_id_fits.0,
  ok_v.evidence_digest_fits.0, ok_v.model_bundle_fits.0,
)

length-fields : (v : Verdict) → IsVerdict v → length (flatten (fields v)) ≡ 139
length-fields v ok_v =
    length-flatten (fields v)
    ∙ simp (
      length-be_bytes, ok_v.request_id_fits.0, ok_v.detector_instance_id_fits.0,
      ok_v.evidence_digest_fits.0, ok_v.model_bundle_fits.0,
    )

pub to_wire-flatten : (v : Verdict) → IsVerdict v → to_wire v ≡ flatten (fields v)
to_wire-flatten v ok_v =
    to_wire-copy_fields v ok_v ∙ copy_fields-flatten (fields v) 139 (sym (length-fields v ok_v))

from_wire-flatten :
    (v : Verdict) → IsVerdict v → IsAcceptable v → from_wire (flatten (fields v)) ≡ ok v
from_wire-flatten v ok_v acc =
    from_wire_of_parts (flatten (fields v)) v acc
      (be_at-flatten (fields v) 0 0 2 2 _ refl refl refl ok_v.major_fits)
      (be_at-flatten (fields v) 1 2 4 2 _ refl (omega facts) refl ok_v.minor_fits)
      (slice-flatten (fields v) 2 4 20 (omega facts) (omega facts))
      (be_at-flatten (fields v) 3 20 28 8 _ refl (omega facts) refl ok_v.issued_at_fits)
      (be_at-flatten (fields v) 4 28 36 8 _ refl (omega facts) refl ok_v.expires_at_fits)
      (slice-flatten (fields v) 5 36 52 (omega facts) (omega facts))
      (ap action_of_byte (byte_at-flatten (fields v) 6 52 _ (omega facts) refl)
        ∙ action_of_byte-action_byte v.requested_action)
      (slice-flatten (fields v) 7 53 85 (omega facts) (omega facts))
      (slice-flatten (fields v) 8 85 117 (omega facts) (omega facts))
      (be_at-flatten (fields v) 9 117 125 8 _ refl (omega facts) refl ok_v.policy_generation_fits)
      (be_at-flatten (fields v) 10 125 129 4 _ refl (omega facts) refl ok_v.target_process_id_fits)
      (be_at-flatten (fields v) 11 129 137 8 _ refl (omega facts) refl ok_v.start_filetime_fits)
      (byte_at-flatten (fields v) 12 137 _ (omega facts) refl)
      (byte_at-flatten (fields v) 13 138 _ (omega facts) refl)

-- Every verdict whose fields fit and which meets the decoder's demands survives the wire: the
-- encoder's bytes are accepted and decode to the same verdict.
pub from_slice-to_wire :
    (v : Verdict) → IsVerdict v → IsAcceptable v → from_slice (to_wire v) ≡ ok v
unfolding from_slice
from_slice-to_wire v ok_v acc =
    rw (to_wire-flatten v ok_v, length-fields v ok_v) (from_wire-flatten v ok_v acc)
