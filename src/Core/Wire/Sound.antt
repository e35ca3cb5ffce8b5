-- ===== src/Core/Wire/Sound.antt =====
-- crates/kavach-core/src/wire.rs: what a successful decoding says of the bytes and of the verdict.
use kavach_npu.Prelude.{
  ℕ, zero, suc, ◌+◌, ◌-◌, ◌≤◌, ◌≡◌, refl, List, [], ◌∷◌, ok, length, sym, ap, ◌∙◌, arith, All,
}
use kavach_npu.Prelude.Bytes.{
  be_at, byte_at, slice, flatten, pieces, IsByte, IsBytes, be_bytes, be_bytes-from_be, from_be-lt,
  slice-IsBytes, slice_one, byte_at-IsByte, flatten-pieces,
}
use kavach_npu.Core.Contracts.{Verdict, IsVerdict, EnforcementAction, action_byte}
use kavach_npu.Core.Wire.{from_wire, from_slice, to_wire, action_of_byte}
use kavach_npu.Core.Wire.RoundTrip.{IsAcceptable, fields, to_wire-flatten}

abbrev cuts : List ℕ
cuts = 2 ∷ 4 ∷ 20 ∷ 28 ∷ 36 ∷ 52 ∷ 53 ∷ 85 ∷ 117 ∷ 125 ∷ 129 ∷ 137 ∷ 138 ∷ 139 ∷ []

abbrev Parts : List ℕ → Verdict → Type 0
Parts buf v =
    (be_at 0 2 buf ≡ v.protocol_version.major)
    × (be_at 2 4 buf ≡ v.protocol_version.minor)
    × (slice 4 20 buf ≡ v.request_id)
    × (be_at 20 28 buf ≡ v.issued_at_unix_ms)
    × (be_at 28 36 buf ≡ v.expires_at_unix_ms)
    × (slice 36 52 buf ≡ v.detector_instance_id)
    × (action_of_byte (byte_at 52 buf) ≡ ok v.requested_action)
    × (slice 53 85 buf ≡ v.evidence_digest)
    × (slice 85 117 buf ≡ v.model_bundle_sha256)
    × (be_at 117 125 buf ≡ v.policy_generation)
    × (be_at 125 129 buf ≡ v.target_process_id)
    × (be_at 129 137 buf ≡ v.target_process_start_filetime)
    × (byte_at 137 buf ≡ v.corroborating_evidence_count)
    × (byte_at 138 buf ≡ v.flags)

from_wire-Parts : (buf : List ℕ) (v : Verdict) → from_wire buf ≡ ok v → Parts buf v
unfolding from_wire
from_wire-Parts buf v h = ground arith

from_wire-IsAcceptable : (buf : List ℕ) (v : Verdict) → from_wire buf ≡ ok v → IsAcceptable v
unfolding from_wire
from_wire-IsAcceptable buf v h = ground arith

action_byte-action_of_byte :
    (b : ℕ) (a : EnforcementAction) → action_of_byte b ≡ ok a → action_byte a ≡ b
unfolding action_of_byte action_byte
action_byte-action_of_byte zero a h = ground arith
action_byte-action_of_byte (suc zero) a h = ground arith
action_byte-action_of_byte (suc (suc zero)) a h = ground arith
action_byte-action_of_byte (suc (suc (suc n))) a h = cc

from_slice-length :
    (buf : List ℕ) (v : Verdict)
    → from_slice buf ≡ ok v
    → (length buf ≡ 139) × (from_wire buf ≡ ok v)
unfolding from_slice
from_slice-length buf v h = ground arith

module _ (buf : List ℕ) (v : Verdict) (len : length buf ≡ 139) (bytes : All IsByte buf) where
  part : (m n : ℕ) → m ≤ n → n ≤ 139 → IsBytes (n - m) (slice m n buf)
  part m n hm hn = slice-IsBytes m n buf hm (omega arith) bytes

  Parts-IsVerdict : Parts buf v → IsVerdict v
  Parts-IsVerdict (e0, e1, e2, e3, e4, e5, e6, e7, e8, e9, e10, e11, e12, e13) = record {
    major_fits = rw (← e0) (from_be-lt 2 _ (part 0 2 (omega arith) (omega arith)));
    minor_fits = rw (← e1) (from_be-lt 2 _ (part 2 4 (omega arith) (omega arith)));
    request_id_fits = rw (← e2) (part 4 20 (omega arith) (omega arith));
    issued_at_fits = rw (← e3) (from_be-lt 8 _ (part 20 28 (omega arith) (omega arith)));
    expires_at_fits = rw (← e4) (from_be-lt 8 _ (part 28 36 (omega arith) (omega arith)));
    detector_instance_id_fits = rw (← e5) (part 36 52 (omega arith) (omega arith));
    evidence_digest_fits = rw (← e7) (part 53 85 (omega arith) (omega arith));
    model_bundle_fits = rw (← e8) (part 85 117 (omega arith) (omega arith));
    policy_generation_fits = rw (← e9) (from_be-lt 8 _ (part 117 125 (omega arith) (omega arith)));
    target_process_id_fits = rw (← e10) (from_be-lt 4 _ (part 125 129 (omega arith) (omega arith)));
    start_filetime_fits = rw (← e11) (from_be-lt 8 _ (part 129 137 (omega arith) (omega arith)));
    evidence_count_fits = rw (← e12) (byte_at-IsByte 137 buf bytes);
    flags_fits = rw (← e13) (byte_at-IsByte 138 buf bytes);
  }

  number :
      (m n k x : ℕ) → m ≤ n → n ≤ 139 → n - m ≡ k → be_at m n buf ≡ x → be_bytes k x ≡ slice m n buf
  number m n k x hm hn hk e =
      rw (← e, ← hk) (be_bytes-from_be (n - m) (slice m n buf) (part m n hm hn))

  byte : (m n x : ℕ) → n ≡ m + 1 → n ≤ 139 → byte_at m buf ≡ x → x ∷ [] ≡ slice m n buf
  byte m n x hn hl e = rw (← e) (sym (slice_one m n buf hn (omega arith)))

  fields-pieces : Parts buf v → fields v ≡ pieces 0 cuts buf
  fields-pieces (e0, e1, e2, e3, e4, e5, e6, e7, e8, e9, e10, e11, e12, e13) = cc (
    number 0 2 2 _ (omega arith) (omega arith) refl e0,
    number 2 4 2 _ (omega arith) (omega arith) refl e1,
    number 20 28 8 _ (omega arith) (omega arith) refl e3,
    number 28 36 8 _ (omega arith) (omega arith) refl e4,
    byte 52 53 (action_byte v.requested_action) refl (omega arith)
        (sym (action_byte-action_of_byte _ _ e6)),
    number 117 125 8 _ (omega arith) (omega arith) refl e9,
    number 125 129 4 _ (omega arith) (omega arith) refl e10,
    number 129 137 8 _ (omega arith) (omega arith) refl e11,
    byte 137 138 _ refl (omega arith) e12,
    byte 138 139 _ refl (omega arith) e13,
  )

-- A buffer that decodes is the encoding of the verdict that it decodes to: no two byte strings
-- decode to the same verdict.
pub to_wire-from_slice :
    (buf : List ℕ) (v : Verdict) → All IsByte buf → from_slice buf ≡ ok v → to_wire v ≡ buf
to_wire-from_slice buf v bytes h =
    let (len, h') = from_slice-length buf v h in
    let parts = from_wire-Parts buf v h' in
    to_wire-flatten v (Parts-IsVerdict buf v len bytes parts)
    ∙ ap flatten (fields-pieces buf v len bytes parts)
    ∙ flatten-pieces 0 cuts buf (omega arith)

-- What decodes has fields in their ranges, the supported major version, an expiry not before the
-- issue and at most 30 seconds after it, a process for every action but an alert, and no flags.
pub from_slice_sound :
    (buf : List ℕ) (v : Verdict)
    → All IsByte buf
    → from_slice buf ≡ ok v
    → IsVerdict v × IsAcceptable v
from_slice_sound buf v bytes h =
    let (len, h') = from_slice-length buf v h in
    (Parts-IsVerdict buf v len bytes (from_wire-Parts buf v h'), from_wire-IsAcceptable buf v h')
