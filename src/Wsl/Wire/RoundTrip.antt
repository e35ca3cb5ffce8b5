-- ===== src/Wsl/Wire/RoundTrip.antt =====
-- crates/kavach-wsl/src/wire.rs: a frame that was sent is read back.
use kavach_npu.Prelude.{
  ℕ, ◌+◌, ◌-◌, ◌%◌, ◌^◌, ◌<◌, ◌≤◌, ◌≡◌, refl, true, false, ltb, ◌==◌, List, [], ◌∷◌, ok, length, ap,
  ◌∙◌, arith,
}
use mathlib.Core.List.{append-nil}
use kavach_npu.Prelude.Bytes.{
  be_bytes, be_at, byte_at, slice, rest_from, flatten, length-be_bytes, length-flatten,
  be_at-flatten, byte_at-flatten, slice-flatten, rest_from-flatten,
}
use kavach_npu.Wsl.Records.{
  GuestWriteRecord, IsGuestWriteRecord, GuestFileOperation, write, rename, delete, operation_byte,
}
use kavach_npu.Wsl.Path.{is_normalized_mnt_path}
use kavach_npu.Wsl.Utf8.{is_utf8}
use kavach_npu.Wsl.Wire.{
  from_payload, from_frame, to_frame, header_and_path, operation_of_byte, in_range,
}

-- What the reader demands of a record, beyond the ranges of its fields.
pub record IsAcceptable (r : GuestWriteRecord) : Type 0 where
  pub version : r.version.major ≡ 1
  pub positive : 0 < r.sequence_number
  pub no_flags : r.flags ≡ 0
  pub some_path : 0 < length r.normalized_path
  pub path_length : length r.normalized_path ≤ 4096
  pub path_utf8 : is_utf8 r.normalized_path ≡ true
  pub path_normalized : is_normalized_mnt_path r.normalized_path ≡ true

operation_of_byte-operation_byte :
    (o : GuestFileOperation) → operation_of_byte (operation_byte o) ≡ ok o
unfolding operation_of_byte operation_byte
operation_of_byte-operation_byte write = refl
operation_of_byte-operation_byte rename = refl
operation_of_byte-operation_byte delete = refl

ruleset facts = (arith, length-be_bytes)

-- The seventeen fields in wire order.
abbrev pub fields : GuestWriteRecord → List (List ℕ)
fields r =
    be_bytes 2 r.version.major
    ∷ be_bytes 2 r.version.minor
    ∷ be_bytes 8 r.sequence_number
    ∷ be_bytes 8 r.guest_monotonic_ns
    ∷ be_bytes 8 r.guest_realtime_ns
    ∷ be_bytes 4 r.guest_process_id
    ∷ be_bytes 8 r.guest_process_start_ticks
    ∷ r.distribution_id
    ∷ be_bytes 8 r.mount_namespace_id
    ∷ r.executable_sha256
    ∷ r.cgroup_sha256
    ∷ (operation_byte r.operation ∷ [])
    ∷ be_bytes 8 r.byte_range_start
    ∷ be_bytes 8 r.byte_range_length
    ∷ be_bytes 2 r.flags
    ∷ be_bytes 2 (length r.normalized_path % 2 ^ 16)
    ∷ r.normalized_path
    ∷ []

header_and_path-flatten : (r : GuestWriteRecord) → header_and_path r ≡ flatten (fields r)
unfolding header_and_path
header_and_path-flatten r = rw (append-nil r.normalized_path)

length-fields :
    (r : GuestWriteRecord)
    → IsGuestWriteRecord r
    → length (flatten (fields r)) ≡ 149 + length r.normalized_path
length-fields r fits = omega (arith, length-flatten (fields r), length-be_bytes)

-- The numeric tests, as the reader makes them.
acceptable_tests :
    (r : GuestWriteRecord)
    → IsAcceptable r
    → (in_range 150 4245 (149 + length r.normalized_path) ≡ true)
      × ((r.version.major == 1) ≡ true)
      × ((r.sequence_number == 0) ≡ false)
      × ((r.flags == 0) ≡ true)
      × ((length r.normalized_path == 149 + length r.normalized_path - 149) ≡ true)
acceptable_tests r acc = ground arith

-- The reader looks only at these parts of the payload.
from_payload_of_parts :
    (p : List ℕ) (r : GuestWriteRecord)
    → IsAcceptable r
    → length p ≡ 149 + length r.normalized_path
    → be_at 0 2 p ≡ r.version.major
    → be_at 2 4 p ≡ r.version.minor
    → be_at 4 12 p ≡ r.sequence_number
    → be_at 12 20 p ≡ r.guest_monotonic_ns
    → be_at 20 28 p ≡ r.guest_realtime_ns
    → be_at 28 32 p ≡ r.guest_process_id
    → be_at 32 40 p ≡ r.guest_process_start_ticks
    → slice 40 56 p ≡ r.distribution_id
    → be_at 56 64 p ≡ r.mount_namespace_id
    → slice 64 96 p ≡ r.executable_sha256
    → slice 96 128 p ≡ r.cgroup_sha256
    → operation_of_byte (byte_at 128 p) ≡ ok r.operation
    → be_at 129 137 p ≡ r.byte_range_start
    → be_at 137 145 p ≡ r.byte_range_length
    → be_at 145 147 p ≡ r.flags
    → be_at 147 149 p ≡ length r.normalized_path
    → rest_from 149 p ≡ r.normalized_path
    → from_payload p ≡ ok r
unfolding from_payload
from_payload_of_parts p r acc l e0 e1 e2 e3 e4 e5 e6 e7 e8 e9 e10 e11 e12 e13 e14 e15 e16 =
    let (t0, t1, t2, t3, t4) = acceptable_tests r acc in
    rw (e0, e1, e2, e3, e4, e5, e6, e7, e8, e9, e10, e11, e12, e13, e14, e15, e16, l, from_payload)
      (rw (t0, t1, t2, t3, t4, acc.path_utf8, acc.path_normalized))

-- The tests that the sender makes.
sender_tests :
    (r : GuestWriteRecord)
    → IsAcceptable r
    → (in_range 1 4096 (length r.normalized_path) ≡ true)
      × (in_range 150 4245 (149 + length r.normalized_path) ≡ true)
sender_tests r acc = ground arith

from_frame_of_parts :
    (frame p : List ℕ) (n : ℕ)
    → length frame ≡ 4 + n
    → 150 ≤ n
    → be_at 0 4 frame ≡ n
    → rest_from 4 frame ≡ p
    → from_frame frame ≡ from_payload p
unfolding from_frame
from_frame_of_parts frame p n l some e0 e1 =
    let t0 : ltb (4 + n) 154 ≡ false = ground arith in
    let t1 : (n == 4 + n - 4) ≡ true = ground arith in rw (l, e0, e1, from_frame) (rw (t0, t1))

module _ (r : GuestWriteRecord) (fits : IsGuestWriteRecord r) (acc : IsAcceptable r) where
  path_len_fits : length r.normalized_path % 2 ^ 16 ≡ length r.normalized_path
  path_len_fits = let small = acc.path_length in omega arith

  from_payload-fields : from_payload (flatten (fields r)) ≡ ok r
  from_payload-fields =
      from_payload_of_parts (flatten (fields r)) r acc (length-fields r fits)
        (be_at-flatten (fields r) 0 0 2 2 _ refl refl refl fits.major_fits)
        (be_at-flatten (fields r) 1 2 4 2 _ refl (omega facts) refl fits.minor_fits)
        (be_at-flatten (fields r) 2 4 12 8 _ refl (omega facts) refl fits.sequence_fits)
        (be_at-flatten (fields r) 3 12 20 8 _ refl (omega facts) refl fits.monotonic_fits)
        (be_at-flatten (fields r) 4 20 28 8 _ refl (omega facts) refl fits.realtime_fits)
        (be_at-flatten (fields r) 5 28 32 4 _ refl (omega facts) refl fits.process_id_fits)
        (be_at-flatten (fields r) 6 32 40 8 _ refl (omega facts) refl fits.start_ticks_fits)
        (slice-flatten (fields r) 7 40 56 (omega facts) (omega facts))
        (be_at-flatten (fields r) 8 56 64 8 _ refl (omega facts) refl fits.mount_namespace_fits)
        (slice-flatten (fields r) 9 64 96 (omega facts) (omega facts))
        (slice-flatten (fields r) 10 96 128 (omega facts) (omega facts))
        (ap operation_of_byte (byte_at-flatten (fields r) 11 128 _ (omega facts) refl)
          ∙ operation_of_byte-operation_byte r.operation)
        (be_at-flatten (fields r) 12 129 137 8 _ refl (omega facts) refl fits.range_start_fits)
        (be_at-flatten (fields r) 13 137 145 8 _ refl (omega facts) refl fits.range_length_fits)
        (be_at-flatten (fields r) 14 145 147 2 _ refl (omega facts) refl fits.flags_fit)
        (be_at-flatten (fields r) 15 147 149 2 _ refl (omega facts) refl (omega arith)
          ∙ path_len_fits)
        (rest_from-flatten (fields r) 16 149 (omega facts) ∙ append-nil r.normalized_path)

  -- The frame: the length of the payload, and the payload.
  abbrev pub framed : List (List ℕ)
  framed = be_bytes 4 ((149 + length r.normalized_path) % 2 ^ 32) ∷ flatten (fields r) ∷ []

  pub to_frame-framed : to_frame r ≡ ok (flatten framed)
  unfolding to_frame
  to_frame-framed =
      let (t0, t1) = sender_tests r acc in
      rw (acc.path_normalized, to_frame)
        (rw (t0, t1) (rw (header_and_path-flatten r, append-nil (flatten (fields r)))))

  length-framed : length (flatten framed) ≡ 4 + (149 + length r.normalized_path)
  length-framed = omega (arith, length-flatten framed, length-be_bytes, length-fields r fits)

  declared : be_at 0 4 (flatten framed) ≡ 149 + length r.normalized_path
  declared =
      let small = acc.path_length in
      be_at-flatten framed 0 0 4 4 _ refl refl refl (omega arith) ∙ omega arith

  from_frame-framed : from_frame (flatten framed) ≡ ok r
  from_frame-framed =
      from_frame_of_parts (flatten framed) (flatten (fields r)) (149 + length r.normalized_path)
        length-framed (let some = acc.some_path in omega arith) declared
        (rest_from-flatten framed 1 4 (omega facts) ∙ append-nil (flatten (fields r)))
      ∙ from_payload-fields

-- A record whose fields fit and which meets the reader's demands is sent as a frame, and that frame
-- is read back as the same record.
pub from_frame-to_frame :
    (r : GuestWriteRecord)
    → IsGuestWriteRecord r
    → IsAcceptable r
    → (frame : List ℕ) × (to_frame r ≡ ok frame) × (from_frame frame ≡ ok r)
from_frame-to_frame r fits acc =
    (flatten (framed r fits acc), to_frame-framed r fits acc, from_frame-framed r fits acc)
