-- ===== src/Wsl/Wire/Payload.antt =====
-- crates/kavach-wsl/src/wire.rs: what a payload that is read says of its bytes and of the record.
use kavach_npu.Prelude.{
  ℕ, zero, suc, ◌-◌, ◌%◌, ◌^◌, ◌≤◌, ◌<◌, ◌≡◌, refl, true, List, [], ◌∷◌, ◌++◌, ok, length, drop,
  sym, ap, ◌∙◌, arith, All, length-drop, All-drop, take_all, take-append-drop,
}
use kavach_npu.Prelude.Bytes.{
  be_at, byte_at, slice, rest_from, flatten, pieces, IsByte, IsBytes, be_bytes, be_bytes-from_be,
  from_be-lt, slice-IsBytes, slice_one, flatten-pieces,
}
use kavach_npu.Wsl.Records.{
  GuestWriteRecord, IsGuestWriteRecord, GuestFileOperation, operation_byte,
}
use kavach_npu.Wsl.Wire.{from_payload, from_frame, operation_of_byte}
use kavach_npu.Wsl.Path.{is_normalized_mnt_path}
use kavach_npu.Wsl.Utf8.{is_utf8}
use kavach_npu.Wsl.Wire.RoundTrip.{IsAcceptable, fields}

abbrev pub Parts : List ℕ → GuestWriteRecord → Type 0
Parts p r =
    (be_at 0 2 p ≡ r.version.major)
    × (be_at 2 4 p ≡ r.version.minor)
    × (be_at 4 12 p ≡ r.sequence_number)
    × (be_at 12 20 p ≡ r.guest_monotonic_ns)
    × (be_at 20 28 p ≡ r.guest_realtime_ns)
    × (be_at 28 32 p ≡ r.guest_process_id)
    × (be_at 32 40 p ≡ r.guest_process_start_ticks)
    × (slice 40 56 p ≡ r.distribution_id)
    × (be_at 56 64 p ≡ r.mount_namespace_id)
    × (slice 64 96 p ≡ r.executable_sha256)
    × (slice 96 128 p ≡ r.cgroup_sha256)
    × (operation_of_byte (byte_at 128 p) ≡ ok r.operation)
    × (be_at 129 137 p ≡ r.byte_range_start)
    × (be_at 137 145 p ≡ r.byte_range_length)
    × (be_at 145 147 p ≡ r.flags)
    × (rest_from 149 p ≡ r.normalized_path)

-- The tests that were passed, and what the numbers say.
pub record Checked (p : List ℕ) (r : GuestWriteRecord) : Type 0 where
  pub version : r.version.major ≡ 1
  pub positive : 0 < r.sequence_number
  pub no_flags : r.flags ≡ 0
  pub shortest : 150 ≤ length p
  pub longest : length p ≤ 4245
  pub declared : be_at 147 149 p ≡ length p - 149
  pub path_utf8 : is_utf8 r.normalized_path ≡ true
  pub path_normalized : is_normalized_mnt_path r.normalized_path ≡ true

pub from_payload-Parts : (p : List ℕ) (r : GuestWriteRecord) → from_payload p ≡ ok r → Parts p r
unfolding from_payload
from_payload-Parts p r h = ground arith

pub from_payload-Checked : (p : List ℕ) (r : GuestWriteRecord) → from_payload p ≡ ok r → Checked p r
unfolding from_payload
from_payload-Checked p r h = ground arith

pub from_frame_inv :
    (frame : List ℕ) (r : GuestWriteRecord)
    → from_frame frame ≡ ok r
    → (154 ≤ length frame)
      × (be_at 0 4 frame ≡ length frame - 4)
      × (from_payload (rest_from 4 frame) ≡ ok r)
unfolding from_frame
from_frame_inv frame r h = ground arith

operation_byte-operation_of_byte :
    (b : ℕ) (o : GuestFileOperation) → operation_of_byte b ≡ ok o → operation_byte o ≡ b
unfolding operation_of_byte operation_byte
operation_byte-operation_of_byte zero o h = cc
operation_byte-operation_of_byte (suc zero) o h = ground arith
operation_byte-operation_of_byte (suc (suc zero)) o h = ground arith
operation_byte-operation_of_byte (suc (suc (suc zero))) o h = ground arith
operation_byte-operation_of_byte (suc (suc (suc (suc n)))) o h = cc

slice-rest_from : (m : ℕ) (xs : List ℕ) → slice m (length xs) xs ≡ rest_from m xs
unfolding slice rest_from
slice-rest_from m xs = take_all (length xs - m) (drop m xs) (omega (arith, length-drop m xs))

pub slice-append-rest_from : (xs : List ℕ) → slice 0 4 xs ++ rest_from 4 xs ≡ xs
unfolding slice rest_from
slice-append-rest_from xs = take-append-drop 4 xs

module _ (p : List ℕ) (r : GuestWriteRecord) (checked : Checked p r) (bytes : All IsByte p) where
  abbrev places : List ℕ
  places =
      2
      ∷ 4
      ∷ 12
      ∷ 20
      ∷ 28
      ∷ 32
      ∷ 40
      ∷ 56
      ∷ 64
      ∷ 96
      ∷ 128
      ∷ 129
      ∷ 137
      ∷ 145
      ∷ 147
      ∷ 149
      ∷ length p
      ∷ []

  pub part : (m n : ℕ) → m ≤ n → n ≤ 149 → IsBytes (n - m) (slice m n p)
  part m n hm hn = let long = checked.shortest in slice-IsBytes m n p hm (omega arith) bytes

  pub read_fits : (m n x : ℕ) → m ≤ n → n ≤ 149 → be_at m n p ≡ x → x < 256 ^ (n - m)
  read_fits m n x hm hn e = rw (← e) (from_be-lt (n - m) (slice m n p) (part m n hm hn))

  pub Parts-IsGuestWriteRecord : Parts p r → IsGuestWriteRecord r
  unfolding rest_from
  Parts-IsGuestWriteRecord (e0, e1, e2, e3, e4, e5, e6, e7, e8, e9, e10, e11, e12, e13, e14, e15) =
      record {
        major_fits = read_fits 0 2 _ (omega arith) (omega arith) e0;
        minor_fits = read_fits 2 4 _ (omega arith) (omega arith) e1;
        sequence_fits = read_fits 4 12 _ (omega arith) (omega arith) e2;
        monotonic_fits = read_fits 12 20 _ (omega arith) (omega arith) e3;
        realtime_fits = read_fits 20 28 _ (omega arith) (omega arith) e4;
        process_id_fits = read_fits 28 32 _ (omega arith) (omega arith) e5;
        start_ticks_fits = read_fits 32 40 _ (omega arith) (omega arith) e6;
        distribution_id_fits = rw (← e7) (part 40 56 (omega arith) (omega arith));
        mount_namespace_fits = read_fits 56 64 _ (omega arith) (omega arith) e8;
        executable_fits = rw (← e9) (part 64 96 (omega arith) (omega arith));
        cgroup_fits = rw (← e10) (part 96 128 (omega arith) (omega arith));
        path_fits = rw (← e15) (All-drop IsByte 149 p bytes);
        range_start_fits = read_fits 129 137 _ (omega arith) (omega arith) e12;
        range_length_fits = read_fits 137 145 _ (omega arith) (omega arith) e13;
        flags_fit = read_fits 145 147 _ (omega arith) (omega arith) e14;
      }

  pub path_length : Parts p r → length r.normalized_path ≡ length p - 149
  unfolding rest_from
  path_length parts = omega (arith, ap length parts.15, length-drop 149 p)

  pub Parts-IsAcceptable : Parts p r → IsAcceptable r
  Parts-IsAcceptable parts = record {
    version = checked.version;
    positive = checked.positive;
    no_flags = checked.no_flags;
    some_path = let long = checked.shortest in omega (arith, path_length parts);
    path_length = let short = checked.longest in omega (arith, path_length parts);
    path_utf8 = checked.path_utf8;
    path_normalized = checked.path_normalized;
  }

  pub number :
      (m n k x : ℕ) → m ≤ n → n ≤ 149 → n - m ≡ k → be_at m n p ≡ x → be_bytes k x ≡ slice m n p
  number m n k x hm hn hk e =
      rw (← e, ← hk) (be_bytes-from_be (n - m) (slice m n p) (part m n hm hn))

  pub declared_length : Parts p r → be_at 147 149 p ≡ length r.normalized_path % 2 ^ 16
  declared_length parts =
      let short = checked.longest in
      let short_path : length r.normalized_path % 2 ^ 16 ≡ length p - 149 =
        omega (arith, path_length parts) in
      checked.declared ∙ sym short_path

  pub operation_slice : Parts p r → operation_byte r.operation ∷ [] ≡ slice 128 129 p
  operation_slice parts =
      let long = checked.shortest in
      ap (λ b. b ∷ []) (operation_byte-operation_of_byte _ _ parts.11)
      ∙ sym (slice_one 128 129 p refl (omega arith))

  pub fields-pieces : Parts p r → fields r ≡ pieces 0 places p
  fields-pieces parts =
      let (e0, e1, e2, e3, e4, e5, e6, e7, e8, e9, e10, e11, e12, e13, e14, e15) = parts in
      cc (
        number 0 2 2 _ (omega arith) (omega arith) refl e0,
        number 2 4 2 _ (omega arith) (omega arith) refl e1,
        number 4 12 8 _ (omega arith) (omega arith) refl e2,
        number 12 20 8 _ (omega arith) (omega arith) refl e3,
        number 20 28 8 _ (omega arith) (omega arith) refl e4,
        number 28 32 4 _ (omega arith) (omega arith) refl e5,
        number 32 40 8 _ (omega arith) (omega arith) refl e6,
        number 56 64 8 _ (omega arith) (omega arith) refl e8,
        operation_slice parts,
        number 129 137 8 _ (omega arith) (omega arith) refl e12,
        number 137 145 8 _ (omega arith) (omega arith) refl e13,
        number 145 147 2 _ (omega arith) (omega arith) refl e14,
        number 147 149 2 _ (omega arith) (omega arith) refl (declared_length parts),
        slice-rest_from 149 p,
      )

  pub payload_again : Parts p r → flatten (fields r) ≡ p
  payload_again parts =
      let long = checked.shortest in
      ap flatten (fields-pieces parts) ∙ flatten-pieces 0 places p (omega arith)
