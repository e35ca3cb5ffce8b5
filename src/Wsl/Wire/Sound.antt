-- ===== src/Wsl/Wire/Sound.antt =====
-- crates/kavach-wsl/src/wire.rs: what a frame that is read says of its bytes and of the record.
use mathlib.Core.List.{append-nil}
use kavach_npu.Prelude.{
  ℕ, ◌+◌, ◌-◌, ◌%◌, ◌^◌, ◌≡◌, List, [], ◌++◌, ok, length, ap, ◌∙◌, arith, All, length-drop,
  All-drop, ap₂,
}
use kavach_npu.Prelude.Bytes.{
  be_at, slice, rest_from, flatten, IsByte, be_bytes, be_bytes-from_be, slice-IsBytes,
}
use kavach_npu.Wsl.Records.{GuestWriteRecord, IsGuestWriteRecord}
use kavach_npu.Wsl.Wire.{from_frame, to_frame}
use kavach_npu.Wsl.Wire.RoundTrip.{IsAcceptable, to_frame-framed, framed}
use kavach_npu.Wsl.Wire.Payload.{
  Parts, Checked, from_payload-Parts, from_payload-Checked, from_frame_inv, slice-append-rest_from,
  Parts-IsGuestWriteRecord, path_length, Parts-IsAcceptable, payload_again,
}

module _ (frame : List ℕ) (r : GuestWriteRecord) (bytes : All IsByte frame)
    (h : from_frame frame ≡ ok r) where
  abbrev payload : List ℕ
  payload = rest_from 4 frame

  payload_bytes : All IsByte payload
  unfolding rest_from
  payload_bytes = All-drop IsByte 4 frame bytes

  length-payload : length payload ≡ length frame - 4
  unfolding rest_from
  length-payload = length-drop 4 frame

  Checked-payload : Checked payload r
  Checked-payload = from_payload-Checked payload r (from_frame_inv frame r h).2

  payload-Parts : Parts payload r
  payload-Parts = from_payload-Parts payload r (from_frame_inv frame r h).2

  read_fits_record : IsGuestWriteRecord r
  read_fits_record = Parts-IsGuestWriteRecord payload r Checked-payload payload_bytes payload-Parts

  read_acceptable : IsAcceptable r
  read_acceptable = Parts-IsAcceptable payload r Checked-payload payload_bytes payload-Parts

  prefix_again : be_bytes 4 ((149 + length r.normalized_path) % 2 ^ 32) ≡ slice 0 4 frame
  prefix_again =
      let (long, e, _) = from_frame_inv frame r h in
      let path = path_length payload r Checked-payload payload_bytes payload-Parts in
      let short = Checked-payload.longest in
      let len = length-payload in
      let total : (149 + length r.normalized_path) % 2 ^ 32 ≡ be_at 0 4 frame =
        omega (arith, path, short, len, e) in
      ap (be_bytes 4) total
      ∙ be_bytes-from_be 4 (slice 0 4 frame)
          (slice-IsBytes 0 4 frame (omega arith) (omega arith) bytes)

  frame_again : flatten (framed r read_fits_record read_acceptable) ≡ frame
  frame_again =
      ap₂ (λ front back. front ++ (back ++ [])) prefix_again
        (payload_again payload r Checked-payload payload_bytes payload-Parts)
      ∙ ap (◌++◌ (slice 0 4 frame)) (append-nil payload)
      ∙ slice-append-rest_from frame

-- What is read from bytes has fields in their ranges, the supported major version, a positive
-- sequence number, no flags, and a normalized UTF-8 path of 1 to 4096 bytes.
from_frame_sound :
    (frame : List ℕ) (r : GuestWriteRecord)
    → All IsByte frame
    → from_frame frame ≡ ok r
    → IsGuestWriteRecord r × IsAcceptable r
from_frame_sound frame r bytes h =
    (read_fits_record frame r bytes h, read_acceptable frame r bytes h)

-- A frame that is read is the very frame that the sender makes of the record: no two byte strings
-- are read as the same record.
pub to_frame-from_frame :
    (frame : List ℕ) (r : GuestWriteRecord)
    → All IsByte frame
    → from_frame frame ≡ ok r
    → to_frame r ≡ ok frame
to_frame-from_frame frame r bytes h =
    to_frame-framed r (read_fits_record frame r bytes h) (read_acceptable frame r bytes h)
    ∙ ap ok (frame_again frame r bytes h)
