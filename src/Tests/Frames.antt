-- ===== src/Tests/Frames.antt =====
-- The guest agent's frames on concrete inputs.
use kavach_npu.Prelude.{ℕ, ◌≡◌, refl, ok, List, All}
use native.Mathlib.Omega.{arith}
use kavach_npu.Prelude.Bytes.{IsByte, from_be, slice, byte_at, rest_from, bytes_eq}
use kavach_npu.Wsl.Records.{IsGuestWriteRecord}
use kavach_npu.Wsl.Utf8.{is_utf8}
use kavach_npu.Wsl.Path.{is_normalized_mnt_path, starts_with, split, check_segments}
use kavach_npu.Wsl.Wire.{to_frame, from_frame, from_payload, operation_of_byte}
use kavach_npu.Wsl.Wire.RoundTrip.{IsAcceptable, from_frame-to_frame}
use kavach_npu.Wsl.Wire.Sound.{to_frame-from_frame}
use kavach_npu.Tests.Samples.{sample_record, sample_frame}

sample_record_fits : IsGuestWriteRecord sample_record
sample_record_fits = omega arith

sample_record_acceptable : IsAcceptable sample_record
unfolding is_utf8 is_normalized_mnt_path starts_with split check_segments bytes_eq
sample_record_acceptable = record {
  version = refl;
  positive = omega arith;
  no_flags = refl;
  some_path = omega arith;
  path_length = omega arith;
  path_utf8 = refl;
  path_normalized = refl;
}

sample_frame_bytes : All IsByte sample_frame
sample_frame_bytes = omega arith

sample_frame_read : from_frame sample_frame ≡ ok sample_record
unfolding from_frame from_payload operation_of_byte from_be slice byte_at rest_from is_utf8
    is_normalized_mnt_path starts_with split check_segments bytes_eq
sample_frame_read = refl

from_frame-to_frame_example :
    (frame : List ℕ) × (to_frame sample_record ≡ ok frame) × (from_frame frame ≡ ok sample_record)
from_frame-to_frame_example =
    from_frame-to_frame sample_record sample_record_fits sample_record_acceptable

to_frame-from_frame_example : to_frame sample_record ≡ ok sample_frame
to_frame-from_frame_example =
    to_frame-from_frame sample_frame sample_record sample_frame_bytes sample_frame_read
