-- ===== src/Tests/Agents.antt =====
-- The guest agent on concrete inputs.
use kavach_npu.Prelude.{ℕ, ◌≡◌, refl, true, List, [], ◌∷◌, ok, replicate, arith}
use kavach_npu.Prelude.Bytes.{IsBytes, bytes_eq}
use kavach_npu.Wsl.Records.{GuestWriteRecord, write}
use kavach_npu.Wsl.Wire.{to_frame, from_frame}
use kavach_npu.Wsl.Utf8.{is_utf8}
use kavach_npu.Wsl.Path.{is_normalized_mnt_path, starts_with, split, check_segments}
use kavach_npu.Guest.Audit.{GuestAuditSource, Operation, record_operation}
use kavach_npu.Guest.Audit.Laws.{
  IsOperation, IsSource, NumberedFrom, records, record_operation-frame, records-NumberedFrom,
}

abbrev sample_source : GuestAuditSource
sample_source = record { distribution_id = replicate 16 0x42; sequence_counter = 1 }

-- A write to /mnt/c/a.
abbrev sample_operation : Operation
sample_operation = record {
  pid = 1234;
  executable_path = [];
  normalized_path = b'/' ∷ b'm' ∷ b'n' ∷ b't' ∷ b'/' ∷ b'c' ∷ b'/' ∷ b'a' ∷ [];
  operation = write;
  byte_range_start = 0;
  byte_range_length = 4096;
  elapsed_ns = 5;
  realtime_ns = 7;
}

-- Standing for SHA-256: 32 zeros.
abbrev zeros : List ℕ → List ℕ
zeros xs = replicate 32 0

zeros-IsBytes : (xs : List ℕ) → IsBytes 32 (zeros xs)
zeros-IsBytes xs = omega arith

sample_source-IsSource : IsSource sample_source
sample_source-IsSource = omega arith

sample_operation-IsOperation : IsOperation sample_operation
unfolding is_utf8
sample_operation-IsOperation = record {
  pid_fits = omega arith;
  path_fits = omega arith;
  path_utf8 = refl;
  start_fits = omega arith;
  length_fits = omega arith;
}

sample_path_normalized : is_normalized_mnt_path sample_operation.normalized_path ≡ true
unfolding is_normalized_mnt_path starts_with split check_segments bytes_eq
sample_path_normalized = refl

record_operation-frame_example :
    (r : GuestWriteRecord) × (frame : List ℕ) × ((record_operation zeros sample_source
        sample_operation).1
      ≡ ok r)
    × (to_frame r ≡ ok frame)
    × (from_frame frame ≡ ok r)
record_operation-frame_example =
    record_operation-frame zeros zeros-IsBytes sample_source sample_operation sample_source-IsSource
      sample_operation-IsOperation sample_path_normalized (omega arith) (omega arith)

records-NumberedFrom_example :
    NumberedFrom zeros 1 (records zeros sample_source (sample_operation ∷ sample_operation ∷ []))
records-NumberedFrom_example =
    records-NumberedFrom zeros sample_source (sample_operation ∷ sample_operation ∷ [])
      (omega arith)
