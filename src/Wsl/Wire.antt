-- ===== src/Wsl/Wire.antt =====
-- crates/kavach-wsl/src/wire.rs: the AF_VSOCK frame of a guest write record.
pub mod RoundTrip
pub mod Payload
pub mod Sound
use kavach_npu.Prelude.{
  ℕ, zero, suc, ◌+◌, ◌-◌, ◌%◌, ◌^◌, Bool, not, ◌&&◌, List, [], ◌∷◌, ◌++◌, Result, ok, err, ◌>>=◌,
  ◌>>◌, reject_if, ltb, leb, ◌==◌, length, drop,
}
use kavach_npu.Prelude.Bytes.{be_bytes, be_at, byte_at, slice, rest_from}
use kavach_npu.Wsl.Records.{
  GuestWriteRecord, GuestFileOperation, write, rename, delete, operation_byte,
}
use kavach_npu.Wsl.Path.{is_normalized_mnt_path}
use kavach_npu.Wsl.Utf8.{is_utf8}

abbrev pub supported_vsock_major : ℕ
supported_vsock_major = 1

abbrev pub fixed_header_size : ℕ
fixed_header_size = 149

abbrev pub min_payload_size : ℕ
min_payload_size = 150

abbrev pub max_payload_size : ℕ
max_payload_size = 4245

abbrev pub length_prefix_size : ℕ
length_prefix_size = 4

pub data VsockWireError : Type 0 where
  frame_too_small : (expected_at_least actual : ℕ) → VsockWireError
  payload_length_out_of_bounds : (len : ℕ) → VsockWireError
  payload_length_mismatch : (declared actual : ℕ) → VsockWireError
  unsupported_major_version : ℕ → VsockWireError
  zero_sequence_number : VsockWireError
  invalid_operation : ℕ → VsockWireError
  nonzero_flags : ℕ → VsockWireError
  path_length_mismatch : (declared actual : ℕ) → VsockWireError
  invalid_utf8_path : VsockWireError
  non_normalized_path : List ℕ → VsockWireError

-- `(lo..=hi).contains(&n)`
abbrev pub in_range : ℕ → ℕ → ℕ → Bool
in_range lo hi n = leb lo n && leb n hi

-- The fixed header, field by field, and the path.
unfoldable pub header_and_path : GuestWriteRecord → List ℕ
header_and_path r =
    be_bytes 2 r.version.major
    ++ (be_bytes 2 r.version.minor
        ++ (be_bytes 8 r.sequence_number
            ++ (be_bytes 8 r.guest_monotonic_ns
                ++ (be_bytes 8 r.guest_realtime_ns
                    ++ (be_bytes 4 r.guest_process_id
                        ++ (be_bytes 8 r.guest_process_start_ticks
                            ++ (r.distribution_id
                                ++ (be_bytes 8 r.mount_namespace_id
                                    ++ (r.executable_sha256
                                        ++ (r.cgroup_sha256
                                            ++ ((operation_byte r.operation ∷ [])
                                                ++ (be_bytes 8 r.byte_range_start
                                                    ++ (be_bytes 8 r.byte_range_length
                                                        ++ (be_bytes 2 r.flags
                                                            ++ (be_bytes 2
                                                            (length r.normalized_path % 2 ^ 16)
                                                            ++ r.normalized_path)))))))))))))))

unfoldable pub to_frame : GuestWriteRecord → Result VsockWireError (List ℕ)
to_frame r = do
  reject_if (not (is_normalized_mnt_path r.normalized_path)) (non_normalized_path r.normalized_path)
  let path_len = length r.normalized_path
  reject_if (not (in_range 1 4096 path_len)) (path_length_mismatch path_len path_len)
  let payload_len = fixed_header_size + path_len
  reject_if (not (in_range min_payload_size max_payload_size payload_len))
      (payload_length_out_of_bounds payload_len)
  ok (be_bytes 4 (payload_len % 2 ^ 32) ++ header_and_path r)

-- `match payload[128] { .. }`
unfoldable pub operation_of_byte : ℕ → Result VsockWireError GuestFileOperation
operation_of_byte zero = err (invalid_operation zero)
operation_of_byte (suc zero) = ok write
operation_of_byte (suc (suc zero)) = ok rename
operation_of_byte (suc (suc (suc zero))) = ok delete
operation_of_byte (suc (suc (suc (suc n)))) = err (invalid_operation (suc (suc (suc (suc n)))))

-- The checks stand in the source's order, between the reads.
unfoldable pub from_payload : List ℕ → Result VsockWireError GuestWriteRecord
from_payload p = do
  reject_if (not (in_range min_payload_size max_payload_size (length p)))
      (payload_length_out_of_bounds (length p))
  let major = be_at 0 2 p
  reject_if (not (major == supported_vsock_major)) (unsupported_major_version major)
  let minor = be_at 2 4 p
  let sequence_number = be_at 4 12 p
  reject_if (sequence_number == 0) zero_sequence_number
  let guest_monotonic_ns = be_at 12 20 p
  let guest_realtime_ns = be_at 20 28 p
  let guest_process_id = be_at 28 32 p
  let guest_process_start_ticks = be_at 32 40 p
  let distribution_id = slice 40 56 p
  let mount_namespace_id = be_at 56 64 p
  let executable_sha256 = slice 64 96 p
  let cgroup_sha256 = slice 96 128 p
  operation ← operation_of_byte (byte_at 128 p)
  let byte_range_start = be_at 129 137 p
  let byte_range_length = be_at 137 145 p
  let flags = be_at 145 147 p
  reject_if (not (flags == 0)) (nonzero_flags flags)
  let declared_path_len = be_at 147 149 p
  let available_path_len = length p - fixed_header_size
  reject_if (not (declared_path_len == available_path_len))
      (path_length_mismatch declared_path_len available_path_len)
  let path = rest_from fixed_header_size p
  reject_if (not (is_utf8 path)) invalid_utf8_path
  reject_if (not (is_normalized_mnt_path path)) (non_normalized_path path)
  ok (record {
    version = record { major = major; minor = minor };
    sequence_number = sequence_number;
    guest_monotonic_ns = guest_monotonic_ns;
    guest_realtime_ns = guest_realtime_ns;
    guest_process_id = guest_process_id;
    guest_process_start_ticks = guest_process_start_ticks;
    distribution_id = distribution_id;
    mount_namespace_id = mount_namespace_id;
    executable_sha256 = executable_sha256;
    cgroup_sha256 = cgroup_sha256;
    operation = operation;
    normalized_path = path;
    byte_range_start = byte_range_start;
    byte_range_length = byte_range_length;
    flags = flags;
  })

unfoldable pub from_frame : List ℕ → Result VsockWireError GuestWriteRecord
from_frame frame = do
  reject_if (ltb (length frame) (length_prefix_size + min_payload_size))
      (frame_too_small (length_prefix_size + min_payload_size) (length frame))
  let declared = be_at 0 4 frame
  let actual = length frame - length_prefix_size
  reject_if (not (declared == actual)) (payload_length_mismatch declared actual)
  from_payload (rest_from length_prefix_size frame)
