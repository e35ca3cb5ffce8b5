-- ===== src/Wsl/Records.antt =====
-- crates/kavach-wsl/src/lib.rs: the record that a guest agent sends for a file operation.
-- A string is the list of its UTF-8 bytes; `IsGuestWriteRecord` states the ranges of the fields.
use kavach_npu.Prelude.{ℕ, ◌<◌, ◌^◌, List, All}
use kavach_npu.Prelude.Bytes.{IsByte, IsBytes}
use kavach_npu.Core.Contracts.{ArtifactVersion}

pub data GuestFileOperation : Type 0 where
  write rename delete : GuestFileOperation

-- `operation as u8`: the declared discriminants.
unfoldable pub operation_byte : GuestFileOperation → ℕ
operation_byte write = 1
operation_byte rename = 2
operation_byte delete = 3

pub record GuestWriteRecord : Type 0 where
  pub version : ArtifactVersion
  pub sequence_number : ℕ
  pub guest_monotonic_ns : ℕ
  pub guest_realtime_ns : ℕ
  pub guest_process_id : ℕ
  pub guest_process_start_ticks : ℕ
  pub distribution_id : List ℕ
  pub mount_namespace_id : ℕ
  pub executable_sha256 : List ℕ
  pub cgroup_sha256 : List ℕ
  pub operation : GuestFileOperation
  pub normalized_path : List ℕ
  pub byte_range_start : ℕ
  pub byte_range_length : ℕ
  pub flags : ℕ

-- The ranges that Rust's field types give.
pub record IsGuestWriteRecord (r : GuestWriteRecord) : Type 0 where
  pub major_fits : r.version.major < 256 ^ 2
  pub minor_fits : r.version.minor < 256 ^ 2
  pub sequence_fits : r.sequence_number < 256 ^ 8
  pub monotonic_fits : r.guest_monotonic_ns < 256 ^ 8
  pub realtime_fits : r.guest_realtime_ns < 256 ^ 8
  pub process_id_fits : r.guest_process_id < 256 ^ 4
  pub start_ticks_fits : r.guest_process_start_ticks < 256 ^ 8
  pub distribution_id_fits : IsBytes 16 r.distribution_id
  pub mount_namespace_fits : r.mount_namespace_id < 256 ^ 8
  pub executable_fits : IsBytes 32 r.executable_sha256
  pub cgroup_fits : IsBytes 32 r.cgroup_sha256
  pub path_fits : All IsByte r.normalized_path
  pub range_start_fits : r.byte_range_start < 256 ^ 8
  pub range_length_fits : r.byte_range_length < 256 ^ 8
  pub flags_fit : r.flags < 256 ^ 2
