-- ===== src/Guest/Audit.antt =====
-- crates/kavach-wsl-guest/src/audit_source.rs: the records that the guest makes of file operations,
-- and clock_sync.rs: its answer to a challenge.
-- SHA-256 is an argument; what the clocks show is an argument of each operation.
pub mod Laws
use kavach_npu.Prelude.{
  ℕ, zero, suc, ◌+◌, ◌/◌, ◌%◌, ◌^◌, Bool, not, List, [], ◌∷◌, ◌++◌, Result, ok, err, ltb,
  if◌then◌else◌,
}
use kavach_npu.Wsl.Records.{GuestWriteRecord, GuestFileOperation}
use kavach_npu.Wsl.Path.{is_normalized_mnt_path}
use kavach_npu.Wsl.ClockSync.{ClockChallenge, ClockResponse}

-- The start instant only serves to read the clock.
pub record GuestAuditSource : Type 0 where
  pub distribution_id : List ℕ
  pub sequence_counter : ℕ

unfoldable pub new_source : List ℕ → GuestAuditSource
new_source id = record { distribution_id = id; sequence_counter = 1 }

-- The arguments of `record_operation`, and what the clocks show: nanoseconds since the start and
-- since the epoch.
pub record Operation : Type 0 where
  pub pid : ℕ
  pub executable_path : List ℕ
  pub normalized_path : List ℕ
  pub operation : GuestFileOperation
  pub byte_range_start : ℕ
  pub byte_range_length : ℕ
  pub elapsed_ns : ℕ
  pub realtime_ns : ℕ

-- `{pid}`: decimal digits, ten being enough for a u32.
decimal : ℕ → ℕ → List ℕ
decimal zero n = []
decimal (suc fuel) n =
    let rest = decimal fuel (n / 10) in
    if ltb n 10 then (n + b'0') ∷ [] else rest ++ ((n % 10 + b'0') ∷ [])

-- "/sys/fs/cgroup/user.slice/user-{pid}.slice"
unfoldable pub cgroup_path : ℕ → List ℕ
unfolding decimal
cgroup_path pid =
    (b'/' ∷ b's' ∷ b'y' ∷ b's' ∷ b'/' ∷ b'f' ∷ b's' ∷ b'/' ∷ b'c' ∷ b'g' ∷ b'r' ∷ b'o' ∷ b'u' ∷ b'p'
      ∷ b'/' ∷ b'u' ∷ b's' ∷ b'e' ∷ b'r' ∷ b'.' ∷ b's' ∷ b'l' ∷ b'i' ∷ b'c' ∷ b'e' ∷ b'/' ∷ b'u'
      ∷ b's' ∷ b'e' ∷ b'r' ∷ b'-' ∷ [])
    ++ (decimal 10 pid ++ (b'.' ∷ b's' ∷ b'l' ∷ b'i' ∷ b'c' ∷ b'e' ∷ []))

module _ (sha256 : List ℕ → List ℕ) where
  abbrev pub record_of : GuestAuditSource → Operation → GuestWriteRecord
  record_of s o = record {
    version = record { major = 1; minor = 0 };
    sequence_number = s.sequence_counter;
    guest_monotonic_ns = o.elapsed_ns % 2 ^ 64;
    guest_realtime_ns = o.realtime_ns % 2 ^ 64;
    guest_process_id = o.pid;
    guest_process_start_ticks = 1000;
    distribution_id = s.distribution_id;
    mount_namespace_id = 4026531840;
    executable_sha256 = sha256 o.executable_path;
    cgroup_sha256 = sha256 (cgroup_path o.pid);
    operation = o.operation;
    normalized_path = o.normalized_path;
    byte_range_start = o.byte_range_start;
    byte_range_length = o.byte_range_length;
    flags = 0;
  }

  -- An error is the path, which the message names.
  unfoldable pub record_operation :
      GuestAuditSource → Operation → GuestAuditSource × Result (List ℕ) GuestWriteRecord
  record_operation s o =
      if not (is_normalized_mnt_path o.normalized_path)
      then (s, err o.normalized_path)
      else (record s { sequence_counter = (s.sequence_counter + 1) % 2 ^ 64 }, ok (record_of s o))

-- The clock is read twice.
unfoldable pub respond_to_challenge : ClockChallenge → ℕ → ℕ → ClockResponse
respond_to_challenge c first second = record {
  nonce = c.nonce;
  g1_guest_monotonic_ns = first % 2 ^ 64;
  g2_guest_monotonic_ns = second % 2 ^ 64;
}
