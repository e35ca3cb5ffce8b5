-- ===== src/Tripwire/Operation.antt =====
-- crates/kavach-tripwire/src/sliding_window.rs: the constants and the types of the window. A path is
-- the list of its bytes.
use kavach_npu.Prelude.{ℕ, Bool, List}
use kavach_npu.Prelude.Float.{Float, Floats}
use kavach_npu.Core.Contracts.{EnforcementAction}
use kavach_npu.Tripwire.Entropy.{SparseEntropySummary}

abbrev pub default_sliding_window_ms : ℕ
default_sliding_window_ms = 50

abbrev pub default_suspension_file_threshold : ℕ
default_suspension_file_threshold = 3

abbrev pub npu_time_slots : ℕ
npu_time_slots = 10

abbrev pub npu_features_per_slot : ℕ
npu_features_per_slot = 4

pub record FileOperationEvent (d : Float) : Type 0 where
  pub pid : ℕ
  pub timestamp_ms : ℕ
  pub path : List ℕ
  pub bytes_written : ℕ
  pub block_entropies : List d.F
  pub is_rename : Bool

pub record ProcessBurstEvaluation (fl : Floats) : Type 0 where
  pub pid : ℕ
  pub window_start_ms : ℕ
  pub window_duration_ms : ℕ
  pub total_writes : ℕ
  pub total_renames : ℕ
  pub total_bytes : ℕ
  pub distinct_files : List (List ℕ)
  pub entropy_summary : SparseEntropySummary fl.double
  pub tensor_matrix : List (List fl.single.F)
  pub recommended_action : EnforcementAction
  pub corroborating_evidence_count : ℕ
  pub evidence_digest : List ℕ

pub record WriteBurstTracker (d : Float) : Type 0 where
  pub window_duration_ms : ℕ
  pub suspension_file_threshold : ℕ
  pub events : List (FileOperationEvent d)

-- What the loop over a process's events adds up.
pub record BurstTotals (d : Float) : Type 0 where
  pub total_writes : ℕ
  pub total_renames : ℕ
  pub total_bytes : ℕ
  pub distinct_files : List (List ℕ)
  pub all_block_entropies : List d.F
