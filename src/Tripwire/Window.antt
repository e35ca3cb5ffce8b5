-- ===== src/Tripwire/Window.antt =====
-- crates/kavach-tripwire/src/sliding_window.rs and lib.rs: the window of file operations, and what
-- it says of a process. SHA-256 and the floating-point numbers are arguments. A path is the list of
-- its bytes, and a `HashSet` of paths a list without repetition.
pub mod History
pub mod Evaluation
pub mod Suspension
use kavach_npu.Prelude.{
  ℕ, suc, ◌+◌, ◌-◌, ◌%◌, ◌^◌, Bool, true, false, ◌&&◌, List, [], ◌∷◌, ◌++◌, map, Option, none, some,
  ltb, leb, ◌==◌, if◌then◌else◌, length, replicate, filter, iterate, last?,
}
use kavach_npu.Prelude.Bytes.{be_bytes, flatten}
use kavach_npu.Prelude.Float.{Float, Floats}
use kavach_npu.Prelude.Order.{add, sort}
use kavach_npu.Core.Contracts.{EnforcementAction, alert, suspend_and_alert}
use kavach_npu.Tripwire.Operation.{
  default_sliding_window_ms, default_suspension_file_threshold, npu_time_slots,
  npu_features_per_slot, FileOperationEvent, ProcessBurstEvaluation, WriteBurstTracker, BurstTotals,
}
use kavach_npu.Tripwire.Entropy.{
  SparseEntropySummary, differential_entropy, block_entropy_scan, default_block_size,
}

module _ (d : Float) where
  unfoldable pub burst_tracker_with : ℕ → ℕ → WriteBurstTracker d
  burst_tracker_with duration threshold = record {
    window_duration_ms = duration;
    suspension_file_threshold = threshold;
    events = [];
  }

  unfoldable pub new_burst_tracker : WriteBurstTracker d
  unfolding burst_tracker_with
  new_burst_tracker = burst_tracker_with default_sliding_window_ms default_suspension_file_threshold

  -- `saturating_sub` is `-` on ℕ.
  abbrev pub is_recent : ℕ → FileOperationEvent d → Bool
  is_recent cutoff e = leb cutoff e.timestamp_ms

  unfoldable pub purge_expired : WriteBurstTracker d → ℕ → WriteBurstTracker d
  purge_expired t now_ms = record t {
    events = filter (is_recent (now_ms - t.window_duration_ms)) t.events;
  }

  unfoldable pub record_file_event :
      WriteBurstTracker d → FileOperationEvent d → ℕ → WriteBurstTracker d
  record_file_event t event now_ms =
      purge_expired (record t { events = t.events ++ (event ∷ []) }) now_ms

  unfoldable pub make_write_event : ℕ → ℕ → List ℕ → List ℕ → Bool → FileOperationEvent d
  make_write_event pid timestamp_ms path bytes is_rename = record {
    pid = pid;
    timestamp_ms = timestamp_ms;
    path = path;
    bytes_written = length bytes;
    block_entropies = block_entropy_scan d bytes default_block_size;
    is_rename = is_rename;
  }

  -- `usize` and `u64` additions wrap in a release build; the counts of events cannot reach 2^64.
  abbrev pub no_totals : BurstTotals d
  no_totals = record {
    total_writes = 0;
    total_renames = 0;
    total_bytes = 0;
    distinct_files = [];
    all_block_entropies = [];
  }

  unfoldable pub count_event : BurstTotals d → FileOperationEvent d → BurstTotals d
  count_event t e = record {
    total_writes = if e.is_rename then t.total_writes else t.total_writes + 1;
    total_renames = if e.is_rename then t.total_renames + 1 else t.total_renames;
    total_bytes = (t.total_bytes + e.bytes_written) % 2 ^ 64;
    distinct_files = add e.path t.distinct_files;
    all_block_entropies = t.all_block_entropies ++ e.block_entropies;
  }

  unfoldable pub totals_from : BurstTotals d → List (FileOperationEvent d) → BurstTotals d
  totals_from t [] = t
  totals_from t (e ∷ es) = totals_from (count_event t e) es

  abbrev pub of_process : ℕ → List (FileOperationEvent d) → List (FileOperationEvent d)
  of_process pid = filter (λ e. e.pid == pid)

module _ (fl : Floats) where
  open fl use {double, single, narrow}

  -- The row of a bucket's events, with the totals that the loop over them makes.
  abbrev pub bucket_row : BurstTotals double → List single.F
  bucket_row t =
      let summary = differential_entropy double t.all_block_entropies in
      narrow (double.div summary.mean_entropy (double.lit 80 1))
      ∷ single.clamp (single.div (single.of_nat t.total_renames) (single.lit 100 1))
          (single.lit 0 0) (single.lit 10 1)
      ∷ single.clamp (single.div (single.of_nat t.total_bytes) (single.lit 655360 1))
          (single.lit 0 0) (single.lit 10 1)
      ∷ narrow summary.intermittent_encryption_score
      ∷ []

  -- `start_ms + (i as f64 * bucket_duration) as u64`
  abbrev pub bucket_bound : ℕ → ℕ → ℕ → ℕ
  bucket_bound window_ms start_ms i =
      let bucket_duration = double.div (double.of_nat window_ms) (double.of_nat npu_time_slots) in
      (start_ms + double.as_u64 (double.mul (double.of_nat i) bucket_duration)) % 2 ^ 64

  abbrev pub in_bucket : ℕ → ℕ → ℕ → FileOperationEvent double → Bool
  in_bucket window_ms start_ms i e =
      leb (bucket_bound window_ms start_ms i) e.timestamp_ms
      && ltb e.timestamp_ms (bucket_bound window_ms start_ms (i + 1))

  abbrev pub zero_row : List single.F
  zero_row = replicate npu_features_per_slot (single.lit 0 0)

  unfoldable pub slot_row : List (FileOperationEvent double) → List single.F
  slot_row [] = zero_row
  slot_row (e ∷ es) = bucket_row (totals_from double (no_totals double) (e ∷ es))

  unfoldable pub feature_matrix : ℕ → ℕ → List (FileOperationEvent double) → List (List single.F)
  feature_matrix window_ms start_ms es =
      map (λ i. slot_row (filter (in_bucket window_ms start_ms i) es))
        (iterate suc 0 npu_time_slots)

  unfoldable pub evidence_count :
      WriteBurstTracker double → BurstTotals double → SparseEntropySummary double → ℕ
  evidence_count t totals summary =
      (if double.le (double.lit 795 2) summary.max_entropy then 1 else 0)
      + (if summary.is_anomalous then 1 else 0)
      + (if leb 3 totals.total_renames then 1 else 0)
      + (if leb t.suspension_file_threshold (length totals.distinct_files) then 1 else 0)

  module _ (sha256 : List ℕ → List ℕ) where
    -- What `evaluate_pid` makes of the totals.
    unfoldable pub burst_evaluation :
        WriteBurstTracker double
        → ℕ
        → ℕ
        → List (FileOperationEvent double)
        → BurstTotals double
        → ProcessBurstEvaluation fl
    burst_evaluation t pid now_ms pid_events totals =
        let summary = differential_entropy double totals.all_block_entropies in
        let start_ms = now_ms - t.window_duration_ms in
        let sorted_files = sort totals.distinct_files in
        record {
          pid = pid;
          window_start_ms = start_ms;
          window_duration_ms = t.window_duration_ms;
          total_writes = totals.total_writes;
          total_renames = totals.total_renames;
          total_bytes = totals.total_bytes;
          distinct_files = sorted_files;
          entropy_summary = summary;
          tensor_matrix = feature_matrix t.window_duration_ms start_ms pid_events;
          recommended_action =
              if summary.is_anomalous && leb t.suspension_file_threshold (length sorted_files)
              then suspend_and_alert
              else alert;
          corroborating_evidence_count = evidence_count t totals summary;
          evidence_digest =
              sha256 (be_bytes 4 pid ++ (be_bytes 8 totals.total_bytes ++ flatten sorted_files));
        }

    unfoldable pub evaluate_pid :
        WriteBurstTracker double → ℕ → ℕ → Option (ProcessBurstEvaluation fl)
    evaluate_pid t pid now_ms =
        let pid_events = of_process double pid t.events in
        if length pid_events == 0
        then none
        else some (
            burst_evaluation t pid now_ms pid_events
              (totals_from double (no_totals double) pid_events))

    -- The features of the last event's process, or zeros.
    unfoldable pub build_burst_matrix : WriteBurstTracker double → List (List single.F)
    build_burst_matrix t = elim (last? t.events) [
      | none ↦ replicate npu_time_slots zero_row
      | some last_event ↦ elim (evaluate_pid t last_event.pid last_event.timestamp_ms) [
        | none ↦ replicate npu_time_slots zero_row
        | some evaluation ↦ evaluation.tensor_matrix
      ]
    ]

    -- `EntropyEngine::ingest_operation`; the engine holds a tracker and nothing else.
    unfoldable pub ingest_operation :
        WriteBurstTracker double
        → ℕ
        → List ℕ
        → List ℕ
        → Bool
        → ℕ
        → WriteBurstTracker double × Option (ProcessBurstEvaluation fl)
    ingest_operation t pid path bytes is_rename now_ms =
        let t' =
          record_file_event double t (make_write_event double pid now_ms path bytes is_rename)
            now_ms in
        (t', evaluate_pid t' pid now_ms)
