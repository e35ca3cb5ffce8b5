-- ===== src/Tests/Bursts.antt =====
-- The Tripwire's theorems on concrete inputs.
use native.Mathlib.Nat.{zero-div}
use kavach_npu.Prelude.{ℕ, ◌*◌, ◌≤◌, ◌≡◌, ◌↔◌, refl, true, false, List, [], ◌∷◌, some, take, arith}
use kavach_npu.Prelude.Bytes.{bytes_eq}
use kavach_npu.Prelude.Three.{Three}
use kavach_npu.Core.Contracts.{suspend_and_alert}
use kavach_npu.Tripwire.Entropy.{
  shannon_entropy, differential_entropy, block_entropy_scan, summary_of, scan_blocks, increment,
  tally, entropy_of,
}
use kavach_npu.Prelude.Chunks.{chunks, chunks_within}
use kavach_npu.Tripwire.Entropy.Counts.{shannon_entropy-counts}
use kavach_npu.Tripwire.Entropy.Blocks.{high_blocks}
use kavach_npu.Tripwire.Operation.{ProcessBurstEvaluation, WriteBurstTracker, FileOperationEvent}
use kavach_npu.Tripwire.Window.{
  burst_tracker_with, no_totals, totals_from, of_process, make_write_event, burst_evaluation,
}
use kavach_npu.Tripwire.Window.History.{
  FileOperation, last_time, recent, ingest_all, ingest_all-recent,
}
use kavach_npu.Tripwire.Window.Evaluation.{
  touches, blocks_of, Evaluates, evaluate_pid-some_iff, evaluate_pid-Evaluates,
}
use kavach_npu.Tripwire.Window.Suspension.{
  own_recent, answer, suspend_iff, suspend_needs_high_block,
}
use kavach_npu.Tests.Numbers.{hundredths, sample_floats}

-- Standing for SHA-256: the first 32 bytes.
abbrev short_digest : List ℕ → List ℕ
short_digest = take 32

-- A process overwrites the file of the number at the time.
abbrev overwrite : ℕ → ℕ → FileOperation
overwrite file time = record {
  pid = 7;
  path = file ∷ [];
  contents = 0 ∷ 0 ∷ [];
  is_rename = false;
  now_ms = time;
}

abbrev two_files : List FileOperation
two_files = overwrite 1 1000 ∷ overwrite 2 1010 ∷ []

ingest_all-recent_example :
    ingest_all sample_floats short_digest (burst_tracker_with hundredths 50 3) two_files ≡ record {
      window_duration_ms = 50;
      suspension_file_threshold = 3;
      events = recent hundredths 50 (last_time 0 two_files) two_files;
    }
ingest_all-recent_example =
    ingest_all-recent sample_floats short_digest 50 3 two_files (omega arith)

suspend_iff_example :
    let es = own_recent sample_floats short_digest two_files (overwrite 3 1020) in
    (ev : ProcessBurstEvaluation sample_floats) × (answer sample_floats short_digest two_files
        (overwrite 3 1020)
      ≡ some ev)
    × ((ev.recommended_action ≡ suspend_and_alert) ↔ (
        ((differential_entropy hundredths (blocks_of hundredths es)).is_anomalous ≡ true)
        × Three (λ p. touches hundredths p es ≡ true)))
suspend_iff_example =
    suspend_iff sample_floats short_digest two_files (overwrite 3 1020) (omega arith) (omega arith)

-- Three files overwritten in 20 ms.
burst_is_anomalous :
    (differential_entropy hundredths (
      blocks_of hundredths
        (own_recent sample_floats short_digest two_files (overwrite 3 1020)))).is_anomalous
    ≡ true
unfolding differential_entropy summary_of scan_blocks make_write_event block_entropy_scan
    shannon_entropy chunks chunks_within entropy_of tally increment
burst_is_anomalous = refl

burst_touches_three : Three (λ p.
    touches hundredths p (own_recent sample_floats short_digest two_files (overwrite 3 1020))
    ≡ true)
unfolding make_write_event bytes_eq
burst_touches_three = record {
  first = 1 ∷ [];
  second = 2 ∷ [];
  third = 3 ∷ [];
  first-ne-second = λ e. cc e;
  first-ne-third = λ e. cc e;
  second-ne-third = λ e. cc e;
  first_has = refl;
  second_has = refl;
  third_has = refl;
}

zero_is_no_share :
    (n : ℕ)
    → hundredths.le
        (hundredths.lit 7 1)
        (hundredths.div (hundredths.of_nat 0) (hundredths.of_nat n))
      ≡ false
zero_is_no_share n = ground (arith, zero-div (n * 100))

anomalous_burst :
    let es = own_recent sample_floats short_digest two_files (overwrite 3 1020) in
    (ev : ProcessBurstEvaluation sample_floats) × (answer sample_floats short_digest two_files
        (overwrite 3 1020)
      ≡ some ev)
    × (ev.recommended_action ≡ suspend_and_alert)
anomalous_burst =
    let (ev, found, suspends) =
      suspend_iff sample_floats short_digest two_files (overwrite 3 1020) (omega arith)
        (omega arith) in
    (ev, found, suspends.1 (burst_is_anomalous, burst_touches_three))

suspend_needs_high_block_example :
    1
    ≤ high_blocks hundredths
        (blocks_of hundredths (own_recent sample_floats short_digest two_files (overwrite 3 1020)))
suspend_needs_high_block_example =
    suspend_needs_high_block sample_floats short_digest two_files (overwrite 3 1020)
      anomalous_burst.0 zero_is_no_share (omega arith) (omega arith) anomalous_burst.1
      anomalous_burst.2

-- One overwrite of one file.
abbrev one_event : FileOperationEvent hundredths
one_event = record {
  timestamp_ms = 1000;
  pid = 7;
  path = 1 ∷ [];
  bytes_written = 2;
  is_rename = false;
  block_entropies = 0 ∷ [];
}

abbrev one_burst : WriteBurstTracker hundredths
one_burst = record {
  window_duration_ms = 50;
  suspension_file_threshold = 3;
  events = one_event ∷ [];
}

evaluate_pid-Evaluates_example :
    let es = of_process hundredths 7 one_burst.events in
    Evaluates sample_floats es (
      burst_evaluation sample_floats short_digest one_burst 7 1000 es
        (totals_from hundredths (no_totals hundredths) es))
evaluate_pid-Evaluates_example =
    let es = of_process hundredths 7 one_burst.events in
    let ev =
      burst_evaluation sample_floats short_digest one_burst 7 1000 es
        (totals_from hundredths (no_totals hundredths) es) in
    evaluate_pid-Evaluates sample_floats short_digest one_burst 7 1000 ev
      ((evaluate_pid-some_iff sample_floats short_digest one_burst 7 1000 ev).1 (omega arith, refl))

shannon_entropy-counts_example :
    shannon_entropy hundredths (1 ∷ 2 ∷ []) ≡ shannon_entropy hundredths (2 ∷ 1 ∷ [])
shannon_entropy-counts_example =
    shannon_entropy-counts hundredths (1 ∷ 2 ∷ []) (2 ∷ 1 ∷ []) (ground arith) (ground arith)
      (λ b h. ground arith)
