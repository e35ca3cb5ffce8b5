-- ===== src/Tripwire/Window/Suspension.antt =====
-- When an operation leads to the recommendation to suspend its process.
use kavach_npu.Prelude.{
  ℕ, ◌≤◌, ◌≡◌, ◌↔◌, refl, sym, ap, ◌∙◌, true, false, List, [], ◌∷◌, ◌++◌, Option, some, leb, length,
  arith, Bool-cases, inl, inr,
}
use kavach_npu.Prelude.Float.{Floats}
use kavach_npu.Prelude.Order.{has, length-sort}
use kavach_npu.Prelude.Three.{Three, Three-weaken, three_iff}
use kavach_npu.Core.Contracts.{suspend_and_alert}
use kavach_npu.Tripwire.Entropy.{differential_entropy}
use kavach_npu.Tripwire.Entropy.Blocks.{high_blocks, low_blocks_pass}
use kavach_npu.Tripwire.Operation.{FileOperationEvent, ProcessBurstEvaluation, WriteBurstTracker}
use kavach_npu.Tripwire.Window.{
  no_totals, totals_from, of_process, new_burst_tracker, make_write_event, burst_evaluation,
  evaluate_pid, ingest_operation,
}
use kavach_npu.Tripwire.Window.History.{
  FileOperation, InOrder, last_time, recent, ingest, ingest_all, ingest-recent, ingest_all-recent,
}
use kavach_npu.Tripwire.Window.Evaluation.{touches, blocks_of, counted, evaluate_pid-some_iff}

module _ (fl : Floats) (sha256 : List ℕ → List ℕ) where
  open fl use {double}

  -- The operations of the last one's process that are at most 50 ms old.
  abbrev pub own_recent : List FileOperation → FileOperation → List (FileOperationEvent double)
  own_recent history o = of_process double o.pid (recent double 50 o.now_ms (history ++ (o ∷ [])))

  -- The answer to the operation `o` that follows the history.
  abbrev pub answer : List FileOperation → FileOperation → Option (ProcessBurstEvaluation fl)
  answer history o =
      (ingest_operation fl sha256 (ingest_all fl sha256 (new_burst_tracker double) history) o.pid
        o.path o.contents o.is_rename o.now_ms).1

  abbrev window_of : List (FileOperationEvent double) → WriteBurstTracker double
  window_of es = record { window_duration_ms = 50; suspension_file_threshold = 3; events = es }

  -- The evaluation of the operations in the window.
  abbrev evaluation_of : List FileOperation → FileOperation → ProcessBurstEvaluation fl
  evaluation_of history o =
      let es = own_recent history o in
      burst_evaluation fl sha256 (window_of (recent double 50 o.now_ms (history ++ (o ∷ [])))) o.pid
        o.now_ms es (totals_from double (no_totals double) es)

  own_recent-nonempty :
      (history : List FileOperation) (o : FileOperation) → 1 ≤ length (own_recent history o)
  unfolding make_write_event
  own_recent-nonempty [] o = ground arith
  own_recent-nonempty (before ∷ history) o = ground (arith, own_recent-nonempty history o)

  answer_lem :
      (history : List FileOperation) (o : FileOperation)
      → InOrder 0 history
      → last_time 0 history ≤ o.now_ms
      → answer history o ≡ some (evaluation_of history o)
  unfolding ingest_operation new_burst_tracker
  answer_lem history o ordered later =
      let window = recent double 50 o.now_ms (history ++ (o ∷ [])) in
      let reached =
        ap (λ t. ingest fl sha256 t o) (ingest_all-recent fl sha256 50 3 history ordered)
        ∙ ingest-recent fl sha256 50 3 (last_time 0 history) history o later in
      ap (λ t. evaluate_pid fl sha256 t o.pid o.now_ms) reached
      ∙ (evaluate_pid-some_iff fl sha256 (window_of window) o.pid o.now_ms _).1
          (own_recent-nonempty history o, refl)

  suspends_iff :
      (t : WriteBurstTracker double) (pid now : ℕ) (es : List (FileOperationEvent double))
      → t.suspension_file_threshold ≡ 3
      → let totals = totals_from double (no_totals double) es in
        ((burst_evaluation fl sha256 t pid now es totals).recommended_action ≡ suspend_and_alert)
        ↔ (((differential_entropy double (blocks_of double es)).is_anomalous ≡ true)
            × Three (λ p. touches double p es ≡ true))
  unfolding burst_evaluation
  suspends_iff t pid now es three =
      let totals = totals_from double (no_totals double) es in
      let c = counted double es in
      let blocks = ap (λ bs. (differential_entropy double bs).is_anomalous) c.blocks in
      let paths : (3 ≤ length totals.distinct_files) ↔ Three (λ p. touches double p es ≡ true) = (
        λ h.
            Three-weaken (λ p. has p totals.distinct_files ≡ true) (λ p. touches double p es ≡ true)
              (λ p e. sym (c.files p) ∙ e) ((three_iff totals.distinct_files c.unrepeated).0 h),
        λ h. (three_iff totals.distinct_files c.unrepeated).1 (
            Three-weaken (λ p. touches double p es ≡ true) (λ p. has p totals.distinct_files ≡ true)
              (λ p e. c.files p ∙ e) h),
      ) in
      (
        λ h. (
          ground (arith, h, blocks),
          paths.0 (ground (arith, h, three, length-sort totals.distinct_files)),
        ),
        λ (a, b). ground (arith, a, blocks, three, paths.1 b, length-sort totals.distinct_files),
      )

  -- While the clock does not go back, every operation is answered with an evaluation of its process,
  -- which recommends a suspension exactly when the blocks that the process wrote in the last 50 ms
  -- are anomalous as a run and three different paths were written or renamed by it in that time.
  pub suspend_iff :
      (history : List FileOperation) (o : FileOperation)
      → InOrder 0 history
      → last_time 0 history ≤ o.now_ms
      → let es = own_recent history o in
        (ev : ProcessBurstEvaluation fl) × (answer history o ≡ some ev)
        × ((ev.recommended_action ≡ suspend_and_alert) ↔ (
            ((differential_entropy double (blocks_of double es)).is_anomalous ≡ true)
            × Three (λ p. touches double p es ≡ true)))
  suspend_iff history o ordered later = (
    evaluation_of history o,
    answer_lem history o ordered later,
    suspends_iff _ o.pid o.now_ms (own_recent history o) refl,
  )

  -- No suspension is recommended while none of the blocks that the process wrote in the last 50 ms
  -- has an entropy of 7.95 bits or more, if 0 divided by a number of blocks is never 0.7 or more.
  pub suspend_needs_high_block :
      (history : List FileOperation) (o : FileOperation) (ev : ProcessBurstEvaluation fl)
      → ((n : ℕ)
          → double.le (double.lit 7 1) (double.div (double.of_nat 0) (double.of_nat n)) ≡ false)
      → InOrder 0 history
      → last_time 0 history ≤ o.now_ms
      → answer history o ≡ some ev
      → ev.recommended_action ≡ suspend_and_alert
      → 1 ≤ high_blocks double (blocks_of double (own_recent history o))
  suspend_needs_high_block history o ev small ordered later h suspended =
      let es = own_recent history o in
      let same : evaluation_of history o ≡ ev = cc (answer_lem history o ordered later, h) in
      let anomalous =
        ((suspends_iff _ o.pid o.now_ms es refl).0
          (ap (λ e. e.recommended_action) same ∙ suspended)).0 in
      elim (Bool-cases (leb 1 (high_blocks double (blocks_of double es)))) [
        | inl e ↦ ground (arith, e)
        | inr e ↦ absurd (
            cc (
              anomalous,
              low_blocks_pass double (blocks_of double es) (small _) (ground (arith, e)),
            ))
      ]
