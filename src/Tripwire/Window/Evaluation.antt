-- ===== src/Tripwire/Window/Evaluation.antt =====
-- What the evaluation of a process says of its events in the window.
use mathlib.Core.List.{append-nil, append_assoc}
use kavach_npu.Prelude.{
  map, ℕ, zero, suc, ◌+◌, ◌≤◌, ◌≡◌, ◌≢◌, ◌↔◌, refl, sym, ap, subst, ◌∙◌, Bool, ◌||◌, List, [], ◌∷◌,
  ◌++◌, some, ◌==◌, length, any, filter, IsMatrix, arith, Bool-cases, inl, inr, iterate,
}
use kavach_npu.Prelude.Bytes.{bytes_eq}
use kavach_npu.Prelude.Float.{Float, Floats}
use kavach_npu.Prelude.Order.{
  has, IsSorted, Unrepeated, add-Unrepeated, has-add, has-sort, sort-IsSorted,
}
use kavach_npu.Core.Contracts.{hard_kill}
use kavach_npu.Tripwire.Entropy.{differential_entropy}
use kavach_npu.Tripwire.Operation.{
  FileOperationEvent, ProcessBurstEvaluation, WriteBurstTracker, BurstTotals,
}
use kavach_npu.Tripwire.Window.{
  no_totals, count_event, totals_from, of_process, slot_row, in_bucket, feature_matrix,
  evidence_count, burst_evaluation, evaluate_pid,
}

module _ (d : Float) where
  -- Some event of the list is of the path.
  abbrev pub touches : List ℕ → List (FileOperationEvent d) → Bool
  touches p es = any (λ e. bytes_eq p e.path) es

  -- The entropies of the blocks that the events wrote, in their order.
  abbrev pub blocks_of : List (FileOperationEvent d) → List d.F
  blocks_of [] = []
  blocks_of (e ∷ es) = e.block_entropies ++ blocks_of es

  abbrev pub renames_of : List (FileOperationEvent d) → ℕ
  renames_of es = length (filter (λ e. e.is_rename) es)

  -- What the loop makes of the events behind those counted so far.
  pub record Counted (before after : BurstTotals d) (es : List (FileOperationEvent d))
      : Type 0 where
    pub files :
        (p : List ℕ) → has p after.distinct_files ≡ has p before.distinct_files || touches p es
    pub unrepeated : Unrepeated after.distinct_files
    pub blocks : after.all_block_entropies ≡ before.all_block_entropies ++ blocks_of es
    pub renames : after.total_renames ≡ before.total_renames + renames_of es
    pub every :
        after.total_writes + after.total_renames
        ≡ before.total_writes + before.total_renames + length es

  totals_from-Counted :
      (t : BurstTotals d) (es : List (FileOperationEvent d))
      → Unrepeated t.distinct_files
      → Counted t (totals_from d t es) es
  unfolding totals_from count_event
  totals_from-Counted t [] u = record {
    files = λ p. ground arith;
    unrepeated = u;
    blocks = sym (append-nil t.all_block_entropies);
    renames = omega arith;
    every = omega arith;
  }
  totals_from-Counted t (e ∷ es) u =
      let t' = count_event d t e in
      let rest = totals_from-Counted t' es (add-Unrepeated e.path t.distinct_files u) in
      record {
        files = λ p. ground (arith, rest.files p, has-add e.path p t.distinct_files);
        unrepeated = rest.unrepeated;
        blocks = rest.blocks ∙ append_assoc t.all_block_entropies e.block_entropies (blocks_of es);
        renames = rest.renames ∙ ground arith;
        every = rest.every ∙ ground arith;
      }

  pub counted :
      (es : List (FileOperationEvent d)) → Counted (no_totals d) (totals_from d (no_totals d) es) es
  counted es = totals_from-Counted (no_totals d) es tt

module _ (fl : Floats) where
  open fl use {double, single}

  slot_row-length : (es : List (FileOperationEvent double)) → length (slot_row fl es) ≡ 4
  unfolding slot_row
  slot_row-length [] = refl
  slot_row-length (e ∷ es) = refl

  map-IsMatrix :
      (f : ℕ → List single.F) (n k : ℕ)
      → ((i : ℕ) → length (f i) ≡ 4)
      → IsMatrix k 4 (map f (iterate suc n k))
  map-IsMatrix f n zero h = tt
  map-IsMatrix f n (suc k) h = (h n, map-IsMatrix f (suc n) k h)

  feature_matrix-IsMatrix :
      (window_ms start_ms : ℕ) (es : List (FileOperationEvent double))
      → IsMatrix 10 4 (feature_matrix fl window_ms start_ms es)
  unfolding feature_matrix
  feature_matrix-IsMatrix window_ms start_ms es =
      map-IsMatrix (λ i. slot_row fl (filter (in_bucket fl window_ms start_ms i) es)) 0 10
        (λ i. slot_row-length (filter (in_bucket fl window_ms start_ms i) es))

  -- What an evaluation says of the process's events in the window.
  pub record Evaluates (es : List (FileOperationEvent double)) (ev : ProcessBurstEvaluation fl)
      : Type 0 where
    pub files_sorted : IsSorted ev.distinct_files
    pub files_exact : (p : List ℕ) → has p ev.distinct_files ≡ touches double p es
    pub all_counted : ev.total_writes + ev.total_renames ≡ length es
    pub renames_exact : ev.total_renames ≡ renames_of double es
    pub summary_exact : ev.entropy_summary ≡ differential_entropy double (blocks_of double es)
    pub matrix_shape : IsMatrix 10 4 ev.tensor_matrix
    pub little_evidence : ev.corroborating_evidence_count ≤ 4
    pub no_kill : ev.recommended_action ≢ hard_kill

  module _ (sha256 : List ℕ → List ℕ) where
    burst_evaluation-Evaluates :
        (t : WriteBurstTracker double) (pid now : ℕ) (es : List (FileOperationEvent double))
        → Evaluates es
            (burst_evaluation fl sha256 t pid now es (totals_from double (no_totals double) es))
    unfolding burst_evaluation evidence_count
    burst_evaluation-Evaluates t pid now es =
        let c = counted double es in
        let files = (totals_from double (no_totals double) es).distinct_files in
        record {
          files_sorted = sort-IsSorted files c.unrepeated;
          files_exact = λ p. has-sort p files ∙ c.files p;
          all_counted = omega (arith, c.every);
          renames_exact = omega (arith, c.renames);
          summary_exact = ap (differential_entropy double) c.blocks;
          matrix_shape = feature_matrix-IsMatrix _ _ es;
          little_evidence = ground arith;
          no_kill = ground arith;
        }

    -- The evaluation, where there is one.
    pub evaluate_pid-some_iff :
        (t : WriteBurstTracker double) (pid now : ℕ) (ev : ProcessBurstEvaluation fl)
        → let es = of_process double pid t.events in
          (evaluate_pid fl sha256 t pid now ≡ some ev) ↔ (
            (1 ≤ length es)
            × (burst_evaluation fl sha256 t pid now es (totals_from double (no_totals double) es)
                ≡ ev))
    unfolding evaluate_pid
    evaluate_pid-some_iff t pid now ev =
        let es = of_process double pid t.events in
        elim (Bool-cases (length es == 0)) [
          | inl e ↦ rw e (λ h. absurd (cc h), λ (h, _). absurd (ground (arith, e, h)))
          | inr e ↦ rw e (λ h. (ground (arith, e), cc h), λ (_, h). ap some h)
        ]

    -- An evaluation lists the paths of the process's events in the window, sorted and each once; it
    -- counts each of these events as a write or a rename and sums up the entropies of all their
    -- blocks; its matrix has ten rows of four; it claims at most four pieces of evidence; and it
    -- never recommends to kill.
    pub evaluate_pid-Evaluates :
        (t : WriteBurstTracker double) (pid now : ℕ) (ev : ProcessBurstEvaluation fl)
        → evaluate_pid fl sha256 t pid now ≡ some ev
        → Evaluates (of_process double pid t.events) ev
    evaluate_pid-Evaluates t pid now ev h =
        let es = of_process double pid t.events in
        subst (Evaluates es) ((evaluate_pid-some_iff t pid now ev).0 h).1
          (burst_evaluation-Evaluates t pid now es)
