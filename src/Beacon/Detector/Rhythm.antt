-- ===== src/Beacon/Detector/Rhythm.antt =====
-- crates/kavach-beacon/src/detector.rs: when a window is evaluated, and when it is flagged.
use kavach_npu.Prelude.{
  ◌∙◌, sym, ap₂, Bool, ◌&&◌, ℕ, suc, ◌≡◌, refl, ap, subst, true, false, List, [], ◌∷◌, Option, none,
  some, length, get_or, ◌==◌, IsMatrix, arith, Option-cases, inl, inr,
}
use kavach_npu.Prelude.Float.{Floats}
use kavach_npu.Beacon.Flow.{
  PacketMeta, RollingFlow, is_full, span_of, packet_rows, window_matrix, build_flow_matrix,
}
use kavach_npu.Beacon.Detector.{
  BeaconDetectionResult, PacketCounts, counts_behind, rhythm_result, evaluate_packets,
  evaluate_beacon_rhythm, jitter_score_of, variation_of, std_dev_of,
}
use kavach_npu.Beacon.Detector.Statistics.{
  intervals, mean, standard_deviation, symmetry_from, symmetry, counted, symmetry_eq, balance_eq,
  mean_of_eq, std_dev_of_eq,
}

module _ (fl : Floats) where
  open fl use {double, single}

  packet_rows-IsMatrix :
      (first : ℕ) (span : single.F) (before : Option ℕ) (ps : List PacketMeta)
      → IsMatrix (length ps) 4 (packet_rows fl first span before ps)
  unfolding packet_rows
  packet_rows-IsMatrix first span before [] = tt
  packet_rows-IsMatrix first span before (p ∷ ps) =
      (refl, packet_rows-IsMatrix first span (some p.timestamp_ns) ps)

  length-deltas :
      (before : PacketMeta) (ps : List PacketMeta)
      → length (counts_behind double before ps).deltas ≡ length ps
  unfolding counts_behind
  length-deltas before [] = refl
  length-deltas before (p ∷ ps) = ap suc (length-deltas p ps)

  module _ (sha256 : List ℕ → List ℕ) where
    -- A detection with a matrix of the right shape.
    abbrev pub IsDetected : Option (BeaconDetectionResult fl) → Type 0
    IsDetected none = ⊥
    IsDetected (some r) = IsMatrix 32 4 r.tensor_matrix

    built :
        (f : RollingFlow) (ps : List PacketMeta)
        → f.packets ≡ ps
        → length ps ≡ 32
        → (m : List (List single.F)) × (build_flow_matrix fl f ≡ some m) × IsMatrix 32 4 m
    unfolding build_flow_matrix is_full window_matrix
    built f [] e h = absurd (omega arith)
    built f (p ∷ ps) e h =
        let full : (length f.packets == 32) ≡ true = ground (arith, ap length e, h) in
        let span = span_of fl p.timestamp_ns (get_or (p ∷ ps) 31 p).timestamp_ns in
        let rows = packet_rows fl p.timestamp_ns span none (p ∷ ps) in
        (
          rows,
          rw full (rw e refl),
          subst (λ n. IsMatrix n 4 rows) h (packet_rows-IsMatrix p.timestamp_ns span none (p ∷ ps)),
        )

    evaluate_packets-IsDetected :
        (f : RollingFlow) (ps : List PacketMeta)
        → f.packets ≡ ps
        → length ps ≡ 32
        → IsDetected (evaluate_packets fl sha256 f ps)
    unfolding evaluate_packets rhythm_result
    evaluate_packets-IsDetected f [] e h = absurd (omega arith)
    evaluate_packets-IsDetected f (p ∷ ps) e h =
        let (m, done, shape) = built f (p ∷ ps) e h in
        let some_deltas : (length (counts_behind double p ps).deltas == 0) ≡ false =
          ground (arith, length-deltas p ps, h) in
        rw some_deltas (rw done shape)

    full-length : (f : RollingFlow) → is_full f ≡ true → length f.packets ≡ 32
    unfolding is_full
    full-length f h = ground arith

    -- A full window is always evaluated, and the matrix has 32 rows of four.
    pub evaluate-IsDetected :
        (f : RollingFlow) → is_full f ≡ true → IsDetected (evaluate_beacon_rhythm fl sha256 f)
    unfolding evaluate_beacon_rhythm
    evaluate-IsDetected f full =
        rw full (evaluate_packets-IsDetected f f.packets refl (full-length f full))

    -- A mean of 500 ms or more, a standard deviation of at most 0.35 of it, a symmetry of 0.4 or more.
    abbrev pub IsSteady : List double.F → double.F → Type 0
    IsSteady xs sym =
        (double.le (double.lit 5000 1) (mean double xs) ≡ true)
        × (double.le (double.div (standard_deviation double xs) (mean double xs)) (double.lit 35 2)
            ≡ true)
        × (double.le (double.lit 4 1) sym ≡ true)

    passes :
        (x sd sym : double.F)
        → double.le (double.lit 5 1) (double.lit 0 0) ≡ false
        → ((x : double.F)
            → double.le (double.lit 5000 1) x ≡ true
            → double.lt (double.lit 0 0) x ≡ true)
        → let jitter = jitter_score_of double x (variation_of double x sd) in
          double.le (double.lit 5 1) jitter && double.le (double.lit 4 1) sym ≡ true
          → (double.le (double.lit 5000 1) x ≡ true)
            × (double.le (double.div sd x) (double.lit 35 2) ≡ true)
            × (double.le (double.lit 4 1) sym ≡ true)
    passes x sd sym small positive h = ground (arith, small, positive x, h)

    flagged_result :
        (c : PacketCounts double) (m : List (List single.F))
        → double.le (double.lit 5 1) (double.lit 0 0) ≡ false
        → ((x : double.F)
            → double.le (double.lit 5000 1) x ≡ true
            → double.lt (double.lit 0 0) x ≡ true)
        → (rhythm_result fl sha256 c m).is_c2_beacon ≡ true
        → IsSteady c.deltas (
            symmetry_from double c.outbound_count c.inbound_count c.small_payload_count
              (length c.deltas))
    unfolding rhythm_result
    flagged_result c m small positive h =
        let n = double.of_nat (length c.deltas) in
        let flag : double.F → double.F → double.F → Bool = λ x sd sym.
          double.le (double.lit 5 1) (jitter_score_of double x (variation_of double x sd))
          && double.le (double.lit 4 1) sym in
        let same_mean = mean_of_eq double c.deltas in
        let same_sd =
          ap (λ x. std_dev_of double n x c.deltas) same_mean ∙ std_dev_of_eq double c.deltas in
        let same_symmetry =
          ap
            (λ b.
              double.clamp
                (double.add (double.mul b (double.lit 5 1)) (
                  double.mul (double.div (double.of_nat c.small_payload_count) n) (double.lit 5 1)))
                (double.lit 0 0) (double.lit 10 1))
            (balance_eq double c.outbound_count c.inbound_count) in
        let by_definition = ap₂ flag same_mean same_sd in
        passes _ _ _ small positive (sym (ap₂ (λ g y. g y) by_definition same_symmetry) ∙ h)

    evaluated_from :
        (f : RollingFlow) (p : PacketMeta) (ps : List PacketMeta) (r : BeaconDetectionResult fl)
        → evaluate_packets fl sha256 f (p ∷ ps) ≡ some r
        → (m : List (List single.F)) × (rhythm_result fl sha256 (counts_behind double p ps) m ≡ r)
    unfolding evaluate_packets
    evaluated_from f p ps r h = elim (Option-cases (build_flow_matrix fl f)) [
      | inl e ↦ absurd (ground (arith, h, e))
      | inr (m, e) ↦ (m, ground (arith, h, e))
    ]

    -- If 0 is less than 0.5 and than all that is at least 500, a flow is flagged as a beacon only if
    -- the mean of the intervals between its packets is 500 ms or more, their standard deviation at
    -- most 0.35 of that mean, and the symmetry of the packets behind the first 0.4 or more.
    pub beacon_needs_rhythm :
        (f : RollingFlow) (p : PacketMeta) (ps : List PacketMeta) (r : BeaconDetectionResult fl)
        → double.le (double.lit 5 1) (double.lit 0 0) ≡ false
        → ((x : double.F)
            → double.le (double.lit 5000 1) x ≡ true
            → double.lt (double.lit 0 0) x ≡ true)
        → f.packets ≡ p ∷ ps
        → evaluate_beacon_rhythm fl sha256 f ≡ some r
        → r.is_c2_beacon ≡ true
        → IsSteady (intervals double p ps) (symmetry double ps)
    unfolding evaluate_beacon_rhythm
    beacon_needs_rhythm f p ps r small positive e h flagged =
        let found : evaluate_packets fl sha256 f f.packets ≡ some r = ground (arith, h) in
        let (m, same) =
          evaluated_from f p ps r
            (subst (λ qs. evaluate_packets fl sha256 f qs ≡ some r) e found) in
        let xs = (counted double p ps).deltas in
        let cb = counts_behind double p ps in
        subst (λ xs. IsSteady xs (symmetry double ps)) xs
          (subst (IsSteady cb.deltas) (symmetry_eq double p ps) (
            flagged_result cb m small positive
              (ap (λ (r : BeaconDetectionResult fl). r.is_c2_beacon) same ∙ flagged)))
