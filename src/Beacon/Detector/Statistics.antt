-- ===== src/Beacon/Detector/Statistics.antt =====
-- crates/kavach-beacon/src/detector.rs: the statistics of a window by their definitions, and the counts
-- of the detector's loop.
use kavach_npu.Prelude.{
  ℕ, suc, ◌-◌, ◌≡◌, ◌∙◌, refl, sym, ap, ap₂, not, ◌||◌, List, [], ◌∷◌, map, leb, ◌==◌,
  if◌then◌else◌, length, filter, arith,
}
use kavach_npu.Prelude.Float.{Float}
use kavach_npu.Beacon.Flow.{PacketMeta}
use kavach_npu.Beacon.Detector.{
  is_outbound, counts_behind, sum_from, mean_of, std_dev_of, balance_ratio_of,
}

-- The statistics by their definitions, over the packets of a flow.
module _ (d : Float) where
  -- The milliseconds between each packet and the one before it.
  abbrev pub intervals : PacketMeta → List PacketMeta → List d.F
  intervals before [] = []
  intervals before (p ∷ ps) =
      d.div (d.of_nat (p.timestamp_ns - before.timestamp_ns)) (d.lit 10000000 1) ∷ intervals p ps

  abbrev pub total : d.F → List d.F → d.F
  total acc [] = acc
  total acc (x ∷ xs) = total (d.add acc x) xs

  abbrev pub mean : List d.F → d.F
  mean xs = d.div (total (d.lit 0 0) xs) (d.of_nat (length xs))

  -- The root of the mean of the squares of the distances from the mean.
  abbrev pub standard_deviation : List d.F → d.F
  standard_deviation xs =
      d.sqrt (mean (map (λ x. d.mul (d.sub x (mean xs)) (d.sub x (mean xs))) xs))

  -- The lesser of two numbers beside the greater, and 0 where one of them is 0.
  abbrev pub balance : ℕ → ℕ → d.F
  balance m n =
      if m == 0 || n == 0
      then d.lit 0 0
      else if leb m n
      then d.div (d.of_nat m) (d.of_nat n)
      else d.div (d.of_nat n) (d.of_nat m)

  -- Half the balance of the directions and half the share of small payloads, from their numbers.
  abbrev pub symmetry_from : ℕ → ℕ → ℕ → ℕ → d.F
  symmetry_from outs ins small n =
      d.clamp
        (d.add (d.mul (balance outs ins) (d.lit 5 1))
          (d.mul (d.div (d.of_nat small) (d.of_nat n)) (d.lit 5 1)))
        (d.lit 0 0) (d.lit 10 1)

  abbrev pub symmetry : List PacketMeta → d.F
  symmetry ps =
      symmetry_from (length (filter (λ p. is_outbound p.direction) ps))
        (length (filter (λ p. not (is_outbound p.direction)) ps))
        (length (filter (λ p. leb p.payload_bytes 512) ps)) (length ps)

  total_eq : (acc : d.F) (xs : List d.F) → sum_from d acc xs ≡ total acc xs
  unfolding sum_from
  total_eq acc [] = refl
  total_eq acc (x ∷ xs) = total_eq (d.add acc x) xs

  -- What the loop counts are the intervals and the packets of each kind.
  pub record Counts (before : PacketMeta) (ps : List PacketMeta) : Type 0 where
    pub deltas : (counts_behind d before ps).deltas ≡ intervals before ps
    pub outs :
        (counts_behind d before ps).outbound_count
        ≡ length (filter (λ p. is_outbound p.direction) ps)
    pub ins :
        (counts_behind d before ps).inbound_count
        ≡ length (filter (λ p. not (is_outbound p.direction)) ps)
    pub small :
        (counts_behind d before ps).small_payload_count
        ≡ length (filter (λ p. leb p.payload_bytes 512) ps)

  pub counted : (before : PacketMeta) (ps : List PacketMeta) → Counts before ps
  unfolding counts_behind
  counted before [] = record { deltas = refl; outs = refl; ins = refl; small = refl }
  counted before (p ∷ ps) =
      let rest = counted p ps in
      let first = d.div (d.of_nat (p.timestamp_ns - before.timestamp_ns)) (d.lit 10000000 1) in
      record {
        deltas = ap (λ xs. first ∷ xs) rest.deltas;
        outs = ground (arith, rest.outs);
        ins = ground (arith, rest.ins);
        small = ground (arith, rest.small);
      }

  length-intervals :
      (before : PacketMeta) (ps : List PacketMeta) → length (intervals before ps) ≡ length ps
  length-intervals before [] = refl
  length-intervals before (p ∷ ps) = ap suc (length-intervals p ps)

  pub balance_eq : (m n : ℕ) → balance_ratio_of d m n ≡ balance m n
  balance_eq m n = ground arith

  length-map : (g : d.F → d.F) (xs : List d.F) → length (map g xs) ≡ length xs
  length-map g [] = refl
  length-map g (x ∷ xs) = ap suc (length-map g xs)

  pub mean_of_eq : (xs : List d.F) → mean_of d (d.of_nat (length xs)) xs ≡ mean xs
  mean_of_eq xs = ap (λ t. d.div t (d.of_nat (length xs))) (total_eq (d.lit 0 0) xs)

  pub std_dev_of_eq :
      (xs : List d.F) → std_dev_of d (d.of_nat (length xs)) (mean xs) xs ≡ standard_deviation xs
  std_dev_of_eq xs =
      let squares = map (λ x. d.mul (d.sub x (mean xs)) (d.sub x (mean xs))) xs in
      ap₂ (λ t n. d.sqrt (d.div t (d.of_nat n))) (total_eq (d.lit 0 0) squares)
        (sym (length-map (λ x. d.mul (d.sub x (mean xs)) (d.sub x (mean xs))) xs))

  pub symmetry_eq :
      (before : PacketMeta) (ps : List PacketMeta)
      → let c = counts_behind d before ps in
        symmetry_from c.outbound_count c.inbound_count c.small_payload_count (length c.deltas)
        ≡ symmetry ps
  symmetry_eq before ps =
      let c = counts_behind d before ps in
      let same = counted before ps in
      ap₂ (λ small n. symmetry_from c.outbound_count c.inbound_count small n) same.small
        (ap length same.deltas ∙ length-intervals before ps)
      ∙ ap₂
          (λ outs ins.
            symmetry_from outs ins (length (filter (λ p. leb p.payload_bytes 512) ps)) (length ps))
          same.outs same.ins
