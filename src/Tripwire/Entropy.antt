-- ===== src/Tripwire/Entropy.antt =====
-- crates/kavach-tripwire/src/entropy.rs: the entropy of a block and of a run of blocks.
-- The numbers are a parameter, of the type `f64`.
pub mod Blocks
pub mod Counts
use kavach_npu.Prelude.{
  ℕ, zero, suc, ◌+◌, ◌-◌, Bool, true, false, ◌&&◌, ◌||◌, List, [], ◌∷◌, map, ltb, leb, ◌==◌,
  if◌then◌else◌, length, replicate,
}
use kavach_npu.Prelude.Chunks.{chunks}
use kavach_npu.Prelude.Float.{Float}

abbrev pub default_block_size : ℕ
default_block_size = 4096

-- `counts[b as usize] += 1`
unfoldable pub increment : ℕ → List ℕ → List ℕ
increment i [] = []
increment zero (c ∷ cs) = (c + 1) ∷ cs
increment (suc i) (c ∷ cs) = c ∷ increment i cs

unfoldable pub tally : List ℕ → List ℕ → List ℕ
tally counts [] = counts
tally counts (b ∷ bytes) = tally (increment b counts) bytes

pub record SparseEntropySummary (d : Float) : Type 0 where
  pub total_blocks : ℕ
  pub mean_entropy : d.F
  pub max_entropy : d.F
  pub min_entropy : d.F
  pub variance : d.F
  pub high_entropy_ratio : d.F
  pub intermittent_encryption_score : d.F
  pub is_anomalous : Bool

-- What the loop over the blocks keeps.
pub record BlockStats (d : Float) : Type 0 where
  pub total : d.F
  pub max_e : d.F
  pub min_e : d.F
  pub high_count : ℕ

module _ (d : Float) where
  open d use {F, lit, of_nat, add, sub, mul, div, log2, abs, clamp, le, lt}

  abbrev pub entropy_max : F
  entropy_max = lit 80 1

  abbrev pub entropy_ransomware_threshold : F
  entropy_ransomware_threshold = lit 795 2

  abbrev pub entropy_suspicious_threshold : F
  entropy_suspicious_threshold = lit 750 2

  -- `entropy -= p * p.log2()`
  abbrev pub less_term : F → F → ℕ → F
  less_term n entropy count = let p = div (of_nat count) n in sub entropy (mul p (log2 p))

  unfoldable pub entropy_of : F → F → List ℕ → F
  entropy_of n entropy [] = entropy
  entropy_of n entropy (count ∷ counts) =
      entropy_of n (if ltb 0 count then less_term n entropy count else entropy) counts

  unfoldable pub shannon_entropy : List ℕ → F
  shannon_entropy [] = lit 0 0
  shannon_entropy (b ∷ bytes) =
      entropy_of (of_nat (length (b ∷ bytes))) (lit 0 0) (tally (replicate 256 0) (b ∷ bytes))

  unfoldable pub block_entropy_scan : List ℕ → ℕ → List F
  block_entropy_scan bytes block_size =
      if length bytes == 0 || block_size == 0
      then []
      else map shannon_entropy (chunks block_size bytes)

  unfoldable pub scan_blocks : BlockStats d → List F → BlockStats d
  scan_blocks s [] = s
  scan_blocks s (e ∷ blocks) =
      scan_blocks
        (record {
          total = add s.total e;
          max_e = if lt s.max_e e then e else s.max_e;
          min_e = if lt e s.min_e then e else s.min_e;
          high_count = if le entropy_ransomware_threshold e then s.high_count + 1 else s.high_count;
        })
        blocks

  -- `diff * diff`, added up
  unfoldable pub square_deviations : F → F → List F → F
  square_deviations mean acc [] = acc
  square_deviations mean acc (e ∷ blocks) =
      square_deviations mean (add acc (mul (sub e mean) (sub e mean))) blocks

  -- The test on the two blocks of a window.
  abbrev pub is_transition : F → F → Bool
  is_transition e e' =
      le (lit 20 1) (abs (sub e' e))
      && (le entropy_suspicious_threshold e || le entropy_suspicious_threshold e')

  -- The windows of two that start with `e`.
  unfoldable pub transitions_from : F → List F → ℕ
  transitions_from e [] = 0
  transitions_from e (e' ∷ blocks) =
      (if is_transition e e' then 1 else 0) + transitions_from e' blocks

  unfoldable pub delta_transitions : List F → ℕ
  delta_transitions [] = 0
  delta_transitions (e ∷ blocks) = transitions_from e blocks

  unfoldable pub transition_ratio : List F → F
  transition_ratio blocks =
      if ltb 1 (length blocks)
      then div (of_nat (delta_transitions blocks)) (of_nat (length blocks - 1))
      else lit 0 0

  abbrev pub intermittent_score : F → F → F → F
  intermittent_score max_e variance ratio =
      if le entropy_ransomware_threshold max_e && le (lit 10 1) variance
      then clamp (add (mul ratio (lit 5 1)) (mul (div variance (lit 80 1)) (lit 5 1))) (lit 0 0)
          (lit 10 1)
      else lit 0 0

  -- A run of blocks that is not empty, with what the loop made of it.
  unfoldable pub summary_of : List F → BlockStats d → SparseEntropySummary d
  summary_of blocks s =
      let n = of_nat (length blocks) in
      let mean = div s.total n in
      let variance = div (square_deviations mean (lit 0 0) blocks) n in
      let high_ratio = div (of_nat s.high_count) n in
      let score = intermittent_score s.max_e variance (transition_ratio blocks) in
      record {
        total_blocks = length blocks;
        mean_entropy = mean;
        max_entropy = s.max_e;
        min_entropy = s.min_e;
        variance = variance;
        high_entropy_ratio = high_ratio;
        intermittent_encryption_score = score;
        is_anomalous = le (lit 7 1) high_ratio || (leb 2 s.high_count && le (lit 35 2) score);
      }

  unfoldable pub differential_entropy : List F → SparseEntropySummary d
  differential_entropy [] = record {
    total_blocks = 0;
    mean_entropy = lit 0 0;
    max_entropy = lit 0 0;
    min_entropy = lit 0 0;
    variance = lit 0 0;
    high_entropy_ratio = lit 0 0;
    intermittent_encryption_score = lit 0 0;
    is_anomalous = false;
  }
  differential_entropy (e ∷ blocks) = summary_of (e ∷ blocks) (
      scan_blocks (record { total = lit 0 0; max_e = lit 0 0; min_e = entropy_max; high_count = 0 })
        (e ∷ blocks))
