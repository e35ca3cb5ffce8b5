-- ===== src/Tripwire/Entropy/Blocks.antt =====
-- Blocks of a written buffer, and runs of blocks: what chunking keeps, and when a run is anomalous.
use kavach_npu.Prelude.{
  ℕ, ◌+◌, ◌≡◌, refl, ◌∙◌, false, List, [], ◌∷◌, if◌then◌else◌, length, filter, arith,
}
use kavach_npu.Prelude.Float.{Float}
use kavach_npu.Tripwire.Entropy.{
  BlockStats, scan_blocks, summary_of, differential_entropy, entropy_ransomware_threshold,
}

module _ (d : Float) where
  open d use {F, lit, of_nat, div, le}

  -- The blocks of ransomware entropy.
  abbrev pub high_blocks : List F → ℕ
  high_blocks blocks = length (filter (le (entropy_ransomware_threshold d)) blocks)

  scan_blocks-high :
      (s : BlockStats d) (blocks : List F)
      → (scan_blocks d s blocks).high_count ≡ s.high_count + high_blocks blocks
  unfolding scan_blocks
  scan_blocks-high s [] = omega arith
  scan_blocks-high s (e ∷ blocks) =
      scan_blocks-high
        (record {
          total = d.add s.total e;
          max_e = if d.lt s.max_e e then e else s.max_e;
          min_e = if d.lt e s.min_e then e else s.min_e;
          high_count =
              if le (entropy_ransomware_threshold d) e then s.high_count + 1 else s.high_count;
        })
        blocks
      ∙ ground arith

  -- A run of blocks none of which is of ransomware entropy is not anomalous, if 0 divided by the
  -- number of blocks is not 0.7 or more.
  pub low_blocks_pass :
      (blocks : List F)
      → le (lit 7 1) (div (of_nat 0) (of_nat (length blocks))) ≡ false
      → high_blocks blocks ≡ 0
      → (differential_entropy d blocks).is_anomalous ≡ false
  unfolding differential_entropy summary_of
  low_blocks_pass [] h none_high = refl
  low_blocks_pass (e ∷ blocks) h none_high =
      let start : BlockStats d = record {
        total = lit 0 0;
        max_e = lit 0 0;
        min_e = d.lit 80 1;
        high_count = 0;
      } in
      let count : (scan_blocks d start (e ∷ blocks)).high_count ≡ 0 =
        omega (arith, scan_blocks-high start (e ∷ blocks)) in
      rw count (rw h refl)
