-- ===== src/Beacon/Detector.antt =====
-- crates/kavach-beacon/src/detector.rs: the statistics of a full window of packets.
-- SHA-256 and the floating-point numbers are arguments.
pub mod Statistics
pub mod Rhythm
use kavach_npu.Prelude.{
  ℕ, ◌+◌, ◌-◌, ◌≡◌, min, Bool, true, false, ◌&&◌, List, [], ◌∷◌, map, Option, none, some, ltb, leb,
  ◌==◌, if◌then◌else◌, length, filter,
}
use kavach_npu.Prelude.Bytes.{flatten}
use kavach_npu.Prelude.Float.{Float, Floats}
use kavach_npu.Beacon.Flow.{
  PacketDirection, outbound, inbound, PacketMeta, RollingFlow, is_full, build_flow_matrix,
}

pub record BeaconDetectionResult (fl : Floats) : Type 0 where
  pub mean_delta_ms : fl.double.F
  pub std_dev_ms : fl.double.F
  pub coefficient_of_variation : fl.double.F
  pub jitter_score : fl.double.F
  pub symmetry_score : fl.double.F
  pub is_c2_beacon : Bool
  pub confidence : fl.double.F
  pub tensor_matrix : List (List fl.single.F)
  pub evidence_digest : List ℕ

-- What the loop over the packets behind the first counts.
pub record PacketCounts (d : Float) : Type 0 where
  pub deltas : List d.F
  pub outbound_count : ℕ
  pub inbound_count : ℕ
  pub small_payload_count : ℕ

abbrev pub is_outbound : PacketDirection → Bool
is_outbound outbound = true
is_outbound inbound = false

module _ (d : Float) where
  open d use {F, lit, of_nat, add, sub, mul, div, sqrt, clamp, le, lt}

  abbrev pub jitter_cv_max : F
  jitter_cv_max = lit 35 2

  abbrev pub min_beacon_interval_ms : F
  min_beacon_interval_ms = lit 5000 1

  -- One round of the loop, put before what the later rounds add.
  abbrev pub count_packet : PacketMeta → PacketMeta → PacketCounts d → PacketCounts d
  count_packet before p later = record {
    deltas = div (of_nat (p.timestamp_ns - before.timestamp_ns)) (lit 10000000 1) ∷ later.deltas;
    outbound_count = later.outbound_count + (if is_outbound p.direction then 1 else 0);
    inbound_count = later.inbound_count + (if is_outbound p.direction then 0 else 1);
    small_payload_count = later.small_payload_count + (if leb p.payload_bytes 512 then 1 else 0);
  }

  unfoldable pub counts_behind : PacketMeta → List PacketMeta → PacketCounts d
  counts_behind before [] = record {
    deltas = [];
    outbound_count = 0;
    inbound_count = 0;
    small_payload_count = 0;
  }
  counts_behind before (p ∷ ps) = count_packet before p (counts_behind p ps)

  -- `.iter().sum::<f64>()`
  unfoldable pub sum_from : F → List F → F
  sum_from acc [] = acc
  sum_from acc (x ∷ xs) = sum_from (add acc x) xs

  abbrev pub mean_of : F → List F → F
  mean_of count deltas = div (sum_from (lit 0 0) deltas) count

  abbrev pub std_dev_of : F → F → List F → F
  std_dev_of count mean deltas =
      sqrt (
        div (sum_from (lit 0 0) (map (λ delta. mul (sub delta mean) (sub delta mean)) deltas))
          count)

  abbrev pub variation_of : F → F → F
  variation_of mean std_dev = if lt (lit 0 0) mean then div std_dev mean else lit 10 1

  abbrev pub jitter_score_of : F → F → F
  jitter_score_of mean cv =
      if le min_beacon_interval_ms mean && le cv jitter_cv_max
      then clamp (sub (lit 10 1) (div cv jitter_cv_max)) (lit 0 0) (lit 10 1)
      else lit 0 0

  -- `outbound_count.max(inbound_count)` is the one that is not the least.
  abbrev pub balance_ratio_of : ℕ → ℕ → F
  balance_ratio_of outs ins =
      if ltb 0 outs && ltb 0 ins
      then div (of_nat (min outs ins)) (of_nat (if ltb ins outs then outs else ins))
      else lit 0 0

  abbrev pub symmetry_score_of : F → PacketCounts d → F
  symmetry_score_of count c =
      let balance = balance_ratio_of c.outbound_count c.inbound_count in
      let payload = div (of_nat c.small_payload_count) count in
      clamp (add (mul balance (lit 5 1)) (mul payload (lit 5 1))) (lit 0 0) (lit 10 1)

module _ (fl : Floats) (sha256 : List ℕ → List ℕ) where
  open fl use {double}

  -- The result, from the counts and the matrix.
  unfoldable pub rhythm_result :
      PacketCounts double → List (List fl.single.F) → BeaconDetectionResult fl
  rhythm_result c matrix =
      let count = double.of_nat (length c.deltas) in
      let mean = mean_of double count c.deltas in
      let std_dev = std_dev_of double count mean c.deltas in
      let cv = variation_of double mean std_dev in
      let jitter = jitter_score_of double mean cv in
      let symmetry = symmetry_score_of double count c in
      record {
        mean_delta_ms = mean;
        std_dev_ms = std_dev;
        coefficient_of_variation = cv;
        jitter_score = jitter;
        symmetry_score = symmetry;
        is_c2_beacon = double.le (double.lit 5 1) jitter && double.le (double.lit 4 1) symmetry;
        confidence =
            double.clamp
              (double.add (double.mul jitter (double.lit 6 1))
                (double.mul symmetry (double.lit 4 1)))
              (double.lit 0 0) (double.lit 10 1);
        tensor_matrix = matrix;
        evidence_digest = sha256 (flatten (map double.to_be_bytes c.deltas));
      }

  -- The packets of a full window; there is one before the deltas are taken.
  unfoldable pub evaluate_packets :
      RollingFlow → List PacketMeta → Option (BeaconDetectionResult fl)
  evaluate_packets f [] = none
  evaluate_packets f (p ∷ ps) =
      let c = counts_behind double p ps in
      if length c.deltas == 0 then none else elim (build_flow_matrix fl f) [
        | none ↦ none
        | some matrix ↦ some (rhythm_result c matrix)
      ]

  unfoldable pub evaluate_beacon_rhythm : RollingFlow → Option (BeaconDetectionResult fl)
  evaluate_beacon_rhythm f = if is_full f then evaluate_packets f f.packets else none
