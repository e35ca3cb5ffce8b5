-- ===== src/Tests/Beacons.antt =====
-- The beacon detector's theorems on concrete inputs.
use kavach_npu.Prelude.{
  arith, ℕ, suc, ◌+◌, ◌*◌, ◌≤◌, ◌<◌, ◌≡◌, refl, true, List, [], ◌∷◌, none, some, take, length,
  iterate, map,
}
use kavach_npu.Prelude.Dict.{lookup}
use kavach_npu.Beacon.Flow.{
  PacketMeta, outbound, FlowKey, v4, RollingFlow, is_full, packet_rows, flow_key, span_of,
  window_matrix, build_flow_matrix,
}
use kavach_npu.Beacon.Detector.{
  BeaconDetectionResult, counts_behind, rhythm_result, evaluate_packets, evaluate_beacon_rhythm,
  sum_from,
}
use kavach_npu.Beacon.Detector.Rhythm.{IsDetected, IsSteady, beacon_needs_rhythm}
use kavach_npu.Beacon.Detector.Statistics.{intervals, symmetry}
use kavach_npu.Beacon.Engine.{new_engine, ingest_packet}
use kavach_npu.Beacon.Engine.Flows as Flows
use kavach_npu.Beacon.Engine.Flows.{packets_for, entry_of, lookup-ingest_all, answered_from_32}
use kavach_npu.Tests.Numbers.{hundredths, sample_floats}

-- Standing for SHA-256: the first 32 bytes.
abbrev short_digest : List ℕ → List ℕ
short_digest = take 32

abbrev web : FlowKey
web = record {
  local_addr = v4 (10 ∷ 0 ∷ 0 ∷ 5 ∷ []);
  local_port = 40000;
  remote_addr = v4 (203 ∷ 0 ∷ 113 ∷ 9 ∷ []);
  remote_port = 443;
  protocol = 6;
}

abbrev dns : FlowKey
dns = record {
  local_addr = v4 (10 ∷ 0 ∷ 0 ∷ 5 ∷ []);
  local_port = 40001;
  remote_addr = v4 (203 ∷ 0 ∷ 113 ∷ 9 ∷ []);
  remote_port = 53;
  protocol = 17;
}

-- The packet sent at the half second.
abbrev ping : ℕ → PacketMeta
ping i = record { timestamp_ns = i * 500000000; payload_bytes = 100; direction = outbound }

abbrev mixed : List (FlowKey × PacketMeta)
mixed = (web, ping 0) ∷ (dns, ping 1) ∷ (web, ping 2) ∷ []

lookup-ingest_all_example :
    lookup web (Flows.ingest_all sample_floats short_digest new_engine mixed).flows
    ≡ entry_of (packets_for web mixed)
lookup-ingest_all_example = lookup-ingest_all sample_floats short_digest mixed web

answered_from_32_example :
    let answer =
      (ingest_packet sample_floats short_digest
        (Flows.ingest_all sample_floats short_digest new_engine mixed)
        web
        (ping 3)).1 in
    (32 ≤ length (packets_for web mixed) + 1 → IsDetected sample_floats short_digest answer)
    × (length (packets_for web mixed) + 1 < 32 → answer ≡ none)
answered_from_32_example = answered_from_32 sample_floats short_digest mixed web (ping 3)

abbrev pings : List PacketMeta
pings = map ping (iterate suc 1 31)

abbrev steady : RollingFlow
steady = record { packets = ping 0 ∷ pings; total_packets_seen = 32 }

abbrev steady_result : BeaconDetectionResult sample_floats
steady_result = rhythm_result sample_floats short_digest (counts_behind hundredths (ping 0) pings) (
    packet_rows sample_floats 0 (span_of sample_floats 0 (ping 31).timestamp_ns) none
      (ping 0 ∷ pings))

steady_is_evaluated : evaluate_beacon_rhythm sample_floats short_digest steady ≡ some steady_result
unfolding evaluate_beacon_rhythm evaluate_packets is_full build_flow_matrix window_matrix
    counts_behind
steady_is_evaluated = refl

steady_is_flagged : steady_result.is_c2_beacon ≡ true
unfolding rhythm_result counts_behind sum_from
steady_is_flagged = refl

beacon_needs_rhythm_example :
    IsSteady sample_floats short_digest
      (intervals hundredths (ping 0) pings)
      (symmetry hundredths pings)
beacon_needs_rhythm_example =
    beacon_needs_rhythm sample_floats short_digest steady (ping 0) pings steady_result refl
      (λ x h. ground (arith, h)) refl steady_is_evaluated steady_is_flagged
