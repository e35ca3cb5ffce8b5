-- ===== src/Beacon/Engine.antt =====
-- crates/kavach-beacon/src/lib.rs: a rolling flow for each key. `HashMap` is an association list;
-- its order stands for the order in which the map is iterated.
pub mod Flows
use kavach_npu.Prelude.{
  ℕ, List, [], ◌∷◌, Option, none, some, Bool, if◌then◌else◌, length, replicate,
}
use kavach_npu.Prelude.Dict.{Dict, lookup, insert}
use kavach_npu.Prelude.Float.{Float, Floats}
use kavach_npu.Beacon.Flow.{
  PacketMeta, FlowKey, flow_key, RollingFlow, new_flow, record_packet, build_flow_matrix,
}
use kavach_npu.Beacon.Detector.{BeaconDetectionResult, evaluate_beacon_rhythm}

pub record TcnEngine : Type 0 where
  pub flows : Dict FlowKey RollingFlow

unfoldable pub new_engine : TcnEngine
new_engine = record { flows = [] }

-- `clear`
unfoldable pub clear_flows : TcnEngine → TcnEngine
clear_flows e = record e { flows = [] }

unfoldable pub active_flow_count : TcnEngine → ℕ
active_flow_count e = length e.flows

-- `or_default`
abbrev pub or_default : Option RollingFlow → RollingFlow
or_default none = new_flow
or_default (some f) = f

module _ (fl : Floats) (sha256 : List ℕ → List ℕ) where
  unfoldable pub ingest_packet :
      TcnEngine → FlowKey → PacketMeta → TcnEngine × Option (BeaconDetectionResult fl)
  ingest_packet e key meta =
      let (flow, ready) = record_packet (or_default (lookup key e.flows)) meta in
      (
        record e { flows = insert key flow e.flows },
        if ready then evaluate_beacon_rhythm fl sha256 flow else none,
      )

module _ (fl : Floats) where
  -- The matrix of the first full flow, or zeros.
  unfoldable pub first_matrix : Dict FlowKey RollingFlow → List (List fl.single.F)
  first_matrix [] = replicate 32 (replicate 4 (fl.single.lit 0 0))
  first_matrix ((key, f) ∷ flows) = elim (build_flow_matrix fl f) [
    | some matrix ↦ matrix
    | none ↦ first_matrix flows
  ]

  unfoldable pub build_engine_matrix : TcnEngine → List (List fl.single.F)
  build_engine_matrix e = first_matrix e.flows
