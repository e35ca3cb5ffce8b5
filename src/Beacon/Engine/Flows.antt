-- ===== src/Beacon/Engine/Flows.antt =====
-- crates/kavach-beacon/src/lib.rs: the engine's flow of a key beside the history of its packets.
use mathlib.Core.List.{append-nil, append_assoc}
use kavach_npu.Prelude.{
  ap₂, subst, ◌<◌, ℕ, ◌+◌, ◌%◌, ◌^◌, ◌≤◌, ◌≡◌, refl, sym, ap, ◌∙◌, Bool, true, false, List, [], ◌∷◌,
  ◌++◌, Option, none, some, leb, ◌==◌, if◌then◌else◌, length, length-append, arith, Bool-cases, inl,
  inr,
}
use kavach_npu.Prelude.Dict.{lookup, insert, lookup-insert, lookup-insert_self}
use kavach_npu.Prelude.Float.{Floats}
use kavach_npu.Prelude.Windows.{last_of, last_of-append, length-last_of}
use kavach_npu.Beacon.Flow.{
  PacketMeta, FlowKey, key_eq, key_eq_iff, flow_key, RollingFlow, new_flow, is_full, record_packet,
}
use kavach_npu.Beacon.Detector.{BeaconDetectionResult, evaluate_beacon_rhythm}
use kavach_npu.Beacon.Detector.Rhythm.{IsDetected, evaluate-IsDetected}
use kavach_npu.Beacon.Engine.{TcnEngine, new_engine, or_default, ingest_packet}

-- The packets of a key, in their order.
abbrev pub packets_for : FlowKey → List (FlowKey × PacketMeta) → List PacketMeta
packets_for key [] = []
packets_for key ((k, meta) ∷ history) =
    if key_eq k key then meta ∷ packets_for key history else packets_for key history

packets_for-snoc :
    (key k : FlowKey) (meta : PacketMeta) (history : List (FlowKey × PacketMeta))
    → packets_for key (history ++ ((k, meta) ∷ []))
      ≡ (if key_eq k key then packets_for key history ++ (meta ∷ []) else packets_for key history)
packets_for-snoc key k meta [] = ground arith
packets_for-snoc key k meta ((j, m) ∷ history) = ground (arith, packets_for-snoc key k meta history)

-- The flow that so many packets leave: the last 32 of them, and their number in 64 bits.
abbrev pub flow_of : List PacketMeta → RollingFlow
flow_of metas = record { packets = last_of 32 metas; total_packets_seen = length metas % 2 ^ 64 }

-- A key that has had no packet has no flow.
abbrev pub entry_of : List PacketMeta → Option RollingFlow
entry_of [] = none
entry_of (m ∷ metas) = some (flow_of (m ∷ metas))

or_default-entry_of : (metas : List PacketMeta) → or_default (entry_of metas) ≡ flow_of metas
unfolding new_flow
or_default-entry_of [] = refl
or_default-entry_of (m ∷ metas) = refl

entry_of-snoc :
    (metas : List PacketMeta) (m : PacketMeta)
    → entry_of (metas ++ (m ∷ [])) ≡ some (flow_of (metas ++ (m ∷ [])))
entry_of-snoc [] m = refl
entry_of-snoc (n ∷ metas) m = refl

record_packet-flow_of :
    (metas : List PacketMeta) (m : PacketMeta)
    → record_packet (flow_of metas) m
      ≡ (flow_of (metas ++ (m ∷ [])), leb 32 (length (metas ++ (m ∷ []))))
unfolding record_packet
record_packet-flow_of metas m =
    let after = metas ++ (m ∷ []) in
    let counted : (length metas % 2 ^ 64 + 1) % 2 ^ 64 ≡ length after % 2 ^ 64 =
      omega (arith, length-append metas (m ∷ [])) in
    ap
      (λ (ps : List PacketMeta).
        let f : RollingFlow = record {
          packets = ps;
          total_packets_seen = (length metas % 2 ^ 64 + 1) % 2 ^ 64;
        } in
        (f, length ps == 32))
      (last_of-append 32 metas m (omega arith))
    ∙ ap₂
        (λ (n : ℕ) (b : Bool).
          let f : RollingFlow = record { packets = last_of 32 after; total_packets_seen = n } in
          (f, b))
        counted (length-last_of 32 after)

module _ (fl : Floats) (sha256 : List ℕ → List ℕ) where
  unfoldable pub ingest_all : TcnEngine → List (FlowKey × PacketMeta) → TcnEngine
  ingest_all e [] = e
  ingest_all e ((k, meta) ∷ history) = ingest_all (ingest_packet fl sha256 e k meta).0 history

  -- The engine has the flows that the history leaves.
  abbrev Tracks : TcnEngine → List (FlowKey × PacketMeta) → Type 0
  Tracks e history = (key : FlowKey) → lookup key e.flows ≡ entry_of (packets_for key history)

  recorded :
      (e : TcnEngine) (history : List (FlowKey × PacketMeta)) (k : FlowKey) (meta : PacketMeta)
      → Tracks e history
      → let metas = packets_for k history ++ (meta ∷ []) in
        record_packet (or_default (lookup k e.flows)) meta ≡ (flow_of metas, leb 32 (length metas))
  recorded e history k meta tracks =
      ap (λ o. record_packet (or_default o) meta) (tracks k)
      ∙ ap (λ f. record_packet f meta) (or_default-entry_of (packets_for k history))
      ∙ record_packet-flow_of (packets_for k history) meta

  Tracks-ingest :
      (e : TcnEngine) (history : List (FlowKey × PacketMeta)) (k : FlowKey) (meta : PacketMeta)
      → Tracks e history
      → Tracks (ingest_packet fl sha256 e k meta).0 (history ++ ((k, meta) ∷ []))
  unfolding ingest_packet
  Tracks-ingest e history k meta tracks key =
      let history' = history ++ ((k, meta) ∷ []) in
      let flow = (record_packet (or_default (lookup k e.flows)) meta).0 in
      let flows' = insert k flow e.flows in
      elim (Bool-cases (key_eq k key)) [
        | inl same ↦
            let own : packets_for k history' ≡ packets_for k history ++ (meta ∷ []) =
              packets_for-snoc k k meta history
              ∙ ap (λ b. if b then packets_for k history ++ (meta ∷ []) else packets_for k history)
                  ((key_eq_iff k k).1 refl) in
            subst (λ j. lookup j flows' ≡ entry_of (packets_for j history'))
              ((key_eq_iff k key).0 same)
              (lookup-insert_self k flow e.flows
                ∙ ap (λ r. some r.0) (recorded e history k meta tracks)
                ∙ sym (entry_of-snoc (packets_for k history) meta)
                ∙ ap entry_of (sym own))
        | inr other ↦
            lookup-insert k key flow e.flows
            ∙ ap (λ b. if b then some flow else lookup key e.flows) other
            ∙ tracks key
            ∙ ap entry_of (
                sym (
                  packets_for-snoc key k meta history
                  ∙ ap
                      (λ b.
                        if b
                        then packets_for key history ++ (meta ∷ [])
                        else packets_for key history)
                      other))
      ]

  ingest_all-Tracks :
      (e : TcnEngine) (before history : List (FlowKey × PacketMeta))
      → Tracks e before
      → Tracks (ingest_all e history) (before ++ history)
  unfolding ingest_all
  ingest_all-Tracks e before [] tracks = subst (Tracks e) (sym (append-nil before)) tracks
  ingest_all-Tracks e before ((k, meta) ∷ history) tracks =
      subst (Tracks (ingest_all e ((k, meta) ∷ history)))
        (append_assoc before ((k, meta) ∷ []) history)
        (ingest_all-Tracks (ingest_packet fl sha256 e k meta).0 (before ++ ((k, meta) ∷ [])) history
          (Tracks-ingest e before k meta tracks))

  -- Whatever packets arrive, the engine has no flow for a key without packets, and for any other the
  -- last 32 packets of that key in their order, with their number modulo 2^64.
  pub lookup-ingest_all :
      (history : List (FlowKey × PacketMeta)) (key : FlowKey)
      → lookup key (ingest_all new_engine history).flows ≡ entry_of (packets_for key history)
  unfolding new_engine lookup
  lookup-ingest_all history key = ingest_all-Tracks new_engine [] history (λ j. refl) key

  -- A packet is answered with an evaluation of its flow exactly when it is at least the 32nd of its
  -- key, and the evaluation's matrix then has 32 rows of four.
  pub answered_from_32 :
      (history : List (FlowKey × PacketMeta)) (k : FlowKey) (meta : PacketMeta)
      → let answer = (ingest_packet fl sha256 (ingest_all new_engine history) k meta).1 in
        (32 ≤ length (packets_for k history) + 1 → IsDetected fl sha256 answer)
        × (length (packets_for k history) + 1 < 32 → answer ≡ none)
  unfolding ingest_packet is_full
  answered_from_32 history k meta =
      let metas = packets_for k history ++ (meta ∷ []) in
      let f = flow_of metas in
      let chosen : Bool → Option (BeaconDetectionResult fl) =
        λ b. if b then evaluate_beacon_rhythm fl sha256 f else none in
      let same =
        ap (λ (r : RollingFlow × Bool). if r.1 then evaluate_beacon_rhythm fl sha256 r.0 else none)
          (recorded (ingest_all new_engine history) history k meta (lookup-ingest_all history)) in
      let one_more = length-append (packets_for k history) (meta ∷ []) in
      (
        λ h.
            let ready : leb 32 (length metas) ≡ true = ground (arith, one_more, h) in
            subst (IsDetected fl sha256) (sym (same ∙ ap chosen ready))
              (evaluate-IsDetected fl sha256 f (length-last_of 32 metas ∙ ready)),
        λ h.
            let waiting : leb 32 (length metas) ≡ false = ground (arith, one_more, h) in
            same ∙ ap chosen waiting,
      )
