-- ===== src/Npu/Session/Heads.antt =====
-- When the heads answer, and how inferences are counted.
use kavach_npu.Prelude.{
  ℕ, ◌+◌, ◌%◌, ◌^◌, ◌<◌, ◌≡◌, ◌⊎◌, ◌↔◌, refl, subst, true, false, not, List, [], ◌∷◌, Result, ok,
  is_ok, if◌then◌else◌, length, arith, Result-cases, inl, inr,
}
use kavach_npu.Prelude.Float.{Float}
use kavach_npu.Core.Config.{KavachConfig}
use kavach_npu.Core.Manifest.{
  DegradedReason, ModelManifest, Libraries, BundleDir, verify_bundle_dir,
}
use kavach_npu.Npu.Engine.{
  Machine, new_npu_engine, run_io_inference, run_net_inference, run_audit_inference,
}
use kavach_npu.Npu.Tensor.{IoInputTensor, NetInputTensor, AuditInputTensor}
use kavach_npu.Npu.Session.{
  NpuError, NpuState, active, degraded_observer, NpuSession, new_active, new_degraded,
  session_under, from_config, is_degraded_state, is_degraded, total_inferences, evaluate_io_head,
  evaluate_net_head, evaluate_audit_head,
}

-- One call of a head.
pub data HeadCall : Type 0 where
  io : IoInputTensor → HeadCall
  net : NetInputTensor → HeadCall
  audit : AuditInputTensor → HeadCall

state_cases :
    (state : NpuState)
    → ((m : ModelManifest) × (state ≡ active m))
      ⊎ ((reason : DegradedReason) × (g : ℕ) × (k : List ℕ) × (state
            ≡ degraded_observer reason g k))
state_cases (active m) = inl (m, refl)
state_cases (degraded_observer reason g k) = inr (reason, g, k, refl)

module _ (f : Float) where
  unfoldable pub evaluate : NpuSession → HeadCall → NpuSession × Result NpuError f.F
  evaluate s (io t) = evaluate_io_head f s t
  evaluate s (net t) = evaluate_net_head f s t
  evaluate s (audit t) = evaluate_audit_head f s t

  unfoldable pub evaluate_all : NpuSession → List HeadCall → NpuSession
  evaluate_all s [] = s
  evaluate_all s (c ∷ cs) = evaluate_all (evaluate s c).0 cs

  abbrev counted_state : NpuState → ℕ → ℕ → ℕ
  counted_state state before calls =
      if is_degraded_state state then before else (before + calls) % 2 ^ 64

  evaluate-state :
      (s : NpuSession) (c : HeadCall)
      → ((evaluate s c).0.state ≡ s.state)
        × ((evaluate s c).0.engine.active_inferences
            ≡ counted_state s.state s.engine.active_inferences 1)
        × (is_ok (evaluate s c).1 ≡ not (is_degraded_state s.state))
  unfolding evaluate evaluate_io_head evaluate_net_head evaluate_audit_head run_io_inference
      run_net_inference run_audit_inference
  evaluate-state s (io t) = ground (arith, state_cases s.state)
  evaluate-state s (net t) = ground (arith, state_cases s.state)
  evaluate-state s (audit t) = ground (arith, state_cases s.state)

  evaluate_all-from :
      (s : NpuSession) (cs : List HeadCall)
      → s.engine.active_inferences < 2 ^ 64
      → total_inferences (evaluate_all s cs)
        ≡ counted_state s.state s.engine.active_inferences (length cs)
  unfolding evaluate_all total_inferences
  evaluate_all-from s [] h = ground arith
  evaluate_all-from s (c ∷ cs) h =
      ground (arith, evaluate-state s c, evaluate_all-from (evaluate s c).0 cs)

module _ (f : Float) (machine : Machine) (key_from_bytes : List ℕ → Result (List ℕ) Libraries)
    (dir_at : List ℕ → BundleDir) where
  -- The key parses and the bundle in the configured directory is verified under it.
  abbrev pub IsReady : KavachConfig → List ℕ → Type 0
  IsReady config key =
      (lib : Libraries) × (key_from_bytes key ≡ ok lib)
      × (m : ModelManifest) × (verify_bundle_dir lib (dir_at config.model.bundle_directory)
            config.model.minimum_rollback_generation
          ≡ ok m)

  from_config-IsReady_iff :
      (config : KavachConfig) (key : List ℕ)
      → (is_degraded (from_config machine key_from_bytes dir_at config key) ≡ false)
        ↔ IsReady config key
  unfolding from_config is_degraded new_active new_degraded
  from_config-IsReady_iff config key = elim (Result-cases (key_from_bytes key)) [
    | inl (lib, e) ↦
        let verified =
          verify_bundle_dir lib (dir_at config.model.bundle_directory)
            config.model.minimum_rollback_generation in
        elim (Result-cases verified) [
          | inl (m, e') ↦ (λ h. (lib, e, m, e'), λ r. rw e (rw e' refl))
          | inr (x, e') ↦ (
            λ h. absurd (
                cc (
                  subst
                      (λ (r : Result (List ℕ) Libraries).
                        is_degraded_state
                          (session_under machine key_from_bytes dir_at config r).state
                        ≡ false)
                      e h,
                  e',
                )),
            λ (lib', k, m, v). absurd (cc (e, e', k, v)),
          )
        ]
    | inr (x, e) ↦ (λ h. absurd (ground (arith, h, e)), λ (lib', k, m, v). absurd (cc (e, k)))
  ]

  fresh :
      (config : KavachConfig) (key : List ℕ)
      → (from_config machine key_from_bytes dir_at config key).engine.active_inferences ≡ 0
  unfolding from_config new_active new_degraded new_npu_engine
  fresh config key = elim (Result-cases (key_from_bytes key)) [
    | inl (lib, e) ↦
        let verified =
          verify_bundle_dir lib (dir_at config.model.bundle_directory)
            config.model.minimum_rollback_generation in
        elim (Result-cases verified) [
          | inl (m, e') ↦ rw e (rw e' refl)
          | inr (x, e') ↦ rw e (rw e' refl)
        ]
    | inr (x, e) ↦ rw e refl
  ]

  -- A head of a new session answers exactly when the key parses and the bundle is verified; in the
  -- degraded state every head refuses, whatever its input.
  pub heads_answer_iff :
      (config : KavachConfig) (key : List ℕ) (c : HeadCall)
      → (is_ok (evaluate f (from_config machine key_from_bytes dir_at config key) c).1 ≡ true)
        ↔ IsReady config key
  unfolding is_degraded
  heads_answer_iff config key c =
      let s = from_config machine key_from_bytes dir_at config key in
      let answers = (evaluate-state f s c).2 in
      let ready = from_config-IsReady_iff config key in
      (λ h. ready.0 (ground (arith, h, answers)), λ r. ground (arith, ready.1 r, answers))

  -- After any calls of the heads, a new session has counted each of them, modulo 2^64, if it is
  -- active, and none if it is degraded.
  inferences_counted :
      (config : KavachConfig) (key : List ℕ) (cs : List HeadCall)
      → let s = from_config machine key_from_bytes dir_at config key in
        total_inferences (evaluate_all f s cs) ≡ (if is_degraded s then 0 else length cs % 2 ^ 64)
  unfolding is_degraded
  inferences_counted config key cs =
      let s = from_config machine key_from_bytes dir_at config key in
      ground (arith, fresh config key, evaluate_all-from f s cs)
