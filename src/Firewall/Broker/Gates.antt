-- ===== src/Firewall/Broker/Gates.antt =====
-- crates/kavach-firewall/src/broker.rs: which verdicts the broker enforces.
use kavach_npu.Prelude.{
  ap, sym, ◌∙◌, ℕ, ◌<◌, ◌≤◌, ◌≡◌, refl, true, false, ◌↔◌, inl, inr, List, none, some, Option-cases,
  ok, leb, arith,
}
use kavach_npu.Prelude.Bytes.{bytes_eq, bytes_eq_iff}
use kavach_npu.Prelude.Dict.{lookup, contains, Distinct, bytes_key, contains_iff, lookup-retain}
use kavach_npu.Core.Contracts.{Verdict, EnforcementAction, alert, suspend_and_alert, hard_kill}
use kavach_npu.Firewall.Broker.{
  EnforcementBroker, EnforcedAction, process_terminated, process_suspended, alert_logged,
  evaluate_and_enforce, policy_gates, action_gate, enforced_action, purge_expired_replay_cache,
  register_and_execute, dispatch,
}

-- ADR 002: a kill is opted into and corroborated, and names a process; a suspension names one.
abbrev pub IsAllowed : EnforcementBroker → Verdict → EnforcementAction → Type 0
IsAllowed b v hard_kill =
    (b.hard_kill_enabled ≡ true)
    × (b.minimum_corroborating_evidence ≤ v.corroborating_evidence_count)
    × (0 < v.target_process_id)
IsAllowed b v suspend_and_alert = 0 < v.target_process_id
IsAllowed b v alert = Unit {0}

-- What the broker asks of a verdict at the time `now`. It leaves the time of issue, the length of the
-- window up to the deadline and the process's time of creation unread, of which ADR 003 and
-- docs/schemas/verdict-v1.md speak too.
pub record IsAuthorized (b : EnforcementBroker) (v : Verdict) (now : ℕ) : Type 0 where
  pub version : v.protocol_version.major ≡ 1
  pub no_flags : v.flags ≡ 0
  pub in_time : now ≤ v.expires_at_unix_ms
  pub unseen : (r : ℕ) → lookup v.request_id b.replay_cache ≡ some r → r < now
  pub generation : v.policy_generation ≡ b.active_policy_generation
  pub healthy : b.is_model_degraded ≡ false
  pub trusted : v.model_bundle_sha256 ≡ b.trusted_model_sha256
  pub allowed : IsAllowed b v v.requested_action

-- What is done on the host for an action: a kill terminates the verdict's process, a suspension
-- suspends it, an alert is logged, each with the verdict's evidence.
abbrev pub CarriesOut : EnforcementAction → Verdict → EnforcedAction → Type 0
CarriesOut hard_kill v a = a ≡ process_terminated v.target_process_id v.evidence_digest
CarriesOut suspend_and_alert v a = a ≡ process_suspended v.target_process_id v.evidence_digest
CarriesOut alert v a = a ≡ alert_logged v.evidence_digest

enforced_action_iff :
    (v : Verdict) (action : EnforcementAction) (a : EnforcedAction)
    → (a ≡ enforced_action v action) ↔ CarriesOut action v a
unfolding enforced_action
enforced_action_iff v hard_kill a = (λ h. h, λ h. h)
enforced_action_iff v suspend_and_alert a = (λ h. h, λ h. h)
enforced_action_iff v alert a = (λ h. h, λ h. h)

action_gate_iff :
    (b : EnforcementBroker) (v : Verdict) (a : EnforcementAction)
    → (action_gate b v a ≡ none) ↔ IsAllowed b v a
unfolding action_gate
action_gate_iff b v hard_kill = ground arith
action_gate_iff b v suspend_and_alert = ground arith
action_gate_iff b v alert = (λ _. tt, λ _. refl)

-- Gates 4 to 7 one by one.
record Passes (b : EnforcementBroker) (v : Verdict) : Type 0 where
  unseen : contains v.request_id b.replay_cache ≡ false
  generation : v.policy_generation ≡ b.active_policy_generation
  healthy : b.is_model_degraded ≡ false
  trusted : bytes_eq v.model_bundle_sha256 b.trusted_model_sha256 ≡ true
  allowed : action_gate b v v.requested_action ≡ none

policy_gates-Passes :
    (b : EnforcementBroker) (v : Verdict) (a : EnforcedAction)
    → (policy_gates b v).1 ≡ ok a
    → Passes b v × (a ≡ enforced_action v v.requested_action)
unfolding policy_gates register_and_execute
policy_gates-Passes b v a h = ground arith

Passes-policy_gates :
    (b : EnforcementBroker) (v : Verdict) → Passes b v → policy_gates b v ≡ register_and_execute b v
unfolding policy_gates
Passes-policy_gates b v p = ground arith

early_gates :
    (b : EnforcementBroker) (v : Verdict) (now : ℕ)
    → v.protocol_version.major ≡ 1
    → v.flags ≡ 0
    → now ≤ v.expires_at_unix_ms
    → evaluate_and_enforce b v now ≡ policy_gates (purge_expired_replay_cache b now) v
unfolding evaluate_and_enforce
early_gates b v now m f t = ground arith

early_gates_inv :
    (b : EnforcementBroker) (v : Verdict) (now : ℕ) (a : EnforcedAction)
    → (evaluate_and_enforce b v now).1 ≡ ok a
    → (v.protocol_version.major ≡ 1)
      × (v.flags ≡ 0)
      × (now ≤ v.expires_at_unix_ms)
      × ((policy_gates (purge_expired_replay_cache b now) v).1 ≡ ok a)
unfolding evaluate_and_enforce
early_gates_inv b v now a h = ground arith

-- Purging leaves the policy alone.
IsAllowed-purge :
    (b : EnforcementBroker) (v : Verdict) (now : ℕ) (a : EnforcementAction)
    → IsAllowed (purge_expired_replay_cache b now) v a ↔ IsAllowed b v a
unfolding purge_expired_replay_cache
IsAllowed-purge b v now hard_kill = (λ h. h, λ h. h)
IsAllowed-purge b v now suspend_and_alert = (λ h. h, λ h. h)
IsAllowed-purge b v now alert = (λ h. h, λ h. h)

module _ (b : EnforcementBroker) (now : ℕ) (d : Distinct b.replay_cache) where
  seen_purged :
      (id : List ℕ) (r : ℕ)
      → contains id (purge_expired_replay_cache b now).replay_cache ≡ false
      → lookup id b.replay_cache ≡ some r
      → r < now
  unfolding purge_expired_replay_cache
  seen_purged id r h e =
      let gone = (contains_iff id (purge_expired_replay_cache b now).replay_cache).0 h in
      ground (arith, gone, lookup-retain (λ t. leb now t) id b.replay_cache d)

  purged_unseen :
      (id : List ℕ)
      → ((r : ℕ) → lookup id b.replay_cache ≡ some r → r < now)
      → contains id (purge_expired_replay_cache b now).replay_cache ≡ false
  unfolding purge_expired_replay_cache
  purged_unseen id h = (contains_iff id (purge_expired_replay_cache b now).replay_cache).1 (
      lookup-retain (λ t. leb now t) id b.replay_cache d
      ∙ elim (Option-cases (lookup id b.replay_cache)) [
        | inl e ↦ rw e
        | inr (r, e) ↦ let old = h r e in rw e (ground arith)
      ])

  Authorized→Passes :
      (v : Verdict) → IsAuthorized b v now → Passes (purge_expired_replay_cache b now) v
  unfolding purge_expired_replay_cache
  Authorized→Passes v auth = record {
    unseen = purged_unseen v.request_id auth.unseen;
    generation = auth.generation;
    healthy = auth.healthy;
    trusted = (bytes_eq_iff _ _).1 auth.trusted;
    allowed =
        (action_gate_iff (purge_expired_replay_cache b now) v v.requested_action).1
          ((IsAllowed-purge b v now v.requested_action).1 auth.allowed);
  }

  Passes→Authorized :
      (v : Verdict)
      → v.protocol_version.major ≡ 1
      → v.flags ≡ 0
      → now ≤ v.expires_at_unix_ms
      → Passes (purge_expired_replay_cache b now) v
      → IsAuthorized b v now
  unfolding purge_expired_replay_cache
  Passes→Authorized v m f t p = record {
    version = m;
    no_flags = f;
    in_time = t;
    unseen = λ r. seen_purged v.request_id r p.unseen;
    generation = p.generation;
    healthy = p.healthy;
    trusted = (bytes_eq_iff _ _).0 p.trusted;
    allowed =
        (IsAllowed-purge b v now v.requested_action).0
          ((action_gate_iff (purge_expired_replay_cache b now) v v.requested_action).0 p.allowed);
  }

  -- An authorized verdict is registered in the purged cache and carried out.
  pub evaluate-register :
      (v : Verdict)
      → IsAuthorized b v now
      → evaluate_and_enforce b v now ≡ register_and_execute (purge_expired_replay_cache b now) v
  evaluate-register v auth =
      early_gates b v now auth.version auth.no_flags auth.in_time
      ∙ Passes-policy_gates (purge_expired_replay_cache b now) v (Authorized→Passes v auth)

  pub evaluate-enforced_action :
      (v : Verdict)
      → IsAuthorized b v now
      → (evaluate_and_enforce b v now).1 ≡ ok (enforced_action v v.requested_action)
  unfolding register_and_execute
  evaluate-enforced_action v auth = ap (λ r. r.1) (evaluate-register v auth)

  enforces :
      (v : Verdict) (a : EnforcedAction)
      → (evaluate_and_enforce b v now).1 ≡ ok a
      → IsAuthorized b v now × (a ≡ enforced_action v v.requested_action)
  enforces v a h =
      let (m, f, t, g) = early_gates_inv b v now a h in
      let (p, e) = policy_gates-Passes (purge_expired_replay_cache b now) v a g in
      (Passes→Authorized v m f t p, e)

  -- The broker enforces a verdict exactly when it is authorized, and then carries out the action
  -- that the verdict asks for: it terminates the verdict's process for a kill, suspends it for a
  -- suspension, and logs an alert, with the verdict's evidence; this for a replay cache with distinct
  -- keys.
  pub evaluate-ok_iff :
      (v : Verdict) (a : EnforcedAction)
      → ((evaluate_and_enforce b v now).1 ≡ ok a)
        ↔ (IsAuthorized b v now × CarriesOut v.requested_action v a)
  evaluate-ok_iff v a = (
    λ h. let (auth, e) = enforces v a h in (auth, (enforced_action_iff v v.requested_action a).0 e),
    λ (auth, c).
        evaluate-enforced_action v auth
        ∙ ap ok (sym ((enforced_action_iff v v.requested_action a).1 c)),
  )

-- The dispatcher's own check is implied: it lets through every verdict that the broker enforces.
evaluate-dispatch :
    (b : EnforcementBroker) (v : Verdict) (now : ℕ) (a : EnforcedAction)
    → (evaluate_and_enforce b v now).1 ≡ ok a
    → dispatch b v ≡ ok tt
unfolding evaluate_and_enforce policy_gates dispatch purge_expired_replay_cache
evaluate-dispatch b v now a h = ground arith
