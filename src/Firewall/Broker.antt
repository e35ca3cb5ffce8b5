-- ===== src/Firewall/Broker.antt =====
-- crates/kavach-firewall/src/broker.rs: the broker's gates, its replay cache and what it enforces.
-- A method that changes the broker returns the new broker beside its result.
pub mod Gates
pub mod Replay
use kavach_npu.Prelude.{
  ℕ, ◌+◌, ◌%◌, ◌^◌, ◌≡◌, Bool, true, false, not, ◌||◌, List, [], Option, none, some, Result, ok,
  err, ltb, leb, ◌==◌, if◌then◌else◌, length,
}
use kavach_npu.Prelude.Bytes.{bytes_eq}
use kavach_npu.Prelude.Dict.{Dict, contains, insert, retain, bytes_key}
use kavach_npu.Core.Contracts.{
  Verdict, EnforcementAction, alert, suspend_and_alert, hard_kill, DispatchError, version_mismatch,
  malformed_message, expired, replay_detected, action_denied,
}
use kavach_npu.Firewall.Rule.{WfpRuleRegistry, new_registry}

pub data EnforcedAction : Type 0 where
  process_suspended : (pid : ℕ) (evidence_digest : List ℕ) → EnforcedAction
  process_terminated : (pid : ℕ) (evidence_digest : List ℕ) → EnforcedAction
  alert_logged : (evidence_digest : List ℕ) → EnforcedAction

pub record EnforcementBroker : Type 0 where
  pub active_policy_generation : ℕ
  pub hard_kill_enabled : Bool
  pub minimum_corroborating_evidence : ℕ
  pub trusted_model_sha256 : List ℕ
  pub is_model_degraded : Bool
  pub replay_cache : Dict (List ℕ) ℕ
  pub rule_registry : WfpRuleRegistry

unfoldable pub new_broker : ℕ → Bool → ℕ → List ℕ → Bool → EnforcementBroker
new_broker generation hard_kill_on minimum trusted degraded = record {
  active_policy_generation = generation;
  hard_kill_enabled = hard_kill_on;
  minimum_corroborating_evidence = minimum;
  trusted_model_sha256 = trusted;
  is_model_degraded = degraded;
  replay_cache = [];
  rule_registry = new_registry;
}

unfoldable pub purge_expired_replay_cache : EnforcementBroker → ℕ → EnforcementBroker
purge_expired_replay_cache b now_unix_ms = record b {
  replay_cache = retain (λ retain_until. leb now_unix_ms retain_until) b.replay_cache;
}

unfoldable pub replay_cache_size : EnforcementBroker → ℕ
replay_cache_size b = length b.replay_cache

-- Gate 7: the first `match verdict.requested_action`; `none` lets the verdict through.
unfoldable pub action_gate : EnforcementBroker → Verdict → EnforcementAction → Option DispatchError
action_gate b v hard_kill =
    if not b.hard_kill_enabled
    then some action_denied
    else if ltb v.corroborating_evidence_count b.minimum_corroborating_evidence
    then some action_denied
    else if v.target_process_id == 0
    then some malformed_message
    else none
action_gate b v suspend_and_alert =
    if v.target_process_id == 0 then some malformed_message else none
action_gate b v alert = none

-- The second `match verdict.requested_action`.
unfoldable pub enforced_action : Verdict → EnforcementAction → EnforcedAction
enforced_action v hard_kill = process_terminated v.target_process_id v.evidence_digest
enforced_action v suspend_and_alert = process_suspended v.target_process_id v.evidence_digest
enforced_action v alert = alert_logged v.evidence_digest

-- `verdict.expires_at_unix_ms + 60_000` in u64, as a release build computes it.
abbrev pub retention : Verdict → ℕ
retention v = (v.expires_at_unix_ms + 60000) % 2 ^ 64

-- Behind gate 7: the nonce is registered and the action carried out.
unfoldable pub register_and_execute :
    EnforcementBroker → Verdict → EnforcementBroker × Result DispatchError EnforcedAction
register_and_execute b v = (
  record b { replay_cache = insert v.request_id (retention v) b.replay_cache },
  ok (enforced_action v v.requested_action),
)

-- Gates 4 to 7, on the purged broker.
unfoldable pub policy_gates :
    EnforcementBroker → Verdict → EnforcementBroker × Result DispatchError EnforcedAction
policy_gates b v =
    if contains v.request_id b.replay_cache
    then (b, err replay_detected)
    else if not (v.policy_generation == b.active_policy_generation)
    then (b, err action_denied)
    else if b.is_model_degraded || not (bytes_eq v.model_bundle_sha256 b.trusted_model_sha256)
    then (b, err action_denied)
    else elim (action_gate b v v.requested_action) [
      | some e ↦ (b, err e)
      | none ↦ register_and_execute b v
    ]

unfoldable pub evaluate_and_enforce :
    EnforcementBroker → Verdict → ℕ → EnforcementBroker × Result DispatchError EnforcedAction
evaluate_and_enforce b v now_unix_ms =
    if not (v.protocol_version.major == 1)
    then (b, err version_mismatch)
    else if not (v.flags == 0)
    then (b, err malformed_message)
    else if ltb v.expires_at_unix_ms now_unix_ms
    then (b, err expired)
    else policy_gates (purge_expired_replay_cache b now_unix_ms) v

-- `impl VerdictDispatcher for EnforcementBroker`
unfoldable pub dispatch : EnforcementBroker → Verdict → Result DispatchError (Unit {0})
dispatch b v =
    if not (v.protocol_version.major == 1)
    then err version_mismatch
    else if not (v.flags == 0)
    then err malformed_message
    else if b.is_model_degraded || not (bytes_eq v.model_bundle_sha256 b.trusted_model_sha256)
    then err action_denied
    else ok tt
