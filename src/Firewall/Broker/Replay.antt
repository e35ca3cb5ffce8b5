-- ===== src/Firewall/Broker/Replay.antt =====
-- crates/kavach-firewall/src/broker.rs: the replay cache over any history of verdicts.
use kavach_npu.Prelude.{
  ℕ, ◌+◌, ◌^◌, ◌<◌, ◌≤◌, ◌≡◌, refl, false, ◌⊎◌, inl, inr, ◌≢◌, List, [], ◌∷◌, some, Result, ok, err,
  leb, arith, is_ok, All, ◌∙◌, ap,
}
use kavach_npu.Prelude.Bytes.{bytes_eq_iff}
use kavach_npu.Prelude.Dict.{
  lookup, contains, Distinct, bytes_key, contains_iff, lookup-retain, filter_value, lookup-insert,
  Distinct-insert, Distinct-retain, lookup-insert_self,
}
use kavach_npu.Core.Contracts.{
  Verdict, EnforcementAction, alert, suspend_and_alert, hard_kill, DispatchError,
}
use kavach_npu.Firewall.Broker.{
  EnforcementBroker, EnforcedAction, evaluate_and_enforce, policy_gates, retention, enforced_action,
  purge_expired_replay_cache, register_and_execute,
}
use kavach_npu.Firewall.Broker.Gates.{
  IsAllowed, IsAuthorized, evaluate-ok_iff, evaluate-register, evaluate-enforced_action,
}

-- After a call the broker is the old one, the purged one, or the purged one with the nonce added;
-- the last only if the purged cache had no such nonce.
Outcome : EnforcementBroker → Verdict → ℕ → EnforcementBroker → Type 0
Outcome b v now b' =
    (b' ≡ b)
    ⊎ (b' ≡ purge_expired_replay_cache b now)
    ⊎ ((contains v.request_id (purge_expired_replay_cache b now).replay_cache ≡ false)
        × (b' ≡ (register_and_execute (purge_expired_replay_cache b now) v).0))

policy_gates-Outcome :
    (b : EnforcementBroker) (v : Verdict)
    → ((policy_gates b v).0 ≡ b)
      ⊎ ((contains v.request_id b.replay_cache ≡ false)
          × ((policy_gates b v).0 ≡ (register_and_execute b v).0))
unfolding policy_gates
policy_gates-Outcome b v = ground arith

evaluate-Outcome :
    (b : EnforcementBroker) (v : Verdict) (now : ℕ)
    → Outcome b v now (evaluate_and_enforce b v now).0
unfolding evaluate_and_enforce Outcome
evaluate-Outcome b v now = ground (arith, policy_gates-Outcome (purge_expired_replay_cache b now) v)

evaluate-Distinct :
    (b : EnforcementBroker) (v : Verdict) (now : ℕ)
    → Distinct b.replay_cache
    → Distinct (evaluate_and_enforce b v now).0.replay_cache
unfolding Outcome purge_expired_replay_cache register_and_execute
evaluate-Distinct b v now d = elim (evaluate-Outcome b v now) [
  | inl e ↦ rw e d
  | inr (inl e) ↦ rw e (Distinct-retain _ b.replay_cache d)
  | inr (inr (_, e)) ↦ rw e (Distinct-insert v.request_id _ _ (Distinct-retain _ b.replay_cache d))
]

-- A registered nonce stays, with its retention, through any call that is made before it runs out.
evaluate-keeps :
    (b : EnforcementBroker) (v : Verdict) (now : ℕ) (id : List ℕ) (r : ℕ)
    → Distinct b.replay_cache
    → lookup id b.replay_cache ≡ some r
    → now ≤ r
    → lookup id (evaluate_and_enforce b v now).0.replay_cache ≡ some r
unfolding Outcome purge_expired_replay_cache register_and_execute
evaluate-keeps b v now id r d there time = elim (evaluate-Outcome b v now) [
  | inl e ↦ rw e there
  | inr (inl e) ↦ rw e kept
  | inr (inr (new, e)) ↦
      rw (e, lookup-insert v.request_id id _ _)
        (ground (arith, bytes_eq_iff v.request_id id, (contains_iff v.request_id _).0 new, kept))
]
  where
    kept : lookup id (purge_expired_replay_cache b now).replay_cache ≡ some r
    kept = lookup-retain (λ t. leb now t) id b.replay_cache d ∙ rw there (ground arith)

-- The verdicts that reach the broker, each with the broker's clock.
unfoldable pub run : EnforcementBroker → List (Verdict × ℕ) → EnforcementBroker
run b [] = b
run b ((v, now) ∷ rest) = run (evaluate_and_enforce b v now).0 rest

abbrev pub Until : ℕ → Verdict × ℕ → Type 0
Until limit (v, now) = now ≤ limit

run-Distinct :
    (b : EnforcementBroker) (calls : List (Verdict × ℕ))
    → Distinct b.replay_cache
    → Distinct (run b calls).replay_cache
unfolding run
run-Distinct b [] d = d
run-Distinct b ((v, now) ∷ rest) d =
    run-Distinct (evaluate_and_enforce b v now).0 rest (evaluate-Distinct b v now d)

run-keeps :
    (b : EnforcementBroker) (calls : List (Verdict × ℕ)) (id : List ℕ) (r : ℕ)
    → Distinct b.replay_cache
    → lookup id b.replay_cache ≡ some r
    → All (Until r) calls
    → lookup id (run b calls).replay_cache ≡ some r
unfolding run
run-keeps b [] id r d there times = there
run-keeps b ((v, now) ∷ rest) id r d there (time, times) =
    run-keeps (evaluate_and_enforce b v now).0 rest id r (evaluate-Distinct b v now d)
      (evaluate-keeps b v now id r d there time) times

evaluate-registers :
    (b : EnforcementBroker) (v : Verdict) (now : ℕ) (a : EnforcedAction)
    → Distinct b.replay_cache
    → (evaluate_and_enforce b v now).1 ≡ ok a
    → lookup v.request_id (evaluate_and_enforce b v now).0.replay_cache ≡ some (retention v)
unfolding register_and_execute
evaluate-registers b v now a d h =
    let (auth, _) = (evaluate-ok_iff b now d v a).0 h in
    rw (evaluate-register b now d v auth) (lookup-insert_self v.request_id (retention v) _)

not_ok : {E A : Type 0} (r : Result E A) → ((a : A) → r ≢ ok a) → is_ok r ≡ false
not_ok (ok a) h = absurd (h a refl)
not_ok (err e) h = refl

-- Once a verdict is enforced, no verdict with its nonce is enforced again while the clock stays
-- within its expiry and 60 seconds, whatever verdicts the broker sees in between; this for an
-- expiry for which that sum fits 64 bits.
pub no_replay :
    (b : EnforcementBroker) (v w : Verdict) (now later : ℕ) (a : EnforcedAction)
    (calls : List (Verdict × ℕ))
    → Distinct b.replay_cache
    → v.expires_at_unix_ms + 60000 < 2 ^ 64
    → (evaluate_and_enforce b v now).1 ≡ ok a
    → All (Until (v.expires_at_unix_ms + 60000)) calls
    → w.request_id ≡ v.request_id
    → later ≤ v.expires_at_unix_ms + 60000
    → is_ok (evaluate_and_enforce (run (evaluate_and_enforce b v now).0 calls) w later).1 ≡ false
no_replay b v w now later a calls d fits h times same late =
    let b' = (evaluate_and_enforce b v now).0 in
    let limit : retention v ≡ v.expires_at_unix_ms + 60000 = omega arith in
    let there : lookup v.request_id b'.replay_cache ≡ some (v.expires_at_unix_ms + 60000) =
      evaluate-registers b v now a d h ∙ ap some limit in
    let d' = evaluate-Distinct b v now d in
    let still = run-keeps b' calls v.request_id _ d' there times in
    not_ok (evaluate_and_enforce (run b' calls) w later).1 λ c e.
      let (auth, _) = (evaluate-ok_iff (run b' calls) later (run-Distinct b' calls d') w c).0 e in
      absurd (
        omega
          (arith, auth.unseen _ (ap (λ id. lookup id (run b' calls).replay_cache) same ∙ still)))

-- A verdict that is not enforced registers nothing: each nonce keeps its retention or, if that ran
-- out before `now`, is dropped.
evaluate-err_keeps :
    (b : EnforcementBroker) (v : Verdict) (now : ℕ) (e : DispatchError) (id : List ℕ)
    → Distinct b.replay_cache
    → (evaluate_and_enforce b v now).1 ≡ err e
    → let after = lookup id (evaluate_and_enforce b v now).0.replay_cache in
      let before = lookup id b.replay_cache in
      (after ≡ before) ⊎ (after ≡ filter_value (λ t. leb now t) before)
unfolding evaluate_and_enforce policy_gates register_and_execute purge_expired_replay_cache
evaluate-err_keeps b v now e id d h =
    ground (arith, lookup-retain (λ t. leb now t) id b.replay_cache d)

abbrev registered : EnforcementBroker → Verdict → ℕ → EnforcementBroker
registered b v now = (register_and_execute (purge_expired_replay_cache b now) v).0

registered-Distinct :
    (b : EnforcementBroker) (v : Verdict) (now : ℕ)
    → Distinct b.replay_cache
    → Distinct (registered b v now).replay_cache
unfolding register_and_execute purge_expired_replay_cache
registered-Distinct b v now d =
    Distinct-insert v.request_id _ _ (Distinct-retain _ b.replay_cache d)

IsAllowed-registered :
    (b : EnforcementBroker) (v : Verdict) (now : ℕ) (a : EnforcementAction)
    → IsAllowed b v a
    → IsAllowed (registered b v now) v a
unfolding register_and_execute purge_expired_replay_cache
IsAllowed-registered b v now hard_kill h = h
IsAllowed-registered b v now suspend_and_alert h = h
IsAllowed-registered b v now alert h = h

-- With a retention that has already run out the nonce does not count as seen.
registered-IsAuthorized :
    (b : EnforcementBroker) (v : Verdict) (now : ℕ)
    → IsAuthorized b v now
    → retention v < now
    → IsAuthorized (registered b v now) v now
unfolding register_and_execute purge_expired_replay_cache
registered-IsAuthorized b v now auth old = record {
  version = auth.version;
  no_flags = auth.no_flags;
  in_time = auth.in_time;
  unseen = λ r e. ground (
    arith,
    lookup-insert_self v.request_id (retention v) (purge_expired_replay_cache b now).replay_cache,
  );
  generation = auth.generation;
  healthy = auth.healthy;
  trusted = auth.trusted;
  allowed = IsAllowed-registered b v now v.requested_action auth.allowed;
}

-- Where the expiry plus 60 seconds does not fit 64 bits the nonce's retention wraps, and from one
-- minute after the epoch on the very same verdict is enforced a second time.
pub replay_after_wrap :
    (b : EnforcementBroker) (v : Verdict) (now : ℕ)
    → Distinct b.replay_cache
    → IsAuthorized b v now
    → v.expires_at_unix_ms < 2 ^ 64
    → 2 ^ 64 ≤ v.expires_at_unix_ms + 60000
    → 60000 ≤ now
    → (evaluate_and_enforce (evaluate_and_enforce b v now).0 v now).1
      ≡ ok (enforced_action v v.requested_action)
replay_after_wrap b v now d auth fits wraps time = rw (evaluate-register b now d v auth) (
    evaluate-enforced_action (registered b v now) now (registered-Distinct b v now d) v
      (registered-IsAuthorized b v now auth (omega arith)))
