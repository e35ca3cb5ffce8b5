-- ===== src/Firewall/Rule/Laws.antt =====
-- crates/kavach-firewall/src/rule.rs: what each operation of the registry does to the rules.
use kavach_npu.Prelude.{
  ℕ, ◌+◌, ◌%◌, ◌^◌, ◌<◌, ◌≤◌, ◌≡◌, refl, true, ◌||◌, ◌↔◌, inl, inr, [], ◌∷◌, none, some, Bool-cases,
  any, All, arith, ==_iff,
}
use kavach_npu.Prelude.Dict.{
  Dict, lookup, insert, remove, Distinct, Distinct-insert, Distinct-remove, ℕ_eq,
}
use kavach_npu.Firewall.Rule.{
  QuarantineTarget, DynamicFilterRule, WfpRuleRegistry, add_quarantine_rule, remove_rule, blocks,
  is_quarantined, clear_all_on_shutdown, target_eq, target_eq_iff,
}

-- A rule stands under its own number, which was given out, is active, and goes with the session.
abbrev pub IsEntry : ℕ → ℕ × DynamicFilterRule → Type 0
IsEntry next (id, rule) =
    (id < next) × (rule.filter_id ≡ id) × (rule.is_active ≡ true) × (rule.wfp_flags ≡ 16)

pub record IsRegistry (r : WfpRuleRegistry) : Type 0 where
  pub distinct : Distinct r.rules
  pub entries : All (IsEntry r.next_filter_id) r.rules

lookup_above :
    (n : ℕ) (m : Dict ℕ DynamicFilterRule) (k : ℕ) → All (IsEntry n) m → n ≤ k → lookup k m ≡ none
unfolding lookup
lookup_above n [] k h le = refl
lookup_above n ((id, rule) ∷ m) k (e, h) le = ground (arith, lookup_above n m k h)

entries_mono :
    (n k : ℕ) (m : Dict ℕ DynamicFilterRule) → n ≤ k → All (IsEntry n) m → All (IsEntry k) m
entries_mono n k [] le h = tt
entries_mono n k ((id, rule) ∷ m) le (e, h) =
    ((omega arith, e.1, e.2, e.3), entries_mono n k m le h)

entries-insert :
    (n id : ℕ) (rule : DynamicFilterRule) (m : Dict ℕ DynamicFilterRule)
    → IsEntry n (id, rule)
    → All (IsEntry n) m
    → All (IsEntry n) (insert id rule m)
unfolding insert
entries-insert n id rule [] e h = (e, tt)
entries-insert n id rule ((j, old) ∷ m) e (e', h) = ground (arith, entries-insert n id rule m e h)

entries-remove :
    (n id : ℕ) (m : Dict ℕ DynamicFilterRule) → All (IsEntry n) m → All (IsEntry n) (remove id m)
unfolding remove
entries-remove n id [] h = tt
entries-remove n id ((j, old) ∷ m) (e, h) = ground (arith, entries-remove n id m h)

-- The calls that change the registry.
pub data Call : Type 0 where
  add : QuarantineTarget → ℕ → Call
  remove_by_id : ℕ → Call
  shutdown : Call

unfoldable pub step : WfpRuleRegistry → Call → WfpRuleRegistry
step r (add target now_ms) = (add_quarantine_rule r target now_ms).0
step r (remove_by_id id) = (remove_rule r id).0
step r shutdown = clear_all_on_shutdown r

-- While the counter has not reached the end of its 64 bits, every call keeps the registry well
-- formed: numbers are distinct and were given out, and each rule is active and session-bound.
pub step-IsRegistry :
    (r : WfpRuleRegistry) (c : Call)
    → r.next_filter_id + 1 < 2 ^ 64
    → IsRegistry r
    → IsRegistry (step r c)
unfolding step add_quarantine_rule remove_rule clear_all_on_shutdown
step-IsRegistry r (add target now_ms) room v =
    let next : (r.next_filter_id + 1) % 2 ^ 64 ≡ r.next_filter_id + 1 = omega arith in
    record {
      distinct = Distinct-insert r.next_filter_id _ r.rules v.distinct;
      entries = rw next (
          entries-insert (r.next_filter_id + 1) r.next_filter_id _ r.rules
            (omega arith, refl, refl, refl)
            (entries_mono r.next_filter_id (r.next_filter_id + 1) r.rules (omega arith) v.entries));
    }
step-IsRegistry r (remove_by_id id) room v = record {
  distinct = Distinct-remove id r.rules v.distinct;
  entries = entries-remove r.next_filter_id id r.rules v.entries;
}
step-IsRegistry r shutdown room v = record { distinct = tt; entries = tt }

insert_new :
    (k : ℕ) (rule : DynamicFilterRule) (m : Dict ℕ DynamicFilterRule) (t : QuarantineTarget)
    → lookup k m ≡ none
    → any (blocks t) (insert k rule m) ≡ (blocks t (k, rule) || any (blocks t) m)
unfolding lookup insert
insert_new k rule [] t h = refl
insert_new k rule ((j, old) ∷ m) t h = ground (arith, insert_new k rule m t)

-- After a rule is added exactly its own target and those quarantined before are quarantined.
is_quarantined-add :
    (r : WfpRuleRegistry) (t u : QuarantineTarget) (now_ms : ℕ)
    → IsRegistry r
    → is_quarantined (add_quarantine_rule r t now_ms).0 u ≡ (target_eq t u || is_quarantined r u)
unfolding is_quarantined add_quarantine_rule
is_quarantined-add r t u now_ms v =
    insert_new r.next_filter_id _ r.rules u
      (lookup_above r.next_filter_id r.rules r.next_filter_id v.entries (omega arith))

remove-insert_new :
    (k : ℕ) (rule : DynamicFilterRule) (m : Dict ℕ DynamicFilterRule)
    → lookup k m ≡ none
    → remove k (insert k rule m) ≡ m
unfolding lookup insert remove
remove-insert_new k rule [] h = ground arith
remove-insert_new k rule ((j, old) ∷ m) h = ground (arith, remove-insert_new k rule m)

lookup-insert_new :
    (k : ℕ) (rule : DynamicFilterRule) (m : Dict ℕ DynamicFilterRule)
    → lookup k (insert k rule m) ≡ some rule
unfolding lookup insert
lookup-insert_new k rule [] = ground arith
lookup-insert_new k rule ((j, old) ∷ m) = ground (arith, lookup-insert_new k rule m)

-- Releasing the rule that was just added succeeds and leaves the rules as they were before it, also
-- where other rules quarantine the same target; only the counter has moved on.
remove_rule-add :
    (r : WfpRuleRegistry) (t : QuarantineTarget) (now_ms : ℕ)
    → IsRegistry r
    → let (added, id) = add_quarantine_rule r t now_ms in
      remove_rule added id ≡ (record r { next_filter_id = (r.next_filter_id + 1) % 2 ^ 64 }, true)
unfolding add_quarantine_rule remove_rule
remove_rule-add r t now_ms v =
    let fresh : lookup r.next_filter_id r.rules ≡ none =
      lookup_above r.next_filter_id r.rules r.next_filter_id v.entries (omega arith) in
    rw (
      remove-insert_new r.next_filter_id _ r.rules fresh,
      lookup-insert_new r.next_filter_id _ r.rules,
    )

abbrev pub Holds : Dict ℕ DynamicFilterRule → QuarantineTarget → ℕ → DynamicFilterRule → Type 0
Holds m t id rule = (lookup id m ≡ some rule) × (rule.is_active ≡ true) × (rule.target ≡ t)

any→Holds :
    (m : Dict ℕ DynamicFilterRule) (t : QuarantineTarget)
    → Distinct m
    → any (blocks t) m ≡ true
    → (id : ℕ) × (rule : DynamicFilterRule) × Holds m t id rule
unfolding lookup
any→Holds [] t d h = cc
any→Holds ((id, rule) ∷ m) t (new, d) h = elim (Bool-cases (blocks t (id, rule))) [
  | inl hit ↦ (id, rule, ground (arith, target_eq_iff rule.target t))
  | inr miss ↦
      let (j, other, holds) = any→Holds m t d (ground arith) in
      (j, other, ground (arith, ==_iff id j))
]

Holds→any :
    (m : Dict ℕ DynamicFilterRule) (t : QuarantineTarget) (id : ℕ) (rule : DynamicFilterRule)
    → Holds m t id rule
    → any (blocks t) m ≡ true
unfolding lookup
Holds→any [] t id rule h = cc (h.0)
Holds→any ((j, old) ∷ m) t id rule h =
    ground (arith, target_eq_iff rule.target t, Holds→any m t id rule)

-- A target is quarantined exactly when some rule under its number is active and names it.
is_quarantined_iff :
    (r : WfpRuleRegistry) (t : QuarantineTarget)
    → IsRegistry r
    → (is_quarantined r t ≡ true)
      ↔ ((id : ℕ) × (rule : DynamicFilterRule) × Holds r.rules t id rule)
unfolding is_quarantined
is_quarantined_iff r t v =
    (any→Holds r.rules t v.distinct, λ (id, rule, h). Holds→any r.rules t id rule h)
