-- ===== src/Sensors/WfpDriver/Laws.antt =====
-- The driver's set of filters beside the registry's set of rules.
use kavach_npu.Prelude.{
  ℕ, ◌+◌, ◌^◌, ◌<◌, ◌≡◌, ◌↔◌, refl, none, some, Option-cases, Bool-cases, ◌==◌, sym, subst, inl,
  inr, arith,
}
use kavach_npu.Prelude.Dict.{
  Dict, Distinct, lookup, insert, remove, ℕ_eq, lookup-insert, lookup-remove, Distinct-insert,
  Distinct-remove,
}
use kavach_npu.Firewall.Rule.{
  DynamicFilterRule, QuarantineTarget, add_quarantine_rule, remove_rule, clear_all_on_shutdown,
}
use kavach_npu.Firewall.Rule.Laws.{IsRegistry, step, step-IsRegistry, add, remove_by_id, shutdown}
use kavach_npu.Sensors.WfpDriver.{
  WfpDriver, open_engine, add_quarantine, remove_quarantine, drop_driver,
}

-- A well-formed registry, distinct filters, and a filter for each rule and no other.
pub record IsDriver (d : WfpDriver) : Type 0 where
  pub registry_ok : IsRegistry d.registry
  pub distinct : Distinct d.active_filter_ids
  pub mirrors :
      (id : ℕ) → (lookup id d.active_filter_ids ≡ none) ↔ (lookup id d.registry.rules ≡ none)

-- Two dictionaries with the same keys.
abbrev pub SameKeys : {V W : Type 0} → Dict ℕ V → Dict ℕ W → Type 0
SameKeys m n = (id : ℕ) → (lookup id m ≡ none) ↔ (lookup id n ≡ none)

insert-SameKeys :
    {V W : Type 0} (k : ℕ) (v : V) (w : W) (m : Dict ℕ V) (n : Dict ℕ W)
    → SameKeys m n
    → SameKeys (insert k v m) (insert k w n)
insert-SameKeys k v w m n h id =
    rw (lookup-insert k id v m, lookup-insert k id w n) (ground (arith, h id))

remove-SameKeys :
    {V W : Type 0} (k : ℕ) (m : Dict ℕ V) (n : Dict ℕ W)
    → Distinct m
    → Distinct n
    → SameKeys m n
    → SameKeys (remove k m) (remove k n)
remove-SameKeys k m n dm dn h id =
    rw (lookup-remove k id m dm, lookup-remove k id n dn) (ground (arith, h id))

-- What is done with a driver.
pub data DriverCall : Type 0 where
  open_call drop_call : DriverCall
  add_call : QuarantineTarget → ℕ → DriverCall
  remove_call : ℕ → DriverCall

unfoldable pub driver_step : WfpDriver → DriverCall → WfpDriver
driver_step d open_call = (open_engine d).0
driver_step d drop_call = drop_driver d
driver_step d (add_call target now) = (add_quarantine d target now).0
driver_step d (remove_call id) = (remove_quarantine d id).0

remove_quarantine-none :
    (d : WfpDriver) (filter_id : ℕ)
    → lookup filter_id d.registry.rules ≡ none
    → (remove_quarantine d filter_id).0
      ≡ record d { registry = (remove_rule d.registry filter_id).0 }
unfolding remove_quarantine remove_rule
remove_quarantine-none d filter_id e = rw (remove_quarantine, e) refl

remove_quarantine-some :
    (d : WfpDriver) (filter_id : ℕ) (rule : DynamicFilterRule)
    → lookup filter_id d.registry.rules ≡ some rule
    → (remove_quarantine d filter_id).0 ≡ record d {
      registry = (remove_rule d.registry filter_id).0;
      active_filter_ids = remove filter_id d.active_filter_ids;
    }
unfolding remove_quarantine remove_rule
remove_quarantine-some d filter_id rule e = rw (remove_quarantine, e) refl

remove-IsDriver :
    (d : WfpDriver) (filter_id : ℕ)
    → d.registry.next_filter_id + 1 < 2 ^ 64
    → IsDriver d
    → IsDriver (remove_quarantine d filter_id).0
unfolding remove_quarantine remove_rule step
remove-IsDriver d filter_id room v = elim (Option-cases (lookup filter_id d.registry.rules)) [
  | inl e ↦ subst IsDriver (sym (remove_quarantine-none d filter_id e)) (record {
    registry_ok = step-IsRegistry d.registry (remove_by_id filter_id) room v.registry_ok;
    distinct = v.distinct;
    mirrors = λ id.
        rw (lookup-remove filter_id id d.registry.rules v.registry_ok.distinct)
          (elim (Bool-cases (filter_id == id)) [
            | inl same ↦
                let there : filter_id ≡ id = ground (arith, same) in
                let gone : lookup id d.registry.rules ≡ none =
                  subst (λ k. lookup k d.registry.rules ≡ none) there e in
                ground (arith, same, gone, v.mirrors id)
            | inr other ↦ ground (arith, other, v.mirrors id)
          ]);
  })
  | inr (rule, e) ↦ subst IsDriver (sym (remove_quarantine-some d filter_id rule e)) (record {
    registry_ok = step-IsRegistry d.registry (remove_by_id filter_id) room v.registry_ok;
    distinct = Distinct-remove filter_id d.active_filter_ids v.distinct;
    mirrors =
        remove-SameKeys filter_id d.active_filter_ids d.registry.rules v.distinct
          v.registry_ok.distinct v.mirrors;
  })
]

-- While the counter has not reached the end of its 64 bits, whatever is done keeps the driver well
-- formed: it has a filter for each rule of a well-formed registry, and no other.
pub driver_step-IsDriver :
    (d : WfpDriver) (c : DriverCall)
    → d.registry.next_filter_id + 1 < 2 ^ 64
    → IsDriver d
    → IsDriver (driver_step d c)
unfolding driver_step open_engine drop_driver add_quarantine add_quarantine_rule
    clear_all_on_shutdown step lookup
driver_step-IsDriver d open_call room v = record {
  registry_ok = v.registry_ok;
  distinct = v.distinct;
  mirrors = v.mirrors;
}
driver_step-IsDriver d drop_call room v = record {
  registry_ok = step-IsRegistry d.registry shutdown room v.registry_ok;
  distinct = tt;
  mirrors = λ id. (λ _. refl, λ _. refl);
}
driver_step-IsDriver d (add_call target now) room v = record {
  registry_ok = step-IsRegistry d.registry (add target now) room v.registry_ok;
  distinct = Distinct-insert d.registry.next_filter_id tt d.active_filter_ids v.distinct;
  mirrors =
      insert-SameKeys d.registry.next_filter_id tt _ d.active_filter_ids d.registry.rules v.mirrors;
}
driver_step-IsDriver d (remove_call id) room v = remove-IsDriver d id room v
