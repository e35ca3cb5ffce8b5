-- ===== src/Tests/Rules.antt =====
-- The rule registry on concrete inputs.
use kavach_npu.Prelude.{refl, true, some, [], ◌∷◌}
use native.Mathlib.Omega.{arith}
use kavach_npu.Prelude.Dict.{lookup, ℕ_eq}
use kavach_npu.Firewall.Rule.{QuarantineTarget, WfpRuleRegistry, destination_ip_port, v4}
use kavach_npu.Sensors.WfpDriver.{WfpDriver}
use kavach_npu.Sensors.WfpDriver.Laws.{IsDriver, driver_step, add_call, driver_step-IsDriver}
use kavach_npu.Firewall.Rule.Laws.{IsRegistry, step, add, step-IsRegistry}

abbrev sample_target : QuarantineTarget
sample_target = destination_ip_port (v4 3232235777) (some 443) 6

abbrev sample_registry : WfpRuleRegistry
sample_registry = record {
  rules =
      (
        1,
        record {
          filter_id = 1;
          target = sample_target;
          created_at_ms = 1000;
          wfp_flags = 16;
          is_active = true;
        },
      )
      ∷ [];
  next_filter_id = 2;
}

sample_registry_well_formed : IsRegistry sample_registry
unfolding lookup
sample_registry_well_formed = record {
  distinct = (refl, tt);
  entries = ((omega arith, refl, refl, refl), tt);
}

step-IsRegistry_example : IsRegistry (step sample_registry (add sample_target 2000))
step-IsRegistry_example =
    step-IsRegistry sample_registry (add sample_target 2000) (omega arith)
      sample_registry_well_formed

abbrev sample_driver : WfpDriver
sample_driver = record {
  registry = sample_registry;
  active_filter_ids = (1, tt) ∷ [];
  engine_handle = 1;
  is_live = true;
}

sample_driver-IsDriver : IsDriver sample_driver
unfolding lookup
sample_driver-IsDriver = record {
  registry_ok = sample_registry_well_formed;
  distinct = (refl, tt);
  mirrors = λ id. ground arith;
}

driver_step-IsDriver_example : IsDriver (driver_step sample_driver (add_call sample_target 2000))
driver_step-IsDriver_example =
    driver_step-IsDriver sample_driver (add_call sample_target 2000) (omega arith)
      sample_driver-IsDriver
