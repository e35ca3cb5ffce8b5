-- ===== src/Sensors/WfpDriver.antt =====
-- crates/kavach-sensors/src/wfp_driver.rs: the filters that the driver injects and releases.
-- The suspension of a process is a system call and left out. A HashSet is a dictionary to `tt`.
pub mod Laws
use kavach_npu.Prelude.{ℕ, Bool, true, false, List, [], Result, ok, err, if◌then◌else◌, length}
use kavach_npu.Prelude.Dict.{Dict, insert, remove, ℕ_eq}
use kavach_npu.Firewall.Rule.{
  QuarantineTarget, WfpRuleRegistry, new_registry, add_quarantine_rule, remove_rule,
  clear_all_on_shutdown,
}

pub record WfpDriver : Type 0 where
  pub registry : WfpRuleRegistry
  pub active_filter_ids : Dict ℕ (Unit {0})
  pub engine_handle : ℕ
  pub is_live : Bool

unfoldable pub new_driver : WfpDriver
new_driver = record {
  registry = new_registry;
  active_filter_ids = [];
  engine_handle = 0;
  is_live = false;
}

unfoldable pub open_engine : WfpDriver → WfpDriver × Result (List ℕ) (Unit {0})
open_engine d = (record d { engine_handle = 1; is_live = true }, ok tt)

unfoldable pub add_quarantine : WfpDriver → QuarantineTarget → ℕ → WfpDriver × Result (List ℕ) ℕ
add_quarantine d target now_ms =
    let (registry, rule_id) = add_quarantine_rule d.registry target now_ms in
    (
      record d { registry = registry; active_filter_ids = insert rule_id tt d.active_filter_ids },
      ok rule_id,
    )

-- The message of the error names the number; it is left out.
unfoldable pub remove_quarantine : WfpDriver → ℕ → WfpDriver × Result (List ℕ) (Unit {0})
remove_quarantine d filter_id =
    let (registry, found) = remove_rule d.registry filter_id in
    if found
    then (
      record d { registry = registry; active_filter_ids = remove filter_id d.active_filter_ids },
      ok tt,
    )
    else (record d { registry = registry }, err [])

unfoldable pub active_filter_count : WfpDriver → ℕ
active_filter_count d = length d.active_filter_ids

-- `impl Drop for WfpDriver`
unfoldable pub drop_driver : WfpDriver → WfpDriver
drop_driver d = record d { registry = clear_all_on_shutdown d.registry; active_filter_ids = [] }
