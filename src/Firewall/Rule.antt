-- ===== src/Firewall/Rule.antt =====
-- crates/kavach-firewall/src/rule.rs: the registry of dynamic packet filtering rules.
-- A string is the list of its bytes; an address is the number that it stands for.
pub mod Laws
use kavach_npu.Prelude.{
  ℕ, ◌+◌, ◌%◌, ◌^◌, ◌≡◌, refl, Bool, true, false, ◌&&◌, ◌↔◌, List, [], ◌∷◌, Option, none, some,
  if◌then◌else◌, ◌==◌, any, map, length, arith,
}
use kavach_npu.Prelude.Bytes.{bytes_eq, bytes_eq_iff}
use kavach_npu.Prelude.Dict.{Dict, Eq, lookup, insert, remove, ℕ_eq}

abbrev pub fwpm_filter_flag_clear_action_on_shutdown : ℕ
fwpm_filter_flag_clear_action_on_shutdown = 0x0000_0010

-- `std::net::IpAddr`
pub data IpAddr : Type 0 where
  v4 : ℕ → IpAddr
  v6 : ℕ → IpAddr

pub data QuarantineTarget : Type 0 where
  destination_ip_port : (ip : IpAddr) (port : Option ℕ) (protocol : ℕ) → QuarantineTarget
  wsl_virtual_switch : (switch_name : List ℕ) → QuarantineTarget

ip_eq : IpAddr → IpAddr → Bool
ip_eq (v4 a) (v4 b) = a == b
ip_eq (v4 a) (v6 b) = false
ip_eq (v6 a) (v4 b) = false
ip_eq (v6 a) (v6 b) = a == b

port_eq : Option ℕ → Option ℕ → Bool
port_eq none none = true
port_eq none (some b) = false
port_eq (some a) none = false
port_eq (some a) (some b) = a == b

-- The derived `PartialEq`.
pub target_eq : QuarantineTarget → QuarantineTarget → Bool
target_eq (destination_ip_port i p k) (destination_ip_port j q l) =
    ip_eq i j && (port_eq p q && (k == l))
target_eq (destination_ip_port i p k) (wsl_virtual_switch s) = false
target_eq (wsl_virtual_switch s) (destination_ip_port j q l) = false
target_eq (wsl_virtual_switch s) (wsl_virtual_switch t) = bytes_eq s t

pub record DynamicFilterRule : Type 0 where
  pub filter_id : ℕ
  pub target : QuarantineTarget
  pub created_at_ms : ℕ
  pub wfp_flags : ℕ
  pub is_active : Bool

pub record WfpRuleRegistry : Type 0 where
  pub rules : Dict ℕ DynamicFilterRule
  pub next_filter_id : ℕ

unfoldable pub new_registry : WfpRuleRegistry
new_registry = record { rules = []; next_filter_id = 1 }

-- The counter is a u64; a release build wraps.
unfoldable pub add_quarantine_rule : WfpRuleRegistry → QuarantineTarget → ℕ → WfpRuleRegistry × ℕ
add_quarantine_rule r target now_ms =
    let id = r.next_filter_id in
    let rule : DynamicFilterRule = record {
      filter_id = id;
      target = target;
      created_at_ms = now_ms;
      wfp_flags = fwpm_filter_flag_clear_action_on_shutdown;
      is_active = true;
    } in
    (record { rules = insert id rule r.rules; next_filter_id = (id + 1) % 2 ^ 64 }, id)

is_some : {A : Type 0} → Option A → Bool
is_some none = false
is_some (some a) = true

unfoldable pub remove_rule : WfpRuleRegistry → ℕ → WfpRuleRegistry × Bool
unfolding is_some
remove_rule r filter_id =
    (record r { rules = remove filter_id r.rules }, is_some (lookup filter_id r.rules))

unfoldable pub active_rule_count : WfpRuleRegistry → ℕ
active_rule_count r = length r.rules

-- `r.is_active && &r.target == target`, at one entry.
abbrev pub blocks : QuarantineTarget → ℕ × DynamicFilterRule → Bool
blocks target (id, rule) = rule.is_active && target_eq rule.target target

unfoldable pub is_quarantined : WfpRuleRegistry → QuarantineTarget → Bool
is_quarantined r target = any (blocks target) r.rules

unfoldable pub clear_all_on_shutdown : WfpRuleRegistry → WfpRuleRegistry
clear_all_on_shutdown r = record r { rules = [] }

ip_eq_iff : (i j : IpAddr) → (ip_eq i j ≡ true) ↔ (i ≡ j)
unfolding ip_eq
ip_eq_iff (v4 a) (v4 b) = ground arith
ip_eq_iff (v4 a) (v6 b) = ground arith
ip_eq_iff (v6 a) (v4 b) = ground arith
ip_eq_iff (v6 a) (v6 b) = ground arith

port_eq_iff : (p q : Option ℕ) → (port_eq p q ≡ true) ↔ (p ≡ q)
unfolding port_eq
port_eq_iff none none = ground arith
port_eq_iff none (some b) = ground arith
port_eq_iff (some a) none = ground arith
port_eq_iff (some a) (some b) = ground arith

-- The test is equality.
pub target_eq_iff : (s t : QuarantineTarget) → (target_eq s t ≡ true) ↔ (s ≡ t)
unfolding target_eq
target_eq_iff (destination_ip_port i p k) (destination_ip_port j q l) =
    ground (arith, ip_eq_iff i j, port_eq_iff p q)
target_eq_iff (destination_ip_port i p k) (wsl_virtual_switch s) = ground arith
target_eq_iff (wsl_virtual_switch s) (destination_ip_port j q l) = ground arith
target_eq_iff (wsl_virtual_switch s) (wsl_virtual_switch t) = ground (arith, bytes_eq_iff s t)
