-- ===== src/Core/Config.antt =====
-- crates/kavach-core/src/config.rs: the configuration, its defaults, its bounds and its loading.
-- Parsing TOML, serde's defaults for missing fields included, is the argument `parse`; the outcome
-- of reading the file is an argument too. A message of bounds is the setting and its value.
pub mod Bounds
use kavach_npu.Prelude.{
  ℕ, Bool, true, false, not, ◌&&◌, List, [], ◌∷◌, Option, none, some, Result, ok, err, ◌>>◌,
  reject_if, leb, ◌==◌,
}
use kavach_npu.Core.Contracts.{ArtifactVersion}

pub record ContainmentConfig : Type 0 where
  pub hard_kill_enabled : Bool
  pub minimum_corroborating_evidence : ℕ
  pub suspend_action_ttl_seconds : ℕ

pub record AllowlistConfig : Type 0 where
  pub manifest_path : List ℕ
  pub required_policy_generation : ℕ

pub record ModelConfig : Type 0 where
  pub bundle_directory : List ℕ
  pub minimum_rollback_generation : ℕ
  pub minimum_keyring_generation : ℕ
  pub allow_last_known_good : Bool

pub record WslConfig : Type 0 where
  pub correlation_window_ms : ℕ
  pub maximum_clock_uncertainty_ms : ℕ
  pub clock_sync_interval_seconds : ℕ
  pub clock_sync_stale_after_seconds : ℕ
  pub ambiguous_vm_containment_enabled : Bool

pub record KavachConfig : Type 0 where
  pub artifact_version : ArtifactVersion
  pub containment : ContainmentConfig
  pub allowlist : AllowlistConfig
  pub model : ModelConfig
  pub wsl : WslConfig

-- The settings that a message of bounds names.
pub data Setting : Type 0 where
  minimum_corroborating_evidence suspend_action_ttl_seconds correlation_window_ms : Setting
  maximum_clock_uncertainty_ms clock_sync_interval_seconds clock_sync_stale_after_seconds : Setting

pub data ConfigError : Type 0 where
  io_error : List ℕ → ConfigError
  parse_error : List ℕ → ConfigError
  unsupported_major_version : ℕ → ConfigError
  invalid_bounds : Setting → ℕ → ConfigError

unfoldable pub default_containment : ContainmentConfig
default_containment = record {
  hard_kill_enabled = false;
  minimum_corroborating_evidence = 3;
  suspend_action_ttl_seconds = 3600;
}

-- "policy/allowlist.json"
unfoldable pub default_allowlist : AllowlistConfig
default_allowlist = record {
  manifest_path =
      b'p' ∷ b'o' ∷ b'l' ∷ b'i' ∷ b'c' ∷ b'y' ∷ b'/' ∷ b'a' ∷ b'l' ∷ b'l' ∷ b'o' ∷ b'w' ∷ b'l'
      ∷ b'i' ∷ b's' ∷ b't' ∷ b'.' ∷ b'j' ∷ b's' ∷ b'o' ∷ b'n' ∷ [];
  required_policy_generation = 0;
}

-- "models/active"
unfoldable pub default_model : ModelConfig
default_model = record {
  bundle_directory =
      b'm' ∷ b'o' ∷ b'd' ∷ b'e' ∷ b'l' ∷ b's' ∷ b'/' ∷ b'a' ∷ b'c' ∷ b't' ∷ b'i' ∷ b'v' ∷ b'e' ∷ [];
  minimum_rollback_generation = 0;
  minimum_keyring_generation = 0;
  allow_last_known_good = true;
}

unfoldable pub default_wsl : WslConfig
default_wsl = record {
  correlation_window_ms = 250;
  maximum_clock_uncertainty_ms = 50;
  clock_sync_interval_seconds = 30;
  clock_sync_stale_after_seconds = 90;
  ambiguous_vm_containment_enabled = false;
}

unfoldable pub safe_defaults : KavachConfig
safe_defaults = record {
  artifact_version = record { major = 1; minor = 0 };
  containment = default_containment;
  allowlist = default_allowlist;
  model = default_model;
  wsl = default_wsl;
}

-- `(low..=high).contains(&x)`
abbrev within : ℕ → ℕ → ℕ → Bool
within low high x = leb low x && leb x high

unfoldable pub validate : KavachConfig → Result ConfigError (Unit {0})
validate c = do
  reject_if (not (c.artifact_version.major == 1))
      (unsupported_major_version c.artifact_version.major)
  reject_if (c.containment.minimum_corroborating_evidence == 0)
      (invalid_bounds minimum_corroborating_evidence c.containment.minimum_corroborating_evidence)
  reject_if (not (within 60 86400 c.containment.suspend_action_ttl_seconds))
      (invalid_bounds suspend_action_ttl_seconds c.containment.suspend_action_ttl_seconds)
  reject_if (not (within 10 250 c.wsl.correlation_window_ms))
      (invalid_bounds correlation_window_ms c.wsl.correlation_window_ms)
  reject_if (not (within 1 50 c.wsl.maximum_clock_uncertainty_ms))
      (invalid_bounds maximum_clock_uncertainty_ms c.wsl.maximum_clock_uncertainty_ms)
  reject_if (not (c.wsl.clock_sync_interval_seconds == 30))
      (invalid_bounds clock_sync_interval_seconds c.wsl.clock_sync_interval_seconds)
  reject_if (not (c.wsl.clock_sync_stale_after_seconds == 90))
      (invalid_bounds clock_sync_stale_after_seconds c.wsl.clock_sync_stale_after_seconds)
  ok tt

module _ (parse : List ℕ → Result (List ℕ) KavachConfig) where
  unfoldable pub from_toml_str : List ℕ → Result ConfigError KavachConfig
  from_toml_str toml_str = elim (parse toml_str) [
    | err message ↦ err (parse_error message)
    | ok config ↦ validate config >> ok config
  ]

  -- `content` is the outcome of `std::fs::read_to_string(path)`.
  unfoldable pub load_or_safe_defaults :
      Result (List ℕ) (List ℕ) → KavachConfig × Option ConfigError
  load_or_safe_defaults (err message) = (safe_defaults, some (io_error message))
  load_or_safe_defaults (ok content) = elim (from_toml_str content) [
    | ok config ↦ (config, none)
    | err e ↦ (safe_defaults, some e)
  ]
