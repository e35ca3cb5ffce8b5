-- ===== src/Core/Config/Bounds.antt =====
-- The bounds that config-schema.md gives, and that whatever is loaded keeps them.
use kavach_npu.Prelude.{
  ℕ, ◌≡◌, ◌≢◌, ◌≤◌, ◌↔◌, inl, inr, Result-cases, refl, List, none, Result, ok, err, arith,
}
use kavach_npu.Core.Config.{
  KavachConfig, safe_defaults, validate, from_toml_str, load_or_safe_defaults, default_containment,
  default_wsl,
}

-- The bounds of config-schema.md.
pub record IsWithinBounds (c : KavachConfig) : Type 0 where
  pub version : c.artifact_version.major ≡ 1
  pub evidence : 1 ≤ c.containment.minimum_corroborating_evidence
  pub ttl_low : 60 ≤ c.containment.suspend_action_ttl_seconds
  pub ttl_high : c.containment.suspend_action_ttl_seconds ≤ 86400
  pub window_low : 10 ≤ c.wsl.correlation_window_ms
  pub window_high : c.wsl.correlation_window_ms ≤ 250
  pub uncertainty_low : 1 ≤ c.wsl.maximum_clock_uncertainty_ms
  pub uncertainty_high : c.wsl.maximum_clock_uncertainty_ms ≤ 50
  pub interval : c.wsl.clock_sync_interval_seconds ≡ 30
  pub stale : c.wsl.clock_sync_stale_after_seconds ≡ 90

validate-ok : (c : KavachConfig) → validate c ≡ ok tt → IsWithinBounds c
unfolding validate
validate-ok c h = ground arith

validate_within : (c : KavachConfig) → IsWithinBounds c → validate c ≡ ok tt
unfolding validate
validate_within c h = ground arith

safe_defaults-IsWithinBounds : IsWithinBounds safe_defaults
unfolding safe_defaults default_containment default_wsl
safe_defaults-IsWithinBounds = ground arith

-- `validate` accepts exactly the configurations within the bounds.
validate-ok_iff : (c : KavachConfig) → (validate c ≡ ok tt) ↔ IsWithinBounds c
validate-ok_iff c = (validate-ok c, validate_within c)

module _ (parse : List ℕ → Result (List ℕ) KavachConfig) where
  from_toml_str-ok :
      (text : List ℕ) (c : KavachConfig)
      → from_toml_str parse text ≡ ok c
      → (parse text ≡ ok c) × IsWithinBounds c
  unfolding from_toml_str
  from_toml_str-ok text c h = elim (Result-cases (validate c)) [
    | inl (u, e) ↦ ground (arith, validate-ok c e)
    | inr (x, e) ↦ ground (arith, e)
  ]

  from_toml_str_within :
      (text : List ℕ) (c : KavachConfig)
      → parse text ≡ ok c
      → IsWithinBounds c
      → from_toml_str parse text ≡ ok c
  unfolding from_toml_str
  from_toml_str_within text c e v = ground (arith, e, validate_within c v)

  loaded :
      (text : List ℕ) (c : KavachConfig)
      → load_or_safe_defaults parse (ok text) ≡ (c, none)
      → from_toml_str parse text ≡ ok c
  unfolding load_or_safe_defaults
  loaded text c h = elim (Result-cases (from_toml_str parse text)) [
    | inl (d, e) ↦ ground (arith, e)
    | inr (x, e) ↦ ground (arith, e)
  ]

  -- Loading reports no error exactly when the file was read and parsed to a configuration within
  -- the bounds, and then that configuration is the one loaded.
  load-none_iff :
      (content : Result (List ℕ) (List ℕ)) (c : KavachConfig)
      → (load_or_safe_defaults parse content ≡ (c, none))
        ↔ ((text : List ℕ) × (content ≡ ok text) × (parse text ≡ ok c) × IsWithinBounds c)
  unfolding load_or_safe_defaults
  load-none_iff (err m) c = ground arith
  load-none_iff (ok text) c = (
    λ h. let (e, v) = from_toml_str-ok text c (loaded text c h) in (text, refl, e, v),
    λ (t, same, e, v).
        rw (load_or_safe_defaults, from_toml_str_within text c (cc (same, e)) v) refl,
  )

  -- Whatever the file holds, what is loaded is within the bounds, and with any error reported it is
  -- the safe defaults.
  pub load_fails_safe :
      (content : Result (List ℕ) (List ℕ))
      → IsWithinBounds (load_or_safe_defaults parse content).0
        × (((load_or_safe_defaults parse content).1 ≢ none)
            → (load_or_safe_defaults parse content).0 ≡ safe_defaults)
  unfolding load_or_safe_defaults
  load_fails_safe (err m) = (safe_defaults-IsWithinBounds, λ _. refl)
  load_fails_safe (ok text) = elim (Result-cases (from_toml_str parse text)) [
    | inl (c, e) ↦
        rw (load_or_safe_defaults, e) ((from_toml_str-ok text c e).1, λ h. absurd (h refl))
    | inr (x, e) ↦ rw (load_or_safe_defaults, e) (safe_defaults-IsWithinBounds, λ _. refl)
  ]
