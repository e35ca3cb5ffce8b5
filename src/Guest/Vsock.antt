-- ===== src/Guest/Vsock.antt =====
-- crates/kavach-wsl-guest/src/vsock.rs: the delay before the agent connects again.
use native.Mathlib.Omega.{pow_step}
use kavach_npu.Prelude.{
  ℕ, zero, suc, ◌+◌, ◌*◌, ◌^◌, ◌≤◌, ◌≡◌, min, inl, inr, leb, Bool-cases, arith, subst, sym, ap, ◌∙◌,
  ◌-◌,
}

-- `1u64 << shift` is at most 64 for `shift` at most 6.
unfoldable pub compute_backoff_ms : ℕ → ℕ → ℕ
compute_backoff_ms attempt max_backoff_ms = min (1000 * 2 ^ min attempt 6) max_backoff_ms

power_large : (k : ℕ) → 64 ≤ 2 ^ (6 + k)
power_large zero = omega arith
power_large (suc k) =
    let next : 6 + suc k ≡ suc (6 + k) = omega arith in
    subst (λ n. 64 ≤ 2 ^ n) (sym next) (omega (arith, pow_step 2 (6 + k), power_large k))

-- With a maximum of at most 64 seconds the delay is the documented one: a second, doubled at each
-- attempt, and at most the maximum.
compute_backoff_lem :
    (attempt max_backoff_ms : ℕ)
    → max_backoff_ms ≤ 64000
    → compute_backoff_ms attempt max_backoff_ms ≡ min (1000 * 2 ^ attempt) max_backoff_ms
unfolding compute_backoff_ms
compute_backoff_lem attempt limit h = elim (Bool-cases (leb 6 attempt)) [
  | inl e ↦
      let six : min attempt 6 ≡ 6 = ground (arith, e) in
      let split : attempt ≡ 6 + (attempt - 6) = ground (arith, e) in
      let large : 64 ≤ 2 ^ attempt =
        subst (λ n. 64 ≤ 2 ^ n) (sym split) (power_large (attempt - 6)) in
      ap (λ n. min (1000 * 2 ^ n) limit) six ∙ omega (arith, large, h)
  | inr e ↦
      let same : min attempt 6 ≡ attempt = ground (arith, e) in
      ap (λ n. min (1000 * 2 ^ n) limit) same
]
