-- ===== src/Wsl/Correlator/Paths.antt =====
-- The translation of mount paths.
use kavach_npu.Prelude.{
  ℕ, ◌≡◌, ◌≢◌, ◌↔◌, ◌⊎◌, inl, inr, refl, sym, ap, true, List, [], ◌∷◌, ◌++◌, map, some,
  if◌then◌else◌, length, drop, arith, Bool-cases,
}
use kavach_npu.Prelude.Ascii.{uppercase}
use kavach_npu.Wsl.Path.{starts_with, mnt_prefix, slash, is_empty}
use kavach_npu.Wsl.Correlator.{
  split_slash, backslashed, windows_path, translate_mnt_to_windows_path,
}

starts_with_append : (p q : List ℕ) → starts_with p (p ++ q) ≡ true
unfolding starts_with
starts_with_append [] q = refl
starts_with_append (c ∷ p) q = ground (arith, starts_with_append p q)

starts_with_inv : (p xs : List ℕ) → starts_with p xs ≡ true → p ++ drop (length p) xs ≡ xs
unfolding starts_with
starts_with_inv [] xs h = refl
starts_with_inv (c ∷ p) [] h = absurd cc
starts_with_inv (c ∷ p) (x ∷ xs) h = ground (arith, starts_with_inv p xs)

-- What the translation reads after "/mnt/": one byte other than a slash, and then nothing, or a slash
-- and the rest.
abbrev pub Remainder : ℕ → List ℕ → List ℕ → Type 0
Remainder d rest xs = (d ≢ slash) × (((xs ≡ d ∷ []) × (rest ≡ [])) ⊎ (xs ≡ d ∷ slash ∷ rest))

abbrev Translated : List ℕ → List ℕ → Type 0
Translated xs w =
    (d : ℕ) × (rest : List ℕ) × Remainder d rest xs
    × (w ≡ uppercase d ∷ b':' ∷ b'\\' ∷ map backslashed rest)

empty_rest :
    (rest : List ℕ) → (if is_empty rest then [] else map backslashed rest) ≡ map backslashed rest
empty_rest [] = refl
empty_rest (c ∷ cs) = refl

Translated-inv :
    (xs w : List ℕ) → windows_path (split_slash xs).0 (split_slash xs).1 ≡ some w → Translated xs w
unfolding split_slash
Translated-inv [] w h = absurd cc
Translated-inv (d ∷ []) w h = (d, [], ground arith, ground arith)
Translated-inv (d ∷ e ∷ xs) w h = (d, xs, ground arith, ground (arith, empty_rest xs))

Translated-again :
    (xs w : List ℕ) → Translated xs w → windows_path (split_slash xs).0 (split_slash xs).1 ≡ some w
unfolding split_slash
Translated-again [] w (d, rest, r, e) = ground arith
Translated-again (c ∷ []) w (d, rest, r, e) = ground arith
Translated-again (c ∷ b ∷ xs) w (d, rest, r, e) = ground (arith, empty_rest xs)

-- A path is translated exactly when it is "/mnt/", one byte other than a slash, and then nothing, or a
-- slash and the rest; the translation is that byte as a capital, ":\\" and the rest, each slash turned.
pub translate_iff :
    (path windows : List ℕ)
    → (translate_mnt_to_windows_path path ≡ some windows) ↔ (
        (d : ℕ) × (rest : List ℕ) × Remainder d rest (drop 5 path)
        × (path ≡ mnt_prefix ++ drop 5 path)
        × (windows ≡ uppercase d ∷ b':' ∷ b'\\' ∷ map backslashed rest))
unfolding translate_mnt_to_windows_path
translate_iff path windows = elim (Bool-cases (starts_with mnt_prefix path)) [
  | inl e ↦ (
    λ h.
        let (d, rest, r, w) = Translated-inv (drop 5 path) windows (ground (arith, e, h)) in
        (d, rest, r, sym (starts_with_inv mnt_prefix path e), w),
    λ (d, rest, r, _, w). ground (arith, e, Translated-again (drop 5 path) windows (d, rest, r, w)),
  )
  | inr e ↦ (
    λ h. absurd (ground (arith, e, h)),
    λ (d, rest, r, p, w).
        absurd (cc (e, starts_with_append mnt_prefix (drop 5 path), ap (starts_with mnt_prefix) p)),
  )
]
