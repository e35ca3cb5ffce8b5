-- ===== src/Prelude/Windows.antt =====
-- A window of the last `n` entries: `pop_front` where it is full, then `push_back`.
use Prim.Native.Nat.{ℕ, zero, suc, ◌-◌, ◌≤◌}
use mathlib.Core.Path.{◌≡◌, refl, sym, ap, ◌∙◌}
use mathlib.Core.List.{List, [], ◌∷◌, ◌++◌}
use mathlib.Core.Bool.{true, false}
use mathlib.Core.Logic.{inl, inr}
use native.Mathlib.Omega.{arith}
use kavach_npu.Prelude.Tests.{leb, ◌==◌, if◌then◌else◌, Bool-cases}
use kavach_npu.Prelude.Lists.{length, drop, length-append, length-drop}

module _ {ℓ} {A : Type ℓ} where
  abbrev pub push_window : ℕ → List A → A → List A
  push_window n xs x = (if length xs == n then drop 1 xs else xs) ++ (x ∷ [])

  -- The last `n` of a list.
  abbrev pub last_of : ℕ → List A → List A
  last_of n xs = drop (length xs - n) xs

  drop-append_le :
      (n : ℕ) (xs : List A) (x : A)
      → n ≤ length xs
      → drop n (xs ++ (x ∷ [])) ≡ drop n xs ++ (x ∷ [])
  drop-append_le zero xs x h = refl
  drop-append_le (suc n) [] x h = absurd (omega arith)
  drop-append_le (suc n) (y ∷ xs) x h = drop-append_le n xs x (omega arith)

  drop-drop_one : (n : ℕ) (xs : List A) → drop 1 (drop n xs) ≡ drop (suc n) xs
  drop-drop_one zero xs = refl
  drop-drop_one (suc n) [] = refl
  drop-drop_one (suc n) (x ∷ xs) = drop-drop_one n xs

  pub last_of-append :
      (n : ℕ) (xs : List A) (x : A)
      → 1 ≤ n
      → push_window n (last_of n xs) x ≡ last_of n (xs ++ (x ∷ []))
  last_of-append n xs x h = elim (Bool-cases (leb n (length xs))) [
    | inl e ↦
        let full : (length (last_of n xs) == n) ≡ true =
          ground (arith, e, length-drop (length xs - n) xs) in
        let next : suc (length xs - n) ≡ length (xs ++ (x ∷ [])) - n =
          ground (arith, e, length-append xs (x ∷ [])) in
        ap (λ b. (if b then drop 1 (last_of n xs) else last_of n xs) ++ (x ∷ [])) full
        ∙ ap (λ ys. ys ++ (x ∷ [])) (drop-drop_one (length xs - n) xs)
        ∙ sym (drop-append_le (suc (length xs - n)) xs x (ground (arith, e)))
        ∙ ap (λ k. drop k (xs ++ (x ∷ []))) next
    | inr e ↦
        let open_yet : (length (last_of n xs) == n) ≡ false =
          ground (arith, e, length-drop (length xs - n) xs) in
        let none_yet : length xs - n ≡ length (xs ++ (x ∷ [])) - n =
          ground (arith, e, length-append xs (x ∷ [])) in
        ap (λ b. (if b then drop 1 (last_of n xs) else last_of n xs) ++ (x ∷ [])) open_yet
        ∙ sym (drop-append_le (length xs - n) xs x (omega arith))
        ∙ ap (λ k. drop k (xs ++ (x ∷ []))) none_yet
  ]

  pub length-last_of : (n : ℕ) (xs : List A) → (length (last_of n xs) == n) ≡ leb n (length xs)
  length-last_of n xs = ground (arith, length-drop (length xs - n) xs)
