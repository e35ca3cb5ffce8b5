-- ===== src/Prelude/Chunks.antt =====
-- `chunks(k)` of a list of numbers.
use Prim.Native.Nat.{ℕ, zero, suc, ◌≤◌}
use mathlib.Core.Path.{◌≡◌, refl, ap, ◌∙◌}
use mathlib.Core.Logic.{◌⊎◌, inl, inr}
use mathlib.Core.List.{List, [], ◌∷◌, ◌++◌}
use native.Mathlib.Omega.{arith}
use kavach_npu.Prelude.Tests.{leb, Bool-cases}
use kavach_npu.Prelude.Lists.{length, take, drop, take-append-drop, length-take, length-drop}
use kavach_npu.Prelude.Bytes.{flatten}

-- `chunks(k)`, on fuel of the list's length, one round for each chunk.
unfoldable pub chunks_within : ℕ → ℕ → List ℕ → List (List ℕ)
chunks_within zero k xs = []
chunks_within (suc fuel) k [] = []
chunks_within (suc fuel) k (x ∷ xs) = take k (x ∷ xs) ∷ chunks_within fuel k (drop k (x ∷ xs))

unfoldable pub chunks : ℕ → List ℕ → List (List ℕ)
chunks k xs = chunks_within (length xs) k xs

-- Chunks of size `k`: none is empty, and all but the last are of the size.
abbrev pub AreChunks : ℕ → List (List ℕ) → Type 0
AreChunks k [] = Unit {0}
AreChunks k (c ∷ []) = (1 ≤ length c) × (length c ≤ k)
AreChunks k (c ∷ (c' ∷ cs)) = (length c ≡ k) × AreChunks k (c' ∷ cs)

chunks_within-flatten :
    (fuel k : ℕ) (xs : List ℕ) → 1 ≤ k → length xs ≤ fuel → flatten (chunks_within fuel k xs) ≡ xs
unfolding chunks_within
chunks_within-flatten zero k [] h f = refl
chunks_within-flatten zero k (x ∷ xs) h f = absurd (omega arith)
chunks_within-flatten (suc fuel) k [] h f = refl
chunks_within-flatten (suc fuel) k (x ∷ xs) h f =
    ap (λ ys. take k (x ∷ xs) ++ ys)
      (chunks_within-flatten fuel k (drop k (x ∷ xs)) h (omega (arith, length-drop k (x ∷ xs))))
    ∙ take-append-drop k (x ∷ xs)

AreChunks-cons :
    (k : ℕ) (c : List ℕ) (cs : List (List ℕ))
    → 1 ≤ length c
    → length c ≤ k
    → (cs ≡ []) ⊎ (length c ≡ k)
    → AreChunks k cs
    → AreChunks k (c ∷ cs)
AreChunks-cons k c [] some_bytes fits last h = (some_bytes, fits)
AreChunks-cons k c (c' ∷ cs) some_bytes fits (inl e) h = absurd cc
AreChunks-cons k c (c' ∷ cs) some_bytes fits (inr e) h = (e, h)

pub chunks_within-empty : (fuel k : ℕ) (xs : List ℕ) → length xs ≡ 0 → chunks_within fuel k xs ≡ []
unfolding chunks_within
chunks_within-empty zero k xs h = refl
chunks_within-empty (suc fuel) k [] h = refl
chunks_within-empty (suc fuel) k (x ∷ xs) h = absurd (omega arith)

chunks_within-AreChunks : (fuel k : ℕ) (xs : List ℕ) → 1 ≤ k → AreChunks k (chunks_within fuel k xs)
unfolding chunks_within
chunks_within-AreChunks zero k xs h = tt
chunks_within-AreChunks (suc fuel) k [] h = tt
chunks_within-AreChunks (suc fuel) k (x ∷ xs) h =
    AreChunks-cons k (take k (x ∷ xs)) (chunks_within fuel k (drop k (x ∷ xs)))
      (omega (arith, length-take k (x ∷ xs))) (omega (arith, length-take k (x ∷ xs)))
      (elim (Bool-cases (leb (length (x ∷ xs)) k)) [
        | inl e ↦ inl (
            chunks_within-empty fuel k (drop k (x ∷ xs))
              (ground (arith, e, length-drop k (x ∷ xs))))
        | inr e ↦ inr (ground (arith, e, length-take k (x ∷ xs)))
      ])
      (chunks_within-AreChunks fuel k (drop k (x ∷ xs)) h)

-- A buffer is cut into its chunks: put together they are the buffer, all but the last are of the
-- block size, and the last is of at most that and not empty.
chunks_lem :
    (k : ℕ) (xs : List ℕ) → 1 ≤ k → (flatten (chunks k xs) ≡ xs) × AreChunks k (chunks k xs)
unfolding chunks
chunks_lem k xs h = (
  chunks_within-flatten (length xs) k xs h (omega arith),
  chunks_within-AreChunks (length xs) k xs h,
)
