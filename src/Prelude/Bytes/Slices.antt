-- ===== src/Prelude/Bytes/Slices.antt =====
-- Slices of bytes, and the numbers read from them.
use kavach_npu.Prelude.Lists.{
  length, get_or, take, drop, All, length-drop, length-take, All-take, All-drop,
}
use Prim.Native.Nat.{ℕ, zero, suc, ◌+◌, ◌-◌, ◌≤◌, ◌<◌}
use mathlib.Core.Path.{◌≡◌, sym, ap, ◌∙◌}
use mathlib.Core.List.{List, [], ◌∷◌}
use native.Mathlib.Omega.{arith}
use kavach_npu.Prelude.Bytes.Encoding.{IsByte, IsBytes, from_be, drop_nil}

-- `&xs[m..n]`
unfoldable pub slice : ℕ → ℕ → List ℕ → List ℕ
slice m n xs = take (n - m) (drop m xs)

-- `&xs[m..]`
unfoldable pub rest_from : ℕ → List ℕ → List ℕ
rest_from m xs = drop m xs

-- `xs[i]`, read as 0 behind the end: every use is behind a check of the length.
unfoldable pub byte_at : ℕ → List ℕ → ℕ
byte_at i xs = get_or xs i 0

-- `uN::from_be_bytes([xs[m], .., xs[n - 1]])`
abbrev pub be_at : ℕ → ℕ → List ℕ → ℕ
be_at m n xs = from_be (slice m n xs)

-- A slice of bytes is as long as its range.
pub slice-IsBytes :
    (m n : ℕ) (xs : List ℕ) → m ≤ n → n ≤ length xs → All IsByte xs → IsBytes (n - m) (slice m n xs)
unfolding slice
slice-IsBytes m n xs hm hn h = (
  omega (arith, length-take (n - m) (drop m xs), length-drop m xs),
  All-take IsByte (n - m) (drop m xs) (All-drop IsByte m xs h),
)

pub byte_at-IsByte : (i : ℕ) (xs : List ℕ) → All IsByte xs → byte_at i xs < 256
unfolding byte_at
byte_at-IsByte i [] h = omega arith
byte_at-IsByte zero (x ∷ xs) (hx, h) = hx
byte_at-IsByte (suc i) (x ∷ xs) (hx, h) = byte_at-IsByte i xs h

pub slice_one :
    (m n : ℕ) (xs : List ℕ) → n ≡ m + 1 → n ≤ length xs → slice m n xs ≡ byte_at m xs ∷ []
unfolding slice byte_at
slice_one m n [] hn h = absurd (omega arith)
slice_one zero n (x ∷ xs) hn h = let one : n - 0 ≡ 1 = omega arith in ap (λ k. take k (x ∷ xs)) one
slice_one (suc m) zero (x ∷ xs) hn h = absurd (omega arith)
slice_one (suc m) (suc n) (x ∷ xs) hn h =
    let less : suc n - suc m ≡ n - m = omega arith in
    ap (λ k. take k (drop m xs)) less ∙ slice_one m n xs (omega arith) (omega arith)

pub drop-drop : (m k : ℕ) (xs : List ℕ) → drop k (drop m xs) ≡ drop (m + k) xs
drop-drop zero k xs = ap (λ j. drop j xs) (omega arith)
drop-drop (suc m) k [] = drop_nil k ∙ sym (drop_nil (suc m + k))
drop-drop (suc m) k (x ∷ xs) =
    let more : suc m + k ≡ suc (m + k) = omega arith in
    drop-drop m k xs ∙ ap (λ j. drop j (x ∷ xs)) (sym more)
