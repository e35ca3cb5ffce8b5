-- ===== src/Prelude/Bytes/Encoding.antt =====
-- Bytes: `to_be_bytes` and `from_be_bytes` at every width.
use kavach_npu.Prelude.Lists.{
  length, take, drop, All, length-append, take-append-drop, length-drop, length-take, All-append,
  All-take, All-drop,
}
use Prim.Native.Nat.{ℕ, zero, suc, ◌+◌, ◌*◌, ◌/◌, ◌%◌, ◌^◌, ◌≤◌, ◌<◌}
use mathlib.Core.Path.{◌≡◌, refl, subst}
use mathlib.Core.List.{List, [], ◌∷◌, ◌++◌}
use native.Mathlib.Nat.{pow-suc}
use native.Mathlib.Omega.{arith}

abbrev pub IsByte : ℕ → Type 0
IsByte b = b < 256

-- A byte string of `n` bytes: Rust's `[u8; n]`.
abbrev pub IsBytes : ℕ → List ℕ → Type 0
IsBytes n bs = (length bs ≡ n) × All IsByte bs

-- `to_be_bytes` of an unsigned integer of `k` bytes.
unfoldable pub be_bytes : ℕ → ℕ → List ℕ
be_bytes zero x = []
be_bytes (suc k) x = be_bytes k (x / 256) ++ ((x % 256) ∷ [])

from_be_from : ℕ → List ℕ → ℕ
from_be_from acc [] = acc
from_be_from acc (b ∷ bs) = from_be_from (acc * 256 + b) bs

-- `from_be_bytes`
unfoldable pub from_be : List ℕ → ℕ
unfolding from_be_from
from_be bs = from_be_from 0 bs

pub length-be_bytes : (k x : ℕ) → length (be_bytes k x) ≡ k
unfolding be_bytes
length-be_bytes zero x = refl
length-be_bytes (suc k) x =
    omega (
      arith,
      length-append {0} (be_bytes k (x / 256)) ((x % 256) ∷ []),
      length-be_bytes k (x / 256),
    )

be_bytes-IsByte : (k x : ℕ) → All IsByte (be_bytes k x)
unfolding be_bytes
be_bytes-IsByte zero x = tt
be_bytes-IsByte (suc k) x =
    All-append IsByte (be_bytes k (x / 256)) _ (be_bytes-IsByte k (x / 256)) (omega arith, tt)

from_be_from_snoc :
    (acc : ℕ) (bs : List ℕ) (b : ℕ)
    → from_be_from acc (bs ++ (b ∷ [])) ≡ from_be_from acc bs * 256 + b
unfolding from_be_from
from_be_from_snoc acc [] b = refl
from_be_from_snoc acc (c ∷ bs) b = from_be_from_snoc (acc * 256 + c) bs b

div-lt-pow : (k x : ℕ) → x < 256 ^ suc k → x / 256 < 256 ^ k
div-lt-pow k x h = omega (arith, pow-suc 256 k)

pub drop_nil : (k : ℕ) → drop {A = ℕ} k [] ≡ []
drop_nil zero = refl
drop_nil (suc k) = refl

pub drop_nil_fields : (k : ℕ) → drop {A = List ℕ} k [] ≡ []
drop_nil_fields zero = refl
drop_nil_fields (suc k) = refl

pub drop_all : (m : ℕ) (xs : List ℕ) → length xs ≤ m → drop m xs ≡ []
drop_all m [] h = drop_nil m
drop_all zero (x ∷ xs) h = absurd (omega arith)
drop_all (suc m) (x ∷ xs) h = drop_all m xs (omega arith)

-- Reading back what was written, for a number that fits the width.
pub from_be-be_bytes : (k x : ℕ) → x < 256 ^ k → from_be (be_bytes k x) ≡ x
unfolding from_be be_bytes
from_be-be_bytes zero x h = omega arith
from_be-be_bytes (suc k) x h = omega (
  arith,
  from_be_from_snoc 0 (be_bytes k (x / 256)) (x % 256),
  from_be-be_bytes k (x / 256) (div-lt-pow k x h),
)

from_be_from-lt :
    (acc : ℕ) (bs : List ℕ) → All IsByte bs → from_be_from acc bs < (acc + 1) * 256 ^ length bs
unfolding from_be_from
from_be_from-lt acc [] h = omega arith
from_be_from-lt acc (b ∷ bs) (hb, h) =
    let P = 256 ^ length bs in
    let up : (acc * 256 + b + 1) * P ≤ (acc * 256 + 256) * P = grind arith in
    let wide : (acc + 1) * 256 ^ suc (length bs) ≡ (acc * 256 + 256) * P =
      rw (pow-suc 256 (length bs)) (omega arith) in
    let goal : from_be_from (acc * 256 + b) bs < (acc + 1) * 256 ^ suc (length bs) =
      rw wide (omega (arith, up, from_be_from-lt (acc * 256 + b) bs h)) in
    goal

-- What is read from `k` bytes fits `k` bytes.
pub from_be-lt : (k : ℕ) (bs : List ℕ) → IsBytes k bs → from_be bs < 256 ^ k
unfolding from_be
from_be-lt k bs (e, h) = rw (← e) (omega (arith, from_be_from-lt 0 bs h))

be_bytes-from_be_snoc :
    (k : ℕ) (front back : List ℕ)
    → be_bytes k (from_be front) ≡ front
    → length back ≡ 1
    → All IsByte back
    → be_bytes (suc k) (from_be (front ++ back)) ≡ front ++ back
unfolding be_bytes from_be
be_bytes-from_be_snoc k front [] ih l h = absurd (omega arith)
be_bytes-from_be_snoc k front (b ∷ c ∷ cs) ih l h = absurd (omega arith)
be_bytes-from_be_snoc k front (b ∷ []) ih l (hb, h) =
    let n = from_be_from 0 front in
    let high : (n * 256 + b) / 256 ≡ n = omega arith in
    let low : (n * 256 + b) % 256 ≡ b = omega arith in
    rw (from_be_from_snoc 0 front b, high, low, ih)

-- Writing what was read gives back the same bytes.
pub be_bytes-from_be : (k : ℕ) (bs : List ℕ) → IsBytes k bs → be_bytes k (from_be bs) ≡ bs
be_bytes-from_be zero [] h = unfold be_bytes in refl
be_bytes-from_be zero (b ∷ bs) h = absurd (omega (arith, h.0))
be_bytes-from_be (suc k) bs (l, h) =
    let front : IsBytes k (take k bs) = (omega (arith, length-take k bs), All-take IsByte k bs h) in
    subst (λ xs. be_bytes (suc k) (from_be xs) ≡ xs) (take-append-drop k bs)
      (be_bytes-from_be_snoc k (take k bs) (drop k bs) (be_bytes-from_be k (take k bs) front)
        (omega (arith, length-drop k bs)) (All-drop IsByte k bs h))
