-- ===== src/Tripwire/Entropy/Counts.antt =====
-- crates/kavach-tripwire/src/entropy.rs: the entropy of a block, and the counts of its bytes.
use kavach_npu.Prelude.{
  ℕ, zero, suc, ◌+◌, ◌<◌, ◌≡◌, refl, sym, ap, ap₂, ◌∙◌, List, [], ◌∷◌, ◌==◌, if◌then◌else◌, length,
  get_or, filter, replicate, All, arith,
}
use kavach_npu.Prelude.Bytes.{IsByte}
use kavach_npu.Prelude.Float.{Float}
use kavach_npu.Tripwire.Entropy.{increment, tally, entropy_of, shannon_entropy}

-- How often a byte stands in a list.
abbrev pub occurrences : ℕ → List ℕ → ℕ
occurrences b bytes = length (filter (λ c. c == b) bytes)

length-increment : (b : ℕ) (cs : List ℕ) → length (increment b cs) ≡ length cs
unfolding increment
length-increment b [] = refl
length-increment zero (c ∷ cs) = refl
length-increment (suc b) (c ∷ cs) = ap suc (length-increment b cs)

get_or-increment :
    (b i : ℕ) (cs : List ℕ)
    → i < length cs
    → get_or (increment b cs) i 0 ≡ get_or cs i 0 + (if b == i then 1 else 0)
unfolding increment
get_or-increment b i [] h = absurd (omega arith)
get_or-increment zero zero (c ∷ cs) h = refl
get_or-increment zero (suc i) (c ∷ cs) h = ground arith
get_or-increment (suc b) zero (c ∷ cs) h = ground arith
get_or-increment (suc b) (suc i) (c ∷ cs) h = ground (arith, get_or-increment b i cs)

length-tally : (cs bytes : List ℕ) → length (tally cs bytes) ≡ length cs
unfolding tally
length-tally cs [] = refl
length-tally cs (b ∷ bytes) = length-tally (increment b cs) bytes ∙ length-increment b cs

get_or-tally :
    (cs bytes : List ℕ) (i : ℕ)
    → i < length cs
    → get_or (tally cs bytes) i 0 ≡ get_or cs i 0 + occurrences i bytes
unfolding tally
get_or-tally cs [] i h = omega arith
get_or-tally cs (b ∷ bytes) i h =
    ground
      (arith, length-increment b cs, get_or-increment b i cs, get_or-tally (increment b cs) bytes i)

sum : List ℕ → ℕ
sum [] = 0
sum (c ∷ cs) = c + sum cs

sum-increment : (b : ℕ) (cs : List ℕ) → b < length cs → sum (increment b cs) ≡ sum cs + 1
unfolding sum increment
sum-increment b [] h = absurd (omega arith)
sum-increment zero (c ∷ cs) h = omega arith
sum-increment (suc b) (c ∷ cs) h = omega (arith, sum-increment b cs (omega arith))

sum-tally :
    (cs bytes : List ℕ)
    → length cs ≡ 256
    → All IsByte bytes
    → sum (tally cs bytes) ≡ sum cs + length bytes
unfolding tally
sum-tally cs [] h a = omega arith
sum-tally cs (b ∷ bytes) h (p, a) =
    sum-tally (increment b cs) bytes (length-increment b cs ∙ h) a
    ∙ omega (arith, sum-increment b cs (omega arith))

get_or-ext :
    (xs ys : List ℕ)
    → length xs ≡ length ys
    → ((i : ℕ) → i < length xs → get_or xs i 0 ≡ get_or ys i 0)
    → xs ≡ ys
get_or-ext [] [] h g = refl
get_or-ext [] (y ∷ ys) h g = absurd (omega arith)
get_or-ext (x ∷ xs) [] h g = absurd (omega arith)
get_or-ext (x ∷ xs) (y ∷ ys) h g =
    ap₂ (λ a b. a ∷ b) (g 0 (omega arith))
      (get_or-ext xs ys (omega arith) (λ i k. g (suc i) (omega arith)))

-- The 256 counters.
abbrev counts : List ℕ → List ℕ
counts = tally (replicate 256 0)

counts_eq :
    (xs ys : List ℕ)
    → ((b : ℕ) → b < 256 → occurrences b xs ≡ occurrences b ys)
    → counts xs ≡ counts ys
counts_eq xs ys same =
    let zeros : List ℕ = replicate 256 0 in
    get_or-ext (counts xs) (counts ys) (length-tally zeros xs ∙ sym (length-tally zeros ys)) (λ i h.
      let small : i < 256 = omega (arith, length-tally zeros xs) in
      get_or-tally zeros xs i small
      ∙ ap (λ k. get_or zeros i 0 + k) (same i small)
      ∙ sym (get_or-tally zeros ys i small))

length_eq :
    (xs ys : List ℕ) → All IsByte xs → All IsByte ys → counts xs ≡ counts ys → length xs ≡ length ys
length_eq xs ys a a' e =
    let zeros : List ℕ = replicate 256 0 in
    omega (arith, ap sum e, sum-tally zeros xs refl a, sum-tally zeros ys refl a')

module _ (d : Float) where
  -- Two blocks in which each byte value stands equally often have the same entropy: the order of the
  -- bytes does not matter.
  pub shannon_entropy-counts :
      (xs ys : List ℕ)
      → All IsByte xs
      → All IsByte ys
      → ((b : ℕ) → b < 256 → occurrences b xs ≡ occurrences b ys)
      → shannon_entropy d xs ≡ shannon_entropy d ys
  unfolding shannon_entropy
  shannon_entropy-counts [] [] a a' same = refl
  shannon_entropy-counts [] (y ∷ ys) a a' same =
      absurd (omega (arith, length_eq [] (y ∷ ys) a a' (counts_eq [] (y ∷ ys) same)))
  shannon_entropy-counts (x ∷ xs) [] a a' same =
      absurd (omega (arith, length_eq (x ∷ xs) [] a a' (counts_eq (x ∷ xs) [] same)))
  shannon_entropy-counts (x ∷ xs) (y ∷ ys) a a' same =
      let e = counts_eq (x ∷ xs) (y ∷ ys) same in
      ap₂ (λ n cs. entropy_of d (d.of_nat n) (d.lit 0 0) cs) (length_eq (x ∷ xs) (y ∷ ys) a a' e) e
