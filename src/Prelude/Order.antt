-- ===== src/Prelude/Order.antt =====
-- Byte strings in their order, byte by byte (`Ord for String`), sets of them as lists without
-- repetition, and sorted lists.
use Prim.Native.Nat.{ℕ, suc}
use mathlib.Core.Path.{◌≡◌, refl, sym, ap, ap₂, subst, ◌∙◌}
use mathlib.Core.Bool.{Bool, true, false, ◌&&◌, ◌||◌}
use mathlib.Core.Logic.{inl, inr}
use mathlib.Core.List.{List, [], ◌∷◌}
use native.Mathlib.Omega.{arith}
use kavach_npu.Prelude.Tests.{ltb, ◌==◌, if◌then◌else◌, Bool-cases}
use kavach_npu.Prelude.Lists.{length, any, All, All-weaken}
use kavach_npu.Prelude.Bytes.{bytes_eq, bytes_eq_iff}

pub bytes_ltb : List ℕ → List ℕ → Bool
bytes_ltb xs [] = false
bytes_ltb [] (y ∷ ys) = true
bytes_ltb (x ∷ xs) (y ∷ ys) = ltb x y || (x == y && bytes_ltb xs ys)

bytes_ltb_irrefl : (xs : List ℕ) → bytes_ltb xs xs ≡ false
unfolding bytes_ltb
bytes_ltb_irrefl [] = refl
bytes_ltb_irrefl (x ∷ xs) = ground (arith, bytes_ltb_irrefl xs)

bytes_ltb_trans :
    (xs ys zs : List ℕ) → bytes_ltb xs ys ≡ true → bytes_ltb ys zs ≡ true → bytes_ltb xs zs ≡ true
unfolding bytes_ltb
bytes_ltb_trans xs [] zs h k = cc
bytes_ltb_trans xs (y ∷ ys) [] h k = cc
bytes_ltb_trans [] (y ∷ ys) (z ∷ zs) h k = refl
bytes_ltb_trans (x ∷ xs) (y ∷ ys) (z ∷ zs) h k = ground (arith, bytes_ltb_trans xs ys zs)

bytes_ltb_total :
    (xs ys : List ℕ) → bytes_ltb xs ys ≡ false → bytes_eq ys xs ≡ false → bytes_ltb ys xs ≡ true
unfolding bytes_ltb bytes_eq
bytes_ltb_total [] [] h k = cc
bytes_ltb_total [] (y ∷ ys) h k = cc
bytes_ltb_total (x ∷ xs) [] h k = refl
bytes_ltb_total (x ∷ xs) (y ∷ ys) h k = ground (arith, bytes_ltb_total xs ys)

-- Membership, as the source tests it.
abbrev pub has : List ℕ → List (List ℕ) → Bool
has p xs = any (bytes_eq p) xs

-- `HashSet::insert`
unfoldable pub add : List ℕ → List (List ℕ) → List (List ℕ)
add p set = if has p set then set else p ∷ set

insert_sorted : List ℕ → List (List ℕ) → List (List ℕ)
insert_sorted p [] = p ∷ []
insert_sorted p (q ∷ qs) = if bytes_ltb q p then q ∷ insert_sorted p qs else p ∷ q ∷ qs

-- `sort`: any sort gives this list, since the order is total.
unfoldable pub sort : List (List ℕ) → List (List ℕ)
unfolding insert_sorted bytes_ltb
sort [] = []
sort (p ∷ ps) = insert_sorted p (sort ps)

-- Each stands before all those behind it, so none stands twice.
abbrev pub IsSorted : List (List ℕ) → Type 0
IsSorted [] = Unit {0}
IsSorted (p ∷ ps) = All (λ q. bytes_ltb p q ≡ true) ps × IsSorted ps

abbrev pub Unrepeated : List (List ℕ) → Type 0
Unrepeated [] = Unit {0}
Unrepeated (p ∷ ps) = (has p ps ≡ false) × Unrepeated ps

pub add-Unrepeated : (p : List ℕ) (set : List (List ℕ)) → Unrepeated set → Unrepeated (add p set)
unfolding add
add-Unrepeated p set u = ground arith

pub has-add : (p q : List ℕ) (set : List (List ℕ)) → has q (add p set) ≡ bytes_eq q p || has q set
unfolding add
has-add p q set = elim (Bool-cases (has p set)) [
  | inl e ↦ elim (Bool-cases (bytes_eq q p)) [
    | inl same ↦
        let q≡p : q ≡ p = (bytes_eq_iff q p).0 same in rw e (rw same (ap (λ x. has x set) q≡p ∙ e))
    | inr other ↦ rw (e, other) refl
  ]
  | inr e ↦ rw e refl
]

has-insert_sorted :
    (p q : List ℕ) (ps : List (List ℕ)) → has q (insert_sorted p ps) ≡ bytes_eq q p || has q ps
unfolding insert_sorted
has-insert_sorted p q [] = refl
has-insert_sorted p q (r ∷ rs) = ground (arith, has-insert_sorted p q rs)

pub has-sort : (q : List ℕ) (ps : List (List ℕ)) → has q (sort ps) ≡ has q ps
unfolding sort
has-sort q [] = refl
has-sort q (p ∷ ps) = has-insert_sorted p q (sort ps) ∙ ap (λ b. bytes_eq q p || b) (has-sort q ps)

All-insert_sorted :
    (P : List ℕ → Type 0) (p : List ℕ) (ps : List (List ℕ))
    → P p
    → All P ps
    → All P (insert_sorted p ps)
unfolding insert_sorted
All-insert_sorted P p [] h a = (h, tt)
All-insert_sorted P p (q ∷ qs) h a = ground (arith, All-insert_sorted P p qs h a.1)

insert_sorted-IsSorted :
    (p : List ℕ) (ps : List (List ℕ))
    → has p ps ≡ false
    → IsSorted ps
    → IsSorted (insert_sorted p ps)
unfolding insert_sorted
insert_sorted-IsSorted p [] h s = (tt, tt)
insert_sorted-IsSorted p (q ∷ qs) h (above, s) = elim (Bool-cases (bytes_ltb q p)) [
  | inl e ↦ rw e (
    All-insert_sorted (λ r. bytes_ltb q r ≡ true) p qs e above,
    insert_sorted-IsSorted p qs (ground (arith, h)) s,
  )
  | inr e ↦
      let less : bytes_ltb p q ≡ true = bytes_ltb_total q p e (ground (arith, h)) in
      rw e (
        (
          less,
          All-weaken (λ r. bytes_ltb q r ≡ true) (λ r. bytes_ltb p r ≡ true) qs
              (λ r. bytes_ltb_trans p q r less) above,
        ),
        (above, s),
      )
]

pub sort-IsSorted : (ps : List (List ℕ)) → Unrepeated ps → IsSorted (sort ps)
unfolding sort
sort-IsSorted [] u = tt
sort-IsSorted (p ∷ ps) (new, u) =
    insert_sorted-IsSorted p (sort ps) (has-sort p ps ∙ new) (sort-IsSorted ps u)

not_above :
    (p : List ℕ) (qs : List (List ℕ)) → All (λ q. bytes_ltb p q ≡ true) qs → has p qs ≡ false
not_above p [] a = refl
not_above p (q ∷ qs) (h, a) = elim (Bool-cases (bytes_eq p q)) [
  | inl e ↦ cc (sym h, ap (bytes_ltb p) ((bytes_eq_iff p q).0 e), bytes_ltb_irrefl p)
  | inr e ↦ rw e (not_above p qs a)
]

of_has : (P : List ℕ → Type 0) (p : List ℕ) (qs : List (List ℕ)) → All P qs → has p qs ≡ true → P p
of_has P p [] a h = absurd cc
of_has P p (q ∷ qs) (b, a) h = elim (Bool-cases (bytes_eq p q)) [
  | inl e ↦ subst P (sym ((bytes_eq_iff p q).0 e)) b
  | inr e ↦ of_has P p qs a (ground (arith, h, e))
]

pub has_self : (p : List ℕ) (ps : List (List ℕ)) → has p (p ∷ ps) ≡ true
has_self p ps = rw ((bytes_eq_iff p p).1 refl) refl

-- A sorted list is determined by its members.
IsSorted-unique :
    (xs ys : List (List ℕ))
    → IsSorted xs
    → IsSorted ys
    → ((p : List ℕ) → has p xs ≡ has p ys)
    → xs ≡ ys
IsSorted-unique [] [] s t h = refl
IsSorted-unique [] (y ∷ ys) s t h = cc (h y, has_self y ys)
IsSorted-unique (x ∷ xs) [] s t h = cc (h x, has_self x xs)
IsSorted-unique (x ∷ xs) (y ∷ ys) (above, s) (above', t) h = elim (Bool-cases (bytes_eq x y)) [
  | inl e ↦
      let x≡y : x ≡ y = (bytes_eq_iff x y).0 e in
      ap₂ (λ a b. a ∷ b) x≡y
        (IsSorted-unique xs ys s t (λ p. elim (Bool-cases (bytes_eq p x)) [
          | inl same ↦
              let p≡x : p ≡ x = (bytes_eq_iff p x).0 same in
              ap (λ q. has q xs) p≡x
              ∙ not_above x xs above
              ∙ sym (not_above y ys above')
              ∙ ap (λ q. has q ys) (sym (p≡x ∙ x≡y))
          | inr other ↦
              let apart : bytes_eq p y ≡ false = subst (λ q. bytes_eq p q ≡ false) x≡y other in
              ground (arith, h p, other, apart)
        ]))
  | inr e ↦
      let apart : bytes_eq y x ≡ false = ground (arith, e, bytes_eq_iff x y, bytes_eq_iff y x) in
      let y_first : bytes_ltb y x ≡ true =
        of_has (λ q. bytes_ltb y q ≡ true) x ys above' (ground (arith, h x, has_self x xs, e)) in
      let x_first : bytes_ltb x y ≡ true =
        of_has (λ q. bytes_ltb x q ≡ true) y xs above (ground (arith, h y, has_self y ys, apart)) in
      cc (bytes_ltb_trans x y x x_first y_first, bytes_ltb_irrefl x)
]

length-insert_sorted :
    (p : List ℕ) (ps : List (List ℕ)) → length (insert_sorted p ps) ≡ suc (length ps)
unfolding insert_sorted
length-insert_sorted p [] = refl
length-insert_sorted p (q ∷ qs) = ground (arith, length-insert_sorted p qs)

pub length-sort : (ps : List (List ℕ)) → length (sort ps) ≡ length ps
unfolding sort
length-sort [] = refl
length-sort (p ∷ ps) = length-insert_sorted p (sort ps) ∙ ap suc (length-sort ps)
