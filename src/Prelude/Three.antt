-- ===== src/Prelude/Three.antt =====
-- Lists of byte strings with at least three different members.
use Prim.Native.Nat.{ℕ, ◌≤◌}
use mathlib.Core.Path.{◌≡◌}
use mathlib.Core.Bool.{true, false}
use mathlib.Core.Logic.{◌≢◌, ◌↔◌}
use mathlib.Core.List.{List, [], ◌∷◌}
use native.Mathlib.Omega.{arith}
use kavach_npu.Prelude.Lists.{length}
use kavach_npu.Prelude.Bytes.{bytes_eq, bytes_eq_iff}
use kavach_npu.Prelude.Order.{has, has_self, Unrepeated}

-- Three paths, no two of them equal, each with the property.
pub record Three (P : List ℕ → Type 0) : Type 0 where
  pub first : List ℕ
  pub second : List ℕ
  pub third : List ℕ
  pub first-ne-second : first ≢ second
  pub first-ne-third : first ≢ third
  pub second-ne-third : second ≢ third
  pub first_has : P first
  pub second_has : P second
  pub third_has : P third

ne_of_test : (p q : List ℕ) → bytes_eq p q ≡ false → p ≢ q
ne_of_test p q h e = cc (h, (bytes_eq_iff p q).1 e)

three_of_length :
    (set : List (List ℕ)) → Unrepeated set → 3 ≤ length set → Three (λ p. has p set ≡ true)
three_of_length [] u h = absurd (omega arith)
three_of_length (p ∷ []) u h = absurd (omega arith)
three_of_length (p ∷ (q ∷ [])) u h = absurd (omega arith)
three_of_length (p ∷ (q ∷ (r ∷ rest))) (new, (new', u)) h = record {
  first = p;
  second = q;
  third = r;
  first-ne-second = ne_of_test p q (ground (arith, new));
  first-ne-third = ne_of_test p r (ground (arith, new));
  second-ne-third = ne_of_test q r (ground (arith, new'));
  first_has = has_self p (q ∷ (r ∷ rest));
  second_has = ground (arith, has_self q (r ∷ rest));
  third_has = ground (arith, has_self r rest);
}

length_of_three : (set : List (List ℕ)) → Three (λ p. has p set ≡ true) → 3 ≤ length set
length_of_three [] t = absurd (cc (t.first_has))
length_of_three (p ∷ []) t = ground (
  arith,
  t.first-ne-second,
  bytes_eq_iff t.first p,
  bytes_eq_iff t.second p,
  t.first_has,
  t.second_has,
)
length_of_three (p ∷ (q ∷ [])) t = ground (
  arith,
  t.first-ne-second,
  t.first-ne-third,
  t.second-ne-third,
  t.first_has,
  t.second_has,
  t.third_has,
  bytes_eq_iff t.first p,
  bytes_eq_iff t.first q,
  bytes_eq_iff t.second p,
  bytes_eq_iff t.second q,
  bytes_eq_iff t.third p,
  bytes_eq_iff t.third q,
)
length_of_three (p ∷ (q ∷ (r ∷ rest))) t = omega arith

-- A list without repetition has three members or more exactly when there are three.
pub three_iff :
    (set : List (List ℕ)) → Unrepeated set → (3 ≤ length set) ↔ Three (λ p. has p set ≡ true)
three_iff set u = (three_of_length set u, length_of_three set)

pub Three-weaken : (P Q : List ℕ → Type 0) → ((p : List ℕ) → P p → Q p) → Three P → Three Q
Three-weaken P Q f t = record {
  first = t.first;
  second = t.second;
  third = t.third;
  first-ne-second = t.first-ne-second;
  first-ne-third = t.first-ne-third;
  second-ne-third = t.second-ne-third;
  first_has = f t.first t.first_has;
  second_has = f t.second t.second_has;
  third_has = f t.third t.third_has;
}
