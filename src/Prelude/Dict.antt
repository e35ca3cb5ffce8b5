-- ===== src/Prelude/Dict.antt =====
-- `HashMap<K, V>` as an association list whose keys are distinct. The keys' equality is an instance.
use kavach_npu.Prelude.Tests.{if◌then◌else◌, ◌==◌, ==_iff}
use kavach_npu.Prelude.Bytes.{bytes_eq, bytes_eq_iff}
use kavach_npu.Prelude.Lists.{length}
use Prim.Native.Nat.{ℕ, ◌+◌, ◌≤◌}
use mathlib.Core.Path.{◌≡◌, refl}
use mathlib.Core.Bool.{Bool, true, false}
use mathlib.Core.Logic.{◌↔◌}
use mathlib.Core.Option.{Option, none, some}
use mathlib.Core.List.{List, [], ◌∷◌}
use native.Mathlib.Omega.{arith}

pub record Eq (K : Type 0) : Type 0 where
  pub beq : K → K → Bool
  pub beq_iff : (a b : K) → (beq a b ≡ true) ↔ (a ≡ b)

abbrev pub Dict : Type 0 → Type 0 → Type 0
Dict K V = List (K × V)

-- `Option::filter`
abbrev pub filter_value {ℓ} : {V : Type ℓ} → (V → Bool) → Option V → Option V
filter_value keep none = none
filter_value keep (some v) = if keep v then some v else none

beq_refl : {K : Type 0} ⦃e : Eq K⦄ (a : K) → e.beq a a ≡ true
beq_refl ⦃e⦄ a = (e.beq_iff a a).1 refl

module _ {K V : Type 0} ⦃e : Eq K⦄ where
  -- `get`
  unfoldable pub lookup : K → Dict K V → Option V
  lookup k [] = none
  lookup k ((j, v) ∷ m) = if e.beq j k then some v else lookup k m

  -- `contains_key`
  unfoldable pub contains : K → Dict K V → Bool
  contains k [] = false
  contains k ((j, v) ∷ m) = if e.beq j k then true else contains k m

  -- `insert`
  unfoldable pub insert : K → V → Dict K V → Dict K V
  insert k v [] = (k, v) ∷ []
  insert k v ((j, w) ∷ m) = if e.beq j k then (k, v) ∷ m else (j, w) ∷ insert k v m

  -- `remove`
  unfoldable pub remove : K → Dict K V → Dict K V
  remove k [] = []
  remove k ((j, v) ∷ m) = if e.beq j k then m else (j, v) ∷ remove k m

  -- `retain(|_, v| keep(v))`
  unfoldable pub retain : (V → Bool) → Dict K V → Dict K V
  retain keep [] = []
  retain keep ((j, v) ∷ m) = if keep v then (j, v) ∷ retain keep m else retain keep m

  -- No key stands twice.
  abbrev pub Distinct : Dict K V → Type 0
  Distinct [] = Unit {0}
  Distinct ((k, v) ∷ m) = (lookup k m ≡ none) × Distinct m

  contains_of_lookup : (k : K) (v : V) (m : Dict K V) → lookup k m ≡ some v → contains k m ≡ true
  unfolding contains lookup
  contains_of_lookup k v [] h = cc
  contains_of_lookup k v ((i, w) ∷ m) h = ground (arith, contains_of_lookup k v m)

  pub lookup-insert :
      (k j : K) (v : V) (m : Dict K V)
      → lookup j (insert k v m) ≡ (if e.beq k j then some v else lookup j m)
  unfolding lookup insert
  lookup-insert k j v [] = refl
  lookup-insert k j v ((i, w) ∷ m) =
      ground (arith, e.beq_iff k j, e.beq_iff i k, e.beq_iff i j, lookup-insert k j v m)

  pub lookup-insert_self : (k : K) (v : V) (m : Dict K V) → lookup k (insert k v m) ≡ some v
  lookup-insert_self k v m = rw (lookup-insert k k v m, beq_refl k) refl

  lookup-remove_ne :
      (k j : K) (m : Dict K V) → e.beq k j ≡ false → lookup j (remove k m) ≡ lookup j m
  unfolding lookup remove
  lookup-remove_ne k j [] h = refl
  lookup-remove_ne k j ((i, w) ∷ m) h =
      ground (arith, e.beq_iff k j, e.beq_iff i k, e.beq_iff i j, lookup-remove_ne k j m h)

  lookup-remove_self : (k : K) (m : Dict K V) → Distinct m → lookup k (remove k m) ≡ none
  unfolding lookup remove
  lookup-remove_self k [] d = refl
  lookup-remove_self k ((i, w) ∷ m) (d, ds) =
      ground (arith, e.beq_iff i k, lookup-remove_self k m ds)

  pub lookup-remove :
      (k j : K) (m : Dict K V)
      → Distinct m
      → lookup j (remove k m) ≡ (if e.beq k j then none else lookup j m)
  lookup-remove k j m d =
      ground (arith, e.beq_iff k j, lookup-remove_self k m d, lookup-remove_ne k j m)

  lookup-retain-none :
      (keep : V → Bool) (k : K) (m : Dict K V) → lookup k m ≡ none → lookup k (retain keep m) ≡ none
  unfolding lookup retain
  lookup-retain-none keep k [] h = refl
  lookup-retain-none keep k ((i, w) ∷ m) h = ground (arith, lookup-retain-none keep k m)

  pub lookup-retain :
      (keep : V → Bool) (k : K) (m : Dict K V)
      → Distinct m
      → lookup k (retain keep m) ≡ filter_value keep (lookup k m)
  unfolding lookup retain
  lookup-retain keep k [] d = refl
  lookup-retain keep k ((i, w) ∷ m) (d, ds) =
      ground (arith, e.beq_iff i k, lookup-retain-none keep i m d, lookup-retain keep k m ds)

  pub Distinct-insert : (k : K) (v : V) (m : Dict K V) → Distinct m → Distinct (insert k v m)
  unfolding insert lookup
  Distinct-insert k v [] d = (refl, tt)
  Distinct-insert k v ((i, w) ∷ m) (d, ds) =
      ground (arith, e.beq_iff i k, e.beq_iff k i, lookup-insert k i v m, Distinct-insert k v m ds)

  pub Distinct-remove : (k : K) (m : Dict K V) → Distinct m → Distinct (remove k m)
  unfolding remove
  Distinct-remove k [] d = tt
  Distinct-remove k ((i, w) ∷ m) (d, ds) =
      ground (arith, lookup-remove k i m ds, Distinct-remove k m ds)

  pub Distinct-retain : (keep : V → Bool) (m : Dict K V) → Distinct m → Distinct (retain keep m)
  unfolding retain
  Distinct-retain keep [] d = tt
  Distinct-retain keep ((i, w) ∷ m) (d, ds) =
      ground (arith, lookup-retain-none keep i m d, Distinct-retain keep m ds)

  length-retain-le : (keep : V → Bool) (m : Dict K V) → length (retain keep m) ≤ length m
  unfolding retain
  length-retain-le keep [] = omega arith
  length-retain-le keep ((i, w) ∷ m) = ground (arith, length-retain-le keep m)

  -- A new key adds one entry.
  length-insert_new :
      (k : K) (v : V) (m : Dict K V) → lookup k m ≡ none → length (insert k v m) ≡ length m + 1
  unfolding insert lookup
  length-insert_new k v [] h = omega arith
  length-insert_new k v ((i, w) ∷ m) h = ground (arith, length-insert_new k v m)

  pub contains_iff : (k : K) (m : Dict K V) → (contains k m ≡ false) ↔ (lookup k m ≡ none)
  unfolding contains lookup
  contains_iff k [] = (λ _. refl, λ _. refl)
  contains_iff k ((i, w) ∷ m) = ground (arith, contains_iff k m)

instance abbrev pub ℕ_eq : Eq ℕ
ℕ_eq = record { beq = ◌==◌; beq_iff = ==_iff }

-- Byte strings as keys.
instance abbrev pub bytes_key : Eq (List ℕ)
bytes_key = record { beq = bytes_eq; beq_iff = bytes_eq_iff }
