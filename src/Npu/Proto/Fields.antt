-- ===== src/Npu/Proto/Fields.antt =====
-- An independent reader of the wire format: a message as the list of its fields.
use kavach_npu.Prelude.{
  ℕ, zero, suc, ◌+◌, ◌-◌, ◌*◌, ◌/◌, ◌%◌, ◌&&◌, List, [], ◌∷◌, Option, none, some, ltb, leb, ◌==◌,
  if◌then◌else◌, length, take, drop,
}

-- The two kinds of field that the writer writes.
pub data Field : Type 0 where
  int : (number value : ℕ) → Field
  bytes : (number : ℕ) (contents : List ℕ) → Field

abbrev pub shift_in : ℕ → Option (ℕ × List ℕ) → Option (ℕ × List ℕ)
shift_in low none = none
shift_in low (some (high, rest)) = some (low + 128 * high, rest)

-- A number in groups of seven bits, the lowest first; a byte below 128 ends it.
unfoldable pub read_varint : List ℕ → Option (ℕ × List ℕ)
read_varint [] = none
read_varint (b ∷ bs) =
    let rest = shift_in (b - 128) (read_varint bs) in if ltb b 128 then some (b, bs) else rest

-- The field of a tag, from the number behind it: the value, or the length of the contents.
abbrev pub value_of : ℕ → Option (ℕ × List ℕ) → Option (Field × List ℕ)
value_of tag none = none
value_of tag (some (n, rest)) =
    if tag % 8 == 0
    then some (int (tag / 8) n, rest)
    else if tag % 8 == 2 && leb n (length rest)
    then some (bytes (tag / 8) (take n rest), drop n rest)
    else none

abbrev pub tagged : Option (ℕ × List ℕ) → Option (Field × List ℕ)
tagged none = none
tagged (some (tag, rest)) = value_of tag (read_varint rest)

unfoldable pub read_field : List ℕ → Option (Field × List ℕ)
read_field bs = tagged (read_varint bs)

abbrev pub with_field : Field → Option (List Field) → Option (List Field)
with_field f none = none
with_field f (some fs) = some (f ∷ fs)

-- The fields of a message, on fuel: each takes two bytes or more.
unfoldable pub read_fields : ℕ → List ℕ → Option (List Field)
read_fields zero bs = none
read_fields (suc fuel) [] = some []
read_fields (suc fuel) (b ∷ bs) = elim (read_field (b ∷ bs)) [
  | none ↦ none
  | some (f, rest) ↦ with_field f (read_fields fuel rest)
]

-- A message, read to its end.
abbrev pub read_message : List ℕ → Option (List Field)
read_message bs = read_fields (length bs + 1) bs
