-- ===== src/Npu/Proto/RoundTrip.antt =====
-- What the writer writes, as the reader reads it: numbers, fields and messages.
use mathlib.Core.List.{append-nil, append_assoc}
use kavach_npu.Prelude.{
  ℕ, zero, suc, ◌+◌, ◌-◌, ◌*◌, ◌/◌, ◌%◌, ◌^◌, ◌≤◌, ◌<◌, ◌≡◌, refl, sym, ap, ◌∙◌, true, false, List,
  [], ◌∷◌, ◌++◌, some, ltb, leb, length, All, length-append, take-append, drop-append, arith,
  Bool-cases, inl, inr,
}
use native.Mathlib.Omega.{pow_step}
use kavach_npu.Npu.Proto.{varint_within, write_varint, write_tag, write_string}
use kavach_npu.Npu.Proto.Fields.{
  Field, int, bytes, shift_in, read_varint, value_of, tagged, read_field, with_field, read_fields,
  read_message,
}

varint_within-more :
    (fuel value : ℕ)
    → leb 128 value ≡ true
    → varint_within (suc fuel) value ≡ (value % 128 + 128) ∷ varint_within fuel (value / 128)
unfolding varint_within
varint_within-more fuel value e = rw (varint_within, e) refl

varint_within-last :
    (fuel value : ℕ) → leb 128 value ≡ false → varint_within (suc fuel) value ≡ value ∷ []
unfolding varint_within
varint_within-last fuel value e = rw (varint_within, e) refl

-- A number of so many groups of seven bits reads back, whatever follows it.
varint_within-read :
    (fuel value : ℕ) (rest : List ℕ)
    → value < 128 ^ suc fuel
    → read_varint (varint_within (suc fuel) value ++ rest) ≡ some (value, rest)
unfolding varint_within read_varint
varint_within-read zero value rest h = ground arith
varint_within-read (suc fuel) value rest h = elim (Bool-cases (leb 128 value)) [
  | inl e ↦
      let wide : 128 ^ suc (suc fuel) ≡ 128 * 128 ^ suc fuel = pow_step 128 (suc fuel) in
      let small : value / 128 < 128 ^ suc fuel = omega (arith, wide) in
      let high : ltb (value % 128 + 128) 128 ≡ false = ground arith in
      let low : value % 128 + 128 - 128 + 128 * (value / 128) ≡ value = omega arith in
      ap (λ bs. read_varint (bs ++ rest)) (varint_within-more (suc fuel) value e)
      ∙ ground (arith, high)
      ∙ ap (shift_in (value % 128 + 128 - 128)) (varint_within-read fuel (value / 128) rest small)
      ∙ ap (λ v. some (v, rest)) low
  | inr e ↦
      ap (λ bs. read_varint (bs ++ rest)) (varint_within-last (suc fuel) value e)
      ∙ ground (arith, e)
]

-- A number of 64 bits takes between one byte and ten.
varint_within-length :
    (fuel value : ℕ)
    → (1 ≤ length (varint_within (suc fuel) value))
      × (length (varint_within (suc fuel) value) ≤ suc fuel)
unfolding varint_within
varint_within-length zero value = ground arith
varint_within-length (suc fuel) value = ground (arith, varint_within-length fuel (value / 128))

u64_fits : (value : ℕ) → value < 2 ^ 64 → value < 128 ^ 10
u64_fits value h = omega arith

read_varint-varint :
    (value : ℕ) (rest : List ℕ)
    → value < 2 ^ 64
    → read_varint (varint_within 10 value ++ rest) ≡ some (value, rest)
read_varint-varint value rest h = varint_within-read 9 value rest (u64_fits value h)

-- A 64-bit number takes between one and ten bytes, and these read back as the number.
read_varint-write_varint :
    (value : ℕ)
    → value < 2 ^ 64
    → (read_varint (write_varint [] value) ≡ some (value, []))
      × (1 ≤ length (write_varint [] value))
      × (length (write_varint [] value) ≤ 10)
unfolding write_varint
read_varint-write_varint value h = (
  ap read_varint (sym (append-nil (varint_within 10 value))) ∙ read_varint-varint value [] h,
  (varint_within-length 9 value).0,
  (varint_within-length 9 value).1,
)

-- The writer's calls for one field of either kind.
unfoldable pub write_field : List ℕ → Field → List ℕ
write_field w (int number value) = write_varint (write_tag w number 0) value
write_field w (bytes number contents) = write_string w number contents

unfoldable pub write_fields : List ℕ → List Field → List ℕ
write_fields w [] = w
write_fields w (f ∷ fs) = write_fields (write_field w f) fs

-- Numbers in the range of their types; a length is a `u64`.
abbrev pub Fits : Field → Type 0
Fits (int number value) = (number < 2 ^ 32) × (value < 2 ^ 64)
Fits (bytes number contents) = (number < 2 ^ 32) × (length contents < 2 ^ 64)

encoded : Field → List ℕ
encoded (int number value) = varint_within 10 (number * 8 + 0) ++ varint_within 10 value
encoded (bytes number contents) =
    varint_within 10 (number * 8 + 2) ++ (varint_within 10 (length contents) ++ contents)

write_field-encoded : (w : List ℕ) (f : Field) → write_field w f ≡ w ++ encoded f
unfolding write_field write_varint write_tag write_string encoded
write_field-encoded w (int number value) =
    append_assoc w (varint_within 10 (number * 8 + 0)) (varint_within 10 value)
write_field-encoded w (bytes number contents) =
    append_assoc (w ++ varint_within 10 (number * 8 + 2)) (varint_within 10 (length contents))
      contents
    ∙ append_assoc w (varint_within 10 (number * 8 + 2))
        (varint_within 10 (length contents) ++ contents)

encoded-nonempty : (f : Field) → 1 ≤ length (encoded f)
unfolding encoded
encoded-nonempty (int number value) = omega (
  arith,
  length-append (varint_within 10 (number * 8 + 0)) (varint_within 10 value),
  varint_within-length 9 (number * 8 + 0),
)
encoded-nonempty (bytes number contents) = omega (
  arith,
  length-append (varint_within 10 (number * 8 + 2))
      (varint_within 10 (length contents) ++ contents),
  varint_within-length 9 (number * 8 + 2),
)

read_field-encoded :
    (f : Field) (rest : List ℕ) → Fits f → read_field (encoded f ++ rest) ≡ some (f, rest)
unfolding read_field encoded
read_field-encoded (int number value) rest (n, v) =
    let tag = number * 8 + 0 in
    ap (λ bs. tagged (read_varint bs))
      (append_assoc (varint_within 10 tag) (varint_within 10 value) rest)
    ∙ ap tagged (read_varint-varint tag (varint_within 10 value ++ rest) (omega arith))
    ∙ ap (value_of tag) (read_varint-varint value rest v)
    ∙ ground arith
read_field-encoded (bytes number contents) rest (n, v) =
    let tag = number * 8 + 2 in
    let size = varint_within 10 (length contents) in
    ap (λ bs. tagged (read_varint bs)) (append_assoc (varint_within 10 tag) (size ++ contents) rest)
    ∙ ap tagged (read_varint-varint tag ((size ++ contents) ++ rest) (omega arith))
    ∙ ap (λ bs. value_of tag (read_varint bs)) (append_assoc size contents rest)
    ∙ ap (value_of tag) (read_varint-varint (length contents) (contents ++ rest) v)
    ∙ ground
        (arith, length-append contents rest, take-append contents rest, drop-append contents rest)

all_encoded : List Field → List ℕ
all_encoded [] = []
all_encoded (f ∷ fs) = encoded f ++ all_encoded fs

write_fields-encoded : (w : List ℕ) (fs : List Field) → write_fields w fs ≡ w ++ all_encoded fs
unfolding write_fields all_encoded
write_fields-encoded w [] = sym (append-nil w)
write_fields-encoded w (f ∷ fs) =
    write_fields-encoded (write_field w f) fs
    ∙ ap (λ v. v ++ all_encoded fs) (write_field-encoded w f)
    ∙ append_assoc w (encoded f) (all_encoded fs)

read_fields-cons :
    (fuel : ℕ) (front rest : List ℕ) (f : Field)
    → 1 ≤ length front
    → read_field (front ++ rest) ≡ some (f, rest)
    → read_fields (suc fuel) (front ++ rest) ≡ with_field f (read_fields fuel rest)
unfolding read_fields
read_fields-cons fuel [] rest f h e = absurd (omega arith)
read_fields-cons fuel (b ∷ front) rest f h e = rw (read_fields, e) refl

read_fields-encoded :
    (fuel : ℕ) (fs : List Field)
    → length fs < fuel
    → All Fits fs
    → read_fields fuel (all_encoded fs) ≡ some fs
unfolding all_encoded
read_fields-encoded zero fs h a = absurd (omega arith)
read_fields-encoded (suc fuel) [] h a = unfold read_fields in refl
read_fields-encoded (suc fuel) (f ∷ fs) h (p, a) =
    read_fields-cons fuel (encoded f) (all_encoded fs) f (encoded-nonempty f)
      (read_field-encoded f (all_encoded fs) p)
    ∙ ap (with_field f) (read_fields-encoded fuel fs (omega arith) a)

length-all_encoded : (fs : List Field) → length fs ≤ length (all_encoded fs)
unfolding all_encoded
length-all_encoded [] = omega arith
length-all_encoded (f ∷ fs) =
    omega
      (arith, length-append (encoded f) (all_encoded fs), encoded-nonempty f, length-all_encoded fs)

-- A message written field by field reads back as these fields.
pub read_message-write_fields :
    (fs : List Field) → All Fits fs → read_message (write_fields [] fs) ≡ some fs
read_message-write_fields fs a =
    ap read_message (write_fields-encoded [] fs)
    ∙ read_fields-encoded (length (all_encoded fs) + 1) fs (omega (arith, length-all_encoded fs)) a
