-- ===== src/Core/Base64/Digits.antt =====
-- The 64 digits of base64, and the bytes that a run of digits decodes to.
use kavach_npu.Prelude.{
  ℕ, zero, suc, ◌+◌, ◌-◌, ◌*◌, ◌/◌, ◌%◌, ◌^◌, ◌≤◌, ◌<◌, ◌≡◌, refl, ap, ap₂, ◌∙◌, Bool, true, false,
  not, ◌&&◌, List, [], ◌∷◌, map, Option, none, some, ok, ◌==◌, All, arith, Option-cases, inl, inr,
}
use kavach_npu.Prelude.Bytes.{IsByte}
use kavach_npu.Core.Base64.{
  is_whitespace, digit_value, is_skipped, with_byte, decode_chars, b64_char,
}

reads_as : ℕ → Option ℕ → Bool
reads_as i none = false
reads_as i (some v) = v == i

-- A digit's character is none that the decoder drops, and has the digit as its value.
good_digit : ℕ → Bool
unfolding reads_as
good_digit i =
    let c = b64_char i in
    not (is_skipped c) && (not (is_whitespace c) && (not (c == b'=') && reads_as i (digit_value c)))

good_below : ℕ → Bool
unfolding good_digit
good_below zero = true
good_below (suc n) = good_digit n && good_below n

good_below_sound : (n i : ℕ) → good_below n ≡ true → i < n → good_digit i ≡ true
unfolding good_below
good_below_sound zero i h lt = absurd (omega arith)
good_below_sound (suc n) i h lt = ground (arith, good_below_sound n i)

all_good : good_below 64 ≡ true
unfolding good_below b64_char digit_value is_whitespace
all_good = refl

pub record Digit (i : ℕ) : Type 0 where
  pub kept : is_skipped (b64_char i) ≡ false
  pub plain : is_whitespace (b64_char i) ≡ false
  pub filled : (b64_char i == b'=') ≡ false
  pub value : digit_value (b64_char i) ≡ some i

pub digit : (i : ℕ) → i < 64 → Digit i
unfolding good_digit reads_as
digit i h =
    let good = good_below_sound 64 i all_good h in
    elim (Option-cases (digit_value (b64_char i))) [
      | inl e ↦ absurd (ground (arith, good, e))
      | inr (v, e) ↦ record {
        kept = ground (arith, good, e);
        plain = ground (arith, good, e);
        filled = ground (arith, good, e);
        value = ground (arith, good, e);
      }
    ]

-- The digits of some bytes.
unfoldable pub digits : List ℕ → List ℕ
digits [] = []
digits (a ∷ []) = (a / 4) ∷ (a % 4 * 16) ∷ []
digits (a ∷ (b ∷ [])) = (a / 4) ∷ (a % 4 * 16 + b / 16) ∷ (b % 16 * 4) ∷ []
digits (a ∷ (b ∷ (c ∷ rest))) =
    (a / 4) ∷ (a % 4 * 16 + b / 16) ∷ (b % 16 * 4 + c / 64) ∷ (c % 64) ∷ digits rest

-- One digit, short of a byte or with it.
step_short :
    (bits count v : ℕ) (cs : List ℕ)
    → v < 64
    → count + 6 < 8
    → decode_chars bits count (b64_char v ∷ cs)
      ≡ decode_chars ((bits * 64) % 2 ^ 32 + v) (count + 6) cs
unfolding decode_chars
step_short bits count v cs h k = let d = digit v h in ground (arith, d.kept, d.value)

step_byte :
    (bits count v : ℕ) (cs : List ℕ)
    → v < 64
    → 8 ≤ count + 6
    → decode_chars bits count (b64_char v ∷ cs)
      ≡ with_byte
          (((bits * 64) % 2 ^ 32 + v) / 2 ^ (count + 6 - 8) % 256)
          (decode_chars ((bits * 64) % 2 ^ 32 + v) (count + 6 - 8) cs)
unfolding decode_chars
step_byte bits count v cs h k = let d = digit v h in ground (arith, d.kept, d.value)

-- The bytes that three digits give, whatever bits came before.
first_byte :
    (bits a b : ℕ)
    → a < 256
    → b < 256
    → ((((bits * 64) % 2 ^ 32 + a / 4) * 64) % 2 ^ 32 + (a % 4 * 16 + b / 16)) / 2 ^ 4 % 256 ≡ a
first_byte bits a b h k = omega arith

next_byte :
    (bits hi a b : ℕ)
    → a < 256
    → b < 256
    → ((((bits * 64) % 2 ^ 32 + (hi * 16 + a / 16)) * 64) % 2 ^ 32 + (a % 16 * 4 + b / 64))
        / 2 ^ 2
        % 256
      ≡ a
next_byte bits hi a b h k = omega arith

last_byte :
    (bits hi a : ℕ)
    → a < 256
    → ((((bits * 64) % 2 ^ 32 + (hi * 4 + a / 64)) * 64) % 2 ^ 32 + a % 64) / 2 ^ 0 % 256 ≡ a
last_byte bits hi a h = omega arith

lone_byte :
    (bits a : ℕ)
    → a < 256
    → ((((bits * 64) % 2 ^ 32 + a / 4) * 64) % 2 ^ 32 + a % 4 * 16) / 2 ^ 4 % 256 ≡ a
lone_byte bits a h = omega arith

second_byte :
    (bits hi a : ℕ)
    → a < 256
    → ((((bits * 64) % 2 ^ 32 + (hi * 16 + a / 16)) * 64) % 2 ^ 32 + a % 16 * 4) / 2 ^ 2 % 256 ≡ a
second_byte bits hi a h = omega arith

pub decode-digits :
    (bits : ℕ) (xs : List ℕ)
    → All IsByte xs
    → decode_chars bits 0 (map b64_char (digits xs)) ≡ ok xs
unfolding digits decode_chars
decode-digits bits [] h = refl
decode-digits bits (a ∷ []) (p, h) =
    let bits1 = (bits * 64) % 2 ^ 32 + a / 4 in
    step_short bits 0 (a / 4) (b64_char (a % 4 * 16) ∷ []) (omega arith) (omega arith)
    ∙ step_byte bits1 6 (a % 4 * 16) [] (omega arith) (omega arith)
    ∙ ap (λ x. ok (x ∷ [])) (lone_byte bits a p)
decode-digits bits (a ∷ (b ∷ [])) (p, (q, h)) =
    let v1 = a / 4 in
    let v2 = a % 4 * 16 + b / 16 in
    let v3 = b % 16 * 4 in
    let bits1 = (bits * 64) % 2 ^ 32 + v1 in
    let bits2 = (bits1 * 64) % 2 ^ 32 + v2 in
    let bits3 = (bits2 * 64) % 2 ^ 32 + v3 in
    step_short bits 0 v1 (b64_char v2 ∷ b64_char v3 ∷ []) (omega arith) (omega arith)
    ∙ step_byte bits1 6 v2 (b64_char v3 ∷ []) (omega arith) (omega arith)
    ∙ ap (with_byte (bits2 / 2 ^ 4 % 256)) (
        step_byte bits2 4 v3 [] (omega arith) (omega arith)
        ∙ ap (λ x. ok (x ∷ [])) (second_byte bits1 (a % 4) b q))
    ∙ ap (λ x. ok (x ∷ b ∷ [])) (first_byte bits a b p q)
decode-digits bits (a ∷ (b ∷ (c ∷ rest))) (p, (q, (r, h))) =
    let v1 = a / 4 in
    let v2 = a % 4 * 16 + b / 16 in
    let v3 = b % 16 * 4 + c / 64 in
    let v4 = c % 64 in
    let bits1 = (bits * 64) % 2 ^ 32 + v1 in
    let bits2 = (bits1 * 64) % 2 ^ 32 + v2 in
    let bits3 = (bits2 * 64) % 2 ^ 32 + v3 in
    let bits4 = (bits3 * 64) % 2 ^ 32 + v4 in
    let cs = map b64_char (digits rest) in
    step_short bits 0 v1 (b64_char v2 ∷ b64_char v3 ∷ b64_char v4 ∷ cs) (omega arith) (omega arith)
    ∙ step_byte bits1 6 v2 (b64_char v3 ∷ b64_char v4 ∷ cs) (omega arith) (omega arith)
    ∙ ap (with_byte (bits2 / 2 ^ 4 % 256)) (
        step_byte bits2 4 v3 (b64_char v4 ∷ cs) (omega arith) (omega arith)
        ∙ ap (with_byte (bits3 / 2 ^ 2 % 256)) (
            step_byte bits3 2 v4 cs (omega arith) (omega arith)
            ∙ ap (with_byte (bits4 / 2 ^ 0 % 256)) (decode-digits bits4 rest h)))
    ∙ ap₂ (λ x ys. ok (x ∷ ys)) (first_byte bits a b p q)
        (ap₂ (λ x ys. x ∷ ys) (next_byte bits1 (a % 4) b c q r)
          (ap (λ x. x ∷ rest) (last_byte bits2 (b % 16) c r)))
