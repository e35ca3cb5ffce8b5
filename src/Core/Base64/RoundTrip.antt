-- ===== src/Core/Base64/RoundTrip.antt =====
-- crates/kavach-core/src/manifest.rs: base64 text, encoded and decoded.
use kavach_npu.Prelude.{
  ℕ, zero, suc, ◌+◌, ◌*◌, ◌/◌, ◌%◌, ◌^◌, ◌≤◌, ◌<◌, ◌≡◌, refl, ap, ◌∙◌, Bool, true, false, not, List,
  [], ◌∷◌, map, ok, ◌==◌, if◌then◌else◌, length, filter, All, arith,
}
use kavach_npu.Prelude.Bytes.{IsByte, flatten}
use kavach_npu.Prelude.Chunks.{chunks_within, chunks, chunks_within-empty}
use kavach_npu.Core.Base64.{
  is_whitespace, trim_start, trim_end, decode_chars, decode_base64, b64_char, encode_chunk,
  encode_base64,
}
use kavach_npu.Core.Base64.Digits.{digit, digits, decode-digits}

-- The characters of one chunk, with or without padding.
not_fill : ℕ → Bool
not_fill c = not (c == b'=')

keep_digit :
    (v w : ℕ) (cs : List ℕ)
    → v < 64
    → w ≡ v
    → filter not_fill (b64_char w ∷ cs) ≡ b64_char v ∷ filter not_fill cs
unfolding not_fill
keep_digit v w cs h e =
    ap (λ u. filter not_fill (b64_char u ∷ cs)) e ∙ ground (arith, (digit v h).filled)

-- The text of the chunks.
text_of : List (List ℕ) → List ℕ
text_of cs = flatten (map encode_chunk cs)

encoded-digits :
    (fuel : ℕ) (xs : List ℕ)
    → length xs ≤ fuel
    → All IsByte xs
    → filter not_fill (text_of (chunks_within fuel 3 xs)) ≡ map b64_char (digits xs)
unfolding chunks_within digits encode_chunk not_fill text_of
encoded-digits zero [] h a = refl
encoded-digits zero (x ∷ xs) h a = absurd (omega arith)
encoded-digits (suc fuel) [] h a = refl
encoded-digits (suc fuel) (a ∷ []) h (p, t) =
    let triple = a * 2 ^ 16 + 0 * 2 ^ 8 + 0 in
    let after = text_of (chunks_within fuel 3 []) in
    let none_left = ap (λ cs. filter not_fill (text_of cs)) (chunks_within-empty fuel 3 [] refl) in
    keep_digit (a / 4) (triple / 2 ^ 18 % 64)
      (b64_char (triple / 2 ^ 12 % 64) ∷ b'=' ∷ b'=' ∷ after) (omega arith) (omega arith)
    ∙ ap (λ cs. b64_char (a / 4) ∷ cs)
        (keep_digit (a % 4 * 16) (triple / 2 ^ 12 % 64) (b'=' ∷ b'=' ∷ after) (omega arith)
            (omega arith)
          ∙ ap (λ cs. b64_char (a % 4 * 16) ∷ cs) none_left)
encoded-digits (suc fuel) (a ∷ (b ∷ [])) h (p, (q, t)) =
    let triple = a * 2 ^ 16 + b * 2 ^ 8 + 0 in
    let after = text_of (chunks_within fuel 3 []) in
    let none_left = ap (λ cs. filter not_fill (text_of cs)) (chunks_within-empty fuel 3 [] refl) in
    let c2 = b64_char (triple / 2 ^ 12 % 64) in
    let c3 = b64_char (triple / 2 ^ 6 % 64) in
    keep_digit (a / 4) (triple / 2 ^ 18 % 64) (c2 ∷ c3 ∷ b'=' ∷ after) (omega arith) (omega arith)
    ∙ ap (λ cs. b64_char (a / 4) ∷ cs)
        (keep_digit (a % 4 * 16 + b / 16) (triple / 2 ^ 12 % 64) (c3 ∷ b'=' ∷ after) (omega arith)
            (omega arith)
          ∙ ap (λ cs. b64_char (a % 4 * 16 + b / 16) ∷ cs)
              (keep_digit (b % 16 * 4) (triple / 2 ^ 6 % 64) (b'=' ∷ after) (omega arith)
                  (omega arith)
                ∙ ap (λ cs. b64_char (b % 16 * 4) ∷ cs) none_left))
encoded-digits (suc fuel) (a ∷ (b ∷ (c ∷ rest))) h (p, (q, (r, t))) =
    let triple = a * 2 ^ 16 + b * 2 ^ 8 + c in
    let after = text_of (chunks_within fuel 3 rest) in
    let c2 = b64_char (triple / 2 ^ 12 % 64) in
    let c3 = b64_char (triple / 2 ^ 6 % 64) in
    let c4 = b64_char (triple % 64) in
    keep_digit (a / 4) (triple / 2 ^ 18 % 64) (c2 ∷ c3 ∷ c4 ∷ after) (omega arith) (omega arith)
    ∙ ap (λ cs. b64_char (a / 4) ∷ cs)
        (keep_digit (a % 4 * 16 + b / 16) (triple / 2 ^ 12 % 64) (c3 ∷ c4 ∷ after) (omega arith)
            (omega arith)
          ∙ ap (λ cs. b64_char (a % 4 * 16 + b / 16) ∷ cs)
              (keep_digit (b % 16 * 4 + c / 64) (triple / 2 ^ 6 % 64) (c4 ∷ after) (omega arith)
                  (omega arith)
                ∙ ap (λ cs. b64_char (b % 16 * 4 + c / 64) ∷ cs)
                    (keep_digit (c % 64) (triple % 64) after (omega arith) (omega arith)
                      ∙ ap (λ cs. b64_char (c % 64) ∷ cs)
                          (encoded-digits fuel rest (omega arith) t))))

abbrev Plain : ℕ → Type 0
Plain c = is_whitespace c ≡ false

char_or_fill-Plain : (b : Bool) (i : ℕ) → i < 64 → Plain (if b then b64_char i else b'=')
unfolding is_whitespace
char_or_fill-Plain true i h = (digit i h).plain
char_or_fill-Plain false i h = refl

text_of-Plain : (cs : List (List ℕ)) → All Plain (text_of cs)
unfolding text_of encode_chunk
text_of-Plain [] = tt
text_of-Plain (chunk ∷ cs) =
    let plain = λ (x : ℕ). (digit (x % 64) (omega arith)).plain in
    (
      plain _,
      (
        plain _,
        (
          char_or_fill-Plain _ _ (omega arith),
          (char_or_fill-Plain _ _ (omega arith), text_of-Plain cs),
        ),
      ),
    )

trim_start-Plain : (xs : List ℕ) → All Plain xs → trim_start xs ≡ xs
unfolding trim_start
trim_start-Plain [] a = refl
trim_start-Plain (x ∷ xs) (p, a) = rw p refl

trim_end-Plain : (xs : List ℕ) → All Plain xs → trim_end xs ≡ xs
unfolding trim_end
trim_end-Plain [] a = refl
trim_end-Plain (x ∷ []) (p, a) = rw p refl
trim_end-Plain (x ∷ (y ∷ ys)) (p, a) = rw (trim_end-Plain (y ∷ ys) a) refl

-- Bytes written as base64 are read back.
pub decode_base64-encode_base64 :
    (xs : List ℕ) → All IsByte xs → decode_base64 (encode_base64 xs) ≡ ok xs
unfolding decode_base64 encode_base64 chunks text_of not_fill
decode_base64-encode_base64 xs a =
    let text = text_of (chunks 3 xs) in
    let plain = text_of-Plain (chunks 3 xs) in
    ap (λ t. decode_chars 0 0 (filter not_fill (trim_end t))) (trim_start-Plain text plain)
    ∙ ap (λ t. decode_chars 0 0 (filter not_fill t)) (trim_end-Plain text plain)
    ∙ ap (decode_chars 0 0) (encoded-digits (length xs) xs (omega arith) a)
    ∙ decode-digits 0 xs a
