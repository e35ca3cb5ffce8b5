-- ===== src/Core/Base64.antt =====
-- crates/kavach-core/src/manifest.rs, `decode_base64` and `encode_base64`. A string is the list of its characters' code
-- points; `bits` is a u32, whose upper bits the shift loses.
pub mod Digits
pub mod RoundTrip
use kavach_npu.Prelude.{
  ℕ, ◌+◌, ◌-◌, ◌*◌, ◌/◌, ◌%◌, ◌^◌, Bool, true, false, not, ◌&&◌, ◌||◌, List, [], ◌∷◌, Option, none,
  some, Result, ok, err, leb, ◌==◌, if◌then◌else◌, filter, map, length, get_or, ltb,
}
use kavach_npu.Prelude.Bytes.{flatten}
use kavach_npu.Prelude.Chunks.{chunks}
use kavach_npu.Prelude.Text.{codes}

-- `char::is_whitespace`
unfoldable pub is_whitespace : ℕ → Bool
is_whitespace c =
    (leb 9 c && leb c 13)
    || (c == 32
        || (c == 133
            || (c == 160
                || (c == 5760
                    || ((leb 8192 c && leb c 8202)
                        || (c == 8232
                            || (c == 8233 || (c == 8239 || (c == 8287 || c == 12288)))))))))

unfoldable pub trim_start : List ℕ → List ℕ
unfolding is_whitespace
trim_start [] = []
trim_start (c ∷ cs) = let rest = trim_start cs in if is_whitespace c then rest else c ∷ cs

-- Either no more than white space, or kept.
unfoldable pub trim_end : List ℕ → List ℕ
unfolding is_whitespace
trim_end [] = []
trim_end (c ∷ cs) = elim (trim_end cs) [
  | [] ↦ if is_whitespace c then [] else c ∷ []
  | d ∷ ds ↦ c ∷ d ∷ ds
]

-- `match c { .. }` where it gives a value.
unfoldable pub digit_value : ℕ → Option ℕ
digit_value c =
    if leb b'A' c && leb c b'Z'
    then some (c - b'A')
    else if leb b'a' c && leb c b'z'
    then some (c - b'a' + 26)
    else if leb b'0' c && leb c b'9'
    then some (c - b'0' + 52)
    else if c == b'+' || c == b'-'
    then some 62
    else if c == b'/' || c == b'_'
    then some 63
    else none

-- The arm that continues.
abbrev pub is_skipped : ℕ → Bool
is_skipped c = c == 13 || (c == 10 || c == 32)

abbrev pub with_byte : ℕ → Result ℕ (List ℕ) → Result ℕ (List ℕ)
with_byte b (ok bytes) = ok (b ∷ bytes)
with_byte b (err c) = err c

-- The loop over the characters; an error is the character refused.
unfoldable pub decode_chars : ℕ → ℕ → List ℕ → Result ℕ (List ℕ)
decode_chars bits bit_count [] = ok []
decode_chars bits bit_count (c ∷ cs) = elim (is_skipped c) [
  | true ↦ decode_chars bits bit_count cs
  | false ↦ elim (digit_value c) [
    | none ↦ err c
    | some val ↦ elim (leb 8 (bit_count + 6)) [
      | true ↦
          with_byte (((bits * 64) % 2 ^ 32 + val) / 2 ^ (bit_count + 6 - 8) % 256)
            (decode_chars ((bits * 64) % 2 ^ 32 + val) (bit_count + 6 - 8) cs)
      | false ↦ decode_chars ((bits * 64) % 2 ^ 32 + val) (bit_count + 6) cs
    ]
  ]
]

unfoldable pub decode_base64 : List ℕ → Result ℕ (List ℕ)
unfolding trim_start trim_end
decode_base64 input = decode_chars 0 0 (filter (λ c. not (c == b'=')) (trim_end (trim_start input)))

-- `B64[i] as char`
unfoldable pub b64_char : ℕ → ℕ
b64_char i = get_or (codes "ABCDEFGHIJKLMNOPQRSTUVWXYZabcdefghijklmnopqrstuvwxyz0123456789+/") i 0

-- The body of the loop over the chunks. The parts of `triple` do not overlap.
unfoldable pub encode_chunk : List ℕ → List ℕ
encode_chunk chunk =
    let triple = get_or chunk 0 0 * 2 ^ 16 + get_or chunk 1 0 * 2 ^ 8 + get_or chunk 2 0 in
    b64_char (triple / 2 ^ 18 % 64)
    ∷ b64_char (triple / 2 ^ 12 % 64)
    ∷ (if ltb 1 (length chunk) then b64_char (triple / 2 ^ 6 % 64) else b'=')
    ∷ (if ltb 2 (length chunk) then b64_char (triple % 64) else b'=')
    ∷ []

unfoldable pub encode_base64 : List ℕ → List ℕ
encode_base64 bytes = flatten (map encode_chunk (chunks 3 bytes))
