-- ===== src/Npu/Tensor/Layout.antt =====
-- The tensors' bytes: how many there are, and that each is the entry of its place.
use mathlib.Core.List.{map-append}
use kavach_npu.Prelude.{
  ℕ, zero, suc, ◌-◌, ◌*◌, ◌<◌, ◌≡◌, refl, ap, ap₂, ◌∙◌, List, [], ◌∷◌, ◌++◌, map, ltb,
  if◌then◌else◌, length, All, IsMatrix, length-append, arith,
}
use kavach_npu.Prelude.Float.{Float}
use kavach_npu.Prelude.Int.{ℤ, pos, negsuc, to_bits}
use kavach_npu.Npu.Tensor.{
  QuantizationParams, quantize_f32_to_i8, quantize_matrix, as_u8, matrix_bytes, io_from_f32_matrix,
  net_from_f32_matrix, audit_from_f32_matrix, io_bytes, net_bytes, audit_bytes,
}

-- The range of an `i8`.
abbrev pub IsI8 : ℤ → Type 0
IsI8 (pos n) = n < 128
IsI8 (negsuc n) = n < 128

-- A byte read as an `i8`.
abbrev pub i8_of : ℕ → ℤ
i8_of b = if ltb b 128 then pos b else negsuc (255 - b)

i8_of-as_u8 : (x : ℤ) → IsI8 x → i8_of (as_u8 x) ≡ x
unfolding to_bits
i8_of-as_u8 (pos n) h = ground arith
i8_of-as_u8 (negsuc n) h = ground arith

-- The entries, row by row.
abbrev pub entries : List (List ℤ) → List ℤ
entries [] = []
entries (row ∷ rows) = row ++ entries rows

row_bytes : (row : List ℤ) → All IsI8 row → map i8_of (map as_u8 row) ≡ row
row_bytes [] a = refl
row_bytes (x ∷ row) (p, a) = ap₂ (λ y ys. y ∷ ys) (i8_of-as_u8 x p) (row_bytes row a)

matrix_bytes-entries :
    (rows : List (List ℤ)) → All (All IsI8) rows → map i8_of (matrix_bytes rows) ≡ entries rows
matrix_bytes-entries [] a = refl
matrix_bytes-entries (row ∷ rows) (p, a) =
    map-append i8_of (map as_u8 row) (matrix_bytes rows)
    ∙ ap₂ (λ xs ys. xs ++ ys) (row_bytes row p) (matrix_bytes-entries rows a)

length-map : (f : ℤ → ℕ) (xs : List ℤ) → length (map f xs) ≡ length xs
length-map f [] = refl
length-map f (x ∷ xs) = ap suc (length-map f xs)

length-matrix_bytes :
    (n : ℕ) (rows : List (List ℤ)) → IsMatrix n 4 rows → length (matrix_bytes rows) ≡ n * 4
length-matrix_bytes zero [] h = refl
length-matrix_bytes zero (row ∷ rows) h = absurd h
length-matrix_bytes (suc n) [] h = absurd h
length-matrix_bytes (suc n) (row ∷ rows) (e, h) = omega (
  arith,
  length-append (map as_u8 row) (matrix_bytes rows),
  length-map as_u8 row,
  length-matrix_bytes n rows h,
)

module _ (s : Float) (saturates : (x : s.F) → IsI8 (s.as_i8 x)) where
  quantized_row :
      (row : List s.F) (params : QuantizationParams s)
      → All IsI8 (map (λ val. quantize_f32_to_i8 s val params) row)
  unfolding quantize_f32_to_i8
  quantized_row [] params = tt
  quantized_row (x ∷ row) params = (saturates _, quantized_row row params)

  quantized :
      (n : ℕ) (m : List (List s.F)) (params : QuantizationParams s)
      → IsMatrix n 4 m
      → IsMatrix n 4 (quantize_matrix s m params) × All (All IsI8) (quantize_matrix s m params)
  quantized zero [] params h = (tt, tt)
  quantized zero (row ∷ rows) params h = absurd h
  quantized (suc n) [] params h = absurd h
  quantized (suc n) (row ∷ rows) params (e, h) =
      let (shape, range) = quantized n rows params h in
      ((length-quantized row ∙ e, shape), (quantized_row row params, range))
    where
      length-quantized :
          (row : List s.F) → length (map (λ val. quantize_f32_to_i8 s val params) row) ≡ length row
      length-quantized [] = refl
      length-quantized (x ∷ row) = ap suc (length-quantized row)

  -- So many bytes, and each of them, read as an `i8`, the quantized entry of its place.
  abbrev pub Packs : ℕ → List (List ℤ) → List ℕ → Type 0
  Packs n rows packed = (length packed ≡ n) × (map i8_of packed ≡ entries rows)

  packs :
      (n : ℕ) (m : List (List s.F)) (params : QuantizationParams s)
      → IsMatrix n 4 m
      → Packs (n * 4) (quantize_matrix s m params) (matrix_bytes (quantize_matrix s m params))
  packs n m params h =
      let (shape, range) = quantized n m params h in
      (
        length-matrix_bytes n (quantize_matrix s m params) shape,
        matrix_bytes-entries (quantize_matrix s m params) range,
      )

  -- Matrices of 10, 32 and 16 rows of four become 40, 128 and 64 bytes, and these hold the quantized
  -- entries row by row, if the cast to `i8` stays in its range.
  tensor_bytes :
      (io net audit : List (List s.F)) (params : QuantizationParams s)
      → IsMatrix 10 4 io
      → IsMatrix 32 4 net
      → IsMatrix 16 4 audit
      → Packs 40 (quantize_matrix s io params) (io_bytes (io_from_f32_matrix s io params))
        × Packs 128 (quantize_matrix s net params) (net_bytes (net_from_f32_matrix s net params))
        × Packs 64
            (quantize_matrix s audit params)
            (audit_bytes (audit_from_f32_matrix s audit params))
  unfolding io_bytes net_bytes audit_bytes io_from_f32_matrix net_from_f32_matrix
      audit_from_f32_matrix
  tensor_bytes io net audit params h k l =
      (packs 10 io params h, packs 32 net params k, packs 16 audit params l)
