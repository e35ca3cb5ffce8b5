-- ===== src/Npu/Tensor.antt =====
-- crates/kavach-core/src/tensor.rs: quantization of the features, and the heads' input tensors.
-- The type `f32` is an argument; a fixed array of rows is a list of rows.
pub mod Layout
use kavach_npu.Prelude.{ℕ, ◌+◌, ◌%◌, List, map}
use kavach_npu.Prelude.Bytes.{flatten}
use kavach_npu.Prelude.Float.{Float}
use kavach_npu.Prelude.Int.{ℤ, pos, to_bits}

pub record QuantizationParams (s : Float) : Type 0 where
  pub scale : s.F
  pub zero_point : ℤ

module _ (s : Float) where
  open s use {F, lit, of_int, as_i8, neg, add, sub, mul, div, round, clamp}

  unfoldable pub default_params : QuantizationParams s
  default_params = record { scale = div (lit 10 1) (lit 1270 1); zero_point = pos 0 }

  unfoldable pub quantize_f32_to_i8 : F → QuantizationParams s → ℤ
  quantize_f32_to_i8 val params =
      let scaled = add (round (div val params.scale)) (of_int params.zero_point) in
      as_i8 (clamp scaled (neg (lit 1280 1)) (lit 1270 1))

  unfoldable pub dequantize_i8_to_f32 : ℤ → QuantizationParams s → F
  dequantize_i8_to_f32 q params = mul (sub (of_int q) (of_int params.zero_point)) params.scale

  -- The loops over the rows and their columns.
  abbrev pub quantize_matrix : List (List F) → QuantizationParams s → List (List ℤ)
  quantize_matrix matrix params = map (map (λ val. quantize_f32_to_i8 val params)) matrix

-- `val as u8`
abbrev pub as_u8 : ℤ → ℕ
as_u8 val = to_bits val % 256

-- The bytes of the rows, one row behind the other.
abbrev pub matrix_bytes : List (List ℤ) → List ℕ
matrix_bytes rows = flatten (map (map as_u8) rows)

-- Ten rows of four.
pub record IoInputTensor : Type 0 where
  pub rows : List (List ℤ)

-- 32 rows of four.
pub record NetInputTensor : Type 0 where
  pub rows : List (List ℤ)

-- 16 rows of four.
pub record AuditInputTensor : Type 0 where
  pub rows : List (List ℤ)

unfoldable pub io_from_f32_matrix :
    (s : Float) → List (List s.F) → QuantizationParams s → IoInputTensor
io_from_f32_matrix s matrix params = record { rows = quantize_matrix s matrix params }

unfoldable pub io_bytes : IoInputTensor → List ℕ
io_bytes t = matrix_bytes t.rows

unfoldable pub net_from_f32_matrix :
    (s : Float) → List (List s.F) → QuantizationParams s → NetInputTensor
net_from_f32_matrix s matrix params = record { rows = quantize_matrix s matrix params }

unfoldable pub net_bytes : NetInputTensor → List ℕ
net_bytes t = matrix_bytes t.rows

unfoldable pub audit_from_f32_matrix :
    (s : Float) → List (List s.F) → QuantizationParams s → AuditInputTensor
audit_from_f32_matrix s matrix params = record { rows = quantize_matrix s matrix params }

unfoldable pub audit_bytes : AuditInputTensor → List ℕ
audit_bytes t = matrix_bytes t.rows
