-- ===== src/Prelude/Float.antt =====
-- Floating-point numbers. There is no such type here, so the numbers and what the program does with
-- them are a parameter, one value of it for each of `f64` and `f32`. It has no laws: where a
-- statement needs one, it names it.
use Prim.Native.Nat.{ℕ}
use mathlib.Core.Bool.{Bool}
use mathlib.Core.List.{List}
use kavach_npu.Prelude.Int.{ℤ}

pub record Float : Type 1 where
  pub F : Type 0
  -- `lit m k` is the literal for m divided by 10 to the k.
  pub lit : ℕ → ℕ → F
  -- `n as f64`, and for signed numbers
  pub of_nat : ℕ → F
  pub of_int : ℤ → F
  -- `x as u64`, `x as i8`: towards zero, and within the type's range
  pub as_u64 : F → ℕ
  pub as_i8 : F → ℤ
  pub to_be_bytes : F → List ℕ
  pub to_le_bytes : F → List ℕ
  pub neg : F → F
  pub add : F → F → F
  pub sub : F → F → F
  pub mul : F → F → F
  pub div : F → F → F
  pub log2 : F → F
  pub log10 : F → F
  pub abs : F → F
  pub sqrt : F → F
  pub round : F → F
  pub max : F → F → F
  -- `x.clamp(low, high)`
  pub clamp : F → F → F → F
  pub le : F → F → Bool
  pub lt : F → F → Bool

pub record Floats : Type 1 where
  pub double : Float
  pub single : Float
  -- `x as f32`
  pub narrow : double.F → single.F
