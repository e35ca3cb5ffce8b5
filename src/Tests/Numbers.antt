-- ===== src/Tests/Numbers.antt =====
-- A number type that stands for `f64` and `f32` in the concrete inputs: hundredths, which cannot be
-- negative, so that a difference is a distance. Its logarithms are all 8, which gives every block of
-- one byte value the highest entropy.
use kavach_npu.Prelude.{ℕ, ◌+◌, ◌-◌, ◌*◌, ◌/◌, ◌^◌, leb, ltb, ◌==◌, if◌then◌else◌}
use kavach_npu.Prelude.Bytes.{be_bytes}
use kavach_npu.Prelude.Float.{Float, Floats}
use kavach_npu.Prelude.Int.{pos, negsuc}

abbrev pub hundredths : Float
hundredths = record {
  F = ℕ;
  lit = λ m k. m * 100 / 10 ^ k;
  of_nat = λ n. n * 100;
  of_int = λ x. elim x [ pos n ↦ n * 100 | negsuc n ↦ 0 ];
  as_u64 = λ a. a / 100;
  as_i8 = λ a. pos (if ltb 127 (a / 100) then 127 else a / 100);
  to_be_bytes = be_bytes 8;
  to_le_bytes = be_bytes 4;
  neg = λ a. 0;
  add = λ a b. a + b;
  sub = λ a b. if ltb a b then b - a else a - b;
  mul = λ a b. a * b / 100;
  div = λ a b. if b == 0 then 0 else a * 100 / b;
  log2 = λ a. 800;
  log10 = λ a. 0;
  abs = λ a. a;
  sqrt = λ a. a;
  round = λ a. a;
  max = λ a b. if ltb a b then b else a;
  clamp = λ a low high. if ltb a low then low else if ltb high a then high else a;
  le = leb;
  lt = ltb;
}

abbrev pub sample_floats : Floats
sample_floats = record { double = hundredths; single = hundredths; narrow = λ a. a }
