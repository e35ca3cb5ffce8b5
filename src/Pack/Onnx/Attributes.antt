-- ===== src/Pack/Onnx/Attributes.antt =====
-- What the tool's attributes hold, beside the engine's.
use kavach_npu.Prelude.{ℕ, ◌≡◌, List, [], ◌∷◌, some, arith}
use kavach_npu.Prelude.Int.{ℤ, to_bits, to_bits_lt}
use kavach_npu.Npu.Proto.{write_int64}
use kavach_npu.Npu.Proto.Fields.{int, bytes, read_message}
use kavach_npu.Npu.Proto.RoundTrip.{write_field, write_fields, read_message-write_fields}
use kavach_npu.Npu.Onnx.{build_int_attr}
use kavach_npu.Npu.Onnx.Messages.{IsShort, read_message-build_int_attr}
use kavach_npu.Pack.Onnx.{build_int_attribute}

tool_attribute :
    (name : List ℕ) (val : ℤ)
    → IsShort name
    → read_message (build_int_attribute name val)
      ≡ some (bytes 1 name ∷ int 2 (to_bits val) ∷ int 20 2 ∷ [])
unfolding build_int_attribute write_fields write_field write_int64 to_bits
tool_attribute name val n =
    read_message-write_fields (bytes 1 name ∷ int 2 (to_bits val) ∷ int 20 2 ∷ [])
      ((omega arith, n), ((omega arith, to_bits_lt val), ((omega arith, omega arith), tt)))

-- For one name and number, an integer attribute of the engine's model and one of the tool's model read
-- back as the name in field 1 and 2 in field 20, but the number stands in field 3 of the one and in
-- field 2 of the other.
pub attribute_fields :
    (name : List ℕ) (val : ℤ)
    → IsShort name
    → (read_message (build_int_attr name val)
        ≡ some (bytes 1 name ∷ int 3 (to_bits val) ∷ int 20 2 ∷ []))
      × (read_message (build_int_attribute name val)
          ≡ some (bytes 1 name ∷ int 2 (to_bits val) ∷ int 20 2 ∷ []))
attribute_fields name val n = (read_message-build_int_attr name val n, tool_attribute name val n)
