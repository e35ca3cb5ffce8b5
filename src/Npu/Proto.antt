-- ===== src/Npu/Proto.antt =====
-- crates/kavach-core/src/npu_backend.rs, `ProtoWriter`: the protocol-buffer wire format. A writer is
-- the list of the bytes written so far. tools/kavach-pack/src/onnx_builder.rs has the same writer.
pub mod Fields
pub mod RoundTrip
use kavach_npu.Prelude.{
  ℕ, zero, suc, ◌+◌, ◌*◌, ◌/◌, ◌%◌, Bool, true, false, List, [], ◌∷◌, ◌++◌, leb, length,
}
use kavach_npu.Prelude.Int.{ℤ, to_bits}

-- `while value >= 0x80`, on fuel: a `u64` takes ten rounds at most.
unfoldable pub varint_within : ℕ → ℕ → List ℕ
varint_within zero value = []
varint_within (suc fuel) value = elim (leb 128 value) [
  | true ↦ (value % 128 + 128) ∷ varint_within fuel (value / 128)
  | false ↦ value ∷ []
]

unfoldable pub write_varint : List ℕ → ℕ → List ℕ
write_varint w value = w ++ varint_within 10 value

-- The wire type has three bits, which the shift leaves free.
unfoldable pub write_tag : List ℕ → ℕ → ℕ → List ℕ
write_tag w field_number wire_type = write_varint w (field_number * 8 + wire_type)

unfoldable pub write_int64 : List ℕ → ℕ → ℤ → List ℕ
write_int64 w field_number val = write_varint (write_tag w field_number 0) (to_bits val)

unfoldable pub write_string : List ℕ → ℕ → List ℕ → List ℕ
write_string w field_number s = write_varint (write_tag w field_number 2) (length s) ++ s

unfoldable pub write_message : List ℕ → ℕ → List ℕ → List ℕ
write_message w field_number sub = write_varint (write_tag w field_number 2) (length sub) ++ sub
