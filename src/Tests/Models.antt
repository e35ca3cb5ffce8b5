-- ===== src/Tests/Models.antt =====
-- The model files, the session and the packing tool on concrete inputs.
use kavach_npu.Prelude.{
  ℕ, ◌≡◌, ◌↔◌, refl, true, false, List, [], ◌∷◌, none, some, Result, ok, err, All, map, replicate,
  is_ok, ◌++◌, arith,
}
use kavach_npu.Prelude.Bytes.{be_bytes}
use kavach_npu.Prelude.Ascii.{lowercase}
use kavach_npu.Prelude.Int.{pos, to_bits}
use kavach_npu.Prelude.Text.{codes}
use kavach_npu.Core.Config.{safe_defaults}
use kavach_npu.Core.Manifest.{Libraries, verify_bundle_dir}
use kavach_npu.Npu.Engine.{Machine}
use kavach_npu.Npu.Proto.{
  write_int64, write_string, write_message, write_tag, write_varint, varint_within,
}
use kavach_npu.Npu.Proto.Fields.{int, bytes, read_message}
use kavach_npu.Npu.Onnx.{
  build_tensor_vi, build_int_attr, build_tensor_proto_f32, raw_data, write_dims, write_int64s,
  write_messages, write_strings, build_node, reference_weights, reference_graph,
  generate_reference_onnx,
}
use kavach_npu.Npu.Onnx.Messages.{IsShort, model_fields, graph_fields, read_message-reference}
use kavach_npu.Npu.Session.{from_config}
use kavach_npu.Npu.Session.Heads.{audit, IsReady, evaluate, heads_answer_iff}
use kavach_npu.Pack.Onnx.{build_int_attribute}
use kavach_npu.Pack.Onnx.Attributes.{attribute_fields}
use kavach_npu.Pack.Sign.{written_bundle}
use kavach_npu.Pack.Sign.Bundle.{IsKeyPair, written_bundle-verified}
use kavach_npu.Tests.Numbers.{hundredths}
use kavach_npu.Tests.Bundles.{sample_bundle, bundle_library, sample_dir}

-- A machine without an NPU.
abbrev bare_machine : Machine
bare_machine = record {
  join = λ a b. a ++ b;
  is_file = λ path. false;
  canonicalize = λ path. none;
  sdk_path = none;
  has_device = false;
  driver = none;
}

-- A key parses if it is not empty.
abbrev sample_key : List ℕ → Result (List ℕ) Libraries
sample_key [] = err []
sample_key (b ∷ bs) = ok bundle_library

heads_answer_iff_example :
    (is_ok
        (evaluate hundredths
          (from_config bare_machine sample_key (λ path. sample_dir) safe_defaults (1 ∷ []))
          (audit (record { rows = [] }))).1
      ≡ true)
    ↔ IsReady hundredths bare_machine sample_key (λ path. sample_dir) safe_defaults (1 ∷ [])
heads_answer_iff_example =
    heads_answer_iff hundredths bare_machine sample_key (λ path. sample_dir) safe_defaults (1 ∷ [])
      (audit (record { rows = [] }))

attribute_fields_example :
    (read_message (build_int_attr (codes "to") (pos 1))
      ≡ some (bytes 1 (codes "to") ∷ int 3 (to_bits (pos 1)) ∷ int 20 2 ∷ []))
    × (read_message (build_int_attribute (codes "to") (pos 1))
        ≡ some (bytes 1 (codes "to") ∷ int 2 (to_bits (pos 1)) ∷ int 20 2 ∷ []))
attribute_fields_example = attribute_fields (codes "to") (pos 1) (omega arith)

weights-IsShort : All IsShort (reference_weights hundredths)
unfolding build_tensor_proto_f32 raw_data write_dims write_int64s write_message write_int64
    write_string write_tag write_varint varint_within to_bits be_bytes
weights-IsShort = omega arith

graph-IsShort : IsShort (reference_graph hundredths)
unfolding reference_graph build_tensor_vi build_int_attr build_tensor_proto_f32 raw_data write_dims
    write_int64s write_messages write_strings build_node write_message write_int64 write_string
    write_tag write_varint varint_within to_bits be_bytes
graph-IsShort = omega arith

read_message-reference_example :
    (read_message (generate_reference_onnx hundredths) ≡ some (model_fields hundredths))
    × (read_message (reference_graph hundredths) ≡ some (graph_fields hundredths))
read_message-reference_example = read_message-reference hundredths graph-IsShort weights-IsShort

-- Standing for Ed25519: 64 times the letter A.
abbrev sample_sign : List ℕ → List ℕ
sample_sign digest = replicate 64 b'A'

sample_pair : IsKeyPair bundle_library sample_sign
sample_pair = record {
  sized = λ digest. omega arith;
  in_bytes = λ digest. omega arith;
  accepted = λ digest. refl;
}

digest_matches :
    bundle_library.encode_hex (bundle_library.sha256_digest (b'a' ∷ []))
    ≡ map lowercase sample_bundle.onnx.sha256
unfolding lowercase
digest_matches = refl

written_bundle-verified_example :
    verify_bundle_dir bundle_library
      (written_bundle bundle_library sample_sign (b'1' ∷ []) (b'm' ∷ []) (b'a' ∷ []))
      2
    ≡ ok sample_bundle
written_bundle-verified_example =
    written_bundle-verified bundle_library sample_sign (b'1' ∷ []) (b'm' ∷ []) (b'a' ∷ []) 2
      sample_bundle sample_pair refl refl refl (omega arith) digest_matches
