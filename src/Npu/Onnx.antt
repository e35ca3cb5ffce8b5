-- ===== src/Npu/Onnx.antt =====
-- crates/kavach-core/src/npu_backend.rs: the builders of the ONNX messages, and the reference model.
-- The weights' floating-point type is an argument.
pub mod Messages
use kavach_npu.Prelude.{ℕ, List, [], ◌∷◌, ◌++◌, length}
use kavach_npu.Prelude.Float.{Float}
use kavach_npu.Prelude.Int.{ℤ, pos}
use kavach_npu.Prelude.Text.{codes}
use kavach_npu.Npu.Proto.{write_varint, write_tag, write_int64, write_string, write_message}

-- `for &d in shape`
unfoldable pub write_dims : List ℕ → List ℤ → List ℕ
write_dims w [] = w
write_dims w (d ∷ shape) = write_dims (write_message w 1 (write_int64 [] 1 d)) shape

unfoldable pub build_tensor_vi : List ℕ → ℤ → List ℤ → List ℕ
build_tensor_vi name elem_type shape =
    let shape_w = write_dims [] shape in
    let tensor_type_w = write_message (write_int64 [] 1 elem_type) 2 shape_w in
    let type_w = write_message [] 1 tensor_type_w in write_message (write_string [] 1 name) 2 type_w

unfoldable pub build_int_attr : List ℕ → ℤ → List ℕ
build_int_attr name val = write_int64 (write_int64 (write_string [] 1 name) 3 val) 20 (pos 2)

-- `for inp in inputs`, `for out in outputs`
unfoldable pub write_strings : List ℕ → ℕ → List (List ℕ) → List ℕ
write_strings w field_number [] = w
write_strings w field_number (s ∷ ss) =
    write_strings (write_string w field_number s) field_number ss

-- `for a in attrs`, and the calls one after the other that add a graph's parts.
unfoldable pub write_messages : List ℕ → ℕ → List (List ℕ) → List ℕ
write_messages w field_number [] = w
write_messages w field_number (m ∷ ms) =
    write_messages (write_message w field_number m) field_number ms

unfoldable pub build_node : List ℕ → List (List ℕ) → List (List ℕ) → List ℕ → List (List ℕ) → List ℕ
build_node op_type inputs outputs name attrs =
    let node = write_strings [] 1 inputs in
    let node = write_strings node 2 outputs in
    let node = write_string node 3 name in
    let node = write_string node 4 op_type in write_messages node 5 attrs

-- `for &d in dims`
unfoldable pub write_int64s : List ℕ → ℕ → List ℤ → List ℕ
write_int64s w field_number [] = w
write_int64s w field_number (d ∷ dims) =
    write_int64s (write_int64 w field_number d) field_number dims

module _ (s : Float) where
  unfoldable pub raw_data : List s.F → List ℕ
  raw_data [] = []
  raw_data (f ∷ fs) = s.to_le_bytes f ++ raw_data fs

  unfoldable pub build_tensor_proto_f32 : List ℕ → List ℤ → List s.F → List ℕ
  build_tensor_proto_f32 name dims floats =
      let tp = write_int64s [] 1 dims in
      let tp = write_int64 tp 2 (pos 1) in
      let tp = write_string tp 8 name in
      let raw = raw_data floats in write_varint (write_tag tp 9 2) (length raw) ++ raw

abbrev pub cast_attr : List ℕ
cast_attr = build_int_attr (codes "to") (pos 1)

abbrev pub flatten_attr : List ℕ
flatten_attr = build_int_attr (codes "axis") (pos 1)

abbrev pub keepdims_attr : List ℕ
keepdims_attr = build_int_attr (codes "keepdims") (pos 1)

abbrev pub reference_inputs : List (List ℕ)
reference_inputs =
    build_tensor_vi (codes "io_input") (pos 3) (pos 1 ∷ pos 10 ∷ pos 4 ∷ [])
    ∷ build_tensor_vi (codes "net_input") (pos 3) (pos 1 ∷ pos 32 ∷ pos 4 ∷ [])
    ∷ build_tensor_vi (codes "audit_input") (pos 3) (pos 1 ∷ pos 16 ∷ pos 4 ∷ [])
    ∷ []

abbrev pub reference_outputs : List (List ℕ)
reference_outputs =
    build_tensor_vi (codes "io_score") (pos 1) (pos 1 ∷ pos 1 ∷ [])
    ∷ build_tensor_vi (codes "net_score") (pos 1) (pos 1 ∷ pos 1 ∷ [])
    ∷ build_tensor_vi (codes "audit_score") (pos 1) (pos 1 ∷ pos 1 ∷ [])
    ∷ []

abbrev pub io_nodes : List (List ℕ)
io_nodes =
    build_node (codes "Cast") (codes "io_input" ∷ []) (codes "io_f" ∷ []) (codes "cast_io")
      (cast_attr ∷ [])
    ∷ build_node (codes "MatMul") (codes "io_f" ∷ codes "w_io" ∷ []) (codes "io_weighted" ∷ [])
        (codes "matmul_io") []
    ∷ build_node (codes "Flatten") (codes "io_weighted" ∷ []) (codes "io_flat" ∷ [])
        (codes "flat_io") (flatten_attr ∷ [])
    ∷ build_node (codes "ReduceMean") (codes "io_flat" ∷ []) (codes "io_score" ∷ [])
        (codes "mean_io") (keepdims_attr ∷ [])
    ∷ []

abbrev pub net_nodes : List (List ℕ)
net_nodes =
    build_node (codes "Cast") (codes "net_input" ∷ []) (codes "net_f" ∷ []) (codes "cast_net")
      (cast_attr ∷ [])
    ∷ build_node (codes "MatMul") (codes "net_f" ∷ codes "w_net" ∷ []) (codes "net_weighted" ∷ [])
        (codes "matmul_net") []
    ∷ build_node (codes "Flatten") (codes "net_weighted" ∷ []) (codes "net_flat" ∷ [])
        (codes "flat_net") (flatten_attr ∷ [])
    ∷ build_node (codes "ReduceMean") (codes "net_flat" ∷ []) (codes "net_score" ∷ [])
        (codes "mean_net") (keepdims_attr ∷ [])
    ∷ []

abbrev pub audit_nodes : List (List ℕ)
audit_nodes =
    build_node (codes "Cast") (codes "audit_input" ∷ []) (codes "audit_f" ∷ []) (codes "cast_audit")
      (cast_attr ∷ [])
    ∷ build_node (codes "MatMul") (codes "audit_f" ∷ codes "w_audit" ∷ [])
        (codes "audit_weighted" ∷ []) (codes "matmul_audit") []
    ∷ build_node (codes "Flatten") (codes "audit_weighted" ∷ []) (codes "audit_flat" ∷ [])
        (codes "flat_audit") (flatten_attr ∷ [])
    ∷ build_node (codes "ReduceMean") (codes "audit_flat" ∷ []) (codes "audit_score" ∷ [])
        (codes "mean_audit") (keepdims_attr ∷ [])
    ∷ []

module _ (s : Float) where
  open s use {lit}

  abbrev pub reference_weights : List (List ℕ)
  reference_weights =
      build_tensor_proto_f32 s (codes "w_io") (pos 4 ∷ pos 1 ∷ [])
        (lit 7 1 ∷ lit 0 1 ∷ lit 0 1 ∷ lit 3 1 ∷ [])
      ∷ build_tensor_proto_f32 s (codes "w_net") (pos 4 ∷ pos 1 ∷ [])
          (lit 10 1 ∷ lit 0 1 ∷ lit 0 1 ∷ lit 0 1 ∷ [])
      ∷ build_tensor_proto_f32 s (codes "w_audit") (pos 4 ∷ pos 1 ∷ [])
          (lit 10 1 ∷ lit 0 1 ∷ lit 0 1 ∷ lit 0 1 ∷ [])
      ∷ []

  unfoldable pub reference_graph : List ℕ
  reference_graph =
      let graph = write_string [] 2 (codes "kavach_multitask_graph") in
      let graph = write_string graph 10 (codes "Kavach Multi-Task INT8 Detection Graph") in
      let graph = write_messages graph 11 reference_inputs in
      let graph = write_messages graph 5 reference_weights in
      let graph = write_messages graph 12 reference_outputs in
      let graph = write_messages graph 1 io_nodes in
      let graph = write_messages graph 1 net_nodes in write_messages graph 1 audit_nodes

  unfoldable pub generate_reference_onnx : List ℕ
  generate_reference_onnx =
      let opset = write_int64 (write_string [] 1 []) 2 (pos 21) in
      let model = write_int64 [] 1 (pos 9) in
      let model = write_string model 2 (codes "kavach-pack") in
      let model = write_string model 3 (codes "0.1.0") in
      let model = write_string model 4 (codes "ai.kavach") in
      let model = write_int64 model 5 (pos 1) in
      let model = write_string model 6 (codes "Kavach-NPU Multitask INT8 Computational Graph") in
      let model = write_message model 7 reference_graph in write_message model 8 opset
