-- ===== src/Pack/Onnx.antt =====
-- tools/kavach-pack/src/onnx_builder.rs: the tool's builders and its reference model. Its writer is
-- the one of crates/kavach-core/src/npu_backend.rs, word for word.
pub mod Attributes
use kavach_npu.Prelude.{ℕ, List, [], ◌∷◌}
use kavach_npu.Prelude.Int.{ℤ, pos}
use kavach_npu.Prelude.Text.{codes}
use kavach_npu.Npu.Proto.{write_int64, write_string, write_message}
use kavach_npu.Npu.Onnx.{write_dims, write_strings, write_messages}

abbrev pub onnx_dtype_float : ℤ
onnx_dtype_float = pos 1

abbrev pub onnx_dtype_int8 : ℤ
onnx_dtype_int8 = pos 3

unfoldable pub build_tensor_value_info : List ℕ → ℤ → List ℤ → List ℕ
build_tensor_value_info name elem_type shape =
    let shape_writer = write_dims [] shape in
    let tensor_type_writer = write_message (write_int64 [] 1 elem_type) 2 shape_writer in
    let type_writer = write_message [] 1 tensor_type_writer in
    write_message (write_string [] 1 name) 2 type_writer

unfoldable pub build_int_attribute : List ℕ → ℤ → List ℕ
build_int_attribute name value =
    write_int64 (write_int64 (write_string [] 1 name) 2 value) 20 (pos 2)

unfoldable pub build_tool_node :
    List ℕ → List (List ℕ) → List (List ℕ) → List ℕ → List (List ℕ) → List ℕ
build_tool_node op_type inputs outputs name attributes =
    let node = write_strings [] 1 inputs in
    let node = write_strings node 2 outputs in
    let node = write_string node 3 name in
    let node = write_string node 4 op_type in write_messages node 5 attributes

abbrev pub cast_to_float : List ℕ
cast_to_float = build_int_attribute (codes "to") onnx_dtype_float

abbrev pub keepdims : List ℕ
keepdims = build_int_attribute (codes "keepdims") (pos 1)

abbrev pub stub_inputs : List (List ℕ)
stub_inputs =
    build_tensor_value_info (codes "io_input") onnx_dtype_int8 (pos 1 ∷ pos 10 ∷ pos 4 ∷ [])
    ∷ build_tensor_value_info (codes "net_input") onnx_dtype_int8 (pos 1 ∷ pos 32 ∷ pos 4 ∷ [])
    ∷ build_tensor_value_info (codes "audit_input") onnx_dtype_int8 (pos 1 ∷ pos 16 ∷ pos 4 ∷ [])
    ∷ []

abbrev pub stub_outputs : List (List ℕ)
stub_outputs =
    build_tensor_value_info (codes "io_score") onnx_dtype_float (pos 1 ∷ pos 1 ∷ [])
    ∷ build_tensor_value_info (codes "net_score") onnx_dtype_float (pos 1 ∷ pos 1 ∷ [])
    ∷ build_tensor_value_info (codes "audit_score") onnx_dtype_float (pos 1 ∷ pos 1 ∷ [])
    ∷ []

abbrev pub stub_nodes : List (List ℕ)
stub_nodes =
    build_tool_node (codes "Cast") (codes "io_input" ∷ []) (codes "io_float" ∷ [])
      (codes "node_io_cast") (cast_to_float ∷ [])
    ∷ build_tool_node (codes "ReduceMean") (codes "io_float" ∷ []) (codes "io_score" ∷ [])
        (codes "node_io_reduce") (keepdims ∷ [])
    ∷ build_tool_node (codes "Cast") (codes "net_input" ∷ []) (codes "net_float" ∷ [])
        (codes "node_net_cast") (cast_to_float ∷ [])
    ∷ build_tool_node (codes "ReduceMean") (codes "net_float" ∷ []) (codes "net_score" ∷ [])
        (codes "node_net_reduce") (keepdims ∷ [])
    ∷ build_tool_node (codes "Cast") (codes "audit_input" ∷ []) (codes "audit_float" ∷ [])
        (codes "node_audit_cast") (cast_to_float ∷ [])
    ∷ build_tool_node (codes "ReduceMean") (codes "audit_float" ∷ []) (codes "audit_score" ∷ [])
        (codes "node_audit_reduce") (keepdims ∷ [])
    ∷ []

unfoldable pub stub_graph : List ℕ
stub_graph =
    let graph = write_string [] 2 (codes "kavach_multitask_graph") in
    let graph = write_string graph 5 (codes "Kavach Multi-Task INT8 Detection Graph") in
    let graph = write_messages graph 11 stub_inputs in
    let graph = write_messages graph 12 stub_outputs in write_messages graph 1 stub_nodes

unfoldable pub generate_kavach_stub_onnx : ℤ → List ℕ
generate_kavach_stub_onnx opset =
    let opset_writer = write_int64 (write_string [] 1 []) 2 opset in
    let model = write_int64 [] 1 (pos 9) in
    let model = write_string model 2 (codes "kavach-pack") in
    let model = write_string model 3 (codes "0.1.0") in
    let model = write_string model 4 (codes "ai.kavach") in
    let model = write_int64 model 5 (pos 1) in
    let model = write_string model 6 (codes "Kavach-NPU Multitask INT8 Computational Graph") in
    let model = write_message model 7 stub_graph in write_message model 8 opset_writer
