-- ===== src/Npu/Onnx/Messages.antt =====
-- What the builders' messages hold, as the independent reader finds it.
use kavach_npu.Prelude.{
  ℕ, ◌≡◌, ◌<◌, ◌^◌, refl, sym, ap, ◌∙◌, List, [], ◌∷◌, ◌++◌, map, some, length, All, All-append,
  arith,
}
use kavach_npu.Prelude.Float.{Float}
use kavach_npu.Prelude.Int.{ℤ, pos, to_bits, to_bits_lt}
use kavach_npu.Prelude.Text.{codes}
use kavach_npu.Npu.Proto.{
  varint_within, write_varint, write_tag, write_int64, write_string, write_message,
}
use kavach_npu.Npu.Proto.Fields.{Field, int, bytes, read_message}
use kavach_npu.Npu.Proto.RoundTrip.{write_field, write_fields, Fits, read_message-write_fields}
use kavach_npu.Npu.Onnx.{
  io_nodes, net_nodes, audit_nodes, reference_inputs, reference_outputs, reference_weights,
  build_int_attr, build_tensor_vi, write_dims, write_strings, write_messages, build_node,
  reference_graph, generate_reference_onnx,
}

write_fields-append :
    (w : List ℕ) (fs gs : List Field)
    → write_fields w (fs ++ gs) ≡ write_fields (write_fields w fs) gs
unfolding write_fields
write_fields-append w [] gs = refl
write_fields-append w (f ∷ fs) gs = write_fields-append (write_field w f) fs gs

-- A 64-bit length.
abbrev pub IsShort : List ℕ → Type 0
IsShort s = length s < 2 ^ 64

-- Fields of one number.
abbrev pub fields_of : ℕ → List (List ℕ) → List Field
fields_of number ss = map (bytes number) ss

write_strings-fields :
    (w : List ℕ) (number : ℕ) (ss : List (List ℕ))
    → write_strings w number ss ≡ write_fields w (fields_of number ss)
unfolding write_strings write_fields write_field
write_strings-fields w number [] = refl
write_strings-fields w number (s ∷ ss) = write_strings-fields (write_string w number s) number ss

write_messages-fields :
    (w : List ℕ) (number : ℕ) (ms : List (List ℕ))
    → write_messages w number ms ≡ write_fields w (fields_of number ms)
unfolding write_messages write_message write_fields write_field write_string
write_messages-fields w number [] = refl
write_messages-fields w number (m ∷ ms) = write_messages-fields (write_message w number m) number ms

fields_of-Fits :
    (number : ℕ) (ss : List (List ℕ))
    → number < 2 ^ 32
    → All IsShort ss
    → All Fits (fields_of number ss)
fields_of-Fits number [] h a = tt
fields_of-Fits number (s ∷ ss) h (p, a) = ((h, p), fields_of-Fits number ss h a)

-- A node's fields, as the writer writes them.
abbrev pub node_fields :
    List ℕ → List (List ℕ) → List (List ℕ) → List ℕ → List (List ℕ) → List Field
node_fields op_type inputs outputs name attrs =
    fields_of 1 inputs
    ++ (fields_of 2 outputs ++ (bytes 3 name ∷ bytes 4 op_type ∷ fields_of 5 attrs))

build_node-fields :
    (op_type : List ℕ) (inputs outputs : List (List ℕ)) (name : List ℕ) (attrs : List (List ℕ))
    → build_node op_type inputs outputs name attrs
      ≡ write_fields [] (node_fields op_type inputs outputs name attrs)
unfolding build_node write_fields write_field
build_node-fields op_type inputs outputs name attrs =
    let last : List Field = bytes 3 name ∷ bytes 4 op_type ∷ fields_of 5 attrs in
    write_messages-fields
      (write_string (write_string (write_strings (write_strings [] 1 inputs) 2 outputs) 3 name) 4
        op_type)
      5 attrs
    ∙ ap (λ w. write_fields w last)
        (ap (λ w. write_strings w 2 outputs) (write_strings-fields [] 1 inputs)
          ∙ write_strings-fields (write_fields [] (fields_of 1 inputs)) 2 outputs)
    ∙ sym (write_fields-append (write_fields [] (fields_of 1 inputs)) (fields_of 2 outputs) last)
    ∙ sym (write_fields-append [] (fields_of 1 inputs) (fields_of 2 outputs ++ last))

-- A node reads back as its inputs, its outputs, its name, its operator and its attributes, in the
-- fields that ONNX gives them, whatever they hold, if each is shorter than 2^64 bytes.
read_message-build_node :
    (op_type : List ℕ) (inputs outputs : List (List ℕ)) (name : List ℕ) (attrs : List (List ℕ))
    → IsShort op_type
    → All IsShort inputs
    → All IsShort outputs
    → IsShort name
    → All IsShort attrs
    → read_message (build_node op_type inputs outputs name attrs)
      ≡ some (node_fields op_type inputs outputs name attrs)
read_message-build_node op_type inputs outputs name attrs o is os n as' =
    ap read_message (build_node-fields op_type inputs outputs name attrs)
    ∙ read_message-write_fields (node_fields op_type inputs outputs name attrs) (
        All-append Fits (fields_of 1 inputs)
          (fields_of 2 outputs ++ (bytes 3 name ∷ bytes 4 op_type ∷ fields_of 5 attrs))
          (fields_of-Fits 1 inputs (omega arith) is)
          (All-append Fits (fields_of 2 outputs)
            (bytes 3 name ∷ bytes 4 op_type ∷ fields_of 5 attrs)
            (fields_of-Fits 2 outputs (omega arith) os)
            ((omega arith, n), ((omega arith, o), fields_of-Fits 5 attrs (omega arith) as'))))

-- An attribute has its number in field 3, which is the one for integers.
pub read_message-build_int_attr :
    (name : List ℕ) (val : ℤ)
    → IsShort name
    → read_message (build_int_attr name val)
      ≡ some (bytes 1 name ∷ int 3 (to_bits val) ∷ int 20 2 ∷ [])
unfolding build_int_attr write_fields write_field write_int64 to_bits
read_message-build_int_attr name val n =
    read_message-write_fields (bytes 1 name ∷ int 3 (to_bits val) ∷ int 20 2 ∷ [])
      ((omega arith, n), ((omega arith, to_bits_lt val), ((omega arith, omega arith), tt)))

module _ (s : Float) where
  -- The model's fields: the version, the producer, the graph and the operator set.
  abbrev pub model_fields : List Field
  model_fields =
      int 1 9
      ∷ bytes 2 (codes "kavach-pack")
      ∷ bytes 3 (codes "0.1.0")
      ∷ bytes 4 (codes "ai.kavach")
      ∷ int 5 1
      ∷ bytes 6 (codes "Kavach-NPU Multitask INT8 Computational Graph")
      ∷ bytes 7 (reference_graph s)
      ∷ bytes 8 (write_int64 (write_string [] 1 []) 2 (pos 21))
      ∷ []

  -- The graph's fields: its name, its text, three inputs, three weights, three outputs, and the
  -- twelve nodes of the three heads.
  abbrev pub graph_fields : List Field
  graph_fields =
      bytes 2 (codes "kavach_multitask_graph")
      ∷ bytes 10 (codes "Kavach Multi-Task INT8 Detection Graph")
      ∷ (fields_of 11 reference_inputs
          ++ (fields_of 5 (reference_weights s)
              ++ (fields_of 12 reference_outputs
                  ++ (fields_of 1 io_nodes ++ (fields_of 1 net_nodes ++ fields_of 1 audit_nodes)))))

  graph_written : reference_graph s ≡ write_fields [] graph_fields
  unfolding reference_graph write_fields write_field write_messages write_message write_string
  graph_written = refl

  opset-IsShort : IsShort (write_int64 (write_string [] 1 []) 2 (pos 21))
  unfolding write_int64 write_string write_tag write_varint varint_within to_bits
  opset-IsShort = omega arith

  inputs-IsShort : All IsShort reference_inputs
  unfolding build_tensor_vi write_dims write_message write_int64 write_string write_tag write_varint
      varint_within to_bits
  inputs-IsShort = omega arith

  outputs-IsShort : All IsShort reference_outputs
  unfolding build_tensor_vi write_dims write_message write_int64 write_string write_tag write_varint
      varint_within to_bits
  outputs-IsShort = omega arith

  nodes-IsShort : All IsShort (io_nodes ++ (net_nodes ++ audit_nodes))
  unfolding build_node build_int_attr write_strings write_messages write_message write_int64
      write_string write_tag write_varint varint_within to_bits
  nodes-IsShort = omega arith

  -- The reference model reads back as a model of the expected version, with operator set 21 and
  -- the graph, and the graph as its inputs, weights, outputs and nodes, if the graph is shorter than
  -- 2^64 bytes and each of the weights is.
  pub read_message-reference :
      IsShort (reference_graph s)
      → All IsShort (reference_weights s)
      → (read_message (generate_reference_onnx s) ≡ some model_fields)
        × (read_message (reference_graph s) ≡ some graph_fields)
  unfolding generate_reference_onnx write_fields write_field write_int64 write_string write_message
      to_bits
  read_message-reference h w = (
    read_message-write_fields model_fields (omega (arith, opset-IsShort)),
    ap read_message graph_written
        ∙ read_message-write_fields graph_fields
            (omega (arith, inputs-IsShort, outputs-IsShort, nodes-IsShort)),
  )
