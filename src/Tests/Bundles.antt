-- ===== src/Tests/Bundles.antt =====
-- Bundle verification on concrete inputs.
use kavach_npu.Prelude.{ℕ, ◌≡◌, ◌↔◌, List, [], ◌∷◌, some, ok, replicate}
use kavach_npu.Core.Manifest.{ModelManifest, Libraries, BundleDir, verify_bundle_dir}
use kavach_npu.Core.Manifest.Verify.{IsTrusted, verify_bundle_dir-ok_iff}

abbrev pub sample_bundle : ModelManifest
sample_bundle = record {
  artifact_version = record { major = 1; minor = 0 };
  bundle_version = [];
  rollback_generation = 3;
  created_at = [];
  key_id = [];
  onnx = record { file = b'm' ∷ []; sha256 = b'A' ∷ []; opset = 13; quantization = [] };
  tensors = [];
  compatibility = record {
    detector = record { min_inclusive = []; max_exclusive = [] };
    onnx_runtime = record { min_inclusive = []; max_exclusive = [] };
  };
  evaluation_report_sha256 = [];
  sbom_sha256 = [];
}

abbrev pub bundle_library : Libraries
bundle_library = record {
  parse_json = λ text. ok sample_bundle;
  onnx_file = λ text. ok (some (b'm' ∷ []));
  sha256_digest = λ bytes. bytes;
  encode_hex = λ bytes. bytes;
  verify_strict = λ message signature. ok tt;
}

abbrev pub sample_dir : BundleDir
sample_dir = record {
  read_manifest = ok (b'1' ∷ []);
  read_signature = ok (replicate 86 b'A');
  read_file = λ name. ok (b'a' ∷ []);
}

verify_bundle_dir-ok_iff_example :
    (verify_bundle_dir bundle_library sample_dir 2 ≡ ok sample_bundle) ↔ (
      (json : List ℕ) × (sig_str : List ℕ) × (name : List ℕ) × (onnx : List ℕ)
      × (sample_dir.read_manifest ≡ ok json)
      × (sample_dir.read_signature ≡ ok sig_str)
      × (bundle_library.onnx_file json ≡ ok (some name))
      × (sample_dir.read_file name ≡ ok onnx)
      × IsTrusted bundle_library json sig_str onnx 2 sample_bundle)
verify_bundle_dir-ok_iff_example =
    verify_bundle_dir-ok_iff bundle_library sample_dir 2 sample_bundle
