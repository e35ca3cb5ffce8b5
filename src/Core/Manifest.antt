-- ===== src/Core/Manifest.antt =====
-- crates/kavach-core/src/manifest.rs: the verification of a model bundle.
-- The JSON parser, SHA-256, the hex encoder, the strict Ed25519 check under the key and the files of
-- the bundle's directory are arguments. The signature's text is the list of its code points, any
-- other string that of its bytes.
pub mod Verify
use kavach_npu.Prelude.{
  ℕ, Bool, true, false, not, List, [], ◌∷◌, Option, none, some, map, Result, ok, err, ◌>>=◌, ◌>>◌,
  reject_if, map_err, ltb, ◌==◌, length,
}
use kavach_npu.Prelude.Bytes.{bytes_eq}
use kavach_npu.Prelude.Ascii.{lowercase}
use kavach_npu.Core.Contracts.{ArtifactVersion}
use kavach_npu.Core.Base64.{decode_base64}

pub data DegradedReason : Type 0 where
  bundle_missing manifest_schema_invalid manifest_signature_invalid : List ℕ → DegradedReason
  onnx_hash_mismatch : (expected actual : List ℕ) → DegradedReason
  runtime_incompatible : List ℕ → DegradedReason
  rollback_rejected : (minimum actual : ℕ) → DegradedReason
  key_revoked : List ℕ → DegradedReason

pub record OnnxMetadata : Type 0 where
  pub file : List ℕ
  pub sha256 : List ℕ
  pub opset : ℕ
  pub quantization : List ℕ

pub record TensorContract : Type 0 where
  pub name : List ℕ
  pub direction : List ℕ
  pub dtype : List ℕ
  pub shape : List ℕ

pub record SemverRange : Type 0 where
  pub min_inclusive : List ℕ
  pub max_exclusive : List ℕ

pub record CompatibilityMatrix : Type 0 where
  pub detector : SemverRange
  pub onnx_runtime : SemverRange

pub record ModelManifest : Type 0 where
  pub artifact_version : ArtifactVersion
  pub bundle_version : List ℕ
  pub rollback_generation : ℕ
  pub created_at : List ℕ
  pub key_id : List ℕ
  pub onnx : OnnxMetadata
  pub tensors : List TensorContract
  pub compatibility : CompatibilityMatrix
  pub evaluation_report_sha256 : List ℕ
  pub sbom_sha256 : List ℕ

-- The libraries that the verification calls, errors as their messages.
pub record Libraries : Type 0 where
  pub parse_json : List ℕ → Result (List ℕ) ModelManifest
  -- `pointer("/onnx/file")` of the parsed value, where it is a string.
  pub onnx_file : List ℕ → Result (List ℕ) (Option (List ℕ))
  pub sha256_digest : List ℕ → List ℕ
  pub encode_hex : List ℕ → List ℕ
  -- `verifying_key.verify_strict(message, signature)`
  pub verify_strict : List ℕ → List ℕ → Result (List ℕ) (Unit {0})

-- The files beneath the bundle's directory, by their name; a text is read by the character.
pub record BundleDir : Type 0 where
  pub read_manifest : Result (List ℕ) (List ℕ)
  pub read_signature : Result (List ℕ) (List ℕ)
  pub read_file : List ℕ → Result (List ℕ) (List ℕ)

-- `ok_or_else`
abbrev pub name_or : Option (List ℕ) → Result DegradedReason (List ℕ)
name_or none = err (manifest_schema_invalid [])
name_or (some name) = ok name

module _ (lib : Libraries) where
  -- Step 4: the signature over the digest of the manifest's bytes.
  unfoldable pub verify_detached : List ℕ → List ℕ → Result DegradedReason (Unit {0})
  verify_detached json sig_str = do
    signature ← map_err (λ c. manifest_signature_invalid (c ∷ [])) (decode_base64 sig_str)
    reject_if (not (length signature == 64)) (manifest_signature_invalid [])
    map_err manifest_signature_invalid (lib.verify_strict (lib.sha256_digest json) signature)

  -- Step 5: the digest of the model.
  unfoldable pub verify_onnx : ModelManifest → List ℕ → Result DegradedReason (Unit {0})
  verify_onnx m onnx =
      reject_if
        (not (bytes_eq (lib.encode_hex (lib.sha256_digest onnx)) (map lowercase m.onnx.sha256)))
        (onnx_hash_mismatch (map lowercase m.onnx.sha256) (lib.encode_hex (lib.sha256_digest onnx)))

  unfoldable pub verify_manifest_and_onnx :
      List ℕ → List ℕ → List ℕ → ℕ → Result DegradedReason ModelManifest
  verify_manifest_and_onnx json sig_str onnx minimum = do
    m ← map_err manifest_schema_invalid (lib.parse_json json)
    reject_if (not (m.artifact_version.major == 1)) (manifest_schema_invalid [])
    reject_if (ltb m.rollback_generation minimum) (rollback_rejected minimum m.rollback_generation)
    verify_detached json sig_str
    verify_onnx m onnx
    ok m

  unfoldable pub verify_bundle_dir : BundleDir → ℕ → Result DegradedReason ModelManifest
  verify_bundle_dir dir minimum = do
    json ← map_err bundle_missing dir.read_manifest
    sig_str ← map_err bundle_missing dir.read_signature
    meta ← map_err manifest_schema_invalid (lib.onnx_file json)
    name ← name_or meta
    onnx ← map_err bundle_missing (dir.read_file name)
    verify_manifest_and_onnx json sig_str onnx minimum
