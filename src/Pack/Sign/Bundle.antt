-- ===== src/Pack/Sign/Bundle.antt =====
-- tools/kavach-pack/src/main.rs: the verification of a bundle that the tool writes.
use kavach_npu.Prelude.{ℕ, ◌≡◌, ◌≤◌, refl, ap, List, some, map, ok, err, if◌then◌else◌, length, All}
use kavach_npu.Prelude.Bytes.{IsByte, bytes_eq_refl}
use kavach_npu.Prelude.Ascii.{lowercase}
use kavach_npu.Core.Base64.{encode_base64}
use kavach_npu.Core.Base64.RoundTrip.{decode_base64-encode_base64}
use kavach_npu.Core.Manifest.{ModelManifest, Libraries, verify_bundle_dir}
use kavach_npu.Core.Manifest.Verify.{verify_bundle_dir-ok_iff}
use kavach_npu.Pack.Sign.{manifest_signature, written_bundle}

module _ (lib : Libraries) (sign : List ℕ → List ℕ) where
  -- What Ed25519 promises of a key pair: 64 bytes, which the public key accepts.
  pub record IsKeyPair : Type 0 where
    pub sized : (digest : List ℕ) → length (sign digest) ≡ 64
    pub in_bytes : (digest : List ℕ) → All IsByte (sign digest)
    pub accepted : (digest : List ℕ) → lib.verify_strict digest (sign digest) ≡ ok tt

  -- A bundle that the tool writes is verified under the key that it signed it with, if the manifest
  -- parses, names the model's file and its digest, has a supported version and is recent enough.
  pub written_bundle-verified :
      (json name onnx : List ℕ) (minimum : ℕ) (m : ModelManifest)
      → IsKeyPair
      → lib.parse_json json ≡ ok m
      → lib.onnx_file json ≡ ok (some name)
      → m.artifact_version.major ≡ 1
      → minimum ≤ m.rollback_generation
      → lib.encode_hex (lib.sha256_digest onnx) ≡ map lowercase m.onnx.sha256
      → verify_bundle_dir lib (written_bundle lib sign json name onnx) minimum ≡ ok m
  unfolding written_bundle manifest_signature
  written_bundle-verified json name onnx minimum m pair parsed named version recent digest =
      let signature = sign (lib.sha256_digest json) in
      (verify_bundle_dir-ok_iff lib (written_bundle lib sign json name onnx) minimum m).1 (
        json,
        encode_base64 signature,
        name,
        onnx,
        refl,
        refl,
        named,
        ap (λ b. if b then ok onnx else err name) (bytes_eq_refl name),
        record {
          parsed = parsed;
          version = version;
          recent = recent;
          signed = (
            signature,
            decode_base64-encode_base64 signature (pair.in_bytes (lib.sha256_digest json)),
            pair.sized (lib.sha256_digest json),
            pair.accepted (lib.sha256_digest json),
          );
          digest = digest;
        },
      )
