-- ===== src/Core/Manifest/Verify.antt =====
-- crates/kavach-core/src/manifest.rs: which bundles are verified.
use kavach_npu.Prelude.{
  ℕ, ◌≡◌, ◌≤◌, ◌↔◌, subst, inl, inr, List, none, some, map, ok, Result-cases, length, arith,
}
use kavach_npu.Prelude.Bytes.{bytes_eq_iff}
use kavach_npu.Prelude.Ascii.{lowercase}
use kavach_npu.Core.Base64.{decode_base64}
use kavach_npu.Core.Manifest.{
  ModelManifest, Libraries, BundleDir, verify_detached, verify_onnx, verify_manifest_and_onnx,
  verify_bundle_dir,
}

module _ (lib : Libraries) where
  -- The text is base64 of 64 bytes that the key's owner made over the manifest's digest.
  abbrev pub IsSigned : List ℕ → List ℕ → Type 0
  IsSigned json sig_str =
      (signature : List ℕ) × (decode_base64 sig_str ≡ ok signature)
      × (length signature ≡ 64)
      × (lib.verify_strict (lib.sha256_digest json) signature ≡ ok tt)

  -- What the verification asks of a bundle. ADR 004 and docs/schemas/model-manifest-v1.md ask for more:
  -- the key's standing, the tensors, the operator set, the quantization, the compatible versions, the
  -- file's name and the canonical text are not looked at.
  pub record IsTrusted (json sig_str onnx : List ℕ) (minimum : ℕ) (m : ModelManifest) : Type 0 where
    pub parsed : lib.parse_json json ≡ ok m
    pub version : m.artifact_version.major ≡ 1
    pub recent : minimum ≤ m.rollback_generation
    pub signed : IsSigned json sig_str
    pub digest : lib.encode_hex (lib.sha256_digest onnx) ≡ map lowercase m.onnx.sha256

  verify_detached-ok_iff :
      (json sig_str : List ℕ) → (verify_detached lib json sig_str ≡ ok tt) ↔ IsSigned json sig_str
  unfolding verify_detached
  verify_detached-ok_iff json sig_str = (
    λ h. elim (Result-cases (decode_base64 sig_str)) [
      | inl (signature, e) ↦
          elim (Result-cases (lib.verify_strict (lib.sha256_digest json) signature)) [
            | inl (u, f) ↦ (signature, e, ground (arith, e, f), f)
            | inr (x, f) ↦ ground (arith, e, f)
          ]
      | inr (x, e) ↦ ground (arith, e)
    ],
    λ (signature, e, l, f). ground (arith, e, l, f),
  )

  verify_onnx-ok_iff :
      (m : ModelManifest) (onnx : List ℕ)
      → (verify_onnx lib m onnx ≡ ok tt)
        ↔ (lib.encode_hex (lib.sha256_digest onnx) ≡ map lowercase m.onnx.sha256)
  unfolding verify_onnx
  verify_onnx-ok_iff m onnx =
      ground (
        arith,
        bytes_eq_iff (lib.encode_hex (lib.sha256_digest onnx)) (map lowercase m.onnx.sha256),
      )

  -- A manifest is returned exactly when the text parses to it, its version is supported, its
  -- generation is not below the minimum, the signature over the text's digest verifies, and the
  -- model's digest is the one that it names.
  verify_manifest-ok_iff :
      (json sig_str onnx : List ℕ) (minimum : ℕ) (m : ModelManifest)
      → (verify_manifest_and_onnx lib json sig_str onnx minimum ≡ ok m)
        ↔ IsTrusted json sig_str onnx minimum m
  unfolding verify_manifest_and_onnx
  verify_manifest-ok_iff json sig_str onnx minimum m = (
    λ h. elim (Result-cases (lib.parse_json json)) [
      | inl (n, e) ↦ elim (Result-cases (verify_detached lib json sig_str)) [
        | inl (u, f) ↦ elim (Result-cases (verify_onnx lib n onnx)) [
          | inl (w, g) ↦
              let same : n ≡ m = ground (arith, e, f, g) in
              subst (IsTrusted json sig_str onnx minimum) same (record {
                parsed = e;
                version = ground (arith, e);
                recent = ground (arith, e);
                signed = (verify_detached-ok_iff json sig_str).0 f;
                digest = (verify_onnx-ok_iff n onnx).0 g;
              })
          | inr (x, g) ↦ ground (arith, e, f, g)
        ]
        | inr (x, f) ↦ ground (arith, e, f)
      ]
      | inr (x, e) ↦ ground (arith, e)
    ],
    λ v.
        let f = (verify_detached-ok_iff json sig_str).1 v.signed in
        let g = (verify_onnx-ok_iff m onnx).1 v.digest in
        ground (arith, v.parsed, v.version, v.recent, f, g),
  )

  -- A directory is verified exactly when it holds a manifest, its signature and the model that the
  -- manifest's text names, the text parses to the manifest with version 1 and a generation not below
  -- the minimum, the signature over the text's digest verifies, and the model's digest is the one
  -- that the manifest names. What else the manifest holds makes no difference.
  pub verify_bundle_dir-ok_iff :
      (dir : BundleDir) (minimum : ℕ) (m : ModelManifest)
      → (verify_bundle_dir lib dir minimum ≡ ok m) ↔ (
          (json : List ℕ) × (sig_str : List ℕ) × (name : List ℕ) × (onnx : List ℕ)
          × (dir.read_manifest ≡ ok json)
          × (dir.read_signature ≡ ok sig_str)
          × (lib.onnx_file json ≡ ok (some name))
          × (dir.read_file name ≡ ok onnx)
          × IsTrusted json sig_str onnx minimum m)
  unfolding verify_bundle_dir
  verify_bundle_dir-ok_iff dir minimum m = (
    λ h. elim (Result-cases dir.read_manifest) [
      | inl (json, e) ↦ elim (Result-cases dir.read_signature) [
        | inl (sig_str, f) ↦ elim (Result-cases (lib.onnx_file json)) [
          | inl (some name, g) ↦ elim (Result-cases (dir.read_file name)) [
            | inl (onnx, k) ↦
                let done : verify_manifest_and_onnx lib json sig_str onnx minimum ≡ ok m =
                  ground (arith, e, f, g, k) in
                (
                  json,
                  sig_str,
                  name,
                  onnx,
                  e,
                  f,
                  g,
                  k,
                  (verify_manifest-ok_iff json sig_str onnx minimum m).0 done,
                )
            | inr (x, k) ↦ absurd (ground (arith, e, f, g, k))
          ]
          | inl (none, g) ↦ absurd (ground (arith, e, f, g))
          | inr (x, g) ↦ absurd (ground (arith, e, f, g))
        ]
        | inr (x, f) ↦ absurd (ground (arith, e, f))
      ]
      | inr (x, e) ↦ absurd (ground (arith, e))
    ],
    λ (json, sig_str, name, onnx, e, f, g, k, v).
        ground (arith, e, f, g, k, (verify_manifest-ok_iff json sig_str onnx minimum m).1 v),
  )
