-- ===== src/Pack/Sign.antt =====
-- tools/kavach-pack/src/main.rs: the command line's arguments, the keys' files, and the signature of a
-- manifest. The signing key is the function that signs under it; files are arguments.
pub mod Bundle
use kavach_npu.Prelude.{
  ℕ, ◌≡◌, Bool, true, false, List, [], ◌∷◌, Option, none, some, Result, ok, err, ◌>>=◌, map_err,
  ◌==◌, if◌then◌else◌, length,
}
use kavach_npu.Prelude.Bytes.{bytes_eq}
use kavach_npu.Core.Base64.{encode_base64, trim_start, trim_end}
use kavach_npu.Core.Manifest.{ModelManifest, Libraries, BundleDir, DegradedReason, bundle_missing}

-- The first place of the flag that has an argument behind it.
unfoldable pub parse_arg : List (List ℕ) → List ℕ → Option (List ℕ)
parse_arg [] flag = none
parse_arg (arg ∷ []) flag = none
parse_arg (arg ∷ (value ∷ args)) flag =
    if bytes_eq arg flag then some value else parse_arg (value ∷ args) flag

-- What a key's file may hold: 32 bytes, or their 64 digits as text between white space.
module _ (utf8 : List ℕ → Option (List ℕ)) (hex_decode : List ℕ → Result (List ℕ) (List ℕ)) where
  unfoldable pub key_of_text : Option (List ℕ) → Result (List ℕ) (List ℕ)
  key_of_text none = err []
  key_of_text (some text) =
      let clean = trim_end (trim_start text) in
      if length clean == 64 then hex_decode clean else err []

  unfoldable pub load_key : Result (List ℕ) (List ℕ) → Result (List ℕ) (List ℕ)
  load_key file = do
    contents ← file
    if length contents == 32 then ok contents else key_of_text (utf8 contents)

module _ (lib : Libraries) (sign : List ℕ → List ℕ) where
  -- `encode_base64(&signing_key.sign(&digest).to_bytes())`
  unfoldable pub manifest_signature : List ℕ → List ℕ
  manifest_signature json = encode_base64 (sign (lib.sha256_digest json))

  -- `sign`: the manifest has to parse before it is signed.
  unfoldable pub cmd_sign : Result (List ℕ) (List ℕ) → Result (List ℕ) (List ℕ)
  cmd_sign manifest_file = do
    json ← manifest_file
    parsed ← lib.parse_json json
    ok (manifest_signature json)

  -- The directory that `create_dev_bundle` writes: the manifest, its signature, and the model.
  unfoldable pub written_bundle : List ℕ → List ℕ → List ℕ → BundleDir
  written_bundle json name onnx = record {
    read_manifest = ok json;
    read_signature = ok (manifest_signature json);
    read_file = λ file. if bytes_eq file name then ok onnx else err file;
  }
