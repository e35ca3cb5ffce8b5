-- ===== src/Core/Allowlist.antt =====
-- crates/kavach-core/src/allowlist.rs: the signed allowlist, its verification and its matching.
-- The JSON and hex parsers and the strict Ed25519 check under the key are arguments. A string is the
-- list of its bytes, but for `signature`, which is read by the character: its code points.
pub mod Verify
pub mod Match
use kavach_npu.Prelude.{
  ℕ, Bool, true, false, not, ◌&&◌, ◌||◌, List, [], ◌∷◌, Option, none, some, Result, ok, err, ◌>>=◌,
  ◌>>◌, reject_if, map_err, ltb, ◌==◌, if◌then◌else◌, length, any,
}
use kavach_npu.Prelude.Bytes.{bytes_eq}
use kavach_npu.Prelude.Ascii.{eq_ignore_ascii_case}
use kavach_npu.Core.Base64.{decode_base64}
use kavach_npu.Core.Contracts.{ArtifactVersion}

abbrev pub max_allowlist_entries : ℕ
max_allowlist_entries = 4096

abbrev pub max_path_scope_entries : ℕ
max_path_scope_entries = 32

abbrev pub max_path_length_bytes : ℕ
max_path_length_bytes = 1024

-- "suspend_and_alert"
abbrev pub permitted_action : List ℕ
permitted_action =
    b's' ∷ b'u' ∷ b's' ∷ b'p' ∷ b'e' ∷ b'n' ∷ b'd' ∷ b'_' ∷ b'a' ∷ b'n' ∷ b'd' ∷ b'_' ∷ b'a' ∷ b'l'
    ∷ b'e' ∷ b'r' ∷ b't' ∷ []

pub data AllowlistError : Type 0 where
  parse_error : List ℕ → AllowlistError
  unsupported_major_version : ℕ → AllowlistError
  signature_verification_failed : List ℕ → AllowlistError
  digest_mismatch : (expected actual : List ℕ) → AllowlistError
  entry_count_exceeded : ℕ → AllowlistError
  path_scope_exceeded : (entry_id : List ℕ) (count : ℕ) → AllowlistError
  path_length_exceeded : (entry_id : List ℕ) (len : ℕ) → AllowlistError
  disallowed_action : (entry_id action : List ℕ) → AllowlistError
  artifact_expired : (expires_at : List ℕ) → AllowlistError

pub record AuthenticodeIdentity : Type 0 where
  pub publisher_subject : List ℕ
  pub thumbprint_sha256 : List ℕ

pub record AllowlistEntry : Type 0 where
  pub entry_id : List ℕ
  pub image_sha256 : List ℕ
  pub authenticode : Option AuthenticodeIdentity
  pub product_name : List ℕ
  pub allowed_actions : List (List ℕ)
  pub path_scope : List (List ℕ)
  pub expires_at : List ℕ

pub record AllowlistManifest : Type 0 where
  pub artifact_version : ArtifactVersion
  pub allowlist_id : List ℕ
  pub issued_at : List ℕ
  pub expires_at : List ℕ
  pub policy_generation : ℕ
  pub signed_payload_sha256 : List ℕ
  pub key_id : List ℕ
  pub entries : List AllowlistEntry
  pub signature : List ℕ

-- Step 2 of `matches`: a signer is demanded only where the entry names one.
unfoldable pub signer_matches : Option AuthenticodeIdentity → Option AuthenticodeIdentity → Bool
signer_matches none actual = true
signer_matches (some required) none = false
signer_matches (some required) (some actual) =
    if not (bytes_eq required.publisher_subject actual.publisher_subject)
      || not (eq_ignore_ascii_case required.thumbprint_sha256 actual.thumbprint_sha256)
    then false
    else true

-- Step 3 of `matches`: a path is demanded only where the entry has a scope.
unfoldable pub path_matches : List (List ℕ) → Option (List ℕ) → Bool
path_matches [] target_path = true
path_matches (scope ∷ scopes) none = false
path_matches (scope ∷ scopes) (some path) = any (λ s. eq_ignore_ascii_case s path) (scope ∷ scopes)

unfoldable pub matches :
    AllowlistEntry → List ℕ → Option AuthenticodeIdentity → Option (List ℕ) → Bool
matches e image signer path =
    if not (eq_ignore_ascii_case e.image_sha256 image)
    then false
    else if not (signer_matches e.authenticode signer)
    then false
    else if not (path_matches e.path_scope path)
    then false
    else true

unfoldable pub is_exempt :
    AllowlistManifest → List ℕ → Option AuthenticodeIdentity → Option (List ℕ) → Bool
is_exempt m image signer path = any (λ e. matches e image signer path) m.entries

unfoldable pub check_paths : List ℕ → List (List ℕ) → Result AllowlistError (Unit {0})
check_paths entry_id [] = ok tt
check_paths entry_id (p ∷ paths) =
    let rest = check_paths entry_id paths in
    reject_if (ltb max_path_length_bytes (length p)) (path_length_exceeded entry_id (length p))
    >> rest

unfoldable pub check_actions : List ℕ → List (List ℕ) → Result AllowlistError (Unit {0})
check_actions entry_id [] = ok tt
check_actions entry_id (action ∷ actions) =
    let rest = check_actions entry_id actions in
    reject_if (not (bytes_eq action permitted_action)) (disallowed_action entry_id action) >> rest

-- The body of the loop over `manifest.entries`.
unfoldable pub check_entry : AllowlistEntry → Result AllowlistError (Unit {0})
check_entry e =
    reject_if (ltb max_path_scope_entries (length e.path_scope))
      (path_scope_exceeded e.entry_id (length e.path_scope))
    >> check_paths e.entry_id e.path_scope
    >> check_actions e.entry_id e.allowed_actions

unfoldable pub check_entries : List AllowlistEntry → Result AllowlistError (Unit {0})
check_entries [] = ok tt
check_entries (e ∷ entries) = let rest = check_entries entries in check_entry e >> rest

-- The libraries that `parse_and_verify` calls, errors as their messages.
pub record Libraries : Type 0 where
  pub parse_json : List ℕ → Result (List ℕ) AllowlistManifest
  pub decode_hex : List ℕ → Result (List ℕ) (List ℕ)
  -- `verifying_key.verify_strict(message, signature)`
  pub verify_strict : List ℕ → List ℕ → Result (List ℕ) (Unit {0})

module _ (lib : Libraries) where
  -- The second half: the signature over the bytes of `signed_payload_sha256`.
  unfoldable pub verify_signature : AllowlistManifest → Result AllowlistError (Unit {0})
  verify_signature m = do
    digest ← map_err parse_error (lib.decode_hex m.signed_payload_sha256)
    signature ← map_err (λ c. signature_verification_failed (c ∷ [])) (decode_base64 m.signature)
    reject_if (not (length signature == 64)) (signature_verification_failed [])
    map_err signature_verification_failed (lib.verify_strict digest signature)

  unfoldable pub parse_and_verify : List ℕ → Result AllowlistError AllowlistManifest
  parse_and_verify json_bytes = do
    m ← map_err parse_error (lib.parse_json json_bytes)
    reject_if (not (m.artifact_version.major == 1))
        (unsupported_major_version m.artifact_version.major)
    reject_if (ltb max_allowlist_entries (length m.entries))
        (entry_count_exceeded (length m.entries))
    check_entries m.entries
    verify_signature m
    ok m
