-- ===== src/Tests/Policies.antt =====
-- The configuration and the allowlist on concrete inputs.
use kavach_npu.Prelude.{
  ℕ, ◌≡◌, ◌≢◌, ◌↔◌, refl, true, none, some, List, [], ◌∷◌, ok, err, Result, All, Some, replicate,
  arith, if◌then◌else◌,
}
use kavach_npu.Prelude.Bytes.{bytes_eq}
use kavach_npu.Core.Config.{KavachConfig, safe_defaults, load_or_safe_defaults}
use kavach_npu.Core.Config.Bounds.{IsWithinBounds, load_fails_safe}
use kavach_npu.Core.Base64.{decode_base64, decode_chars, digit_value}
use kavach_npu.Core.Allowlist.{
  AllowlistEntry, AllowlistManifest, Libraries, permitted_action, parse_and_verify, is_exempt,
}
use kavach_npu.Core.Allowlist.Verify.{IsBounded, IsVerified, parse_and_verify-ok_iff}
use kavach_npu.Core.Allowlist.Match.{Covers, is_exempt_iff, entries_unsigned}

-- A parser that reads the text "1" as the defaults, and no other.
abbrev sample_parse : List ℕ → Result (List ℕ) KavachConfig
sample_parse text = if bytes_eq text (b'1' ∷ []) then ok safe_defaults else err (b'?' ∷ [])

abbrev sample_content : Result (List ℕ) (List ℕ)
sample_content = ok (b'1' ∷ [])

load_fails_safe_example :
    IsWithinBounds (load_or_safe_defaults sample_parse (ok (b'2' ∷ []))).0
    × (((load_or_safe_defaults sample_parse (ok (b'2' ∷ []))).1 ≢ none)
        → (load_or_safe_defaults sample_parse (ok (b'2' ∷ []))).0 ≡ safe_defaults)
load_fails_safe_example = load_fails_safe sample_parse (ok (b'2' ∷ []))

abbrev sample_entry : AllowlistEntry
sample_entry = record {
  entry_id = b'7' ∷ b'z' ∷ [];
  image_sha256 = b'a' ∷ b'b' ∷ [];
  authenticode =
      some (record { publisher_subject = b'P' ∷ []; thumbprint_sha256 = b'1' ∷ b'1' ∷ [] });
  product_name = b'7' ∷ [];
  allowed_actions = permitted_action ∷ [];
  path_scope = (b'C' ∷ b':' ∷ []) ∷ [];
  expires_at = [];
}

abbrev sample_manifest : AllowlistManifest
sample_manifest = record {
  artifact_version = record { major = 1; minor = 0 };
  allowlist_id = b'a' ∷ [];
  issued_at = [];
  expires_at = [];
  policy_generation = 7;
  signed_payload_sha256 = b'd' ∷ [];
  key_id = b'k' ∷ [];
  entries = sample_entry ∷ [];
  signature = replicate 86 b'A';
}

-- The text "1" is the manifest, any other one the manifest without entries; the one signature is good.
abbrev sample_library : Libraries
sample_library = record {
  parse_json = λ text.
      if bytes_eq text (b'1' ∷ [])
      then ok sample_manifest
      else ok (record sample_manifest { entries = [] });
  decode_hex = λ text. ok text;
  verify_strict = λ digest signature. ok tt;
}

sample-IsBounded : All IsBounded (sample_entry ∷ [])
sample-IsBounded =
    (record { few_paths = omega arith; short_paths = omega arith; permitted = (refl, tt) }, tt)

sample_manifest-IsVerified : IsVerified sample_library (b'1' ∷ []) sample_manifest
unfolding bytes_eq decode_base64 decode_chars digit_value
sample_manifest-IsVerified = record {
  parsed = refl;
  version = refl;
  few_entries = omega arith;
  bounded = sample-IsBounded;
  signed = (b'd' ∷ [], replicate 64 0, refl, refl, refl, refl);
}

parse_and_verify-ok_iff_example :
    (parse_and_verify sample_library (b'1' ∷ []) ≡ ok sample_manifest)
    ↔ IsVerified sample_library (b'1' ∷ []) sample_manifest
parse_and_verify-ok_iff_example = parse_and_verify-ok_iff sample_library (b'1' ∷ []) sample_manifest

sample_accepted : parse_and_verify sample_library (b'1' ∷ []) ≡ ok sample_manifest
sample_accepted =
    (parse_and_verify-ok_iff sample_library (b'1' ∷ []) sample_manifest).1
      sample_manifest-IsVerified

forged_parsed : sample_library.parse_json (b'2' ∷ []) ≡ ok (record sample_manifest { entries = [] })
unfolding bytes_eq
forged_parsed = refl

entries_unsigned_example :
    parse_and_verify sample_library (b'2' ∷ []) ≡ ok (record sample_manifest { entries = [] })
entries_unsigned_example =
    entries_unsigned sample_library (b'1' ∷ []) (b'2' ∷ []) sample_manifest [] sample_accepted
      forged_parsed (omega arith) tt

is_exempt_iff_example :
    (is_exempt sample_manifest (b'A' ∷ b'B' ∷ []) none none ≡ true)
    ↔ Some (λ e. Covers e (b'A' ∷ b'B' ∷ []) none none) sample_manifest.entries
is_exempt_iff_example = is_exempt_iff sample_manifest (b'A' ∷ b'B' ∷ []) none none
