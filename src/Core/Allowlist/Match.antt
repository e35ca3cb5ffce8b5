-- ===== src/Core/Allowlist/Match.antt =====
-- Which targets an allowlist exempts, and what its signature leaves open.
use kavach_npu.Prelude.{
  ℕ, ◌≡◌, ◌≤◌, ◌↔◌, refl, List, [], ◌∷◌, Option, none, some, ok, true, All, Some, any_iff, map,
  arith, length,
}
use kavach_npu.Prelude.Bytes.{bytes_eq_iff}
use kavach_npu.Prelude.Ascii.{lowercase, eq_ignore_ascii_case, eq_ignore_ascii_case_iff}
use kavach_npu.Core.Allowlist.{
  AllowlistEntry, AllowlistManifest, AuthenticodeIdentity, Libraries, signer_matches, path_matches,
  matches, is_exempt, parse_and_verify,
}
use kavach_npu.Core.Allowlist.Verify.{IsBounded, parse_and_verify-ok_iff}

-- Equal but for the case of ASCII letters.
abbrev pub Alike : List ℕ → List ℕ → Type 0
Alike xs ys = map lowercase xs ≡ map lowercase ys

-- The signer that an entry names is the target's.
abbrev pub SignerFits : Option AuthenticodeIdentity → Option AuthenticodeIdentity → Type 0
SignerFits none actual = Unit {0}
SignerFits (some required) none = ⊥
SignerFits (some required) (some actual) =
    (required.publisher_subject ≡ actual.publisher_subject)
    × Alike required.thumbprint_sha256 actual.thumbprint_sha256

-- The target's path is one of the scope's, where there is a scope.
abbrev pub PathFits : List (List ℕ) → Option (List ℕ) → Type 0
PathFits [] path = Unit {0}
PathFits (s ∷ scopes) none = ⊥
PathFits (s ∷ scopes) (some path) = Some (λ scope. Alike scope path) (s ∷ scopes)

abbrev pub Covers : AllowlistEntry → List ℕ → Option AuthenticodeIdentity → Option (List ℕ) → Type 0
Covers e image signer path =
    Alike e.image_sha256 image × SignerFits e.authenticode signer × PathFits e.path_scope path

signer_matches_iff :
    (r a : Option AuthenticodeIdentity) → (signer_matches r a ≡ true) ↔ SignerFits r a
unfolding signer_matches
signer_matches_iff none a = (λ _. tt, λ _. refl)
signer_matches_iff (some r) none = ground arith
signer_matches_iff (some r) (some a) = ground (
  arith,
  bytes_eq_iff r.publisher_subject a.publisher_subject,
  eq_ignore_ascii_case_iff r.thumbprint_sha256 a.thumbprint_sha256,
)

path_matches_iff :
    (scopes : List (List ℕ)) (path : Option (List ℕ))
    → (path_matches scopes path ≡ true) ↔ PathFits scopes path
unfolding path_matches
path_matches_iff [] path = (λ _. tt, λ _. refl)
path_matches_iff (s ∷ scopes) none = ground arith
path_matches_iff (s ∷ scopes) (some path) =
    any_iff (λ scope. eq_ignore_ascii_case scope path) (λ scope. Alike scope path) (s ∷ scopes)
      (λ scope. eq_ignore_ascii_case_iff scope path)

matches_iff :
    (e : AllowlistEntry) (image : List ℕ) (signer : Option AuthenticodeIdentity)
    (path : Option (List ℕ))
    → (matches e image signer path ≡ true) ↔ Covers e image signer path
unfolding matches
matches_iff e image signer path = ground (
  arith,
  eq_ignore_ascii_case_iff e.image_sha256 image,
  signer_matches_iff e.authenticode signer,
  path_matches_iff e.path_scope path,
)

-- A target is exempt exactly when some entry has its image's digest, its signer if the entry names
-- one, and its path if the entry has a scope; digests, thumbprints and paths but for ASCII case.
pub is_exempt_iff :
    (m : AllowlistManifest) (image : List ℕ) (signer : Option AuthenticodeIdentity)
    (path : Option (List ℕ))
    → (is_exempt m image signer path ≡ true) ↔ Some (λ e. Covers e image signer path) m.entries
unfolding is_exempt
is_exempt_iff m image signer path =
    any_iff (λ e. matches e image signer path) (λ e. Covers e image signer path) m.entries
      (λ e. matches_iff e image signer path)

-- The signature does not bind the entries: a text that parses to a verified manifest with any other
-- bounded entries in place of its own is verified too.
pub entries_unsigned :
    (lib : Libraries) (json forged : List ℕ) (m : AllowlistManifest) (others : List AllowlistEntry)
    → parse_and_verify lib json ≡ ok m
    → lib.parse_json forged ≡ ok (record m { entries = others })
    → length others ≤ 4096
    → All IsBounded others
    → parse_and_verify lib forged ≡ ok (record m { entries = others })
entries_unsigned lib json forged m others h parsed few bounded =
    let v = (parse_and_verify-ok_iff lib json m).0 h in
    (parse_and_verify-ok_iff lib forged (record m { entries = others })).1 (record {
      parsed = parsed;
      version = v.version;
      few_entries = few;
      bounded = bounded;
      signed = v.signed;
    })
