-- ===== src/Core/Allowlist/Verify.antt =====
-- What a verified allowlist is, and that `parse_and_verify` returns exactly those.
use kavach_npu.Prelude.{
  ℕ, ◌≡◌, ◌≤◌, ◌↔◌, subst, refl, inl, inr, List, [], ◌∷◌, ok, Result-cases, All, length, arith,
  >>-ok_iff,
}
use kavach_npu.Prelude.Bytes.{bytes_eq_iff}
use kavach_npu.Core.Base64.{decode_base64}
use kavach_npu.Core.Allowlist.{
  AllowlistEntry, AllowlistManifest, Libraries, check_paths, check_actions, check_entry,
  check_entries, verify_signature, parse_and_verify, permitted_action,
}

-- A path of at most 1024 bytes.
abbrev pub IsShort : List ℕ → Type 0
IsShort p = length p ≤ 1024

-- The one action that an entry may allow.
abbrev pub IsPermitted : List ℕ → Type 0
IsPermitted action = action ≡ permitted_action

pub record IsBounded (e : AllowlistEntry) : Type 0 where
  pub few_paths : length e.path_scope ≤ 32
  pub short_paths : All IsShort e.path_scope
  pub permitted : All IsPermitted e.allowed_actions

check_paths-ok_iff :
    (id : List ℕ) (ps : List (List ℕ)) → (check_paths id ps ≡ ok tt) ↔ All IsShort ps
unfolding check_paths
check_paths-ok_iff id [] = (λ _. tt, λ _. refl)
check_paths-ok_iff id (p ∷ ps) = ground (arith, check_paths-ok_iff id ps)

check_actions-ok_iff :
    (id : List ℕ) (xs : List (List ℕ)) → (check_actions id xs ≡ ok tt) ↔ All IsPermitted xs
unfolding check_actions
check_actions-ok_iff id [] = (λ _. tt, λ _. refl)
check_actions-ok_iff id (x ∷ xs) =
    ground (arith, check_actions-ok_iff id xs, bytes_eq_iff x permitted_action)

check_entry-ok_iff : (e : AllowlistEntry) → (check_entry e ≡ ok tt) ↔ IsBounded e
unfolding check_entry
check_entry-ok_iff e = ground (
  arith,
  check_paths-ok_iff e.entry_id e.path_scope,
  check_actions-ok_iff e.entry_id e.allowed_actions,
  >>-ok_iff (check_paths e.entry_id e.path_scope) (check_actions e.entry_id e.allowed_actions) tt,
)

check_entries-ok_iff : (es : List AllowlistEntry) → (check_entries es ≡ ok tt) ↔ All IsBounded es
unfolding check_entries
check_entries-ok_iff [] = (λ _. tt, λ _. refl)
check_entries-ok_iff (e ∷ es) = ground (
  arith,
  >>-ok_iff (check_entry e) (check_entries es) tt,
  check_entry-ok_iff e,
  check_entries-ok_iff es,
)

module _ (lib : Libraries) where
  -- The signature is 64 bytes that the key's owner made over the decoded digest.
  abbrev pub IsSigned : AllowlistManifest → Type 0
  IsSigned m =
      (digest : List ℕ) × (signature : List ℕ) × (lib.decode_hex m.signed_payload_sha256
        ≡ ok digest)
      × (decode_base64 m.signature ≡ ok signature)
      × (length signature ≡ 64)
      × (lib.verify_strict digest signature ≡ ok tt)

  -- What the verification asks of an allowlist. docs/schemas/allowlist-v1.md asks for more: entries that
  -- are not listed twice, no unknown field, a deadline to come and a key that is not revoked.
  pub record IsVerified (json : List ℕ) (m : AllowlistManifest) : Type 0 where
    pub parsed : lib.parse_json json ≡ ok m
    pub version : m.artifact_version.major ≡ 1
    pub few_entries : length m.entries ≤ 4096
    pub bounded : All IsBounded m.entries
    pub signed : IsSigned m

  verify_signature-ok_iff : (m : AllowlistManifest) → (verify_signature lib m ≡ ok tt) ↔ IsSigned m
  unfolding verify_signature
  verify_signature-ok_iff m = (
    λ h. elim (Result-cases (lib.decode_hex m.signed_payload_sha256)) [
      | inl (digest, e) ↦ elim (Result-cases (decode_base64 m.signature)) [
        | inl (signature, f) ↦ elim (Result-cases (lib.verify_strict digest signature)) [
          | inl (u, g) ↦ (digest, signature, e, f, ground (arith, e, f, g), g)
          | inr (x, g) ↦ ground (arith, e, f, g)
        ]
        | inr (x, f) ↦ ground (arith, e, f)
      ]
      | inr (x, e) ↦ ground (arith, e)
    ],
    λ (digest, signature, e, f, l, g). ground (arith, e, f, l, g),
  )

  -- `parse_and_verify` returns a manifest exactly when the text parses to it, its major version is 1,
  -- it has at most 4096 entries, each with at most 32 paths of at most 1024 bytes and with no action
  -- but a suspension, and the signature verifies over the digest that it states. Entries listed
  -- twice, its deadlines and its key's name make no difference.
  pub parse_and_verify-ok_iff :
      (json : List ℕ) (m : AllowlistManifest)
      → (parse_and_verify lib json ≡ ok m) ↔ IsVerified json m
  unfolding parse_and_verify
  parse_and_verify-ok_iff json m = (
    λ h. elim (Result-cases (lib.parse_json json)) [
      | inl (n, e) ↦ elim (Result-cases (check_entries n.entries)) [
        | inl (u, f) ↦ elim (Result-cases (verify_signature lib n)) [
          | inl (w, g) ↦
              let same : n ≡ m = ground (arith, e, f, g) in
              subst (IsVerified json) same (record {
                parsed = e;
                version = ground (arith, e);
                few_entries = ground (arith, e);
                bounded = (check_entries-ok_iff n.entries).0 f;
                signed = (verify_signature-ok_iff n).0 g;
              })
          | inr (x, g) ↦ ground (arith, e, f, g)
        ]
        | inr (x, f) ↦ ground (arith, e, f)
      ]
      | inr (x, e) ↦ ground (arith, e)
    ],
    λ v.
        let f = (check_entries-ok_iff m.entries).1 v.bounded in
        let g = (verify_signature-ok_iff m).1 v.signed in
        ground (arith, v.parsed, v.version, v.few_entries, f, g),
  )
