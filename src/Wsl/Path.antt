-- ===== src/Wsl/Path.antt =====
-- crates/kavach-wsl/src/wire.rs, `is_normalized_mnt_path`: paths as lists of bytes.
use kavach_npu.Prelude.{
  ℕ, ◌+◌, ◌-◌, Bool, true, false, not, ◌&&◌, ◌||◌, List, [], ◌∷◌, if◌then◌else◌, ◌==◌, length, drop,
}
use kavach_npu.Prelude.Bytes.{bytes_eq}

abbrev pub slash : ℕ
slash = b'/'

-- "/mnt/"
abbrev pub mnt_prefix : List ℕ
mnt_prefix = b'/' ∷ b'm' ∷ b'n' ∷ b't' ∷ b'/' ∷ []

abbrev pub dot : List ℕ
dot = b'.' ∷ []

abbrev pub dot_dot : List ℕ
dot_dot = b'.' ∷ b'.' ∷ []

-- `path.starts_with(prefix)`, the path second.
unfoldable pub starts_with : List ℕ → List ℕ → Bool
starts_with [] path = true
starts_with (c ∷ cs) [] = false
starts_with (c ∷ cs) (p ∷ path) = c == p && starts_with cs path

abbrev pub is_empty : List ℕ → Bool
is_empty [] = true
is_empty (c ∷ cs) = false

abbrev pub cons_first : ℕ → List (List ℕ) → List (List ℕ)
cons_first c [] = (c ∷ []) ∷ []
cons_first c (seg ∷ segs) = (c ∷ seg) ∷ segs

-- `path.split('/').collect()`
unfoldable pub split : List ℕ → List (List ℕ)
split [] = [] ∷ []
split (c ∷ cs) = let rest = split cs in if c == slash then [] ∷ rest else cons_first c rest

-- The loop over `segments.iter().enumerate()`, `n` being `segments.len()`.
unfoldable pub check_segments : ℕ → ℕ → List (List ℕ) → Bool
check_segments i n [] = true
check_segments i n (seg ∷ segs) =
    let rest = check_segments (i + 1) n segs in
    if i == 0
    then rest
    else if i == n - 1 && is_empty seg
    then rest
    else if is_empty seg || (bytes_eq seg dot || bytes_eq seg dot_dot)
    then false
    else rest

unfoldable pub is_normalized_mnt_path : List ℕ → Bool
is_normalized_mnt_path path =
    if not (starts_with mnt_prefix path)
    then false
    else if is_empty (drop (length mnt_prefix) path)
    then false
    else let segments = split path in check_segments 0 (length segments) segments
