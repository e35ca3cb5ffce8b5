-- ===== src/Prelude/Ascii.antt =====
-- ASCII case: `eq_ignore_ascii_case` and `to_ascii_uppercase` on bytes.
use kavach_npu.Prelude.Tests.{leb, if◌then◌else◌}
use kavach_npu.Prelude.Bytes.{bytes_eq, bytes_eq_iff}
use Prim.Native.Nat.{ℕ, ◌+◌, ◌-◌}
use mathlib.Core.Path.{◌≡◌}
use mathlib.Core.Bool.{Bool, true, ◌&&◌}
use mathlib.Core.Logic.{◌↔◌}
use mathlib.Core.List.{List, map}

-- `u8::to_ascii_lowercase`
unfoldable pub lowercase : ℕ → ℕ
lowercase c = if leb b'A' c && leb c b'Z' then c + 32 else c

-- `u8::to_ascii_uppercase`
unfoldable pub uppercase : ℕ → ℕ
uppercase c = if leb b'a' c && leb c b'z' then c - 32 else c

unfoldable pub eq_ignore_ascii_case : List ℕ → List ℕ → Bool
eq_ignore_ascii_case xs ys = bytes_eq (map lowercase xs) (map lowercase ys)

pub eq_ignore_ascii_case_iff :
    (xs ys : List ℕ) → (eq_ignore_ascii_case xs ys ≡ true) ↔ (map lowercase xs ≡ map lowercase ys)
unfolding eq_ignore_ascii_case
eq_ignore_ascii_case_iff xs ys = bytes_eq_iff (map lowercase xs) (map lowercase ys)
