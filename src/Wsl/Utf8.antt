-- ===== src/Wsl/Utf8.antt =====
-- `std::str::from_utf8`: the well-formed byte sequences of the Unicode standard, read byte by byte.
use kavach_npu.Prelude.{
  ℕ, zero, suc, Bool, true, false, ◌&&◌, List, [], ◌∷◌, Option, none, some, leb, if◌then◌else◌,
}

-- `need k lo hi`: k more bytes are due, the next of them between lo and hi.
pub data Expect : Type 0 where
  start : Expect
  need : (k lo hi : ℕ) → Expect

lead : ℕ → Option Expect
lead b =
    if leb b 0x7f
    then some start
    else if leb 0xc2 b && leb b 0xdf
    then some (need 0 0x80 0xbf)
    else if leb 0xe0 b && leb b 0xe0
    then some (need 1 0xa0 0xbf)
    else if leb 0xe1 b && leb b 0xec
    then some (need 1 0x80 0xbf)
    else if leb 0xed b && leb b 0xed
    then some (need 1 0x80 0x9f)
    else if leb 0xee b && leb b 0xef
    then some (need 1 0x80 0xbf)
    else if leb 0xf0 b && leb b 0xf0
    then some (need 2 0x90 0xbf)
    else if leb 0xf1 b && leb b 0xf3
    then some (need 2 0x80 0xbf)
    else if leb 0xf4 b && leb b 0xf4
    then some (need 2 0x80 0x8f)
    else none

next : Expect → ℕ → Option Expect
next start b = lead b
next (need zero lo hi) b = if leb lo b && leb b hi then some start else none
next (need (suc k) lo hi) b = if leb lo b && leb b hi then some (need k 0x80 0xbf) else none

scan : Expect → List ℕ → Bool
scan start [] = true
scan (need k lo hi) [] = false
scan e (b ∷ bs) = elim (next e b) [ none ↦ false | some e' ↦ scan e' bs ]

unfoldable pub is_utf8 : List ℕ → Bool
unfolding scan next lead
is_utf8 bs = scan start bs
