-- ===== src/Utf8.antt =====
-- `is_utf8` and `isNonAsciiUTF8` of src/util.cpp.
pub mod Grammar
pub mod CodePoints
pub mod Tests
use lspider.Common.{
  ℕ, zero, suc, Bool, true, false, Option, none, some, List, [], ◌∷◌, leb, ltb, if◌then◌else◌, ◌&&◌,
  Bytes, length,
}

-- The number of bytes that a lead byte announces, less one. `0xFE` and `0xFF` fall through to 5 bytes.
unfoldable pub lead_len : ℕ → Option ℕ
lead_len c =
    if leb 252 c && leb c 253
    then some 5
    else if leb 248 c
    then some 4
    else if leb 240 c
    then some 3
    else if leb 224 c
    then some 2
    else if leb 192 c
    then some 1
    else none

-- `(chr & 0xC0) == 0x80`, of a byte.
abbrev pub is_continuation : ℕ → Bool
is_continuation c = leb 128 c && ltb c 192

-- The loop of `isNonAsciiUTF8`: what follows so many continuation bytes.
unfoldable pub after_continuations : ℕ → Bytes → Option Bytes
after_continuations zero s = some s
after_continuations (suc n) [] = none
after_continuations (suc n) (c ∷ s) = elim (is_continuation c) [
  | true ↦ after_continuations n s
  | false ↦ none
]

-- `isNonAsciiUTF8` of a string that begins with a byte from 128 on: what follows the character.
unfoldable pub after_character : ℕ → Bytes → Option Bytes
after_character c s = elim (lead_len c) [ none ↦ none | some n ↦ after_continuations n s ]

-- The loop of `is_utf8`; `none` if it is not done in the rounds given.
unfoldable pub is_utf8 : ℕ → Bytes → Option Bool
is_utf8 zero s = none
is_utf8 (suc fuel) [] = some true
is_utf8 (suc fuel) (c ∷ s) = elim (ltb c 128) [
  | true ↦ is_utf8 fuel s
  | false ↦ elim (after_character c s) [ none ↦ some false | some rest ↦ is_utf8 fuel rest ]
]

abbrev converted : Bytes → Option Bytes → Bytes
converted s none = s
converted s (some t) = t

-- `to_utf8` in place. `iconv` converts from GB18030; where it fails the text stays.
unfoldable pub to_utf8 : (Bytes → Option Bytes) → Bytes → Bytes
to_utf8 iconv s = elim (is_utf8 (suc (length s)) s) [
  | none ↦ s
  | some b ↦ if b then s else converted s (iconv s)
]
