-- ===== src/Protocol/Text.antt =====
-- The operations of `std::string` and `std::stringstream` that src/http_protocol.cpp uses, and `rtrim`
-- and `ltrim` of src/util.cpp.
use lspider.Common.{
  ℕ, ◌-◌, ◌%◌, ◌^◌, Bool, true, false, ◌&&◌, ◌||◌, Option, none, some, List, [], ◌∷◌, ◌++◌, ◌==◌,
  if◌then◌else◌, Bytes, map, leb,
}
use lspider.Url.Parse.{to_lower, digits_value}

abbrev pub crlf : Bytes
crlf = 13 ∷ 10 ∷ []

-- What follows the prefix `t`.
unfoldable pub after_prefix : Bytes → Bytes → Option Bytes
after_prefix [] s = some s
after_prefix (d ∷ t) [] = none
after_prefix (d ∷ t) (c ∷ s) = if d == c then after_prefix t s else none

-- `find`: what stands before and what after the first `t`.
unfoldable pub split_at : Bytes → Bytes → Option (Bytes × Bytes)
split_at t [] = elim (after_prefix t []) [ some r ↦ some ([], r) | none ↦ none ]
split_at t (c ∷ s) = elim (after_prefix t (c ∷ s)) [
  | some r ↦ some ([], r)
  | none ↦ elim (split_at t s) [ some (a, b) ↦ some (c ∷ a, b) | none ↦ none ]
]

abbrev pub is_blank : ℕ → Bool
is_blank c = c == 32 || c == 9 || c == 10 || c == 13

unfoldable pub ltrim : Bytes → Bytes
ltrim [] = []
ltrim (c ∷ s) = let rest = ltrim s in if is_blank c then rest else c ∷ s

unfoldable pub rtrim : Bytes → Bytes
rtrim [] = []
rtrim (c ∷ s) = elim (rtrim s) [ [] ↦ if is_blank c then [] else c ∷ [] | d ∷ r ↦ c ∷ d ∷ r ]

abbrev pub is_space : ℕ → Bool
is_space c = c == 32 || leb 9 c && leb c 13

-- The words that `>>` reads: `word` is the one begun.
unfoldable pub words : Bytes → Bytes → List Bytes
words [] [] = []
words (d ∷ w) [] = (d ∷ w) ∷ []
words [] (c ∷ s) = words (if is_space c then [] else c ∷ []) s
words (d ∷ w) (c ∷ s) = elim (is_space c) [
  | true ↦ (d ∷ w) ∷ words [] s
  | false ↦ words ((d ∷ w) ++ c ∷ []) s
]

-- The lines that `getline` reads.
unfoldable pub lines : Bytes → Bytes → List Bytes
lines [] [] = []
lines (d ∷ w) [] = (d ∷ w) ∷ []
lines w (c ∷ s) = elim (c == 10) [ true ↦ w ∷ lines [] s | false ↦ lines (w ++ c ∷ []) s ]

unfoldable pub lower : Bytes → Bytes
lower = map to_lower

-- `atoi` of a word without blanks, as the 32-bit word of the `int`: the number is a `long` on its way
-- and stops at the ends of its range.
unfoldable pub status_int : Bytes → ℕ
status_int [] = 0
status_int (c ∷ s) =
    if c == b'-'
    then (let n = digits_value 0 s in if leb (2 ^ 63) n then 0 else (2 ^ 32 - n % 2 ^ 32) % 2 ^ 32)
    else (let n = digits_value 0 (if c == b'+' then s else c ∷ s) in
        (if leb (2 ^ 63) n then 2 ^ 63 - 1 else n) % 2 ^ 32)
