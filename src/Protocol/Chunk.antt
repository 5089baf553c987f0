-- ===== src/Protocol/Chunk.antt =====
-- `analyseChunk` of src/http_protocol.cpp, with `hex2dec` of src/util.cpp.
use lspider.Common.{
  ℕ, zero, suc, ◌+◌, ◌-◌, ◌*◌, ◌%◌, ◌^◌, Bool, true, false, ◌&&◌, ◌||◌, Option, none, some, [], ◌∷◌,
  ◌++◌, ◌==◌, leb, ltb, if◌then◌else◌, length, take, drop, Bytes,
}
use lspider.Protocol.Text.{crlf, split_at, is_space}
use lspider.Url.Chars.{hex_value, between}

abbrev pub is_hex : ℕ → Bool
is_hex c = between 48 57 c || between 65 70 c || between 97 102 c

-- The digits that `%x` reads, as a number.
unfoldable pub hex_digits : ℕ → Bytes → ℕ
unfolding hex_value
hex_digits n [] = n
hex_digits n (c ∷ s) =
    let rest = hex_digits (n * 16 + hex_value c) s in if is_hex c then rest else n

-- `sscanf(s, "%x", &a)` after the sign: `none` if no digit stands there, and then `a` keeps what the
-- stack held. A prefix `0x` is skipped, and is 0 with no digit behind it.
unfoldable pub hex_number : Bytes → Option ℕ
unfolding hex_digits
hex_number [] = none
hex_number (c ∷ s) = if is_hex c then some (hex_digits 0 (c ∷ s)) else none

abbrev pub or_zero : Option ℕ → Option ℕ
or_zero none = some 0
or_zero (some n) = some n

unfoldable pub hex_unsigned : Bytes → Option ℕ
unfolding hex_number
hex_unsigned [] = none
hex_unsigned (c ∷ []) = hex_number (c ∷ [])
hex_unsigned (c ∷ d ∷ s) =
    if c == b'0' && (d == b'x' || d == b'X') then or_zero (hex_number s) else hex_number (c ∷ d ∷ s)

abbrev pub int_word : ℕ
int_word = 2 ^ 32

abbrev pub size_word : ℕ
size_word = 2 ^ 64

-- A number is an `unsigned long`; one that is too large is read as the largest one, whatever its sign.
abbrev negate : Option ℕ → Option ℕ
negate none = none
negate (some n) = some (if leb size_word n then size_word - 1 else (size_word - n) % size_word)

unfoldable pub hex_signed : Bytes → Option ℕ
unfolding hex_unsigned
hex_signed [] = none
hex_signed (c ∷ s) =
    if c == b'-'
    then negate (hex_unsigned s)
    else if c == b'+'
    then hex_unsigned s
    else hex_unsigned (c ∷ s)

unfoldable pub scan_hex : Bytes → Option ℕ
unfolding hex_signed
scan_hex [] = none
scan_hex (c ∷ s) = let rest = scan_hex s in if is_space c then rest else hex_signed (c ∷ s)

-- The chunk size as a `size_t`. A number too large for an `unsigned long` is read as the largest
-- one, and the number is an `int` on its way, so that its sign bit is extended.
unfoldable pub to_size : ℕ → ℕ
to_size n =
    let m = (if leb size_word n then size_word - 1 else n) % int_word in
    if ltb m (2 ^ 31) then m else m + size_word - int_word

pub data Chunked : Type 0 where
  joined : Bytes → Chunked
  bad_format : Chunked
  out_of_fuel : Chunked

abbrev or_garbage : Option ℕ → ℕ → ℕ
or_garbage none garbage = garbage
or_garbage (some n) garbage = n

-- The loop over the chunks, from the position `cur` of the body. `garbage` is what a size line with
-- no number leaves in the variable.
unfoldable pub chunk_loop : ℕ → ℕ → Bytes → ℕ → Bytes → Chunked
chunk_loop zero garbage body cur out = out_of_fuel
chunk_loop (suc fuel) garbage body cur out = elim (split_at crlf (drop cur body)) [
  | none ↦ bad_format
  | some (line, after) ↦
      let size = to_size (or_garbage (scan_hex line) garbage) in
      elim (size == 0) [
        | true ↦ joined out
        | false ↦
            chunk_loop fuel garbage body ((cur + length line + 2 + size + 1) % size_word)
              (out ++ take size after)
      ]
]
