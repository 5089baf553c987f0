-- ===== src/Url/Chars.antt =====
-- The character tables of src/url_tools.cpp. Each table of 256 flags is the test for the bytes whose
-- entry is not zero.
use lspider.Common.{ℕ, ◌+◌, ◌-◌, ◌*◌, Bool, not, ◌||◌, ◌&&◌, leb, ◌==◌, if◌then◌else◌}

abbrev pub between : ℕ → ℕ → ℕ → Bool
between lo hi c = leb lo c && leb c hi

unfoldable pub lfcr : ℕ → Bool
lfcr c = c == 10 || c == 13

unfoldable pub reserved : ℕ → Bool
reserved c =
    between 36 38 c
    || c == 43
    || c == 44
    || c == 47
    || c == 58
    || c == 59
    || c == 61
    || c == 63
    || c == 64

unfoldable pub pchar : ℕ → Bool
pchar c =
    between 32 34 c || between 36 46 c || between 48 58 c || between 60 62 c || between 64 255 c

unfoldable pub param : ℕ → Bool
param c = between 32 34 c || between 36 58 c || between 60 62 c || between 64 255 c

unfoldable pub uch_res : ℕ → Bool
uch_res c = between 32 34 c || between 36 255 c

unfoldable pub url_digit : ℕ → Bool
url_digit c = between 48 57 c

unfoldable pub url_let_digit : ℕ → Bool
url_let_digit c = between 48 57 c || between 65 90 c || between 97 122 c

-- Letters, digits, `-`, and also `_`.
unfoldable pub url_let_dig_hy : ℕ → Bool
url_let_dig_hy c = c == 45 || between 48 57 c || between 65 90 c || c == 95 || between 97 122 c

unfoldable pub url_up_let : ℕ → Bool
url_up_let c = between 65 90 c

unfoldable pub url_pchar : ℕ → Bool
url_pchar c =
    between 32 34 c || between 36 46 c || between 48 58 c || between 60 62 c || between 64 255 c

unfoldable pub url_param : ℕ → Bool
url_param c = between 32 34 c || between 36 58 c || between 60 62 c || between 64 255 c

unfoldable pub url_uch_res : ℕ → Bool
url_uch_res c = between 32 34 c || between 36 255 c

-- The value of a hexadecimal digit, and 0 for any other byte.
unfoldable pub hex_value : ℕ → ℕ
hex_value c =
    if between 48 57 c
    then c - 48
    else if between 65 70 c
    then c - 55
    else if between 97 102 c
    then c - 87
    else 0

-- `to_char`: two hexadecimal digits as a byte, 0 if one of them is no digit.
unfoldable pub to_char : ℕ → ℕ → ℕ
unfolding hex_value
to_char a b =
    if hex_value a == 0 && not (a == 48) || hex_value b == 0 && not (b == 48)
    then 0
    else 16 * hex_value a + hex_value b
