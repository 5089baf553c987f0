-- ===== src/Url/Site.antt =====
-- The normal form of a site and of a port: `normalize_site` and `normalize_port` of
-- src/url_tools.cpp. They write over their argument from left to right, never past the byte they
-- read: here each one gives the text it leaves. `none` is the return value 0.
pub mod Host
pub mod Port
use lspider.Common.{
  ℕ, suc, ◌+◌, Bool, true, false, not, ◌&&◌, ◌||◌, Option, none, some, [], ◌∷◌, ltb, leb, ◌==◌,
  if◌then◌else◌, length, Bytes,
}
use lspider.Common.Decimal.{decimal}
use lspider.Url.Chars.{url_digit, url_let_digit, url_let_dig_hy, url_up_let, to_char}
use lspider.Url.Parse.{atoi}

abbrev pub before : ℕ → Option Bytes → Option Bytes
before c none = none
before c (some s) = some (c ∷ s)

unfoldable pub lowered : ℕ → ℕ
unfolding url_up_let
lowered c = if url_up_let c then c + 32 else c

-- The loops of `normalize_site`, after so many dots and the byte `last` before the place where they
-- read. A label's byte is kept, an escape is replaced by the byte that it stands for, a dot or the
-- end must follow a letter or digit.
unfoldable pub site_from : ℕ → ℕ → Bytes → Option Bytes
site_from dots last [] = if url_let_digit last && not (dots == 0) then some [] else none
site_from dots last (c ∷ []) = elim (url_let_dig_hy c) [
  | true ↦ before (lowered c) (site_from dots (lowered c) [])
  | false ↦ elim (c == b'.' && url_let_digit last) [
    | true ↦ before c (site_from (suc dots) c [])
    | false ↦ none
  ]
]
site_from dots last (c ∷ d ∷ []) = elim (url_let_dig_hy c) [
  | true ↦ before (lowered c) (site_from dots (lowered c) (d ∷ []))
  | false ↦ elim (c == b'.' && url_let_digit last) [
    | true ↦ before c (site_from (suc dots) c (d ∷ []))
    | false ↦ none
  ]
]
site_from dots last (c ∷ d ∷ e ∷ s) = elim (url_let_dig_hy c) [
  | true ↦ before (lowered c) (site_from dots (lowered c) (d ∷ e ∷ s))
  | false ↦ elim (c == b'%') [
    | true ↦ elim (url_let_dig_hy (to_char d e)) [
      | true ↦ before (lowered (to_char d e)) (site_from dots (lowered (to_char d e)) s)
      | false ↦ none
    ]
    | false ↦ elim (c == b'.' && url_let_digit last) [
      | true ↦ before c (site_from (suc dots) c (d ∷ e ∷ s))
      | false ↦ none
    ]
  ]
]

unfoldable pub normalize_site : Bytes → Option Bytes
normalize_site [] = none
normalize_site (c ∷ s) = if url_let_dig_hy c then site_from 0 0 (c ∷ s) else none

-- The digits that `normalize_port` steps over.
unfoldable pub all_digits : Bytes → Bool
all_digits [] = true
all_digits (c ∷ s) = url_digit c && all_digits s

unfoldable pub checked_number : ℕ → Option Bytes
checked_number n =
    if n == 0 || ltb 65535 n then none else if n == 80 then some [] else some (decimal n)

unfoldable pub normalize_port : Bytes → Option Bytes
normalize_port [] = some []
normalize_port (c ∷ s) =
    if all_digits (c ∷ s) && leb (length (c ∷ s)) 5 then checked_number (atoi (c ∷ s)) else none
