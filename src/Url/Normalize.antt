-- ===== src/Url/Normalize.antt =====
-- The normal form of a URL: `normalize_url` and `isnormalized_url` of src/url_tools.cpp.
pub mod Prefix
pub mod Accepted
pub mod Tests
use lspider.Common.{
  ℕ, suc, ◌-◌, Bool, true, false, not, ◌&&◌, Option, none, some, [], ◌∷◌, ◌++◌, ltb, leb, ◌==◌,
  if◌then◌else◌, length, take, Bytes, codes,
}
use lspider.Url.Chars.{
  url_digit, url_let_digit, url_let_dig_hy, url_up_let, url_pchar, url_param, url_uch_res,
}
use lspider.Url.Parse.{parse_url, all_parts, atoi, after_nocase, max_url_len, max_path_len, ◌>>=◌}
use lspider.Url.Site.{normalize_site, normalize_port}
use lspider.Url.Section.{Section, in_path, in_params, in_query, separated, single_path_nointer}
use lspider.Url.Dots.{normalize_path}

-- `snprintf` into a buffer of `size` bytes.
unfoldable pub joined : Bytes → Bytes → Bytes → Bytes
joined site [] file = site ++ file
joined site (c ∷ port) file = site ++ (b':' ∷ c ∷ (port ++ file))

unfoldable pub normalize_url : Bytes → ℕ → Option Bytes
normalize_url url size = do
  parts ← parse_url all_parts url
  site ← normalize_site parts.site
  port ← normalize_port parts.port
  file ← single_path_nointer parts.path max_path_len
  some (take (size - 1) (joined site port (normalize_path file)))

-- The digits of a port, and what follows them.
unfoldable pub digits_of : Bytes → Bytes
digits_of [] = []
digits_of (c ∷ s) = let rest = digits_of s in if url_digit c then c ∷ rest else []

unfoldable pub after_digits : Bytes → Bytes
after_digits [] = []
after_digits (c ∷ s) = let rest = after_digits s in if url_digit c then rest else c ∷ s

unfoldable pub url_section : Section → ℕ → Bool
url_section in_path = url_pchar
url_section in_params = url_param
url_section in_query = url_uch_res

unfoldable pub path_ok : Section → Bytes → Bool
path_ok sec [] = true
path_ok sec (c ∷ s) = elim (url_section sec c) [
  | true ↦ path_ok sec s
  | false ↦ elim (separated sec c) [ some next ↦ path_ok next s | none ↦ false ]
]

unfoldable pub from_slash : Bytes → Bool
from_slash [] = false
from_slash (c ∷ s) = c == b'/' && path_ok in_path s

abbrev pub good_port : Bytes → Bool
good_port port =
    leb (length port) 5 && ltb 0 (atoi port) && leb (atoi port) 65535 && not (atoi port == 80)

unfoldable pub from_port : Bytes → Bool
from_port [] = false
from_port (c ∷ s) = elim (c == b':') [
  | true ↦ good_port (digits_of s) && from_slash (after_digits s)
  | false ↦ from_slash (c ∷ s)
]

-- The loops over the host, after so many dots and the byte `last`.
unfoldable pub host_ok : ℕ → ℕ → Bytes → Bool
host_ok dots last [] = false
host_ok dots last (c ∷ s) = elim (url_let_dig_hy c) [
  | true ↦ elim (url_up_let c) [ true ↦ false | false ↦ host_ok dots c s ]
  | false ↦ url_let_digit last && elim (c == b'.') [
    | true ↦ host_ok (suc dots) c s
    | false ↦ not (dots == 0) && from_port (c ∷ s)
  ]
]

abbrev pub has_scheme : Bytes → Bool
has_scheme s = elim (after_nocase (codes "http://") s) [
  | some r ↦ true
  | none ↦ elim (after_nocase (codes "https://") s) [ some r ↦ true | none ↦ false ]
]

-- Where a URL does not begin with a byte of a host, the code looks at the byte `outside` that stands
-- in memory before it.
unfoldable pub isnormalized_url : ℕ → Bytes → Bool
isnormalized_url outside url =
    not (has_scheme url) && host_ok 0 outside url && ltb (length url) max_url_len
