-- ===== src/Url/Parse.antt =====
-- `parse_url` of src/url_tools.cpp and what it calls: `delete_inter` and the C library's `strchr`,
-- `strncasecmp` and `atoi` as the code uses them.
pub mod Strchr
pub mod Parts
pub mod RoundTrip
pub mod Tests
use lspider.Common.{
  ℕ, zero, suc, ◌+◌, ◌-◌, ◌*◌, Bool, true, false, not, ◌&&◌, ◌||◌, Option, none, some, List, [],
  ◌∷◌, ◌++◌, ltb, leb, ◌==◌, if◌then◌else◌, length, take, drop, Bytes, codes, bytes_eq,
}
use lspider.Url.Chars.{lfcr, between}

abbrev pub max_url_len : ℕ
max_url_len = 1024

abbrev pub max_site_len : ℕ
max_site_len = 256

abbrev pub max_path_len : ℕ
max_path_len = 1024

abbrev pub max_port_len : ℕ
max_port_len = 7

-- The loop of `delete_inter`: the bytes up to the first line break stay, later ones are copied
-- down without the line breaks.
unfoldable pub delete_inter : Bytes → Bytes
unfolding lfcr
delete_inter [] = []
delete_inter (c ∷ s) = let rest = delete_inter s in if lfcr c then rest else c ∷ rest

-- The place of the first `c`.
unfoldable pub strchr : Bytes → ℕ → Option ℕ
strchr [] c = none
strchr (d ∷ s) c =
    if d == c then some 0 else elim (strchr s c) [ none ↦ none | some i ↦ some (suc i) ]

unfoldable pub to_lower : ℕ → ℕ
to_lower c = if between 65 90 c then c + 32 else c

-- What follows the prefix `t` of `s`, which `strncasecmp` compares without regard to case.
unfoldable pub after_nocase : Bytes → Bytes → Option Bytes
unfolding to_lower
after_nocase [] s = some s
after_nocase (d ∷ t) [] = none
after_nocase (d ∷ t) (c ∷ s) = if to_lower d == to_lower c then after_nocase t s else none

unfoldable pub skip_scheme : Bytes → Bytes
unfolding after_nocase
skip_scheme s = elim (after_nocase (codes "http://") s) [
  | some r ↦ r
  | none ↦ elim (after_nocase (codes "https://") s) [ some r ↦ r | none ↦ s ]
]

unfoldable pub is_digit : ℕ → Bool
is_digit c = between 48 57 c

abbrev is_space : ℕ → Bool
is_space c = c == 32 || between 9 13 c

-- `atoi`, with 0 for a negative number: the code asks only whether it is positive.
unfoldable pub digits_value : ℕ → Bytes → ℕ
unfolding is_digit
digits_value n [] = n
digits_value n (c ∷ s) =
    let rest = digits_value (n * 10 + (c - 48)) s in if is_digit c then rest else n

unfoldable pub signed_value : Bytes → ℕ
unfolding digits_value
signed_value [] = 0
signed_value (c ∷ s) =
    if c == b'-' then 0 else if c == b'+' then digits_value 0 s else digits_value 0 (c ∷ s)

unfoldable pub atoi : Bytes → ℕ
unfolding signed_value
atoi [] = 0
atoi (c ∷ s) = let rest = atoi s in if is_space c then rest else signed_value (c ∷ s)

-- Where the caller passes NULL for a part, `parse_url` does not check or copy it.
pub record Wanted : Type 0 where
  pub site_size : Option ℕ
  pub port_size : Option ℕ
  pub path_size : Option ℕ

pub record UrlParts : Type 0 where
  pub site : Bytes
  pub port : Bytes
  pub path : Bytes

-- A part to be copied, or the whole call's failure: the part fits its buffer if `fits size`.
unfoldable pub copy_part : Option ℕ → (ℕ → Bool) → Bytes → Option Bytes
copy_part none fits s = some []
copy_part (some size) fits s = if fits size then some s else none

-- Where the path begins: `slash p` at the first `/`, `query q` at a `?` that stands before any `/`.
pub data Cut : Type 0 where
  whole : Cut
  slash query : ℕ → Cut

unfoldable pub cut_at : Option ℕ → Option ℕ → Cut
cut_at none none = whole
cut_at none (some q) = query q
cut_at (some p) none = slash p
cut_at (some p) (some q) = if leb q p then query q else slash p

abbrev with_host : Bytes → Option Bytes → Option (Bytes × Bytes)
with_host host none = none
with_host host (some path) = some (host, path)

-- The text before the path, and the path. A query with no path gets the path `/`. No caller has a
-- path buffer of size 0.
unfoldable pub split_at : Option ℕ → Bytes → Cut → Option (Bytes × Bytes)
unfolding copy_part
split_at size s whole = with_host s (copy_part size (λ n. true) (b'/' ∷ []))
split_at size s (slash p) =
    with_host (take p s) (copy_part size (λ n. ltb (length (drop p s)) n) (drop p s))
split_at size s (query q) =
    with_host (take q s) (copy_part size (λ n. ltb (length (drop q s)) (n - 1)) (b'/' ∷ drop q s))

unfoldable pub split_path : Option ℕ → Bytes → Option (Bytes × Bytes)
split_path size s = split_at size s (cut_at (strchr s b'/') (strchr s b'?'))

-- The default port is dropped.
unfoldable pub checked_port : Bytes → ℕ → Option Bytes
checked_port port size =
    if ltb (suc (length port)) size && ltb 0 (atoi port)
    then some (if bytes_eq port (codes "80") then [] else port)
    else none

unfoldable pub port_at : Option ℕ → Bytes → Option ℕ → Option (Bytes × Bytes)
unfolding checked_port
port_at size s none = some (s, [])
port_at none s (some q) = some (take q s, [])
port_at (some n) s (some q) = with_host (take q s) (checked_port (drop (suc q) s) n)

unfoldable pub split_port : Option ℕ → Bytes → Option (Bytes × Bytes)
split_port size s = port_at size s (strchr s b':')

unfoldable pub strip_dots : Bytes → Bytes
strip_dots [] = []
strip_dots (c ∷ s) = elim (strip_dots s) [
  | [] ↦ if c == b'.' then [] else c ∷ []
  | d ∷ r ↦ c ∷ d ∷ r
]

unfoldable pub site_part : Option ℕ → Bytes → Option Bytes
site_part none s = some []
site_part (some n) [] = none
site_part (some n) (c ∷ s) = if ltb (suc (length s)) n then some (strip_dots (c ∷ s)) else none

infixl 5 ◌>>=◌
abbrev pub ◌>>=◌ {ℓ κ} : {A : Type ℓ} {B : Type κ} → Option A → (A → Option B) → Option B
none >>= f = none
some a >>= f = f a

unfoldable pub parse_parts : Wanted → Bytes → Option UrlParts
parse_parts w s = do
  (authority, path) ← split_path w.path_size s
  (host, port) ← split_port w.port_size authority
  site ← site_part w.site_size host
  some (record { site = site; port = port; path = path })

-- `none` is the return value 0. (The buffers of a failed call are not read by the callers.)
unfoldable pub parse_url : Wanted → Bytes → Option UrlParts
parse_url w input =
    if leb max_url_len (length input)
    then none
    else parse_parts w (skip_scheme (delete_inter input))

-- The buffers of `normalize_url` and of a url context.
abbrev pub all_parts : Wanted
all_parts = record {
  site_size = some max_site_len;
  port_size = some max_port_len;
  path_size = some max_path_len;
}
