-- ===== src/Domain.antt =====
-- The main domain of a site: `DomainDict`, `fetch_maindomain` and `fetch_url_maindomain` of
-- src/url_tools.cpp. A pointer into the site is the number of bytes from there to the site's end.
pub mod Tables
pub mod Dict
pub mod Match
pub mod Sound
pub mod Again
pub mod Suffix
pub mod Tests
use lspider.Common.{
  ℕ, zero, suc, ◌+◌, ◌-◌, Bool, true, false, Option, none, some, List, [], ◌∷◌, ◌++◌, reverse, ltb,
  leb, ◌==◌, ◌||◌, ◌&&◌, if◌then◌else◌, not, length, take, drop, Bytes, codes, bytes_eq,
}
use lspider.Url.Parse.{is_digit, parse_url, Wanted, max_site_len}
use Dict.{DomainDict, empty_dict, load_default}

-- `guess_is_dotip2`.
unfoldable pub is_dotip : ℕ → Bytes → Bool
is_dotip dots [] = dots == 3
is_dotip dots (c ∷ s) = elim (c == b'.') [
  | true ↦ is_dotip (dots + 1) s
  | false ↦ if is_digit c then is_dotip dots s else false
]

-- From here on a site is read backwards. `rev_match`: what stands before the match.
unfoldable pub rev_match : Bytes → Bytes → Option Bytes
rev_match site [] = some site
rev_match [] (d ∷ pattern) = none
rev_match (c ∷ site) (d ∷ pattern) = if c == d then rev_match site pattern else none

-- `rev_dot`: the bytes between the match and the dot before it. The first byte of the site is not
-- looked at.
unfoldable pub rev_dot : Bytes → Option ℕ
rev_dot [] = none
rev_dot (c ∷ []) = none
rev_dot (c ∷ d ∷ site) =
    let rest = rev_dot (d ∷ site) in
    if c == b'.' then some 0 else elim rest [ none ↦ none | some n ↦ some (suc n) ]

-- `get_last_two_parts`, having met so many dots.
unfoldable pub last_two_parts : ℕ → Bytes → Option ℕ
last_two_parts dots [] = none
last_two_parts dots (c ∷ site) =
    let dots' = if c == b'.' then dots + 1 else dots in
    let rest = last_two_parts dots' site in
    if dots' == 2 then some 0 else elim rest [ none ↦ none | some n ↦ some (suc n) ]

-- The loops over a list of patterns: what stands before the first match.
unfoldable pub first_match : Bytes → List Bytes → Option Bytes
first_match site [] = none
first_match site (p ∷ ps) = elim (rev_match site p) [
  | some rest ↦ some rest
  | none ↦ first_match site ps
]

unfoldable pub first_key : Bytes → List (Bytes × List Bytes) → List Bytes
first_key site [] = []
first_key site ((p, l) ∷ m) = elim (rev_match site p) [ some rest ↦ l | none ↦ first_key site m ]

-- The match with the label before it.
unfoldable pub with_label : Bytes → Bytes → ℕ
with_label site rest = elim (rev_dot rest) [
  | none ↦ length site
  | some n ↦ length site - length rest + n
]

unfoldable pub by_country : DomainDict → Bytes → Option Bytes
by_country d site = elim (first_match site d.countries) [
  | none ↦ none
  | some rest ↦ elim (first_match rest d.seconds) [ none ↦ some rest | some rest2 ↦ some rest2 ]
]

-- What stands before the suffix that the dictionary has for the site.
unfoldable pub listed : DomainDict → Bytes → Option Bytes
listed d site = elim (first_match site d.tops) [
  | some rest ↦ some rest
  | none ↦ elim (first_match site (first_key site d.country_map)) [
    | some rest ↦ some rest
    | none ↦ by_country d site
  ]
]

-- `get_domain_from_site`.
unfoldable pub domain_from_site : DomainDict → Bytes → Option ℕ
domain_from_site d [] = none
domain_from_site d (c ∷ site) = elim (listed d (c ∷ site)) [
  | some rest ↦ some (with_label (c ∷ site) rest)
  | none ↦ last_two_parts 0 (c ∷ site)
]

-- `get_trunk_from_domain`: the first label, or nothing if there is no dot. `none` is the -1.
unfoldable pub first_label : Bytes → Bytes × Bool
first_label [] = ([], false)
first_label (c ∷ s) =
    let rest = first_label s in if c == b'.' then ([], true) else (c ∷ rest.0, rest.1)

unfoldable pub trunk_from_domain : Bytes → ℕ → Option Bytes
trunk_from_domain domain trunk_size =
    let label = first_label domain in
    if leb trunk_size (length label.0) then none else some (if label.1 then label.0 else [])

unfoldable pub strip_leading_dots : Bytes → Bytes
strip_leading_dots [] = []
strip_leading_dots (c ∷ s) = let rest = strip_leading_dots s in if c == b'.' then rest else c ∷ s

-- What is found: the main domain, and the trunk if a buffer is given for it.
pub record Found : Type 0 where
  pub domain : Bytes
  pub trunk : Option Bytes

abbrev pub with_trunk : Bytes → Option Bytes → Option Found
with_trunk domain none = none
with_trunk domain (some t) = some (record { domain = domain; trunk = some t })

-- The bytes of a site from the place found on.
unfoldable pub suffix : ℕ → Bytes → Bytes
suffix n site = drop (length site - n) site

abbrev pub of_domain : Option ℕ → Bytes → Option ℕ → Option Found
of_domain none site size = none
of_domain (some n) site none =
    some (record { domain = strip_leading_dots (suffix n site); trunk = none })
of_domain (some n) site (some size) =
    let domain = strip_leading_dots (suffix n site) in
    with_trunk domain (trunk_from_domain domain size)

abbrev pub of_address : Bytes → Option ℕ → Option Found
of_address site none = some (record { domain = site; trunk = none })
of_address site (some size) =
    if ltb (length site) size then some (record { domain = site; trunk = some site }) else none

-- `fetch_trunk_and_domain`; `none` is an error code.
unfoldable pub fetch_trunk_and_domain : DomainDict → Bytes → Option ℕ → Option Found
fetch_trunk_and_domain d site size =
    if is_dotip 0 site
    then of_address site size
    else of_domain (domain_from_site d (reverse site)) site size

-- `fetch_maindomain` of a site, where a null pointer is returned or, in the recovery mode with no
-- buffer for the trunk, written to.
pub data Fetch : Type 0 where
  fetched : Found → Fetch
  no_domain : Fetch
  null_written : Fetch

unfoldable pub recovered : Bool → Bytes → Option ℕ → Option Found → Fetch
recovered mode site size (some f) = fetched f
recovered false site size none = no_domain
recovered true site none none = null_written
recovered true site (some size) none =
    fetched (record { domain = site; trunk = some (take (size - 1) site) })

unfoldable pub fetch_maindomain : Bytes → Option ℕ → Bool → Fetch
fetch_maindomain site size mode =
    recovered mode site size (fetch_trunk_and_domain (load_default empty_dict) site size)

abbrev pub only_site : Wanted
only_site = record { site_size = some max_site_len; port_size = none; path_size = none }

abbrev pub domain_of : Fetch → Option Bytes
domain_of (fetched f) = some f.domain
domain_of no_domain = none
domain_of null_written = none

-- `fetch_url_maindomain`, whose callers give a buffer of `MAX_SITE_LEN` bytes.
unfoldable pub fetch_url_maindomain : Bytes → Option Bytes
fetch_url_maindomain url = elim (parse_url only_site url) [
  | none ↦ none
  | some p ↦ domain_of (fetch_maindomain p.site none false)
]
