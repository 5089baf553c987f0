-- ===== src/Domain/Dict.antt =====
-- `DomainDict` of src/url_tools.cpp: the domains that sites are registered under.
use lspider.Common.{
  ℕ, zero, suc, Option, none, some, List, [], ◌∷◌, ◌++◌, reverse, ◌||◌, if◌then◌else◌, Bytes, codes,
  bytes_eq,
}
use lspider.Common.Maps.{find, put}
use lspider.Protocol.Text.{words}
use lspider.Domain.Tables.{top_domain, top_country, general_2nd_domain, domain_map}

-- The patterns are written backwards, with the dot at their end.
pub record DomainDict : Type 0 where
  pub tops : List Bytes
  pub countries : List Bytes
  pub seconds : List Bytes
  pub country_map : List (Bytes × List Bytes)

abbrev pub empty_dict : DomainDict
empty_dict = record { tops = []; countries = []; seconds = []; country_map = [] }

abbrev or_nil : Option (List Bytes) → List Bytes
or_nil none = []
or_nil (some l) = l

-- `country_domain_map_[key].push_back(v)`.
unfoldable pub push_country : Bytes → Bytes → List (Bytes × List Bytes) → List (Bytes × List Bytes)
push_country key v m = put key (or_nil (find key m) ++ v ∷ []) m

unfoldable pub add_top_domain : DomainDict → Bytes → DomainDict
add_top_domain d s = record d { tops = d.tops ++ reverse s ∷ [] }

unfoldable pub add_top_country : DomainDict → Bytes → DomainDict
add_top_country d s = record d { countries = d.countries ++ reverse s ∷ [] }

unfoldable pub add_general_2nd_domain : DomainDict → Bytes → DomainDict
add_general_2nd_domain d s = record d { seconds = d.seconds ++ reverse s ∷ [] }

unfoldable pub add_country_domain : DomainDict → Bytes → Bytes → DomainDict
add_country_domain d s w = record d {
  country_map = push_country (reverse s) (reverse (w ++ s)) d.country_map;
}

abbrev push_all : Bytes → List Bytes → List (Bytes × List Bytes) → List (Bytes × List Bytes)
push_all x [] m = m
push_all x (y ∷ ys) m = push_all x ys (push_country x y m)

abbrev push_entries :
    List (Bytes × List Bytes) → List (Bytes × List Bytes) → List (Bytes × List Bytes)
push_entries [] m = m
push_entries ((x, ys) ∷ es) m = push_entries es (push_all x ys m)

unfoldable pub load_default : DomainDict → DomainDict
load_default d = record {
  tops = d.tops ++ top_domain;
  countries = d.countries ++ top_country;
  seconds = d.seconds ++ general_2nd_domain;
  country_map = push_entries domain_map d.country_map;
}

-- The words of a line of the dictionary file; a missing one is empty.
abbrev word_at : List Bytes → ℕ → Bytes
word_at [] i = []
word_at (w ∷ ws) zero = w
word_at (w ∷ ws) (suc i) = word_at ws i

abbrev unless_empty : Bytes → DomainDict → Option DomainDict
unless_empty [] d = none
unless_empty (c ∷ s) d = some d

abbrev unless_both : Bytes → Bytes → DomainDict → Option DomainDict
unless_both [] t d = none
unless_both (c ∷ s) t d = unless_empty t d

-- `readline`; `none` is a return of false.
unfoldable pub read_line : DomainDict → Bytes → Option DomainDict
read_line d line =
    let ws = words [] line in
    let type = word_at ws 0 in
    let s = word_at ws 1 in
    let s2 = word_at ws 2 in
    if bytes_eq type (codes "td")
    then unless_empty s (add_top_domain d s)
    else if bytes_eq type (codes "tc")
    then unless_empty s (add_top_country d s)
    else if bytes_eq type (codes "2nd")
    then unless_empty s (add_general_2nd_domain d s)
    else if bytes_eq type (codes "cd")
    then unless_both s s2 (add_country_domain d s s2)
    else if bytes_eq type [] || bytes_eq type (codes "#")
    then some d
    else none

-- What `load_file` returns.
pub data Loaded : Type 0 where
  success error_param open_file_failed file_format_error : Loaded

abbrev load_lines : DomainDict → List Bytes → DomainDict × Loaded
load_lines d [] = (d, success)
load_lines d (l ∷ ls) = elim (read_line d l) [
  | none ↦ (d, file_format_error)
  | some e ↦ load_lines e ls
]

abbrev file_path : Bytes → Bytes → Bytes
file_path [] name = name
file_path (c ∷ s) name = (c ∷ s) ++ b'/' ∷ name

abbrev load_opened : DomainDict → Option (List Bytes) → DomainDict × Loaded
load_opened d none = (d, open_file_failed)
load_opened d (some ls) = load_lines d ls

-- `load_file`; `files` has the lines of the files that can be opened.
unfoldable pub load_file :
    (Bytes → Option (List Bytes)) → DomainDict → Bytes → Bytes → DomainDict × Loaded
load_file files d path [] = (d, error_param)
load_file files d path (c ∷ name) = load_opened d (files (file_path path (c ∷ name)))
