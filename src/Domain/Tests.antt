-- ===== src/Domain/Tests.antt =====
-- The default dictionary on a few sites, and the hypotheses of the theorems.
use lspider.Common.{
  ℕ, ◌≡◌, ◌≤◌, ◌<◌, refl, true, false, Bool, ◌&&◌, leb, none, some, List, [], ◌∷◌, reverse, All,
  arith, Bytes, codes, length, take,
}
use lspider.Common.Maps.{find, put, insert, replace, bytes_lt}
use lspider.Domain.Dict.{DomainDict, empty_dict, load_default, push_country}
use lspider.Domain.{
  domain_from_site, listed, first_match, first_key, by_country, rev_match, rev_dot, with_label,
  last_two_parts, Found, fetched, fetch_maindomain, recovered, fetch_trunk_and_domain, is_dotip,
  suffix, strip_leading_dots, trunk_from_domain, first_label, fetch_url_maindomain,
}
use lspider.Domain.Suffix.{fetch_url_maindomain_fits}
use lspider.Url.Chars.{lfcr}
use lspider.Url.Parse.{
  parse_url, parse_parts, split_path, split_at, cut_at, strchr, skip_scheme, delete_inter,
  after_nocase, copy_part, port_at, site_part, split_port, strip_dots, to_lower, is_digit,
  max_site_len,
}
use lspider.Domain.Sound.{IsSound}
use lspider.Domain.Again.{domain_from_site-again}

abbrev dict : DomainDict
dict = load_default empty_dict

all_leb : ℕ → List Bytes → Bool
all_leb k [] = true
all_leb k (p ∷ ps) = leb k (length p) && all_leb k ps

all_leb_sound : (k : ℕ) (ps : List Bytes) → all_leb k ps ≡ true → All (λ p. k ≤ length p) ps
unfolding all_leb
all_leb_sound k [] h = tt
all_leb_sound k (p ∷ ps) h = ground (arith, all_leb_sound k ps)

short_keys : List (Bytes × List Bytes) → Bool
short_keys [] = true
short_keys ((k, l) ∷ m) = leb (length k) 3 && short_keys m

short_keys_sound :
    (m : List (Bytes × List Bytes)) → short_keys m ≡ true → All (λ e. length e.0 ≤ 3) m
unfolding short_keys
short_keys_sound [] h = tt
short_keys_sound ((k, l) ∷ m) h = ground (arith, short_keys_sound m)

long_ends : List (Bytes × List Bytes) → Bool
long_ends [] = true
long_ends ((k, l) ∷ m) = all_leb 3 l && long_ends m

long_ends_sound :
    (m : List (Bytes × List Bytes)) → long_ends m ≡ true → All (λ e. All (λ p. 3 ≤ length p) e.1) m
unfolding long_ends
long_ends_sound [] h = tt
long_ends_sound ((k, l) ∷ m) h = ground (arith, all_leb_sound 3 l, long_ends_sound m)

-- The tables of the program are a sound dictionary.
dict-IsSound : IsSound dict
unfolding load_default all_leb short_keys long_ends push_country put find insert replace bytes_lt
dict-IsSound = record {
  tops = all_leb_sound 1 dict.tops refl;
  countries = all_leb_sound 3 dict.countries refl;
  seconds = all_leb_sound 1 dict.seconds refl;
  keys = short_keys_sound dict.country_map refl;
  ends = long_ends_sound dict.country_map refl;
}

abbrev site : Bytes
site = reverse (codes "www.news.com.cn")

listed_site : listed dict site ≡ some (reverse (codes "www.news"))
unfolding load_default push_country put find insert replace bytes_lt listed first_match first_key
    by_country rev_match
listed_site = refl

domain_from_site-again_example :
    (n : ℕ) × (domain_from_site dict site ≡ some n)
    × (1 ≤ n)
    × (n ≤ length site)
    × (domain_from_site dict (take n site) ≡ some n)
domain_from_site-again_example =
    domain_from_site-again dict site (reverse (codes "www.news")) dict-IsSound listed_site

-- `news.com.cn`.
domain_site : domain_from_site dict site ≡ some 11
unfolding load_default push_country put find insert replace bytes_lt domain_from_site listed
    first_match first_key by_country rev_match rev_dot with_label
domain_site = refl

-- With a top domain that no table has, a site of two labels has no main domain.
no_domain_site : domain_from_site dict (reverse (codes "foo.wiki")) ≡ none
unfolding load_default push_country put find insert replace bytes_lt domain_from_site listed
    first_match first_key by_country rev_match last_two_parts
no_domain_site = refl

abbrev news : Found
news = record { domain = codes "news.com.cn"; trunk = some (codes "news") }

news_fetched : fetch_maindomain (codes "www.news.com.cn") (some 64) false ≡ fetched news
unfolding load_default push_country put find insert replace bytes_lt domain_from_site listed
    first_match first_key by_country rev_match rev_dot with_label fetch_maindomain recovered
    fetch_trunk_and_domain is_dotip is_digit suffix strip_leading_dots trunk_from_domain first_label
news_fetched = refl

news_url : fetch_url_maindomain (codes "http://www.news.com.cn/a") ≡ some (codes "news.com.cn")
unfolding load_default push_country put find insert replace bytes_lt domain_from_site listed
    first_match first_key by_country rev_match rev_dot with_label fetch_maindomain recovered
    fetch_trunk_and_domain is_dotip is_digit suffix strip_leading_dots trunk_from_domain first_label
    fetch_url_maindomain parse_url parse_parts split_path split_at cut_at strchr skip_scheme
    delete_inter lfcr after_nocase copy_part port_at site_part split_port strip_dots to_lower
news_url = refl

fetch_url_maindomain_fits_example : length (codes "news.com.cn") < max_site_len
fetch_url_maindomain_fits_example =
    fetch_url_maindomain_fits (codes "http://www.news.com.cn/a") (codes "news.com.cn") news_url
