-- ===== src/Domain/Suffix.antt =====
-- The main domain as a part of the site and of the URL.
use lspider.Common.{
  ℕ, zero, suc, ◌-◌, ◌≤◌, ◌<◌, ◌≡◌, refl, sym, ap, ◌∙◌, Bool, true, false, Bool-cases, if_both,
  subst, reverse, Option, none, some, Option-cases, inl, inr, [], ◌∷◌, ◌++◌, arith, length,
  length-append, append_assoc, drop, Bytes, ltb, ◌==◌,
}
use lspider.Url.Parse.{
  parse_url, parse_parts, site_part, split_path, split_port, max_site_len, UrlParts, skip_scheme,
  delete_inter,
}
use lspider.Url.Parse.Parts.{>>=-some, length-strip_dots}
use lspider.Domain.Dict.{DomainDict, empty_dict, load_default}
use lspider.Domain.{
  strip_leading_dots, suffix, of_domain, of_address, with_trunk, domain_of, Found, Fetch, fetched,
  no_domain, null_written, recovered, fetch_trunk_and_domain, fetch_maindomain,
  fetch_url_maindomain, only_site, is_dotip, domain_from_site,
}

-- `t` is the end of `s`.
abbrev pub IsEnd : Bytes → Bytes → Type 0
IsEnd s t = (r : Bytes) × (s ≡ r ++ t)

IsEnd-drop : (n : ℕ) (s : Bytes) → IsEnd s (drop n s)
IsEnd-drop zero s = ([], refl)
IsEnd-drop (suc n) [] = ([], refl)
IsEnd-drop (suc n) (c ∷ s) = let (r, e) = IsEnd-drop n s in (c ∷ r, ap (◌∷◌ c) e)

IsEnd-strip : (s : Bytes) → IsEnd s (strip_leading_dots s)
unfolding strip_leading_dots
IsEnd-strip [] = ([], refl)
IsEnd-strip (c ∷ s) = elim (Bool-cases (c == b'.')) [
  | inl e ↦ let (r, f) = IsEnd-strip s in rw e (c ∷ r, ap (◌∷◌ c) f)
  | inr e ↦ rw e ([], refl)
]

IsEnd-then : (s t u : Bytes) → IsEnd s t → IsEnd t u → IsEnd s u
IsEnd-then s t u (a, e) (b, f) = (a ++ b, e ∙ ap (◌++◌ a) f ∙ sym (append_assoc a b u))

IsEnd-suffix : (n : ℕ) (s : Bytes) → IsEnd s (strip_leading_dots (suffix n s))
unfolding suffix
IsEnd-suffix n s =
    IsEnd-then s (suffix n s) (strip_leading_dots (suffix n s)) (IsEnd-drop (length s - n) s)
      (IsEnd-strip (suffix n s))

length-IsEnd : (s t : Bytes) → IsEnd s t → length t ≤ length s
length-IsEnd s t (r, e) = omega (arith, ap (length {A = ℕ}) e, length-append r t)

abbrev FoundEnd : Bytes → Option Found → Type 0
FoundEnd s none = Unit
FoundEnd s (some f) = IsEnd s f.domain

abbrev FetchEnd : Bytes → Fetch → Type 0
FetchEnd s (fetched f) = IsEnd s f.domain
FetchEnd s no_domain = Unit
FetchEnd s null_written = Unit

FoundEnd-address : (s : Bytes) (size : Option ℕ) → FoundEnd s (of_address s size)
FoundEnd-address s none = ([], refl)
FoundEnd-address s (some n) = elim (Bool-cases (ltb (length s) n)) [
  | inl e ↦ rw e ([], refl)
  | inr e ↦ rw e tt
]

FoundEnd-with_trunk : (s t : Bytes) (o : Option Bytes) → IsEnd s t → FoundEnd s (with_trunk t o)
FoundEnd-with_trunk s t none h = tt
FoundEnd-with_trunk s t (some u) h = h

FoundEnd-domain : (s : Bytes) (n : Option ℕ) (size : Option ℕ) → FoundEnd s (of_domain n s size)
FoundEnd-domain s none size = tt
FoundEnd-domain s (some n) none = IsEnd-suffix n s
FoundEnd-domain s (some n) (some size) =
    FoundEnd-with_trunk s (strip_leading_dots (suffix n s)) _ (IsEnd-suffix n s)

FoundEnd-fetch :
    (d : DomainDict) (s : Bytes) (size : Option ℕ) → FoundEnd s (fetch_trunk_and_domain d s size)
unfolding fetch_trunk_and_domain
FoundEnd-fetch d s size =
    if_both (FoundEnd s) (is_dotip 0 s) _ _ (λ e. FoundEnd-address s size)
      λ e. FoundEnd-domain s (domain_from_site d (reverse s)) size

FetchEnd-recovered :
    (mode : Bool) (s : Bytes) (size : Option ℕ) (o : Option Found)
    → FoundEnd s o
    → FetchEnd s (recovered mode s size o)
unfolding recovered
FetchEnd-recovered mode s size (some f) h = h
FetchEnd-recovered false s size none h = tt
FetchEnd-recovered true s none none h = tt
FetchEnd-recovered true s (some n) none h = ([], refl)

FetchEnd-maindomain :
    (site : Bytes) (size : Option ℕ) (mode : Bool) → FetchEnd site (fetch_maindomain site size mode)
unfolding fetch_maindomain
FetchEnd-maindomain site size mode =
    FetchEnd-recovered mode site size _ (FoundEnd-fetch (load_default empty_dict) site size)

-- The main domain that `fetch_maindomain` returns is the end of the site, for every buffer and in
-- either mode.
pub fetch_maindomain-IsEnd :
    (site : Bytes) (size : Option ℕ) (mode : Bool) (f : Found)
    → fetch_maindomain site size mode ≡ fetched f
    → IsEnd site f.domain
fetch_maindomain-IsEnd site size mode f h =
    subst (FetchEnd site) h (FetchEnd-maindomain site size mode)

domain_of_le : (s t : Bytes) (f : Fetch) → FetchEnd s f → domain_of f ≡ some t → length t ≤ length s
domain_of_le s t (fetched f) h e = ground (arith, length-IsEnd s f.domain h)
domain_of_le s t no_domain h e = cc
domain_of_le s t null_written h e = cc

site_part_fits : (s t : Bytes) → site_part (some max_site_len) s ≡ some t → length t < max_site_len
unfolding site_part
site_part_fits [] t h = cc
site_part_fits (c ∷ s) t h = ground (arith, length-strip_dots (c ∷ s))

parse_parts_fits :
    (s : Bytes) (p : UrlParts) → parse_parts only_site s ≡ some p → length p.site < max_site_len
unfolding parse_parts
parse_parts_fits s p e =
    let ((a, path), ea, e1) = >>=-some (split_path none s) _ e in
    let ((h, port), eh, e2) = >>=-some (split_port none a) _ e1 in
    let (t, et, e3) = >>=-some (site_part (some max_site_len) h) _ e2 in
    ground (arith, site_part_fits h t et, e3)

parse_url_fits :
    (url : Bytes) (p : UrlParts) → parse_url only_site url ≡ some p → length p.site < max_site_len
unfolding parse_url
parse_url_fits url p h = ground (arith, parse_parts_fits (skip_scheme (delete_inter url)) p)

-- The main domain that `fetch_url_maindomain` returns fits the buffer of `MAX_SITE_LEN` bytes with
-- its terminating zero.
pub fetch_url_maindomain_fits :
    (url domain : Bytes) → fetch_url_maindomain url ≡ some domain → length domain < max_site_len
unfolding fetch_url_maindomain
fetch_url_maindomain_fits url domain h = elim (Option-cases (parse_url only_site url)) [
  | inl e ↦ absurd (ground (arith, e))
  | inr (p, e) ↦ ground (
    arith,
    e,
    parse_url_fits url p e,
    domain_of_le p.site domain (fetch_maindomain p.site none false)
        (FetchEnd-maindomain p.site none false),
  )
]
