-- ===== src/Url/Parse/RoundTrip.antt =====
-- `parse_url` on a URL that is put together from its parts.
use lspider.Common.{
  ℕ, suc, ◌<◌, ◌≡◌, ◌≢◌, ◌⊎◌, inl, inr, refl, some, [], ◌∷◌, ◌++◌, arith, length, drop, All,
  All-append, Bytes, codes, Lacks, bytes_eq_iff, append-nil, take-length_append, drop-length_append,
}
use lspider.Url.Parse.{
  UrlParts, slash, strchr, cut_at, split_at, split_path, split_port, port_at, checked_port,
  strip_dots, site_part, parse_parts, parse_url, all_parts, max_site_len, max_path_len,
  max_port_len, max_url_len, skip_scheme,
}
use lspider.Url.Chars.{lfcr}
use lspider.Url.Parse.Strchr.{strchr-append, strchr-Lacks, NoBreak, delete_inter_lem}
use lspider.Url.Parse.Parts.{IsName, IsPort, IsPath, IsParsed, last}

abbrev pub port_text : Bytes → Bytes
port_text [] = []
port_text (c ∷ p) = b':' ∷ c ∷ p

abbrev pub authority : UrlParts → Bytes
authority u = u.site ++ port_text u.port

abbrev pub print_url : Bytes → UrlParts → Bytes
print_url scheme u = scheme ++ (authority u ++ u.path)

abbrev pub IsScheme : Bytes → Type 0
IsScheme s = (s ≡ codes "http://") ⊎ (s ≡ codes "https://")

-- Parts as `parse_url` returns them, with a site that is not empty, no `/` or `?` in the port and
-- no line break.
pub record IsPrintable (u : UrlParts) : Type 0 where
  pub parsed : IsParsed u
  pub named : u.site ≢ []
  pub no_slash : Lacks b'/' u.port
  pub no_query : Lacks b'?' u.port
  pub no_break : All NoBreak (authority u ++ u.path)

strip_dots_lem : (s : Bytes) → last s ≢ some b'.' → strip_dots s ≡ s
unfolding strip_dots
strip_dots_lem [] h = refl
strip_dots_lem (c ∷ []) h = ground arith
strip_dots_lem (c ∷ d ∷ s) h = rw (strip_dots_lem (d ∷ s) h)

site_part_lem :
    (s : Bytes)
    → s ≢ []
    → length s < max_site_len
    → last s ≢ some b'.'
    → site_part (some max_site_len) s ≡ some s
unfolding site_part
site_part_lem [] h k l = absurd (h refl)
site_part_lem (c ∷ s) h k l = ground (arith, strip_dots_lem (c ∷ s) l)

checked_port_lem : (p : Bytes) → IsPort p → p ≢ [] → checked_port p max_port_len ≡ some p
unfolding checked_port
checked_port_lem p (inl e) h = absurd (h e)
checked_port_lem p (inr (a, b, c)) h = ground (arith, bytes_eq_iff p (codes "80"))

strchr_found : (c : ℕ) (s t : Bytes) → Lacks c s → strchr (s ++ c ∷ t) c ≡ some (length s)
unfolding strchr
strchr_found c s t h = ground (arith, strchr-append c s (c ∷ t) h)

-- A `?` that stands after the first `/` does not begin the path.
cut_at-slash :
    (a r : Bytes)
    → Lacks b'?' a
    → cut_at (some (length a)) (strchr (a ++ b'/' ∷ r) b'?') ≡ slash (length a)
unfolding cut_at strchr
cut_at-slash a r h = ground (arith, strchr-append b'?' a (b'/' ∷ r) h)

drop-suc-length : (c : ℕ) (s t : Bytes) → drop (suc (length s)) (s ++ c ∷ t) ≡ t
drop-suc-length c [] t = refl
drop-suc-length c (d ∷ s) t = drop-suc-length c s t

split_port-authority :
    (s p : Bytes)
    → Lacks b':' s
    → IsPort p
    → split_port (some max_port_len) (s ++ port_text p) ≡ some (s, p)
unfolding split_port port_at
split_port-authority s [] l h = rw (append-nil s, strchr-Lacks b':' s l)
split_port-authority s (c ∷ p) l h = rw (
  strchr_found b':' s (c ∷ p) l,
  take-length_append s (b':' ∷ c ∷ p),
  drop-suc-length b':' s (c ∷ p),
  checked_port_lem (c ∷ p) h cc,
)

split_path-slash :
    (a r : Bytes)
    → Lacks b'/' a
    → Lacks b'?' a
    → length (b'/' ∷ r) < max_path_len
    → split_path (some max_path_len) (a ++ b'/' ∷ r) ≡ some (a, b'/' ∷ r)
unfolding split_path split_at
split_path-slash a r h k l =
    rw
      (
        strchr_found b'/' a r h,
        cut_at-slash a r k,
        take-length_append a (b'/' ∷ r),
        drop-length_append a (b'/' ∷ r),
      )
      (ground arith)

skip_scheme-IsScheme : (scheme s : Bytes) → IsScheme scheme → skip_scheme (scheme ++ s) ≡ s
unfolding skip_scheme
skip_scheme-IsScheme scheme s (inl e) = rw e refl
skip_scheme-IsScheme scheme s (inr e) = rw e refl

split_path-IsPath :
    (a p : Bytes)
    → Lacks b'/' a
    → Lacks b'?' a
    → IsPath p
    → split_path (some max_path_len) (a ++ p) ≡ some (a, p)
split_path-IsPath a p h k ((r, e), l) = rw e (split_path-slash a r h k (rw e at l))

port_text-Lacks : (c : ℕ) (p : Bytes) → b':' ≢ c → Lacks c p → Lacks c (port_text p)
port_text-Lacks c [] h k = tt
port_text-Lacks c (d ∷ p) h k = (h, k)

parse_parts-print :
    (u : UrlParts) → IsPrintable u → parse_parts all_parts (authority u ++ u.path) ≡ some u
unfolding parse_parts
parse_parts-print u v = rw (
  split_path-IsPath (authority u) u.path
      (All-append _ u.site _ n.0 (port_text-Lacks b'/' u.port (omega arith) v.no_slash))
      (All-append _ u.site _ n.1 (port_text-Lacks b'?' u.port (omega arith) v.no_query))
      v.parsed.path,
  split_port-authority u.site u.port n.2 v.parsed.port,
  site_part_lem u.site v.named v.parsed.fits v.parsed.no_dot,
)
  where
    n : IsName u.site
    n = v.parsed.name

IsScheme-NoBreak : (s : Bytes) → IsScheme s → All NoBreak s
unfolding lfcr
IsScheme-NoBreak s (inl e) = rw e (ground arith)
IsScheme-NoBreak s (inr e) = rw e (ground arith)

-- Parsing `scheme://site[:port]/path` gives the parts back, where the scheme is one that the parser
-- skips, the parts are printable in that form and fit their buffers, and the text is shorter than
-- `MAX_URL_LEN`.
pub parse_url-print :
    (scheme : Bytes) (u : UrlParts)
    → IsScheme scheme
    → IsPrintable u
    → length (print_url scheme u) < max_url_len
    → parse_url all_parts (print_url scheme u) ≡ some u
unfolding parse_url
parse_url-print scheme u e v h = ground (
  arith,
  delete_inter_lem (print_url scheme u)
      (All-append NoBreak scheme _ (IsScheme-NoBreak scheme e) v.no_break),
  skip_scheme-IsScheme scheme (authority u ++ u.path) e,
  parse_parts-print u v,
)
