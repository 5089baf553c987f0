-- ===== src/Url/Normalize/Accepted.antt =====
-- `isnormalized_url` on what `normalize_url` gives.
use lspider.Common.{
  ℕ, zero, suc, ◌-◌, ◌<◌, ◌≤◌, true, false, none, some, [], ◌∷◌, ◌⊎◌, ◌++◌, ◌≡◌, ◌≢◌, refl, ap, ◌∙◌,
  sym, subst, inl, inr, arith, length, Bytes, All, codes, take, length-take,
}
use lspider.Url.Chars.{url_let_dig_hy, url_let_digit, pchar}
use lspider.Url.Parse.{parse_url, all_parts, max_url_len, max_path_len, max_site_len}
use lspider.Url.Parse.Parts.{parse_url-IsParsed, >>=-some}
use lspider.Url.Escape.{escaped, space_escape_path-escaped}
use lspider.Url.Site.{normalize_site, normalize_port}
use lspider.Url.Site.Host.{Host, host_end, host_byte, host_dot, normalize_site-Host}
use lspider.Url.Site.Port.{GoodPort, normalize_port-GoodPort}
use lspider.Url.Section.{
  in_path, of_section, separated, Written, put_all, single_from, with_spaces, single_path_nointer,
}
use lspider.Url.Section.Visible.{Visible, single_path_nointer-Plain}
use lspider.Url.Dots.{normalize_path}
use lspider.Url.Dots.Rooted.{normalize_path-All}
use lspider.Url.Parse.Strchr.{All-take}
use lspider.Url.Normalize.{joined, normalize_url, isnormalized_url, has_scheme, host_ok, from_port}
use lspider.Url.Normalize.Prefix.{
  host_ok-append, length-normalize_site, slash_lem, port_lem, no_scheme,
}

slash_first :
    (s : Bytes) → single_from in_path (b'/' ∷ s) ≡ put_all (b'/' ∷ []) (single_from in_path s)
unfolding single_from of_section separated pchar
slash_first [] = refl
slash_first (c ∷ []) = refl
slash_first (c ∷ d ∷ s) = refl

with_spaces_root :
    (w : Written) (len : ℕ) (t : Bytes)
    → with_spaces len (put_all (b'/' ∷ []) w) ≡ some t
    → (u : Bytes) × (t ≡ b'/' ∷ u)
with_spaces_root none len t e = absurd (ground (arith, e))
with_spaces_root (some (s, false)) len t e = (s, ground (arith, e))
with_spaces_root (some (s, true)) len t e =
    (escaped s, ground (arith, e, (space_escape_path-escaped max_path_len (b'/' ∷ s)).0))

single_path_nointer_root :
    (s t : Bytes)
    → single_path_nointer (b'/' ∷ s) max_path_len ≡ some t
    → (u : Bytes) × (t ≡ b'/' ∷ u)
unfolding single_path_nointer
single_path_nointer_root s t e =
    with_spaces_root (single_from in_path s) max_path_len t
      (ap (with_spaces max_path_len) (sym (slash_first s)) ∙ e)

take_over : (n : ℕ) (t r : Bytes) → length t ≤ n → take n (t ++ r) ≡ t ++ take (n - length t) r
take_over n [] r h = ap (λ k. take k r) (omega arith)
take_over zero (c ∷ t) r h = absurd (omega arith)
take_over (suc n) (c ∷ t) r h = ap (λ u. c ∷ u) (take_over n t r (omega arith)) ∙ ground arith

-- What follows the site.
abbrev rest_of : Bytes → Bytes → Bytes
rest_of [] file = file
rest_of (c ∷ port) file = b':' ∷ c ∷ (port ++ file)

joined_lem : (site port file : Bytes) → joined site port file ≡ site ++ rest_of port file
unfolding joined
joined_lem site [] file = refl
joined_lem site (c ∷ port) file = refl

-- A port and a path as they may follow a host.
abbrev Follows : Bytes → Type 0
Follows r =
    (d : ℕ) × (u : Bytes) × (r ≡ d ∷ u)
    × (url_let_dig_hy d ≡ false)
    × (d ≢ b'.')
    × (from_port r ≡ true)

slash_Follows : (u : Bytes) → All Visible u → Follows (b'/' ∷ u)
unfolding url_let_dig_hy from_port
slash_Follows u h = (b'/', u, refl, refl, (λ e. ground (arith, e)), slash_lem u h)

colon_Follows : (p u : Bytes) → GoodPort p → All Visible u → Follows (b':' ∷ p ++ b'/' ∷ u)
unfolding url_let_dig_hy
colon_Follows p u g h =
    (b':', p ++ b'/' ∷ u, refl, refl, (λ e. ground (arith, e)), port_lem p u g h)

cut_slash : (n : ℕ) (w : Bytes) → 0 < n → All Visible w → Follows (take n (b'/' ∷ w))
cut_slash zero w h k = absurd (omega arith)
cut_slash (suc n) w h k = slash_Follows (take n w) (All-take Visible w n k)

took : (m : ℕ) (w : Bytes) → 0 < m → take m (b'/' ∷ w) ≡ b'/' ∷ take (m - 1) w
took zero w h = absurd (omega arith)
took (suc m) w h = ap (λ k. b'/' ∷ take k w) (omega arith)

cut_port :
    (n : ℕ) (p w : Bytes)
    → 6 < n
    → GoodPort p
    → All Visible w
    → Follows (take n (b':' ∷ p ++ b'/' ∷ w))
cut_port zero p w h g k = absurd (omega arith)
cut_port (suc n) p w h g k =
    subst Follows
      (sym (
        ap (λ u. b':' ∷ u)
          (take_over n p (b'/' ∷ w) (omega (arith, g.short))
            ∙ ap (λ u. p ++ u) (took (n - length p) w (omega (arith, g.short))))))
      (colon_Follows p (take (n - length p - 1) w) g (All-take Visible w (n - length p - 1) k))

cut_rest :
    (n : ℕ) (p w : Bytes)
    → 6 < n
    → (p ≡ []) ⊎ GoodPort p
    → All Visible w
    → Follows (take n (rest_of p (b'/' ∷ w)))
cut_rest n [] w h g k = cut_slash n w (omega arith) k
cut_rest n (c ∷ p) w h (inl e) k = absurd (ground (arith, e))
cut_rest n (c ∷ p) w h (inr g) k = cut_port n (c ∷ p) w h g k

from_start : (outside : ℕ) (t : Bytes) → Host 0 0 t → Host 0 outside t
unfolding url_let_digit
from_start outside _ (host_end _ _ k p) = absurd (omega arith)
from_start outside _ (host_byte _ _ c t k p q) = host_byte 0 outside c t k p q
from_start outside _ (host_dot _ _ t k q) = absurd (ground (arith, k))

http_letters :
    All (λ c. (97 ≤ c) × (c ≤ 122)) (codes "http") × All (λ c. (97 ≤ c) × (c ≤ 122)) (codes "https")
http_letters = (
  (
    (omega arith, omega arith),
    ((omega arith, omega arith), ((omega arith, omega arith), ((omega arith, omega arith), tt))),
  ),
  (
    (omega arith, omega arith),
    (
      (omega arith, omega arith),
      ((omega arith, omega arith), ((omega arith, omega arith), ((omega arith, omega arith), tt))),
    ),
  ),
)

without_scheme : (t r : Bytes) → Host 0 0 t → has_scheme (t ++ r) ≡ false
without_scheme t r h =
    rw
      (
        has_scheme,
        no_scheme (codes "http") (codes "//") t r 0 http_letters.0 h,
        no_scheme (codes "https") (codes "//") t r 0 http_letters.1 h,
      )
      refl

accepted :
    (outside : ℕ) (t r : Bytes)
    → Host 0 0 t
    → Follows r
    → length (t ++ r) < max_url_len
    → isnormalized_url outside (t ++ r) ≡ true
unfolding isnormalized_url
accepted outside t r h (d, u, e, k, n, f) l = ground (
  arith,
  without_scheme t r h,
  subst (λ x. host_ok 0 outside (t ++ x) ≡ true) (sym e)
      (host_ok-append 0 outside d t u k n (subst (λ x. from_port x ≡ true) e f)
        (from_start outside t h)),
  l,
)

joined_accepted :
    (outside size : ℕ) (site port w : Bytes)
    → Host 0 0 site
    → length site < max_site_len
    → (port ≡ []) ⊎ GoodPort port
    → All Visible w
    → 262 < size
    → size ≤ max_url_len
    → isnormalized_url outside (take (size - 1) (joined site port (b'/' ∷ w))) ≡ true
joined_accepted outside size site port w h l p v small big =
    let n = size - 1 in
    let same : take n (joined site port (b'/' ∷ w))
        ≡ site ++ take (n - length site) (rest_of port (b'/' ∷ w)) =
      ap (take n) (joined_lem site port (b'/' ∷ w))
      ∙ take_over n site (rest_of port (b'/' ∷ w)) (omega arith) in
    subst (λ u. isnormalized_url outside u ≡ true) (sym same)
      (accepted outside site _ h (cut_rest (n - length site) port w (omega arith) p v) (
        subst (λ u. length u < max_url_len) same
          (omega (arith, length-take n (joined site port (b'/' ∷ w))))))

-- For a buffer of 263 to `MAX_URL_LEN` bytes, what `normalize_url` gives passes `isnormalized_url`,
-- whatever byte stands in memory before it.
pub normalize_url-isnormalized_url :
    (outside size : ℕ) (url t : Bytes)
    → 262 < size
    → size ≤ max_url_len
    → normalize_url url size ≡ some t
    → isnormalized_url outside t ≡ true
unfolding normalize_url
normalize_url-isnormalized_url outside size url t small big e =
    let (u, eu, e1) = >>=-some (parse_url all_parts url) _ e in
    let (site, es, e2) = >>=-some (normalize_site u.site) _ e1 in
    let (port, ep, e3) = >>=-some (normalize_port u.port) _ e2 in
    let (file, ef, e4) = >>=-some (single_path_nointer u.path max_path_len) _ e3 in
    let parsed = parse_url-IsParsed url u eu in
    let (r, er) = parsed.path.0 in
    let plain = single_path_nointer-Plain u.path file parsed.path.1 ef in
    let (f, root) =
      single_path_nointer_root r file
        (subst (λ p. single_path_nointer p max_path_len ≡ some file) er ef) in
    let (w, vw, ew) = normalize_path-All Visible f (subst (All Visible) root plain.visible) in
    let whole : take (size - 1) (joined site port (b'/' ∷ w)) ≡ t =
      ap (λ p. take (size - 1) (joined site port p)) (sym ew ∙ ap normalize_path (sym root))
      ∙ ground (arith, e4) in
    subst (λ v. isnormalized_url outside v ≡ true) whole
      (joined_accepted outside size site port w (normalize_site-Host u.site site es).0
        (omega (arith, length-normalize_site u.site site es, parsed.fits))
        (normalize_port-GoodPort u.port port ep).0 vw small big)
