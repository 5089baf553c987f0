-- ===== src/Url/Normalize/Prefix.antt =====
-- A host in front of a port and a path, as `isnormalized_url` reads it.
use lspider.Common.{
  ℕ, suc, ◌≤◌, true, false, not, ◌&&◌, Option, none, some, [], ◌∷◌, ◌++◌, ◌≡◌, ◌≢◌, refl, subst,
  arith, ◌==◌, length, Bytes, All, elim_both, if_both,
}
use lspider.Url.Chars.{
  url_let_digit, url_let_dig_hy, to_char, url_digit, url_pchar, url_param, url_uch_res, uch_res,
}
use lspider.Url.Parse.{after_nocase, to_lower}
use lspider.Url.Site.{site_from, lowered, before, normalize_site}
use lspider.Url.Site.Host.{Host, host_end, host_byte, host_dot}
use lspider.Url.Site.Port.{GoodPort}
use lspider.Common.Decimal.{Digit}
use lspider.Url.Section.{Section, in_path, in_params, in_query, separated}
use lspider.Url.Section.Visible.{Visible}
use lspider.Url.Normalize.{
  host_ok, from_port, from_slash, path_ok, url_section, digits_of, after_digits,
}

-- The number of bytes that are left.
abbrev Short : ℕ → Option Bytes → Type 0
Short n none = Unit
Short n (some t) = length t ≤ n

before-Short : (c n : ℕ) (o : Option Bytes) → Short n o → Short (suc n) (before c o)
before-Short c n none h = tt
before-Short c n (some t) h = omega arith

more-Short : (n m : ℕ) (o : Option Bytes) → n ≤ m → Short n o → Short m o
more-Short n m none h k = tt
more-Short n m (some t) h k = omega arith

site_from-Short : (dots last : ℕ) (s : Bytes) → Short (length s) (site_from dots last s)
unfolding site_from
site_from-Short dots last [] =
    if_both (Short 0) (url_let_digit last && not (dots == 0)) _ _ (λ x. omega arith) λ x. tt
site_from-Short dots last (c ∷ []) =
    elim_both (Short 1) (url_let_dig_hy c) _ _
      (λ x. before-Short _ _ _ (site_from-Short dots (lowered c) []))
      λ x.
        elim_both (Short 1) (c == b'.' && url_let_digit last) _ _
          (λ x. before-Short c _ _ (site_from-Short (suc dots) c [])) λ x. tt
site_from-Short dots last (c ∷ d ∷ []) =
    elim_both (Short 2) (url_let_dig_hy c) _ _
      (λ x. before-Short _ _ _ (site_from-Short dots (lowered c) (d ∷ [])))
      λ x.
        elim_both (Short 2) (c == b'.' && url_let_digit last) _ _
          (λ x. before-Short c _ _ (site_from-Short (suc dots) c (d ∷ []))) λ x. tt
site_from-Short dots last (c ∷ d ∷ e ∷ s) =
    let n = suc (suc (suc (length s))) in
    elim_both (Short n) (url_let_dig_hy c) _ _
      (λ x. before-Short _ _ _ (site_from-Short dots (lowered c) (d ∷ e ∷ s)))
      λ x.
        elim_both (Short n) (c == b'%') _ _
          (λ x.
            elim_both (Short n) (url_let_dig_hy (to_char d e)) _ _
              (λ x.
                more-Short (suc (length s)) _ _ (omega arith)
                  (before-Short _ _ _ (site_from-Short dots (lowered (to_char d e)) s)))
              λ x. tt)
          λ x.
            elim_both (Short n) (c == b'.' && url_let_digit last) _ _
              (λ x. before-Short c _ _ (site_from-Short (suc dots) c (d ∷ e ∷ s))) λ x. tt

pub length-normalize_site : (s t : Bytes) → normalize_site s ≡ some t → length t ≤ length s
unfolding normalize_site
length-normalize_site [] t h = absurd (ground (arith, h))
length-normalize_site (c ∷ s) t h = subst (Short (length (c ∷ s))) h (
    if_both (Short (length (c ∷ s))) (url_let_dig_hy c) _ _ (λ x. site_from-Short 0 0 (c ∷ s))
      λ x. tt)

dot_no_byte : url_let_dig_hy b'.' ≡ false
unfolding url_let_dig_hy
dot_no_byte = refl

pub host_ok-append :
    (dots last d : ℕ) (t r : Bytes)
    → url_let_dig_hy d ≡ false
    → d ≢ b'.'
    → from_port (d ∷ r) ≡ true
    → Host dots last t
    → host_ok dots last (t ++ d ∷ r) ≡ true
unfolding host_ok
host_ok-append dots last d _ r h n e (host_end _ _ k p) = ground (arith, h, n, e, k, p)
host_ok-append dots last d _ r h n e (host_byte _ _ c t k p q) =
    ground (arith, k, p, host_ok-append dots c d t r h n e q)
host_ok-append dots last d _ r h n e (host_dot _ _ t k q) =
    ground (arith, k, dot_no_byte, host_ok-append (suc dots) b'.' d t r h n e q)

all_path : (sec : Section) (s : Bytes) → All Visible s → path_ok sec s ≡ true
unfolding path_ok url_section url_pchar url_param url_uch_res separated uch_res
all_path sec [] h = refl
all_path in_path (c ∷ s) h =
    ground (arith, h.0, all_path in_path s h.1, all_path in_params s h.1, all_path in_query s h.1)
all_path in_params (c ∷ s) h =
    ground (arith, h.0, all_path in_params s h.1, all_path in_query s h.1)
all_path in_query (c ∷ s) h = ground (arith, h.0, all_path in_query s h.1)

digits_slash :
    (p u : Bytes)
    → All Digit p
    → (digits_of (p ++ b'/' ∷ u) ≡ p) × (after_digits (p ++ b'/' ∷ u) ≡ b'/' ∷ u)
unfolding digits_of after_digits url_digit
digits_slash [] u h = (refl, refl)
digits_slash (c ∷ p) u h = (
  ground (arith, h.0.0, h.0.1, (digits_slash p u h.1).0),
  ground (arith, h.0.0, h.0.1, (digits_slash p u h.1).1),
)

pub slash_lem : (u : Bytes) → All Visible u → from_slash (b'/' ∷ u) ≡ true
unfolding from_slash
slash_lem u h = all_path in_path u h

pub port_lem : (p u : Bytes) → GoodPort p → All Visible u → from_port (b':' ∷ p ++ b'/' ∷ u) ≡ true
unfolding from_port
port_lem p u g h =
    rw ((digits_slash p u g.digits).0, (digits_slash p u g.digits).1) ground
      (arith, slash_lem u h, g.short, g.positive, g.in_range, g.not_default)

pub no_scheme :
    (letters rest t r : Bytes) (last : ℕ)
    → All (λ c. (97 ≤ c) × (c ≤ 122)) letters
    → Host 0 last t
    → after_nocase (letters ++ b':' ∷ rest) (t ++ r) ≡ none
unfolding after_nocase to_lower url_let_dig_hy
no_scheme [] rest _ r last h (host_end _ _ k p) = absurd (omega arith)
no_scheme [] rest _ r last h (host_byte _ _ c t k p q) = ground (arith, k)
no_scheme [] rest _ r last h (host_dot _ _ t k q) = ground arith
no_scheme (l ∷ ls) rest _ r last h (host_end _ _ k p) = absurd (omega arith)
no_scheme (l ∷ ls) rest _ r last h (host_byte _ _ c t k p q) =
    ground (arith, no_scheme ls rest t r c h.1 q)
no_scheme (l ∷ ls) rest _ r last h (host_dot _ _ t k q) = ground (arith, h.0.0, h.0.1)
