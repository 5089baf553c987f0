-- ===== src/Url/Site/Host.antt =====
-- What `normalize_site` leaves: a host of lower-case labels.
use lspider.Common.{
  ℕ, suc, ◌<◌, true, false, not, ◌&&◌, Option, none, some, [], ◌∷◌, ◌≡◌, ◌≢◌, subst, refl, ap, ◌∙◌,
  sym, inl, inr, Bool-cases, arith, ◌==◌, Bytes, if◌then◌else◌,
}
use lspider.Url.Chars.{url_let_digit, url_let_dig_hy, url_up_let, to_char}
use lspider.Url.Site.{site_from, lowered, before, normalize_site}

-- A host from a place on, after so many dots and the byte `last`: lower-case bytes of a label, and
-- dots; what stands before a dot or the end is a letter or digit.
pub data Host : ℕ → ℕ → Bytes → Type 0 where
  host_end : (dots last : ℕ) → url_let_digit last ≡ true → 0 < dots → Host dots last []
  host_byte :
      (dots last c : ℕ) (t : Bytes)
      → url_let_dig_hy c ≡ true
      → url_up_let c ≡ false
      → Host dots c t
      → Host dots last (c ∷ t)
  host_dot :
      (dots last : ℕ) (t : Bytes)
      → url_let_digit last ≡ true
      → Host (suc dots) b'.' t
      → Host dots last (b'.' ∷ t)

lowered_byte : (c : ℕ) → url_let_dig_hy c ≡ true → url_let_dig_hy (lowered c) ≡ true
unfolding url_let_dig_hy lowered url_up_let
lowered_byte c h = ground arith

lowered_case : (c : ℕ) → url_let_dig_hy c ≡ true → url_up_let (lowered c) ≡ false
unfolding url_let_dig_hy lowered url_up_let
lowered_case c h = ground arith

lowered_same : (c : ℕ) → url_up_let c ≡ false → lowered c ≡ c
unfolding lowered
lowered_same c h = ground arith

dot_byte : url_let_dig_hy b'.' ≡ false
unfolding url_let_dig_hy
dot_byte = refl

before_some :
    (c : ℕ) (o : Option Bytes) (t : Bytes)
    → before c o ≡ some t
    → (s : Bytes) × (o ≡ some s) × (t ≡ c ∷ s)
before_some c none t h = ground arith
before_some c (some s) t h = (s, refl, ground arith)

-- One step over a byte of a label, and over a dot.
on_byte :
    (dots last c : ℕ) (s : Bytes)
    → url_let_dig_hy c ≡ true
    → site_from dots last (c ∷ s) ≡ before (lowered c) (site_from dots (lowered c) s)
unfolding site_from
on_byte dots last c [] h = ground (arith, h)
on_byte dots last c (d ∷ []) h = ground (arith, h)
on_byte dots last c (d ∷ e ∷ s) h = ground (arith, h)

on_dot :
    (dots last : ℕ) (s : Bytes)
    → url_let_digit last ≡ true
    → site_from dots last (b'.' ∷ s) ≡ before b'.' (site_from (suc dots) b'.' s)
unfolding site_from
on_dot dots last [] h = ground (arith, h, dot_byte)
on_dot dots last (d ∷ []) h = ground (arith, h, dot_byte)
on_dot dots last (d ∷ e ∷ s) h = ground (arith, h, dot_byte)

site_from-Host_again :
    (dots last : ℕ) (t : Bytes) → Host dots last t → site_from dots last t ≡ some t
unfolding site_from
site_from-Host_again dots last _ (host_end _ _ h k) = ground (arith, h)
site_from-Host_again dots last _ (host_byte _ _ c t h k r) =
    on_byte dots last c t h ∙ rw (lowered_same c k, site_from-Host_again dots c t r) refl
site_from-Host_again dots last _ (host_dot _ _ t h r) =
    on_dot dots last t h ∙ ap (before b'.') (site_from-Host_again (suc dots) b'.' t r)

-- What follows a kept byte, and what follows a dot.
after_byte :
    (dots last c : ℕ) (o : Option Bytes) (t : Bytes)
    → url_let_dig_hy c ≡ true
    → ((r : Bytes) → o ≡ some r → Host dots (lowered c) r)
    → before (lowered c) o ≡ some t
    → Host dots last t
after_byte dots last c o t h k e =
    let (r, p, q) = before_some (lowered c) o t e in
    subst (Host dots last) (sym q)
      (host_byte dots last (lowered c) r (lowered_byte c h) (lowered_case c h) (k r p))

after_dot :
    (dots last c : ℕ) (o : Option Bytes) (t : Bytes)
    → ((r : Bytes) → o ≡ some r → Host (suc dots) c r)
    → (if c == b'.' && url_let_digit last then before c o else none) ≡ some t
    → Host dots last t
after_dot dots last c o t k e = elim (Bool-cases (c == b'.' && url_let_digit last)) [
  | inr h ↦ absurd (ground (arith, e, h))
  | inl h ↦
      let (r, p, q) = before_some c o t (ground (arith, e, h)) in
      subst (λ u. Host dots last u) (sym (q ∙ ap (λ d. d ∷ r) (dot_is c h)))
        (host_dot dots last r (last_is c h) (subst (λ d. Host (suc dots) d r) (dot_is c h) (k r p)))
]
  where
    dot_is : (c : ℕ) → (c == b'.' && url_let_digit last) ≡ true → c ≡ b'.'
    dot_is c h = ground arith

    last_is : (c : ℕ) → (c == b'.' && url_let_digit last) ≡ true → url_let_digit last ≡ true
    last_is c h = ground arith

-- A byte that is no part of a label and begins no escape.
on_other :
    (dots last c : ℕ) (s : Bytes)
    → url_let_dig_hy c ≡ false
    → (c == b'%') ≡ false
    → site_from dots last (c ∷ s)
      ≡ (if c == b'.' && url_let_digit last then before c (site_from (suc dots) c s) else none)
unfolding site_from
on_other dots last c [] h n = ground (arith, h)
on_other dots last c (d ∷ []) h n = ground (arith, h)
on_other dots last c (d ∷ e ∷ s) h n = ground (arith, h, n)

step_Host :
    (dots last c : ℕ) (s t : Bytes)
    → (c == b'%') ≡ false
    → ((m l : ℕ) (r : Bytes) → site_from m l s ≡ some r → Host m l r)
    → site_from dots last (c ∷ s) ≡ some t
    → Host dots last t
step_Host dots last c s t n k e = elim (Bool-cases (url_let_dig_hy c)) [
  | inl h ↦ after_byte dots last c _ t h (k dots (lowered c)) (sym (on_byte dots last c s h) ∙ e)
  | inr h ↦ after_dot dots last c _ t (k (suc dots) c) (sym (on_other dots last c s h n) ∙ e)
]

percent_byte : url_let_dig_hy b'%' ≡ false
unfolding url_let_dig_hy
percent_byte = refl

-- An escape.
escape_Host :
    (dots last d a : ℕ) (s t : Bytes)
    → ((m l : ℕ) (r : Bytes) → site_from m l s ≡ some r → Host m l r)
    → site_from dots last (b'%' ∷ d ∷ a ∷ s) ≡ some t
    → Host dots last t
unfolding site_from
escape_Host dots last d a s t k e = elim (Bool-cases (url_let_dig_hy (to_char d a))) [
  | inr h ↦ absurd (ground (arith, e, h, percent_byte))
  | inl h ↦
      after_byte dots last (to_char d a) _ t h (k dots (lowered (to_char d a)))
        (ground (arith, e, h, percent_byte))
]

short_escape : (dots last : ℕ) → site_from dots last (b'%' ∷ []) ≡ none
unfolding site_from
short_escape dots last = ground (arith, percent_byte)

cut_escape : (dots last d : ℕ) → site_from dots last (b'%' ∷ d ∷ []) ≡ none
unfolding site_from
cut_escape dots last d = ground (arith, percent_byte)

percent_is : (c : ℕ) → (c == b'%') ≡ true → c ≡ b'%'
percent_is c h = ground arith

none-some : {t : Bytes} → none ≢ some t
none-some e = ground (arith, e)

empty : (t : Bytes) → some [] ≡ some t → [] ≡ t
empty t e = ground (arith, e)

pub site_from-Host :
    (dots last : ℕ) (s t : Bytes) → site_from dots last s ≡ some t → Host dots last t
unfolding site_from
site_from-Host dots last [] t e = elim (Bool-cases (url_let_digit last && not (dots == 0))) [
  | inl h ↦
      subst (Host dots last) (empty t (ground (arith, e, h)))
        (host_end dots last (ground arith) (ground arith))
  | inr h ↦ absurd (ground (arith, e, h))
]
site_from-Host dots last (c ∷ []) t e = elim (Bool-cases (c == b'%')) [
  | inr n ↦ step_Host dots last c [] t n (λ m l r q. site_from-Host m l [] r q) e
  | inl n ↦ absurd (
      none-some (
        sym (short_escape dots last)
        ∙ subst (λ x. site_from dots last (x ∷ []) ≡ some t) (percent_is c n) e))
]
site_from-Host dots last (c ∷ d ∷ []) t e = elim (Bool-cases (c == b'%')) [
  | inr n ↦ step_Host dots last c (d ∷ []) t n (λ m l r q. site_from-Host m l (d ∷ []) r q) e
  | inl n ↦ absurd (
      none-some (
        sym (cut_escape dots last d)
        ∙ subst (λ x. site_from dots last (x ∷ d ∷ []) ≡ some t) (percent_is c n) e))
]
site_from-Host dots last (c ∷ d ∷ a ∷ s) t e = elim (Bool-cases (c == b'%')) [
  | inr n ↦ step_Host dots last c (d ∷ a ∷ s) t n (λ m l r q. site_from-Host m l (d ∷ a ∷ s) r q) e
  | inl n ↦
      escape_Host dots last d a s t (λ m l r q. site_from-Host m l s r q)
        (subst (λ x. site_from dots last (x ∷ d ∷ a ∷ s) ≡ some t) (percent_is c n) e)
]

site_first :
    (c : ℕ) (s t : Bytes)
    → url_let_dig_hy c ≡ true
    → site_from 0 0 (c ∷ s) ≡ some t
    → normalize_site t ≡ some t
unfolding normalize_site
site_first c s t h e =
    let (r, p, q) = before_some (lowered c) _ t (sym (on_byte 0 0 c s h) ∙ e) in
    let again = site_from-Host_again 0 0 t (site_from-Host 0 0 (c ∷ s) t e) in
    subst (λ u. site_from 0 0 u ≡ some u → normalize_site u ≡ some u) (sym q)
      (λ a. ground (arith, lowered_byte c h, a)) again

-- What `normalize_site` leaves is a host of at least two labels of lower-case letters, digits, `-`
-- and `_`, each of which ends in a letter or digit; a second call leaves it as it is.
pub normalize_site-Host :
    (s t : Bytes) → normalize_site s ≡ some t → Host 0 0 t × (normalize_site t ≡ some t)
unfolding normalize_site
normalize_site-Host [] t e = absurd (none-some e)
normalize_site-Host (c ∷ s) t e = elim (Bool-cases (url_let_dig_hy c)) [
  | inr h ↦ absurd (ground (arith, e, h))
  | inl h ↦
      let found : site_from 0 0 (c ∷ s) ≡ some t = ground (arith, e, h) in
      (site_from-Host 0 0 (c ∷ s) t found, site_first c s t h found)
]
