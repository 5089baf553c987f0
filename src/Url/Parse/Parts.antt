-- ===== src/Url/Parse/Parts.antt =====
-- The parts that `parse_url` returns, and their buffers.
use lspider.Common.{
  ℕ, suc, ◌-◌, ◌≤◌, ◌<◌, ◌≡◌, ◌≢◌, ◌⊎◌, refl, Option, none, some, [], ◌∷◌, arith, length, take,
  drop, Bytes, codes, Lacks, bytes_eq_iff, subst,
}
use lspider.Url.Parse.{
  UrlParts, strchr, delete_inter, cut_at, split_at, split_path, split_port, port_at, checked_port,
  strip_dots, site_part, parse_parts, parse_url, all_parts, ◌>>=◌, with_host, atoi, max_site_len,
  max_path_len, max_port_len, skip_scheme,
}
use lspider.Url.Parse.Strchr.{strchr-none, take-Lacks, All-take, drop-strchr}

abbrev pub last : Bytes → Option ℕ
last [] = none
last (c ∷ []) = some c
last (c ∷ d ∷ s) = last (d ∷ s)

abbrev pub IsPath : Bytes → Type 0
IsPath p = ((r : Bytes) × (p ≡ b'/' ∷ r)) × (length p < max_path_len)

-- No port, or a number that is not the default.
abbrev pub IsPort : Bytes → Type 0
IsPort p = (p ≡ []) ⊎ ((0 < atoi p) × (suc (length p) < max_port_len) × (p ≢ codes "80"))

abbrev pub IsName : Bytes → Type 0
IsName s = Lacks b'/' s × Lacks b'?' s × Lacks b':' s

pub record IsParsed (u : UrlParts) : Type 0 where
  pub name : IsName u.site
  pub fits : length u.site < max_site_len
  pub no_dot : last u.site ≢ some b'.'
  pub port : IsPort u.port
  pub path : IsPath u.path

abbrev IsSplit : Bytes × Bytes → Type 0
IsSplit r = Lacks b'/' r.0 × Lacks b'?' r.0 × IsPath r.1

IsSplit-at_whole :
    (s : Bytes) → strchr s b'/' ≡ none → strchr s b'?' ≡ none → IsSplit (s, b'/' ∷ [])
IsSplit-at_whole s e f = (strchr-none b'/' s e, strchr-none b'?' s f, (([], refl), omega arith))

IsSplit-at_slash :
    (s : Bytes) (p : ℕ)
    → strchr s b'/' ≡ some p
    → Lacks b'?' (take p s)
    → length (drop p s) < max_path_len
    → IsSplit (take p s, drop p s)
IsSplit-at_slash s p e f h =
    (take-Lacks b'/' s p p e (omega arith), f, ((drop (suc p) s, drop-strchr b'/' s p e), h))

IsSplit-at_query :
    (s : Bytes) (q : ℕ)
    → strchr s b'?' ≡ some q
    → Lacks b'/' (take q s)
    → length (drop q s) < max_path_len - 1
    → IsSplit (take q s, b'/' ∷ drop q s)
IsSplit-at_query s q e f h =
    (f, take-Lacks b'?' s q q e (omega arith), ((drop q s, refl), omega arith))

-- With both places known the cut is one of the three above.
split_at-IsSplit :
    (s : Bytes) (p q : Option ℕ) {r : Bytes × Bytes}
    → strchr s b'/' ≡ p
    → strchr s b'?' ≡ q
    → split_at (some max_path_len) s (cut_at p q) ≡ some r
    → IsSplit r
unfolding split_at cut_at
split_at-IsSplit s none none e f h = ground (arith, IsSplit-at_whole s e f)
split_at-IsSplit s none (some q) e f h =
    ground (arith, IsSplit-at_query s q f (All-take _ s q (strchr-none b'/' s e)))
split_at-IsSplit s (some p) none e f h =
    ground (arith, IsSplit-at_slash s p e (All-take _ s p (strchr-none b'?' s f)))
split_at-IsSplit s (some p) (some q) e f h = ground (
  arith,
  IsSplit-at_query s q f,
  take-Lacks b'/' s p q e,
  IsSplit-at_slash s p e,
  take-Lacks b'?' s q p f,
)

split_path-IsSplit :
    (s : Bytes) {r : Bytes × Bytes} → split_path (some max_path_len) s ≡ some r → IsSplit r
unfolding split_path
split_path-IsSplit s h = split_at-IsSplit s _ _ refl refl h

checked_port-IsPort : (s : Bytes) {r : Bytes} → checked_port s max_port_len ≡ some r → IsPort r
unfolding checked_port
checked_port-IsPort s h = ground (arith, bytes_eq_iff s (codes "80"))

port_at-IsPort :
    (s : Bytes) (q : Option ℕ) {r : Bytes × Bytes}
    → strchr s b':' ≡ q
    → port_at (some max_port_len) s q ≡ some r
    → Lacks b':' r.0 × IsPort r.1
unfolding port_at
port_at-IsPort s none e h = ground (arith, strchr-none b':' s e)
port_at-IsPort s (some q) e h =
    ground (arith, take-Lacks b':' s q q e, checked_port-IsPort (drop (suc q) s))

with_host-first :
    (host : Bytes) (o : Option Bytes) {r : Bytes × Bytes} → with_host host o ≡ some r → host ≡ r.0
with_host-first host none h = cc
with_host-first host (some path) h = cc

port_at-Lacks :
    (c : ℕ) (s : Bytes) (q : Option ℕ) {r : Bytes × Bytes}
    → port_at (some max_port_len) s q ≡ some r
    → Lacks c s
    → Lacks c r.0
unfolding port_at
port_at-Lacks c s none h k = ground arith
port_at-Lacks c s (some q) h k = subst (Lacks c) (with_host-first (take q s) _ h) (All-take _ s q k)

strip_dots-Lacks : (c : ℕ) (s : Bytes) → Lacks c s → Lacks c (strip_dots s)
unfolding strip_dots
strip_dots-Lacks c [] h = tt
strip_dots-Lacks c (d ∷ s) h = ground (arith, strip_dots-Lacks c s h.1)

pub length-strip_dots : (s : Bytes) → length (strip_dots s) ≤ length s
unfolding strip_dots
length-strip_dots [] = omega arith
length-strip_dots (c ∷ s) = ground (arith, length-strip_dots s)

last-strip_dots : (s : Bytes) → last (strip_dots s) ≢ some b'.'
unfolding strip_dots
last-strip_dots [] = cc
last-strip_dots (c ∷ s) = ground (arith, last-strip_dots s)

site_part-IsName :
    (s : Bytes) {t : Bytes}
    → site_part (some max_site_len) s ≡ some t
    → IsName s
    → IsName t × (length t < max_site_len) × (last t ≢ some b'.')
unfolding site_part
site_part-IsName [] h k = cc
site_part-IsName (c ∷ s) h (a, b, d) = ground (
  arith,
  strip_dots-Lacks b'/' (c ∷ s) a,
  strip_dots-Lacks b'?' (c ∷ s) b,
  strip_dots-Lacks b':' (c ∷ s) d,
  length-strip_dots (c ∷ s),
  last-strip_dots (c ∷ s),
)

pub >>=-some {ℓ κ} :
    {A : Type ℓ} {B : Type κ} (m : Option A) (f : A → Option B) {b : B}
    → (m >>= f) ≡ some b
    → (a : A) × (m ≡ some a) × (f a ≡ some b)
>>=-some none f h = cc
>>=-some (some a) f h = (a, refl, h)

-- The parts before they are put into the record.
site_of-IsParsed :
    (h p path : Bytes) (u : UrlParts)
    → IsName h
    → IsPort p
    → IsPath path
    → (site_part (some max_site_len) h >>= λ s. some (record { site = s; port = p; path = path }))
      ≡ some u
    → IsParsed u
site_of-IsParsed h p path u n k l e =
    let (s, es, eu) = >>=-some (site_part (some max_site_len) h) _ e in
    ground (arith, site_part-IsName h es n)

parse_parts-IsParsed : (s : Bytes) (u : UrlParts) → parse_parts all_parts s ≡ some u → IsParsed u
unfolding parse_parts split_port
parse_parts-IsParsed s u e =
    let ((a, path), ea, e1) = >>=-some (split_path (some max_path_len) s) _ e in
    let ((h, p), eh, e2) = >>=-some (split_port (some max_port_len) a) _ e1 in
    let (na, nq, np) = split_path-IsSplit s ea in
    let (nc, port) = port_at-IsPort a _ refl eh in
    site_of-IsParsed h p path u (port_at-Lacks b'/' a _ eh na, port_at-Lacks b'?' a _ eh nq, nc)
      port np e2

-- On success every part fits the buffer of its caller with its terminating zero, the site has no
-- `/`, `?` or `:` and does not end with a dot, the port is empty or a positive number other than
-- the default `80`, and the path begins with `/`.
pub parse_url-IsParsed :
    (input : Bytes) (u : UrlParts) → parse_url all_parts input ≡ some u → IsParsed u
unfolding parse_url
parse_url-IsParsed input u e =
    ground (arith, parse_parts-IsParsed (skip_scheme (delete_inter input)) u)
