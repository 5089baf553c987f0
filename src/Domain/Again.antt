-- ===== src/Domain/Again.antt =====
-- The main domain of a main domain.
use lspider.Common.{
  ℕ, ◌+◌, ◌≤◌, ◌<◌, ◌≡◌, ap, ◌∙◌, none, some, Option-cases, inl, inr, List, [], ◌∷◌, arith, length,
  length-take, take, All, Bytes,
}
use lspider.Domain.Dict.{DomainDict}
use lspider.Domain.{first_match, first_key, by_country, listed, with_label, domain_from_site}
use lspider.Domain.Match.{
  first_match-length, first_match-take-none, first_key-take, first_key-All, label, label_le,
  label-take, with_label_lem,
}
use lspider.Domain.Sound.{IsSound, IsCut, first_match-again, by_country-length, by_country-again}

listed-length :
    (d : DomainDict) (s rest : Bytes)
    → IsSound d
    → listed d s ≡ some rest
    → 1 + length rest ≤ length s
unfolding listed
listed-length d s rest v h = ground (
  arith,
  first_match-length s d.tops rest 1 v.tops,
  first_match-length s (first_key s d.country_map) rest 3 (first_key-All s d.country_map 3 v.ends),
  by_country-length d s rest v,
)

All-le_mono :
    (m : List (Bytes × List Bytes)) (a b : ℕ)
    → a ≤ b
    → All (λ e. length e.0 ≤ a) m
    → All (λ e. length e.0 ≤ b) m
All-le_mono [] a b h k = tt
All-le_mono (e ∷ m) a b h k = (omega (arith, k.0), All-le_mono m a b h k.1)

same_keys :
    (d : DomainDict) (s rest : Bytes) (n : ℕ)
    → IsSound d
    → 3 + length rest ≤ length s
    → IsCut s rest n
    → first_key (take n s) d.country_map ≡ first_key s d.country_map
same_keys d s rest n v h c =
    first_key-take s d.country_map n (All-le_mono d.country_map 3 n (omega (arith, c.cut)) v.keys)

-- How the suffix of a site is found.
data Way (d : DomainDict) (s rest : Bytes) : Type 0 where
  by_top : first_match s d.tops ≡ some rest → Way d s rest
  by_end :
      first_match s d.tops ≡ none
      → first_match s (first_key s d.country_map) ≡ some rest
      → Way d s rest
  by_other :
      first_match s d.tops ≡ none
      → first_match s (first_key s d.country_map) ≡ none
      → by_country d s ≡ some rest
      → Way d s rest

listed-Way : (d : DomainDict) (s rest : Bytes) → listed d s ≡ some rest → Way d s rest
unfolding listed
listed-Way d s rest h = elim (Option-cases (first_match s d.tops)) [
  | inr (r, e) ↦ by_top (ground (arith, e))
  | inl e ↦ elim (Option-cases (first_match s (first_key s d.country_map))) [
    | inr (r, f) ↦ by_end e (ground (arith, e, f))
    | inl f ↦ by_other e f (ground (arith, e, f))
  ]
]

Way-listed : (d : DomainDict) (s rest : Bytes) → Way d s rest → listed d s ≡ some rest
unfolding listed
Way-listed d s rest (by_top e) = ground (arith, e)
Way-listed d s rest (by_end e f) = ground (arith, e, f)
Way-listed d s rest (by_other e f g) = ground (arith, e, f, g)

Way-again :
    (d : DomainDict) (s rest : Bytes) (n : ℕ)
    → IsSound d
    → Way d s rest
    → IsCut s rest n
    → Way d (take n s) (take (label rest) rest)
Way-again d s rest n v (by_top e) c = by_top (first_match-again s d.tops rest n e c)
Way-again d s rest n v (by_end e f) c =
    let l =
      first_match-length s (first_key s d.country_map) rest 3
        (first_key-All s d.country_map 3 v.ends) f in
    by_end (first_match-take-none s d.tops n e) (
      ap (first_match (take n s)) (same_keys d s rest n v l c)
      ∙ first_match-again s (first_key s d.country_map) rest n f c)
Way-again d s rest n v (by_other e f g) c =
    by_other (first_match-take-none s d.tops n e)
      (ap (first_match (take n s)) (same_keys d s rest n v (by_country-length d s rest v g) c)
        ∙ first_match-take-none s (first_key s d.country_map) n f)
      (by_country-again d s rest n v g c)

listed_domain :
    (d : DomainDict) (s rest : Bytes)
    → 0 < length s
    → listed d s ≡ some rest
    → domain_from_site d s ≡ some (with_label s rest)
unfolding domain_from_site
listed_domain d [] rest h e = absurd (omega arith)
listed_domain d (c ∷ s) rest h e = ground (arith, e)

IsCut-with_label : (s rest : Bytes) → 1 + length rest ≤ length s → IsCut s rest (with_label s rest)
IsCut-with_label s rest h = record { shorter = h; cut = with_label_lem s rest (omega arith) }

-- Where a sound dictionary, such as that of the default tables, has a suffix for the site, the
-- domain found has at least one byte and at most the whole site, and the same search in the domain
-- finds all of it again.
pub domain_from_site-again :
    (d : DomainDict) (s rest : Bytes)
    → IsSound d
    → listed d s ≡ some rest
    → (n : ℕ) × (domain_from_site d s ≡ some n)
      × (1 ≤ n)
      × (n ≤ length s)
      × (domain_from_site d (take n s) ≡ some n)
domain_from_site-again d s rest v h = (
  n,
  listed_domain d s rest (omega (arith, c.shorter)) h,
  omega (arith, c.cut, c.shorter),
  omega (arith, c.cut, c.shorter, label_le rest),
  listed_domain d (take n s) (take (label rest) rest) (omega (arith, taken, c.cut, c.shorter)) (
        Way-listed d (take n s) (take (label rest) rest)
          (Way-again d s rest n v (listed-Way d s rest h) c))
      ∙ ap some whole,
)
  where
    n : ℕ
    n = with_label s rest

    c : IsCut s rest n
    c = IsCut-with_label s rest (listed-length d s rest v h)

    taken : length (take n s) ≡ n
    taken = omega (arith, length-take n s, c.cut, c.shorter, label_le rest)

    left : length (take (label rest) rest) ≡ label rest
    left = omega (arith, length-take (label rest) rest, label_le rest)

    whole : with_label (take n s) (take (label rest) rest) ≡ n
    whole = omega (
      arith,
      with_label_lem (take n s) (take (label rest) rest) (omega (arith, taken, left, c.cut)),
      taken,
      left,
      label-take rest,
      c.cut,
    )
