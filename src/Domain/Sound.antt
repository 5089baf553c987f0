-- ===== src/Domain/Sound.antt =====
-- A sound dictionary, and the search for a country's suffix in what was found.
use lspider.Common.{
  ℕ, ◌+◌, ◌-◌, ◌≤◌, ◌≡◌, ◌⊎◌, ap, ◌∙◌, none, some, Option-cases, inl, inr, List, arith, length,
  take, All, Bytes,
}
use lspider.Domain.Dict.{DomainDict}
use lspider.Domain.{first_match, by_country}
use lspider.Domain.Match.{first_match-length, first_match-take, first_match-take-none, label}

-- The dictionary has no empty pattern, the keys of the country map have at most three bytes, as
-- `.cn` has, and the patterns for countries and what stands under them at least three.
pub record IsSound (d : DomainDict) : Type 0 where
  pub tops : All (λ p. 1 ≤ length p) d.tops
  pub countries : All (λ p. 3 ≤ length p) d.countries
  pub seconds : All (λ p. 1 ≤ length p) d.seconds
  pub keys : All (λ e. length e.0 ≤ 3) d.country_map
  pub ends : All (λ e. All (λ p. 3 ≤ length p) e.1) d.country_map

-- `n` bytes of the site are what was matched before `rest` and the label before that.
pub record IsCut (s rest : Bytes) (n : ℕ) : Type 0 where
  pub shorter : 1 + length rest ≤ length s
  pub cut : n ≡ length s - length rest + label rest

pub first_match-again :
    (s : Bytes) (ps : List Bytes) (rest : Bytes) (n : ℕ)
    → first_match s ps ≡ some rest
    → IsCut s rest n
    → first_match (take n s) ps ≡ some (take (label rest) rest)
first_match-again s ps rest n h c =
    first_match-take s ps rest n h (omega (arith, c.shorter, c.cut))
    ∙ ap (λ k. some (take k rest)) (omega (arith, c.shorter, c.cut))

by_country_second :
    (d : DomainDict) (s r rest : Bytes)
    → first_match s d.countries ≡ some r
    → first_match r d.seconds ≡ some rest
    → by_country d s ≡ some rest
unfolding by_country
by_country_second d s r rest e f = ground (arith, e, f)

by_country_only :
    (d : DomainDict) (s r : Bytes)
    → first_match s d.countries ≡ some r
    → first_match r d.seconds ≡ none
    → by_country d s ≡ some r
unfolding by_country
by_country_only d s r e f = ground (arith, e, f)

by_country_cases :
    (d : DomainDict) (s rest : Bytes)
    → by_country d s ≡ some rest
    → ((first_match s d.countries ≡ some rest) × (first_match rest d.seconds ≡ none))
      ⊎ ((r : Bytes) × (first_match s d.countries ≡ some r) × (first_match r d.seconds ≡ some rest))
unfolding by_country
by_country_cases d s rest h = elim (Option-cases (first_match s d.countries)) [
  | inl e ↦ absurd (ground (arith, e))
  | inr (r, e) ↦ elim (Option-cases (first_match r d.seconds)) [
    | inl f ↦ inl (ground (arith, e, f))
    | inr (t, f) ↦ inr (r, e, (ground (arith, e, f)))
  ]
]

pub by_country-length :
    (d : DomainDict) (s rest : Bytes)
    → IsSound d
    → by_country d s ≡ some rest
    → 3 + length rest ≤ length s
by_country-length d s rest v h = elim (by_country_cases d s rest h) [
  | inl (e, f) ↦ first_match-length s d.countries rest 3 v.countries e
  | inr (r, e, f) ↦ omega (
    arith,
    first_match-length s d.countries r 3 v.countries e,
    first_match-length r d.seconds rest 1 v.seconds f,
  )
]

second-again :
    (s r rest : Bytes) (cs ss : List Bytes) (n : ℕ)
    → first_match s cs ≡ some r
    → first_match r ss ≡ some rest
    → length r ≤ length s
    → 1 + length rest ≤ length r
    → IsCut s rest n
    → (q : Bytes) × (first_match (take n s) cs ≡ some q)
      × (first_match q ss ≡ some (take (label rest) rest))
second-again s r rest cs ss n e f l m c = (
  _,
  first_match-take s cs r n e (omega (arith, c.cut)),
  first_match-again r ss rest (n + length r - length s) f
      (record { shorter = m; cut = omega (arith, c.cut) }),
)

pub by_country-again :
    (d : DomainDict) (s rest : Bytes) (n : ℕ)
    → IsSound d
    → by_country d s ≡ some rest
    → IsCut s rest n
    → by_country d (take n s) ≡ some (take (label rest) rest)
by_country-again d s rest n v h c = elim (by_country_cases d s rest h) [
  | inl (e, f) ↦
      by_country_only d (take n s) (take (label rest) rest)
        (first_match-again s d.countries rest n e c)
        (first_match-take-none rest d.seconds (label rest) f)
  | inr (r, e, f) ↦
      let (q, e2, f2) =
        second-again s r rest d.countries d.seconds n e f
          (omega (arith, first_match-length s d.countries r 3 v.countries e))
          (first_match-length r d.seconds rest 1 v.seconds f) c in
      by_country_second d (take n s) q (take (label rest) rest) e2 f2
]
