-- ===== src/Domain/Match.antt =====
-- Matching a suffix of a site, which is read backwards, and matching it again in what was found.
use lspider.Common.{
  ℕ, zero, suc, ◌+◌, ◌-◌, ◌≤◌, ◌≡◌, refl, sym, ap, ◌∙◌, true, false, Bool-cases, none, some,
  Option-cases, inl, inr, List, [], ◌∷◌, ◌==◌, arith, length, take, All, Bytes,
}
use lspider.Domain.{rev_match, rev_dot, first_match, first_key, with_label}

pub rev_match-length :
    (s p rest : Bytes) → rev_match s p ≡ some rest → length s ≡ length p + length rest
unfolding rev_match
rev_match-length s [] rest h = ground arith
rev_match-length [] (d ∷ p) rest h = cc
rev_match-length (c ∷ s) (d ∷ p) rest h = ground (arith, rev_match-length s p rest)

pub rev_match-take :
    (s p rest : Bytes) (n : ℕ)
    → rev_match s p ≡ some rest
    → length p ≤ n
    → rev_match (take n s) p ≡ some (take (n - length p) rest)
unfolding rev_match
rev_match-take s [] rest n h l = ground arith
rev_match-take [] (d ∷ p) rest n h l = cc
rev_match-take (c ∷ s) (d ∷ p) rest zero h l = absurd (omega arith)
rev_match-take (c ∷ s) (d ∷ p) rest (suc n) h l = ground (arith, rev_match-take s p rest n)

pub rev_match-take-none :
    (s p : Bytes) (n : ℕ) → rev_match s p ≡ none → rev_match (take n s) p ≡ none
unfolding rev_match
rev_match-take-none s [] n h = cc
rev_match-take-none [] (d ∷ p) zero h = refl
rev_match-take-none [] (d ∷ p) (suc n) h = refl
rev_match-take-none (c ∷ s) (d ∷ p) zero h = refl
rev_match-take-none (c ∷ s) (d ∷ p) (suc n) h = ground (arith, rev_match-take-none s p n)

-- The bytes of the match.
pub first_match-length :
    (s : Bytes) (ps : List Bytes) (rest : Bytes) (m : ℕ)
    → All (λ p. m ≤ length p) ps
    → first_match s ps ≡ some rest
    → m + length rest ≤ length s
unfolding first_match
first_match-length s [] rest m a h = cc
first_match-length s (p ∷ ps) rest m a h = elim (Option-cases (rev_match s p)) [
  | inl e ↦ ground (arith, e, first_match-length s ps rest m a.1)
  | inr (r, e) ↦ ground (arith, e, rev_match-length s p r e, a.0)
]

amount :
    (s p r : Bytes) (n : ℕ)
    → length s ≡ length p + length r
    → n + length r - length s ≡ n - length p
amount s p r n h = omega arith

pub first_match-take :
    (s : Bytes) (ps : List Bytes) (rest : Bytes) (n : ℕ)
    → first_match s ps ≡ some rest
    → length s ≤ n + length rest
    → first_match (take n s) ps ≡ some (take (n + length rest - length s) rest)
unfolding first_match
first_match-take s [] rest n h l = cc
first_match-take s (p ∷ ps) rest n h l = elim (Option-cases (rev_match s p)) [
  | inl e ↦ ground (arith, e, rev_match-take-none s p n e, first_match-take s ps rest n)
  | inr (r, e) ↦ ground (
    arith,
    e,
    rev_match-take s p r n,
    rev_match-length s p r e,
    ap (λ k. take k r) (amount s p r n (rev_match-length s p r e)),
  )
]

pub first_match-take-none :
    (s : Bytes) (ps : List Bytes) (n : ℕ)
    → first_match s ps ≡ none
    → first_match (take n s) ps ≡ none
unfolding first_match
first_match-take-none s [] n h = refl
first_match-take-none s (p ∷ ps) n h =
    ground (arith, rev_match-take-none s p n, first_match-take-none s ps n)

pub first_key-take :
    (s : Bytes) (m : List (Bytes × List Bytes)) (n : ℕ)
    → All (λ e. length e.0 ≤ n) m
    → first_key (take n s) m ≡ first_key s m
unfolding first_key
first_key-take s [] n a = refl
first_key-take s ((p, l) ∷ m) n a = elim (Option-cases (rev_match s p)) [
  | inl e ↦ ground (arith, e, rev_match-take-none s p n e, first_key-take s m n a.1)
  | inr (r, e) ↦ ground (arith, e, rev_match-take s p r n e a.0)
]

pub first_key-All :
    (s : Bytes) (m : List (Bytes × List Bytes)) (k : ℕ)
    → All (λ e. All (λ p. k ≤ length p) e.1) m
    → All (λ p. k ≤ length p) (first_key s m)
unfolding first_key
first_key-All s [] k a = tt
first_key-All s ((p, l) ∷ m) k a = elim (Option-cases (rev_match s p)) [
  | inl e ↦ rw (e, first_key) (first_key-All s m k a.1)
  | inr (r, e) ↦ rw (e, first_key) a.0
]

-- The label before a match.
unfoldable pub label : Bytes → ℕ
label rest = elim (rev_dot rest) [ none ↦ length rest | some n ↦ n ]

label-cons : (c : ℕ) (s : Bytes) → (c == b'.') ≡ false → label (c ∷ s) ≡ suc (label s)
unfolding label rev_dot
label-cons c [] h = refl
label-cons c (d ∷ s) h = ground (arith, h)

label-dot : (c d : ℕ) (s : Bytes) → (c == b'.') ≡ true → label (c ∷ d ∷ s) ≡ 0
unfolding label rev_dot
label-dot c d s h = ground (arith, h)

pub label_le : (s : Bytes) → label s ≤ length s
unfolding label rev_dot
label_le [] = omega arith
label_le (c ∷ []) = omega arith
label_le (c ∷ d ∷ s) = elim (Bool-cases (c == b'.')) [
  | inl e ↦ omega (arith, label-dot c d s e)
  | inr e ↦ omega (arith, label-cons c (d ∷ s) e, label_le (d ∷ s))
]

-- The label of a label is the label.
pub label-take : (s : Bytes) → label (take (label s) s) ≡ label s
unfolding label rev_dot
label-take [] = refl
label-take (c ∷ []) = refl
label-take (c ∷ d ∷ s) = elim (Bool-cases (c == b'.')) [
  | inl e ↦ ap (λ n. label (take n (c ∷ d ∷ s))) (label-dot c d s e) ∙ sym (label-dot c d s e)
  | inr e ↦
      ap (λ n. label (take n (c ∷ d ∷ s))) (label-cons c (d ∷ s) e)
      ∙ label-cons c (take (label (d ∷ s)) (d ∷ s)) e
      ∙ ap suc (label-take (d ∷ s))
      ∙ sym (label-cons c (d ∷ s) e)
]

pub with_label_lem :
    (s rest : Bytes)
    → length rest ≤ length s
    → with_label s rest ≡ length s - length rest + label rest
unfolding with_label label
with_label_lem s rest h = ground arith
