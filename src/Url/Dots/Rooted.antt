-- ===== src/Url/Dots/Rooted.antt =====
-- What the loop of `normalize_path` keeps: the bytes of the path, from the first `/` on.
use lspider.Common.{
  ℕ, zero, suc, ◌&&◌, ◌||◌, [], ◌∷◌, ◌++◌, reverse, ◌≡◌, refl, arith, ◌==◌, take, drop, Bytes, All,
  All-append, All-left, Option-cases, inl, inr, elim_both, if_both, subst, sym, ap, ◌∙◌,
}
use mathlib.Core.List.{reverse-cons, reverse-append}
use lspider.Url.Parse.{strchr}
use lspider.Url.Parse.Strchr.{All-take}
use lspider.Url.Dots.{
  walk, up, back_to_slash, at_slash, is_dot, is_slash, without_dots, replace_slash, slashes,
  path_end, normalize_path,
}

module _ (P : ℕ → Type 0) (Q : Bytes → Type 0)
    (push : (c : ℕ) (out : Bytes) → P c → Q out → Q (c ∷ out))
    (back : (out : Bytes) → Q out → Q (up out)) where
  walk_keeps : (s out : Bytes) → All P s → Q out → Q (walk out s)
  unfolding walk
  walk_keeps [] out h q = q
  walk_keeps (c ∷ []) out h q =
      if_both Q (at_slash out && (is_slash c || is_dot c)) _ _ (λ e. q) (λ e. push c out h.0 q)
  walk_keeps (c ∷ d ∷ []) out h q =
      elim_both Q (at_slash out) _ _
        (λ e.
          elim_both Q (is_dot c && is_slash d) _ _ (λ e. q)
            λ e.
              elim_both Q (is_slash c) _ _ (λ e. walk_keeps (d ∷ []) out h.1 q)
                λ e.
                  elim_both Q (is_dot c && is_dot d) _ _ (λ e. back out q)
                    λ e. walk_keeps (d ∷ []) (c ∷ out) h.1 (push c out h.0 q))
        λ e. walk_keeps (d ∷ []) (c ∷ out) h.1 (push c out h.0 q)
  walk_keeps (c ∷ d ∷ e ∷ s) out h q =
      elim_both Q (at_slash out) _ _
        (λ x.
          elim_both Q (is_dot c && is_slash d) _ _ (λ x. walk_keeps (e ∷ s) out h.1.1 q)
            λ x.
              elim_both Q (is_dot c && is_dot d && is_slash e) _ _
                (λ x. walk_keeps s (up out) h.1.1.1 (back out q))
                λ x.
                  elim_both Q (is_slash c) _ _ (λ x. walk_keeps (d ∷ e ∷ s) out h.1 q)
                    λ x. walk_keeps (d ∷ e ∷ s) (c ∷ out) h.1 (push c out h.0 q))
        λ x. walk_keeps (d ∷ e ∷ s) (c ∷ out) h.1 (push c out h.0 q)

-- The bytes so far, read backwards, begin with the path's first `/`.
abbrev Rooted : Bytes → Type 0
Rooted out = (i : Bytes) × (out ≡ i ++ b'/' ∷ [])

back_Rooted : (i : Bytes) → Rooted (back_to_slash (i ++ b'/' ∷ []))
unfolding back_to_slash
back_Rooted [] = ([], refl)
back_Rooted (c ∷ i) = elim_both Rooted (c == b'/') _ _ (λ e. (c ∷ i, refl)) λ e. back_Rooted i

up-Rooted : (i : Bytes) → Rooted (up (i ++ b'/' ∷ []))
unfolding up
up-Rooted [] = ([], refl)
up-Rooted (c ∷ []) = back_Rooted []
up-Rooted (c ∷ d ∷ i) = back_Rooted (d ∷ i)

module _ (P : ℕ → Type 0) where
  abbrev PathOf : Bytes → Type 0
  PathOf out = All P out × Rooted out

  push_Path : (c : ℕ) (out : Bytes) → P c → PathOf out → PathOf (c ∷ out)
  push_Path c out h (a, (i, e)) = ((h, a), (c ∷ i, ap (λ s. c ∷ s) e))

  back-All : (out : Bytes) → All P out → All P (back_to_slash out)
  unfolding back_to_slash
  back-All [] h = tt
  back-All (c ∷ out) h = elim_both (All P) (c == b'/') _ _ (λ e. h) λ e. back-All out h.1

  up-All : (out : Bytes) → All P out → All P (up out)
  unfolding up
  up-All [] h = tt
  up-All (c ∷ []) h = h
  up-All (c ∷ d ∷ out) h = back-All (d ∷ out) h.1

  up_Path : (out : Bytes) → PathOf out → PathOf (up out)
  up_Path out (a, (i, e)) = (up-All out a, subst (λ s. Rooted (up s)) (sym e) (up-Rooted i))

  All-reverse : (s : Bytes) → All P s → All P (reverse s)
  All-reverse [] h = tt
  All-reverse (c ∷ s) h =
      subst (All P) (sym (reverse-cons c s))
        (All-append P (reverse s) (c ∷ []) (All-reverse s h.1) (h.0, tt))

  All-drop : (n : ℕ) (s : Bytes) → All P s → All P (drop n s)
  All-drop zero s h = h
  All-drop (suc n) [] h = tt
  All-drop (suc n) (c ∷ s) h = All-drop n s h.1

  slashes-All : P b'/' → (s : Bytes) → All P s → All P (slashes s)
  unfolding slashes
  slashes-All r [] h = tt
  slashes-All r (c ∷ s) h = (if_both P (c == b'\\') _ _ (λ e. r) (λ e. h.0), slashes-All r s h.1)

  replace_slash-All : P b'/' → (s : Bytes) → All P s → All P (replace_slash s)
  unfolding replace_slash
  replace_slash-All r s h =
      All-append P _ _ (slashes-All r _ (All-take P s (path_end s) h)) (All-drop (path_end s) s h)

  walked :
      (s : Bytes)
      → All P (b'/' ∷ s)
      → (t : Bytes) × (All P t) × (reverse (walk (b'/' ∷ []) s) ≡ b'/' ∷ t)
  walked s h =
      let (a, (i, e)) =
        walk_keeps P PathOf push_Path up_Path s (b'/' ∷ []) h.1 ((h.0, tt), ([], refl)) in
      (
        reverse i,
        All-reverse i (All-left P i (b'/' ∷ []) (subst (All P) e a)),
        ap reverse e ∙ reverse-append i (b'/' ∷ []),
      )

  without_dots-All :
      (s : Bytes)
      → All P (b'/' ∷ s)
      → (t : Bytes) × (All P t) × (without_dots (b'/' ∷ s) ≡ b'/' ∷ t)
  unfolding without_dots
  without_dots-All s h =
      let (t, a, e) = walked (take (path_end s) s) (h.0, All-take P s (path_end s) h.1) in
      (
        t ++ drop (path_end s) s,
        All-append P t _ a (All-drop (path_end s) s h.1),
        ap (λ u. u ++ drop (path_end s) s) e,
      )

path_end_slash : (s : Bytes) → path_end (b'/' ∷ s) ≡ suc (path_end s)
unfolding path_end strchr
path_end_slash s = elim (Option-cases (strchr s b'?')) [
  | inr p ↦ ground (arith, p.1)
  | inl e ↦ elim (Option-cases (strchr s b';')) [
    | inr p ↦ ground (arith, e, p.1)
    | inl k ↦ ground (arith, e, k)
  ]
]

pub replace_slash_root : (s : Bytes) → replace_slash (b'/' ∷ s) ≡ b'/' ∷ replace_slash s
unfolding replace_slash slashes
replace_slash_root s = rw (path_end_slash s) refl

-- A path that begins with `/` still does after `normalize_path`, and has no byte but `/` that it did
-- not have.
pub normalize_path-All :
    (P : ℕ → Type 0) (s : Bytes)
    → All P (b'/' ∷ s)
    → (t : Bytes) × All P t × (normalize_path (b'/' ∷ s) ≡ b'/' ∷ t)
unfolding normalize_path
normalize_path-All P s h =
    let (t, a, e) = without_dots-All P (replace_slash s) (h.0, replace_slash-All P h.0 s h.1) in
    (t, a, ap without_dots (replace_slash_root s) ∙ e)
