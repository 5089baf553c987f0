-- ===== src/LinkTable/Instances.antt =====
-- Values of the two interfaces: a queue that searches its least element, and counts that stop at
-- 2^24 as a `float` that grows by 1 does.
use lspider.Common.{
  ℕ, suc, ◌+◌, ◌^◌, ◌≤◌, ◌≡◌, ◌⊎◌, refl, ap, subst, inl, inr, ◌≢◌, ◌*◌, true, false, Option, none,
  some, List, [], ◌∷◌, All, arith, length, leb, ltb, if◌then◌else◌, Bool-cases,
}
use mathlib.Core.List.{Perm}
use mathlib.Core.List.Perm
use mathlib.Core.Option.{some-injective}
use lspider.Context.{UrlContext}
use lspider.LinkTable.Interfaces.{PriorityQueue, Float, url_context_comp}

abbrev pub Popping : Type 0
Popping = Option (UrlContext × List UrlContext)

abbrev pub pop_step : UrlContext → Popping → Popping
pop_step u none = some (u, [])
pop_step u (some (v, rest)) =
    if leb u.link_depth v.link_depth then some (u, v ∷ rest) else some (v, u ∷ rest)

abbrev pub pop_min : List UrlContext → Popping
pop_min [] = none
pop_min (u ∷ r) = pop_step u (pop_min r)

pop_step-ne-none : (u : UrlContext) (o : Popping) → pop_step u o ≢ none
pop_step-ne-none u none = cc
pop_step-ne-none u (some (v, rest)) = ground arith

pub pop_min-none : (s : List UrlContext) → pop_min s ≡ none → s ≡ []
pop_min-none [] h = refl
pop_min-none (u ∷ r) h = absurd (pop_step-ne-none u (pop_min r) h)

pub record Popped (s : List UrlContext) (u : UrlContext) (t : List UrlContext) : Type 0 where
  pub size : length s ≡ suc (length t)
  pub perm : Perm s (u ∷ t)
  pub least : All (λ v. u.link_depth ≤ v.link_depth) t

All-le :
    (a b : ℕ) (l : List UrlContext)
    → a ≤ b
    → All (λ v. b ≤ v.link_depth) l
    → All (λ v. a ≤ v.link_depth) l
All-le a b [] h k = tt
All-le a b (v ∷ l) h k = (omega arith, All-le a b l h k.1)

keep_first :
    (u v : UrlContext) (r rest : List UrlContext)
    → Popped r v rest
    → u.link_depth ≤ v.link_depth
    → Popped (u ∷ r) u (v ∷ rest)
keep_first u v r rest h k = record {
  size = omega (arith, h.size);
  perm = Perm.cons u h.perm;
  least = (k, All-le u.link_depth v.link_depth rest k h.least);
}

keep_other :
    (u v : UrlContext) (r rest : List UrlContext)
    → Popped r v rest
    → v.link_depth ≤ u.link_depth
    → Popped (u ∷ r) v (u ∷ rest)
keep_other u v r rest h k = record {
  size = omega (arith, h.size);
  perm = Perm.trans (Perm.cons u h.perm) (Perm.swap v u rest);
  least = (k, h.least);
}

some-Popped :
    (s : List UrlContext) (u v : UrlContext) (t r : List UrlContext)
    → ◌≡◌ {A = Popping} (some (v, r)) (some (u, t))
    → Popped s v r
    → Popped s u t
some-Popped s u v t r e h = subst (λ p. Popped s p.0 p.1) (some-injective (v, r) (u, t) e) h

pop_step-Popped :
    (v : UrlContext) (r : List UrlContext) (o : Popping) (u : UrlContext) (t : List UrlContext)
    → pop_min r ≡ o
    → ((w : UrlContext) (rest : List UrlContext) → pop_min r ≡ some (w, rest) → Popped r w rest)
    → pop_step v o ≡ some (u, t)
    → Popped (v ∷ r) u t
pop_step-Popped v r none u t e ih h =
    some-Popped (v ∷ r) u v t [] h
      (rw (pop_min-none r e) (record { size = refl; perm = Perm.rfl; least = tt }))
pop_step-Popped v r (some (w, rest)) u t e ih h =
    elim (Bool-cases (leb v.link_depth w.link_depth)) [
      | inl b ↦
          some-Popped (v ∷ r) u v t (w ∷ rest) (rw (b, pop_step) at h)
            (keep_first v w r rest (ih w rest e) (ground arith))
      | inr b ↦
          some-Popped (v ∷ r) u w t (v ∷ rest) (rw (b, pop_step) at h)
            (keep_other v w r rest (ih w rest e) (ground arith))
    ]

pub pop_min-Popped :
    (s : List UrlContext) (u : UrlContext) (t : List UrlContext)
    → pop_min s ≡ some (u, t)
    → Popped s u t
pop_min-Popped [] u t h = cc
pop_min-Popped (v ∷ r) u t h = pop_step-Popped v r (pop_min r) u t refl (pop_min-Popped r) h

pub least_top :
    (u : UrlContext) (t : List UrlContext)
    → All (λ v. u.link_depth ≤ v.link_depth) t
    → All (λ v. url_context_comp u v ≡ false) t
unfolding url_context_comp
least_top u [] h = tt
least_top u (v ∷ t) h = (ground (arith, h.0), least_top u t h.1)

abbrev pub list_queue : PriorityQueue
list_queue = record {
  Queue = List UrlContext;
  elems = λ s. s;
  size = length;
  empty = [];
  push = λ u s. u ∷ s;
  pop = pop_min;
  size-empty = refl;
  size-push = λ u s. refl;
  size-pop = λ s t u h. (pop_min-Popped s u t h).size;
  pop-none = λ s h. ap length (pop_min-none s h);
  elems-empty = refl;
  elems-push = λ u s. Perm.rfl;
  elems-pop = λ s t u h. (pop_min-Popped s u t h).perm;
  pop-top = λ s t u h. least_top u t (pop_min-Popped s u t h).least;
}

abbrev pub scale : ℕ
scale = 86400 * 365 * 10

-- With the quota 1; another quota's share is not a whole number.
abbrev pub add_one : ℕ → ℕ
add_one x = if ltb x (2 ^ 24) then x + 1 else x

pub add_one_below : (x : ℕ) → ltb x scale ≡ true → ltb (add_one x) scale ≡ true
add_one_below x h = ground arith

pub ltb_trans : (x y z : ℕ) → ltb x y ≡ true → ltb y z ≡ true → ltb x z ≡ true
ltb_trans x y z h k = ground arith

pub ltb_negtrans : (x y z : ℕ) → ltb x z ≡ true → (ltb x y ≡ true) ⊎ (ltb y z ≡ true)
ltb_negtrans x y z h = ground arith

pub ltb_irrefl : (x : ℕ) → ltb x x ≡ false
ltb_irrefl x = ground arith

abbrev pub saturating : Float
saturating = record {
  Count = ℕ;
  lt = ltb;
  zero_count = 0;
  max_scale = scale;
  add_inverse = λ x quota. add_one x;
  zero_below = refl;
  add_below = add_one_below;
  lt_irrefl = ltb_irrefl;
  lt_trans = ltb_trans;
  lt_negtrans = ltb_negtrans;
}
