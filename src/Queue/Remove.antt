-- ===== src/Queue/Remove.antt =====
-- Removal of an element from anywhere in the list.
use lspider.Common.{
  ℕ, ◌≡◌, ◌≢◌, Bool, true, false, refl, sym, ap, subst, ◌∙◌, List, [], ◌∷◌, ◌++◌, arith, ◌==◌,
  if◌then◌else◌,
}
use lspider.Common.{All-left, All-right}
use lspider.Queue.{Links, set, remove_link, initialize}
use lspider.Queue.Ring.{Chain, Absent, AllDifferent, Chain-frame, set-Absent}

prev_of :
    (m : Links) (a b c e : ℕ) (xs ys : List ℕ)
    → a ≢ c
    → Absent c xs
    → Chain m a (xs ++ e ∷ ys) b
    → m.prev e ≢ c
prev_of m a b c e [] ys h k d = λ p. h (sym d.1 ∙ p)
prev_of m a b c e (x ∷ xs) ys h k d = prev_of m x b c e xs ys k.0 k.1 d.2

next_of :
    (m : Links) (a b c e : ℕ) (xs ys : List ℕ)
    → b ≢ c
    → Absent c ys
    → Chain m a (xs ++ e ∷ ys) b
    → m.next e ≢ c
next_of m a b c e [] [] h k d = λ p. h (sym d.2.0 ∙ p)
next_of m a b c e [] (y ∷ ys) h k d = λ p. k.0 (sym d.2.0 ∙ p)
next_of m a b c e (x ∷ xs) ys h k d = next_of m x b c e xs ys h k d.2

-- Without the two statements' intermediate state.
abbrev unlinked : ℕ → Links → Links
unlinked e m = record {
  next = set m.next (m.prev e) (m.next e);
  prev = set m.prev (m.next e) (m.prev e);
}

unlinked-Chain :
    (m : Links) (a b e : ℕ) (xs ys : List ℕ)
    → Absent b (xs ++ e ∷ ys)
    → AllDifferent (a ∷ xs ++ e ∷ ys)
    → Chain m a (xs ++ e ∷ ys) b
    → Chain (unlinked e m) a (xs ++ ys) b
unlinked-Chain m a b e [] [] hb d c = ground (arith, c.0, c.1, c.2.0, c.2.1)
unlinked-Chain m a b e [] (y ∷ ys) hb d c = (
  ground (arith, c.1, c.2.0),
  ground (arith, c.1, c.2.0),
  Chain-frame m (unlinked e m) y b ys (ground (arith, c.1, d.0.1.0))
      (set-Absent m.next (m.prev e) (m.next e) ys (subst (λ j. Absent j ys) (sym c.1) d.0.1.1))
      (set-Absent m.prev (m.next e) (m.prev e) ys (subst (λ j. Absent j ys) (sym c.2.0) d.1.1.0))
      (ground (arith, c.2.0, hb.1.0)) c.2.2,
)
unlinked-Chain m a b e (x ∷ xs) ys hb d c = (
  ground (arith, c.0, prev_of m x b a e xs ys d.0.0 (All-left _ xs (e ∷ ys) d.0.1) c.2),
  ground (
    arith,
    c.1,
    next_of m x b x e xs ys (λ p. hb.0 (sym p)) (All-right _ xs (e ∷ ys) d.1.0).1 c.2,
  ),
  unlinked-Chain m x b e xs ys hb.1 d.1 c.2,
)

same_branches : (b : Bool) (x : ℕ) → (if b then x else x) ≡ x
same_branches true x = refl
same_branches false x = refl

remove_link_lem : (e : ℕ) (m : Links) → remove_link e m ≡ unlinked e m
unfolding remove_link
remove_link_lem e m =
    ap (λ k. record { next = set m.next (m.prev e) (m.next e); prev = set m.prev k (m.prev e) })
      (same_branches (e == m.prev e) (m.next e))

pub Absent-middle : (c e : ℕ) (xs ys : List ℕ) → Absent c (xs ++ e ∷ ys) → Absent c (xs ++ ys)
Absent-middle c e [] ys h = h.1
Absent-middle c e (x ∷ xs) ys h = (h.0, Absent-middle c e xs ys h.1)

pub AllDifferent-middle :
    (e : ℕ) (xs ys : List ℕ) → AllDifferent (xs ++ e ∷ ys) → AllDifferent (xs ++ ys)
AllDifferent-middle e [] ys h = h.1
AllDifferent-middle e (x ∷ xs) ys h = (Absent-middle x e xs ys h.0, AllDifferent-middle e xs ys h.1)

-- What was in the middle is nowhere else.
pub Absent-taken : (e : ℕ) (xs ys : List ℕ) → AllDifferent (xs ++ e ∷ ys) → Absent e (xs ++ ys)
Absent-taken e [] ys h = h.0
Absent-taken e (x ∷ xs) ys h =
    ((λ p. (All-right _ xs (e ∷ ys) h.0).0 (sym p)), Absent-taken e xs ys h.1)

initialize-Chain :
    (m : Links) (a b e : ℕ) (xs : List ℕ)
    → a ≢ e
    → b ≢ e
    → Absent e xs
    → Chain m a xs b
    → Chain (initialize e m) a xs b
unfolding initialize
initialize-Chain m a b e xs ha hb h c =
    Chain-frame m (initialize e m) a b xs (ground arith) (set-Absent m.next e e xs h)
      (set-Absent m.prev e e xs h) (ground arith) c

-- An element that is removed leaves the others in their order, and is standalone.
pub remove-Chain :
    (m : Links) (h e : ℕ) (xs ys : List ℕ)
    → AllDifferent (h ∷ xs ++ e ∷ ys)
    → Chain m h (xs ++ e ∷ ys) h
    → Chain (initialize e (remove_link e m)) h (xs ++ ys) h
remove-Chain m h e xs ys d c =
    initialize-Chain (remove_link e m) h h e (xs ++ ys) (Absent-taken e (h ∷ xs) ys d).0
      (Absent-taken e (h ∷ xs) ys d).0 (Absent-taken e xs ys d.1)
      (subst (λ n. Chain n h (xs ++ ys) h) (sym (remove_link_lem e m))
        (unlinked-Chain m h h e xs ys d.0 d c))
