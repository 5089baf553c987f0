-- ===== src/Queue/Eaten.antt =====
-- `Eat` on an intrusive list.
use lspider.Common.{
  ℕ, zero, suc, ◌<◌, ◌≡◌, ap, ◌∙◌, Bool, true, false, some, List, [], ◌∷◌, arith, length,
  if◌then◌else◌, Bool-cases, inl, inr, refl, subst,
}
use lspider.Queue.{Links, LinkedList, pop_front, push_front, remove, eat, with_answer}
use lspider.Queue.Ring.{Holds}
use lspider.Queue.Walk.{all}
use lspider.Queue.Lists.{pop_front-Holds, pop_front-empty, push_front-Holds}

-- From the first element on that the callback does not hold of.
abbrev pub rest_of : (ℕ → Bool) → List ℕ → List ℕ
rest_of f [] = []
rest_of f (x ∷ xs) = if f x then rest_of f xs else x ∷ xs

eat_more :
    (f : ℕ → Bool) (fuel : ℕ) (m : Links) (l : LinkedList) (x : ℕ) (s : Links × LinkedList)
    → pop_front m l ≡ some (some x, s)
    → f x ≡ true
    → eat f (suc fuel) m l ≡ eat f fuel s.0 s.1
unfolding eat
eat_more f fuel m l x s e t = ground (arith, e, t)

eat_stop :
    (f : ℕ → Bool) (fuel : ℕ) (m : Links) (l : LinkedList) (x : ℕ) (s : Links × LinkedList)
    → pop_front m l ≡ some (some x, s)
    → f x ≡ false
    → eat f (suc fuel) m l ≡ with_answer false (push_front x s.0 s.1)
unfolding eat
eat_stop f fuel m l x s e t = ground (arith, e, t)

kept_going :
    (f : ℕ → Bool) (x : ℕ) (xs : List ℕ)
    → f x ≡ true
    → (all f xs ≡ all f (x ∷ xs)) × (rest_of f xs ≡ rest_of f (x ∷ xs))
kept_going f x xs t = (ground (arith, t), ground (arith, t))

stopped :
    (f : ℕ → Bool) (x : ℕ) (xs : List ℕ)
    → f x ≡ false
    → (false ≡ all f (x ∷ xs)) × (x ∷ xs ≡ rest_of f (x ∷ xs))
stopped f x xs t = (ground (arith, t), ground (arith, t))

-- With more rounds than the list holds elements, `Eat` ends: it takes out the elements up to the first
-- one that the callback does not hold of, which it puts back, and says whether there is none.
pub eat-Holds :
    (f : ℕ → Bool) (fuel : ℕ) (m : Links) (l : LinkedList) (xs : List ℕ)
    → Holds m l xs
    → length xs < fuel
    → (n : Links) × (k : LinkedList) × (eat f fuel m l ≡ some (all f xs, (n, k)))
      × Holds n k (rest_of f xs)
unfolding eat remove
eat-Holds f zero m l xs v h = absurd (omega arith)
eat-Holds f (suc fuel) m l [] v h = (m, l, rw (pop_front-empty m l v, eat) refl, v)
eat-Holds f (suc fuel) m l (x ∷ xs) v h =
    let (e, w, s) = pop_front-Holds m l x xs v in
    elim (Bool-cases (f x)) [
      | inl t ↦
          let (n, k, d, g) =
            eat-Holds f fuel (remove x m l).0 (remove x m l).1 xs w (omega arith) in
          (
            n,
            k,
            eat_more f fuel m l x _ e t ∙ (d ∙ ap (λ b. some (b, (n, k))) (kept_going f x xs t).0),
            subst (Holds n k) (kept_going f x xs t).1 g,
          )
      | inr t ↦
          let (n, k, d, g) =
            push_front-Holds (remove x m l).0 (remove x m l).1 xs x w v.no_null.1.0 v.different.0.0
              s in
          (
            n,
            k,
            eat_stop f fuel m l x _ e t
                ∙ (ap (with_answer false) d ∙ ap (λ b. some (b, (n, k))) (stopped f x xs t).0),
            subst (Holds n k) (stopped f x xs t).1 g,
          )
    ]
