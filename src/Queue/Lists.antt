-- ===== src/Queue/Lists.antt =====
-- The intrusive list as a sequence of elements.
use lspider.Common.{
  ℕ, ◌≡◌, ◌≢◌, true, false, none, some, sym, ap, subst, ◌∙◌, append-nil, List, [], ◌∷◌, ◌++◌, arith,
  length-append, All, All-append, All-right,
}
use lspider.LinkTable.{increment, decrement}
use lspider.Queue.{
  Links, LinkedList, init, insert_prev, insert_next, remove_link, initialize, is_standalone,
  push_back, push_front, remove, pop_front, pop_back, popped,
}
use lspider.Queue.Ring.{Chain, Absent, AllDifferent, Holds}
use lspider.Queue.Insert.{insert_prev-Chain, insert_next-Chain}
use lspider.Queue.Remove.{remove-Chain, Absent-middle, AllDifferent-middle}

-- No element of a list is standalone.
busy :
    (m : Links) (a b : ℕ) (xs : List ℕ)
    → b ≢ 0
    → Absent 0 xs
    → Absent b xs
    → AllDifferent (a ∷ xs)
    → Chain m a xs b
    → All (λ x. is_standalone m x ≡ false) xs
unfolding is_standalone
busy m a b [] hb h0 k d c = tt
busy m a b (x ∷ []) hb h0 k d c = (ground (arith, c.2.0), tt)
busy m a b (x ∷ y ∷ xs) hb h0 k d c =
    (ground (arith, c.2.0, d.1.0.0, h0.1.0), busy m x b (y ∷ xs) hb h0.1 k.1 d.1 c.2)

pub Absent-standalone :
    (m : Links) (e : ℕ) (xs : List ℕ)
    → All (λ x. is_standalone m x ≡ false) xs
    → is_standalone m e ≡ true
    → Absent e xs
Absent-standalone m e [] h k = tt
Absent-standalone m e (x ∷ xs) h k = ((λ p. ground (arith, h.0)), Absent-standalone m e xs h.1 k)

AllDifferent-snoc :
    (e : ℕ) (xs : List ℕ) → AllDifferent xs → Absent e xs → AllDifferent (xs ++ e ∷ [])
AllDifferent-snoc e [] d h = (tt, tt)
AllDifferent-snoc e (x ∷ xs) d h =
    (All-append _ xs (e ∷ []) d.0 ((λ p. h.0 (sym p)), tt), AllDifferent-snoc e xs d.1 h.1)

-- `push_back` of a standalone element that is neither null nor the head succeeds, and puts the
-- element behind those that the list holds.
pub push_back-Holds :
    (m : Links) (l : LinkedList) (xs : List ℕ) (e : ℕ)
    → Holds m l xs
    → e ≢ 0
    → e ≢ l.head
    → is_standalone m e ≡ true
    → (n : Links) × (k : LinkedList) × (push_back e m l ≡ some (n, k)) × Holds n k (xs ++ e ∷ [])
unfolding push_back increment
push_back-Holds m l xs e v h0 hh s = (
  insert_prev l.head e m,
  record l { count = increment l.count },
  ground arith,
  record {
    chain =
        insert_prev-Chain m l.head l.head e xs (λ p. hh (sym p)) (λ p. hh (sym p)) absent
          v.different.0 v.different v.chain;
    different = AllDifferent-snoc e (l.head ∷ xs) v.different ((λ p. hh (sym p)), absent);
    no_null = All-append _ (l.head ∷ xs) (e ∷ []) v.no_null (h0, tt);
    count = omega (arith, v.count, length-append xs (e ∷ []));
  },
)
  where
    absent : Absent e xs
    absent =
        Absent-standalone m e xs
          (busy m l.head l.head xs v.no_null.0 v.no_null.1 v.different.0 v.different v.chain) s

pub push_front-Holds :
    (m : Links) (l : LinkedList) (xs : List ℕ) (e : ℕ)
    → Holds m l xs
    → e ≢ 0
    → e ≢ l.head
    → is_standalone m e ≡ true
    → (n : Links) × (k : LinkedList) × (push_front e m l ≡ some (n, k)) × Holds n k (e ∷ xs)
unfolding push_front increment
push_front-Holds m l xs e v h0 hh s = (
  insert_next l.head e m,
  record l { count = increment l.count },
  ground arith,
  record {
    chain = insert_next-Chain m l.head e xs (λ p. hh (sym p)) absent v.different v.chain;
    different = ((hh, v.different.0), (absent, v.different.1));
    no_null = (v.no_null.0, (h0, v.no_null.1));
    count = omega (arith, v.count);
  },
)
  where
    absent : Absent e xs
    absent =
        Absent-standalone m e xs
          (busy m l.head l.head xs v.no_null.0 v.no_null.1 v.different.0 v.different v.chain) s

-- An element that the list holds, wherever it stands, is refused by `push_back` and by
-- `push_front`.
push_back-refused :
    (m : Links) (l : LinkedList) (xs ys : List ℕ) (e : ℕ)
    → Holds m l (xs ++ e ∷ ys)
    → (push_back e m l ≡ none) × (push_front e m l ≡ none)
unfolding push_back push_front
push_back-refused m l xs ys e v =
    let b =
      All-right (λ x. is_standalone m x ≡ false) xs (e ∷ ys)
        (busy m l.head l.head (xs ++ e ∷ ys) v.no_null.0 v.no_null.1 v.different.0 v.different
          v.chain) in
    (ground (arith, b.0), ground (arith, b.0))

standalone_again : (e : ℕ) (m : Links) → is_standalone (initialize e m) e ≡ true
unfolding is_standalone initialize
standalone_again e m = ground arith

-- `remove` of an element that the list holds takes it out, wherever it stands, leaves the others in
-- their order, and leaves the element standalone.
pub remove-Holds :
    (m : Links) (l : LinkedList) (xs ys : List ℕ) (e : ℕ)
    → Holds m l (xs ++ e ∷ ys)
    → Holds (remove e m l).0 (remove e m l).1 (xs ++ ys) × (is_standalone (remove e m l).0 e ≡ true)
unfolding remove decrement
remove-Holds m l xs ys e v = (
  record {
    chain = remove-Chain m l.head e xs ys v.different v.chain;
    different = AllDifferent-middle e (l.head ∷ xs) ys v.different;
    no_null = Absent-middle 0 e (l.head ∷ xs) ys v.no_null;
    count = omega (arith, v.count, length-append xs (e ∷ ys), length-append xs ys);
  },
  standalone_again e (remove_link e m),
)

-- `pop_front` of a list that is not empty returns the first element, leaves the others in their
-- order, and leaves the element standalone.
pub pop_front-Holds :
    (m : Links) (l : LinkedList) (x : ℕ) (xs : List ℕ)
    → Holds m l (x ∷ xs)
    → (pop_front m l ≡ some (some x, remove x m l))
      × Holds (remove x m l).0 (remove x m l).1 xs
      × (is_standalone (remove x m l).0 x ≡ true)
unfolding pop_front
pop_front-Holds m l x xs v =
    let (h, s) = remove-Holds m l [] xs x v in (ap (λ p. popped p m l) v.chain.0 ∙ not_head, h, s)
  where
    not_head : popped x m l ≡ some (some x, remove x m l)
    not_head = ground (arith, v.different.0.0)

pub pop_front-empty :
    (m : Links) (l : LinkedList) → Holds m l [] → pop_front m l ≡ some (none, (m, l))
unfolding pop_front
pop_front-empty m l v = ground (arith, v.chain.0, v.count)

last_of : (m : Links) (a b e : ℕ) (xs : List ℕ) → Chain m a (xs ++ e ∷ []) b → m.prev b ≡ e
last_of m a b e [] c = c.2.1
last_of m a b e (x ∷ xs) c = last_of m x b e xs c.2

-- `pop_back` returns the last element and leaves the ones before it.
pub pop_back-Holds :
    (m : Links) (l : LinkedList) (xs : List ℕ) (e : ℕ)
    → Holds m l (xs ++ e ∷ [])
    → (pop_back m l ≡ some (some e, remove e m l)) × Holds (remove e m l).0 (remove e m l).1 xs
unfolding pop_back
pop_back-Holds m l xs e v = (
  ap (λ p. popped p m l) (last_of m l.head l.head e xs v.chain) ∙ not_head,
  subst (Holds (remove e m l).0 (remove e m l).1) (append-nil xs) (remove-Holds m l xs [] e v).0,
)
  where
    not_head : popped e m l ≡ some (some e, remove e m l)
    not_head = ground (arith, (All-right _ xs (e ∷ []) v.different.0).0)

-- A new list is empty.
pub init-Holds : (m : Links) (head : ℕ) → head ≢ 0 → Holds (init head m).0 (init head m).1 []
unfolding init initialize
init-Holds m head h = record {
  chain = (ground arith, ground arith);
  different = (tt, tt);
  no_null = (h, tt);
  count = omega arith;
}
