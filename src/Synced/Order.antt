-- ===== src/Synced/Order.antt =====
-- The queue under every interleaving of its threads.
use lspider.Common.{
  ℕ, suc, ◌+◌, ◌-◌, ◌<◌, ◌≡◌, refl, sym, ap, subst, ◌∙◌, some, List, [], ◌∷◌, ◌++◌, arith, length,
  length-append, append_assoc,
}
use lspider.Synced.{
  Synced, empty_synced, push_back, push_front, post, wait, popped, pop_front, pop_back, take_front,
  take_back, split_last,
}

-- A step of one thread.
pub data Step (s : Synced) : Synced → Type 0 where
  pushed_back : (e : ℕ) (t : Synced) → t ≡ push_back e s → Step s t
  pushed_front : (e : ℕ) (t : Synced) → t ≡ push_front e s → Step s t
  posted : (t : Synced) → post s ≡ some t → Step s t
  waited : (t : Synced) → wait s ≡ some t → Step s t
  took_front : (e : ℕ) (t : Synced) → pop_front s ≡ popped e t → Step s t
  took_back : (e : ℕ) (t : Synced) → pop_back s ≡ popped e t → Step s t

pub data Reach : Synced → Type 0 where
  start : Reach empty_synced
  next : {s t : Synced} → Reach s → Step s t → Reach t

-- Every element was posted, or is about to be, or has a thread that waited for it.
abbrev IsCounted : Synced → Type 0
IsCounted s = length s.queue ≡ s.sem + s.posting + s.popping

record IsTaken (s t : Synced) (n : ℕ) : Type 0 where
  shorter : n ≡ suc (length t.queue)
  sem : t.sem ≡ s.sem
  posting : t.posting ≡ s.posting
  popping : t.popping ≡ s.popping - 1

take_front-IsTaken :
    (s t : Synced) (e : ℕ) (q : List ℕ) → take_front s q ≡ popped e t → IsTaken s t (length q)
take_front-IsTaken s t e [] h = cc
take_front-IsTaken s t e (x ∷ q) h = ground arith

length-split_last : (e : ℕ) (q : List ℕ) → length (split_last e q).0 ≡ length q
length-split_last e [] = refl
length-split_last e (x ∷ q) = omega (arith, length-split_last x q)

take_back-IsTaken :
    (s t : Synced) (e : ℕ) (q : List ℕ) → take_back s q ≡ popped e t → IsTaken s t (length q)
take_back-IsTaken s t e [] h = cc
take_back-IsTaken s t e (x ∷ q) h = ground (arith, length-split_last x q)

push_back-queue : (s : Synced) (e : ℕ) → (push_back e s).queue ≡ s.queue ++ e ∷ []
unfolding push_back
push_back-queue s e = refl

Step-IsCounted : (s t : Synced) → Step s t → IsCounted s → IsCounted t
unfolding push_back push_front post wait pop_front pop_back
Step-IsCounted s t (pushed_back e u h) c =
    subst IsCounted (sym h)
      (omega (arith, c, ap (length {A = ℕ}) (push_back-queue s e), length-append s.queue (e ∷ [])))
Step-IsCounted s t (pushed_front e u h) c = subst IsCounted (sym h) (omega (arith, c))
Step-IsCounted s t (posted u h) c = ground (arith, h)
Step-IsCounted s t (waited u h) c = ground (arith, h)
Step-IsCounted s t (took_front e u h) c = ground (arith, h, take_front-IsTaken s t e s.queue)
Step-IsCounted s t (took_back e u h) c = ground (arith, h, take_back-IsTaken s t e s.queue)

Reach-IsCounted : {s : Synced} → Reach s → IsCounted s
Reach-IsCounted start = omega arith
Reach-IsCounted (next {s = s} {t = t} r h) = Step-IsCounted s t h (Reach-IsCounted r)

front_there :
    (s : Synced) (q : List ℕ)
    → 0 < length q
    → (e : ℕ) × (t : Synced) × (take_front s q ≡ popped e t)
front_there s [] h = absurd (omega arith)
front_there s (x ∷ q) h = (x, _, refl)

back_there :
    (s : Synced) (q : List ℕ) → 0 < length q → (e : ℕ) × (t : Synced) × (take_back s q ≡ popped e t)
back_there s [] h = absurd (omega arith)
back_there s (x ∷ q) h = (_, _, refl)

-- However the threads interleave, a thread that came past `sem_wait` finds an element at either
-- end, so that the assertion never fails.
pub Reach-popped :
    {s : Synced}
    → Reach s
    → 0 < s.popping
    → ((e : ℕ) × (t : Synced) × (pop_front s ≡ popped e t))
      × ((e : ℕ) × (t : Synced) × (pop_back s ≡ popped e t))
unfolding pop_front pop_back
Reach-popped {s} r h =
    let (e, t, p) = front_there s s.queue (omega (arith, Reach-IsCounted r)) in
    let (f, u, k) = back_there s s.queue (omega (arith, Reach-IsCounted r)) in
    ((e, t, ground (arith, p)), (f, u, ground (arith, k)))

-- The elements pushed and popped so far, by threads that push at the back and pop at the front.
pub data Fifo : List ℕ → List ℕ → Synced → Type 0 where
  begin : Fifo [] [] empty_synced
  pushes :
      {ins outs : List ℕ} {s : Synced} (e : ℕ)
      → Fifo ins outs s
      → Fifo (ins ++ e ∷ []) outs (push_back e s)
  posts : {ins outs : List ℕ} {s t : Synced} → Fifo ins outs s → post s ≡ some t → Fifo ins outs t
  waits : {ins outs : List ℕ} {s t : Synced} → Fifo ins outs s → wait s ≡ some t → Fifo ins outs t
  pops :
      {ins outs : List ℕ} {s t : Synced} (e : ℕ)
      → Fifo ins outs s
      → pop_front s ≡ popped e t
      → Fifo ins (outs ++ e ∷ []) t

take_front-queue :
    (s t : Synced) (e : ℕ) (q : List ℕ) → take_front s q ≡ popped e t → q ≡ e ∷ t.queue
take_front-queue s t e [] h = cc
take_front-queue s t e (x ∷ q) h = cc

pop_front-queue : (s t : Synced) (e : ℕ) → pop_front s ≡ popped e t → s.queue ≡ e ∷ t.queue
unfolding pop_front
pop_front-queue s t e h = ground (arith, take_front-queue s t e s.queue)

post-queue : (s t : Synced) → post s ≡ some t → t.queue ≡ s.queue
unfolding post
post-queue s t h = ground arith

wait-queue : (s t : Synced) → wait s ≡ some t → t.queue ≡ s.queue
unfolding wait
wait-queue s t h = ground arith

-- With pushes at the back and pops at the front, the elements come out in the order in which they
-- were put in: what was pushed is what was popped and then what is still in the queue.
pub Fifo-queue : {ins outs : List ℕ} {s : Synced} → Fifo ins outs s → ins ≡ outs ++ s.queue
Fifo-queue begin = refl
Fifo-queue (pushes {outs = outs} {s = s} e r) =
    ap (λ l. l ++ e ∷ []) (Fifo-queue r)
    ∙ append_assoc outs s.queue (e ∷ [])
    ∙ ap (◌++◌ outs) (sym (push_back-queue s e))
Fifo-queue (posts {outs = outs} {s = s} {t = t} r h) =
    Fifo-queue r ∙ ap (◌++◌ outs) (sym (post-queue s t h))
Fifo-queue (waits {outs = outs} {s = s} {t = t} r h) =
    Fifo-queue r ∙ ap (◌++◌ outs) (sym (wait-queue s t h))
Fifo-queue (pops {outs = outs} {s = s} {t = t} e r h) =
    Fifo-queue r
    ∙ ap (◌++◌ outs) (pop_front-queue s t e h)
    ∙ sym (append_assoc outs (e ∷ []) t.queue)
