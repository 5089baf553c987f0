-- ===== src/Synced/Tests.antt =====
-- Two threads on one queue, and the hypotheses of the theorems.
use lspider.Common.{ℕ, ◌≡◌, refl, arith, List, [], ◌∷◌, ◌++◌}
use lspider.Synced.{Synced, push_back, post, wait, popped, pop_front, pop_back}
use lspider.Synced.Order.{
  Reach, start, next, pushed_back, posted, waited, Reach-popped, Fifo, begin, pushes, posts, waits,
  pops, Fifo-queue,
}

-- One thread has pushed 7 and 8 and posted once, another one has waited.
abbrev busy : Synced
busy = record { queue = 7 ∷ 8 ∷ []; sem = 0; posting = 1; popping = 1 }

busy_reached : Reach busy
unfolding push_back post wait
busy_reached =
    next (next (next (next start (pushed_back 7 _ refl)) (posted _ refl)) (pushed_back 8 _ refl))
      (waited _ refl)

Reach-popped_example :
    ((e : ℕ) × (t : Synced) × (pop_front busy ≡ popped e t))
    × ((e : ℕ) × (t : Synced) × (pop_back busy ≡ popped e t))
Reach-popped_example = Reach-popped busy_reached (omega arith)

after_pop :
    Fifo (7 ∷ 8 ∷ []) (7 ∷ []) (record { queue = 8 ∷ []; sem = 0; posting = 1; popping = 0 })
unfolding push_back post wait pop_front
after_pop = pops 7 (waits (pushes 8 (posts (pushes 7 begin) refl)) refl) refl

Fifo-queue_example : ◌≡◌ {A = List ℕ} (7 ∷ 8 ∷ []) ((7 ∷ []) ++ 8 ∷ [])
Fifo-queue_example = Fifo-queue after_pop
