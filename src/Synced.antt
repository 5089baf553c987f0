-- ===== src/Synced.antt =====
-- `TSyncedQueue` of src/synced_queue.h: a queue under a mutex, with a semaphore that counts its
-- elements. An operation takes several steps, and other threads may run between them: a push adds the
-- element and later posts, a pop waits and later takes an element.
pub mod Order
pub mod Tests
use lspider.Common.{
  ℕ, suc, ◌+◌, ◌-◌, Bool, Option, none, some, List, [], ◌∷◌, ◌++◌, length, ◌==◌, if◌then◌else◌,
  reverse,
}

-- `posting` threads have added an element and not posted, `popping` threads have waited and not taken
-- one.
pub record Synced : Type 0 where
  pub queue : List ℕ
  pub sem : ℕ
  pub posting : ℕ
  pub popping : ℕ

abbrev pub empty_synced : Synced
empty_synced = record { queue = []; sem = 0; posting = 0; popping = 0 }

-- `push_back` and `push_front`, up to `Unlock`.
unfoldable pub push_back : ℕ → Synced → Synced
push_back e s = record s { queue = s.queue ++ e ∷ []; posting = s.posting + 1 }

unfoldable pub push_front : ℕ → Synced → Synced
push_front e s = record s { queue = e ∷ s.queue; posting = s.posting + 1 }

-- `sem_post`, of a thread that has unlocked.
unfoldable pub post : Synced → Option Synced
post s =
    if s.posting == 0 then none else some (record s { posting = s.posting - 1; sem = s.sem + 1 })

-- `sem_wait`, which blocks at 0.
unfoldable pub wait : Synced → Option Synced
wait s = if s.sem == 0 then none else some (record s { sem = s.sem - 1; popping = s.popping + 1 })

-- What a thread behind `sem_wait` gets; `assert(NULL != e)` may fail. There is none such if the
-- step is not possible.
pub data Pop : Type 0 where
  not_waiting : Pop
  assert_failed : Pop
  popped : ℕ → Synced → Pop

abbrev take_front : Synced → List ℕ → Pop
take_front s [] = assert_failed
take_front s (e ∷ q) = popped e (record s { queue = q; popping = s.popping - 1 })

unfoldable pub pop_front : Synced → Pop
pop_front s = if s.popping == 0 then not_waiting else take_front s s.queue

-- The last element and the others before it.
abbrev split_last : ℕ → List ℕ → List ℕ × ℕ
split_last e [] = ([], e)
split_last e (x ∷ q) = let r = split_last x q in (e ∷ r.0, r.1)

abbrev take_back : Synced → List ℕ → Pop
take_back s [] = assert_failed
take_back s (e ∷ q) =
    let r = split_last e q in popped r.1 (record s { queue = r.0; popping = s.popping - 1 })

unfoldable pub pop_back : Synced → Pop
pop_back s = if s.popping == 0 then not_waiting else take_back s s.queue
