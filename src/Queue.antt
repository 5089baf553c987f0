-- ===== src/Queue.antt =====
-- The intrusive list of src/link.h and src/DoubleList.h. An address is a number, 0 the null pointer,
-- and an element has the address of its link.
pub mod Ring
pub mod Insert
pub mod Remove
pub mod Lists
pub mod Walk
pub mod Eaten
pub mod Tests
use lspider.Common.{
  ℕ, zero, suc, ◌+◌, ◌%◌, ◌^◌, Bool, ltb, true, false, Option, none, some, ◌==◌, ◌||◌, ◌&&◌, not,
  if◌then◌else◌,
}
use lspider.LinkTable.{increment, decrement, word}

-- The links in memory: `_next` and `_prev` of each address.
pub record Links : Type 0 where
  pub next : ℕ → ℕ
  pub prev : ℕ → ℕ

abbrev pub set : (ℕ → ℕ) → ℕ → ℕ → ℕ → ℕ
set f a v x = if x == a then v else f x

abbrev pub set_next : Links → ℕ → ℕ → Links
set_next m a v = record m { next = set m.next a v }

abbrev pub set_prev : Links → ℕ → ℕ → Links
set_prev m a v = record m { prev = set m.prev a v }

-- `DLINK_INITIALIZE`.
unfoldable pub initialize : ℕ → Links → Links
initialize a m = set_next (set_prev m a a) a a

-- `DLINK_INSERT_PREV`, statement by statement.
unfoldable pub insert_prev : ℕ → ℕ → Links → Links
insert_prev head e m =
    let m1 = set_prev m e (m.prev head) in
    let m2 = set_next m1 e head in let m3 = set_next m2 (m2.prev head) e in set_prev m3 head e

-- `DLINK_INSERT_NEXT`.
unfoldable pub insert_next : ℕ → ℕ → Links → Links
insert_next head e m =
    let m1 = set_next m e (m.next head) in
    let m2 = set_prev m1 e head in let m3 = set_prev m2 (m2.next head) e in set_next m3 head e

-- `DLINK_REMOVE`.
unfoldable pub remove_link : ℕ → Links → Links
remove_link e m = let m1 = set_next m (m.prev e) (m.next e) in set_prev m1 (m1.next e) (m1.prev e)

-- `DLINK_IS_STANDALONE` of a build without `_DEBUG`.
unfoldable pub is_standalone : Links → ℕ → Bool
is_standalone m e = e == m.next e && e == m.prev e || 0 == m.next e && 0 == m.prev e

-- `TLinkedList`: the address of its head, and the count.
pub record LinkedList : Type 0 where
  pub head : ℕ
  pub count : ℕ

unfoldable pub init : ℕ → Links → Links × LinkedList
init head m = (initialize head m, record { head = head; count = 0 })

-- `push_back` and `push_front`; `none` is a failed `ASSERT`.
unfoldable pub push_back : ℕ → Links → LinkedList → Option (Links × LinkedList)
push_back e m l =
    if not (e == 0) && is_standalone m e
    then some (insert_prev l.head e m, record l { count = increment l.count })
    else none

unfoldable pub push_front : ℕ → Links → LinkedList → Option (Links × LinkedList)
push_front e m l =
    if not (e == 0) && is_standalone m e
    then some (insert_next l.head e m, record l { count = increment l.count })
    else none

-- `remove`, and what `pop_front` and `pop_back` do to the element that they return.
unfoldable pub remove : ℕ → Links → LinkedList → Links × LinkedList
remove e m l = (initialize e (remove_link e m), record l { count = decrement l.count })

abbrev pub popped : ℕ → Links → LinkedList → Option (Option ℕ × (Links × LinkedList))
popped p m l =
    if p == l.head
    then (if l.count == 0 then some (none, (m, l)) else none)
    else some (some p, remove p m l)

unfoldable pub pop_front : Links → LinkedList → Option (Option ℕ × (Links × LinkedList))
pop_front m l = popped (m.next l.head) m l

unfoldable pub pop_back : Links → LinkedList → Option (Option ℕ × (Links × LinkedList))
pop_back m l = popped (m.prev l.head) m l

-- `get_next`, `get_prev`: null at the ends.
unfoldable pub get_next : ℕ → Links → LinkedList → Option ℕ
get_next e m l = if m.next e == l.head then none else some (m.next e)

unfoldable pub get_prev : ℕ → Links → LinkedList → Option ℕ
get_prev e m l = if m.prev e == l.head then none else some (m.prev e)

-- The loops of `Enumerate` and `FindIf` from the address `p`, with a callback that leaves the list
-- alone. `none` is a loop that is not done in the rounds given.
unfoldable pub enumerate : (ℕ → Bool) → ℕ → Links → LinkedList → ℕ → Option Bool
enumerate f zero m l p = none
enumerate f (suc fuel) m l p = elim (p == l.head) [
  | true ↦ some true
  | false ↦ elim (f p) [ true ↦ enumerate f fuel m l (m.next p) | false ↦ some false ]
]

unfoldable pub find_if : (ℕ → Bool) → ℕ → Links → LinkedList → ℕ → Option (Option ℕ)
find_if f zero m l p = none
find_if f (suc fuel) m l p = elim (p == l.head) [
  | true ↦ some none
  | false ↦ elim (f p) [ true ↦ some (some p) | false ↦ find_if f fuel m l (m.next p) ]
]

-- `0 < m_count`, of a count of 32 bits.
abbrev pub signed_positive : ℕ → Bool
signed_positive n = ltb 0 n && ltb n (2 ^ 31)

-- `get_front` and `get_back`; the outer `none` is a failed assertion.
unfoldable pub get_front : Links → LinkedList → Option (Option ℕ)
get_front m l =
    if m.next l.head == l.head
    then (if l.count == 0 then some none else none)
    else if signed_positive l.count
    then some (some (m.next l.head))
    else none

unfoldable pub get_back : Links → LinkedList → Option (Option ℕ)
get_back m l =
    if m.prev l.head == l.head
    then (if l.count == 0 then some none else none)
    else some (some (m.prev l.head))

-- `merge`, statement by statement.
unfoldable pub merge : Links → LinkedList → LinkedList → Links × (LinkedList × LinkedList)
merge m l other =
    let m1 = set_next m (m.prev l.head) (m.next other.head) in
    let m2 = set_prev m1 (m1.next other.head) (m1.prev l.head) in
    let m3 = set_prev m2 l.head (m2.prev other.head) in
    let m4 = set_next m3 (m3.prev other.head) l.head in
    (
      initialize other.head m4,
      (record l { count = (l.count + other.count) % word }, record other { count = 0 }),
    )

-- The loop of `Eat` with a callback that leaves the list alone. `none` is a failed assertion, or a
-- loop that is not done in the rounds given.
abbrev pub with_answer : Bool → Option (Links × LinkedList) → Option (Bool × (Links × LinkedList))
with_answer b none = none
with_answer b (some s) = some (b, s)

unfoldable pub eat : (ℕ → Bool) → ℕ → Links → LinkedList → Option (Bool × (Links × LinkedList))
eat f zero m l = none
eat f (suc fuel) m l = elim (pop_front m l) [
  | none ↦ none
  | some r ↦ elim r.0 [
    | none ↦ some (true, r.1)
    | some e ↦ elim (f e) [
      | true ↦ eat f fuel r.1.0 r.1.1
      | false ↦ with_answer false (push_front e r.1.0 r.1.1)
    ]
  ]
]

-- `dlink_pop_self`: the element behind one that is linked, which leaves its ring; null otherwise.
unfoldable pub dlink_pop_self : ℕ → Links → Option ℕ × Links
dlink_pop_self e m =
    if not (e == m.next e) && not (m.next e == 0)
    then (some (m.next e), initialize e (remove_link e m))
    else (none, m)

-- `dlink_get_next` and `dlink_get_prev`.
unfoldable pub dlink_get_next : ℕ → Links → Option ℕ
dlink_get_next e m = if m.next e == 0 then none else some (m.next e)

unfoldable pub dlink_get_prev : ℕ → Links → Option ℕ
dlink_get_prev e m = if m.prev e == 0 then none else some (m.prev e)

-- The loop of `dlink_contains` from the address `p`; `none` is a loop that is not done in the rounds
-- given.
unfoldable pub dlink_contains : ℕ → Links → ℕ → ℕ → ℕ → Option Bool
dlink_contains zero m head e p = none
dlink_contains (suc fuel) m head e p = elim (p == e) [
  | true ↦ some true
  | false ↦ elim (m.next p == 0 || m.next p == head) [
    | true ↦ some false
    | false ↦ dlink_contains fuel m head e (m.next p)
  ]
]
