-- ===== src/Queue/Tests.antt =====
-- Lists at small addresses, and the hypotheses of the theorems.
use lspider.Common.{◌==◌, ◌≡◌, refl, arith, true, some, [], ◌∷◌}
use lspider.Queue.{
  Links, LinkedList, init, initialize, push_back, pop_front, remove, is_standalone, enumerate,
  find_if, merge, insert_prev,
}
use lspider.Queue.Walk.{enumerate-Holds}
use lspider.Queue.Ring.{Holds}
use lspider.Queue.Lists.{init-Holds, push_back-Holds, pop_front-Holds, remove-Holds}

abbrev blank : Links
blank = record { next = λ a. 0; prev = λ a. 0 }

abbrev links : Links
links = (init 1 blank).0

abbrev fresh_list : LinkedList
fresh_list = (init 1 blank).1

-- The elements 5 and 6 are pushed.
one_element :
    (n : Links) × (k : LinkedList) × (push_back 5 links fresh_list ≡ some (n, k))
    × Holds n k (5 ∷ [])
unfolding init initialize is_standalone
one_element =
    push_back-Holds links fresh_list [] 5 (init-Holds blank 1 (omega arith)) (omega arith)
      (omega arith) refl

push_back-Holds_example :
    (n : Links) × (k : LinkedList) × (push_back 5 links fresh_list ≡ some (n, k))
    × Holds n k (5 ∷ [])
unfolding init initialize is_standalone
push_back-Holds_example =
    push_back-Holds links fresh_list [] 5 (init-Holds blank 1 (omega arith)) (omega arith)
      (omega arith) refl

pop_front-Holds_example :
    (pop_front one_element.0 one_element.1 ≡ some (some 5, remove 5 one_element.0 one_element.1))
    × Holds (remove 5 one_element.0 one_element.1).0 (remove 5 one_element.0 one_element.1).1 []
    × (is_standalone (remove 5 one_element.0 one_element.1).0 5 ≡ true)
pop_front-Holds_example = pop_front-Holds one_element.0 one_element.1 5 [] one_element.3

remove-Holds_example :
    Holds (remove 5 one_element.0 one_element.1).0 (remove 5 one_element.0 one_element.1).1 []
    × (is_standalone (remove 5 one_element.0 one_element.1).0 5 ≡ true)
remove-Holds_example = remove-Holds one_element.0 one_element.1 [] [] 5 one_element.3

enumerate-Holds_example :
    (enumerate (λ a. a == 5) 2 one_element.0 one_element.1 (one_element.0.next one_element.1.head)
      ≡ some true)
    × (find_if (λ a. a == 5) 2 one_element.0 one_element.1 (one_element.0.next one_element.1.head)
        ≡ some (some 5))
enumerate-Holds_example =
    enumerate-Holds (λ a. a == 5) one_element.0 one_element.1 (5 ∷ []) 2 one_element.3 (omega arith)

-- The element 5 in the list at 1, before and after the empty list at 9 is merged into it.
abbrev one_and_none : Links
one_and_none = insert_prev 1 5 (initialize 9 (initialize 1 blank))

abbrev merged : Links
merged = (merge one_and_none (record { head = 1; count = 1 }) (record { head = 9; count = 0 })).0

merge_empty : (merged.next 5 ≡ 1) × (merged.prev 1 ≡ 5) × (merged.next 9 ≡ 9)
unfolding merge initialize insert_prev
merge_empty = (refl, refl, refl)
