-- ===== src/Store/Selector/Ordered.antt =====
-- The order of the rows that the query of src/mysql_selector.cpp gives.
use lspider.Common.{
  ℕ, ◌≤◌, List, [], ◌∷◌, ltb, if_both, All, arith, if◌then◌else◌, Bool-cases, inl, inr,
}
use mathlib.Core.List.{Perm}
use mathlib.Core.List.Perm
use lspider.Store.Selector.{Row, Limits, wanted, query, insert_by_depth}

-- From the least depth to the greatest.
abbrev pub Ordered : List Row → Type 0
Ordered [] = Unit
Ordered (r ∷ rows) = All (λ s. r.link_depth ≤ s.link_depth) rows × Ordered rows

-- The rows that meet the query's condition, in the order of the table.
abbrev pub asked : Limits → List Row → List Row
asked c [] = []
asked c (r ∷ rows) = if wanted c r then r ∷ asked c rows else asked c rows

All-deeper :
    (n m : ℕ) (rows : List Row)
    → n ≤ m
    → All (λ s. m ≤ s.link_depth) rows
    → All (λ s. n ≤ s.link_depth) rows
All-deeper n m [] h k = tt
All-deeper n m (s ∷ rows) h k = (omega arith, All-deeper n m rows h k.1)

insert-All :
    (n : ℕ) (r : Row) (rows : List Row)
    → n ≤ r.link_depth
    → All (λ s. n ≤ s.link_depth) rows
    → All (λ s. n ≤ s.link_depth) (insert_by_depth r rows)
unfolding insert_by_depth
insert-All n r [] h k = (h, tt)
insert-All n r (s ∷ rows) h k =
    if_both (All (λ x. n ≤ x.link_depth)) (ltb s.link_depth r.link_depth) _ _
      (λ e. (k.0, insert-All n r rows h k.1)) λ e. (h, k)

insert-Ordered : (r : Row) (rows : List Row) → Ordered rows → Ordered (insert_by_depth r rows)
unfolding insert_by_depth
insert-Ordered r [] o = (tt, tt)
insert-Ordered r (s ∷ rows) o =
    if_both Ordered (ltb s.link_depth r.link_depth) _ _
      (λ e. (insert-All s.link_depth r rows (ground arith) o.0, insert-Ordered r rows o.1))
      λ e. ((ground arith, All-deeper r.link_depth s.link_depth rows (ground arith) o.0), o)

pub query-Ordered : (c : Limits) (rows : List Row) → Ordered (query c rows)
unfolding query
query-Ordered c [] = tt
query-Ordered c (r ∷ rows) =
    if_both Ordered (wanted c r) _ _ (λ e. insert-Ordered r (query c rows) (query-Ordered c rows))
      λ e. query-Ordered c rows

insert-Perm : (r : Row) (rows : List Row) → Perm (insert_by_depth r rows) (r ∷ rows)
unfolding insert_by_depth
insert-Perm r [] = Perm.rfl
insert-Perm r (s ∷ rows) =
    if_both (λ l. Perm l (r ∷ s ∷ rows)) (ltb s.link_depth r.link_depth) _ _
      (λ e. Perm.trans (Perm.cons s (insert-Perm r rows)) (Perm.swap r s rows)) λ e. Perm.rfl

pub query-Perm : (c : Limits) (rows : List Row) → Perm (query c rows) (asked c rows)
unfolding query
query-Perm c [] = Perm.rfl
query-Perm c (r ∷ rows) = elim (Bool-cases (wanted c r)) [
  | inl e ↦ rw e (Perm.trans (insert-Perm r (query c rows)) (Perm.cons r (query-Perm c rows)))
  | inr e ↦ rw e (query-Perm c rows)
]
