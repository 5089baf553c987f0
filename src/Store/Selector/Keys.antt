-- ===== src/Store/Selector/Keys.antt =====
-- The signatures of the rows that the query gives.
use lspider.Common.{
  true, false, List, [], ◌∷◌, ◌≡◌, sym, subst, ltb, if_both, Bytes, bytes_eq, bytes_eq_iff,
  bytes_eq_refl, All, Bool-cases, inl, inr, arith,
}
use lspider.Store.Selector.{Row, Limits, wanted, query, insert_by_depth, context_of}

abbrev pub key : Row → Bytes
key r = (context_of r).sign

-- No two rows have a signature.
abbrev pub Keyed : List Row → Type 0
Keyed [] = Unit
Keyed (r ∷ rows) = All (λ x. bytes_eq (key x) (key r) ≡ false) rows × Keyed rows

bytes_ne_sym : (s t : Bytes) → bytes_eq s t ≡ false → bytes_eq t s ≡ false
bytes_ne_sym s t h = elim (Bool-cases (bytes_eq t s)) [
  | inr e ↦ e
  | inl e ↦ absurd (
      ground (
        arith,
        h,
        subst (λ x. bytes_eq s x ≡ true) (sym ((bytes_eq_iff t s).0 e)) (bytes_eq_refl s),
      ))
]

insert_by_depth-All :
    (P : Row → Type 0) (r : Row) (rows : List Row)
    → P r
    → All P rows
    → All P (insert_by_depth r rows)
unfolding insert_by_depth
insert_by_depth-All P r [] h k = (h, tt)
insert_by_depth-All P r (s ∷ rows) h k =
    if_both (All P) (ltb s.link_depth r.link_depth) _ _
      (λ e. (k.0, insert_by_depth-All P r rows h k.1)) λ e. (h, k)

insert_by_depth-Keyed :
    (r : Row) (rows : List Row)
    → All (λ x. bytes_eq (key x) (key r) ≡ false) rows
    → Keyed rows
    → Keyed (insert_by_depth r rows)
unfolding insert_by_depth
insert_by_depth-Keyed r [] h k = (tt, tt)
insert_by_depth-Keyed r (s ∷ rows) h k =
    if_both Keyed (ltb s.link_depth r.link_depth) _ _
      (λ e. (
        insert_by_depth-All _ r rows (bytes_ne_sym (key s) (key r) h.0) k.0,
        insert_by_depth-Keyed r rows h.1 k.1,
      ))
      λ e. (h, k)

query-All : (P : Row → Type 0) (c : Limits) (rows : List Row) → All P rows → All P (query c rows)
unfolding query
query-All P c [] h = tt
query-All P c (r ∷ rows) h =
    if_both (All P) (wanted c r) _ _
      (λ e. insert_by_depth-All P r (query c rows) h.0 (query-All P c rows h.1))
      λ e. query-All P c rows h.1

pub query-Keyed : (c : Limits) (rows : List Row) → Keyed rows → Keyed (query c rows)
unfolding query
query-Keyed c [] h = tt
query-Keyed c (r ∷ rows) h =
    if_both Keyed (wanted c r) _ _
      (λ e.
        insert_by_depth-Keyed r (query c rows) (query-All _ c rows h.0) (query-Keyed c rows h.1))
      λ e. query-Keyed c rows h.1
