-- ===== src/Store/Selector/Rows.antt =====
-- The table of rows after `select`, row by row.
use lspider.Common.{
  ℕ, Bool, true, false, List, [], ◌∷◌, ◌≡◌, refl, sym, subst, ap, ◌∙◌, arith, ◌&&◌, if◌then◌else◌,
  Bytes, bytes_eq, bytes_eq_iff, All, Bool-cases, inl, inr,
}
use lspider.LinkTable.{AddResult, rt_ok, rt_table_full, rt_parse_error}
use lspider.LinkTable
use lspider.LinkTable.Interfaces.{PriorityQueue, Float}
use lspider.Store.{fresh, selected}
use mathlib.Core.List.{Perm}
use lspider.Store.Selector.Ordered.{Ordered, asked, query-Ordered, query-Perm}
use lspider.Store.Selector.Keys.{key, Keyed, query-Keyed}
use lspider.Store.Selector.{
  Row, Limits, update_where, to_state, retried, to_mark, query, mark, has_sign, context_of, settle,
  Table, add_row, add_rows, select,
}

-- A row under one result, and under a list of results by signature.
abbrev pub settled : Limits → AddResult → Bytes → Row → Row
settled c rt_ok s r = r
settled c rt_table_full s r = if c.update_ok s then to_state fresh r else r
settled c rt_parse_error s r = if c.update_ok s then retried r else r

abbrev pub after : Limits → List (Bytes × AddResult) → Row → Row
after c [] r = r
after c ((s, res) ∷ rest) r = if has_sign s r then settled c res s r else after c rest r

abbrev pub marked : Limits → Row → Row
marked c r = if c.mark_ok && to_mark c r then to_state selected r else r

abbrev pub each : (Row → Row) → List Row → List Row
each g [] = []
each g (r ∷ rows) = g r ∷ each g rows

-- No two of the results have a signature.
abbrev pub Apart : List (Bytes × AddResult) → Type 0
Apart [] = Unit
Apart ((s, res) ∷ rest) = All (λ o. bytes_eq o.0 s ≡ false) rest × Apart rest

pub each-each :
    (g h k : Row → Row)
    → ((r : Row) → g (h r) ≡ k r)
    → (rows : List Row) → each g (each h rows) ≡ each k rows
each-each g h k e [] = refl
each-each g h k e (r ∷ rows) =
    ap (λ x. x ∷ each g (each h rows)) (e r) ∙ ap (λ l. k r ∷ l) (each-each g h k e rows)

update_where-each :
    (p : Row → Bool) (g : Row → Row) (rows : List Row)
    → update_where p g rows ≡ each (λ r. if p r then g r else r) rows
unfolding update_where
update_where-each p g [] = refl
update_where-each p g (r ∷ rows) =
    ap (λ l. (if p r then g r else r) ∷ l) (update_where-each p g rows)

pub each_eq :
    (g h : Row → Row) → ((r : Row) → g r ≡ h r) → (rows : List Row) → each g rows ≡ each h rows
each_eq g h e [] = refl
each_eq g h e (r ∷ rows) = ap (λ x. x ∷ each g rows) (e r) ∙ ap (λ l. h r ∷ l) (each_eq g h e rows)

each_id : (g : Row → Row) → ((r : Row) → g r ≡ r) → (rows : List Row) → each g rows ≡ rows
each_id g e [] = refl
each_id g e (r ∷ rows) = ap (λ x. x ∷ each g rows) (e r) ∙ ap (λ l. r ∷ l) (each_id g e rows)

pub updated :
    (b : Bool) (p : Row → Bool) (g : Row → Row) (rows : List Row)
    → (if b then update_where p g rows else rows)
      ≡ each (λ r. if p r then (if b then g r else r) else r) rows
updated true p g rows = update_where-each p g rows
updated false p g rows = sym (each_id _ (λ r. ground arith) rows)

pub one : Limits → AddResult → Bytes → Row → Row
one c res s r = if has_sign s r then settled c res s r else r

pub settle-each :
    (c : Limits) (res : AddResult) (s : Bytes) (rows : List Row)
    → settle c res s rows ≡ each (one c res s) rows
unfolding settle one
settle-each c rt_ok s rows = sym (each_id _ (λ r. ground arith) rows)
settle-each c rt_table_full s rows = updated (c.update_ok s) (has_sign s) (to_state fresh) rows
settle-each c rt_parse_error s rows = updated (c.update_ok s) (has_sign s) retried rows

settled_sign :
    (c : Limits) (res : AddResult) (s : Bytes) (r : Row) → (settled c res s r).sign ≡ r.sign
settled_sign c rt_ok s r = refl
settled_sign c rt_table_full s r = ground arith
settled_sign c rt_parse_error s r = ground arith

after_other :
    (c : Limits) (os : List (Bytes × AddResult)) (s : Bytes) (r : Row)
    → All (λ o. bytes_eq o.0 s ≡ false) os
    → s ≡ r.sign
    → after c os r ≡ r
after_other c [] s r h e = refl
after_other c ((t, res) ∷ os) s r h e =
    ground (arith, subst (λ x. bytes_eq t x ≡ false) e h.0, after_other c os s r h.1 e)

pub one_same :
    (c : Limits) (res : AddResult) (s : Bytes) (r : Row)
    → has_sign s r ≡ true
    → one c res s r ≡ settled c res s r
unfolding one
one_same c res s r e = ground (arith, e)

one_other :
    (c : Limits) (res : AddResult) (s : Bytes) (r : Row) → has_sign s r ≡ false → one c res s r ≡ r
unfolding one
one_other c res s r e = ground (arith, e)

after-one :
    (c : Limits) (os : List (Bytes × AddResult)) (res : AddResult) (s : Bytes)
    → All (λ o. bytes_eq o.0 s ≡ false) os
    → (r : Row) → after c os (one c res s r) ≡ after c ((s, res) ∷ os) r
after-one c os res s h r = elim (Bool-cases (has_sign s r)) [
  | inl e ↦
      let same = (bytes_eq_iff s r.sign).0 e in
      ap (after c os) (one_same c res s r e)
      ∙ (after_other c os s (settled c res s r) h (same ∙ sym (settled_sign c res s r))
          ∙ ground (arith, e))
  | inr e ↦ ap (after c os) (one_other c res s r e) ∙ ground (arith, e)
]

pub mark-each : (c : Limits) (rows : List Row) → mark c rows ≡ each (marked c) rows
unfolding mark
mark-each c rows =
    updated c.mark_ok (to_mark c) (to_state selected) rows ∙ each_eq _ _ (λ r. ground arith) rows

module _ (q : PriorityQueue) (f : Float) (resolve : Bytes → List Bytes) (random : Bytes → ℕ)
    (conf : LinkTable.Conf) where
  -- The contexts of the rows added one after another, with the result of each.
  abbrev pub add_all :
      Table q f resolve random conf
      → List Row
      → Table q f resolve random conf × List (Bytes × AddResult)
  add_all t [] = (t, [])
  add_all t (r ∷ rs) =
      let added = add_row q f resolve random conf t r in
      let rest = add_all added.0 rs in (rest.0, ((context_of r).sign, added.1) ∷ rest.1)

  abbrev Add : Type 0
  Add = Table q f resolve random conf

  add_rows-each :
      (c : Limits) (t : Add) (rows rs : List Row)
      → Apart (add_all t rs).1
      → add_rows q f resolve random conf c t rows rs
        ≡ ((add_all t rs).0, each (after c (add_all t rs).1) rows)
  unfolding add_rows
  add_rows-each c t rows [] h = ap (λ l. (t, l)) (sym (each_id _ (λ r. refl) rows))
  add_rows-each c t rows (r ∷ rs) h =
      let added = add_row q f resolve random conf t r in
      let s = (context_of r).sign in
      let rest = add_all added.0 rs in
      add_rows-each c added.0 (settle c added.1 s rows) rs h.1
      ∙ ap (λ l. (rest.0, l))
          (ap (each (after c rest.1)) (settle-each c added.1 s rows)
            ∙ each-each (after c rest.1) (one c added.1 s) _ (after-one c rest.1 added.1 s h.0)
                rows)

  signs_apart :
      (s : Bytes) (rs : List Row) (t : Add)
      → All (λ x. bytes_eq (key x) s ≡ false) rs
      → All (λ o. bytes_eq o.0 s ≡ false) (add_all t rs).1
  signs_apart s [] t h = tt
  signs_apart s (r ∷ rs) t h = (h.0, signs_apart s rs _ h.1)

  all_Apart : (rs : List Row) (t : Add) → Keyed rs → Apart (add_all t rs).1
  all_Apart [] t h = tt
  all_Apart (r ∷ rs) t h = (signs_apart (key r) rs _ h.0, all_Apart rs _ h.1)

  -- If no two rows have a signature and the query succeeds, `select` adds the rows that meet its
  -- condition, each once and from the least depth to the greatest, and each row ends as its mark and
  -- the result of its own addition say: it stays marked where its context was added, is new again
  -- where the table was full, and is new with one more retry where its URL could not be parsed.
  pub select-each :
      (c : Limits) (t : Add) (rows : List Row)
      → c.query_ok ≡ true
      → Keyed rows
      → (select q f resolve random conf c t rows ≡ (
        true,
        (
          (add_all t (query c rows)).0,
          each (λ r. after c (add_all t (query c rows)).1 (marked c r)) rows,
        ),
      ))
        × Ordered (query c rows)
        × Perm (query c rows) (asked c rows)
  unfolding select
  select-each c t rows h k =
      let all = add_all t (query c rows) in
      (
        ground (arith, h)
            ∙ ap (λ l. (true, l))
                (add_rows-each c t (mark c rows) (query c rows)
                    (all_Apart (query c rows) t (query-Keyed c rows k))
                  ∙ ap (λ l. (all.0, l))
                      (ap (each (after c all.1)) (mark-each c rows)
                        ∙ each-each (after c all.1) (marked c) _ (λ r. refl) rows)),
        query-Ordered c rows,
        query-Perm c rows,
      )
