-- ===== src/Store/Selector/Fills.antt =====
-- The link table that `select` of src/mysql_selector.cpp fills, beside the timers that empty it.
use lspider.Common.{
  ℕ, Bool, true, false, ◌+◌, ◌<◌, ◌≡◌, List, [], ◌∷◌, arith, Bytes, refl, ap, sym, subst, ◌∙◌,
  if◌then◌else◌,
}
use lspider.LinkTable.{AddResult}
use lspider.LinkTable
use lspider.LinkTable.Interfaces.{PriorityQueue, Float}
use lspider.LinkTable.Invariant
use lspider.LinkTable.Place
use lspider.LinkTable.Add
use lspider.LinkTable.Reach
use lspider.LinkTable.Reach.{Reach, next, added}
use lspider.Store.Selector.{
  Row, Limits, query, mark, context_of, settle, add_row, add_rows, select, Table,
}
use lspider.Store.Selector.Rows.{add_all}

module _ (q : PriorityQueue) (f : Float) (resolve : Bytes → List Bytes) (random : Bytes → ℕ)
    (conf : LinkTable.Conf) where
  abbrev Fill : Type 0
  Fill = Table q f resolve random conf

  abbrev urls : Fill → ℕ
  urls = Invariant.urls q f conf

  -- How many of the additions have the result `RT_OK`.
  abbrev pub accepted : List (Bytes × AddResult) → ℕ
  accepted [] = 0
  accepted (r ∷ rs) = Place.added q f conf r.1 + accepted rs

  add_all-Reach :
      (t : Fill) (rs : List Row)
      → 0 < conf.max_table_size
      → Reach q f conf t
      → Reach q f conf (add_all q f resolve random conf t rs).0
        × (urls (add_all q f resolve random conf t rs).0
            ≡ urls t + accepted (add_all q f resolve random conf t rs).1)
  add_all-Reach t [] h r = (r, omega arith)
  add_all-Reach t (x ∷ rs) h r =
      let grown =
        Add.add_url-Inv q f conf resolve (random x.sign) t (context_of x) h
          (Reach.Reach-Inv q f conf h r) in
      let (a, b) =
        add_all-Reach (add_row q f resolve random conf t x).0 rs h
          (next r (added resolve (random x.sign) (context_of x))) in
      (a, omega (arith, b, grown.1))

  add_rows-table :
      (c : Limits) (t : Fill) (rows rs : List Row)
      → (add_rows q f resolve random conf c t rows rs).0 ≡ (add_all q f resolve random conf t rs).0
  unfolding add_rows
  add_rows-table c t rows [] = refl
  add_rows-table c t rows (r ∷ rs) =
      let one = add_row q f resolve random conf t r in
      add_rows-table c one.0 (settle c one.1 (context_of r).sign rows) rs

  -- By the answer to the query.
  answered-Reach :
      (c : Limits) (ok : Bool) (t : Fill) (rows marks asked : List Row)
      → 0 < conf.max_table_size
      → Reach q f conf t
      → let r : Bool × (Fill × List Row) =
          if ok
          then (true, add_rows q f resolve random conf c t marks asked)
          else (false, (t, rows)) in
        Reach q f conf r.1.0
        × (urls r.1.0
            ≡ urls t + (if ok then accepted (add_all q f resolve random conf t asked).1 else 0))
        × (r.0 ≡ ok)
  answered-Reach c true t rows marks asked h r =
      let (a, b) = add_all-Reach t asked h r in
      let e = add_rows-table c t marks asked in
      (subst (Reach q f conf) (sym e) a, ap urls e ∙ b, refl)
  answered-Reach c false t rows marks asked h r = (r, omega arith, refl)

  -- From a table that `addUrl` calls and timer events lead to, with a positive bound on the urls of a
  -- site, `select` leads to such a table again, so that its timers go on without a fault. Its
  -- urls grow by the rows of the query whose addition has the result `RT_OK`, and by none where the
  -- query fails, which is what `select` returns.
  pub select-Reach :
      (c : Limits) (t : Fill) (rows : List Row)
      → 0 < conf.max_table_size
      → Reach q f conf t
      → let r = select q f resolve random conf c t rows in
        Reach q f conf r.1.0
        × (urls r.1.0
            ≡ urls t
              + (if c.query_ok
                  then accepted (add_all q f resolve random conf t (query c rows)).1
                  else 0))
        × (r.0 ≡ c.query_ok)
  unfolding select
  select-Reach c t rows h r = answered-Reach c c.query_ok t rows (mark c rows) (query c rows) h r
