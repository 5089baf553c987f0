-- ===== src/Store/Selector.antt =====
-- `MySqlSelector` of src/mysql_selector.h and src/mysql_selector.cpp. A statement is its effect on
-- the rows of the table; where the database refuses one the rows stay. Of rows of the same depth the
-- database is taken to give the first ones first.
pub mod Keys
pub mod Ordered
pub mod Rows
pub mod Fills
pub mod Again
pub mod Tests
use lspider.Common.{
  ℕ, zero, suc, ◌+◌, ◌-◌, Bool, true, false, Option, none, some, List, [], ◌∷◌, ◌++◌, ◌==◌, ltb,
  leb, ◌&&◌, ◌||◌, if◌then◌else◌, Bytes, bytes_eq, take,
}
use lspider.Context.{UrlContext, new_context}
use lspider.LinkTable.{LinkTable, AddResult, rt_ok, rt_table_full, rt_parse_error, add_url}
use lspider.LinkTable
use lspider.LinkTable.Interfaces.{PriorityQueue, Float}
use lspider.Store.{CrawlState, fresh, selected, crawled, state_number}
use lspider.Store.Dumper.{max_sign_len}

pub record Row : Type 0 where
  pub sign : Bytes
  pub url : Bytes
  pub maindomain : Bytes
  pub link_depth : ℕ
  pub state : CrawlState
  pub retry : ℕ
  pub hub : Bool

-- The limits and the main domains of the configuration, and the database's answers: to the query, to
-- an update of many rows, and to the update of the row with a signature.
pub record Limits : Type 0 where
  pub max_retry : ℕ
  pub max_depth : ℕ
  pub maindomains : List Bytes
  pub query_ok : Bool
  pub mark_ok : Bool
  pub update_ok : Bytes → Bool

-- `maindomain IN (...)`.
unfoldable pub listed_in : List Bytes → Bytes → Bool
listed_in [] d = false
listed_in (e ∷ es) d = bytes_eq e d || listed_in es d

abbrev pub in_state : CrawlState → Row → Bool
in_state s r = state_number r.state == state_number s

-- Each row that meets a condition changed.
unfoldable pub update_where : (Row → Bool) → (Row → Row) → List Row → List Row
update_where p f [] = []
update_where p f (r ∷ rows) = (if p r then f r else r) ∷ update_where p f rows

abbrev pub to_state : CrawlState → Row → Row
to_state s r = record r { state = s }

abbrev pub retried : Row → Row
retried r = record r { retry = suc r.retry; state = fresh }

-- The conditions of the three statements.
unfoldable pub to_recover : Limits → Row → Bool
to_recover c r =
    in_state selected r && ltb r.retry c.max_retry && listed_in c.maindomains r.maindomain

unfoldable pub wanted : Limits → Row → Bool
wanted c r =
    (in_state fresh r && ltb r.retry c.max_retry && leb r.link_depth c.max_depth || r.hub)
    && listed_in c.maindomains r.maindomain

unfoldable pub to_mark : Limits → Row → Bool
to_mark c r =
    (in_state fresh r || r.hub) && ltb r.retry c.max_retry && listed_in c.maindomains r.maindomain

unfoldable pub recover_crawl_state : Limits → List Row → List Row
recover_crawl_state c rows =
    if c.mark_ok then update_where (to_recover c) (to_state fresh) rows else rows

-- The rows of the query, `ORDER BY linkdepth`.
unfoldable pub insert_by_depth : Row → List Row → List Row
insert_by_depth r [] = r ∷ []
insert_by_depth r (s ∷ rows) =
    let rest = insert_by_depth r rows in
    if ltb s.link_depth r.link_depth then s ∷ rest else r ∷ s ∷ rows

unfoldable pub query : Limits → List Row → List Row
query c [] = []
query c (r ∷ rows) = let rest = query c rows in if wanted c r then insert_by_depth r rest else rest

unfoldable pub mark : Limits → List Row → List Row
mark c rows = if c.mark_ok then update_where (to_mark c) (to_state selected) rows else rows

abbrev pub has_sign : Bytes → Row → Bool
has_sign s r = bytes_eq s r.sign

unfoldable pub context_of : Row → UrlContext
context_of r = new_context r.url r.link_depth r.hub (take max_sign_len r.sign)

-- What the switch does with the row of a context that was added with this result.
unfoldable pub settle : Limits → AddResult → Bytes → List Row → List Row
settle c rt_ok s rows = rows
settle c rt_table_full s rows =
    if c.update_ok s then update_where (has_sign s) (to_state fresh) rows else rows
settle c rt_parse_error s rows =
    if c.update_ok s then update_where (has_sign s) retried rows else rows

module _ (q : PriorityQueue) (f : Float) (resolve : Bytes → List Bytes) (random : Bytes → ℕ)
    (conf : LinkTable.Conf) where
  abbrev pub Table : Type 0
  Table = LinkTable q.Queue f.Count

  abbrev pub add_row : Table → Row → Table × AddResult
  add_row t r = add_url q f resolve (random r.sign) conf t (context_of r)

  -- The loop over the rows of the query.
  unfoldable pub add_rows : Limits → Table → List Row → List Row → Table × List Row
  add_rows c t rows [] = (t, rows)
  add_rows c t rows (r ∷ rs) =
      let added = add_row t r in add_rows c added.0 (settle c added.1 (context_of r).sign rows) rs

  -- `select`.
  unfoldable pub select : Limits → Table → List Row → Bool × (Table × List Row)
  select c t rows =
      if c.query_ok then (true, add_rows c t (mark c rows) (query c rows)) else (false, (t, rows))
