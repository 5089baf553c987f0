-- ===== src/LinkTable/Reach.antt =====
-- The link table under every interleaving of `addUrl` calls and timer events, each a single step
-- since both run under the mutex of the table.
use lspider.Common.{ℕ, ◌<◌, ◌≡◌, [], Bytes, List, refl, suc, subst, sym, ◌∙◌}
use lspider.Common.Maps.{find}
use lspider.Context.{UrlContext}
use lspider.LinkTable.Interfaces.{PriorityQueue, Float}
use lspider.LinkTable.{LinkTable, Conf, Result, ok, add_url, on_ip_schedule}
use lspider.LinkTable.Invariant
use lspider.LinkTable.Invariant.{pending}
use lspider.LinkTable.Add
use lspider.LinkTable.Select

module _ (q : PriorityQueue) (f : Float) (c : Conf) where
  open q use {Queue}
  open f use {Count}

  abbrev pub empty_table : LinkTable Queue Count
  empty_table = record { contexts = []; timers = []; count = 0 }

  pub data Step (t : LinkTable Queue Count) : LinkTable Queue Count → Type 0 where
    added :
        (resolve : Bytes → List Bytes) (random : ℕ) (u : UrlContext)
        → Step t (add_url q f resolve random c t u).0
    fired :
        (key : Bytes) (u : UrlContext) (t' : LinkTable Queue Count)
        → 0 < pending key t.timers
        → on_ip_schedule q f t key ≡ ok (t', u)
        → Step t t'

  pub data Reach : LinkTable Queue Count → Type 0 where
    start : Reach empty_table
    next : {t t' : LinkTable Queue Count} → Reach t → Step t t' → Reach t'

  ok_table :
      (a b : LinkTable Queue Count) (u v : UrlContext)
      → ◌≡◌ {A = Result (LinkTable Queue Count × UrlContext)} (ok (a, u)) (ok (b, v))
      → a ≡ b
  ok_table a b u v h = cc

  empty_table-Inv : Invariant.Inv q f c empty_table
  unfolding find
  empty_table-Inv = record { distinct = tt; each = λ k x h. cc; timed = λ k. refl; counted = refl }

  Step-Inv :
      {t t' : LinkTable Queue Count}
      → 0 < c.max_table_size
      → Step t t'
      → Invariant.Inv q f c t
      → Invariant.Inv q f c t'
  Step-Inv {t} h (added resolve random u) v = (Add.add_url-Inv q f c resolve random t u h v).0
  Step-Inv {t} h (fired key u t' p e) v =
      let (t2, w, e2, kept) = Select.on_ip_schedule-IsFired q f c t key v p in
      subst (Invariant.Inv q f c) (ok_table t2 t' w u (sym e2 ∙ e)) kept.kept

  pub Reach-Inv :
      {t : LinkTable Queue Count} → 0 < c.max_table_size → Reach t → Invariant.Inv q f c t
  Reach-Inv h start = empty_table-Inv
  Reach-Inv h (next r s) = Step-Inv h s (Reach-Inv h r)

  -- In every state that `addUrl` calls and timer events lead to, with a positive bound on the urls
  -- of a site, each pending timer runs without a fault: its context is alive, a site is found and
  -- has a url. The table afterwards can be reached as well, with one url fewer.
  pub Reach-on_ip_schedule :
      {t : LinkTable Queue Count} (key : Bytes)
      → 0 < c.max_table_size
      → Reach t
      → 0 < pending key t.timers
      → (t' : LinkTable Queue Count) × (u : UrlContext) × (on_ip_schedule q f t key ≡ ok (t', u))
        × Reach t'
        × (Invariant.urls q f c t ≡ suc (Invariant.urls q f c t'))
  Reach-on_ip_schedule {t} key h r p =
      let (t', u, e, v) = Select.on_ip_schedule-IsFired q f c t key (Reach-Inv h r) p in
      (t', u, e, next r (fired key u t' p e), v.fewer)
