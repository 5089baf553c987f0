-- ===== src/LinkTable/Tests.antt =====
-- Runs of the link table with a queue that searches its least element, and instances of the theorems.
use Prim.Native.String.{String}
use lspider.Common.{
  ℕ, ◌≡◌, refl, true, false, List, [], ◌∷◌, ◌<◌, suc, arith, Bytes, codes, subst, sym,
}
use lspider.Common.Maps.{find, put, insert, replace}
use lspider.Context.{UrlContext, new_context, parse}
use lspider.LinkTable.Interfaces.{PriorityQueue, Float}
use lspider.LinkTable.Instances.{list_queue, saturating}
use lspider.LinkTable.{
  LinkTable, Conf, ok, rt_table_full, add_url, add_parsed, on_ip_schedule, select, get_ip_context,
  get_site_context, push_url, select_site, least, sites_after, contexts_after, remove, new_ip,
  new_site, increment, decrement,
}
use lspider.LinkTable.Invariant
use lspider.LinkTable.Add
use lspider.LinkTable.Select
use lspider.LinkTable.Reach

abbrev conf : Conf
conf = record { max_table_size = 2; ip_interval = 1 }

abbrev q : PriorityQueue
q = list_queue

abbrev f : Float
f = saturating

abbrev url : String → ℕ → UrlContext
url s depth = record (new_context (codes s) depth false (codes "7")) {
  ip = codes "1.2.3.4";
  site = codes "a.com";
  host = codes "a.com";
  file = codes "/";
  has_parsed = true;
}

abbrev no_hosts : Bytes → List Bytes
no_hosts host = []

abbrev empty : LinkTable (List UrlContext) ℕ
empty = Reach.empty_table q f conf

abbrev add : UrlContext → LinkTable (List UrlContext) ℕ → LinkTable (List UrlContext) ℕ
add u t = (add_url q f no_hosts 0 conf t u).0

abbrev two_urls : LinkTable (List UrlContext) ℕ
two_urls = add (url "http://a.com/x" 0) (add (url "http://a.com/y" 3) empty)

two_urls_count : (two_urls.count ≡ 2) × (two_urls.timers ≡ codes "1.2.3.4" ∷ [])
unfolding add_url add_parsed get_ip_context get_site_context push_url new_ip new_site increment find
    put insert replace parse new_context
two_urls_count = (refl, refl)

urls-IsFull : (add_url q f no_hosts 0 conf two_urls (url "http://a.com/z" 1)).1 ≡ rt_table_full
unfolding add_url add_parsed get_ip_context get_site_context push_url new_ip new_site increment find
    put insert replace parse new_context
urls-IsFull = refl

reached : Reach.Reach q f conf two_urls
reached =
    Reach.next (Reach.next Reach.start (Reach.added no_hosts 0 (url "http://a.com/y" 3)))
      (Reach.added no_hosts 0 (url "http://a.com/x" 0))

abbrev ip : Bytes
ip = codes "1.2.3.4"

two_urls-Inv : Invariant.Inv q f conf two_urls
two_urls-Inv = Reach.Reach-Inv q f conf (omega arith) reached

two_urls_pending : 0 < Invariant.pending ip two_urls.timers
two_urls_pending = subst (λ l. 0 < Invariant.pending ip l) (sym two_urls_count.1) (omega arith)

-- The url of depth 0 comes first, and the timer is pending again.
first_fired :
    (t : LinkTable (List UrlContext) ℕ) × (on_ip_schedule q f two_urls ip
      ≡ ok (t, url "http://a.com/x" 0))
    × (t.timers ≡ ip ∷ [])
unfolding add_url add_parsed get_ip_context get_site_context push_url new_ip new_site increment find
    put insert replace parse new_context on_ip_schedule select select_site least sites_after
    contexts_after remove decrement
first_fired = (_, refl, refl)

add_url-Inv_example :
    Invariant.Inv q f conf (add_url q f no_hosts 0 conf two_urls (url "http://a.com/z" 1)).0
add_url-Inv_example =
    (Add.add_url-Inv q f conf no_hosts 0 two_urls (url "http://a.com/z" 1) (omega arith)
      two_urls-Inv).0

on_ip_schedule-IsFired_example :
    (t : LinkTable (List UrlContext) ℕ) × (u : UrlContext) × (on_ip_schedule q f two_urls ip
      ≡ ok (t, u))
    × Select.IsFired q f conf two_urls ip t u
on_ip_schedule-IsFired_example =
    Select.on_ip_schedule-IsFired q f conf two_urls ip two_urls-Inv two_urls_pending

Reach-on_ip_schedule_example :
    (t : LinkTable (List UrlContext) ℕ) × (u : UrlContext) × (on_ip_schedule q f two_urls ip
      ≡ ok (t, u))
    × Reach.Reach q f conf t
    × (Invariant.urls q f conf two_urls ≡ suc (Invariant.urls q f conf t))
Reach-on_ip_schedule_example =
    Reach.Reach-on_ip_schedule q f conf ip (omega arith) reached two_urls_pending
