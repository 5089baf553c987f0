-- ===== src/LinkTable/Invariant.antt =====
-- The well-formed link tables: every context and every site in use has urls, no url table is over
-- full, each context has exactly one pending timer, and the count is the number of urls.
use lspider.Common.{
  ℕ, ◌+◌, ◌%◌, ◌≤◌, ◌<◌, ◌≡◌, ◌≢◌, true, Option, none, some, List, [], ◌∷◌, Bytes, if◌then◌else◌,
  bytes_eq,
}
use lspider.Common.Maps.{find, Distinct, total}
use lspider.LinkTable.Interfaces.{PriorityQueue, Float}
use lspider.LinkTable.{SiteContext, IpContext, LinkTable, Conf, word}

-- How many events of a context are pending.
abbrev pub pending : Bytes → List Bytes → ℕ
pending k [] = 0
pending k (j ∷ l) = (if bytes_eq j k then 1 else 0) + pending k l

abbrev pub present : {V : Type 0} → Option V → ℕ
present none = 0
present (some v) = 1

module _ (q : PriorityQueue) (f : Float) (c : Conf) where
  open q use {Queue, size}
  open f use {Count, lt, max_scale}

  -- A site as `getSiteContext` returns it: it may be new.
  pub record IsSiteOrNew (key : Bytes) (s : SiteContext Queue Count) : Type 0 where
    pub named : s.site ≡ key
    pub fits : size s.urls ≤ c.max_table_size
    pub one_quota : s.quota ≡ 1
    pub below : lt s.select_count max_scale ≡ true

  pub record IsSite (key : Bytes) (s : SiteContext Queue Count) : Type 0 where
    pub sound : IsSiteOrNew key s
    pub used : 0 < size s.urls

  -- A context as `getIpContext` returns it.
  pub record IsIpOrNew (key : Bytes) (x : IpContext Queue Count) : Type 0 where
    pub named : x.ip ≡ key
    pub distinct : Distinct x.sites
    pub each : (k : Bytes) (s : SiteContext Queue Count) → find k x.sites ≡ some s → IsSite k s

  pub record IsIp (key : Bytes) (x : IpContext Queue Count) : Type 0 where
    pub sound : IsIpOrNew key x
    pub used : x.sites ≢ []

  abbrev pub site_urls : SiteContext Queue Count → ℕ
  site_urls s = size s.urls

  abbrev pub ip_urls : IpContext Queue Count → ℕ
  ip_urls x = total site_urls x.sites

  -- The number of urls in the table.
  abbrev pub urls : LinkTable Queue Count → ℕ
  urls t = total ip_urls t.contexts

  pub record Inv (t : LinkTable Queue Count) : Type 0 where
    pub distinct : Distinct t.contexts
    pub each : (k : Bytes) (x : IpContext Queue Count) → find k t.contexts ≡ some x → IsIp k x
    pub timed : (k : Bytes) → pending k t.timers ≡ present (find k t.contexts)
    pub counted : t.count ≡ urls t % word
