-- ===== src/LinkTable.antt =====
-- `LinkTable`, `IpContext` and `SiteContext` of src/link_table.h and src/link_table.cpp, and the
-- timers of src/link_scheduler.cpp that drive them. A context is known by its key: a pointer to it
-- is its address in the table. The mutex makes `add_url` and `select` single steps.
pub mod Interfaces
pub mod Choice
pub mod Invariant
pub mod Place
pub mod Add
pub mod Taken
mod Served
pub mod Select
pub mod Reach
pub mod Instances
pub mod Tests
use lspider.Common.{
  ℕ, suc, ◌+◌, ◌-◌, ◌%◌, ◌^◌, Bool, true, false, Option, none, some, List, [], ◌∷◌, ◌==◌, ltb, ◌||◌,
  if◌then◌else◌, Bytes, bytes_eq,
}
use lspider.Common.Maps.{find, put, erase}
use lspider.Context.{UrlContext, parse}
use Interfaces.{PriorityQueue, Float}

pub record SiteContext (Queue Count : Type 0) : Type 0 where
  pub site : Bytes
  pub urls : Queue
  pub quota : ℕ
  pub select_count : Count

pub record IpContext (Queue Count : Type 0) : Type 0 where
  pub ip : Bytes
  pub sites : List (Bytes × SiteContext Queue Count)
  pub interval : ℕ

-- `timers` are the pending events of `on_ip_schedule`, by the context that each holds. `count` is a
-- 32-bit word.
pub record LinkTable (Queue Count : Type 0) : Type 0 where
  pub contexts : List (Bytes × IpContext Queue Count)
  pub timers : List Bytes
  pub count : ℕ

pub record Conf : Type 0 where
  pub max_table_size : ℕ
  pub ip_interval : ℕ

-- `RetType`.
pub data AddResult : Type 0 where
  rt_ok rt_table_full rt_parse_error : AddResult

-- What goes wrong in `select` on a table that it does not expect: a dangling context, no site below
-- `MAX_SCALE` (a null pointer is read), an empty url table (`top` of an empty queue).
pub data Fault : Type 0 where
  dangling_context no_site no_url : Fault

pub data Result {ℓ} (A : Type ℓ) : Type ℓ where
  ok : A → Result A
  err : Fault → Result A

infixl 5 ◌>>=◌
abbrev pub ◌>>=◌ {ℓ κ} : {A : Type ℓ} {B : Type κ} → Result A → (A → Result B) → Result B
ok a >>= f = f a
err e >>= f = err e

abbrev pub or_fault {ℓ} : {A : Type ℓ} → Option A → Fault → Result A
or_fault none e = err e
or_fault (some a) e = ok a

-- `atomic_add(&_count, 1)` and `atomic_add(&_count, -1)`.
abbrev pub word : ℕ
word = 2 ^ 32

unfoldable pub increment : ℕ → ℕ
increment n = (n + 1) % word

unfoldable pub decrement : ℕ → ℕ
decrement n = (n + word - 1) % word

-- The count after `addUrl` with this result.
abbrev counted : AddResult → ℕ → ℕ
counted rt_ok n = increment n
counted rt_table_full n = n
counted rt_parse_error n = n

-- The pending events without one of a context.
unfoldable pub remove : Bytes → List Bytes → List Bytes
remove k [] = []
remove k (j ∷ l) = if bytes_eq j k then l else j ∷ remove k l

module _ (q : PriorityQueue) (f : Float) where
  open q use {Queue, size, empty, push, pop}
  open f use {Count, lt, zero_count, max_scale, add_inverse}

  -- The loop of `IpContext::select`: the first site whose count is least and below the bound.
  unfoldable pub least :
      Count
      → Option (SiteContext Queue Count)
      → List (Bytes × SiteContext Queue Count)
      → Option (SiteContext Queue Count)
  least min best [] = best
  least min best ((k, s) ∷ rest) =
      let smaller = lt s.select_count min in
      least (if smaller then s.select_count else min) (if smaller then some s else best) rest

  -- `IpContext::select`: the site, with its count raised.
  unfoldable pub select_site :
      List (Bytes × SiteContext Queue Count) → Option (SiteContext Queue Count)
  select_site sites = elim (least max_scale none sites) [
    | none ↦ none
    | some s ↦ some (record s { select_count = add_inverse s.select_count s.quota })
  ]

  unfoldable pub new_ip : Conf → Bytes → IpContext Queue Count
  new_ip c ip = record { ip = ip; sites = []; interval = c.ip_interval }

  unfoldable pub new_site : Bytes → SiteContext Queue Count
  new_site site = record { site = site; urls = empty; quota = 1; select_count = zero_count }

  -- `getIpContext`: a new context is put into the table and gets its timer.
  unfoldable pub get_ip_context :
      Conf → LinkTable Queue Count → Bytes → LinkTable Queue Count × IpContext Queue Count
  get_ip_context c t ip = elim (find ip t.contexts) [
    | some context ↦ (t, context)
    | none ↦ (
      record t { contexts = put ip (new_ip c ip) t.contexts; timers = ip ∷ t.timers },
      new_ip c ip,
    )
  ]

  -- `getSiteContext`; the caller writes the site back.
  unfoldable pub get_site_context : IpContext Queue Count → Bytes → SiteContext Queue Count
  get_site_context context site = elim (find site context.sites) [
    | some s ↦ s
    | none ↦ new_site site
  ]

  -- The url table of the site gets the url unless it is full.
  unfoldable pub push_url :
      Conf → UrlContext → SiteContext Queue Count → SiteContext Queue Count × AddResult
  push_url c u s =
      if ltb (size s.urls) c.max_table_size
      then (record s { urls = push u s.urls }, rt_ok)
      else (s, rt_table_full)

  -- `addUrl` of a parsed context, under the lock.
  unfoldable pub add_parsed :
      Conf → LinkTable Queue Count → UrlContext → LinkTable Queue Count × AddResult
  add_parsed c t u =
      let (t', context) = get_ip_context c t u.ip in
      let (s, r) = push_url c u (get_site_context context u.site) in
      (
        record t' {
          contexts = put u.ip (record context { sites = put u.site s context.sites }) t'.contexts;
          count = counted r t'.count;
        },
        r,
      )

  -- `addUrl`.
  unfoldable pub add_url :
      (Bytes → List Bytes)
      → ℕ
      → Conf
      → LinkTable Queue Count
      → UrlContext
      → LinkTable Queue Count × AddResult
  add_url resolve random c t u = elim (parse resolve random u) [
    | none ↦ (t, rt_parse_error)
    | some v ↦
        if bytes_eq v.site [] || bytes_eq v.ip [] then (t, rt_parse_error) else add_parsed c t v
  ]

  -- The sites of a context after `select` took a url from one of them.
  unfoldable pub sites_after :
      SiteContext Queue Count
      → Queue
      → List (Bytes × SiteContext Queue Count)
      → List (Bytes × SiteContext Queue Count)
  sites_after s rest sites =
      if size rest == 0 then erase s.site sites else put s.site (record s { urls = rest }) sites

  -- The table after `select`, and whether the context was deleted.
  unfoldable pub contexts_after :
      IpContext Queue Count
      → List (Bytes × SiteContext Queue Count)
      → List (Bytes × IpContext Queue Count)
      → List (Bytes × IpContext Queue Count) × Bool
  contexts_after context [] contexts = (erase context.ip contexts, true)
  contexts_after context (e ∷ sites) contexts =
      (put context.ip (record context { sites = e ∷ sites }) contexts, false)

  -- `LinkTable::select` of the context at `key`.
  unfoldable pub select :
      LinkTable Queue Count → Bytes → Result (LinkTable Queue Count × Bool × UrlContext)
  select t key = do
    context ← or_fault (find key t.contexts) dangling_context
    s ← or_fault (select_site context.sites) no_site
    (u, rest) ← or_fault (pop s.urls) no_url
    let after = contexts_after context (sites_after s rest context.sites) t.contexts
    ok (record t { contexts = after.0; count = decrement t.count }, after.1, u)

  -- `on_ip_schedule`: the event is no longer pending when it runs, and is added again unless the
  -- context was deleted. The url goes to the connect queue.
  unfoldable pub on_ip_schedule :
      LinkTable Queue Count → Bytes → Result (LinkTable Queue Count × UrlContext)
  on_ip_schedule t key = do
    (t', obsolete, u) ← select (record t { timers = remove key t.timers }) key
    ok (if obsolete then t' else record t' { timers = key ∷ t'.timers }, u)
