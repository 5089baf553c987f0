-- ===== src/LinkTable/Served.antt =====
-- The table that `on_ip_schedule` leaves: the context's remaining sites and its timer are stored, or
-- the context is dropped with its last site.
use lspider.Common.{
  ℕ, suc, ◌+◌, ◌%◌, ◌<◌, ◌≡◌, inl, inr, refl, some, List, [], ◌∷◌, arith, Bytes, if◌then◌else◌,
  subst, ap, ◌∙◌, bytes_eq, bytes_eq_iff,
}
use lspider.Common.Maps.{
  find, put, erase, Distinct, total, size_or_0, find-put, find-put_cases, find-erase_cases,
  find-erase, put-Distinct, erase-Distinct, total-put, total-erase,
}
use lspider.LinkTable.Interfaces.{PriorityQueue, Float}
use lspider.LinkTable.{SiteContext, IpContext, LinkTable, Conf, word, decrement, remove}
use lspider.LinkTable.Invariant
use lspider.LinkTable.Invariant.{pending, present}

pending-remove :
    (k key : Bytes) (l : List Bytes)
    → 0 < pending key l
    → pending k (remove key l) + (if bytes_eq key k then 1 else 0) ≡ pending k l
unfolding remove
pending-remove k key [] h = absurd (omega arith)
pending-remove k key (j ∷ l) h =
    ground (arith, pending-remove k key l, bytes_eq_iff j key, bytes_eq_iff j k, bytes_eq_iff key k)

module _ (q : PriorityQueue) (f : Float) (c : Conf) where
  open q use {Queue, size}
  open f use {Count}

  abbrev Site : Type 0
  Site = SiteContext Queue Count

  abbrev Ip : Type 0
  Ip = IpContext Queue Count

  abbrev Table : Type 0
  Table = LinkTable Queue Count

  abbrev Inv : Table → Type 0
  Inv = Invariant.Inv q f c

  abbrev IsSite : Bytes → Site → Type 0
  IsSite = Invariant.IsSite q f c

  abbrev site_urls : Site → ℕ
  site_urls s = size s.urls

  abbrev ip_urls : Ip → ℕ
  ip_urls x = total site_urls x.sites

  -- The table once the event has been served, with the context's remaining sites.
  abbrev pub served : Table → Bytes → Ip → List (Bytes × Site) → Table
  served t key x [] = record t {
    contexts = erase x.ip t.contexts;
    timers = remove key t.timers;
    count = decrement t.count;
  }
  served t key x (e ∷ sites) = record t {
    contexts = put x.ip (record x { sites = e ∷ sites }) t.contexts;
    timers = key ∷ remove key t.timers;
    count = decrement t.count;
  }

  pub urls-served :
      (t : Table) (key : Bytes) (x : Ip) (sites : List (Bytes × Site))
      → find x.ip t.contexts ≡ some x
      → total site_urls x.sites ≡ suc (total site_urls sites)
      → Invariant.urls q f c t ≡ suc (Invariant.urls q f c (served t key x sites))
  urls-served t key x [] e n =
      omega (arith, total-erase ip_urls x.ip t.contexts, ap (size_or_0 ip_urls) e)
  urls-served t key x (s ∷ sites) e n = omega (
    arith,
    total-put ip_urls x.ip (record x { sites = s ∷ sites }) t.contexts,
    ap (size_or_0 ip_urls) e,
  )

  count-decrement : (m n k : ℕ) → m ≡ n % word → n ≡ suc k → decrement m ≡ k % word
  unfolding decrement
  count-decrement m n k e h = omega arith

  served-timed :
      (t : Table) (key : Bytes) (x : Ip) (sites : List (Bytes × Site))
      → Inv t
      → 0 < pending key t.timers
      → find x.ip t.contexts ≡ some x
      → x.ip ≡ key
      → (k : Bytes)
      → pending k (served t key x sites).timers ≡ present (find k (served t key x sites).contexts)
  served-timed t key x [] v h e m k = ground (
    arith,
    v.timed k,
    pending-remove k key t.timers h,
    find-erase k x.ip t.contexts v.distinct,
    bytes_eq_iff key k,
  )
  served-timed t key x (s ∷ sites) v h e m k = ground (
    arith,
    v.timed k,
    pending-remove k key t.timers h,
    find-put k x.ip (record x { sites = s ∷ sites }) t.contexts,
    bytes_eq_iff key k,
  )

  served-each :
      (t : Table) (key : Bytes) (x : Ip) (sites : List (Bytes × Site))
      → Inv t
      → Distinct sites
      → ((k : Bytes) (s : Site) → find k sites ≡ some s → IsSite k s)
      → (k : Bytes) (y : Ip) → find k (served t key x sites).contexts ≡ some y
      → Invariant.IsIp q f c k y
  served-each t key x [] v d g k y e =
      v.each k y (find-erase_cases k x.ip y t.contexts v.distinct e).1
  served-each t key x (s ∷ sites) v d g k y e = elim (find-put_cases k x.ip left y t.contexts e) [
    | inl (a, b) ↦
        subst (λ r. Invariant.IsIp q f c k r) b
          (subst (λ j. Invariant.IsIp q f c j left) a left_sound)
    | inr (n, a) ↦ v.each k y a
  ]
    where
      left : Ip
      left = record x { sites = s ∷ sites }

      left_sound : Invariant.IsIp q f c x.ip left
      left_sound = record {
        sound = record { named = refl; distinct = d; each = g };
        used = λ z. cc;
      }

  served-Distinct :
      (t : Table) (key : Bytes) (x : Ip) (sites : List (Bytes × Site))
      → Distinct t.contexts
      → Distinct (served t key x sites).contexts
  served-Distinct t key x [] d = erase-Distinct x.ip t.contexts d
  served-Distinct t key x (s ∷ sites) d =
      put-Distinct x.ip (record x { sites = s ∷ sites }) t.contexts d

  served-count :
      (t : Table) (key : Bytes) (x : Ip) (sites : List (Bytes × Site))
      → (served t key x sites).count ≡ decrement t.count
  served-count t key x [] = refl
  served-count t key x (s ∷ sites) = refl

  pub served-Inv :
      (t : Table) (key : Bytes) (x : Ip) (sites : List (Bytes × Site))
      → Inv t
      → 0 < pending key t.timers
      → find x.ip t.contexts ≡ some x
      → x.ip ≡ key
      → Distinct sites
      → ((k : Bytes) (s : Site) → find k sites ≡ some s → IsSite k s)
      → total site_urls x.sites ≡ suc (total site_urls sites)
      → Inv (served t key x sites)
  served-Inv t key x sites v h e m d g n = record {
    distinct = served-Distinct t key x sites v.distinct;
    each = served-each t key x sites v d g;
    timed = served-timed t key x sites v h e m;
    counted =
        served-count t key x sites
        ∙ count-decrement t.count (Invariant.urls q f c t) _ v.counted
            (urls-served t key x sites e n);
  }
