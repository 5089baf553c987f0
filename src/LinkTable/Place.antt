-- ===== src/LinkTable/Place.antt =====
-- A url put into the context of its address, which may be new.
use lspider.Common.{
  ℕ, ◌+◌, ◌%◌, ◌<◌, ◌≡◌, ◌≢◌, inl, inr, refl, some, arith, Bytes, Option-cases, subst, sym, ◌∙◌,
  bytes_eq_iff, ap,
}
use lspider.Common.Maps.{
  find, put, Distinct, total, size_or_0, find-put, find-put_cases, put-ne-nil, put-Distinct,
  total-put,
}
use lspider.Context.{UrlContext}
use lspider.LinkTable.Interfaces.{PriorityQueue, Float}
use lspider.LinkTable.{
  SiteContext, IpContext, LinkTable, Conf, word, AddResult, rt_ok, rt_table_full, rt_parse_error,
  counted, push_url, get_site_context, new_site, increment,
}
use lspider.LinkTable.Invariant

module _ (q : PriorityQueue) (f : Float) (c : Conf) where
  open q use {Queue, size, empty, push}
  open f use {Count, lt, max_scale}

  abbrev IsSiteOrNew : Bytes → SiteContext Queue Count → Type 0
  IsSiteOrNew = Invariant.IsSiteOrNew q f c

  abbrev IsSite : Bytes → SiteContext Queue Count → Type 0
  IsSite = Invariant.IsSite q f c

  abbrev pub IsIpOrNew : Bytes → IpContext Queue Count → Type 0
  IsIpOrNew = Invariant.IsIpOrNew q f c

  abbrev pub IsIp : Bytes → IpContext Queue Count → Type 0
  IsIp = Invariant.IsIp q f c

  abbrev site_urls : SiteContext Queue Count → ℕ
  site_urls s = size s.urls

  abbrev pub ip_urls : IpContext Queue Count → ℕ
  ip_urls x = total site_urls x.sites

  abbrev pub added : AddResult → ℕ
  added rt_ok = 1
  added rt_table_full = 0
  added rt_parse_error = 0

  push_url-IsSite :
      (key : Bytes) (u : UrlContext) (s : SiteContext Queue Count)
      → 0 < c.max_table_size
      → IsSiteOrNew key s
      → IsSite key (push_url q f c u s).0
  unfolding push_url
  push_url-IsSite key u s h v = ground (arith, q.size-push u s.urls)

  size-push_url :
      (u : UrlContext) (s : SiteContext Queue Count)
      → site_urls (push_url q f c u s).0 ≡ site_urls s + added (push_url q f c u s).1
  unfolding push_url
  size-push_url u s = ground (arith, q.size-push u s.urls)

  get_site_context-IsSiteOrNew :
      (x : IpContext Queue Count) (key site : Bytes)
      → IsIpOrNew key x
      → IsSiteOrNew site (get_site_context q f x site)
  unfolding get_site_context new_site
  get_site_context-IsSiteOrNew x key site v = elim (Option-cases (find site x.sites)) [
    | inl e ↦
        rw (e, get_site_context)
          (record {
            named = refl;
            fits = rw (q.size-empty) (omega arith);
            one_quota = refl;
            below = f.zero_below;
          })
    | inr (s, e) ↦ rw (e, get_site_context) (v.each site s e).sound
  ]

  size-get_site_context :
      (x : IpContext Queue Count) (site : Bytes)
      → size_or_0 site_urls (find site x.sites) ≡ site_urls (get_site_context q f x site)
  unfolding get_site_context new_site
  size-get_site_context x site = ground (arith, q.size-empty)

  -- The context with the site written back.
  abbrev with_site : IpContext Queue Count → Bytes → SiteContext Queue Count → IpContext Queue Count
  with_site x site s = record x { sites = put site s x.sites }

  with_site-IsIp :
      (key site : Bytes) (x : IpContext Queue Count) (s : SiteContext Queue Count)
      → IsIpOrNew key x
      → IsSite site s
      → IsIp key (with_site x site s)
  with_site-IsIp key site x s v w = record {
    sound = record {
      named = v.named;
      distinct = put-Distinct site s x.sites v.distinct;
      each = λ k t h. elim (find-put_cases k site s t x.sites h) [
        | inl (e, d) ↦ subst (λ r. IsSite k r) d (subst (λ j. IsSite j s) e w)
        | inr (n, e) ↦ v.each k t e
      ];
    };
    used = put-ne-nil site s x.sites;
  }

  -- A table whose context at `ip` may be new.
  pub record IsOpened (ip : Bytes) (x : IpContext Queue Count) (t : LinkTable Queue Count)
      : Type 0 where
    pub distinct : Distinct t.contexts
    pub found : find ip t.contexts ≡ some x
    pub sound : IsIpOrNew ip x
    pub others :
        (k : Bytes) (y : IpContext Queue Count) → ip ≢ k → find k t.contexts ≡ some y → IsIp k y
    pub timed : (k : Bytes) → Invariant.pending k t.timers ≡ Invariant.present (find k t.contexts)
    pub counted : t.count ≡ Invariant.urls q f c t % word

  unfoldable pub place :
      LinkTable Queue Count → IpContext Queue Count → UrlContext → LinkTable Queue Count × AddResult
  place t x u =
      let (s, r) = push_url q f c u (get_site_context q f x u.site) in
      (
        record t {
          contexts = put u.ip (with_site x u.site s) t.contexts;
          count = counted r t.count;
        },
        r,
      )

  pub urls-place :
      (t : LinkTable Queue Count) (x : IpContext Queue Count) (u : UrlContext)
      → find u.ip t.contexts ≡ some x
      → Invariant.urls q f c (place t x u).0 ≡ Invariant.urls q f c t + added (place t x u).1
  unfolding place
  urls-place t x u e = omega (
    arith,
    total-put ip_urls u.ip (with_site x u.site (push_url q f c u (get_site_context q f x u.site)).0)
        t.contexts,
    total-put site_urls u.site (push_url q f c u (get_site_context q f x u.site)).0 x.sites,
    ap (size_or_0 ip_urls) e,
    size-get_site_context x u.site,
    size-push_url u (get_site_context q f x u.site),
  )

  count-counted : (r : AddResult) (n m : ℕ) → n ≡ m % word → counted r n ≡ (m + added r) % word
  unfolding increment
  count-counted rt_ok n m h = omega arith
  count-counted rt_table_full n m h = omega arith
  count-counted rt_parse_error n m h = omega arith

  count-place :
      (t : LinkTable Queue Count) (x : IpContext Queue Count) (u : UrlContext)
      → (place t x u).0.count ≡ counted (place t x u).1 t.count
  unfolding place
  count-place t x u = refl

  pub place-Inv :
      (t : LinkTable Queue Count) (x : IpContext Queue Count) (u : UrlContext)
      → 0 < c.max_table_size
      → IsOpened u.ip x t
      → Invariant.Inv q f c (place t x u).0
  place-Inv t x u h v = record {
    distinct = unfold place in put-Distinct u.ip placed t.contexts v.distinct;
    each = λ k y e. elim (find-put_cases k u.ip placed y t.contexts (unfold place in e)) [
      | inl (a, b) ↦ subst (λ r. IsIp k r) b (subst (λ j. IsIp j placed) a placed-IsIp)
      | inr (n, a) ↦ v.others k y n a
    ];
    timed = λ k.
        unfold place in
        ground (arith, v.timed k, v.found, find-put k u.ip placed t.contexts, bytes_eq_iff u.ip k);
    counted =
        count-place t x u
        ∙ count-counted (place t x u).1 t.count (Invariant.urls q f c t) v.counted
        ∙ ap (λ n. n % word) (sym (urls-place t x u v.found));
  }
    where
      s : SiteContext Queue Count × AddResult
      s = push_url q f c u (get_site_context q f x u.site)

      placed : IpContext Queue Count
      placed = with_site x u.site s.0

      placed-IsIp : IsIp u.ip placed
      placed-IsIp =
          with_site-IsIp u.ip u.site x s.0 v.sound
            (push_url-IsSite u.site u _ h (get_site_context-IsSiteOrNew x u.ip u.site v.sound))
