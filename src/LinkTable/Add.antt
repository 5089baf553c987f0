-- ===== src/LinkTable/Add.antt =====
-- `addUrl` on a well-formed link table.
use lspider.Common.{
  ℕ, ◌+◌, ◌%◌, ◌<◌, ◌≡◌, inl, inr, refl, none, some, List, [], ◌∷◌, arith, Bytes, Bool-cases,
  Option-cases, sym, ◌∙◌, bytes_eq, bytes_eq_iff, bytes_eq_refl, ap, ◌||◌,
}
use lspider.Common.Maps.{find, put, size_or_0, find-put, find-put_cases, put-Distinct, total-put}
use lspider.Context.{UrlContext, parse}
use lspider.LinkTable.Interfaces.{PriorityQueue, Float}
use lspider.LinkTable.{
  IpContext, LinkTable, Conf, word, AddResult, rt_parse_error, get_ip_context, new_ip, add_parsed,
  add_url,
}
use lspider.LinkTable.Invariant
use lspider.LinkTable.Place

module _ (q : PriorityQueue) (f : Float) (c : Conf) where
  open q use {Queue, size, empty, push}
  open f use {Count, lt, max_scale}

  abbrev pub added : AddResult → ℕ
  added = Place.added q f c

  found-IsOpened :
      (t : LinkTable Queue Count) (x : IpContext Queue Count) (ip : Bytes)
      → find ip t.contexts ≡ some x
      → Invariant.Inv q f c t
      → Place.IsOpened q f c ip x t
  found-IsOpened t x ip e v = record {
    distinct = v.distinct;
    found = e;
    sound = (v.each ip x e).sound;
    others = λ k y n h. v.each k y h;
    timed = v.timed;
    counted = v.counted;
  }

  abbrev opened : LinkTable Queue Count → Bytes → LinkTable Queue Count
  opened t ip = record t { contexts = put ip (new_ip q f c ip) t.contexts; timers = ip ∷ t.timers }

  new_ip-IsIpOrNew : (ip : Bytes) → Place.IsIpOrNew q f c ip (new_ip q f c ip)
  unfolding new_ip find
  new_ip-IsIpOrNew ip = record { named = refl; distinct = tt; each = λ k s h. cc }

  urls-opened :
      (t : LinkTable Queue Count) (ip : Bytes)
      → find ip t.contexts ≡ none
      → Invariant.urls q f c (opened t ip) ≡ Invariant.urls q f c t
  unfolding new_ip
  urls-opened t ip e = omega (
    arith,
    total-put (Place.ip_urls q f c) ip (new_ip q f c ip) t.contexts,
    ap (size_or_0 (Place.ip_urls q f c)) e,
  )

  opened-IsOpened :
      (t : LinkTable Queue Count) (ip : Bytes)
      → find ip t.contexts ≡ none
      → Invariant.Inv q f c t
      → Place.IsOpened q f c ip (new_ip q f c ip) (opened t ip)
  opened-IsOpened t ip e v = record {
    distinct = put-Distinct ip (new_ip q f c ip) t.contexts v.distinct;
    found = ground (arith, find-put ip ip (new_ip q f c ip) t.contexts, bytes_eq_refl ip);
    sound = new_ip-IsIpOrNew ip;
    others = λ k y n h. elim (find-put_cases k ip (new_ip q f c ip) y t.contexts h) [
      | inl (a, b) ↦ absurd (n a)
      | inr (a, b) ↦ v.each k y b
    ];
    timed = λ k.
        ground (arith, v.timed k, e, find-put k ip (new_ip q f c ip) t.contexts, bytes_eq_iff ip k);
    counted = v.counted ∙ ap (λ n. n % word) (sym (urls-opened t ip e));
  }

  -- What `add_parsed` does, with the context found or made.
  add_parsed-place :
      (t : LinkTable Queue Count) (u : UrlContext)
      → Invariant.Inv q f c t
      → (t' : LinkTable Queue Count) × (x : IpContext Queue Count) × (add_parsed q f c t u
          ≡ Place.place q f c t' x u)
        × (Invariant.urls q f c t' ≡ Invariant.urls q f c t)
        × Place.IsOpened q f c u.ip x t'
  unfolding add_parsed get_ip_context Place.place
  add_parsed-place t u v = elim (Option-cases (find u.ip t.contexts)) [
    | inl e ↦ (
      opened t u.ip,
      new_ip q f c u.ip,
      rw (e, get_ip_context) refl,
      urls-opened t u.ip e,
      opened-IsOpened t u.ip e v,
    )
    | inr (x, e) ↦ (t, x, rw (e, get_ip_context) refl, refl, found-IsOpened t x u.ip e v)
  ]

  -- Adding a parsed url keeps the table well formed, and the number of urls grows by one exactly
  -- when the result is `RT_OK`.
  pub add_parsed-Inv :
      (t : LinkTable Queue Count) (u : UrlContext)
      → 0 < c.max_table_size
      → Invariant.Inv q f c t
      → Invariant.Inv q f c (add_parsed q f c t u).0
        × (Invariant.urls q f c (add_parsed q f c t u).0
            ≡ Invariant.urls q f c t + added (add_parsed q f c t u).1)
  add_parsed-Inv t u h v =
      let (t', x, e, n, o) = add_parsed-place t u v in
      rw e (
        Place.place-Inv q f c t' x u h o,
        Place.urls-place q f c t' x u o.found ∙ ap (λ k. k + added (Place.place q f c t' x u).1) n,
      )

  -- `addUrl` keeps the table well formed, if the bound on the urls of a site is positive. The
  -- number of urls grows by one exactly when the result is `RT_OK`, and a url that cannot be parsed
  -- leaves the table as it was.
  pub add_url-Inv :
      (resolve : Bytes → List Bytes) (random : ℕ) (t : LinkTable Queue Count) (u : UrlContext)
      → 0 < c.max_table_size
      → Invariant.Inv q f c t
      → let r = add_url q f resolve random c t u in
        Invariant.Inv q f c r.0
        × (Invariant.urls q f c r.0 ≡ Invariant.urls q f c t + added r.1)
        × ((parse resolve random u ≡ none) → r ≡ (t, rt_parse_error))
  unfolding add_url
  add_url-Inv resolve random t u h v = elim (Option-cases (parse resolve random u)) [
    | inl e ↦ rw (e, add_url) (v, omega arith, λ p. refl)
    | inr (w, e) ↦
        rw (e, add_url)
          (elim (Bool-cases (bytes_eq w.site [] || bytes_eq w.ip [])) [
            | inl b ↦ rw b (v, omega arith, λ p. cc)
            | inr b ↦ let (x, y) = add_parsed-Inv t w h v in rw b (x, y, λ p. cc)
          ])
  ]
