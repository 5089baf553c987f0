-- ===== src/LinkTable/Taken.antt =====
-- What `LinkTable::select` takes from a context: a site, its top url, and the sites that stay.
use lspider.Common.{
  ℕ, suc, ◌<◌, ◌≡◌, inl, inr, refl, true, false, some, List, arith, All, Bytes, Bool-cases,
  Option-cases, subst, ◌==◌,
}
use lspider.Common.Maps.{
  find, Distinct, total, find-put_cases, find-erase_cases, put-Distinct, erase-Distinct, total-put,
  total-erase, All-find, All-mono,
}
use lspider.Context.{UrlContext}
use lspider.LinkTable.Interfaces.{PriorityQueue, Float}
use lspider.LinkTable.{SiteContext, IpContext, LinkTable, Conf, select_site, sites_after}
use lspider.LinkTable.Invariant
use lspider.LinkTable.Invariant.{pending, present}
use lspider.LinkTable.Choice.{IsChosen, select_site-IsChosen, select_site-ne-none}

module _ (q : PriorityQueue) (f : Float) (c : Conf) where
  open q use {Queue, size, pop}
  open f use {Count, lt, max_scale}

  abbrev pub Site : Type 0
  Site = SiteContext Queue Count

  abbrev pub Ip : Type 0
  Ip = IpContext Queue Count

  abbrev pub Table : Type 0
  Table = LinkTable Queue Count

  abbrev pub Inv : Table → Type 0
  Inv = Invariant.Inv q f c

  abbrev pub IsSite : Bytes → Site → Type 0
  IsSite = Invariant.IsSite q f c

  abbrev pub site_urls : Site → ℕ
  site_urls s = size s.urls

  abbrev pub ip_urls : Ip → ℕ
  ip_urls x = total site_urls x.sites

  all_sites :
      (P : Bytes × Site → Type 0) (sites : List (Bytes × Site))
      → Distinct sites
      → ((k : Bytes) (s : Site) → find k sites ≡ some s → P (k, s))
      → All P sites
  all_sites P sites d h = All-mono _ P sites h (All-find sites d)

  -- What `select` meets in the context `x`: a site as it stood, the url on its top, and the rest.
  pub record IsTaken (x : Ip) (s : Site) (u : UrlContext) (rest : Queue) : Type 0 where
    pub chosen : IsChosen q f x.sites s
    pub selected : select_site q f x.sites ≡ some s
    pub popped : pop s.urls ≡ some (u, rest)

  IsTaken-url :
      (x : Ip) (s : Site)
      → IsChosen q f x.sites s
      → select_site q f x.sites ≡ some s
      → 0 < size s.urls
      → (u : UrlContext) × (rest : Queue) × IsTaken x s u rest
  IsTaken-url x s v e h = elim (Option-cases (pop s.urls)) [
    | inl n ↦ absurd (omega (arith, q.pop-none s.urls n))
    | inr ((u, rest), p) ↦ (u, rest, record { chosen = v; selected = e; popped = p })
  ]

  chosen-used :
      (key : Bytes) (x : Ip) (s : Site)
      → Invariant.IsIp q f c key x
      → IsChosen q f x.sites s
      → 0 < size s.urls
  chosen-used key x s v h =
      ground (arith, (v.sound.each h.before.site h.before h.found).used, h.raised)

  pub taken :
      (key : Bytes) (x : Ip)
      → Invariant.IsIp q f c key x
      → (s : Site) × (u : UrlContext) × (rest : Queue) × IsTaken x s u rest
  taken key x v = elim (Option-cases (select_site q f x.sites)) [
    | inl e ↦ absurd (select_site-ne-none q f x.sites v.used below e)
    | inr (s, e) ↦
        let h = select_site-IsChosen q f x.sites s v.sound.distinct named below e in
        let (u, rest, t) = IsTaken-url x s h e (chosen-used key x s v h) in (s, u, rest, t)
  ]
    where
      below : All (λ e. lt e.1.select_count max_scale ≡ true) x.sites
      below = all_sites _ x.sites v.sound.distinct (λ k s h. (v.sound.each k s h).sound.below)

      named : All (λ e. e.1.site ≡ e.0) x.sites
      named = all_sites _ x.sites v.sound.distinct (λ k s h. (v.sound.each k s h).sound.named)

  -- A site with one url fewer, its count raised.
  left-IsSite :
      (s b : Site) (u : UrlContext) (rest : Queue)
      → s ≡ record b { select_count = f.add_inverse b.select_count b.quota }
      → pop s.urls ≡ some (u, rest)
      → IsSite b.site b
      → 0 < size rest
      → IsSite s.site (record s { urls = rest })
  left-IsSite s b u rest e p v k = record {
    sound = record {
      named = refl;
      fits = ground (arith, q.size-pop s.urls rest u p);
      one_quota = ground arith;
      below = ground (arith, f.add_below b.select_count);
    };
    used = k;
  }

  pub sites_after-each :
      (key : Bytes) (x : Ip) (s : Site) (u : UrlContext) (rest : Queue)
      → Invariant.IsIpOrNew q f c key x
      → IsTaken x s u rest
      → (k : Bytes) (t : Site) → find k (sites_after q f s rest x.sites) ≡ some t
      → IsSite k t
  unfolding sites_after
  sites_after-each key x s u rest v h k t e = elim (Bool-cases (size rest == 0)) [
    | inl z ↦
        v.each k t (find-erase_cases k s.site t x.sites v.distinct (rw (z, sites_after) at e)).1
    | inr z ↦ elim (find-put_cases k s.site left t x.sites (rw (z, sites_after) at e)) [
      | inl (a, b) ↦ subst (λ r. IsSite k r) b (subst (λ j. IsSite j left) a (left_sound z))
      | inr (n, a) ↦ v.each k t a
    ]
  ]
    where
      open h.chosen use {before, raised, found}

      left : Site
      left = record s { urls = rest }

      left_sound : (size rest == 0) ≡ false → IsSite s.site left
      left_sound z =
          left-IsSite s before u rest raised h.popped (v.each before.site before found)
            (ground arith)

  pub sites_after-Distinct :
      (s : Site) (rest : Queue) (sites : List (Bytes × Site))
      → Distinct sites
      → Distinct (sites_after q f s rest sites)
  unfolding sites_after
  sites_after-Distinct s rest sites d =
      ground (
        arith,
        erase-Distinct s.site sites d,
        put-Distinct s.site (record s { urls = rest }) sites d,
      )

  pub sites_after-total :
      (x : Ip) (s : Site) (u : UrlContext) (rest : Queue)
      → IsTaken x s u rest
      → total site_urls x.sites ≡ suc (total site_urls (sites_after q f s rest x.sites))
  unfolding sites_after
  sites_after-total x s u rest h = ground (
    arith,
    total-erase site_urls s.site x.sites,
    total-put site_urls s.site (record s { urls = rest }) x.sites,
    h.chosen.found,
    h.chosen.raised,
    q.size-pop s.urls rest u h.popped,
  )
