-- ===== src/LinkTable/Choice.antt =====
-- Which site `IpContext::select` chooses.
use lspider.Common.{
  ◌≡◌, ◌≢◌, inl, inr, refl, true, false, Option, none, some, List, [], ◌∷◌, arith, All, Bytes,
  Bool-cases, subst, sym,
}
use lspider.Common.Maps.{find, Distinct, All-find}
use lspider.LinkTable.Interfaces.{PriorityQueue, Float}
use lspider.LinkTable.{SiteContext, least, select_site}

module _ (q : PriorityQueue) (f : Float) where
  open q use {Queue}
  open f use {Count, lt, max_scale, add_inverse}

  abbrev pub Sites : Type 0
  Sites = List (Bytes × SiteContext Queue Count)

  abbrev BestIs : (SiteContext Queue Count → Type 0) → Option (SiteContext Queue Count) → Type 0
  BestIs P none = Unit
  BestIs P (some s) = P s

  -- What holds of all sites holds of the chosen one.
  least-All :
      (P : SiteContext Queue Count → Type 0) (sites : Sites) (min : Count)
      (best : Option (SiteContext Queue Count))
      → All (λ e. P e.1) sites
      → BestIs P best
      → BestIs P (least q f min best sites)
  unfolding least
  least-All P [] min best h b = b
  least-All P ((k, s) ∷ rest) min best h b = elim (Bool-cases (lt s.select_count min)) [
    | inl e ↦ rw e (least-All P rest s.select_count (some s) h.1 h.0)
    | inr e ↦ rw e (least-All P rest min best h.1 b)
  ]

  abbrev NotAbove : Count → Option (SiteContext Queue Count) → Type 0
  NotAbove x = BestIs (λ s. lt x s.select_count ≡ false)

  step_smaller : (x y z : Count) → lt x y ≡ true → lt x z ≡ false → lt y z ≡ false
  step_smaller x y z h k = elim (Bool-cases (lt y z)) [
    | inl e ↦ cc (f.lt_trans x y z h e)
    | inr e ↦ e
  ]

  step_not_smaller : (x y z : Count) → lt x y ≡ false → lt y z ≡ false → lt x z ≡ false
  step_not_smaller x y z h k = elim (Bool-cases (lt x z)) [
    | inl e ↦ elim (f.lt_negtrans x y z e) [ inl a ↦ cc | inr b ↦ cc ]
    | inr e ↦ e
  ]

  -- The chosen site's count is not above the bound so far nor above that of any site.
  least-min :
      (sites : Sites) (min : Count) (best : Option (SiteContext Queue Count))
      (s : SiteContext Queue Count)
      → BestIs (λ b. min ≡ b.select_count) best
      → least q f min best sites ≡ some s
      → (lt min s.select_count ≡ false)
        × All (λ e. lt e.1.select_count s.select_count ≡ false) sites
  unfolding least
  least-min [] min none s b h = cc
  least-min [] min (some b) s e h = (ground (arith, f.lt_irrefl s.select_count), tt)
  least-min ((k, t) ∷ rest) min best s b h = elim (Bool-cases (lt t.select_count min)) [
    | inl e ↦
        let (x, y) = least-min rest t.select_count (some t) s refl (rw (e) at h) in
        (step_smaller t.select_count min s.select_count e x, (x, y))
    | inr e ↦
        let (x, y) = least-min rest min best s b (rw (e) at h) in
        (x, (step_not_smaller t.select_count min s.select_count e x, y))
  ]

  least-some :
      (sites : Sites) (min : Count) (b : SiteContext Queue Count)
      → least q f min (some b) sites ≢ none
  unfolding least
  least-some [] min b = cc
  least-some ((k, s) ∷ rest) min b = elim (Bool-cases (lt s.select_count min)) [
    | inl e ↦ rw e (least-some rest s.select_count s)
    | inr e ↦ rw e (least-some rest min b)
  ]

  -- With a site below the bound the loop finds one: the pointer is not null.
  pub select_site-ne-none :
      (sites : Sites)
      → sites ≢ []
      → All (λ e. lt e.1.select_count max_scale ≡ true) sites
      → select_site q f sites ≢ none
  unfolding select_site least
  select_site-ne-none [] h l = absurd (h refl)
  select_site-ne-none ((k, s) ∷ rest) h l =
      rw (l.0, select_site) (ground (arith, least-some rest s.select_count s))

  -- The chosen site as it stood in the table.
  pub record IsChosen (sites : Sites) (s : SiteContext Queue Count) : Type 0 where
    pub before : SiteContext Queue Count
    pub raised : s ≡ record before { select_count = add_inverse before.select_count before.quota }
    pub below : lt before.select_count max_scale ≡ true
    pub minimal : All (λ e. lt e.1.select_count before.select_count ≡ false) sites
    pub found : find before.site sites ≡ some before

  -- Each entry stands under its site's own name.
  abbrev pub Named : Sites → Type 0
  Named = All (λ e. e.1.site ≡ e.0)

  least-P :
      (P : SiteContext Queue Count → Type 0) (sites : Sites) (s : SiteContext Queue Count)
      → All (λ e. P e.1) sites
      → least q f max_scale none sites ≡ some s
      → P s
  least-P P sites s h e = subst (BestIs P) e (least-All P sites max_scale none h tt)

  found-Named :
      (sites rest : Sites)
      → Named rest
      → All (λ e. find e.0 sites ≡ some e.1) rest
      → All (λ e. find e.1.site sites ≡ some e.1) rest
  found-Named sites [] n h = tt
  found-Named sites ((k, s) ∷ rest) n h =
      (subst (λ j. find j sites ≡ some s) (sym n.0) h.0, found-Named sites rest n.1 h.1)

  choose :
      (sites : Sites) (o : Option (SiteContext Queue Count)) (s : SiteContext Queue Count)
      → Distinct sites
      → Named sites
      → All (λ e. lt e.1.select_count max_scale ≡ true) sites
      → least q f max_scale none sites ≡ o
      → select_site q f sites ≡ some s
      → IsChosen sites s
  unfolding select_site
  choose sites none s d n l e h = cc (rw (e, select_site) at h)
  choose sites (some b) s d n l e h = record {
    before = b;
    raised = ground arith;
    below = least-P (λ x. lt x.select_count max_scale ≡ true) sites b l e;
    minimal = (least-min sites max_scale none b tt e).1;
    found =
        least-P (λ x. find x.site sites ≡ some x) sites b
          (found-Named sites sites n (All-find sites d)) e;
  }

  -- Where the sites of a context have different names, are filed under them and have counts below
  -- `MAX_SCALE`, the site that `IpContext::select` takes is one of them, its count is not above
  -- that of any other site, and is raised by one share of its quota.
  pub select_site-IsChosen :
      (sites : Sites) (s : SiteContext Queue Count)
      → Distinct sites
      → Named sites
      → All (λ e. lt e.1.select_count max_scale ≡ true) sites
      → select_site q f sites ≡ some s
      → IsChosen sites s
  select_site-IsChosen sites s d n l h = choose sites _ s d n l refl h
