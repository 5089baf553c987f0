-- ===== src/LinkTable/Select.antt =====
-- One event of a timer: `on_ip_schedule` and the `LinkTable::select` that it calls, on a well-formed
-- table.
use lspider.Common.{
  false, suc, ◌≤◌, ◌<◌, ◌≡◌, inl, inr, refl, some, List, [], ◌∷◌, arith, All, Bytes, Option-cases,
  if◌then◌else◌, subst, sym, ap,
}
use lspider.Common.Maps.{find}
use lspider.Context.{UrlContext}
use lspider.LinkTable.Interfaces.{PriorityQueue, Float, url_context_comp}
use lspider.LinkTable.{
  SiteContext, IpContext, LinkTable, Conf, ok, decrement, remove, sites_after, contexts_after,
  select, on_ip_schedule,
}
use lspider.LinkTable.Invariant
use lspider.LinkTable.Invariant.{pending, present}
use lspider.LinkTable.Choice.{IsChosen}
use lspider.LinkTable.Served
use lspider.LinkTable.Taken

-- The top of the queue has the least depth.
top_least :
    (u : UrlContext) (l : List UrlContext)
    → All (λ v. url_context_comp u v ≡ false) l
    → All (λ v. u.link_depth ≤ v.link_depth) l
unfolding url_context_comp
top_least u [] h = tt
top_least u (v ∷ l) h = (ground (arith, h.0), top_least u l h.1)

module _ (q : PriorityQueue) (f : Float) (c : Conf) where
  open q use {Queue, size, pop}
  open f use {Count}

  abbrev Site : Type 0
  Site = SiteContext Queue Count

  abbrev Ip : Type 0
  Ip = IpContext Queue Count

  abbrev Table : Type 0
  Table = LinkTable Queue Count

  abbrev Inv : Table → Type 0
  Inv = Invariant.Inv q f c

  pub record IsFired (t : Table) (key : Bytes) (t' : Table) (u : UrlContext) : Type 0 where
    pub context : Ip
    pub found : find key t.contexts ≡ some context
    pub site : Site
    pub chosen : IsChosen q f context.sites site
    pub rest : Queue
    pub popped : pop site.urls ≡ some (u, rest)
    pub least : All (λ v. u.link_depth ≤ v.link_depth) (q.elems rest)
    pub kept : Inv t'
    pub fewer : Invariant.urls q f c t ≡ suc (Invariant.urls q f c t')

  abbrev unarmed : Table → Bytes → Ip → List (Bytes × Site) → Table
  unarmed t key x sites = record t {
    contexts = (contexts_after q f x sites t.contexts).0;
    timers = remove key t.timers;
    count = decrement t.count;
  }

  rearm :
      (t : Table) (key : Bytes) (x : Ip) (sites : List (Bytes × Site))
      → (if (contexts_after q f x sites t.contexts).1
          then unarmed t key x sites
          else record (unarmed t key x sites) { timers = key ∷ remove key t.timers })
        ≡ Served.served q f c t key x sites
  unfolding contexts_after
  rearm t key x [] = refl
  rearm t key x (s ∷ sites) = refl

  -- The call, with what the steps before have established.
  on_ip_schedule-served :
      (t : Table) (key : Bytes) (x : Ip) (s : Site) (u : UrlContext) (rest : Queue)
      → find key t.contexts ≡ some x
      → Taken.IsTaken q f c x s u rest
      → on_ip_schedule q f t key
        ≡ ok (Served.served q f c t key x (sites_after q f s rest x.sites), u)
  unfolding on_ip_schedule select
  on_ip_schedule-served t key x s u rest e h =
      rw (e, h.selected, h.popped)
        (ap (λ r. ok (r, u)) (rearm t key x (sites_after q f s rest x.sites)))

  -- On a well-formed table a pending timer runs to its end: it takes a url of least depth from a site
  -- of least count, the table stays well formed and has one url fewer.
  pub on_ip_schedule-IsFired :
      (t : Table) (key : Bytes)
      → Inv t
      → 0 < pending key t.timers
      → (t' : Table) × (u : UrlContext) × (on_ip_schedule q f t key ≡ ok (t', u))
        × IsFired t key t' u
  on_ip_schedule-IsFired t key v h = elim (Option-cases (find key t.contexts)) [
    | inl e ↦ absurd (omega (arith, v.timed key, ap present e))
    | inr (x, e) ↦
        let w = v.each key x e in
        let (s, u, rest, g) = Taken.taken q f c key x w in
        let n = Taken.sites_after-total q f c x s u rest g in
        let found : find x.ip t.contexts ≡ some x =
          subst (λ k. find k t.contexts ≡ some x) (sym w.sound.named) e in
        (
          Served.served q f c t key x (sites_after q f s rest x.sites),
          u,
          on_ip_schedule-served t key x s u rest e g,
          record {
            context = x;
            found = e;
            site = s;
            chosen = g.chosen;
            rest = rest;
            popped = g.popped;
            least = top_least u (q.elems rest) (q.pop-top s.urls rest u g.popped);
            kept =
                Served.served-Inv q f c t key x _ v h found w.sound.named
                  (Taken.sites_after-Distinct q f c s rest x.sites w.sound.distinct)
                  (Taken.sites_after-each q f c key x s u rest w.sound g) n;
            fewer = Served.urls-served q f c t key x _ found n;
          },
        )
  ]
