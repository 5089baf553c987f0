-- ===== src/Processor/Alive.antt =====
-- The contexts that the event loop can still serve.
use lspider.Common.{◌≡◌, refl, false, List, [], ◌∷◌, ◌++◌, arith, subst, ◌∙◌, All, All-append}
use lspider.Context.{UrlContext, connecting}
use lspider.Processor.{
  Conf, on_connected, Watch, Processor, watch, enqueue, Handler, on_send, on_recv, crawl_done,
  lower_count, is_connecting,
}
use lspider.Processor.Connect.{raise_count}
use lspider.Processor.Serve.{Later, Outcome, waits, again, crawled, failed, given_up, stranded}
use lspider.Processor.Dialled.{Dialled, not_begun, broken_off, begun}

-- A watch for a connection has a context that is still connecting.
abbrev pub Begins : Handler → UrlContext → Type 0
Begins on_connected u = u.status ≡ connecting
Begins on_send u = Unit
Begins on_recv u = Unit

-- Every context can go on.
pub record Alive (p : Processor) : Type 0 where
  pub waiting : All (λ u. u.status ≡ connecting) p.waiting
  pub watched : All (λ w. Begins w.handler w.context) p.watched
  pub stuck : p.stuck ≡ []

Later-Begins : (h : Handler) (u : UrlContext) → Later h → Begins h u
Later-Begins on_connected u l = absurd l
Later-Begins on_send u l = tt
Later-Begins on_recv u l = tt

pub enqueue-Alive :
    (p : Processor) (u : UrlContext) → u.status ≡ connecting → Alive p → Alive (enqueue u p)
enqueue-Alive p u e a = record {
  waiting = All-append _ p.waiting (u ∷ []) a.waiting (e, tt);
  watched = a.watched;
  stuck = a.stuck;
}

watch-Alive :
    (p : Processor) (h : Handler) (u : UrlContext) → Begins h u → Alive p → Alive (watch h u p)
watch-Alive p h u b a = record {
  waiting = a.waiting;
  watched = All-append _ p.watched (record { handler = h; context = u } ∷ []) a.watched (b, tt);
  stuck = a.stuck;
}

crawl_done-Alive : (p : Processor) (u : UrlContext) → Alive p → Alive (crawl_done p u)
unfolding crawl_done
crawl_done-Alive p u a = ground (arith, a.waiting, a.watched, a.stuck)

same_parts-Alive :
    (p q : Processor)
    → q.waiting ≡ p.waiting
    → q.watched ≡ p.watched
    → q.stuck ≡ p.stuck
    → Alive p
    → Alive q
same_parts-Alive p q e f g a = record {
  waiting = rw e a.waiting;
  watched = rw f a.watched;
  stuck = g ∙ a.stuck;
}

not_stranded :
    (h : Handler) (u : UrlContext)
    → h ≡ on_connected
    → is_connecting u.status ≡ false
    → Begins h u
    → ⊥
not_stranded on_connected u e f b = absurd (cc)
not_stranded on_send u e f b = cc
not_stranded on_recv u e f b = cc

pub Outcome-Alive :
    (c : Conf) (p q : Processor) (w : Watch)
    → Outcome c p w q
    → Begins w.handler w.context
    → Alive p
    → Alive q
Outcome-Alive c p q w (waits h v l s) b a = watch-Alive p h v (Later-Begins h v l) a
Outcome-Alive c p q w (again v f) b a =
    enqueue-Alive (lower_count p) v f.status (same_parts-Alive p (lower_count p) refl refl refl a)
Outcome-Alive c p q w (crawled v e f) b a = crawl_done-Alive p v a
Outcome-Alive c p q w (failed v e f) b a = crawl_done-Alive p v a
Outcome-Alive c p q w (given_up v e f g) b a =
    crawl_done-Alive (lower_count p) v (same_parts-Alive p (lower_count p) refl refl refl a)
Outcome-Alive c p q w (stranded e f) b a = absurd (not_stranded w.handler w.context e f b)

pub Dialled-Alive :
    (p q : Processor) (u : UrlContext) → Dialled p u q → u.status ≡ connecting → Alive p → Alive q
Dialled-Alive p q u (not_begun v s) e a = same_parts-Alive p q refl refl refl a
Dialled-Alive p q u (broken_off v s) e a = same_parts-Alive p q refl refl refl a
Dialled-Alive p q u (begun v s t) e a =
    watch-Alive (raise_count p) on_connected v (t ∙ e)
      (same_parts-Alive p (raise_count p) refl refl refl a)

pub taken-Alive :
    (p : Processor) (u : UrlContext) (us : List UrlContext)
    → p.waiting ≡ u ∷ us
    → Alive p
    → (u.status ≡ connecting) × Alive (record p { waiting = us })
taken-Alive p u us e a =
    let w = subst (All (λ v. v.status ≡ connecting)) e a.waiting in
    (w.0, record { waiting = w.1; watched = a.watched; stuck = a.stuck })

unwatched :
    (xs ys : List Watch) (w : Watch)
    → All (λ v. Begins v.handler v.context) (xs ++ w ∷ ys)
    → Begins w.handler w.context × All (λ v. Begins v.handler v.context) (xs ++ ys)
unwatched [] ys w h = h
unwatched (x ∷ xs) ys w h = let (a, b) = unwatched xs ys w h.1 in (a, (h.0, b))

pub fired-Alive :
    (p : Processor) (xs ys : List Watch) (w : Watch)
    → p.watched ≡ xs ++ w ∷ ys
    → Alive p
    → Begins w.handler w.context × Alive (record p { watched = xs ++ ys })
fired-Alive p xs ys w e a =
    let (b, c) = unwatched xs ys w (subst (All (λ v. Begins v.handler v.context)) e a.watched) in
    (b, record { waiting = a.waiting; watched = c; stuck = a.stuck })
