-- ===== src/Processor/Count.antt =====
-- The contexts that the processor holds, and the connections they may still have.
use lspider.Common.{
  ℕ, suc, ◌+◌, ◌≤◌, ◌≡◌, List, [], ◌∷◌, ◌++◌, arith, ap, length, length-append, sum_of,
  sum_of-append, Bytes,
}
use lspider.Context.{UrlContext}
use lspider.Processor.{Conf, Watch, Handler, Processor, watch, enqueue, lower_count, crawl_done}
use lspider.Processor.Keeps.{IsSameTask}
use lspider.Processor.Serve.{budget, Outcome, waits, again, crawled, failed, given_up, stranded}

-- The sum of a weight over the contexts in the queue, in the event loop and at the places where they
-- end.
unfoldable pub held : (Bytes → ℕ) → Processor → ℕ
held g p =
    sum_of (λ u. g u.url) p.waiting
    + sum_of (λ w. g w.context.url) p.watched
    + sum_of (λ u. g u.url) p.extracting
    + sum_of (λ u. g u.url) p.failed
    + sum_of (λ u. g u.url) p.dropped
    + sum_of (λ u. g u.url) p.leaked
    + sum_of (λ u. g u.url) p.stuck

-- The connections that the contexts in the queue and in the event loop may still have.
unfoldable pub potential : Conf → Processor → ℕ
potential c p =
    sum_of (λ u. suc (budget c u)) p.waiting + sum_of (λ w. budget c w.context) p.watched

pub length-snoc : (us : List UrlContext) (u : UrlContext) → length (us ++ u ∷ []) ≡ suc (length us)
length-snoc us u = omega (arith, length-append us (u ∷ []))

abbrev weight : (Bytes → ℕ) → UrlContext → ℕ
weight g u = g u.url

pub weight-snoc :
    (g : Bytes → ℕ) (us : List UrlContext) (u : UrlContext)
    → sum_of (λ v. g v.url) (us ++ u ∷ []) ≡ sum_of (λ v. g v.url) us + g u.url
weight-snoc g us u = omega (arith, sum_of-append (weight g) us (u ∷ []))

pub weight-watch :
    (g : Bytes → ℕ) (p : Processor) (h : Handler) (u : UrlContext)
    → sum_of (λ w. g w.context.url) (watch h u p).watched
      ≡ sum_of (λ w. g w.context.url) p.watched + g u.url
weight-watch g p h u = omega (
  arith,
  sum_of-append (λ w. g w.context.url) p.watched (record { handler = h; context = u } ∷ []),
)

crawl_done-held :
    (g : Bytes → ℕ) (p : Processor) (u : UrlContext) → held g (crawl_done p u) ≡ g u.url + held g p
unfolding held crawl_done
crawl_done-held g p u = ground (arith, weight-snoc g p.extracting u, weight-snoc g p.failed u)

crawl_done-potential :
    (c : Conf) (p : Processor) (u : UrlContext) → potential c (crawl_done p u) ≡ potential c p
unfolding potential crawl_done
crawl_done-potential c p u = ground arith

-- Every outcome keeps the context that the event is about, and no other appears.
pub Outcome-held :
    (c : Conf) (g : Bytes → ℕ) (p q : Processor) (w : Watch)
    → Outcome c p w q
    → held g q ≡ g w.context.url + held g p
unfolding held
Outcome-held c g p q w (waits h v l s) = omega (arith, weight-watch g p h v, ap g s.url)
Outcome-held c g p q w (again v a) = omega (arith, weight-snoc g p.waiting v, ap g a.url)
Outcome-held c g p q w (crawled v e f) = omega (arith, crawl_done-held g p v, ap g e)
Outcome-held c g p q w (failed v e f) = omega (arith, crawl_done-held g p v, ap g e)
Outcome-held c g p q w (given_up v e f k) =
    omega (arith, crawl_done-held g (lower_count p) v, ap g e)
Outcome-held c g p q w (stranded e f) = omega (arith, weight-snoc g p.stuck w.context)

pub waits_lem :
    (c : Conf) (p : Processor) (h : Handler) (v : UrlContext)
    → potential c (watch h v p) ≡ potential c p + budget c v
unfolding potential
waits_lem c p h v = omega (
  arith,
  sum_of-append (λ w. budget c w.context) p.watched (record { handler = h; context = v } ∷ []),
)

pub enqueue_lem :
    (c : Conf) (p : Processor) (v : UrlContext)
    → potential c (enqueue v p) ≡ potential c p + suc (budget c v)
unfolding potential
enqueue_lem c p v = omega (arith, sum_of-append (λ u. suc (budget c u)) p.waiting (v ∷ []))

pub budget-same : (c : Conf) (u v : UrlContext) → IsSameTask u v → budget c v ≡ budget c u
unfolding budget
budget-same c u v s = omega (arith, s.depth, s.retry)

-- No outcome raises the connections that are left.
pub Outcome-potential :
    (c : Conf) (p q : Processor) (w : Watch)
    → Outcome c p w q
    → potential c q ≤ potential c p + budget c w.context
Outcome-potential c p q w (waits h v l s) =
    omega (arith, waits_lem c p h v, budget-same c w.context v s)
Outcome-potential c p q w (again v a) =
    unfold potential in omega (arith, enqueue_lem c p v, a.spent)
Outcome-potential c p q w (crawled v e f) = omega (arith, crawl_done-potential c p v)
Outcome-potential c p q w (failed v e f) = omega (arith, crawl_done-potential c p v)
Outcome-potential c p q w (given_up v e f g) =
    unfold potential in omega (arith, crawl_done-potential c (lower_count p) v)
Outcome-potential c p q w (stranded e f) = unfold potential in omega arith

pub enqueue-held :
    (g : Bytes → ℕ) (p : Processor) (u : UrlContext) → held g (enqueue u p) ≡ g u.url + held g p
unfolding held
enqueue-held g p u = omega (arith, weight-snoc g p.waiting u)

-- Taking a context out of the queue, or an event out of the loop.
pub held-waiting :
    (g : Bytes → ℕ) (p : Processor) (u : UrlContext) (us : List UrlContext)
    → p.waiting ≡ u ∷ us
    → held g p ≡ g u.url + held g (record p { waiting = us })
unfolding held
held-waiting g p u us e = omega (arith, ap (sum_of (weight g)) e)

pub potential-waiting :
    (c : Conf) (p : Processor) (u : UrlContext) (us : List UrlContext)
    → p.waiting ≡ u ∷ us
    → potential c p ≡ potential c (record p { waiting = us }) + suc (budget c u)
unfolding potential
potential-waiting c p u us e = omega (arith, ap (sum_of λ v. suc (budget c v)) e)

pub held-watched :
    (g : Bytes → ℕ) (p : Processor) (xs ys : List Watch) (w : Watch)
    → p.watched ≡ xs ++ w ∷ ys
    → held g p ≡ g w.context.url + held g (record p { watched = xs ++ ys })
unfolding held
held-watched g p xs ys w e =
    let f = λ (v : Watch). g v.context.url in
    omega (arith, ap (sum_of f) e, sum_of-append f xs (w ∷ ys), sum_of-append f xs ys)

pub potential-watched :
    (c : Conf) (p : Processor) (xs ys : List Watch) (w : Watch)
    → p.watched ≡ xs ++ w ∷ ys
    → potential c p ≡ potential c (record p { watched = xs ++ ys }) + budget c w.context
unfolding potential
potential-watched c p xs ys w e =
    let f = λ (v : Watch). budget c v.context in
    omega (arith, ap (sum_of f) e, sum_of-append f xs (w ∷ ys), sum_of-append f xs ys)
