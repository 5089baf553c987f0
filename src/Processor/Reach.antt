-- ===== src/Processor/Reach.antt =====
-- Everything that can happen to the processor: contexts are pushed, connected and served in any order.
use lspider.Common.{
  ℕ, suc, ◌+◌, ◌-◌, ◌*◌, ◌≤◌, ◌≡◌, refl, Bool, false, some, List, [], ◌∷◌, ◌++◌, arith, Bytes,
  subst, sym, ◌∙◌, if◌then◌else◌, ap, length, sum_of,
}
use lspider.Context.{UrlContext, new_context, connecting, parse, first_parse, redirect_parse}
use lspider.Protocol.{Outside}
use lspider.Processor.{Conf, Watch, Processor, ran, Flags, enqueue, handle}
use lspider.Processor.Connect.{
  Dial, connect, run_round, too_many, push_connect_queue, run_once, empty_processor,
}
use lspider.Processor.Sockets.{SendResult, RecvResult}
use lspider.Processor.Serve.{budget, handle-Outcome}
use lspider.Processor.Count.{
  held, enqueue-held, held-waiting, held-watched, potential-waiting, potential-watched, potential,
  enqueue_lem, Outcome-held, Outcome-potential,
}
use lspider.Processor.Alive.{
  Alive, enqueue-Alive, Dialled-Alive, Outcome-Alive, taken-Alive, fired-Alive,
}
use lspider.Processor.Dialled.{connect-Dialled, Dialled-held, Dialled-potential}

-- What is pushed has not been connected before. The listener pushes such contexts as they are, the
-- timers of the link table after `addUrl` has parsed them.
pub record IsFresh (u : UrlContext) : Type 0 where
  pub depth : u.redirect_depth ≡ 0
  pub retry : u.retry ≡ 0
  pub status : u.status ≡ connecting

pub new_context-IsFresh :
    (url : Bytes) (depth : ℕ) (hub : Bool) (sign : Bytes) → IsFresh (new_context url depth hub sign)
unfolding new_context
new_context-IsFresh url depth hub sign = record { depth = refl; retry = refl; status = refl }

pub parse-IsFresh :
    (resolve : Bytes → List Bytes) (random : ℕ) (u v : UrlContext)
    → parse resolve random u ≡ some v
    → IsFresh u
    → IsFresh v
unfolding parse first_parse redirect_parse
parse-IsFresh resolve random u v h f = ground (arith, f.depth, f.retry, f.status)

module _ (c : Conf) (o : Outside) where
  -- The state after contexts with these URLs were pushed, the last one first, and so many connections
  -- tried.
  pub data Reach : List Bytes → ℕ → Processor → Type 0 where
    start : Reach [] 0 empty_processor
    pushed :
        {us : List Bytes} {n : ℕ} {p q : Processor} (u : UrlContext)
        → IsFresh u
        → Reach us n p
        → push_connect_queue c u p ≡ some q
        → Reach (u.url ∷ us) n q
    tried :
        {us : List Bytes} {n : ℕ} {p q : Processor} (resolve : Bytes → List Bytes) (random : ℕ)
        (d : Dial) (u : UrlContext) (vs : List UrlContext)
        → Reach us n p
        → p.waiting ≡ u ∷ vs
        → too_many p.conc_count c.max_concurrence ≡ false
        → run_once c resolve random d p ≡ ran q
        → Reach us (suc n) q
    fired :
        {us : List Bytes} {n : ℕ} {p q : Processor} (xs : List Watch) (w : Watch) (ys : List Watch)
        (f : Flags) (ss : List SendResult) (rs : List RecvResult)
        → Reach us n p
        → p.watched ≡ xs ++ w ∷ ys
        → handle c o (record p { watched = xs ++ ys }) w f ss rs ≡ ran q
        → Reach us n q

  pub tried-connect :
      (p q : Processor) (resolve : Bytes → List Bytes) (random : ℕ) (d : Dial) (u : UrlContext)
      (us : List UrlContext)
      → p.waiting ≡ u ∷ us
      → too_many p.conc_count c.max_concurrence ≡ false
      → run_once c resolve random d p ≡ ran q
      → connect resolve random d (record p { waiting = us }) u ≡ ran q
  unfolding run_once run_round
  tried-connect p q resolve random d u us e b h =
      sym (
        ap (run_round c resolve random d p) e
        ∙ ap (λ t. if t then ran p else connect resolve random d (record p { waiting = us }) u) b)
      ∙ h

  pub pushed-enqueue :
      (p q : Processor) (u : UrlContext) → push_connect_queue c u p ≡ some q → enqueue u p ≡ q
  unfolding push_connect_queue
  pushed-enqueue p q u h = ground arith

  Reach-Alive : {us : List Bytes} {n : ℕ} {p : Processor} → Reach us n p → Alive p
  Reach-Alive start = record { waiting = tt; watched = tt; stuck = refl }
  Reach-Alive (pushed {p = p} {q = q} u f r e) =
      subst Alive (pushed-enqueue p q u e) (enqueue-Alive p u f.status (Reach-Alive r))
  Reach-Alive (tried {p = p} {q = q} resolve random d u vs r e b h) =
      let (s, a) = taken-Alive p u vs e (Reach-Alive r) in
      Dialled-Alive (record p { waiting = vs }) q u
        (connect-Dialled resolve random d (record p { waiting = vs }) q u
          (tried-connect p q resolve random d u vs e b h))
        s a
  Reach-Alive (fired {p = p} {q = q} xs w ys f ss rs r e h) =
      let (b, a) = fired-Alive p xs ys w e (Reach-Alive r) in
      Outcome-Alive c (record p { watched = xs ++ ys }) q w
        (handle-Outcome c o (record p { watched = xs ++ ys }) q w f ss rs h) b a

  -- No context is lost, duplicated or exchanged: for every weight of URLs, and so for every single
  -- URL and for their number, what was pushed has the weight of what is in the queue, in the event
  -- loop, with the extractor, reported as failed, deleted without a socket, or deleted with its socket
  -- left open. No context is ever left behind that nothing refers to.
  pub Reach-held :
      {us : List Bytes} {n : ℕ} {p : Processor} (g : Bytes → ℕ)
      → Reach us n p
      → (held g p ≡ sum_of g us) × (p.stuck ≡ [])
  Reach-held g r = (all r, (Reach-Alive r).stuck)
    where
      all : {us : List Bytes} {n : ℕ} {p : Processor} → Reach us n p → held g p ≡ sum_of g us
      all start = unfold held in refl
      all (pushed {p = p} {q = q} u f r e) =
          omega (arith, all r, enqueue-held g p u, ap (held g) (pushed-enqueue p q u e))
      all (tried {p = p} {q = q} resolve random d u vs r e b h) = omega (
        arith,
        all r,
        held-waiting g p u vs e,
        Dialled-held g (record p { waiting = vs }) q u
            (connect-Dialled resolve random d (record p { waiting = vs }) q u
              (tried-connect p q resolve random d u vs e b h)),
      )
      all (fired {p = p} {q = q} xs w ys f ss rs r e h) = omega (
        arith,
        all r,
        held-watched g p xs ys w e,
        Outcome-held c g (record p { watched = xs ++ ys }) q w
            (handle-Outcome c o (record p { watched = xs ++ ys }) q w f ss rs h),
      )

  -- The connections that one URL may cost: the first, the redirections and the retries.
  abbrev pub per_url : ℕ
  per_url = 1 + c.max_redirect_depth + (c.max_retry - 1)

  IsFresh-budget : (u : UrlContext) → IsFresh u → suc (budget c u) ≡ per_url
  unfolding budget
  IsFresh-budget u f = omega (arith, f.depth, f.retry)

  -- However events and connections interleave, the connections that were tried and those that may
  -- follow are at most `1 + max_redirect_depth + (max_retry - 1)` for each URL pushed: no URL is
  -- crawled for ever. The contexts pushed are new ones, parsed or not.
  pub Reach-potential :
      {us : List Bytes} {n : ℕ} {p : Processor}
      → Reach us n p
      → n + potential c p ≤ length us * per_url
  Reach-potential start = unfold potential in omega arith
  Reach-potential (pushed {p = p} {q = q} u f r e) = omega (
    arith,
    Reach-potential r,
    enqueue_lem c p u,
    ap (potential c) (pushed-enqueue p q u e),
    IsFresh-budget u f,
  )
  Reach-potential (tried {p = p} {q = q} resolve random d u us r e b h) = omega (
    arith,
    Reach-potential r,
    potential-waiting c p u us e,
    Dialled-potential c (record p { waiting = us }) q u
        (connect-Dialled resolve random d (record p { waiting = us }) q u
          (tried-connect p q resolve random d u us e b h)),
  )
  Reach-potential (fired {p = p} {q = q} xs w ys f ss rs r e h) = omega (
    arith,
    Reach-potential r,
    potential-watched c p xs ys w e,
    Outcome-potential c (record p { watched = xs ++ ys }) q w
        (handle-Outcome c o (record p { watched = xs ++ ys }) q w f ss rs h),
  )
