-- ===== src/Processor/Serve.antt =====
-- The handlers of the event loop, specified by what becomes of the context that an event is about.
use lspider.Common.{
  ℕ, suc, ◌+◌, ◌-◌, ◌<◌, ◌≤◌, ◌≡◌, refl, false, List, if_both, ltb_sound, [], ◌∷◌, length, ◌∙◌,
  subst, ◌++◌, arith, Bytes, ltb, ◌==◌, not, ◌&&◌, ◌||◌, bytes_eq,
}
use lspider.Context.{UrlContext, Status, connecting, done, timeout, proterr, init, sending}
use lspider.Protocol.{Outside, Analysis, ha_ok, ha_fail, unfinished}
use lspider.Processor.{
  Conf, Handler, Watch, Processor, Run, ran, aborted, hangs, corrupted, Flags, timed_out, ready,
  neither, watch, enqueue, lower_count, crawl_done, redirect, page_analysed, redirect_target,
  is_connecting, redirected, on_recv, on_send, on_connected, on_recv_one_page, on_timeout,
  on_broken, with_recv, do_with_recv, with_send, do_with_send, handle,
}
use lspider.Processor.Sockets.{
  e_again, e_finish, e_err, e_assert, try_recv, try_send, SendResult, RecvResult, SndRcv,
}
use lspider.Processor.Keeps.{IsSameTask, same, then_same, IsKept, IsKept-analyse}

-- The connections that a context may still have after the present one.
unfoldable pub budget : Conf → UrlContext → ℕ
budget c u = (c.max_redirect_depth - u.redirect_depth) + (c.max_retry - suc u.retry)

-- A context on its way back to the queue: nothing of the last connection is left, and it may be
-- connected fewer times than before.
pub record IsAgain (c : Conf) (u v : UrlContext) : Type 0 where
  pub url : v.url ≡ u.url
  pub parsed : v.has_parsed ≡ false
  pub status : v.status ≡ connecting
  pub spent : budget c v < budget c u

-- A context that failed for good: what is left of it says why.
pub data Reason : Status → Type 0 where
  protocol : Reason proterr
  no_retry_left : Reason timeout

-- The handlers that wait for a connection that was made.
abbrev pub Later : Handler → Type 0
Later on_connected = ⊥
Later on_send = Unit
Later on_recv = Unit

-- What a handler makes of the event of the watch `w` and the rest `p` of the state.
pub data Outcome (c : Conf) (p : Processor) (w : Watch) : Processor → Type 0 where
  waits :
      (h : Handler) (v : UrlContext)
      → Later h
      → IsSameTask w.context v
      → Outcome c p w (watch h v p)
  again : (v : UrlContext) → IsAgain c w.context v → Outcome c p w (enqueue v (lower_count p))
  crawled :
      (v : UrlContext) → v.url ≡ w.context.url → v.status ≡ done → Outcome c p w (crawl_done p v)
  failed :
      (v : UrlContext) → v.url ≡ w.context.url → v.status ≡ proterr → Outcome c p w (crawl_done p v)
  given_up :
      (v : UrlContext)
      → v.url ≡ w.context.url
      → v.status ≡ timeout
      → c.max_retry ≤ suc w.context.retry
      → Outcome c p w (crawl_done (lower_count p) v)
  stranded :
      w.handler ≡ on_connected
      → is_connecting w.context.status ≡ false
      → Outcome c p w (record p { stuck = p.stuck ++ w.context ∷ [] })

abbrev retried : UrlContext → UrlContext
retried u = init (record u { retry = u.retry + 1 })

retried-IsAgain :
    (c : Conf) (u v : UrlContext)
    → IsSameTask u v
    → v.retry + 1 < c.max_retry
    → IsAgain c u (retried v)
unfolding init budget
retried-IsAgain c u v s h = record {
  url = s.url;
  parsed = refl;
  status = refl;
  spent = omega (arith, s.depth, s.retry);
}

on_broken-Outcome :
    (c : Conf) (p : Processor) (g : Watch) (v : UrlContext)
    → IsSameTask g.context v
    → Outcome c p g (on_broken c p v)
unfolding on_broken on_timeout
on_broken-Outcome c p g v s =
    if_both (Outcome c p g) (ltb (v.retry + 1) c.max_retry) _ _
      (λ e.
        again (retried v) (retried-IsAgain c g.context v s (ltb_sound (v.retry + 1) c.max_retry e)))
      λ e. given_up _ s.url refl (ground (arith, s.retry))

abbrev followed : UrlContext → UrlContext
followed u = init (record (redirected u) { redirect_depth = u.redirect_depth + 1 })

followed-IsAgain :
    (c : Conf) (u v : UrlContext)
    → IsSameTask u v
    → v.redirect_depth < c.max_redirect_depth
    → IsAgain c u (followed v)
unfolding init budget
followed-IsAgain c u v s h = record {
  url = s.url;
  parsed = refl;
  status = refl;
  spent = omega (arith, s.depth, s.retry);
}

redirect-Outcome :
    (c : Conf) (p : Processor) (g : Watch) (v : UrlContext)
    → IsSameTask g.context v
    → Outcome c p g (redirect c p v)
unfolding redirect
redirect-Outcome c p g v s =
    if_both (Outcome c p g)
      (not (bytes_eq (redirect_target v) []) && ltb v.redirect_depth c.max_redirect_depth) _ _
      (λ e. again (followed v) (followed-IsAgain c g.context v s (ground arith)))
      λ e. failed _ s.url refl

-- What a handler's run leaves, if it returns.
abbrev pub Served : Conf → Processor → Watch → Run → Type 0
Served c p g (ran q) = Outcome c p g q
Served c p g aborted = Unit
Served c p g hangs = Unit
Served c p g corrupted = Unit

Served-page_analysed :
    (c : Conf) (p : Processor) (g : Watch) (v : UrlContext) (a : Analysis)
    → IsSameTask g.context v
    → IsKept v a
    → Served c p g (page_analysed c p v a)
unfolding page_analysed
Served-page_analysed c p g v (ha_ok w) s k =
    if_both (Served c p g) (w.http_status == 301 || w.http_status == 302) _ _
      (λ e. redirect-Outcome c p g w (then_same g.context v w s k))
      λ e.
        if_both (λ r. Served c p g (ran (crawl_done p (record w { status = r }))))
          (w.http_status == 404) _ _ (λ f. failed _ (k.url ∙ s.url) refl)
          λ f. crawled _ (k.url ∙ s.url) refl
Served-page_analysed c p g v ha_fail s k = failed _ s.url refl
Served-page_analysed c p g v unfinished s k = tt

IsSameTask-recv :
    (g : Watch) (v : UrlContext) (t : Bytes)
    → IsSameTask g.context v
    → IsSameTask g.context (record v { recv_data = t })
IsSameTask-recv g v t s = record { url = s.url; depth = s.depth; retry = s.retry }

IsSameTask-send :
    (g : Watch) (v : UrlContext) (n : ℕ)
    → IsSameTask g.context v
    → IsSameTask g.context (record v { write_len = n })
IsSameTask-send g v n s = record { url = s.url; depth = s.depth; retry = s.retry }

with_recv-Served :
    (c : Conf) (o : Outside) (p : Processor) (g : Watch) (v : UrlContext) (r : SndRcv Bytes)
    → IsSameTask g.context v
    → Served c p g (with_recv c o p v r)
unfolding with_recv on_recv_one_page
with_recv-Served c o p g v (e_again t) s =
    waits on_recv (record v { recv_data = t }) tt (IsSameTask-recv g v t s)
with_recv-Served c o p g v (e_finish t) s =
    Served-page_analysed c p g (record v { recv_data = t }) _ (IsSameTask-recv g v t s)
      (IsKept-analyse o (record v { recv_data = t }))
with_recv-Served c o p g v (e_err t) s =
    on_broken-Outcome c p g (record v { recv_data = t }) (IsSameTask-recv g v t s)
with_recv-Served c o p g v e_assert s = tt

do_with_recv-Served :
    (c : Conf) (o : Outside) (p : Processor) (g : Watch) (v : UrlContext) (rs : List RecvResult)
    → IsSameTask g.context v
    → Served c p g (do_with_recv c o p v rs)
unfolding do_with_recv
do_with_recv-Served c o p g v rs s =
    with_recv-Served c o p g v (try_recv c.max_page_size v.recv_data rs) s

with_send-Served :
    (c : Conf) (o : Outside) (p : Processor) (g : Watch) (v : UrlContext) (rs : List RecvResult)
    (r : SndRcv ℕ)
    → IsSameTask g.context v
    → Served c p g (with_send c o p v rs r)
unfolding with_send
with_send-Served c o p g v rs (e_again n) s =
    waits on_send (record v { write_len = n }) tt (IsSameTask-send g v n s)
with_send-Served c o p g v rs (e_finish n) s =
    do_with_recv-Served c o p g (record v { write_len = n }) rs (IsSameTask-send g v n s)
with_send-Served c o p g v rs (e_err n) s =
    on_broken-Outcome c p g (record v { write_len = n }) (IsSameTask-send g v n s)
with_send-Served c o p g v rs e_assert s = tt

do_with_send-Served :
    (c : Conf) (o : Outside) (p : Processor) (g : Watch) (v : UrlContext) (ss : List SendResult)
    (rs : List RecvResult)
    → IsSameTask g.context v
    → Served c p g (do_with_send c o p v ss rs)
unfolding do_with_send
do_with_send-Served c o p g v ss rs s =
    with_send-Served c o p g v rs (try_send (length v.request_data) v.write_len ss) s

ready-Served :
    (c : Conf) (o : Outside) (p : Processor) (h : Handler) (u : UrlContext) (ss : List SendResult)
    (rs : List RecvResult)
    → let g : Watch = record { handler = h; context = u } in
      Served c p g (handle c o p g ready ss rs)
unfolding handle
ready-Served c o p on_connected u ss rs =
    let g : Watch = record { handler = on_connected; context = u } in
    if_both (Served c p g) (is_connecting u.status) _ _
      (λ e.
        do_with_send-Served c o p g (record u { status = sending }) ss rs
          (record { url = refl; depth = refl; retry = refl }))
      λ e. stranded refl e
ready-Served c o p on_send u ss rs =
    do_with_send-Served c o p (record { handler = on_send; context = u }) u ss rs (same u)
ready-Served c o p on_recv u ss rs =
    do_with_recv-Served c o p (record { handler = on_recv; context = u }) u rs (same u)

-- Every handler, if it returns, makes exactly one thing of the context of the event: it waits for
-- the next event, goes back to the queue with fewer connections left, goes to the extractor with
-- status `DONE`, fails with `PROTERR`, is given up with `TIMEOUT` after the last retry, or is left
-- behind. The counters and the other contexts change as that outcome says and not otherwise.
pub handle-Outcome :
    (c : Conf) (o : Outside) (p q : Processor) (w : Watch) (f : Flags) (ss : List SendResult)
    (rs : List RecvResult)
    → handle c o p w f ss rs ≡ ran q
    → Outcome c p w q
handle-Outcome c o p q w f ss rs h = subst (Served c p w) h (all f)
  where
    all : (g : Flags) → Served c p w (handle c o p w g ss rs)
    all timed_out = unfold handle in on_broken-Outcome c p w w.context (same w.context)
    all neither = unfold handle in tt
    all ready = ready-Served c o p w.handler w.context ss rs
