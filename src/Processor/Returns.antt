-- ===== src/Processor/Returns.antt =====
-- How a handler could fail to return: the assertions of src/http_processor.cpp and the chunk loop.
use lspider.Common.{
  ℕ, ◌<◌, ◌≡◌, ◌≢◌, ◌⊎◌, inl, inr, refl, Bool-cases, if_both, ltb, ◌++◌, List, [], ◌∷◌, Bytes,
  length, ◌||◌, ◌==◌,
}
use lspider.Context.{UrlContext, sending}
use lspider.Protocol.{Outside, Analysis, ha_ok, ha_fail, unfinished, analyse}
use lspider.Processor.{
  Conf, Handler, Watch, Processor, Run, ran, aborted, hangs, corrupted, Flags, timed_out, ready,
  neither, page_analysed, on_recv_one_page, with_recv, do_with_recv, with_send, do_with_send,
  handle, on_connected, on_send, on_recv, is_connecting,
}
use lspider.Processor.Sockets.{
  SendResult, RecvResult, received, closed, recv_again, recv_broken, SndRcv, e_again, e_finish,
  e_err, e_assert, try_send, try_recv,
}
use lspider.Processor.Transfer.{Takes, Sent, Sent-try_send}

-- The handler returns, unless the chunk loop does not.
abbrev Fine : Run → Type 0
Fine (ran p) = Unit
Fine aborted = ⊥
Fine hangs = Unit
Fine corrupted = ⊥

Fine-page :
    (c : Conf) (p : Processor) (u : UrlContext) (a : Analysis) → Fine (page_analysed c p u a)
unfolding page_analysed
Fine-page c p u (ha_ok v) =
    if_both Fine (v.http_status == 301 || v.http_status == 302) _ _ (λ e. tt) λ e. tt
Fine-page c p u ha_fail = tt
Fine-page c p u unfinished = tt

-- `try_recv` has no assertion.
abbrev Received : SndRcv Bytes → Type 0
Received (e_again s) = Unit
Received (e_finish s) = Unit
Received (e_err s) = Unit
Received e_assert = ⊥

Received-try_recv : (n : ℕ) (s : Bytes) (rs : List RecvResult) → Received (try_recv n s rs)
unfolding try_recv
Received-try_recv n s [] = tt
Received-try_recv n s (received t ∷ rs) = elim (Bool-cases (ltb n (length t))) [
  | inl e ↦ rw (e, Received, try_recv) tt
  | inr e ↦ rw (try_recv, e) (Received-try_recv n (s ++ t) rs)
]
Received-try_recv n s (closed ∷ rs) = tt
Received-try_recv n s (recv_again ∷ rs) = tt
Received-try_recv n s (recv_broken ∷ rs) = tt

Fine-with_recv :
    (c : Conf) (o : Outside) (p : Processor) (u : UrlContext) (r : SndRcv Bytes)
    → Received r
    → Fine (with_recv c o p u r)
unfolding with_recv on_recv_one_page
Fine-with_recv c o p u (e_again s) h = tt
Fine-with_recv c o p u (e_finish s) h =
    Fine-page c p (record u { recv_data = s }) (analyse o (record u { recv_data = s }))
Fine-with_recv c o p u (e_err s) h = tt
Fine-with_recv c o p u e_assert h = h

Fine-recv :
    (c : Conf) (o : Outside) (p : Processor) (u : UrlContext) (rs : List RecvResult)
    → Fine (do_with_recv c o p u rs)
unfolding do_with_recv
Fine-recv c o p u rs =
    Fine-with_recv c o p u (try_recv c.max_page_size u.recv_data rs)
      (Received-try_recv c.max_page_size u.recv_data rs)

Fine-with_send :
    (c : Conf) (o : Outside) (p : Processor) (u : UrlContext) (rs : List RecvResult) (r : SndRcv ℕ)
    → Sent (length u.request_data) u.write_len r
    → Fine (with_send c o p u rs r)
unfolding with_send
Fine-with_send c o p u rs (e_again n) h = tt
Fine-with_send c o p u rs (e_finish n) h = Fine-recv c o p (record u { write_len = n }) rs
Fine-with_send c o p u rs (e_err n) h = tt
Fine-with_send c o p u rs e_assert h = h

Fine-send :
    (c : Conf) (o : Outside) (p : Processor) (u : UrlContext) (ss : List SendResult)
    (rs : List RecvResult)
    → u.write_len < length u.request_data
    → Takes (length u.request_data) u.write_len ss
    → Fine (do_with_send c o p u ss rs)
unfolding do_with_send
Fine-send c o p u ss rs h t =
    Fine-with_send c o p u rs (try_send (length u.request_data) u.write_len ss)
      (Sent-try_send (length u.request_data) u.write_len ss h t)

-- What is left of the request, while a handler sends: behind `on_recv` all of it was sent.
abbrev pub Unsent : Handler → UrlContext → Type 0
Unsent on_connected u = u.write_len < length u.request_data
Unsent on_send u = u.write_len < length u.request_data
Unsent on_recv u = Unit

-- What `send` may take, while a handler sends.
abbrev pub TakesFor : Handler → UrlContext → List SendResult → Type 0
TakesFor on_connected u ss = Takes (length u.request_data) u.write_len ss
TakesFor on_send u ss = Takes (length u.request_data) u.write_len ss
TakesFor on_recv u ss = Unit

Fine-ready :
    (c : Conf) (o : Outside) (p : Processor) (h : Handler) (u : UrlContext) (ss : List SendResult)
    (rs : List RecvResult)
    → Unsent h u
    → TakesFor h u ss
    → Fine (handle c o p (record { handler = h; context = u }) ready ss rs)
unfolding handle
Fine-ready c o p on_connected u ss rs l t =
    if_both Fine (is_connecting u.status) _ _
      (λ e. Fine-send c o p (record u { status = sending }) ss rs l t) λ e. tt
Fine-ready c o p on_send u ss rs l t = Fine-send c o p u ss rs l t
Fine-ready c o p on_recv u ss rs l t = Fine-recv c o p u rs

Fine-cases : (r : Run) → Fine r → ((q : Processor) × (r ≡ ran q)) ⊎ (r ≡ hangs)
Fine-cases (ran q) h = inl (q, refl)
Fine-cases aborted h = absurd h
Fine-cases hangs h = inr refl
Fine-cases corrupted h = absurd h

-- The handler of an event with a flag set neither aborts nor fails its assertion: it returns, or is
-- held up by the chunk loop. For `on_connected` and `on_send` a part of the request is to be still
-- unsent, and `send` to take no more than that; for `on_recv` there is no condition.
pub handle_returns :
    (c : Conf) (o : Outside) (p : Processor) (w : Watch) (f : Flags) (ss : List SendResult)
    (rs : List RecvResult)
    → f ≢ neither
    → Unsent w.handler w.context
    → TakesFor w.handler w.context ss
    → ((q : Processor) × (handle c o p w f ss rs ≡ ran q)) ⊎ (handle c o p w f ss rs ≡ hangs)
unfolding handle
handle_returns c o p w timed_out ss rs n h t = inl (_, refl)
handle_returns c o p w neither ss rs n h t = absurd (n refl)
handle_returns c o p w ready ss rs n h t =
    Fine-cases (handle c o p w ready ss rs) (Fine-ready c o p w.handler w.context ss rs h t)
