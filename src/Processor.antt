-- ===== src/Processor.antt =====
-- `HttpProcessor` of src/http_processor.h and src/http_processor.cpp: contexts wait to be connected,
-- are watched by the event loop while their request and response go over a socket, and end with the
-- extractor, in another round of the queue, or deleted.
pub mod Sockets
pub mod Connect
pub mod Keeps
pub mod Serve
pub mod Count
pub mod Dialled
pub mod Alive
pub mod Reach
pub mod Balance
pub mod Transfer
pub mod Prepared
pub mod Returns
pub mod Tests
use lspider.Common.{
  ℕ, suc, ◌+◌, ◌-◌, Bool, true, false, Option, none, some, List, [], ◌∷◌, ◌++◌, ltb, leb, ◌==◌,
  ◌||◌, ◌^◌, ◌&&◌, if◌then◌else◌, not, length, Bytes, codes, bytes_eq,
}
use lspider.LinkTable.{increment, decrement}
use lspider.Context.{UrlContext, Status, connecting, sending, done, timeout, proterr, init, parse}
use lspider.Protocol.{
  Outside, Analysis, ha_ok, ha_fail, unfinished, analyse, touch, Built, not_parsed, overflow, built,
  build_request,
}
use lspider.Protocol.Text.{split_at, after_prefix}
use lspider.Common.Maps.{find}
use Sockets.{SendResult, RecvResult, SndRcv, e_finish, e_again, e_err, e_assert, try_send, try_recv}

pub record Conf : Type 0 where
  pub max_retry : ℕ
  pub max_redirect_depth : ℕ
  pub max_page_size : ℕ
  pub max_concurrence : ℕ
  pub connect_queue_size : ℕ

-- The callback that the event of a context calls.
pub data Handler : Type 0 where
  on_connected on_send on_recv : Handler

pub record Watch : Type 0 where
  pub handler : Handler
  pub context : UrlContext

-- `failed` holds the contexts that were deleted after `crawlretry` was raised in the database,
-- `dropped` those deleted with no trace, `leaked` those deleted while their socket was open, and
-- `stuck` those that nothing refers to any more. The extractor takes its contexts from `extracting`,
-- which here keeps them.
pub record Processor : Type 0 where
  pub conc_count : ℕ
  pub proc_finish_count : ℕ
  pub waiting : List UrlContext
  pub watched : List Watch
  pub extracting : List UrlContext
  pub failed : List UrlContext
  pub dropped : List UrlContext
  pub leaked : List UrlContext
  pub stuck : List UrlContext

-- A handler returns, calls `abort` (or fails an `assert`), does not come back from the chunk loop,
-- or writes behind the request buffer, or sends what is there.
pub data Run : Type 0 where
  ran : Processor → Run
  aborted : Run
  hangs : Run
  corrupted : Run

abbrev pub watch : Handler → UrlContext → Processor → Processor
watch h u p = record p { watched = p.watched ++ record { handler = h; context = u } ∷ [] }

abbrev pub enqueue : UrlContext → Processor → Processor
enqueue u p = record p { waiting = p.waiting ++ u ∷ [] }

abbrev pub lower_count : Processor → Processor
lower_count p = record p { conc_count = decrement p.conc_count }

abbrev is_done : Status → Bool
is_done done = true
is_done other = false

-- `doWithCrawlDone`.
unfoldable pub crawl_done : Processor → UrlContext → Processor
crawl_done p u =
    let q =
      if is_done u.status
      then record p { extracting = p.extracting ++ u ∷ [] }
      else record p { failed = p.failed ++ u ∷ [] } in
    record q { conc_count = decrement q.conc_count; proc_finish_count = q.proc_finish_count + 1 }

abbrev or_empty : Option Bytes → Bytes
or_empty none = []
or_empty (some v) = v

-- The redirection's address; one without `://` is taken as a path of the host.
unfoldable pub redirect_target : UrlContext → Bytes
redirect_target u =
    let location = or_empty (find (codes "location") u.fields) in
    elim (split_at (codes "://") location) [
      | none ↦ if bytes_eq location [] then [] else codes "http://" ++ (u.host ++ b'/' ∷ location)
      | some cut ↦ location
    ]

abbrev pub redirected : UrlContext → UrlContext
redirected u = record u {
  fields = touch (codes "location") u.fields;
  redirect_url = redirect_target u;
}

-- `doWithRedirect`; when there is no further redirection the context fails with `PROTERR`, as
-- `onRecvOnePage` says.
unfoldable pub redirect : Conf → Processor → UrlContext → Processor
redirect c p u =
    if not (bytes_eq (redirect_target u) []) && ltb u.redirect_depth c.max_redirect_depth
    then lower_count
        (enqueue (init (record (redirected u) { redirect_depth = u.redirect_depth + 1 })) p)
    else crawl_done p (record (redirected u) { status = proterr })

-- `onRecvOnePage`, with the result of `analyse`.
unfoldable pub page_analysed : Conf → Processor → UrlContext → Analysis → Run
page_analysed c p u (ha_ok v) =
    if v.http_status == 301 || v.http_status == 302
    then ran (redirect c p v)
    else ran (crawl_done p (record v { status = (if v.http_status == 404 then proterr else done) }))
page_analysed c p u ha_fail = ran (crawl_done p (record u { status = proterr }))
page_analysed c p u unfinished = hangs

unfoldable pub on_recv_one_page : Conf → Outside → Processor → UrlContext → Run
on_recv_one_page c o p u = page_analysed c p u (analyse o u)

-- `onTimeout`.
unfoldable pub on_timeout : Conf → Processor → UrlContext → Processor
on_timeout c p u =
    let v = record u { retry = u.retry + 1 } in
    if ltb v.retry c.max_retry
    then enqueue (init v) p
    else crawl_done p (record v { status = timeout; recv_data = [] })

-- `onBroken`, and `doWithSockTimeout`, which closes the socket and does the same.
unfoldable pub on_broken : Conf → Processor → UrlContext → Processor
on_broken c p u = on_timeout c (lower_count p) u

-- `doWithRecv`.
unfoldable pub with_recv : Conf → Outside → Processor → UrlContext → SndRcv Bytes → Run
with_recv c o p u (e_again s) = ran (watch on_recv (record u { recv_data = s }) p)
with_recv c o p u (e_finish s) = on_recv_one_page c o p (record u { recv_data = s })
with_recv c o p u (e_err s) = ran (on_broken c p (record u { recv_data = s }))
with_recv c o p u e_assert = aborted

unfoldable pub do_with_recv : Conf → Outside → Processor → UrlContext → List RecvResult → Run
do_with_recv c o p u rs = with_recv c o p u (try_recv c.max_page_size u.recv_data rs)

-- `doWithSend`.
unfoldable pub with_send :
    Conf → Outside → Processor → UrlContext → List RecvResult → SndRcv ℕ → Run
with_send c o p u rs (e_again n) = ran (watch on_send (record u { write_len = n }) p)
with_send c o p u rs (e_finish n) = do_with_recv c o p (record u { write_len = n }) rs
with_send c o p u rs (e_err n) = ran (on_broken c p (record u { write_len = n }))
with_send c o p u rs e_assert = aborted

unfoldable pub do_with_send :
    Conf → Outside → Processor → UrlContext → List SendResult → List RecvResult → Run
do_with_send c o p u ss rs = with_send c o p u rs (try_send (length u.request_data) u.write_len ss)

-- The flags of an event; a timeout is tested first.
pub data Flags : Type 0 where
  timed_out ready neither : Flags

abbrev pub is_connecting : Status → Bool
is_connecting connecting = true
is_connecting other = false

-- `on_connected`, `on_send` and `on_recv`. The event of the context is no longer pending: the events
-- are not persistent.
unfoldable pub handle :
    Conf → Outside → Processor → Watch → Flags → List SendResult → List RecvResult → Run
handle c o p w timed_out ss rs = ran (on_broken c p w.context)
handle c o p w neither ss rs = aborted
handle c o p w ready ss rs = elim w.handler [
  | on_connected ↦
      if is_connecting w.context.status
      then do_with_send c o p (record (w.context) { status = sending }) ss rs
      else ran (record p { stuck = p.stuck ++ w.context ∷ [] })
  | on_send ↦ do_with_send c o p w.context ss rs
  | on_recv ↦ do_with_recv c o p w.context rs
]
