-- ===== src/Processor/Tests.antt =====
-- The processor on small inputs, and the hypotheses of its theorems.
use lspider.Common.{
  inl, sym, ◌<◌, ◌∙◌, ℕ, some, if◌then◌else◌, bytes_eq, ◌≢◌, ◌⊎◌, ◌+◌, ◌≤◌, ◌*◌, ◌%◌, ◌≡◌, refl,
  true, false, none, List, [], ◌∷◌, ◌++◌, arith, Bytes, codes, length, map,
}
use lspider.LinkTable.{word, increment, decrement}
use lspider.Context.{UrlContext, init, new_context, parse, first_parse, pick_ip}
use lspider.Url.Chars.{lfcr}
use lspider.Url.Parse.{
  parse_url, parse_parts, split_at, cut_at, delete_inter, after_nocase, atoi, checked_port,
  copy_part, digits_value, is_digit, port_at, signed_value, strip_dots, to_lower, strchr,
  split_path, split_port, site_part, skip_scheme,
}
use lspider.Protocol.Text
use lspider.Protocol.Text.{status_int, after_prefix, words, rtrim, lines, lower, ltrim}
use lspider.Common.Maps.{find, put, insert, bytes_lt}
use lspider.Protocol.{
  Outside, analyse, analyse_first_line, analyse_header, analyse_body, analyse_cookie, with_words,
  reason_of, add_fields, add_field, touch, build_request, print_all, print, built, request_text,
  max_head_len,
}
use lspider.Processor.{
  Conf, Watch, Processor, ran, on_recv, on_send, neither, hangs, ready, do_with_recv, with_recv,
  on_recv_one_page, page_analysed, redirect, redirect_target, handle, enqueue,
}
use lspider.Processor.Connect.{
  dialling, run_once, run_round, connect, connect_to, dial, serv_addr, push_connect_queue,
  empty_processor,
}
use lspider.Processor.Sockets.{sent, send_again, received, closed, try_send, try_recv, e_finish}
use lspider.Processor.Serve.{Outcome, handle-Outcome}
use lspider.Processor.Count.{held, potential}
use lspider.Processor.Reach.{
  Reach, start, pushed, tried, Reach-held, Reach-potential, per_url, IsFresh, new_context-IsFresh,
  parse-IsFresh,
}
use lspider.Processor.Balance.{Reach-Balanced, given_up_count}
use lspider.Processor.Prepared.{serv_addr-build_request}
use lspider.Processor.Returns.{handle_returns}
use lspider.Processor.Transfer.{Sent, Sent-try_send, try_recv_joins}

abbrev conf : Conf
conf = record {
  max_retry = 2;
  max_redirect_depth = 1;
  max_page_size = 2000;
  max_concurrence = 10;
  connect_queue_size = 10;
}

abbrev outside : Outside
outside = record { fuel = 10; garbage = 0; gunzip = λ b. none }

abbrev one_address : Bytes → List Bytes
one_address host = codes "1.2.3.4" ∷ []

abbrev page : UrlContext
page = new_context (codes "http://a.com/x") 0 false (codes "7")

abbrev queued : Processor
queued = enqueue page empty_processor

begun : (q : Processor) × (run_once conf one_address 0 dialling queued ≡ ran q) × (q.waiting ≡ [])
unfolding run_once run_round connect connect_to serv_addr after_prefix new_context parse first_parse
    parse_url parse_parts split_path split_at cut_at strchr skip_scheme delete_inter pick_ip
    increment dial build_request print_all print lfcr after_nocase atoi checked_port copy_part
    digits_value is_digit port_at signed_value site_part split_port strip_dots to_lower
begun = (_, refl, refl)

abbrev moved : Bytes
moved = codes "HTTP/1.1 301 Moved\r\nLocation: http://b.com/\r\n\r\n"

-- The context of the event, as it was before the response came.
abbrev asked : UrlContext
asked = record page { host = codes "a.com"; has_parsed = true }

abbrev asking : Watch
asking = record { handler = on_recv; context = asked }

followed :
    (q : Processor) × (handle conf outside empty_processor asking ready []
        (received moved ∷ closed ∷ [])
      ≡ ran q)
    × (map (λ u. u.redirect_url) q.waiting ≡ codes "http://b.com/" ∷ [])
unfolding handle do_with_recv with_recv try_recv on_recv_one_page page_analysed analyse new_context
    analyse_first_line analyse_header analyse_body analyse_cookie Text.split_at after_prefix words
    status_int digits_value is_digit redirect redirect_target init with_words reason_of rtrim
    add_fields add_field lines lower ltrim find put insert bytes_lt touch decrement strchr to_lower
followed = (_, refl, refl)

Sent-try_send_example : Sent 10 0 (try_send 10 0 (sent 4 ∷ send_again ∷ []))
Sent-try_send_example =
    Sent-try_send 10 0 (sent 4 ∷ send_again ∷ []) (omega arith) (omega arith, tt)

try_recv_joins_example :
    try_recv 5 [] (map received (codes "abc" ∷ codes "defg" ∷ []) ++ closed ∷ [])
    ≡ e_finish (codes "abcdefg")
try_recv_joins_example =
    try_recv_joins 5 [] (codes "abc" ∷ codes "defg" ∷ []) [] (omega arith, (omega arith, tt))

begun_page : (v : UrlContext) × (serv_addr one_address 0 page ≡ some v) × (v.host ≡ codes "a.com")
unfolding serv_addr after_prefix new_context parse first_parse parse_url parse_parts split_path
    split_at cut_at strchr skip_scheme delete_inter pick_ip lfcr after_nocase atoi checked_port
    copy_part digits_value is_digit port_at signed_value site_part split_port strip_dots to_lower
begun_page = (_, refl, refl)

not_nil : {c : ℕ} {s : Bytes} → (c ∷ s) ≢ []
not_nil = cc

serv_addr-build_request_example :
    (build_request begun_page.0
      ≡ built (record (begun_page.0) { request_data = request_text begun_page.0 }))
    × (length (request_text begun_page.0) < max_head_len)
unfolding new_context
serv_addr-build_request_example =
    serv_addr-build_request one_address 0 page begun_page.0 (inl refl) begun_page.1
      (λ e. not_nil (sym begun_page.2 ∙ e)) (omega arith)

handle-Outcome_example : Outcome conf empty_processor asking followed.0
handle-Outcome_example =
    handle-Outcome conf outside empty_processor followed.0 asking ready []
      (received moved ∷ closed ∷ []) followed.1

-- The listener pushes a context as it is, a timer one that `addUrl` has parsed.
page_parsed : (u : UrlContext) × (parse one_address 0 page ≡ some u) × (u.url ≡ page.url)
unfolding new_context parse first_parse parse_url parse_parts split_path split_at cut_at strchr
    skip_scheme delete_inter pick_ip lfcr after_nocase atoi checked_port copy_part digits_value
    is_digit port_at signed_value site_part split_port strip_dots to_lower
page_parsed = (_, refl, refl)

page-IsFresh : IsFresh page
page-IsFresh = new_context-IsFresh (codes "http://a.com/x") 0 false (codes "7")

pushed_one : Reach conf outside (page.url ∷ []) 0 queued
unfolding push_connect_queue
pushed_one = pushed page page-IsFresh start refl

tried_one : Reach conf outside (page.url ∷ []) 1 begun.0
tried_one = tried one_address 0 dialling page [] pushed_one refl refl begun.1

scheduled : (q : Processor) × (push_connect_queue conf page_parsed.0 begun.0 ≡ some q)
unfolding push_connect_queue
scheduled = (enqueue page_parsed.0 begun.0, ground (arith, begun.2))

pushed_two : Reach conf outside (page_parsed.0.url ∷ page.url ∷ []) 1 scheduled.0
pushed_two =
    pushed page_parsed.0 (parse-IsFresh one_address 0 page page_parsed.0 page_parsed.1 page-IsFresh)
      tried_one scheduled.1

abbrev only : Bytes → Bytes → ℕ
only x y = if bytes_eq x y then 1 else 0

Reach-held_example :
    (held (only page.url) scheduled.0
      ≡ only page.url page_parsed.0.url + (only page.url page.url + 0))
    × (scheduled.0.stuck ≡ [])
Reach-held_example = Reach-held conf outside (only page.url) pushed_two

Reach-potential_example :
    1 + potential conf scheduled.0
    ≤ length (page_parsed.0.url ∷ page.url ∷ []) * per_url conf outside
Reach-potential_example = Reach-potential conf outside pushed_two

Reach-Balanced_example :
    (scheduled.0.conc_count + given_up_count scheduled.0) % word
    ≡ (length scheduled.0.watched + length scheduled.0.leaked + length scheduled.0.stuck) % word
Reach-Balanced_example = Reach-Balanced conf outside pushed_two

abbrev sending_watch : Watch
sending_watch = record { handler = on_send; context = record page { request_data = codes "GET" } }

not_neither : ready ≢ neither
not_neither = cc

abbrev receiving_watch : Watch
receiving_watch = record { handler = on_recv; context = asked }

handle_returns_example :
    ((q : Processor) × (handle conf outside empty_processor receiving_watch ready []
          (received moved ∷ closed ∷ [])
        ≡ ran q))
    ⊎ (handle conf outside empty_processor receiving_watch ready [] (received moved ∷ closed ∷ [])
        ≡ hangs)
handle_returns_example =
    handle_returns conf outside empty_processor receiving_watch ready []
      (received moved ∷ closed ∷ []) not_neither tt tt

-- The same for an event that sends.
send_returns :
    ((q : Processor) × (handle conf outside empty_processor sending_watch ready
          (sent 1 ∷ send_again ∷ [])
          []
        ≡ ran q))
    ⊎ (handle conf outside empty_processor sending_watch ready (sent 1 ∷ send_again ∷ []) []
        ≡ hangs)
unfolding new_context
send_returns =
    handle_returns conf outside empty_processor sending_watch ready (sent 1 ∷ send_again ∷ []) []
      not_neither (omega arith) (omega arith, tt)
