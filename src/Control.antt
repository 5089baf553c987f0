-- ===== src/Control.antt =====
-- What reaches the spider from outside: the requests of src/crawl_listen_handler.cpp and
-- src/request_recv.cpp, the commands of src/cmd_ctrler.cpp with the handlers that src/main.cpp
-- registers, and the list of main domains of src/conf.cpp.
pub mod Requests
pub mod Commands
pub mod Tests
use lspider.Common.{
  ℕ, zero, suc, Bool, true, false, Option, none, some, List, [], ◌∷◌, ◌++◌, ◌||◌, if◌then◌else◌,
  Bytes, codes, bytes_eq, take, ◌-◌,
}
use lspider.Common.Decimal.{decimal}
use lspider.Common.Maps.{find, put}
use lspider.Context.{UrlContext, new_context}
use lspider.LinkTable.{increment}
use lspider.Processor.{Processor, Conf}
use lspider.Processor.Connect.{push_connect_queue}
use lspider.Protocol.Text.{words, lines, ltrim, rtrim}
use lspider.Url.Parse.{max_url_len}
use lspider.Url.Normalize.{normalize_url}
use lspider.Url.Sign.{get_url_sign64}
use lspider.Store.Dumper.{max_sign_len}

-- `IUrl` of the service.
pub record Request : Type 0 where
  pub str : Bytes
  pub hub : Bool

-- `RequestRecv`, with the processor that the requests are pushed to.
pub record RequestRecv : Type 0 where
  pub request_count : ℕ
  pub processor : Processor

-- The context of a request.
unfoldable pub requested : Request → UrlContext
requested r =
    let url : Bytes = elim (normalize_url r.str max_url_len) [
      | some t ↦ codes "http://" ++ t
      | none ↦ r.str
    ] in
    new_context url 0 r.hub (take (max_sign_len - 1) (decimal (get_url_sign64 r.str)))

abbrev with_processor : RequestRecv → Option Processor → Option RequestRecv
with_processor q none = none
with_processor q (some p) = some (record q { processor = p })

-- `CrawlListenHandler::request`; `none` while `pushConnectQueue` waits for room.
unfoldable pub request : Conf → Request → RequestRecv → Option RequestRecv
request c r q =
    with_processor (record q { request_count = increment q.request_count })
      (push_connect_queue c (requested r) q.processor)

-- What a command leaves in the response: a text, what was there, or a call of a null handler.
pub data Answer : Type 0 where
  responded : Bytes → Answer
  silent null_called : Answer

-- `Controllable::control` of a part, which may leave the response alone.
abbrev pub Controllable : Type 0
Controllable = Bytes → Option Bytes

abbrev pub Handlers : Type 0
Handlers = List (Bytes × Controllable)

unfoldable pub add_handler : Bytes → Controllable → Handlers → Handlers
add_handler name h handlers = put name h handlers

abbrev pub answer_of : Option Bytes → Answer
answer_of none = silent
answer_of (some s) = responded s

-- `_handlers[name]->control(...)`, where a missing name gives a null pointer.
abbrev pub call_handler : Option Controllable → Bytes → Answer
call_handler none cmd = null_called
call_handler (some h) cmd = answer_of (h cmd)

abbrev pub part_names : List Bytes
part_names =
    codes "RequestRecv"
    ∷ codes "MySqlSelector"
    ∷ codes "HttpProcessor"
    ∷ codes "LinkScheduler"
    ∷ codes "MongoDumper"
    ∷ codes "MySqlDumper"
    ∷ codes "Extractor"
    ∷ []

abbrev pub is_part : List Bytes → Bytes → Bool
is_part [] name = false
is_part (n ∷ ns) name = bytes_eq n name || is_part ns name

abbrev pub word_at : ℕ → List Bytes → Bytes
word_at n [] = []
word_at zero (w ∷ ws) = w
word_at (suc n) (w ∷ ws) = word_at n ws

abbrev pub usage : Bytes
usage =
    codes
      "must specific modle: RequestRecv|MySqlSelector|HttpProcessor|LinkScheduler|MongoDumper|MySqlDumper|Extractor"

unfoldable pub show_part : Handlers → Bytes → Bytes → Answer
show_part handlers name cmd =
    if is_part part_names name then call_handler (find name handlers) cmd else responded usage

-- `CmdCtrler::control` on the words of the command.
unfoldable pub control_words : Handlers → Bytes → Bytes → Bytes → Answer
control_words handlers level1 level2 level3 =
    if bytes_eq level1 (codes "help")
    then (if bytes_eq level2 [] then responded (codes "command: help|show") else silent)
    else if bytes_eq level1 (codes "show")
    then show_part handlers level2 level3
    else silent

unfoldable pub control : Handlers → Bytes → Answer
control handlers cmd =
    let ws = words [] cmd in control_words handlers (word_at 0 ws) (word_at 1 ws) (word_at 2 ws)

-- The handlers that `main` adds.
unfoldable pub main_handlers : (Bytes → Controllable) → Handlers
main_handlers part = add_handler (codes "Extractor") (part (codes "Extractor")) (
    add_handler (codes "MySqlDumper") (part (codes "MySqlDumper")) (
      add_handler (codes "MongoDumper") (part (codes "MongoDumper")) (
        add_handler (codes "LinkScheduler") (part (codes "LinkScheduler")) (
          add_handler (codes "HttpProcessor") (part (codes "HttpProcessor")) (
            add_handler (codes "MySqlSelector") (part (codes "MySqlSelector"))
              (add_handler (codes "RequestRecv") (part (codes "RequestRecv")) []))))))

-- `Conf::loadMaindomainList` of a file's text, and whether it found a main domain.
unfoldable pub kept_lines : List Bytes → List Bytes
kept_lines [] = []
kept_lines (l ∷ ls) =
    let rest = kept_lines ls in let t = ltrim (rtrim l) in if bytes_eq t [] then rest else t ∷ rest

unfoldable pub load_maindomain_list : Bytes → Bool × List Bytes
load_maindomain_list text = elim (kept_lines (lines [] text)) [
  | [] ↦ (false, [])
  | d ∷ ds ↦ (true, d ∷ ds)
]
