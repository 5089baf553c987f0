-- ===== src/Control/Tests.antt =====
-- A request to an empty processor, commands, and a list of main domains.
use lspider.Common.{true, some, [], ◌∷◌, ◌≡◌, refl, arith, codes, Bytes}
use lspider.Common.Maps.{find, put, insert, replace, bytes_lt}
use lspider.Context.{UrlContext}
use lspider.LinkTable.{increment}
use lspider.Processor.{Conf, enqueue}
use lspider.Processor.Connect.{empty_processor}
use lspider.Protocol.Text.{words, lines, ltrim, rtrim}
use lspider.Control.{
  Request, RequestRecv, request, responded, control, control_words, show_part, main_handlers,
  add_handler, Controllable, load_maindomain_list, kept_lines,
}
use lspider.Control.Requests.{IsRequested, request-IsRequested}

abbrev conf : Conf
conf = record {
  max_retry = 2;
  max_redirect_depth = 1;
  max_page_size = 2000;
  max_concurrence = 10;
  connect_queue_size = 10;
}

abbrev asked : Request
asked = record { str = codes "http://www.ab.com/"; hub = true }

abbrev receiver : RequestRecv
receiver = record { request_count = 0; processor = empty_processor }

request-IsRequested_example :
    (u : UrlContext) × IsRequested asked u
    × (request conf asked receiver
        ≡ some (record { request_count = increment 0; processor = enqueue u empty_processor }))
request-IsRequested_example = request-IsRequested conf asked receiver (omega arith)

abbrev echo : Bytes → Controllable
echo name cmd = some name

shown : control (main_handlers echo) (codes " show  Extractor ") ≡ responded (codes "Extractor")
unfolding control control_words show_part main_handlers add_handler find put insert replace bytes_lt
    words
shown = refl

two_domains :
    load_maindomain_list (codes "ab.com \n\n cd.com\n")
    ≡ (true, codes "ab.com" ∷ codes "cd.com" ∷ [])
unfolding load_maindomain_list kept_lines lines ltrim rtrim
two_domains = refl
