-- ===== src/Protocol.antt =====
-- `HttpProtocol` of src/http_protocol.cpp: the request text and the analysis of a response.
pub mod Text
pub mod Chunk
pub mod ChunkLoop
pub mod Request
pub mod Tests
use lspider.Common.{
  ℕ, zero, suc, ◌+◌, ◌-◌, Bool, true, false, Option, none, some, List, [], ◌∷◌, ◌++◌, ◌==◌, ltb,
  ◌||◌, ◌&&◌, if◌then◌else◌, length, take, drop, Bytes, codes, bytes_eq, not,
}
use lspider.Common.Maps.{find, put}
use lspider.Context.{UrlContext}
use lspider.Url.Parse.{strchr}
use Text.{crlf, split_at, ltrim, rtrim, words, lines, lower, status_int}
use Chunk.{chunk_loop, Chunked, joined, bad_format, out_of_fuel}

abbrev pub max_head_len : ℕ
max_head_len = 8192

-- The texts that the calls of `snprintf` print, the last one after those of `request_heads`.
abbrev pub cookie_heads : Bytes → List Bytes
cookie_heads [] = []
cookie_heads (c ∷ s) = (codes "Cookie: " ++ ((c ∷ s) ++ crlf)) ∷ []

abbrev pub request_heads : UrlContext → List Bytes
request_heads u =
    (codes "GET " ++ (u.file ++ codes " HTTP/1.1\r\n"))
    ∷ (codes "Host: " ++ (u.host ++ crlf))
    ∷ codes "Connection: close\r\n"
    ∷ codes "Accept: text/html,application/xhtml+xml,application/xml;q=0.9,image/webp,*/*;q=0.8\r\n"
    ∷ codes "Accept-Encoding: gzip, deflate, sdch\r\n"
    ∷ codes "Accept-Language: zh-CN,zh;q=0.8,en;q=0.6\r\n"
    ∷ codes
        "User-Agent: Mozilla/5.0 (Macintosh; Intel Mac OS X 10_10_2) AppleWebKit/537.36 (KHTML, like Gecko) Chrome/42.0.2311.135 Safari/537.36\r\n"
    ∷ cookie_heads u.cookie

unfoldable pub concat : List Bytes → Bytes
concat [] = []
concat (t ∷ ts) = t ++ concat ts

-- All of the request.
abbrev pub request_text : UrlContext → Bytes
request_text u = concat (request_heads u ++ crlf ∷ [])

-- The buffer up to its terminating zero, and `requestLen`.
pub record Buffer : Type 0 where
  pub text : Bytes
  pub len : ℕ

-- One call of `snprintf(requestData + requestLen, MAX_HEAD_CMD_LEN - requestLen, ...)`, which returns
-- the length of the whole text. With a room of 0 nothing is written. Behind the end the room is a
-- negative number, which as a `size_t` is huge: `none`, the call writes out of bounds.
unfoldable pub print : Bytes → Buffer → Option Buffer
print t b =
    if ltb max_head_len b.len
    then none
    else some
        (record { text = b.text ++ take (max_head_len - 1 - b.len) t; len = b.len + length t })

unfoldable pub print_all : List Bytes → Buffer → Option Buffer
print_all [] b = some b
print_all (t ∷ ts) b = elim (print t b) [ none ↦ none | some d ↦ print_all ts d ]

-- What `buildHttpRequestHeader` does to the buffer. Where the text was `cut` to fit the buffer,
-- `requestLen` reaches behind the text, so that the terminating zero and up to two bytes behind the
-- buffer are sent too.
pub data Built : Type 0 where
  not_parsed : Built
  overflow : Built
  cut : Built
  built : UrlContext → Built

abbrev pub printed : UrlContext → Option Buffer → Built
printed u none = overflow
printed u (some b) =
    if ltb b.len max_head_len then built (record u { request_data = b.text }) else cut

unfoldable pub build_request : UrlContext → Built
build_request u =
    if bytes_eq u.host [] || bytes_eq u.strport []
    then not_parsed
    else printed u (print_all (request_heads u ++ crlf ∷ []) (record { text = []; len = 0 }))

-- `analyseFirstLine`: the line's words are the version, the status and the reason.
unfoldable pub reason_of : List Bytes → Bytes
reason_of [] = []
reason_of (w ∷ ws) = w ++ 32 ∷ reason_of ws

unfoldable pub with_words : UrlContext → List Bytes → UrlContext
unfolding reason_of
with_words u [] = record u { http_status = 0; http_reason = [] }
with_words u (version ∷ []) = record u { http_version = version; http_status = 0; http_reason = [] }
with_words u (version ∷ status ∷ reason) = record u {
  http_version = version;
  http_status = status_int status;
  http_reason = rtrim (reason_of reason);
}

unfoldable pub analyse_first_line : UrlContext → Option UrlContext
unfolding with_words
analyse_first_line u = elim (split_at crlf u.recv_data) [
  | none ↦ none
  | some (line, rest) ↦ some (record (with_words u (words [] line)) {
    first_line_len = some (length line + 2);
    finish_first_line = true;
  })
]

-- One header line, `key: value`.
unfoldable pub add_field : List (Bytes × Bytes) → Bytes → List (Bytes × Bytes)
add_field fields line = elim (strchr line b':') [
  | none ↦ fields
  | some i ↦ put (lower (rtrim (ltrim (take i line)))) (rtrim (ltrim (drop (suc i) line))) fields
]

unfoldable pub add_fields : List (Bytes × Bytes) → List Bytes → List (Bytes × Bytes)
unfolding add_field
add_fields fields [] = fields
add_fields fields (l ∷ ls) = add_fields (add_field fields l) ls

abbrev or_old : Option Bytes → Bytes → Bytes
or_old none old = old
or_old (some v) old = v

abbrev pub from_some : Option ℕ → ℕ
from_some none = 0
from_some (some n) = n

-- `analyseCookie`.
unfoldable pub analyse_cookie : UrlContext → UrlContext
analyse_cookie u = record u { cookie = or_old (find (codes "set-cookie") u.fields) u.cookie }

-- `analyseHeader`, from the end of the first line on.
unfoldable pub analyse_header : UrlContext → Option UrlContext
unfolding add_fields analyse_cookie
analyse_header u =
    let start = from_some u.first_line_len in
    elim (split_at (crlf ++ crlf) (drop start u.recv_data)) [
      | none ↦ none
      | some (head, rest) ↦
          some
            (record (analyse_cookie (record u {
              fields = add_fields u.fields (lines [] (head ++ crlf ++ crlf));
              header_len = some (start + length head);
              header = take (start + length head) u.recv_data;
            })) { finish_header = true })
    ]

-- `fields[key]`, which inserts a missing key.
unfoldable pub touch : Bytes → List (Bytes × Bytes) → List (Bytes × Bytes)
touch key fields = elim (find key fields) [ none ↦ put key [] fields | some v ↦ fields ]

abbrev value_of : Bytes → List (Bytes × Bytes) → Bytes
value_of key fields = or_old (find key fields) []

-- `HARetType`, and a body whose chunks are not read in the rounds given.
pub data Analysis : Type 0 where
  ha_ok : UrlContext → Analysis
  ha_fail : Analysis
  unfinished : Analysis

infixl 5 ◌>>=◌
abbrev pub ◌>>=◌ : Analysis → (UrlContext → Analysis) → Analysis
ha_ok u >>= f = f u
ha_fail >>= f = ha_fail
unfinished >>= f = unfinished

abbrev pub or_fail : Option UrlContext → Analysis
or_fail none = ha_fail
or_fail (some u) = ha_ok u

abbrev pub with_chunks : UrlContext → Chunked → Analysis
with_chunks u (joined out) = ha_ok (record u { body = out })
with_chunks u bad_format = ha_fail
with_chunks u out_of_fuel = unfinished

-- What a module of the model takes from outside: the rounds for the chunks, what an unset variable
-- holds, and `gzdecompress` of src/util.cpp, which calls zlib.
pub record Outside : Type 0 where
  pub fuel : ℕ
  pub garbage : ℕ
  pub gunzip : Bytes → Option Bytes

abbrev pub touched : UrlContext → Bytes → UrlContext
touched u key = record u { fields = touch key u.fields }

-- `analyseChunk`.
unfoldable pub analyse_chunk : Outside → UrlContext → Analysis
unfolding touch
analyse_chunk o u =
    let v = touched u (codes "transfer-encoding") in
    if bytes_eq (value_of (codes "transfer-encoding") u.fields) (codes "chunked")
    then with_chunks v (chunk_loop o.fuel o.garbage u.body 0 [])
    else ha_ok v

unfoldable pub unzip : Outside → UrlContext → Analysis
unfolding touch
unzip o u =
    let v = touched u (codes "content-encoding") in
    if bytes_eq (value_of (codes "content-encoding") u.fields) (codes "gzip")
    then elim (o.gunzip u.body) [ none ↦ ha_fail | some b ↦ ha_ok (record v { body = b }) ]
    else ha_ok v

-- `analyseBody`.
unfoldable pub analyse_body : Outside → UrlContext → Analysis
analyse_body o u =
    let start = from_some u.header_len + 4 in
    let v = record u { body_pos = some start } in
    if not (u.http_status == 200) then ha_ok (record v { body = []; finish_body = true }) else do
      w ← analyse_chunk o (record v { body = drop start u.recv_data })
      x ← unzip o w
      ha_ok (record x { finish_body = true })

abbrev pub unless_done : Bool → (UrlContext → Option UrlContext) → UrlContext → Analysis
unless_done true f u = ha_ok u
unless_done false f u = or_fail (f u)

-- `analyse`.
unfoldable pub analyse : Outside → UrlContext → Analysis
analyse o u = do
  v ← unless_done u.finish_first_line analyse_first_line u
  w ← unless_done v.finish_header analyse_header v
  x ← if w.finish_first_line && w.finish_header then analyse_body o w else ha_ok w
  if x.finish_first_line && (x.finish_header && x.finish_body) then ha_ok x else ha_fail
