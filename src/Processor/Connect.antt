-- ===== src/Processor/Connect.antt =====
-- `run`, `connect` and `pushConnectQueue` of src/http_processor.cpp: contexts come into the queue, and
-- out of it to a socket.
use lspider.Common.{
  not, ◌==◌, ℕ, Bool, true, false, Option, none, some, List, [], ◌∷◌, ◌++◌, ltb, ◌||◌, ◌^◌, ◌&&◌,
  if◌then◌else◌, length, Bytes, codes, bytes_eq,
}
use lspider.LinkTable.{increment}
use lspider.Context.{UrlContext, parse}
use lspider.Protocol.{Built, not_parsed, overflow, cut, built, build_request}
use lspider.Protocol.Text.{after_prefix}
use lspider.Processor.{Conf, on_connected, Processor, Run, ran, aborted, corrupted, watch, enqueue}

abbrev pub is_some {ℓ} : {A : Type ℓ} → Option A → Bool
is_some none = false
is_some (some a) = true

abbrev pub is_https : UrlContext → Bool
is_https u =
    is_some (after_prefix (codes "https") u.url)
    || is_some (after_prefix (codes "https") u.redirect_url)

-- `getServAddr`. `ip_aton` returns 0 for a malformed address, which the test for a negative result
-- does not see.
unfoldable pub serv_addr : (Bytes → List Bytes) → ℕ → UrlContext → Option UrlContext
serv_addr resolve random u = if is_https u then none else elim (parse resolve random u) [
  | none ↦ none
  | some v ↦ some (if bytes_eq v.strport [] then record v { strport = codes "80" } else v)
]

-- The assertion of `parseUrl` fails: a redirected context that is not parsed has no site.
abbrev pub site_missing : UrlContext → Bool
site_missing u = not u.has_parsed && (not (u.redirect_depth == 0) && bytes_eq u.site [])

-- What the system answers to `socket` and to `connect`.
pub data Dial : Type 0 where
  no_socket refused dialling : Dial

abbrev pub drop_context : UrlContext → Processor → Processor
drop_context u p = record p { dropped = p.dropped ++ u ∷ [] }

abbrev pub leak_context : UrlContext → Processor → Processor
leak_context u p = record p { leaked = p.leaked ++ u ∷ [] }

abbrev pub raise_count : Processor → Processor
raise_count p = record p { conc_count = increment p.conc_count }

unfoldable pub dial : Processor → UrlContext → Dial → Built → Run
dial p u no_socket b = ran (drop_context u p)
dial p u other not_parsed = ran (leak_context u (raise_count p))
dial p u other overflow = corrupted
dial p u refused cut = ran (leak_context u (raise_count p))
dial p u dialling cut = corrupted
dial p u refused (built v) = ran (leak_context v (raise_count p))
dial p u dialling (built v) = ran (watch on_connected v (raise_count p))

-- `connect`, and `run` for a context that it fails for.
unfoldable pub connect_to : Dial → Processor → UrlContext → Option UrlContext → Run
connect_to d p u none = ran (drop_context u p)
connect_to d p u (some v) = dial p v d (build_request v)

unfoldable pub connect : (Bytes → List Bytes) → ℕ → Dial → Processor → UrlContext → Run
connect resolve random d p u =
    if not (is_https u) && site_missing u
    then aborted
    else connect_to d p u (serv_addr resolve random u)

-- `pushConnectQueue`, which waits while the queue is too long.
unfoldable pub push_connect_queue : Conf → UrlContext → Processor → Option Processor
push_connect_queue c u p =
    if ltb c.connect_queue_size (length p.waiting) then none else some (enqueue u p)

-- `_concCount > max`, of an `int` that may be negative.
abbrev pub too_many : ℕ → ℕ → Bool
too_many n max = ltb max n && ltb n (2 ^ 31)

-- One round of `run`: it waits for a context and until the connections are few enough.
unfoldable pub run_round :
    Conf → (Bytes → List Bytes) → ℕ → Dial → Processor → List UrlContext → Run
run_round c resolve random d p [] = ran p
run_round c resolve random d p (u ∷ us) =
    if too_many p.conc_count c.max_concurrence
    then ran p
    else connect resolve random d (record p { waiting = us }) u

unfoldable pub run_once : Conf → (Bytes → List Bytes) → ℕ → Dial → Processor → Run
run_once c resolve random d p = run_round c resolve random d p p.waiting

abbrev pub empty_processor : Processor
empty_processor = record {
  conc_count = 0;
  proc_finish_count = 0;
  waiting = [];
  watched = [];
  extracting = [];
  failed = [];
  dropped = [];
  leaked = [];
  stuck = [];
}
