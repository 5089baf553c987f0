-- ===== src/Processor/Prepared.antt =====
-- The request that `connect` of src/http_processor.cpp builds for a context.
use lspider.Common.{
  ℕ, ◌≤◌, ◌<◌, ◌≡◌, ◌≢◌, ◌⊎◌, inl, inr, ap, ◌∙◌, true, false, Option, some, List, [], arith, length,
  Bytes, bytes_eq_iff, Option-cases, subst,
}
use lspider.Context.{UrlContext, parse, first_parse, redirect_parse}
use lspider.Context.Parsing.{IsReady, parse-IsReady}
use lspider.Protocol.{request_text, build_request, built, max_head_len}
use lspider.Protocol.Request.{build_request-by_length, max_cookie, request_fits}
use lspider.Processor.Connect.{serv_addr}

same_some : (u v : UrlContext) → ◌≡◌ {A = Option UrlContext} (some u) (some v) → u ≡ v
same_some u v e = cc

parse-again :
    (resolve : Bytes → List Bytes) (random : ℕ) (u v : UrlContext)
    → u.has_parsed ≡ true
    → parse resolve random u ≡ some v
    → u ≡ v
unfolding parse
parse-again resolve random u v f h = same_some u v (ground (arith, f))

-- A context that `addUrl` has parsed, or that is parsed now.
parse-Ready :
    (resolve : Bytes → List Bytes) (random : ℕ) (u v : UrlContext)
    → (u.has_parsed ≡ false) ⊎ IsReady u
    → parse resolve random u ≡ some v
    → IsReady v
parse-Ready resolve random u v (inl f) h = parse-IsReady resolve random u v f h
parse-Ready resolve random u v (inr r) h =
    subst IsReady (parse-again resolve random u v r.flagged h) r

parse-cookie :
    (resolve : Bytes → List Bytes) (random : ℕ) (u v : UrlContext)
    → parse resolve random u ≡ some v
    → v.cookie ≡ u.cookie
unfolding parse first_parse redirect_parse
parse-cookie resolve random u v h = ground arith

-- The address is the parsed context, with the port 80 where the URL names none or that one.
record IsAddress (w v : UrlContext) : Type 0 where
  host : v.host ≡ w.host
  file : v.file ≡ w.file
  cookie : v.cookie ≡ w.cookie
  port : v.strport ≢ []

serv_addr-parse :
    (resolve : Bytes → List Bytes) (random : ℕ) (u v : UrlContext)
    → serv_addr resolve random u ≡ some v
    → (w : UrlContext) × (parse resolve random u ≡ some w) × IsAddress w v
unfolding serv_addr
serv_addr-parse resolve random u v h = elim (Option-cases (parse resolve random u)) [
  | inl e ↦ absurd (ground (arith, e))
  | inr (w, e) ↦ (w, e, ground (arith, e, bytes_eq_iff w.strport []))
]

-- The request of any context that was parsed, or can be, fits its buffer if its host has a name and
-- its cookie at most 6560 bytes: the calls of `snprintf` together leave the whole text, which is
-- shorter than the buffer. The port may be the default one.
pub serv_addr-build_request :
    (resolve : Bytes → List Bytes) (random : ℕ) (u v : UrlContext)
    → (u.has_parsed ≡ false) ⊎ IsReady u
    → serv_addr resolve random u ≡ some v
    → v.host ≢ []
    → length u.cookie ≤ max_cookie
    → (build_request v ≡ built (record v { request_data = request_text v }))
      × (length (request_text v) < max_head_len)
serv_addr-build_request resolve random u v r h n k =
    let (w, e, a) = serv_addr-parse resolve random u v h in
    let p = (parse-Ready resolve random u w r e).sound in
    let fits =
      request_fits v
        (omega (arith, p.path, p.fits, ap (length {A = ℕ}) a.host, ap (length {A = ℕ}) a.file))
        (omega (
          arith,
          k,
          ap (length {A = ℕ}) a.cookie,
          ap (length {A = ℕ}) (parse-cookie resolve random u w e),
        )) in
    (build_request-by_length v n a.port ∙ ground (arith, fits), fits)
