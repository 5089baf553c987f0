-- ===== src/Context.antt =====
-- `UrlContext` of src/url_context.h and src/url_context.cpp: the state of one URL on its way through
-- the spider. Left out are the uuid, the clocks, the pointers to the event loop and the links of the
-- intrusive queue.
pub mod Parsing
pub mod Tests
use lspider.Common.{
  ℕ, zero, ◌+◌, ◌%◌, Bool, true, false, Option, none, some, List, [], ◌∷◌, ◌==◌, if◌then◌else◌,
  length, get_or, Bytes,
}
use lspider.Url.Parse.{UrlParts, parse_url, all_parts}

-- `StatusType`.
pub data Status : Type 0 where
  connecting sending recving done timeout proterr deleted : Status

-- `none` stands for the -1 of a position that is not known yet.
pub record UrlContext : Type 0 where
  pub url : Bytes
  pub link_depth : ℕ
  pub hub : Bool
  pub host : Bytes
  pub strport : Bytes
  pub file : Bytes
  pub ip : Bytes
  pub site : Bytes
  pub has_parsed : Bool
  pub sign : Bytes
  pub redirect_url : Bytes
  pub redirect_depth : ℕ
  pub retry : ℕ
  pub status : Status
  pub request_data : Bytes
  pub write_len : ℕ
  pub recv_data : Bytes
  pub first_line_len : Option ℕ
  pub header_len : Option ℕ
  pub body_pos : Option ℕ
  pub http_version : Bytes
  pub http_status : ℕ
  pub http_reason : Bytes
  pub fields : List (Bytes × Bytes)
  pub header : Bytes
  pub body : Bytes
  pub cookie : Bytes
  pub finish_first_line : Bool
  pub finish_header : Bool
  pub finish_body : Bool

-- `init`: what a new connection starts from. The URL, its depth, the site, the redirection, the
-- retries, the cookie and the last response's values stay.
unfoldable pub init : UrlContext → UrlContext
init u = record u {
  host = [];
  strport = [];
  file = [];
  ip = [];
  has_parsed = false;
  status = connecting;
  request_data = [];
  write_len = 0;
  recv_data = [];
  first_line_len = none;
  header_len = none;
  body_pos = none;
  fields = [];
  finish_first_line = false;
  finish_header = false;
  finish_body = false;
}

-- A new context, as `MySqlSelector::select` and `CrawlListenHandler::request` fill it in.
unfoldable pub new_context : Bytes → ℕ → Bool → Bytes → UrlContext
new_context url depth hub sign = record {
  url = url;
  link_depth = depth;
  hub = hub;
  host = [];
  strport = [];
  file = [];
  ip = [];
  site = [];
  has_parsed = false;
  sign = sign;
  redirect_url = [];
  redirect_depth = 0;
  retry = 0;
  status = connecting;
  request_data = [];
  write_len = 0;
  recv_data = [];
  first_line_len = none;
  header_len = none;
  body_pos = none;
  http_version = [];
  http_status = 0;
  http_reason = [];
  fields = [];
  header = [];
  body = [];
  cookie = [];
  finish_first_line = false;
  finish_header = false;
  finish_body = false;
}

-- One of the addresses of a host, `ips[rand() % ipsSize]`, or the address so far.
unfoldable pub pick_ip : List Bytes → ℕ → Bytes → Bytes
pick_ip [] random old = old
pick_ip (i ∷ is) random old = get_or (i ∷ is) (random % length (i ∷ is)) old

abbrev with_parts : UrlContext → UrlParts → UrlContext
with_parts u p = record u { host = p.site; strport = p.port; file = p.path }

-- A context is parsed once it has an address.
abbrev parsed_if_ip : UrlContext → Bytes → Option UrlContext
parsed_if_ip u [] = none
parsed_if_ip u (c ∷ s) = some (record u { ip = c ∷ s; has_parsed = true })

unfoldable pub first_parse :
    (Bytes → List Bytes) → ℕ → UrlContext → Option UrlParts → Option UrlContext
first_parse resolve random u none = none
first_parse resolve random u (some p) =
    parsed_if_ip (record (with_parts u p) { site = p.site })
      (elim u.ip [ [] ↦ pick_ip (resolve p.site) random [] | c ∷ s ↦ c ∷ s ])

-- The caller, `connect`, has the assertion that the site of a redirected context is not empty.
unfoldable pub redirect_parse :
    (Bytes → List Bytes) → ℕ → UrlContext → Option UrlParts → Option UrlContext
redirect_parse resolve random u none = none
redirect_parse resolve random u (some p) =
    parsed_if_ip (with_parts u p) (pick_ip (resolve p.site) random u.ip)

-- `parseUrl`. `resolve` is `getip`, the addresses that the system's resolver gives, and `random` the
-- result of `rand`. `none` is a return of false: the callers then delete the context.
unfoldable pub parse : (Bytes → List Bytes) → ℕ → UrlContext → Option UrlContext
parse resolve random u =
    if u.has_parsed
    then some u
    else if u.redirect_depth == 0
    then first_parse resolve random u (parse_url all_parts u.url)
    else redirect_parse resolve random u (parse_url all_parts u.redirect_url)
