-- ===== src/Context/Parsing.antt =====
-- What a parsed context holds.
use lspider.Common.{ℕ, ◌≡◌, ◌≢◌, refl, true, false, Option, none, some, List, [], arith, Bytes}
use lspider.Url.Parse.{UrlParts, parse_url, all_parts}
use lspider.Url.Parse.Parts.{IsParsed, parse_url-IsParsed}
use lspider.Context.{UrlContext, parse, first_parse, redirect_parse}

-- The parts of a context's URL that were parsed last.
abbrev pub parts : UrlContext → UrlParts
parts u = record { site = u.host; port = u.strport; path = u.file }

-- A parsed context has an address and sound parts; one that is not parsed has no parts yet.
pub record IsReady (u : UrlContext) : Type 0 where
  pub flagged : u.has_parsed ≡ true
  pub address : u.ip ≢ []
  pub sound : IsParsed (parts u)

first_parse-IsReady :
    (resolve : Bytes → List Bytes) (random : ℕ) (u : UrlContext) (v : UrlContext)
    (p : Option UrlParts)
    → parse_url all_parts u.url ≡ p
    → first_parse resolve random u p ≡ some v
    → IsReady v
unfolding first_parse
first_parse-IsReady resolve random u v none e h = cc
first_parse-IsReady resolve random u v (some p) e h = ground (arith, parse_url-IsParsed u.url p e)

redirect_parse-IsReady :
    (resolve : Bytes → List Bytes) (random : ℕ) (u : UrlContext) (v : UrlContext)
    (p : Option UrlParts)
    → parse_url all_parts u.redirect_url ≡ p
    → redirect_parse resolve random u p ≡ some v
    → IsReady v
unfolding redirect_parse
redirect_parse-IsReady resolve random u v none e h = cc
redirect_parse-IsReady resolve random u v (some p) e h =
    ground (arith, parse_url-IsParsed u.redirect_url p e)

-- A successful `parseUrl` of a context that was not parsed before, as of one that `init` reset,
-- leaves an address and parts that fit their buffers.
pub parse-IsReady :
    (resolve : Bytes → List Bytes) (random : ℕ) (u v : UrlContext)
    → u.has_parsed ≡ false
    → parse resolve random u ≡ some v
    → IsReady v
unfolding parse
parse-IsReady resolve random u v f h = ground (
  arith,
  first_parse-IsReady resolve random u v _ refl,
  redirect_parse-IsReady resolve random u v _ refl,
)
