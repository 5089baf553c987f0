-- ===== src/Context/Tests.antt =====
-- A parsed context, and the hypotheses of the theorems.
use lspider.Common.{◌≡◌, refl, false, some, List, [], ◌∷◌, Bytes, codes}
use lspider.Url.Chars.{lfcr}
use lspider.Url.Parse.{
  parse_url, parse_parts, split_at, cut_at, delete_inter, after_nocase, atoi, checked_port,
  copy_part, digits_value, is_digit, port_at, signed_value, strip_dots, to_lower, strchr,
  split_path, split_port, site_part, skip_scheme,
}
use lspider.Context.{UrlContext, new_context, parse, first_parse, pick_ip}
use lspider.Context.Parsing.{IsReady, parse-IsReady}

abbrev pub one_address : Bytes → List Bytes
one_address host = codes "1.2.3.4" ∷ []

abbrev pub fresh_context : UrlContext
fresh_context = new_context (codes "http://a.com:81/x") 0 false (codes "7")

pub parsed :
    (v : UrlContext) × (parse one_address 0 fresh_context ≡ some v)
    × (v.host ≡ codes "a.com")
    × (v.strport ≡ codes "81")
    × (v.cookie ≡ [])
unfolding new_context parse first_parse parse_url parse_parts split_path split_at cut_at strchr
    skip_scheme delete_inter pick_ip lfcr after_nocase atoi checked_port copy_part digits_value
    is_digit port_at signed_value site_part split_port strip_dots to_lower
parsed = (_, refl, refl, refl, refl)

pub parsed-IsReady : IsReady parsed.0
unfolding new_context
parsed-IsReady = parse-IsReady one_address 0 fresh_context parsed.0 refl parsed.1

parse-IsReady_example : IsReady parsed.0
unfolding new_context
parse-IsReady_example = parse-IsReady one_address 0 fresh_context parsed.0 refl parsed.1
