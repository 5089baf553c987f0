-- ===== src/Url/Parse/Tests.antt =====
-- Runs of `parse_url`, and instances of the theorems about it.
use lspider.Common.{none, some, [], ◌≡◌, refl, codes, inl, arith}
use lspider.Url.Parse.{
  UrlParts, parse_url, parse_parts, split_path, split_port, site_part, skip_scheme, delete_inter,
  all_parts, split_at, cut_at, strchr, port_at, strip_dots, atoi,
}
use lspider.Url.Chars.{lfcr}
use lspider.Url.Parse.Parts.{IsParsed, parse_url-IsParsed}
use lspider.Url.Parse.RoundTrip.{print_url, IsPrintable, parse_url-print}

abbrev full : UrlParts
full = record { site = codes "a.b.com"; port = codes "8080"; path = codes "/x?y" }

full_url : parse_url all_parts (codes "HTTP://a.b.com:8080/x?y") ≡ some full
unfolding parse_url parse_parts split_path split_port site_part skip_scheme delete_inter split_at
    cut_at strchr port_at strip_dots atoi
full_url = refl

other_urls :
    (parse_url all_parts (codes "a.com.?q=/")
      ≡ some (record { site = codes "a.com"; port = []; path = codes "/?q=/" }))
    × (parse_url all_parts (codes "https://a.com:80/")
        ≡ some (record { site = codes "a.com"; port = []; path = codes "/" }))
    × (parse_url all_parts (codes "a.com:x/") ≡ none)
unfolding parse_url parse_parts split_path split_port site_part skip_scheme delete_inter split_at
    cut_at strchr port_at strip_dots atoi
other_urls = (refl, refl, refl)

parse_url-IsParsed_example : IsParsed full
parse_url-IsParsed_example = parse_url-IsParsed (codes "HTTP://a.b.com:8080/x?y") full full_url

full-IsPrintable : IsPrintable full
unfolding lfcr
full-IsPrintable = record {
  parsed = parse_url-IsParsed (codes "HTTP://a.b.com:8080/x?y") full full_url;
  named = cc;
  no_slash = omega arith;
  no_query = omega arith;
  no_break = ground arith;
}

parse_url-print_example : parse_url all_parts (print_url (codes "http://") full) ≡ some full
parse_url-print_example =
    parse_url-print (codes "http://") full (inl refl) full-IsPrintable (omega arith)
