-- ===== src/Url/Normalize/Tests.antt =====
-- Sites, ports, paths and whole URLs.
use lspider.Common.{◌≡◌, ◌++◌, arith, refl, true, none, some, codes, reverse, take, drop, []}
use lspider.Common.Decimal.{decimal, decimal_from}
use lspider.Url.Chars.{
  lfcr, reserved, pchar, param, uch_res, url_digit, url_let_digit, url_let_dig_hy, url_up_let,
  to_char, hex_value,
}
use lspider.Url.Parse.{
  parse_url, parse_parts, skip_scheme, delete_inter, after_nocase, to_lower, split_path, strchr,
  cut_at, split_at, copy_part, split_port, port_at, checked_port, atoi, digits_value, signed_value,
  is_digit, site_part, strip_dots, max_url_len, max_path_len,
}
use lspider.Url.Escape.{space_escape_path, escape_from}
use lspider.Url.Site.{
  normalize_site, normalize_port, site_from, lowered, all_digits, checked_number,
}
use lspider.Url.Site.Host.{Host, normalize_site-Host}
use lspider.Url.Section.{single_path_nointer, single_from, of_section, separated}
use lspider.Url.Section.Visible.{Plain, single_path_nointer-Plain}
use lspider.Url.Dots.{
  normalize_path, without_dots, replace_slash, slashes, path_end, walk, up, back_to_slash,
}
use lspider.Url.Dots.Segments.{resolve, segments}
use lspider.Url.Dots.Resolved.{normalize_path-resolve}
use lspider.Url.Normalize.{normalize_url, joined, isnormalized_url}
use lspider.Url.Normalize.Accepted.{normalize_url-isnormalized_url}

-- An escape and upper case.
site_lowered : normalize_site (codes "WWW.%41b.Com") ≡ some (codes "www.ab.com")
unfolding normalize_site site_from lowered url_let_dig_hy url_up_let url_let_digit to_char hex_value
site_lowered = refl

normalize_site-Host_example :
    Host 0 0 (codes "www.ab.com")
    × (normalize_site (codes "www.ab.com") ≡ some (codes "www.ab.com"))
normalize_site-Host_example =
    normalize_site-Host (codes "WWW.%41b.Com") (codes "www.ab.com") site_lowered

no_dot : normalize_site (codes "localhost") ≡ none
unfolding normalize_site site_from lowered url_let_dig_hy url_up_let url_let_digit
no_dot = refl

port_zeros : normalize_port (codes "08080") ≡ some (codes "8080")
unfolding normalize_port all_digits url_digit checked_number atoi signed_value digits_value is_digit
    decimal decimal_from
port_zeros = refl

-- An escaped letter, an escaped reserved byte, a space, and a `%` that begins no escape.
path_plain :
    single_path_nointer (codes "/%61 b%2f%zz?q#top") max_path_len ≡ some (codes "/a%20b%2f%zz?q")
unfolding single_path_nointer single_from of_section separated reserved pchar param uch_res to_char
    hex_value space_escape_path escape_from
path_plain = refl

single_path_nointer-Plain_example : Plain (codes "/a%20b%2f%zz?q")
single_path_nointer-Plain_example =
    single_path_nointer-Plain (codes "/%61 b%2f%zz?q#top") (codes "/a%20b%2f%zz?q") (omega arith)
      path_plain

dots_removed : normalize_path (codes "/a/./b//../c\\d/..;p/../x?/../y") ≡ codes "/a/c/d/x?/../y"
unfolding normalize_path without_dots replace_slash slashes path_end strchr walk up back_to_slash
dots_removed = refl

normalize_path-resolve_example :
    normalize_path (codes "/a/./b/../c;d?e")
    ≡ reverse (
        resolve [] (
          segments (
            take
              (path_end (replace_slash (codes "a/./b/../c;d?e")))
              (replace_slash (codes "a/./b/../c;d?e")))))
      ++ drop
          (path_end (replace_slash (codes "a/./b/../c;d?e")))
          (replace_slash (codes "a/./b/../c;d?e"))
normalize_path-resolve_example = normalize_path-resolve (codes "a/./b/../c;d?e")

whole_url :
    normalize_url (codes "http://WWW.Ab.com:080/x/../y z") max_url_len
    ≡ some (codes "www.ab.com/y%20z")
unfolding normalize_url joined normalize_path without_dots replace_slash slashes path_end strchr
    walk up back_to_slash single_path_nointer single_from of_section separated reserved pchar param
    uch_res to_char hex_value space_escape_path escape_from normalize_port all_digits url_digit
    checked_number atoi signed_value digits_value is_digit normalize_site site_from lowered
    url_let_dig_hy url_up_let url_let_digit parse_url parse_parts skip_scheme delete_inter
    after_nocase to_lower split_path cut_at split_at copy_part split_port port_at checked_port
    site_part strip_dots lfcr
whole_url = refl

normalize_url-isnormalized_url_example : isnormalized_url 0 (codes "www.ab.com/y%20z") ≡ true
normalize_url-isnormalized_url_example =
    normalize_url-isnormalized_url 0 max_url_len (codes "http://WWW.Ab.com:080/x/../y z")
      (codes "www.ab.com/y%20z") (omega arith) (omega arith) whole_url
