-- ===== src/Store/Selector/Tests.antt =====
-- A table of four rows: a new link, one that is too deep, a hub and a crawled link.
use lspider.Common.{arith, ◌+◌, ℕ, Bool, true, false, List, [], ◌∷◌, ◌≡◌, refl, codes, Bytes, All}
use lspider.Common.Maps.{find, put, insert, replace, bytes_lt}
use lspider.Url.Chars.{lfcr}
use lspider.Url.Parse.{
  parse_url, parse_parts, split_path, split_at, cut_at, strchr, skip_scheme, delete_inter,
  after_nocase, atoi, checked_port, copy_part, digits_value, is_digit, port_at, signed_value,
  site_part, split_port, strip_dots, to_lower,
}
use lspider.Context.{new_context, parse, first_parse, pick_ip}
use lspider.LinkTable.{rt_table_full}
use lspider.LinkTable
use lspider.LinkTable.Instances.{list_queue, saturating}
use lspider.LinkTable.Reach
use lspider.Store.{CrawlState, fresh, selected, crawled, state_number}
use lspider.Store.Selector.{
  Row, Limits, wanted, to_mark, listed_in, query, insert_by_depth, mark, update_where, settle,
  recover_crawl_state, Table, select, context_of,
}
use mathlib.Core.List.{Perm}
use lspider.Store.Selector.Ordered.{Ordered, asked}
use lspider.Store.Selector.Rows.{add_all, each, after, marked, select-each}
use lspider.Store.Selector.Fills
use lspider.LinkTable.Invariant
use lspider.Store.Selector.Again.{Wanted, select-Wanted}

abbrev limits : Limits
limits = record {
  max_retry = 3;
  max_depth = 2;
  maindomains = codes "ab.com" ∷ [];
  query_ok = true;
  mark_ok = true;
  update_ok = λ s. true;
}

abbrev row : Bytes → ℕ → CrawlState → Bool → Row
row sign depth state hub = record {
  sign = sign;
  url = codes "http://www.ab.com/";
  maindomain = codes "ab.com";
  link_depth = depth;
  state = state;
  retry = 0;
  hub = hub;
}

abbrev rows : List Row
rows =
    row (codes "1") 1 fresh false
    ∷ row (codes "2") 9 fresh false
    ∷ row (codes "3") 0 crawled true
    ∷ row (codes "4") 1 crawled false
    ∷ []

-- The hub comes first; the row that is too deep is not asked for, but it is marked.
asked_for : query limits rows ≡ row (codes "3") 0 crawled true ∷ row (codes "1") 1 fresh false ∷ []
unfolding query insert_by_depth wanted listed_in state_number
asked_for = refl

deep_marked :
    mark limits rows
    ≡ row (codes "1") 1 selected false
      ∷ row (codes "2") 9 selected false
      ∷ row (codes "3") 0 selected true
      ∷ row (codes "4") 1 crawled false
      ∷ []
unfolding mark update_where to_mark listed_in state_number
deep_marked = refl

abbrev conf : LinkTable.Conf
conf = record { max_table_size = 2; ip_interval = 1 }

abbrev no_hosts : Bytes → List Bytes
no_hosts host = []

abbrev zero_random : Bytes → ℕ
zero_random s = 0

abbrev table : Table list_queue saturating no_hosts zero_random conf
table = Reach.empty_table list_queue saturating conf

select-each_example :
    (select list_queue saturating no_hosts zero_random conf limits table rows ≡ (
      true,
      (
        (add_all list_queue saturating no_hosts zero_random conf table (query limits rows)).0,
        each
            (λ r.
              after limits
                (add_all list_queue saturating no_hosts zero_random conf table
                  (query limits rows)).1
                (marked limits r))
            rows,
      ),
    ))
    × Ordered (query limits rows)
    × Perm (query limits rows) (asked limits rows)
unfolding context_of new_context
select-each_example =
    select-each list_queue saturating no_hosts zero_random conf limits table rows refl
      ((refl, (refl, (refl, tt))), ((refl, (refl, tt)), ((refl, tt), (tt, tt))))

abbrev two : List Row
two = row (codes "1") 1 fresh false ∷ row (codes "3") 0 crawled true ∷ []

two-Wanted : All (Wanted limits) two
unfolding wanted listed_in state_number
two-Wanted = (refl, (refl, tt))

select-Wanted_example :
    All (Wanted limits) (recover_crawl_state limits (mark limits two))
    × All (λ r. All (Wanted limits) (settle limits rt_table_full r.sign (mark limits (r ∷ [])))) two
select-Wanted_example = select-Wanted limits two refl (λ s. refl) two-Wanted

abbrev one_host : Bytes → List Bytes
one_host host = codes "1.2.3.4" ∷ []

abbrev empty : Table list_queue saturating one_host zero_random conf
empty = Reach.empty_table list_queue saturating conf

abbrev filled : Bool × (Table list_queue saturating one_host zero_random conf × List Row)
filled = select list_queue saturating one_host zero_random conf limits empty rows

select-Reach_example :
    Reach.Reach list_queue saturating conf filled.1.0
    × (Invariant.urls list_queue saturating conf filled.1.0
        ≡ 0
          + Fills.accepted list_queue saturating one_host zero_random conf
              (add_all list_queue saturating one_host zero_random conf empty (query limits rows)).1)
    × (filled.0 ≡ true)
select-Reach_example =
    Fills.select-Reach list_queue saturating one_host zero_random conf limits empty rows
      (ground arith) Reach.start

-- Both rows of the query are added.
accepted_two :
    Fills.accepted list_queue saturating one_host zero_random conf
      (add_all list_queue saturating one_host zero_random conf empty (query limits rows)).1
    ≡ 2
unfolding query insert_by_depth wanted listed_in state_number context_of LinkTable.add_url
    LinkTable.add_parsed LinkTable.get_ip_context LinkTable.get_site_context LinkTable.push_url
    LinkTable.new_ip LinkTable.new_site LinkTable.increment find put insert replace bytes_lt parse
    new_context first_parse parse_url parse_parts split_path split_at cut_at strchr skip_scheme
    delete_inter pick_ip lfcr after_nocase atoi checked_port copy_part digits_value is_digit port_at
    signed_value site_part split_port strip_dots to_lower
accepted_two = refl
