-- ===== src/Store/Dumper.antt =====
-- `MySqlDumper` of src/mysql_dumper.h and src/mysql_dumper.cpp. The QString of a command is the list
-- of its bytes.
pub mod Ledger
pub mod Batches
pub mod Steps
pub mod History
pub mod Tests
use lspider.Common.{
  ℕ, zero, suc, ◌+◌, ◌-◌, ◌%◌, ◌^◌, Bool, true, false, Option, none, some, List, [], ◌∷◌, ◌++◌,
  ◌==◌, leb, if◌then◌else◌, Bytes, codes, take,
}
use lspider.Common.Decimal.{decimal}
use lspider.Context.{UrlContext}
use lspider.Url.Sign.{get_url_sign64}
use lspider.Domain.{fetch_url_maindomain}
use lspider.Utf8.{to_utf8}
use lspider.Store.{CrawlState, fresh, crawled, state_number, table_name}

-- A context with the links that the extractor found, `UrlContext::links`, in the map's order.
pub record Extracted : Type 0 where
  pub context : UrlContext
  pub links : List (Bytes × Bytes)

-- The batches of the configuration; from outside, the driver's answer to a statement and the
-- conversion of a text.
pub record Settings : Type 0 where
  pub insert_batch : ℕ
  pub update_batch : ℕ
  pub exec : Bytes → Bool
  pub iconv : Bytes → Option Bytes

-- The dumper and the statements that it has sent.
pub record Dumper : Type 0 where
  pub insert_cmd : Bytes
  pub insert_count : ℕ
  pub update_cmd : Bytes
  pub update_count : ℕ
  pub dump_count : ℕ
  pub sent : List Bytes

abbrev pub max_sign_len : ℕ
max_sign_len = 24

unfoldable pub insert_head : Bytes
insert_head =
    codes "INSERT IGNORE INTO "
    ++ (table_name
        ++ codes
            "(sign, url, maindomain, prelink, preanchor, linkdepth, crawlstate, foundtime) VALUES")

unfoldable pub update_head : Bytes
unfolding state_number
update_head =
    codes "UPDATE "
    ++ (table_name
        ++ (codes " SET crawlstate="
            ++ (decimal (state_number crawled)
                ++ codes ",crawledtime=current_timestamp() WHERE sign IN (")))

unfoldable pub reset_insert : Dumper → Dumper
reset_insert d = record d { insert_cmd = insert_head; insert_count = 0 }

unfoldable pub reset_update : Dumper → Dumper
reset_update d = record d { update_cmd = update_head; update_count = 0 }

unfoldable pub new_dumper : Dumper
new_dumper = record {
  insert_cmd = insert_head;
  insert_count = 0;
  update_cmd = update_head;
  update_count = 0;
  dump_count = 0;
  sent = [];
}

-- `remove(length() - 1, 1)`.
unfoldable pub without_last : Bytes → Bytes
without_last [] = []
without_last (c ∷ []) = []
without_last (c ∷ d ∷ s) = c ∷ without_last (d ∷ s)

abbrev pub send : Bytes → Dumper → Dumper
send cmd d = record d { sent = d.sent ++ (cmd ∷ []) }

unfoldable pub flush_insert : Settings → Dumper → Bool × Dumper
flush_insert c d =
    let cmd = without_last d.insert_cmd in
    if d.insert_count == 0 then (false, d) else (
      c.exec cmd,
      reset_insert (send cmd (record d { dump_count = (d.dump_count + d.insert_count) % 2 ^ 32 })),
    )

unfoldable pub flush_update : Settings → Dumper → Bool × Dumper
flush_update c d =
    let cmd = without_last d.update_cmd ++ codes ")" in
    if d.update_count == 0 then (false, d) else (c.exec cmd, reset_update (send cmd d))

-- The signature as text, in a buffer of `MAX_SIGN_LEN` bytes.
unfoldable pub sign_text : Bytes → Bytes
sign_text url = take (max_sign_len - 1) (decimal (get_url_sign64 url))

unfoldable pub update_crawl_state : Settings → Bytes → Dumper → Dumper
update_crawl_state c url d =
    let d' = record d {
      update_cmd = d.update_cmd ++ (sign_text url ++ codes ",");
      update_count = suc d.update_count;
    } in
    if leb c.update_batch d'.update_count then (flush_update c d').1 else d'

-- `replace('\'', "\\'")`.
unfoldable pub quoted : Bytes → Bytes
quoted [] = []
quoted (c ∷ s) = (if c == 39 then codes "\\'" else c ∷ []) ++ quoted s

-- The values of a link, without the comma behind them.
unfoldable pub row_text : Bytes → Bytes → Bytes → UrlContext → Bytes
row_text href maindomain anchor u =
    codes "("
    ++ (sign_text href
        ++ (codes ",'"
            ++ (href
                ++ (codes "','"
                    ++ (maindomain
                        ++ (codes "','"
                            ++ (u.url
                                ++ (codes "','"
                                    ++ (quoted anchor
                                        ++ (codes "',"
                                            ++ (decimal (u.link_depth + 1)
                                                ++ (codes ","
                                                    ++ (decimal (state_number fresh)
                                                        ++ codes
                                                            ",current_timestamp())")))))))))))))

unfoldable pub dump_one_link : Settings → Bytes → Bytes → UrlContext → Dumper → Bool × Dumper
dump_one_link c href anchor u d = elim (fetch_url_maindomain href) [
  | none ↦ (false, d)
  | some maindomain ↦
      let d' = record d {
        insert_cmd = d.insert_cmd ++ (row_text href maindomain anchor u ++ codes ",");
        insert_count = suc d.insert_count;
      } in
      (true, if leb c.insert_batch d'.insert_count then (flush_insert c d').1 else d')
]

unfoldable pub hub_text : Bytes → Bytes → Bytes
hub_text url maindomain =
    codes "UPDATE IGNORE "
    ++ (table_name
        ++ (codes " SET sign="
            ++ (sign_text url
                ++ (codes ", url='"
                    ++ (url
                        ++ (codes "', maindomain='"
                            ++ (maindomain
                                ++ (codes "', linkdepth=0, crawlstate="
                                    ++ (decimal (state_number fresh)
                                        ++ codes
                                            ", hub=true, crawledtime=current_timestamp()")))))))))

unfoldable pub dump_hub : Settings → UrlContext → Dumper → Bool × Dumper
dump_hub c u d = elim (fetch_url_maindomain u.url) [
  | none ↦ (false, d)
  | some maindomain ↦ let cmd = hub_text u.url maindomain in (c.exec cmd, reset_update (send cmd d))
]

unfoldable pub dump_links : Settings → UrlContext → List (Bytes × Bytes) → Dumper → Dumper
dump_links c u [] d = d
dump_links c u ((href, anchor) ∷ links) d =
    dump_links c u links (dump_one_link c (to_utf8 c.iconv href) (to_utf8 c.iconv anchor) u d).1

unfoldable pub dump : Settings → Extracted → Dumper → Dumper
dump c x d =
    let d' = if x.context.hub then (dump_hub c x.context d).1 else d in
    dump_links c x.context x.links (update_crawl_state c x.context.url d')

-- What `run` does when it finds no context waiting.
unfoldable pub idle : Settings → Dumper → Dumper
idle c d = (flush_insert c (flush_update c d).1).1

-- The loop of `run`: in each round, whether the queue was empty, and the context that was popped.
unfoldable pub run : Settings → List (Bool × Extracted) → Dumper → Dumper
run c [] d = d
run c ((empty, x) ∷ xs) d = run c xs (dump c x (if empty then idle c d else d))
