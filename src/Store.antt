-- ===== src/Store.antt =====
-- The table of links and its clients: `MySqlBase` of src/mysql_base.h, with the dumper and the
-- selector in the modules below. A statement is the text that the driver of the database gets.
pub mod Dumper
pub mod Selector
use lspider.Common.{ℕ, List, [], ◌∷◌, ◌++◌, Bytes, codes}

-- `MySqlBase::CrawlState`.
pub data CrawlState : Type 0 where
  fresh selected crawled : CrawlState

unfoldable pub state_number : CrawlState → ℕ
state_number fresh = 0
state_number selected = 1
state_number crawled = 2

abbrev pub table_name : Bytes
table_name = codes "link"
