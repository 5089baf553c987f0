-- ===== src/Lib.antt =====
-- lspider, a web crawler: it keeps its links in MySQL, schedules them by site and address, fetches
-- them over an event loop, and extracts new links from the pages.
--
-- A URL enters as a `UrlContext` (src/url_context.h), is put into the `LinkTable` by site and
-- address, is taken from there by the timer of its address, waits in the queue of an `HttpProcessor`,
-- has its request sent and its response received and analysed by `HttpProtocol`, and ends with the
-- extractor, in another round of the queue, or deleted. The extractor saves the links of the page, and
-- the dumper writes them and the state of the page to the table of links, from which the selector
-- fills the `LinkTable` again. The URL functions (src/url_tools.cpp) serve all of these.
--
-- Files, and what they model:
--   Common: Boolean tests on numbers, lists, byte strings, and `std::map` as a sorted list (Common/Maps).
--     Common/Decimal: decimal numbers.
--   Url/Chars: the character tables of src/url_tools.cpp. Url/Parse: `parse_url`.
--     Url/Escape: `space_escape_path`. Url/Site: `normalize_site` and `normalize_port`; Url/Section:
--     `single_path_nointer`; Url/Dots: `replace_slash` and `normalize_path`; Url/Normalize:
--     `normalize_url` and `isnormalized_url`; Url/Sign: `MurmurHash64A` and `get_url_sign64`.
--   Domain/Tables, Domain/Dict: the domain tables and `DomainDict` of src/url_tools.cpp. Domain:
--     `get_domain_from_site`, `fetch_maindomain`, `fetch_url_maindomain`.
--   Context: `UrlContext` of src/url_context.h and src/url_context.cpp: `init`, `parseUrl`.
--   LinkTable: `IpContext`, `SiteContext`, `LinkTable::addUrl` and `select` of src/link_table.h and
--     src/link_table.cpp, with the timer handler `on_ip_schedule` of src/link_scheduler.cpp. The
--     priority queue and the floating point counts are interfaces (LinkTable/Interfaces), which
--     LinkTable/Instances fills; the comparison of the queue is `UrlContextComp` of src/url_context.h.
--   Protocol: `HttpProtocol` of src/http_protocol.cpp: the request and its buffer, the analysis of the
--     first line, the header fields and the body; Protocol/Chunk: the loop over the chunks and
--     `hex2dec` of src/util.cpp.
--   Processor: `HttpProcessor` of src/http_processor.cpp: the handlers of the event loop;
--     Processor/Connect: `run`, `connect` and `pushConnectQueue`; Processor/Sockets: the loops around
--     `send` and `recv`.
--   Queue: the intrusive list of src/link.h and src/DoubleList.h, on links in memory.
--   Synced: the queue with a semaphore of src/synced_queue.h, which the processor waits at.
--   Utf8: `is_utf8`, `isNonAsciiUTF8` and `to_utf8` of src/util.cpp.
--   Control: the requests of src/crawl_listen_handler.cpp, the commands of src/cmd_ctrler.cpp with the
--     handlers of src/main.cpp, and `loadMaindomainList` of src/conf.cpp.
--   Extractor: the links of a page, and the view with its queue and timers, of
--     src/extractor_worker_view.cpp and src/extractor.cpp.
--   Store: `MySqlBase` of src/mysql_base.h; Store/Dumper: `MySqlDumper` of src/mysql_dumper.cpp, down to
--     the text of its statements; Store/Selector: `MySqlSelector` of src/mysql_selector.cpp, with each
--     statement as its effect on the rows of the table.
--
-- How the code is rendered: a C string is the list of its bytes before the terminating zero, a pointer
-- into one is an index or the number of bytes behind it, and a call that may fail returns an option or
-- a data type with the code's results. A handler maps the state before to the state after. What runs
-- under a mutex, and a callback of the event loop, is one step, and the theorems about interleavings
-- are about all sequences of such steps (LinkTable/Reach, Processor/Reach, Extractor/Turns). Functions that
-- write over their argument give the text that they leave. Counters keep their
-- wrap-around at 32 bits, chunk sizes theirs at 32 and 64. Crashes are results: an overrun buffer, a
-- null pointer that is written to, a failed assertion. (The one of `parseUrl`, that a redirected
-- context has a site, stands with its caller, Processor/Connect; `addUrl` has no redirected context.)
--
-- From outside, as arguments: the resolver (`getip`), `rand`, what the system calls return, `gunzip`
-- (zlib), `iconv`, the files of the dictionary, the priority queue of the standard library, floats, the
-- browser (its elements and events), and the database's answers. Fuel bounds the chunk loop, which in
-- the code need not end, and the walks over an intrusive list and a text: one round more than there are
-- chunks, elements or bytes is enough; and the printing of a number, where one round more than the
-- number is.
--
-- Not modelled: the generated Thrift and Qt code, threads and mutexes themselves, the reading of the
-- configuration, logs and output, the connections to the databases and the dumper to MongoDB, the
-- widget of the extractor, the keyed and the locked queues (the queues of the processor are lists), and
-- the set-up in the main programs.
pub mod Common
pub mod Url
pub mod Context
pub mod LinkTable
pub mod Protocol
pub mod Processor
pub mod Domain
pub mod Queue
pub mod Synced
pub mod Utf8
pub mod Store
pub mod Extractor
pub mod Control
