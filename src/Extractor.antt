-- ===== src/Extractor.antt =====
-- The extractor: the links of a page and the turns of the browser view, src/extractor_worker_view.cpp
-- and src/extractor.cpp. The browser gives the text and the `href` of each link in the page's order.
pub mod Saved
pub mod Turns
pub mod Tests
use lspider.Common.{
  ℕ, zero, suc, ◌+◌, ◌-◌, Bool, true, false, not, Option, none, some, List, [], ◌∷◌, ◌++◌, ◌==◌,
  ltb, leb, ◌&&◌, ◌||◌, if◌then◌else◌, Bytes, codes, bytes_eq, take, length,
}
use lspider.Common.Maps.{put}
use lspider.Context.{UrlContext}
use lspider.Protocol.Text.{ltrim, rtrim, split_at}
use lspider.Url.Parse.{max_url_len}
use lspider.Url.Normalize.{normalize_url}
use lspider.Utf8.{to_utf8}
use lspider.Store.Dumper.{Extracted}

abbrev pub max_anchor_len : ℕ
max_anchor_len = 64

-- What stands before the first `c`.
unfoldable pub up_to : ℕ → Bytes → Bytes
up_to c [] = []
up_to c (d ∷ s) = let rest = up_to c s in if d == c then [] else d ∷ rest

-- `amendAnchor`, of a text in UTF-8.
unfoldable pub amend_anchor : (Bytes → Option Bytes) → Bytes → Bytes
amend_anchor iconv anchor =
    let trimmed = ltrim (rtrim (to_utf8 iconv anchor)) in
    up_to 13 (
      up_to 10
        (if ltb max_anchor_len (length trimmed) then take max_anchor_len trimmed else trimmed))

unfoldable pub contains : Bytes → Bytes → Bool
contains t s = elim (split_at t s) [ none ↦ false | some p ↦ true ]

-- `0 == find(t)`.
unfoldable pub begins : Bytes → Bytes → Bool
begins [] s = true
begins (d ∷ t) [] = false
begins (d ∷ t) (c ∷ s) = d == c && begins t s

abbrev pub first_is : ℕ → Bytes → Bool
first_is c [] = false
first_is c (d ∷ s) = d == c

-- The links that are looked at.
unfoldable pub is_link : Bytes → Bool
is_link href =
    not (first_is b'#' href)
    && not (bytes_eq href [])
    && not (bytes_eq href (codes "/"))
    && not (contains (codes "javascript") href)
    && not (contains (codes "mailto") href)

-- The link with scheme and host; `none` for a scheme other than http.
unfoldable pub absolute : Bytes → Bytes → Option Bytes
absolute host href =
    if contains (codes "://") href
    then (if begins (codes "http") href then some href else none)
    else if first_is b'/' href
    then some (codes "http://" ++ (host ++ href))
    else some (codes "http://" ++ (host ++ (codes "/" ++ href)))

-- The normal form behind `http://`, or the link as it is.
unfoldable pub normal : Bytes → Bytes
normal href = elim (normalize_url href max_url_len) [ some t ↦ codes "http://" ++ t | none ↦ href ]

unfoldable pub saved_href : UrlContext → Bytes → Option Bytes
saved_href u href = elim (absolute u.host href) [
  | none ↦ none
  | some a ↦
      let n = normal a in
      if leb (max_url_len - 1) (length n) || bytes_eq n u.url then none else some n
]

-- One round of the loop of `getLinks`, and the loop, from the links of the context.
unfoldable pub save_link :
    (Bytes → Option Bytes)
    → UrlContext
    → Bytes
    → Bytes
    → List (Bytes × Bytes)
    → List (Bytes × Bytes)
save_link iconv u anchor href links =
    let h = ltrim (rtrim (to_utf8 iconv href)) in
    if is_link h
    then elim (saved_href u h) [ none ↦ links | some n ↦ put n (amend_anchor iconv anchor) links ]
    else links

unfoldable pub get_links :
    (Bytes → Option Bytes)
    → UrlContext
    → List (Bytes × Bytes)
    → List (Bytes × Bytes)
    → List (Bytes × Bytes)
get_links iconv u [] links = links
get_links iconv u ((anchor, href) ∷ elements) links =
    get_links iconv u elements (save_link iconv u anchor href links)

-- The view with the queue of `Extractor` and the contexts handed to the dumper. `current` is empty
-- while the view waits in `pop`. Of a timer there is its number.
pub record View : Type 0 where
  pub waiting : List UrlContext
  pub current : Option UrlContext
  pub handed : List Extracted
  pub timers : List ℕ
  pub timer_id : ℕ
  pub next_timer : ℕ

unfoldable pub start_timer : View → View
start_timer v = record v {
  timers = v.next_timer ∷ v.timers;
  timer_id = v.next_timer;
  next_timer = suc v.next_timer;
}

abbrev pub kill : ℕ → List ℕ → List ℕ
kill t [] = []
kill t (s ∷ timers) = if s == t then timers else s ∷ kill t timers

-- `doWithOneUrl`, with what waits in the queue.
unfoldable pub do_with_one_url : List UrlContext → View → View
do_with_one_url [] v = record v { waiting = []; current = none }
do_with_one_url (u ∷ us) v = start_timer (record v { waiting = us; current = some u })

-- `Extractor::start` of a new view.
unfoldable pub started : View
started = do_with_one_url [] (record {
  waiting = [];
  current = none;
  handed = [];
  timers = [];
  timer_id = 0;
  next_timer = 1;
})

-- `Extractor::push`, past its loop, which waits while more than so many contexts are in the queue.
-- A view that waits in `pop`, in its own thread, takes a context as soon as the queue has one: the two
-- are one step here.
unfoldable pub push : UrlContext → View → View
push u v = elim v.current [
  | none ↦ do_with_one_url (v.waiting ++ (u ∷ [])) v
  | some w ↦ record v { waiting = v.waiting ++ (u ∷ []) }
]

-- `onLoadFinish` and `timerEvent` on the page of the context `u`.
unfoldable pub on_load_finish :
    (Bytes → Option Bytes) → List (Bytes × Bytes) → UrlContext → View → View
on_load_finish iconv elements u v = do_with_one_url v.waiting (record v {
  handed = v.handed ++ (record { context = u; links = get_links iconv u elements [] } ∷ []);
  timers = kill v.timer_id v.timers;
})

unfoldable pub timer_event : View → View
timer_event v = start_timer v
