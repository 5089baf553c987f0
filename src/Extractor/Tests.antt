-- ===== src/Extractor/Tests.antt =====
-- Links of a page, and a view with a page whose timer fires.
use lspider.Common.{none, some, [], ◌∷◌, ◌≡◌, refl, false, Option, Bytes, All, codes, List, arith}
use lspider.Context.{UrlContext, new_context}
use lspider.Protocol.Text.{split_at, after_prefix}
use lspider.Extractor.{
  View, absolute, contains, started, push, timer_event, on_load_finish, start_timer,
  do_with_one_url, get_links,
}
use lspider.Extractor.Saved.{Saved, get_links-Saved}
use lspider.Extractor.Turns.{Reach, begun, pushed, loaded, timed, Turn, Reach-Turn}

abbrev no_iconv : Bytes → Option Bytes
no_iconv s = none

abbrev page : UrlContext
page = new_context (codes "http://www.ab.com/") 0 false []

abbrev elements : List (Bytes × Bytes)
elements = (codes " go ", codes "http://www.cd.com/X") ∷ (codes "mail", codes "mailto:a@b.c") ∷ []

relative : absolute (codes "ab.com") (codes "x.html") ≡ some (codes "http://ab.com/x.html")
unfolding absolute contains split_at after_prefix
relative = refl

get_links-Saved_example : All (Saved page.url) (get_links no_iconv page elements [])
get_links-Saved_example = get_links-Saved no_iconv page elements [] tt

abbrev shown_page : View
shown_page = push page started

-- The page's timer fires, and then the page is loaded.
abbrev after_timeout : View
after_timeout = on_load_finish no_iconv elements page (timer_event shown_page)

one_timer_left : after_timeout.timers ≡ 1 ∷ []
unfolding on_load_finish timer_event push started start_timer do_with_one_url
one_timer_left = refl

reached : Reach no_iconv 5 (page ∷ []) 1 after_timeout
unfolding on_load_finish timer_event push started start_timer do_with_one_url
reached =
    loaded (page ∷ []) 1 (timer_event shown_page) page elements
      (timed (page ∷ []) 0 shown_page page (pushed [] 0 started page begun (omega arith)) refl) refl

Reach-Turn_example : Turn 5 (page ∷ []) 1 after_timeout
Reach-Turn_example = Reach-Turn no_iconv 5 1 (page ∷ []) after_timeout reached
