-- ===== src/Store/Dumper/Tests.antt =====
-- A history of two pages with links.
use lspider.Common.{Bool, true, false, none, List, [], ◌∷◌, ◌≡◌, refl, codes, Bytes, All}
use lspider.Context.{new_context}
use lspider.Store.Dumper.{Settings, Extracted, new_dumper, idle, run, quoted}
use lspider.Store.Dumper.Ledger.{Statement, texts, inserted_rows, marked_signs, IsBatch}
use lspider.Store.Dumper.History.{Ready, any_hub, all_rows, all_signs, run-Ready, idle-run}

abbrev settings : Settings
settings = record { insert_batch = 2; update_batch = 2; exec = λ s. true; iconv = λ s. none }

abbrev page : Bytes → Bool → Extracted
page url hub = record {
  context = new_context url 0 hub [];
  links = (codes "http://www.ab.com/x", codes "it's") ∷ (codes "http://localhost/", []) ∷ [];
}

abbrev history : Bool → List (Bool × Extracted)
history hub =
    (true, page (codes "http://www.ab.com/") hub)
    ∷ (false, page (codes "http://www.cd.com/") false)
    ∷ []

run-Ready_example :
    Ready settings
      (any_hub (history true))
      (all_rows settings (history true))
      (all_signs (history true))
      (run settings (history true) new_dumper)
run-Ready_example = run-Ready settings (history true)

no_hub : any_hub (history false) ≡ false
unfolding new_context
no_hub = refl

idle-run_example :
    (ts : List Statement) × ((idle settings (run settings (history false) new_dumper)).sent
      ≡ texts ts)
    × (inserted_rows ts ≡ all_rows settings (history false))
    × (marked_signs ts ≡ all_signs (history false))
    × All (IsBatch settings) ts
idle-run_example = idle-run settings (history false) no_hub

anchor_quoted : quoted (codes "it's") ≡ codes "it\\'s"
unfolding quoted
anchor_quoted = refl
