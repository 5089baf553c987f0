-- ===== src/Store/Dumper/History.antt =====
-- The dumper after any history of contexts.
use lspider.Common.{
  suc, ◌-◌, ◌≤◌, Bool, true, false, List, [], ◌∷◌, ◌++◌, ◌≡◌, refl, sym, subst, ap, ◌∙◌, arith,
  Bytes, length, All, append_assoc, append-nil, if_both, ◌||◌,
}
use lspider.Store.Dumper.{
  Dumper, Settings, Extracted, new_dumper, sign_text, dump_hub, dump, idle, run,
}
use lspider.Store.Dumper.Ledger.{
  Statement, texts, inserted_rows, marked_signs, IsBatch, Within, new_dumper-Within,
}
use lspider.Store.Dumper.Batches.{flush_insert-Within, flush_update-Within, within}
use lspider.Store.Dumper.Steps.{
  page_rows, update_crawl_state-Within, dump_links-Within, dump_hub-Within,
}

-- The rows and signatures of a history, and whether it has a hub.
abbrev pub all_rows : Settings → List (Bool × Extracted) → List Bytes
all_rows c [] = []
all_rows c ((empty, x) ∷ xs) = page_rows c x.context x.links ++ all_rows c xs

abbrev pub all_signs : List (Bool × Extracted) → List Bytes
all_signs [] = []
all_signs ((empty, x) ∷ xs) = sign_text x.context.url ∷ all_signs xs

abbrev pub any_hub : List (Bool × Extracted) → Bool
any_hub [] = false
any_hub ((empty, x) ∷ xs) = x.context.hub || any_hub xs

-- The bounds that hold between two contexts.
abbrev pub Ready : Settings → Bool → List Bytes → List Bytes → Dumper → Type 0
Ready c h rows signs d = Within c h rows signs (c.insert_batch - 1) (c.update_batch - 1) d

dump-Ready :
    (c : Settings) (h : Bool) (rows signs : List Bytes) (x : Extracted) (d : Dumper)
    → Ready c h rows signs d
    → Ready c
        (h || x.context.hub)
        (rows ++ page_rows c x.context x.links)
        (signs ++ (sign_text x.context.url ∷ []))
        (dump c x d)
unfolding dump
dump-Ready c h rows signs x d w = dump_links-Within x.context x.links rows _ (
    update_crawl_state-Within x.context.url (
      if_both (Ready c (h || x.context.hub) rows signs) x.context.hub _ _
        (λ e.
          subst (λ b. Ready c b rows signs (dump_hub c x.context d).1) (ground (arith, e))
            (dump_hub-Within x.context w))
        λ e. subst (λ b. Ready c b rows signs d) (ground (arith, e)) w))

idle-Within :
    (c : Settings) (h : Bool) (rows signs : List Bytes) (d : Dumper)
    → Ready c h rows signs d
    → Within c h rows signs 0 0 (idle c d)
unfolding idle
idle-Within c h rows signs d w = flush_insert-Within (
    within (c.insert_batch - 1) 0 (suc (c.insert_batch - 1)) 0 (omega arith) (omega arith) (
      flush_update-Within (
        within (c.insert_batch - 1) (c.update_batch - 1) (c.insert_batch - 1)
          (suc (c.update_batch - 1)) (omega arith) (omega arith) w)))

or_assoc : (a b c : Bool) → ((a || b) || c) ≡ (a || (b || c))
or_assoc true b c = refl
or_assoc false b c = refl

or_false : (a : Bool) → a ≡ (a || false)
or_false true = refl
or_false false = refl

moved :
    {c : Settings} {h k : Bool} {rows rows' signs signs' : List Bytes} {d : Dumper}
    → h ≡ k
    → rows ≡ rows'
    → signs ≡ signs'
    → Ready c h rows signs d
    → Ready c k rows' signs' d
moved {c} {h} {k} {rows} {rows'} {signs} {signs'} {d} e f g w =
    subst (λ b. Ready c b rows' signs' d) e
      (subst (λ r. Ready c h r signs' d) f (subst (λ s. Ready c h rows s d) g w))

nothing_left : (ps : List Bytes) → length ps ≤ 0 → ps ≡ []
nothing_left [] h = refl
nothing_left (p ∷ ps) h = absurd (omega arith)

sent_all : (ts ps xs : List Bytes) → length ps ≤ 0 → ts ++ ps ≡ xs → ts ≡ xs
sent_all ts ps xs h e = sym (append-nil ts) ∙ (ap (λ p. ts ++ p) (sym (nothing_left ps h)) ∙ e)

run-Ready_from :
    (c : Settings) (xs : List (Bool × Extracted)) (h : Bool) (rows signs : List Bytes) (d : Dumper)
    → Ready c h rows signs d
    → Ready c (h || any_hub xs) (rows ++ all_rows c xs) (signs ++ all_signs xs) (run c xs d)
unfolding run
run-Ready_from c [] h rows signs d w =
    moved (or_false h) (sym (append-nil rows)) (sym (append-nil signs)) w
run-Ready_from c ((empty, x) ∷ xs) h rows signs d w =
    moved (or_assoc h x.context.hub (any_hub xs))
      (append_assoc rows (page_rows c x.context x.links) (all_rows c xs))
      (append_assoc signs (sign_text x.context.url ∷ []) (all_signs xs))
      (run-Ready_from c xs _ _ _ _ (
        dump-Ready c h rows signs x _ (
          if_both (Ready c h rows signs) empty _ _
            (λ e.
              within 0 0 (c.insert_batch - 1) (c.update_batch - 1) (omega arith) (omega arith)
                (idle-Within c h rows signs d w))
            λ e. w)))

-- After any history of contexts, what the dumper has sent and what its two commands hold are batches
-- as the configuration asks for: the rows of all links that have a main domain are in them once and
-- in their order, and, if no context was a hub, so are the signatures of all contexts. Fewer rows
-- and signatures than a batch are pending.
pub run-Ready :
    (c : Settings) (xs : List (Bool × Extracted))
    → Ready c (any_hub xs) (all_rows c xs) (all_signs xs) (run c xs new_dumper)
run-Ready c xs = run-Ready_from c xs false [] [] new_dumper (
    within 0 0 (c.insert_batch - 1) (c.update_batch - 1) (omega arith) (omega arith)
      (new_dumper-Within c))

-- Once the dumper finds no context waiting, after contexts none of which is a hub, the statements
-- sent are batches that hold every row and every signature of the history once, in order.
pub idle-run :
    (c : Settings) (xs : List (Bool × Extracted))
    → any_hub xs ≡ false
    → (ts : List Statement) × ((idle c (run c xs new_dumper)).sent ≡ texts ts)
      × (inserted_rows ts ≡ all_rows c xs)
      × (marked_signs ts ≡ all_signs xs)
      × All (IsBatch c) ts
idle-run c xs h =
    let (w, p, q) = idle-Within c (any_hub xs) _ _ _ (run-Ready c xs) in
    (w.done, w.sent, sent_all _ _ _ p w.all_rows, sent_all _ _ _ q (w.all_signs h), w.batches)
