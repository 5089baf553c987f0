-- ===== src/Store/Selector/Again.antt =====
-- Rows that were asked for and not crawled, over two rounds.
use lspider.Common.{
  true, false, List, [], ◌∷◌, ◌≡◌, refl, sym, ap, subst, ◌∙◌, ◌&&◌, if◌then◌else◌, if_both, Bytes,
  All, bytes_eq, bytes_eq_refl, Bool-cases, inl, inr, arith,
}
use lspider.LinkTable.{rt_table_full}
use lspider.Store.{fresh, selected, state_number}
use lspider.Store.Selector.{
  Row, Limits, wanted, to_state, to_mark, to_recover, mark, settle, recover_crawl_state, listed_in,
}
use lspider.Store.Selector.Rows.{
  each, each_eq, updated, settled, marked, each-each, mark-each, settle-each, one_same,
}

-- What `recover_crawl_state` does to a row.
abbrev pub recovered : Limits → Row → Row
recovered c r = if c.mark_ok && to_recover c r then to_state fresh r else r

recover_crawl_state-each :
    (c : Limits) (rows : List Row) → recover_crawl_state c rows ≡ each (recovered c) rows
unfolding recover_crawl_state
recover_crawl_state-each c rows =
    updated c.mark_ok (to_recover c) (to_state fresh) rows ∙ each_eq _ _ (λ r. ground arith) rows

abbrev pub Wanted : Limits → Row → Type 0
Wanted c r = wanted c r ≡ true

-- What the two conditions of the query leave of a row.
hub_Wanted :
    (c : Limits) (r : Row) → r.hub ≡ true → listed_in c.maindomains r.maindomain ≡ true → Wanted c r
unfolding wanted
hub_Wanted c r e k = ground (arith, e, k)

Wanted-listed_in : (c : Limits) (r : Row) → Wanted c r → listed_in c.maindomains r.maindomain ≡ true
unfolding wanted
Wanted-listed_in c r h = ground (arith, h)

fresh_Wanted : (c : Limits) (r : Row) → Wanted c r → Wanted c (to_state fresh r)
unfolding wanted state_number
fresh_Wanted c r h = ground (arith, h)

marked_new :
    (c : Limits) (r : Row)
    → c.mark_ok ≡ true
    → Wanted c r
    → r.hub ≡ false
    → marked c r ≡ to_state selected r
unfolding wanted to_mark
marked_new c r m h e = ground (arith, m, h, e)

recovered_new :
    (c : Limits) (r : Row)
    → c.mark_ok ≡ true
    → Wanted c r
    → r.hub ≡ false
    → recovered c (to_state selected r) ≡ to_state fresh r
unfolding wanted to_recover state_number
recovered_new c r m h e = ground (arith, m, h, e)

-- A mark and a recovery leave the rest of a row.
marked_rest :
    (c : Limits) (r : Row) → ((marked c r).hub ≡ r.hub) × ((marked c r).maindomain ≡ r.maindomain)
marked_rest c r =
    if_both (λ (x : Row). (x.hub ≡ r.hub) × (x.maindomain ≡ r.maindomain))
      (c.mark_ok && to_mark c r) _ _ (λ e. (refl, refl)) λ e. (refl, refl)

recovered_rest :
    (c : Limits) (r : Row)
    → ((recovered c r).hub ≡ r.hub) × ((recovered c r).maindomain ≡ r.maindomain)
recovered_rest c r =
    if_both (λ (x : Row). (x.hub ≡ r.hub) × (x.maindomain ≡ r.maindomain))
      (c.mark_ok && to_recover c r) _ _ (λ e. (refl, refl)) λ e. (refl, refl)

recovered_row :
    (c : Limits) (r : Row) → c.mark_ok ≡ true → Wanted c r → Wanted c (recovered c (marked c r))
recovered_row c r m h = elim (Bool-cases r.hub) [
  | inl e ↦
      let a = recovered_rest c (marked c r) in
      let b = marked_rest c r in
      hub_Wanted c _ (a.0 ∙ (b.0 ∙ e))
        (ap (listed_in c.maindomains) (a.1 ∙ b.1) ∙ Wanted-listed_in c r h)
  | inr e ↦
      subst (Wanted c) (sym (ap (recovered c) (marked_new c r m h e) ∙ recovered_new c r m h e))
        (fresh_Wanted c r h)
]

settled_full :
    (c : Limits) (s : Bytes) (r : Row)
    → c.update_ok s ≡ true
    → to_state fresh r ≡ settled c rt_table_full s r
settled_full c s r u = ground (arith, u)

full_row :
    (c : Limits) (s : Bytes) (r : Row)
    → c.mark_ok ≡ true
    → c.update_ok s ≡ true
    → Wanted c r
    → Wanted c (settled c rt_table_full s (marked c r))
full_row c s r m u h = elim (Bool-cases r.hub) [
  | inl e ↦
      let b = marked_rest c r in
      subst (Wanted c) (settled_full c s (marked c r) u)
        (hub_Wanted c _ (b.0 ∙ e) (ap (listed_in c.maindomains) b.1 ∙ Wanted-listed_in c r h))
  | inr e ↦
      subst (Wanted c)
        (ap (to_state fresh) (sym (marked_new c r m h e)) ∙ settled_full c s (marked c r) u)
        (fresh_Wanted c r h)
]

marked_sign : (c : Limits) (r : Row) → (marked c r).sign ≡ r.sign
marked_sign c r =
    if_both (λ (x : Row). x.sign ≡ r.sign) (c.mark_ok && to_mark c r) _ _ (λ e. refl) λ e. refl

full_table :
    (c : Limits) (r : Row)
    → c.mark_ok ≡ true
    → c.update_ok r.sign ≡ true
    → Wanted c r
    → All (Wanted c) (settle c rt_table_full r.sign (mark c (r ∷ [])))
full_table c r m u h =
    subst (All (Wanted c))
      (sym (
        ap (settle c rt_table_full r.sign) (mark-each c (r ∷ []))
        ∙ (settle-each c rt_table_full r.sign (marked c r ∷ [])
            ∙ ap (λ x. x ∷ [])
                (one_same c rt_table_full r.sign (marked c r) (
                  subst (λ s. bytes_eq r.sign s ≡ true) (sym (marked_sign c r))
                    (bytes_eq_refl r.sign))))))
      (full_row c r.sign r m u h, tt)

each-Wanted :
    (c : Limits)
    → c.mark_ok ≡ true
    → (rows : List Row) → All (Wanted c) rows
    → All (Wanted c) (each (λ r. recovered c (marked c r)) rows)
each-Wanted c m [] h = tt
each-Wanted c m (r ∷ rows) h = (recovered_row c r m h.0, each-Wanted c m rows h.1)

each_full :
    (c : Limits)
    → c.mark_ok ≡ true
    → ((s : Bytes) → c.update_ok s ≡ true)
    → (rows : List Row) → All (Wanted c) rows
    → All (λ r. All (Wanted c) (settle c rt_table_full r.sign (mark c (r ∷ [])))) rows
each_full c m u [] h = tt
each_full c m u (r ∷ rows) h = (full_table c r m (u r.sign) h.0, each_full c m u rows h.1)

-- If the database takes the updates, rows that `select` asks for are asked for again after a restart
-- that finds them marked, which `recover_crawl_state` turns back, and each of them after its mark and
-- an addition that met a full table.
pub select-Wanted :
    (c : Limits) (rows : List Row)
    → c.mark_ok ≡ true
    → ((s : Bytes) → c.update_ok s ≡ true)
    → All (Wanted c) rows
    → All (Wanted c) (recover_crawl_state c (mark c rows))
      × All (λ r. All (Wanted c) (settle c rt_table_full r.sign (mark c (r ∷ [])))) rows
select-Wanted c rows m u h = (
  subst (All (Wanted c))
      (sym (
        recover_crawl_state-each c (mark c rows)
        ∙ (ap (each (recovered c)) (mark-each c rows)
            ∙ each-each (recovered c) (marked c) _ (λ r. refl) rows)))
      (each-Wanted c m rows h),
  each_full c m u rows h,
)
