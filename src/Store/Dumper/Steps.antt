-- ===== src/Store/Dumper/Steps.antt =====
-- The operations of the dumper on commands that are batches.
use lspider.Common.{
  ℕ, suc, ◌-◌, Bool, true, List, [], ◌∷◌, ◌++◌, ◌≡◌, refl, sym, subst, ap, ◌∙◌, arith, leb, Bytes,
  codes, length-append, All-append, append_assoc, append-nil, if_both, none, some, Option-cases,
  inl, inr,
}
use lspider.Context.{UrlContext}
use lspider.Domain.{fetch_url_maindomain}
use lspider.Utf8.{to_utf8}
use lspider.Store.Dumper.{
  Dumper, Settings, insert_head, update_head, reset_update, hub_text, sign_text, row_text,
  update_crawl_state, dump_one_link, dump_hub, dump_links,
}
use lspider.Store.Dumper.Ledger.{
  hub_row, IsBatch, commas, commas-append, texts_one, rows_same, Kept, Within,
}
use lspider.Store.Dumper.Batches.{flush_insert-Within, flush_update-Within, within}

snoc : (ts ps xs : List Bytes) (x : Bytes) → ts ++ ps ≡ xs → ts ++ (ps ++ (x ∷ [])) ≡ xs ++ (x ∷ [])
snoc ts ps xs x e = sym (append_assoc ts ps (x ∷ [])) ∙ ap (λ u. u ++ (x ∷ [])) e

longer :
    (h x : Bytes) (cmd : Bytes) (ps : List Bytes)
    → cmd ≡ h ++ commas ps
    → cmd ++ (x ++ codes ",") ≡ h ++ commas (ps ++ (x ∷ []))
longer h x cmd ps e =
    ap (λ u. u ++ (x ++ codes ",")) e
    ∙ (append_assoc h (commas ps) (x ++ codes ",") ∙ ap (λ u. h ++ u) (sym (commas-append ps x)))

module _ {c : Settings} {h : Bool} {rows signs : List Bytes} {n : ℕ} {d : Dumper} where
  pub update_crawl_state-Within :
      (url : Bytes)
      → Within c h rows signs n (c.update_batch - 1) d
      → Within c h rows
          (signs ++ (sign_text url ∷ []))
          n
          (c.update_batch - 1)
          (update_crawl_state c url d)
  unfolding update_crawl_state
  update_crawl_state-Within url (w, p, q) =
      let d' : Dumper = record d {
        update_cmd = d.update_cmd ++ (sign_text url ++ codes ",");
        update_count = suc d.update_count;
      } in
      let more : Kept c h rows (signs ++ (sign_text url ∷ [])) d' = record {
        pending_rows = w.pending_rows;
        pending_signs = w.pending_signs ++ (sign_text url ∷ []);
        done = w.done;
        insert_cmd = w.insert_cmd;
        insert_count = w.insert_count;
        update_cmd = longer update_head (sign_text url) d.update_cmd w.pending_signs w.update_cmd;
        update_count =
            omega (arith, w.update_count, length-append w.pending_signs (sign_text url ∷ []));
        sent = w.sent;
        all_rows = w.all_rows;
        all_signs = λ z. snoc _ w.pending_signs signs (sign_text url) (w.all_signs z);
        batches = w.batches;
      } in
      let long = length-append w.pending_signs (sign_text url ∷ []) in
      if_both (Within c h rows (signs ++ (sign_text url ∷ [])) n (c.update_batch - 1))
        (leb c.update_batch d'.update_count) _ _
        (λ e.
          within n 0 n (c.update_batch - 1) (omega arith) (omega arith)
            (flush_update-Within (more, p, omega (arith, long))))
        λ e. (more, p, ground (arith, long, w.update_count))

-- The rows of a link and of a page; a link with no main domain has none.
abbrev pub link_rows : Bytes → Bytes → UrlContext → List Bytes
link_rows href anchor u = elim (fetch_url_maindomain href) [
  | none ↦ []
  | some maindomain ↦ row_text href maindomain anchor u ∷ []
]

abbrev pub page_rows : Settings → UrlContext → List (Bytes × Bytes) → List Bytes
page_rows c u [] = []
page_rows c u ((href, anchor) ∷ links) =
    link_rows (to_utf8 c.iconv href) (to_utf8 c.iconv anchor) u ++ page_rows c u links

module _ {c : Settings} {h : Bool} {rows signs : List Bytes} {m : ℕ} {d : Dumper} where
  dump_one_link-Within :
      (href anchor : Bytes) (u : UrlContext)
      → Within c h rows signs (c.insert_batch - 1) m d
      → Within c h
          (rows ++ link_rows href anchor u)
          signs
          (c.insert_batch - 1)
          m
          (dump_one_link c href anchor u d).1
  unfolding dump_one_link
  dump_one_link-Within href anchor u (w, p, q) = elim (Option-cases (fetch_url_maindomain href)) [
    | inl e ↦
        rw (e, dump_one_link, link_rows)
          (subst (λ r. Within c h r signs (c.insert_batch - 1) m d) (sym (append-nil rows))
            (w, p, q))
    | inr y ↦
        let (maindomain, e) = y in
        let x = row_text href maindomain anchor u in
        let d' : Dumper = record d {
          insert_cmd = d.insert_cmd ++ (x ++ codes ",");
          insert_count = suc d.insert_count;
        } in
        let more : Kept c h (rows ++ (x ∷ [])) signs d' = record {
          pending_rows = w.pending_rows ++ (x ∷ []);
          pending_signs = w.pending_signs;
          done = w.done;
          insert_cmd = longer insert_head x d.insert_cmd w.pending_rows w.insert_cmd;
          insert_count = omega (arith, w.insert_count, length-append w.pending_rows (x ∷ []));
          update_cmd = w.update_cmd;
          update_count = w.update_count;
          sent = w.sent;
          all_rows = snoc _ w.pending_rows rows x w.all_rows;
          all_signs = w.all_signs;
          batches = w.batches;
        } in
        let long = length-append w.pending_rows (x ∷ []) in
        rw (e, dump_one_link, link_rows)
          (if_both (Within c h (rows ++ (x ∷ [])) signs (c.insert_batch - 1) m)
            (leb c.insert_batch d'.insert_count) _ _
            (λ k.
              within 0 m (c.insert_batch - 1) m (omega arith) (omega arith)
                (flush_insert-Within (more, omega (arith, long), q)))
            λ k. (more, ground (arith, long, w.insert_count), q))
  ]

pub dump_links-Within :
    {c : Settings} {h : Bool} {signs : List Bytes} {m : ℕ} (u : UrlContext)
    (links : List (Bytes × Bytes)) (rows : List Bytes) (d : Dumper)
    → Within c h rows signs (c.insert_batch - 1) m d
    → Within c h (rows ++ page_rows c u links) signs (c.insert_batch - 1) m (dump_links c u links d)
unfolding dump_links
dump_links-Within {c} {h} {signs} {m} u [] rows d w =
    subst (λ r. Within c h r signs (c.insert_batch - 1) m d) (sym (append-nil rows)) w
dump_links-Within {c} {h} {signs} {m} u ((href, anchor) ∷ links) rows d w =
    subst
      (λ r. Within c h r signs (c.insert_batch - 1) m (dump_links c u ((href, anchor) ∷ links) d))
      (append_assoc rows _ (page_rows c u links))
      (dump_links-Within u links _ _
        (dump_one_link-Within (to_utf8 c.iconv href) (to_utf8 c.iconv anchor) u w))

-- A hub's statement throws the pending signatures away.
module _ {c : Settings} {h : Bool} {rows signs : List Bytes} {n m : ℕ} {d : Dumper} where
  pub dump_hub-Within :
      (u : UrlContext)
      → Within c h rows signs n m d
      → Within c true rows signs n m (dump_hub c u d).1
  unfolding dump_hub reset_update
  dump_hub-Within u (w, p, q) = elim (Option-cases (fetch_url_maindomain u.url)) [
    | inl e ↦
        rw (e, dump_hub)
          (
            record {
              pending_rows = w.pending_rows;
              pending_signs = w.pending_signs;
              done = w.done;
              insert_cmd = w.insert_cmd;
              insert_count = w.insert_count;
              update_cmd = w.update_cmd;
              update_count = w.update_count;
              sent = w.sent;
              all_rows = w.all_rows;
              all_signs = λ z. absurd (ground (arith, z));
              batches = w.batches;
            },
            p,
            q,
          )
    | inr y ↦
        rw (y.1, dump_hub, reset_update)
          (
            record {
              pending_rows = w.pending_rows;
              pending_signs = [];
              done = w.done ++ (hub_row u.url y.0 ∷ []);
              insert_cmd = w.insert_cmd;
              insert_count = w.insert_count;
              update_cmd = sym (append-nil update_head);
              update_count = refl;
              sent = texts_one w.done (hub_row u.url y.0) d.sent (hub_text u.url y.0) w.sent refl;
              all_rows =
                  ap (λ u. u ++ w.pending_rows) (rows_same w.done (hub_row u.url y.0) refl)
                  ∙ w.all_rows;
              all_signs = λ z. absurd (ground (arith, z));
              batches = All-append (IsBatch c) w.done _ w.batches (tt, tt);
            },
            p,
            omega arith,
          )
  ]
