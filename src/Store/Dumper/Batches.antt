-- ===== src/Store/Dumper/Batches.antt =====
-- The batches of rows and signatures, and the statements that end them.
use lspider.Common.{
  ℕ, suc, ◌+◌, ◌-◌, ◌%◌, ◌^◌, ◌≤◌, Bool, List, [], ◌∷◌, ◌++◌, ◌≡◌, refl, sym, subst, ap, ◌∙◌, arith,
  Bytes, codes, length, All-append, append-nil, inl, inr,
}
use lspider.Store.Dumper.{
  Dumper, Settings, insert_head, update_head, reset_insert, reset_update, without_last, send,
  flush_insert, flush_update,
}
use lspider.Store.Dumper.Ledger.{
  inserted, marked, IsBatch, commas, with_commas, Kept, Within, closed, texts_one, rows_one,
  signs_one, rows_same, signs_same, List-cases,
}

sent_insert : Dumper → Dumper
unfolding reset_insert
sent_insert d = reset_insert (
    send (without_last d.insert_cmd)
      (record d { dump_count = (d.dump_count + d.insert_count) % 2 ^ 32 }))

flush_insert_none : (c : Settings) (d : Dumper) → d.insert_count ≡ 0 → (flush_insert c d).1 ≡ d
unfolding flush_insert
flush_insert_none c d e = ground (arith, e)

flush_insert_some :
    (c : Settings) (d : Dumper) (n : ℕ)
    → d.insert_count ≡ suc n
    → (flush_insert c d).1 ≡ sent_insert d
unfolding flush_insert sent_insert
flush_insert_some c d n e = ground (arith, e)

module _ {c : Settings} {h : Bool} {rows signs : List Bytes} {d : Dumper} where
  sent_rows :
      {m : ℕ} (x : Bytes) (xs : List Bytes) (w : Kept c h rows signs d)
      → w.pending_rows ≡ x ∷ xs
      → length w.pending_rows ≤ suc (c.insert_batch - 1)
      → length w.pending_signs ≤ m
      → Within c h rows signs 0 m (sent_insert d)
  unfolding sent_insert reset_insert
  sent_rows x xs w e p q = (
    record {
      pending_rows = [];
      pending_signs = w.pending_signs;
      done = w.done ++ (inserted w.pending_rows ∷ []);
      insert_cmd = sym (append-nil insert_head);
      insert_count = refl;
      update_cmd = w.update_cmd;
      update_count = w.update_count;
      sent = texts_one w.done (inserted w.pending_rows) d.sent _ w.sent (
          ap without_last w.insert_cmd
          ∙ subst (λ r. without_last (insert_head ++ commas r) ≡ insert_head ++ with_commas r)
              (sym e) (closed insert_head x xs));
      all_rows = rows_one w.done w.pending_rows ∙ w.all_rows;
      all_signs = λ z.
          ap (λ u. u ++ w.pending_signs) (signs_same w.done (inserted w.pending_rows) refl)
          ∙ w.all_signs z;
      batches = All-append (IsBatch c) w.done _ w.batches ((ground (arith, e), p), tt);
    },
    omega arith,
    q,
  )

  pub flush_insert-Within :
      {m : ℕ}
      → Within c h rows signs (suc (c.insert_batch - 1)) m d
      → Within c h rows signs 0 m (flush_insert c d).1
  flush_insert-Within (w, p, q) = elim (List-cases w.pending_rows) [
    | inl e ↦
        subst (Within c h rows signs 0 _)
          (sym (flush_insert_none c d (w.insert_count ∙ ap length e)))
          (w, omega (arith, ap length e), q)
    | inr y ↦
        let (x, xs, e) = y in
        subst (Within c h rows signs 0 _)
          (sym (flush_insert_some c d (length xs) (w.insert_count ∙ ap length e)))
          (sent_rows x xs w e p q)
  ]

sent_update : Dumper → Dumper
unfolding reset_update
sent_update d = reset_update (send (without_last d.update_cmd ++ codes ")") d)

flush_update_none : (c : Settings) (d : Dumper) → d.update_count ≡ 0 → (flush_update c d).1 ≡ d
unfolding flush_update
flush_update_none c d e = ground (arith, e)

flush_update_some :
    (c : Settings) (d : Dumper) (n : ℕ)
    → d.update_count ≡ suc n
    → (flush_update c d).1 ≡ sent_update d
unfolding flush_update sent_update
flush_update_some c d n e = ground (arith, e)

module _ {c : Settings} {h : Bool} {rows signs : List Bytes} {d : Dumper} where
  sent_signs :
      {n : ℕ} (x : Bytes) (xs : List Bytes) (w : Kept c h rows signs d)
      → w.pending_signs ≡ x ∷ xs
      → length w.pending_rows ≤ n
      → length w.pending_signs ≤ suc (c.update_batch - 1)
      → Within c h rows signs n 0 (sent_update d)
  unfolding sent_update reset_update
  sent_signs x xs w e p q = (
    record {
      pending_rows = w.pending_rows;
      pending_signs = [];
      done = w.done ++ (marked w.pending_signs ∷ []);
      insert_cmd = w.insert_cmd;
      insert_count = w.insert_count;
      update_cmd = sym (append-nil update_head);
      update_count = refl;
      sent = texts_one w.done (marked w.pending_signs) d.sent _ w.sent (
          ap (λ u. u ++ codes ")")
            (ap without_last w.update_cmd
              ∙ subst (λ r. without_last (update_head ++ commas r) ≡ update_head ++ with_commas r)
                  (sym e) (closed update_head x xs)));
      all_rows =
          ap (λ u. u ++ w.pending_rows) (rows_same w.done (marked w.pending_signs) refl)
          ∙ w.all_rows;
      all_signs = λ z. signs_one w.done w.pending_signs ∙ w.all_signs z;
      batches = All-append (IsBatch c) w.done _ w.batches ((ground (arith, e), q), tt);
    },
    p,
    omega arith,
  )

  pub flush_update-Within :
      {n : ℕ}
      → Within c h rows signs n (suc (c.update_batch - 1)) d
      → Within c h rows signs n 0 (flush_update c d).1
  flush_update-Within (w, p, q) = elim (List-cases w.pending_signs) [
    | inl e ↦
        subst (Within c h rows signs _ 0)
          (sym (flush_update_none c d (w.update_count ∙ ap length e)))
          (w, p, omega (arith, ap length e))
    | inr y ↦
        let (x, xs, e) = y in
        subst (Within c h rows signs _ 0)
          (sym (flush_update_some c d (length xs) (w.update_count ∙ ap length e)))
          (sent_signs x xs w e p q)
  ]

-- With looser bounds.
pub within :
    {c : Settings} {h : Bool} {rows signs : List Bytes} {d : Dumper} (n m k l : ℕ)
    → n ≤ k
    → m ≤ l
    → Within c h rows signs n m d
    → Within c h rows signs k l d
within n m k l x y (w, p, q) = (w, omega arith, omega arith)
