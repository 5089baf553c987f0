-- ===== src/Store/Dumper/Ledger.antt =====
-- The dumper's commands as batches: what is pending, and the statements sent, as lists of rows and
-- signatures.
use lspider.Common.{
  ℕ, suc, ◌-◌, ◌<◌, ◌≤◌, Bool, false, List, [], ◌∷◌, ◌++◌, ◌≡◌, refl, sym, ap, ◌∙◌, arith, Bytes,
  codes, length, All, append_assoc, append-nil, inl, inr, ◌⊎◌,
}
use lspider.Store.Dumper.{
  Dumper, Settings, insert_head, update_head, new_dumper, without_last, hub_text,
}

-- A statement: rows to insert, signatures to mark as crawled, or a hub with its main domain.
pub data Statement : Type 0 where
  inserted marked : List Bytes → Statement
  hub_row : Bytes → Bytes → Statement

abbrev pub with_commas : List Bytes → Bytes
with_commas [] = []
with_commas (x ∷ []) = x
with_commas (x ∷ y ∷ xs) = x ++ (codes "," ++ with_commas (y ∷ xs))

abbrev pub rendered : Statement → Bytes
rendered (inserted rows) = insert_head ++ with_commas rows
rendered (marked signs) = (update_head ++ with_commas signs) ++ codes ")"
rendered (hub_row url maindomain) = hub_text url maindomain

abbrev pub texts : List Statement → List Bytes
texts [] = []
texts (t ∷ ts) = rendered t ∷ texts ts

abbrev pub inserted_rows : List Statement → List Bytes
inserted_rows [] = []
inserted_rows (inserted rows ∷ ts) = rows ++ inserted_rows ts
inserted_rows (marked signs ∷ ts) = inserted_rows ts
inserted_rows (hub_row url maindomain ∷ ts) = inserted_rows ts

abbrev pub marked_signs : List Statement → List Bytes
marked_signs [] = []
marked_signs (inserted rows ∷ ts) = marked_signs ts
marked_signs (marked signs ∷ ts) = signs ++ marked_signs ts
marked_signs (hub_row url maindomain ∷ ts) = marked_signs ts

-- A batch is not empty and not larger than the configuration asks, or of one.
abbrev pub IsBatch : Settings → Statement → Type 0
IsBatch c (inserted rows) = (0 < length rows) × (length rows ≤ suc (c.insert_batch - 1))
IsBatch c (marked signs) = (0 < length signs) × (length signs ≤ suc (c.update_batch - 1))
IsBatch c (hub_row url maindomain) = Unit

abbrev pub commas : List Bytes → Bytes
commas [] = []
commas (x ∷ xs) = x ++ (codes "," ++ commas xs)

-- The dumper after the rows `rows` and, if it has met no hub, the signatures `signs`.
pub record Kept (c : Settings) (met_hub : Bool) (rows signs : List Bytes) (d : Dumper)
    : Type 0 where
  pub pending_rows : List Bytes
  pub pending_signs : List Bytes
  pub done : List Statement
  pub insert_cmd : d.insert_cmd ≡ insert_head ++ commas pending_rows
  pub insert_count : d.insert_count ≡ length pending_rows
  pub update_cmd : d.update_cmd ≡ update_head ++ commas pending_signs
  pub update_count : d.update_count ≡ length pending_signs
  pub sent : d.sent ≡ texts done
  pub all_rows : inserted_rows done ++ pending_rows ≡ rows
  pub all_signs : met_hub ≡ false → marked_signs done ++ pending_signs ≡ signs
  pub batches : All (IsBatch c) done

-- The same with at most so many rows and signatures pending.
abbrev pub Within : Settings → Bool → List Bytes → List Bytes → ℕ → ℕ → Dumper → Type 0
Within c met_hub rows signs n m d =
    (k : Kept c met_hub rows signs d) × (length k.pending_rows ≤ n) × (length k.pending_signs ≤ m)

pub new_dumper-Within : (c : Settings) → Within c false [] [] 0 0 new_dumper
unfolding new_dumper
new_dumper-Within c = (
  record {
    pending_rows = [];
    pending_signs = [];
    done = [];
    insert_cmd = sym (append-nil insert_head);
    insert_count = refl;
    update_cmd = sym (append-nil update_head);
    update_count = refl;
    sent = refl;
    all_rows = refl;
    all_signs = λ e. refl;
    batches = tt;
  },
  omega arith,
  omega arith,
)

without_last-append : (s : Bytes) (c : ℕ) → without_last (s ++ (c ∷ [])) ≡ s
unfolding without_last
without_last-append [] c = refl
without_last-append (a ∷ []) c = refl
without_last-append (a ∷ b ∷ s) c = ap (λ t. a ∷ t) (without_last-append (b ∷ s) c)

commas_last : (x : Bytes) (xs : List Bytes) → commas (x ∷ xs) ≡ with_commas (x ∷ xs) ++ codes ","
commas_last x [] = refl
commas_last x (y ∷ xs) =
    ap (λ t. x ++ (codes "," ++ t)) (commas_last y xs)
    ∙ sym (append_assoc x (codes "," ++ with_commas (y ∷ xs)) (codes ","))

pub closed :
    (h x : Bytes) (xs : List Bytes)
    → without_last (h ++ commas (x ∷ xs)) ≡ h ++ with_commas (x ∷ xs)
closed h x xs =
    ap (λ t. without_last (h ++ t)) (commas_last x xs)
    ∙ (ap without_last (sym (append_assoc h (with_commas (x ∷ xs)) (codes ",")))
        ∙ without_last-append (h ++ with_commas (x ∷ xs)) b',')

pub commas-append :
    (xs : List Bytes) (x : Bytes) → commas (xs ++ (x ∷ [])) ≡ commas xs ++ (x ++ codes ",")
commas-append [] x = refl
commas-append (y ∷ xs) x =
    ap (λ t. y ++ (codes "," ++ t)) (commas-append xs x)
    ∙ sym (append_assoc y (codes "," ++ commas xs) (x ++ codes ","))

pub texts-append : (ts us : List Statement) → texts (ts ++ us) ≡ texts ts ++ texts us
texts-append [] us = refl
texts-append (t ∷ ts) us = ap (λ r. rendered t ∷ r) (texts-append ts us)

pub inserted_rows-append :
    (ts us : List Statement) → inserted_rows (ts ++ us) ≡ inserted_rows ts ++ inserted_rows us
inserted_rows-append [] us = refl
inserted_rows-append (inserted rows ∷ ts) us =
    ap (λ r. rows ++ r) (inserted_rows-append ts us)
    ∙ sym (append_assoc rows (inserted_rows ts) (inserted_rows us))
inserted_rows-append (marked signs ∷ ts) us = inserted_rows-append ts us
inserted_rows-append (hub_row url maindomain ∷ ts) us = inserted_rows-append ts us

pub marked_signs-append :
    (ts us : List Statement) → marked_signs (ts ++ us) ≡ marked_signs ts ++ marked_signs us
marked_signs-append [] us = refl
marked_signs-append (inserted rows ∷ ts) us = marked_signs-append ts us
marked_signs-append (marked signs ∷ ts) us =
    ap (λ r. signs ++ r) (marked_signs-append ts us)
    ∙ sym (append_assoc signs (marked_signs ts) (marked_signs us))
marked_signs-append (hub_row url maindomain ∷ ts) us = marked_signs-append ts us

-- One statement more.
pub texts_one :
    (ts : List Statement) (t : Statement) (old : List Bytes) (cmd : Bytes)
    → old ≡ texts ts
    → cmd ≡ rendered t
    → old ++ (cmd ∷ []) ≡ texts (ts ++ (t ∷ []))
texts_one ts t old cmd e f =
    ap (λ u. u ++ (cmd ∷ [])) e
    ∙ (ap (λ u. texts ts ++ (u ∷ [])) f ∙ sym (texts-append ts (t ∷ [])))

pub rows_one :
    (ts : List Statement) (rows : List Bytes)
    → inserted_rows (ts ++ (inserted rows ∷ [])) ++ [] ≡ inserted_rows ts ++ rows
rows_one ts rows =
    append-nil _
    ∙ (inserted_rows-append ts (inserted rows ∷ [])
        ∙ ap (λ u. inserted_rows ts ++ u) (append-nil rows))

pub signs_one :
    (ts : List Statement) (signs : List Bytes)
    → marked_signs (ts ++ (marked signs ∷ [])) ++ [] ≡ marked_signs ts ++ signs
signs_one ts signs =
    append-nil _
    ∙ (marked_signs-append ts (marked signs ∷ [])
        ∙ ap (λ u. marked_signs ts ++ u) (append-nil signs))

pub rows_same :
    (ts : List Statement) (t : Statement)
    → inserted_rows (t ∷ []) ≡ []
    → inserted_rows (ts ++ (t ∷ [])) ≡ inserted_rows ts
rows_same ts t e =
    inserted_rows-append ts (t ∷ [])
    ∙ (ap (λ u. inserted_rows ts ++ u) e ∙ append-nil (inserted_rows ts))

pub signs_same :
    (ts : List Statement) (t : Statement)
    → marked_signs (t ∷ []) ≡ []
    → marked_signs (ts ++ (t ∷ [])) ≡ marked_signs ts
signs_same ts t e =
    marked_signs-append ts (t ∷ [])
    ∙ (ap (λ u. marked_signs ts ++ u) e ∙ append-nil (marked_signs ts))

pub List-cases : (xs : List Bytes) → (xs ≡ []) ⊎ ((x : Bytes) × (ys : List Bytes) × (xs ≡ x ∷ ys))
List-cases [] = inl refl
List-cases (x ∷ xs) = inr (x, xs, refl)
