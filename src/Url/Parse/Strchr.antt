-- ===== src/Url/Parse/Strchr.antt =====
-- Lemmas on `strchr`, the cuts that `parse_url` makes with it, and `delete_inter`.
use lspider.Common.{
  ℕ, zero, suc, ◌+◌, ◌≤◌, ◌<◌, ◌≡◌, refl, Option, none, some, [], ◌∷◌, ◌++◌, false, arith, length,
  take, drop, All, Bytes, Lacks,
}
use lspider.Url.Parse.{strchr, delete_inter}
use lspider.Url.Chars.{lfcr}

abbrev pub shift : ℕ → Option ℕ → Option ℕ
shift n none = none
shift n (some i) = some (n + i)

pub strchr-append :
    (c : ℕ) (s t : Bytes) → Lacks c s → strchr (s ++ t) c ≡ shift (length s) (strchr t c)
unfolding strchr
strchr-append c [] t h = ground arith
strchr-append c (d ∷ s) t h = ground (arith, strchr-append c s t h.1)

pub strchr-none : (c : ℕ) (s : Bytes) → strchr s c ≡ none → Lacks c s
unfolding strchr
strchr-none c [] h = tt
strchr-none c (d ∷ s) h = ground (arith, strchr-none c s)

pub strchr-Lacks : (c : ℕ) (s : Bytes) → Lacks c s → strchr s c ≡ none
unfolding strchr
strchr-Lacks c [] h = refl
strchr-Lacks c (d ∷ s) h = ground (arith, strchr-Lacks c s h.1)

-- What stands before the first `c` has no `c`.
pub take-Lacks : (c : ℕ) (s : Bytes) (i j : ℕ) → strchr s c ≡ some i → j ≤ i → Lacks c (take j s)
unfolding strchr
take-Lacks c s i zero h k = tt
take-Lacks c [] i (suc j) h k = tt
take-Lacks c (d ∷ s) zero (suc j) h k = absurd (omega arith)
take-Lacks c (d ∷ s) (suc i) (suc j) h k = ground (arith, take-Lacks c s i j)

pub strchr-lt : (c : ℕ) (s : Bytes) (i : ℕ) → strchr s c ≡ some i → i < length s
unfolding strchr
strchr-lt c [] i h = cc
strchr-lt c (d ∷ s) zero h = omega arith
strchr-lt c (d ∷ s) (suc i) h = ground (arith, strchr-lt c s i)

pub All-take {κ} : (P : ℕ → Type κ) (s : Bytes) (j : ℕ) → All P s → All P (take j s)
All-take P s zero h = tt
All-take P [] (suc j) h = tt
All-take P (d ∷ s) (suc j) h = (h.0, All-take P s j h.1)

-- The byte at the place that `strchr` returns.
pub drop-strchr : (c : ℕ) (s : Bytes) (i : ℕ) → strchr s c ≡ some i → drop i s ≡ c ∷ drop (suc i) s
unfolding strchr
drop-strchr c [] i h = cc
drop-strchr c (d ∷ s) zero h = ground arith
drop-strchr c (d ∷ s) (suc i) h = ground (arith, drop-strchr c s i)

abbrev pub NoBreak : ℕ → Type 0
NoBreak c = lfcr c ≡ false

pub delete_inter_lem : (s : Bytes) → All NoBreak s → delete_inter s ≡ s
unfolding delete_inter
delete_inter_lem [] h = refl
delete_inter_lem (c ∷ s) h = rw (h.0, delete_inter_lem s h.1)
