-- ===== src/Common/Maps.antt =====
-- `std::map` with string keys: entries in the order of their keys, at most one for each key.
use Prim.Native.Nat.{ℕ, ◌+◌}
use mathlib.Core.Bool.{Bool, true, false, ◌&&◌, ◌||◌}
use mathlib.Core.List.{List, [], ◌∷◌}
use mathlib.Core.Logic.{◌≢◌, ◌⊎◌, inl, inr}
use mathlib.Core.Option.{Option, none, some}
use mathlib.Core.Path.{◌≡◌, refl, sym}
use native.Mathlib.Omega.{arith}
use lspider.Common.Tests.{◌==◌, ltb, if◌then◌else◌, Option-cases}
use lspider.Common.Lists.{All}
use lspider.Common.Text.{Bytes, bytes_eq, bytes_eq_iff, bytes_eq_refl}

-- `std::string::compare`, below zero.
unfoldable pub bytes_lt : Bytes → Bytes → Bool
bytes_lt [] [] = false
bytes_lt [] (d ∷ t) = true
bytes_lt (c ∷ s) [] = false
bytes_lt (c ∷ s) (d ∷ t) = ltb c d || c == d && bytes_lt s t

module _ {V : Type 0} where
  unfoldable pub find : Bytes → List (Bytes × V) → Option V
  find k [] = none
  find k ((j, v) ∷ m) = if bytes_eq j k then some v else find k m

  -- The entry of a new key, before the first larger key.
  unfoldable pub insert : Bytes → V → List (Bytes × V) → List (Bytes × V)
  unfolding bytes_lt
  insert k v [] = (k, v) ∷ []
  insert k v ((j, w) ∷ m) = if bytes_lt k j then (k, v) ∷ (j, w) ∷ m else (j, w) ∷ insert k v m

  unfoldable pub replace : Bytes → V → List (Bytes × V) → List (Bytes × V)
  replace k v [] = []
  replace k v ((j, w) ∷ m) = if bytes_eq j k then (j, v) ∷ m else (j, w) ∷ replace k v m

  -- `m[k] = v`.
  unfoldable pub put : Bytes → V → List (Bytes × V) → List (Bytes × V)
  put k v m = elim (find k m) [ none ↦ insert k v m | some w ↦ replace k v m ]

  unfoldable pub erase : Bytes → List (Bytes × V) → List (Bytes × V)
  erase k [] = []
  erase k ((j, w) ∷ m) = if bytes_eq j k then m else (j, w) ∷ erase k m

  abbrev pub Fresh : Bytes → List (Bytes × V) → Type 0
  Fresh k = All (λ e. e.0 ≢ k)

  abbrev pub Distinct : List (Bytes × V) → Type 0
  Distinct [] = Unit
  Distinct ((k, v) ∷ m) = Fresh k m × Distinct m

  find-insert :
      (j k : Bytes) (v : V) (m : List (Bytes × V))
      → find k m ≡ none
      → find j (insert k v m) ≡ (if bytes_eq k j then some v else find j m)
  unfolding find insert
  find-insert j k v [] h = refl
  find-insert j k v ((i, w) ∷ m) h =
      ground (arith, find-insert j k v m, bytes_eq_iff i k, bytes_eq_iff k j, bytes_eq_iff i j)

  find-replace :
      (j k : Bytes) (v w : V) (m : List (Bytes × V))
      → find k m ≡ some w
      → find j (replace k v m) ≡ (if bytes_eq k j then some v else find j m)
  unfolding find replace
  find-replace j k v w [] h = cc
  find-replace j k v w ((i, x) ∷ m) h =
      ground (arith, find-replace j k v w m, bytes_eq_iff i k, bytes_eq_iff k j, bytes_eq_iff i j)

  pub find-put :
      (j k : Bytes) (v : V) (m : List (Bytes × V))
      → find j (put k v m) ≡ (if bytes_eq k j then some v else find j m)
  unfolding put
  find-put j k v m = elim (Option-cases (find k m)) [
    | inl e ↦ rw (e, put) (find-insert j k v m e)
    | inr (w, e) ↦ rw (e, put) (find-replace j k v w m e)
  ]

  pub find-Fresh : (k : Bytes) (m : List (Bytes × V)) → Fresh k m → find k m ≡ none
  unfolding find
  find-Fresh k [] h = refl
  find-Fresh k ((j, v) ∷ m) h = ground (arith, find-Fresh k m h.1, bytes_eq_iff j k)

  pub Fresh-find : (k : Bytes) (m : List (Bytes × V)) → find k m ≡ none → Fresh k m
  unfolding find
  Fresh-find k [] h = tt
  Fresh-find k ((j, v) ∷ m) h = ground (arith, Fresh-find k m, bytes_eq_iff j k)

  pub find-erase :
      (j k : Bytes) (m : List (Bytes × V))
      → Distinct m
      → find j (erase k m) ≡ (if bytes_eq k j then none else find j m)
  unfolding find erase
  find-erase j k [] h = ground arith
  find-erase j k ((i, x) ∷ m) h = ground (
    arith,
    find-erase j k m h.1,
    find-Fresh i m h.0,
    bytes_eq_iff i k,
    bytes_eq_iff k j,
    bytes_eq_iff i j,
  )

  insert-Fresh :
      (j k : Bytes) (v : V) (m : List (Bytes × V)) → k ≢ j → Fresh j m → Fresh j (insert k v m)
  unfolding insert
  insert-Fresh j k v [] h f = (h, tt)
  insert-Fresh j k v ((i, w) ∷ m) h f = ground (arith, insert-Fresh j k v m h f.1)

  replace-Fresh : (j k : Bytes) (v : V) (m : List (Bytes × V)) → Fresh j m → Fresh j (replace k v m)
  unfolding replace
  replace-Fresh j k v [] f = tt
  replace-Fresh j k v ((i, w) ∷ m) f = ground (arith, replace-Fresh j k v m f.1)

  erase-Fresh : (j k : Bytes) (m : List (Bytes × V)) → Fresh j m → Fresh j (erase k m)
  unfolding erase
  erase-Fresh j k [] f = tt
  erase-Fresh j k ((i, w) ∷ m) f = ground (arith, erase-Fresh j k m f.1)

  insert-Distinct :
      (k : Bytes) (v : V) (m : List (Bytes × V)) → Fresh k m → Distinct m → Distinct (insert k v m)
  unfolding insert
  insert-Distinct k v [] f d = (tt, tt)
  insert-Distinct k v ((i, w) ∷ m) f d =
      ground (arith, insert-Distinct k v m f.1 d.1, insert-Fresh i k v m (λ e. f.0 (sym e)) d.0)

  replace-Distinct :
      (k : Bytes) (v : V) (m : List (Bytes × V)) → Distinct m → Distinct (replace k v m)
  unfolding replace
  replace-Distinct k v [] d = tt
  replace-Distinct k v ((i, w) ∷ m) d =
      ground (arith, replace-Distinct k v m d.1, replace-Fresh i k v m d.0)

  pub put-Distinct : (k : Bytes) (v : V) (m : List (Bytes × V)) → Distinct m → Distinct (put k v m)
  unfolding put
  put-Distinct k v m d = elim (Option-cases (find k m)) [
    | inl e ↦ rw (e, put) (insert-Distinct k v m (Fresh-find k m e) d)
    | inr (w, e) ↦ rw (e, put) (replace-Distinct k v m d)
  ]

  pub erase-Distinct : (k : Bytes) (m : List (Bytes × V)) → Distinct m → Distinct (erase k m)
  unfolding erase
  erase-Distinct k [] d = tt
  erase-Distinct k ((i, w) ∷ m) d = ground (arith, erase-Distinct k m d.1, erase-Fresh i k m d.0)

  -- The sum of a measure over the entries.
  abbrev pub total : (V → ℕ) → List (Bytes × V) → ℕ
  total size [] = 0
  total size ((k, v) ∷ m) = size v + total size m

  abbrev pub size_or_0 : (V → ℕ) → Option V → ℕ
  size_or_0 size none = 0
  size_or_0 size (some v) = size v

  total-insert :
      (size : V → ℕ) (k : Bytes) (v : V) (m : List (Bytes × V))
      → total size (insert k v m) ≡ size v + total size m
  unfolding insert
  total-insert size k v [] = refl
  total-insert size k v ((i, w) ∷ m) = ground (arith, total-insert size k v m)

  total-replace :
      (size : V → ℕ) (k : Bytes) (v w : V) (m : List (Bytes × V))
      → find k m ≡ some w
      → total size (replace k v m) + size w ≡ size v + total size m
  unfolding find replace
  total-replace size k v w [] h = cc
  total-replace size k v w ((i, x) ∷ m) h = ground (arith, total-replace size k v w m)

  pub total-put :
      (size : V → ℕ) (k : Bytes) (v : V) (m : List (Bytes × V))
      → total size (put k v m) + size_or_0 size (find k m) ≡ size v + total size m
  unfolding put
  total-put size k v m = elim (Option-cases (find k m)) [
    | inl e ↦ rw (e, put) (omega (arith, total-insert size k v m))
    | inr (w, e) ↦ rw (e, put) (total-replace size k v w m e)
  ]

  pub total-erase :
      (size : V → ℕ) (k : Bytes) (m : List (Bytes × V))
      → total size (erase k m) + size_or_0 size (find k m) ≡ total size m
  unfolding find erase
  total-erase size k [] = refl
  total-erase size k ((i, x) ∷ m) = ground (arith, total-erase size k m)

module _ {V : Type 0} where
  All-cons-find :
      (j : Bytes) (w : V) (m n : List (Bytes × V))
      → Fresh j n
      → All (λ e. find e.0 m ≡ some e.1) n
      → All (λ e. find e.0 ((j, w) ∷ m) ≡ some e.1) n
  unfolding find
  All-cons-find j w m [] f h = tt
  All-cons-find j w m ((k, v) ∷ n) f h =
      ground (arith, All-cons-find j w m n f.1 h.1, bytes_eq_iff j k)

  -- With distinct keys every entry is found.
  pub All-find : (m : List (Bytes × V)) → Distinct m → All (λ e. find e.0 m ≡ some e.1) m
  All-find [] d = tt
  All-find ((k, v) ∷ m) d =
      (unfold find in ground (arith, bytes_eq_refl k), All-cons-find k v m m d.0 (All-find m d.1))

  pub All-mono {κ} :
      (P Q : Bytes × V → Type κ) (m : List (Bytes × V))
      → ((k : Bytes) (v : V) → P (k, v) → Q (k, v))
      → All P m
      → All Q m
  All-mono P Q [] g h = tt
  All-mono P Q ((k, v) ∷ m) g h = (g k v h.0, All-mono P Q m g h.1)

  pub find-put_cases :
      (j k : Bytes) (v w : V) (m : List (Bytes × V))
      → find j (put k v m) ≡ some w
      → ((k ≡ j) × (v ≡ w)) ⊎ ((k ≢ j) × (find j m ≡ some w))
  find-put_cases j k v w m h = ground (arith, find-put j k v m, bytes_eq_iff k j)

  pub find-erase_cases :
      (j k : Bytes) (w : V) (m : List (Bytes × V))
      → Distinct m
      → find j (erase k m) ≡ some w
      → (k ≢ j) × (find j m ≡ some w)
  find-erase_cases j k w m d h = ground (arith, find-erase j k m d, bytes_eq_iff k j)

  pub put-ne-nil : (k : Bytes) (v : V) (m : List (Bytes × V)) → put k v m ≢ []
  unfolding put find insert replace
  put-ne-nil k v [] = cc
  put-ne-nil k v ((j, w) ∷ m) = ground arith
