-- ===== src/Queue/Walk.antt =====
-- Walking over an intrusive list.
use lspider.Common.{
  ℕ, zero, suc, ◌<◌, ◌≡◌, ap, Bool, true, ◌&&◌, Option, none, some, List, [], ◌∷◌, arith, length,
  if◌then◌else◌,
}
use lspider.Queue.{Links, LinkedList, enumerate, find_if}
use lspider.Queue.Ring.{Chain, Absent, Holds}

abbrev pub all : (ℕ → Bool) → List ℕ → Bool
all f [] = true
all f (x ∷ xs) = f x && all f xs

abbrev pub first : (ℕ → Bool) → List ℕ → Option ℕ
first f [] = none
first f (x ∷ xs) = if f x then some x else first f xs

enumerate-Chain :
    (f : ℕ → Bool) (fuel : ℕ) (m : Links) (l : LinkedList) (a : ℕ) (xs : List ℕ)
    → Chain m a xs l.head
    → Absent l.head xs
    → length xs < fuel
    → enumerate f fuel m l (m.next a) ≡ some (all f xs)
unfolding enumerate
enumerate-Chain f zero m l a xs c h k = absurd (omega arith)
enumerate-Chain f (suc fuel) m l a [] c h k = ground (arith, c.0)
enumerate-Chain f (suc fuel) m l a (x ∷ xs) c h k =
    ground (arith, c.0, h.0, ap f c.0, ap m.next c.0, enumerate-Chain f fuel m l x xs c.2 h.1)

find_if-Chain :
    (f : ℕ → Bool) (fuel : ℕ) (m : Links) (l : LinkedList) (a : ℕ) (xs : List ℕ)
    → Chain m a xs l.head
    → Absent l.head xs
    → length xs < fuel
    → find_if f fuel m l (m.next a) ≡ some (first f xs)
unfolding find_if
find_if-Chain f zero m l a xs c h k = absurd (omega arith)
find_if-Chain f (suc fuel) m l a [] c h k = ground (arith, c.0)
find_if-Chain f (suc fuel) m l a (x ∷ xs) c h k =
    ground (arith, c.0, h.0, ap f c.0, ap m.next c.0, find_if-Chain f fuel m l x xs c.2 h.1)

-- With more rounds than the list holds elements, `Enumerate` and `FindIf` end: the first says
-- whether the callback holds of every element, the second returns the first element that it holds
-- of, or null.
pub enumerate-Holds :
    (f : ℕ → Bool) (m : Links) (l : LinkedList) (xs : List ℕ) (fuel : ℕ)
    → Holds m l xs
    → length xs < fuel
    → (enumerate f fuel m l (m.next l.head) ≡ some (all f xs))
      × (find_if f fuel m l (m.next l.head) ≡ some (first f xs))
enumerate-Holds f m l xs fuel v h = (
  enumerate-Chain f fuel m l l.head xs v.chain v.different.0 h,
  find_if-Chain f fuel m l l.head xs v.chain v.different.0 h,
)
