-- ===== src/Queue/Ring.antt =====
-- The elements of an intrusive list: what hangs on the links from the head back to the head.
use lspider.Common.{ℕ, ◌%◌, ◌≡◌, ◌≢◌, sym, ◌∙◌, List, [], ◌∷◌, arith, length, All}
use lspider.LinkTable.{word}
use lspider.Queue.{Links, LinkedList, set}

-- From `a` the links lead over `xs` to `b`, and back.
abbrev pub Chain : Links → ℕ → List ℕ → ℕ → Type 0
Chain m a [] b = (m.next a ≡ b) × (m.prev b ≡ a)
Chain m a (x ∷ xs) b = (m.next a ≡ x) × (m.prev x ≡ a) × Chain m x xs b

abbrev pub Absent : ℕ → List ℕ → Type 0
Absent a = All (λ y. y ≢ a)

abbrev pub AllDifferent : List ℕ → Type 0
AllDifferent [] = Unit
AllDifferent (x ∷ xs) = Absent x xs × AllDifferent xs

-- The list holds the elements `xs`, in this order.
pub record Holds (m : Links) (l : LinkedList) (xs : List ℕ) : Type 0 where
  pub chain : Chain m l.head xs l.head
  pub different : AllDifferent (l.head ∷ xs)
  pub no_null : Absent 0 (l.head ∷ xs)
  pub count : l.count ≡ length xs % word

-- The links of other addresses do not matter.
pub Chain-frame :
    (m n : Links) (a b : ℕ) (xs : List ℕ)
    → n.next a ≡ m.next a
    → All (λ x. n.next x ≡ m.next x) xs
    → All (λ x. n.prev x ≡ m.prev x) xs
    → n.prev b ≡ m.prev b
    → Chain m a xs b
    → Chain n a xs b
Chain-frame m n a b [] ha hn hp hb c = (ha ∙ c.0, hb ∙ c.1)
Chain-frame m n a b (x ∷ xs) ha hn hp hb c =
    (ha ∙ c.0, hp.0 ∙ c.1, Chain-frame m n x b xs hn.0 hn.1 hp.1 hb c.2)

pub set-Absent : (f : ℕ → ℕ) (a v : ℕ) (xs : List ℕ) → Absent a xs → All (λ x. set f a v x ≡ f x) xs
set-Absent f a v [] h = tt
set-Absent f a v (x ∷ xs) h = (ground arith, set-Absent f a v xs h.1)

pub set2-Absent :
    (f : ℕ → ℕ) (a v b w : ℕ) (xs : List ℕ)
    → Absent a xs
    → Absent b xs
    → All (λ x. set (set f a v) b w x ≡ f x) xs
set2-Absent f a v b w [] h k = tt
set2-Absent f a v b w (x ∷ xs) h k = (ground arith, set2-Absent f a v b w xs h.1 k.1)

-- Where a chain ends.
pub prev_ne :
    (m : Links) (a b c : ℕ) (xs : List ℕ) → a ≢ c → Absent c xs → Chain m a xs b → m.prev b ≢ c
prev_ne m a b c [] h k d = λ e. h (sym d.1 ∙ e)
prev_ne m a b c (x ∷ xs) h k d = prev_ne m x b c xs k.0 k.1 d.2
