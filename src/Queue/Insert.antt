-- ===== src/Queue/Insert.antt =====
-- Insertion before and after the head.
use lspider.Common.{ℕ, ◌≡◌, ◌≢◌, sym, subst, List, [], ◌∷◌, ◌++◌, arith}
use lspider.Queue.{Links, set, insert_prev, insert_next}
use lspider.Queue.Ring.{Chain, Absent, AllDifferent, Chain-frame, set2-Absent, prev_ne}

pub insert_prev-Chain :
    (m : Links) (a b e : ℕ) (xs : List ℕ)
    → a ≢ e
    → b ≢ e
    → Absent e xs
    → Absent b xs
    → AllDifferent (a ∷ xs)
    → Chain m a xs b
    → Chain (insert_prev b e m) a (xs ++ e ∷ []) b
unfolding insert_prev
insert_prev-Chain m a b e [] ha hb he hx d c = ground arith
insert_prev-Chain m a b e (x ∷ xs) ha hb he hx d c = (
  ground (arith, c.0, prev_ne m x b a xs d.0.0 d.0.1 c.2),
  ground (arith, c.1, he.0, hx.0),
  insert_prev-Chain m x b e xs he.0 hb he.1 hx.1 d.1 c.2,
)

pub insert_next-Chain :
    (m : Links) (h e : ℕ) (xs : List ℕ)
    → h ≢ e
    → Absent e xs
    → AllDifferent (h ∷ xs)
    → Chain m h xs h
    → Chain (insert_next h e m) h (e ∷ xs) h
unfolding insert_next
insert_next-Chain m h e [] he ha d c = ground arith
insert_next-Chain m h e (x ∷ xs) he ha d c =
    let i = set m.next e (m.next h) h in
    let p : i ≡ x = ground (arith, c.0) in
    (
      ground arith,
      ground (arith, p, ha.0),
      (
        ground (arith, c.0),
        ground (arith, p),
        Chain-frame m (insert_next h e m) x h xs (ground (arith, d.0.0, ha.0))
            (set2-Absent m.next e (m.next h) h e xs ha.1 d.0.1)
            (set2-Absent m.prev e h i e xs ha.1 (subst (λ j. Absent j xs) (sym p) d.1.0))
            (ground (arith, p, d.0.0)) c.2,
      ),
    )
