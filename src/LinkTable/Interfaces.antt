-- ===== src/LinkTable/Interfaces.antt =====
-- What src/link_table.h takes from the language: `std::priority_queue` over url contexts and `float`.
use lspider.Common.{
  ℕ, suc, ltb, ◌≡◌, ◌⊎◌, Bool, true, false, Option, none, some, List, [], ◌∷◌, All,
}
use mathlib.Core.List.{Perm}
use lspider.Context.{UrlContext}

-- `UrlContextComp` of src/url_context.h.
unfoldable pub url_context_comp : UrlContext → UrlContext → Bool
url_context_comp u v = ltb v.link_depth u.link_depth

-- `priority_queue<UrlContext*, vector<UrlContext*>, UrlContextComp>`: no element stands after the top
-- in the order of the comparison, and which of several such is at the top is not said. `pop` is `top` and `pop`, `none` on the empty queue, where
-- the library leaves the call undefined.
pub record PriorityQueue : Type 1 where
  pub Queue : Type 0
  pub elems : Queue → List UrlContext
  pub size : Queue → ℕ
  pub empty : Queue
  pub push : UrlContext → Queue → Queue
  pub pop : Queue → Option (UrlContext × Queue)
  pub size-empty : size empty ≡ 0
  pub size-push : (u : UrlContext) (s : Queue) → size (push u s) ≡ suc (size s)
  pub size-pop : (s t : Queue) (u : UrlContext) → pop s ≡ some (u, t) → size s ≡ suc (size t)
  pub pop-none : (s : Queue) → pop s ≡ none → size s ≡ 0
  pub elems-empty : elems empty ≡ []
  pub elems-push : (u : UrlContext) (s : Queue) → Perm (elems (push u s)) (u ∷ elems s)
  pub elems-pop :
      (s t : Queue) (u : UrlContext) → pop s ≡ some (u, t) → Perm (elems s) (u ∷ elems t)
  pub pop-top :
      (s t : Queue) (u : UrlContext)
      → pop s ≡ some (u, t)
      → All (λ v. url_context_comp u v ≡ false) (elems t)

-- The operations of `float` on selection counts: `x < y`, and `x += 1.0 / quota`. The quota is 1
-- throughout, and there a float below `MAX_SCALE` stays below it: past 2^24 the sum rounds down.
pub record Float : Type 1 where
  pub Count : Type 0
  pub lt : Count → Count → Bool
  pub zero_count : Count
  pub max_scale : Count
  pub add_inverse : Count → ℕ → Count
  pub zero_below : lt zero_count max_scale ≡ true
  pub add_below : (x : Count) → lt x max_scale ≡ true → lt (add_inverse x 1) max_scale ≡ true
  pub lt_irrefl : (x : Count) → lt x x ≡ false
  pub lt_trans : (x y z : Count) → lt x y ≡ true → lt y z ≡ true → lt x z ≡ true
  pub lt_negtrans : (x y z : Count) → lt x z ≡ true → (lt x y ≡ true) ⊎ (lt y z ≡ true)
