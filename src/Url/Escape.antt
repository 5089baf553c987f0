-- ===== src/Url/Escape.antt =====
-- `space_escape_path` of src/url_tools.cpp.
mod Tests
use lspider.Common.{
  ℕ, suc, ◌+◌, ◌<◌, ◌≤◌, ◌≡◌, ◌≢◌, refl, ap, ◌∙◌, Bool, true, false, Bool-cases, inl, inr, Option,
  none, some, List, [], ◌∷◌, ◌++◌, arith, length, length-append, Bytes, codes, Lacks, ltb, leb,
  ◌==◌, if◌then◌else◌,
}

-- The loop, which has written `pout` bytes, and what it writes from there on. `none` is the return
-- value 0.
abbrev put_before : Bytes → Option Bytes → Option Bytes
put_before t none = none
put_before t (some s) = some (t ++ s)

unfoldable pub escape_from : ℕ → ℕ → Bytes → Option Bytes
escape_from max_path_len pout [] = if leb max_path_len pout then none else some []
escape_from max_path_len pout (c ∷ s) = elim (c == 32) [
  | false ↦
      if leb max_path_len (pout + 1)
      then none
      else put_before (c ∷ []) (escape_from max_path_len (pout + 1) s)
  | true ↦
      if leb max_path_len (pout + 3)
      then none
      else put_before (codes "%20") (escape_from max_path_len (pout + 3) s)
]

unfoldable pub space_escape_path : ℕ → Bytes → Option Bytes
space_escape_path max_path_len path = escape_from max_path_len 0 path

-- Every space replaced.
abbrev pub escaped : Bytes → Bytes
escaped [] = []
escaped (c ∷ s) = (if c == 32 then codes "%20" else c ∷ []) ++ escaped s

abbrev room : ℕ → ℕ → Bytes → Option Bytes
room max pout t = if ltb (pout + length t) max then some t else none

room-put :
    (max pout : ℕ) (t s : Bytes)
    → (if leb max (pout + length t) then none else put_before t (room max (pout + length t) s))
      ≡ room max pout (t ++ s)
room-put max pout t s = ground (arith, length-append t s)

escape_from_lem : (max pout : ℕ) (s : Bytes) → escape_from max pout s ≡ room max pout (escaped s)
unfolding escape_from
escape_from_lem max pout [] = ground arith
escape_from_lem max pout (c ∷ s) = elim (Bool-cases (c == 32)) [
  | inl e ↦ ground (
    arith,
    e,
    ap (put_before (codes "%20")) (escape_from_lem max (pout + 3) s),
    room-put max pout (codes "%20") (escaped s),
  )
  | inr e ↦ ground (
    arith,
    e,
    ap (put_before (c ∷ [])) (escape_from_lem max (pout + 1) s),
    room-put max pout (c ∷ []) (escaped s),
  )
]

escaped-Lacks : (s : Bytes) → Lacks 32 (escaped s)
escaped-Lacks [] = tt
escaped-Lacks (c ∷ s) = ground (arith, escaped-Lacks s)

-- `space_escape_path` replaces every space by `%20`, if the result and its terminating zero fit the
-- buffer, and fails otherwise; no space is left.
pub space_escape_path-escaped :
    (max_path_len : ℕ) (path : Bytes)
    → (space_escape_path max_path_len path
        ≡ (if ltb (length (escaped path)) max_path_len then some (escaped path) else none))
      × Lacks 32 (escaped path)
unfolding space_escape_path
space_escape_path-escaped max_path_len path =
    (escape_from_lem max_path_len 0 path ∙ ground arith, escaped-Lacks path)
