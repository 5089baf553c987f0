-- ===== src/Url/Dots/Resolved.antt =====
-- The loop of `normalize_path` beside the resolution of the segments.
use lspider.Common.{
  ℕ, true, false, ◌&&◌, List, [], ◌∷◌, ◌++◌, reverse, ◌≡◌, ◌≢◌, refl, sym, subst, ap, ◌∙◌, arith,
  take, drop, Bytes, All, Lacks, if_both,
}
use lspider.Url.Dots.{
  walk, up, back_to_slash, at_slash, is_dot, is_slash, without_dots, replace_slash, path_end,
  normalize_path,
}
use lspider.Url.Dots.Rooted.{replace_slash_root}
use lspider.Url.Dots.Segments.{
  onto, stacked, parent, step, final, resolve, first_cons, segments, joined, on_slash, on_dot,
  on_dots, mid_slash, mid_end, first_of_one, first_of_two, first_of_three,
}

-- A segment that was kept.
abbrev Name : Bytes → Type 0
Name seg = (seg ≢ []) × Lacks b'/' seg

at_slash-stacked : (st : List Bytes) → at_slash (stacked st) ≡ true
at_slash-stacked [] = refl
at_slash-stacked (seg ∷ st) = refl

back_onto :
    (seg out base : Bytes)
    → back_to_slash out ≡ base
    → Lacks b'/' seg
    → back_to_slash (onto seg out) ≡ base
unfolding back_to_slash
back_onto [] out base h k = h
back_onto (c ∷ seg) out base h k = back_onto seg (c ∷ out) base (ground (arith, h, k.0)) k.1

back_stacked : (st : List Bytes) → back_to_slash (stacked st) ≡ stacked st
unfolding back_to_slash
back_stacked [] = refl
back_stacked (seg ∷ st) = refl

onto_cons :
    (seg : Bytes) (a : ℕ) (out : Bytes) → (d : ℕ) × (r : Bytes) × (onto seg (a ∷ out) ≡ d ∷ r)
onto_cons [] a out = (a, out, refl)
onto_cons (c ∷ seg) a out = onto_cons seg c (a ∷ out)

up_cons : (c d : ℕ) (r out : Bytes) → out ≡ d ∷ r → up (c ∷ out) ≡ back_to_slash out
unfolding up
up_cons c d r out e = subst (λ x. up (c ∷ x) ≡ back_to_slash x) (sym e) refl

up-stacked : (st : List Bytes) → All Name st → up (stacked st) ≡ stacked (parent st)
unfolding up
up-stacked [] h = refl
up-stacked ([] ∷ st) h = absurd (h.0.0 refl)
up-stacked ((c ∷ seg) ∷ st) h =
    let (d, r, e) = onto_cons seg c (stacked st) in
    up_cons b'/' d r (onto (c ∷ seg) (stacked st)) e
    ∙ back_onto (c ∷ seg) (stacked st) (stacked st) (back_stacked st) h.0.1

parent-All : (st : List Bytes) → All Name st → All Name (parent st)
parent-All [] h = tt
parent-All (seg ∷ st) h = h.1

step-All : (st : List Bytes) (seg : Bytes) → All Name st → Lacks b'/' seg → All Name (step st seg)
step-All st [] h k = h
step-All st (c ∷ []) h k =
    if_both (All Name) (is_dot c) _ _ (λ e. h) λ e. (((λ z. ground (arith, z)), k), h)
step-All st (c ∷ d ∷ []) h k =
    if_both (All Name) (is_dot c && is_dot d) _ _ (λ e. parent-All st h)
      λ e. (((λ z. ground (arith, z)), k), h)
step-All st (c ∷ d ∷ e ∷ s) h k = (((λ z. ground (arith, z)), k), h)

dot_same : (c : ℕ) → is_dot c ≡ true → b'.' ≡ c
dot_same c h = ground arith

dots_same : (c d : ℕ) → (is_dot c && is_dot d) ≡ true → (b'.' ≡ c) × (b'.' ≡ d)
dots_same c d h = (ground arith, ground arith)

no_slash : (c : ℕ) (out : Bytes) → c ≢ b'/' → at_slash (c ∷ out) ≡ false
no_slash c out h = ground arith

walk-step :
    (st : List Bytes) (seg t : Bytes)
    → All Name st
    → Lacks b'/' seg
    → walk (stacked st) (seg ++ (b'/' ∷ t)) ≡ walk (stacked (step st seg)) t
walk-step st [] t h k = on_slash (stacked st) t (at_slash-stacked st)
walk-step st (c ∷ []) t h k =
    if_both (λ x. walk (stacked st) (c ∷ b'/' ∷ t) ≡ walk (stacked x) t) (is_dot c) _ _
      (λ e.
        subst (λ x. walk (stacked st) (x ∷ b'/' ∷ t) ≡ walk (stacked st) t) (dot_same c e)
          (on_dot (stacked st) t (at_slash-stacked st)))
      λ e.
        first_of_one (stacked st) c (b'/' ∷ t) (at_slash-stacked st) k.0 e
        ∙ mid_slash [] (c ∷ stacked st) t (no_slash c (stacked st) k.0) tt
walk-step st (c ∷ d ∷ []) t h k =
    if_both (λ x. walk (stacked st) (c ∷ d ∷ b'/' ∷ t) ≡ walk (stacked x) t) (is_dot c && is_dot d)
      _ _
      (λ e.
        let (p, q) = dots_same c d e in
        subst (λ x. walk (stacked st) (x ∷ d ∷ b'/' ∷ t) ≡ walk (stacked (parent st)) t) p
          (subst (λ x. walk (stacked st) (b'.' ∷ x ∷ b'/' ∷ t) ≡ walk (stacked (parent st)) t) q
            (on_dots (stacked st) t (at_slash-stacked st) ∙ ap (λ x. walk x t) (up-stacked st h))))
      λ e.
        first_of_two (stacked st) c d (b'/' ∷ t) (at_slash-stacked st) k.0 k.1.0 e
        ∙ mid_slash (d ∷ []) (c ∷ stacked st) t (no_slash c (stacked st) k.0) k.1
walk-step st (c ∷ d ∷ e ∷ s) t h k =
    first_of_three (stacked st) c d e (s ++ (b'/' ∷ t)) (at_slash-stacked st) k.0 k.1.0 k.1.1.0
    ∙ mid_slash (d ∷ e ∷ s) (c ∷ stacked st) t (no_slash c (stacked st) k.0) k.1

end_dot : (out : Bytes) → at_slash out ≡ true → walk out (b'.' ∷ []) ≡ out
unfolding walk
end_dot out h = ground (arith, h)

end_dots : (out : Bytes) → at_slash out ≡ true → walk out (b'.' ∷ b'.' ∷ []) ≡ up out
unfolding walk
end_dots out h = ground (arith, h)

end_none : (out : Bytes) → walk out [] ≡ out
unfolding walk
end_none out = refl

walk-final :
    (st : List Bytes) (seg : Bytes)
    → All Name st
    → Lacks b'/' seg
    → walk (stacked st) seg ≡ final st seg
walk-final st [] h k = end_none (stacked st)
walk-final st (c ∷ []) h k =
    if_both (λ x. walk (stacked st) (c ∷ []) ≡ x) (is_dot c) _ _
      (λ e.
        subst (λ x. walk (stacked st) (x ∷ []) ≡ stacked st) (dot_same c e)
          (end_dot (stacked st) (at_slash-stacked st)))
      λ e. first_of_one (stacked st) c [] (at_slash-stacked st) k.0 e ∙ end_none (c ∷ stacked st)
walk-final st (c ∷ d ∷ []) h k =
    if_both (λ x. walk (stacked st) (c ∷ d ∷ []) ≡ x) (is_dot c && is_dot d) _ _
      (λ e.
        let (p, q) = dots_same c d e in
        subst (λ x. walk (stacked st) (x ∷ d ∷ []) ≡ stacked (parent st)) p
          (subst (λ x. walk (stacked st) (b'.' ∷ x ∷ []) ≡ stacked (parent st)) q
            (end_dots (stacked st) (at_slash-stacked st) ∙ up-stacked st h)))
      λ e.
        first_of_two (stacked st) c d [] (at_slash-stacked st) k.0 k.1.0 e
        ∙ mid_end (d ∷ []) (c ∷ stacked st) (no_slash c (stacked st) k.0) k.1
walk-final st (c ∷ d ∷ e ∷ s) h k =
    first_of_three (stacked st) c d e s (at_slash-stacked st) k.0 k.1.0 k.1.1.0
    ∙ mid_end (d ∷ e ∷ s) (c ∷ stacked st) (no_slash c (stacked st) k.0) k.1

walk-resolve :
    (segs : List Bytes) (st : List Bytes)
    → All Name st
    → All (Lacks b'/') segs
    → walk (stacked st) (joined segs) ≡ resolve st segs
walk-resolve [] st h k = end_none (stacked st)
walk-resolve (seg ∷ []) st h k = walk-final st seg h k.0
walk-resolve (seg ∷ next ∷ segs) st h k =
    walk-step st seg (joined (next ∷ segs)) h k.0
    ∙ walk-resolve (next ∷ segs) (step st seg) (step-All st seg h k.0) k.1

segments_cons : (s : Bytes) → (seg : Bytes) × (segs : List Bytes) × (segments s ≡ seg ∷ segs)
segments_cons [] = ([], [], refl)
segments_cons (c ∷ s) =
    let (seg, segs, e) = segments_cons s in
    if_both (λ x. (seg : Bytes) × (segs : List Bytes) × (x ≡ seg ∷ segs)) (is_slash c) _ _
      (λ k. ([], segments s, refl)) λ k. (c ∷ seg, segs, ap (first_cons c) e)

joined_first :
    (c : ℕ) (seg : Bytes) (segs : List Bytes)
    → joined (first_cons c (seg ∷ segs)) ≡ c ∷ joined (seg ∷ segs)
joined_first c seg [] = refl
joined_first c seg (x ∷ segs) = refl

joined_slash :
    (seg : Bytes) (segs : List Bytes) → joined ([] ∷ seg ∷ segs) ≡ b'/' ∷ joined (seg ∷ segs)
joined_slash seg segs = refl

joined-segments : (s : Bytes) → joined (segments s) ≡ s
joined-segments [] = refl
joined-segments (c ∷ s) =
    let (seg, segs, e) = segments_cons s in
    let rest : joined (seg ∷ segs) ≡ s = ap joined (sym e) ∙ joined-segments s in
    if_both (λ x. joined x ≡ c ∷ s) (is_slash c) _ _
      (λ k.
        ap (λ x. joined ([] ∷ x)) e ∙ (ap (λ x. b'/' ∷ x) rest ∙ ap (λ x. x ∷ s) (slash_same c k)))
      λ k. ap (λ x. joined (first_cons c x)) e ∙ (joined_first c seg segs ∙ ap (λ x. c ∷ x) rest)
  where
    slash_same : (c : ℕ) → is_slash c ≡ true → b'/' ≡ c
    slash_same c k = ground arith

segments-Lacks : (s : Bytes) → All (Lacks b'/') (segments s)
segments-Lacks [] = (tt, tt)
segments-Lacks (c ∷ s) =
    let (seg, segs, e) = segments_cons s in
    let rest = subst (All (Lacks b'/')) e (segments-Lacks s) in
    if_both (All (Lacks b'/')) (is_slash c) _ _ (λ k. (tt, segments-Lacks s))
      λ k.
        subst (λ x. All (Lacks b'/') (first_cons c x)) (sym e)
          (((λ z. ground (arith, k, z)), rest.0), rest.1)

-- `normalize_path` resolves the segments between the first `/` and the first `?`, else the first `;`,
-- of the path with its backslashes turned: `.` and empty segments are dropped, `..` takes the segment
-- before it away, and what follows stays.
pub normalize_path-resolve :
    (s : Bytes)
    → normalize_path (b'/' ∷ s)
      ≡ reverse (resolve [] (segments (take (path_end (replace_slash s)) (replace_slash s))))
        ++ drop (path_end (replace_slash s)) (replace_slash s)
unfolding normalize_path without_dots
normalize_path-resolve s =
    let r = replace_slash s in
    let before = take (path_end r) r in
    ap without_dots (replace_slash_root s)
    ∙ ap (λ x. reverse x ++ drop (path_end r) r)
        (ap (walk (b'/' ∷ [])) (sym (joined-segments before))
          ∙ walk-resolve (segments before) [] tt (segments-Lacks before))
