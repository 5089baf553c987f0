-- ===== src/Url/Dots/Segments.antt =====
-- The loop of `normalize_path` as the resolution of a path's segments.
use lspider.Common.{
  ℕ, true, false, ◌&&◌, List, [], ◌∷◌, ◌++◌, ◌≡◌, ◌≢◌, refl, ◌∙◌, arith, Bytes, Lacks,
  if◌then◌else◌,
}
use lspider.Url.Dots.{walk, up, at_slash, is_dot, is_slash}

-- The bytes of `s` put onto what is read backwards.
abbrev pub onto : Bytes → Bytes → Bytes
onto [] out = out
onto (c ∷ s) out = onto s (c ∷ out)

-- A path of segments, the last one first, read backwards.
abbrev pub stacked : List Bytes → Bytes
stacked [] = b'/' ∷ []
stacked (seg ∷ st) = b'/' ∷ onto seg (stacked st)

abbrev pub parent : List Bytes → List Bytes
parent [] = []
parent (seg ∷ st) = st

-- A segment before a `/`: an empty one and `.` are dropped, `..` takes the one before it away.
abbrev pub step : List Bytes → Bytes → List Bytes
step st [] = st
step st (c ∷ []) = if is_dot c then st else (c ∷ []) ∷ st
step st (c ∷ d ∷ []) = if is_dot c && is_dot d then parent st else (c ∷ d ∷ []) ∷ st
step st (c ∷ d ∷ e ∷ s) = (c ∷ d ∷ e ∷ s) ∷ st

-- The last segment has no `/` behind it.
abbrev pub final : List Bytes → Bytes → Bytes
final st [] = stacked st
final st (c ∷ []) = if is_dot c then stacked st else onto (c ∷ []) (stacked st)
final st (c ∷ d ∷ []) =
    if is_dot c && is_dot d then stacked (parent st) else onto (c ∷ d ∷ []) (stacked st)
final st (c ∷ d ∷ e ∷ s) = onto (c ∷ d ∷ e ∷ s) (stacked st)

abbrev pub resolve : List Bytes → List Bytes → Bytes
resolve st [] = stacked st
resolve st (seg ∷ []) = final st seg
resolve st (seg ∷ next ∷ segs) = resolve (step st seg) (next ∷ segs)

-- The segments between the slashes.
abbrev pub first_cons : ℕ → List Bytes → List Bytes
first_cons c [] = (c ∷ []) ∷ []
first_cons c (seg ∷ segs) = (c ∷ seg) ∷ segs

abbrev pub segments : Bytes → List Bytes
segments [] = [] ∷ []
segments (c ∷ s) = if is_slash c then [] ∷ segments s else first_cons c (segments s)

abbrev pub joined : List Bytes → Bytes
joined [] = []
joined (seg ∷ []) = seg
joined (seg ∷ next ∷ segs) = seg ++ (b'/' ∷ joined (next ∷ segs))

on_mid :
    (out : Bytes) (c : ℕ) (t : Bytes) → at_slash out ≡ false → walk out (c ∷ t) ≡ walk (c ∷ out) t
unfolding walk
on_mid out c [] h = ground (arith, h)
on_mid out c (d ∷ []) h = ground (arith, h)
on_mid out c (d ∷ e ∷ t) h = ground (arith, h)

pub on_slash : (out t : Bytes) → at_slash out ≡ true → walk out (b'/' ∷ t) ≡ walk out t
unfolding walk
on_slash out [] h = ground (arith, h)
on_slash out (d ∷ []) h = ground (arith, h)
on_slash out (d ∷ e ∷ t) h = ground (arith, h)

pub on_dot : (out t : Bytes) → at_slash out ≡ true → walk out (b'.' ∷ b'/' ∷ t) ≡ walk out t
unfolding walk
on_dot out [] h = ground (arith, h)
on_dot out (e ∷ t) h = ground (arith, h)

pub on_dots :
    (out t : Bytes) → at_slash out ≡ true → walk out (b'.' ∷ b'.' ∷ b'/' ∷ t) ≡ walk (up out) t
unfolding walk
on_dots out t h = ground (arith, h)

-- A segment of which the first byte is written.
pub mid_slash :
    (seg out t : Bytes)
    → at_slash out ≡ false
    → Lacks b'/' seg
    → walk out (seg ++ (b'/' ∷ t)) ≡ walk (b'/' ∷ onto seg out) t
mid_slash [] out t h k = on_mid out b'/' t h
mid_slash (c ∷ seg) out t h k =
    on_mid out c _ h ∙ mid_slash seg (c ∷ out) t (ground (arith, k.0)) k.1

pub mid_end :
    (seg out : Bytes) → at_slash out ≡ false → Lacks b'/' seg → walk out seg ≡ onto seg out
unfolding walk
mid_end [] out h k = refl
mid_end (c ∷ seg) out h k = on_mid out c seg h ∙ mid_end seg (c ∷ out) (ground (arith, k.0)) k.1

pub first_of_one :
    (out : Bytes) (c : ℕ) (t : Bytes)
    → at_slash out ≡ true
    → c ≢ b'/'
    → is_dot c ≡ false
    → walk out (c ∷ t) ≡ walk (c ∷ out) t
unfolding walk
first_of_one out c [] h k n = ground (arith, h, k, n)
first_of_one out c (d ∷ []) h k n = ground (arith, h, k, n)
first_of_one out c (d ∷ e ∷ t) h k n = ground (arith, h, k, n)

pub first_of_two :
    (out : Bytes) (c d : ℕ) (t : Bytes)
    → at_slash out ≡ true
    → c ≢ b'/'
    → d ≢ b'/'
    → (is_dot c && is_dot d) ≡ false
    → walk out (c ∷ d ∷ t) ≡ walk (c ∷ out) (d ∷ t)
unfolding walk
first_of_two out c d [] h k l n = ground (arith, h, k, l, n)
first_of_two out c d (e ∷ t) h k l n = ground (arith, h, k, l, n)

pub first_of_three :
    (out : Bytes) (c d e : ℕ) (t : Bytes)
    → at_slash out ≡ true
    → c ≢ b'/'
    → d ≢ b'/'
    → e ≢ b'/'
    → walk out (c ∷ d ∷ e ∷ t) ≡ walk (c ∷ out) (d ∷ e ∷ t)
unfolding walk
first_of_three out c d e t h k l n = ground (arith, h, k, l, n)
