-- ===== src/Url/Section/Visible.antt =====
-- The bytes and the room of what `single_path_nointer` leaves.
use lspider.Common.{
  ℕ, suc, ◌+◌, ◌<◌, ◌≤◌, Bool, true, false, not, ◌&&◌, ◌||◌, none, some, [], ◌∷◌, ◌++◌, ◌≡◌, ◌≢◌,
  refl, ◌∙◌, sym, subst, inl, inr, Bool-cases, Option-cases, arith, ◌==◌, length, length-append,
  Bytes, All, All-append, Lacks, if_both, elim_both, ltb_sound, ltb, if◌then◌else◌, codes,
}
use lspider.Url.Chars.{pchar, param, uch_res, to_char, reserved, hex_value}
use lspider.Url.Parse.{max_path_len}
use lspider.Url.Escape.{escaped, space_escape_path, space_escape_path-escaped}
use lspider.Url.Section.{
  Section, in_path, in_params, in_query, of_section, separated, Written, keep, put_all,
  at_separator, single_from, with_spaces, single_path_nointer,
}

-- A byte from the space on, other than `#`.
abbrev pub Visible : ℕ → Type 0
Visible c = uch_res c ≡ true

-- What a run over `n` bytes may write.
pub data Fine (n : ℕ) : Written → Type 0 where
  failed : Fine n none
  wrote :
      (t : Bytes) (f : Bool)
      → All Visible t
      → length t ≤ n
      → (f ≡ false → Lacks 32 t)
      → Fine n (some (t, f))

keep-Fine : (c n : ℕ) (w : Written) → Visible c → Fine n w → Fine (suc n) (keep c w)
keep-Fine c n _ h failed = failed
keep-Fine c n _ h (wrote t f a l k) =
    wrote (c ∷ t) (c == 32 || f) (h, a) (omega arith) (λ e. ground (arith, e, k))

put_all-Fine :
    (s : Bytes) (n : ℕ) (w : Written)
    → All Visible s
    → Lacks 32 s
    → Fine n w
    → Fine (length s + n) (put_all s w)
put_all-Fine s n _ h m failed = failed
put_all-Fine s n _ h m (wrote t f a l k) =
    wrote (s ++ t) f (All-append _ s t h a) (omega (arith, length-append s t))
      (λ e. All-append _ s t m (k e))

more : (n m : ℕ) (w : Written) → n ≤ m → Fine n w → Fine m w
more n m _ h failed = failed
more n m _ h (wrote t f a l k) = wrote t f a (omega arith) k

of_section-Visible : (sec : Section) (c : ℕ) → of_section sec c ≡ true → Visible c
unfolding of_section pchar param uch_res
of_section-Visible in_path c h = ground arith
of_section-Visible in_params c h = ground arith
of_section-Visible in_query c h = h

separated-Visible :
    (sec next : Section) (c : ℕ) → separated sec c ≡ some next → Visible c × (c ≢ 32)
unfolding separated uch_res
separated-Visible in_path next c h = (ground (arith, h), λ e. ground (arith, h, e))
separated-Visible in_params next c h = (ground (arith, h), λ e. ground (arith, h, e))
separated-Visible in_query next c h = (ground (arith, h), λ e. ground (arith, h, e))

hex_digit : (c : ℕ) → (hex_value c == 0 && not (c == 48)) ≡ false → Visible c × (c ≢ 32)
unfolding hex_value uch_res
hex_digit c h = (ground arith, λ e. ground arith)

escaped_digits :
    (d e : ℕ) → (to_char d e == 0) ≡ false → (Visible d × (d ≢ 32)) × (Visible e × (e ≢ 32))
unfolding to_char
escaped_digits d e h = (hex_digit d (ground arith), hex_digit e (ground arith))

put_one-Fine :
    (c n : ℕ) (w : Written) → Visible c → c ≢ 32 → Fine n w → Fine (suc n) (put_all (c ∷ []) w)
put_one-Fine c n w h m k =
    more _ (suc n) _ (omega arith) (put_all-Fine (c ∷ []) n w (h, tt) (m, tt) k)

with_next :
    (sec next : Section) (c : ℕ) (rest : Section → Written)
    → separated sec c ≡ some next
    → put_all (c ∷ []) (rest next) ≡ at_separator sec c rest
with_next sec next c rest e = rw (e, at_separator) refl

at_separator-Fine :
    (sec : Section) (c n : ℕ) (rest : Section → Written)
    → ((next : Section) → Fine n (rest next))
    → Fine (suc n) (at_separator sec c rest)
at_separator-Fine sec c n rest h = elim (Option-cases (separated sec c)) [
  | inl e ↦ subst (Fine (suc n)) (ground (arith, e)) (
      if_both (Fine (suc n)) (c == b'#') _ _ (λ k. wrote [] false tt (omega arith) (λ z. tt))
        λ k. failed)
  | inr p ↦
      let (next, e) = p in
      let v = separated-Visible sec next c e in
      subst (Fine (suc n)) (with_next sec next c rest e)
        (put_one-Fine c n (rest next) v.0 v.1 (h next))
]

plain-Fine :
    (sec : Section) (c n : ℕ) (w : Written) (rest : Section → Written)
    → Fine n w
    → ((next : Section) → Fine n (rest next))
    → Fine (suc n) (elim (of_section sec c) [ true ↦ keep c w | false ↦ at_separator sec c rest ])
plain-Fine sec c n w rest h k =
    elim_both (Fine (suc n)) (of_section sec c) _ _
      (λ e. keep-Fine c n w (of_section-Visible sec c e) h) λ e. at_separator-Fine sec c n rest k

escape-Fine :
    (sec : Section) (d e n : ℕ) (v w : Written)
    → Fine (suc (suc n)) v
    → Fine n w
    → Fine (suc (suc (suc n))) (elim (to_char d e == 0) [
      | true ↦ put_all (b'%' ∷ []) v
      | false ↦ elim (of_section sec (to_char d e) && not (reserved (to_char d e))) [
        | true ↦ keep (to_char d e) w
        | false ↦ put_all (b'%' ∷ d ∷ e ∷ []) w
      ]
    ])
unfolding uch_res
escape-Fine sec d e n v w h k =
    elim_both (Fine (suc (suc (suc n)))) (to_char d e == 0) _ _
      (λ z. put_one-Fine b'%' (suc (suc n)) v refl (λ x. ground (arith, x)) h)
      λ z.
        elim_both (Fine (suc (suc (suc n))))
          (of_section sec (to_char d e) && not (reserved (to_char d e))) _ _
          (λ y.
            more (suc n) _ _ (omega arith)
              (keep-Fine (to_char d e) n w (of_section-Visible sec (to_char d e) (ground arith)) k))
          λ y.
            let (a, b) = escaped_digits d e z in
            more _ (suc (suc (suc n))) _ (omega arith) (
              put_all-Fine (b'%' ∷ d ∷ e ∷ []) n w (refl, (a.0, (b.0, tt)))
                ((λ x. ground (arith, x)), (a.1, (b.1, tt))) k)

single_from-Fine : (sec : Section) (s : Bytes) → Fine (length s) (single_from sec s)
unfolding single_from
single_from-Fine sec [] = wrote [] false tt (omega arith) (λ z. tt)
single_from-Fine sec (c ∷ []) =
    plain-Fine sec c 0 _ _ (single_from-Fine sec []) (λ next. single_from-Fine next [])
single_from-Fine sec (c ∷ d ∷ []) =
    plain-Fine sec c 1 _ _ (single_from-Fine sec (d ∷ [])) (λ next. single_from-Fine next (d ∷ []))
single_from-Fine sec (c ∷ d ∷ e ∷ s) =
    elim_both (Fine (suc (suc (suc (length s))))) (of_section sec c) _ _
      (λ h.
        elim_both (Fine (suc (suc (suc (length s))))) (c == b'%') _ _
          (λ k.
            escape-Fine sec d e (length s) _ _ (single_from-Fine sec (d ∷ e ∷ s))
              (single_from-Fine sec s))
          λ k.
            keep-Fine c (suc (suc (length s))) _ (of_section-Visible sec c h)
              (single_from-Fine sec (d ∷ e ∷ s)))
      λ h.
        at_separator-Fine sec c (suc (suc (length s))) _ (λ next. single_from-Fine next (d ∷ e ∷ s))

space_Visible : All Visible (codes "%20")
unfolding uch_res
space_Visible = (refl, (refl, (refl, tt)))

escaped-Visible : (s : Bytes) → All Visible s → All Visible (escaped s)
escaped-Visible [] h = tt
escaped-Visible (c ∷ s) h =
    All-append Visible (if c == 32 then codes "%20" else c ∷ []) (escaped s)
      (if_both (All Visible) (c == 32) _ _ (λ e. space_Visible) (λ e. (h.0, tt)))
      (escaped-Visible s h.1)

room-short :
    (n : ℕ) (s t : Bytes)
    → (if ltb (length s) n then some s else none) ≡ some t
    → (s ≡ t) × (length t < n)
room-short n s t e = elim (Bool-cases (ltb (length s) n)) [
  | inl h ↦ (
    ground (arith, e, h),
    subst (λ u. length u < n) (ground (arith, e, h)) (ltb_sound (length s) n h),
  )
  | inr h ↦ absurd (ground (arith, e, h))
]

-- The path of a URL when `single_path_nointer` has succeeded.
pub record Plain (t : Bytes) : Type 0 where
  pub visible : All Visible t
  pub no_space : Lacks 32 t
  pub short : length t < max_path_len

spaces-Plain : (s t : Bytes) → All Visible s → space_escape_path max_path_len s ≡ some t → Plain t
spaces-Plain s t a e =
    let (whole, no_space) = space_escape_path-escaped max_path_len s in
    let (same, short) = room-short max_path_len (escaped s) t (sym whole ∙ e) in
    record {
      visible = subst (All Visible) same (escaped-Visible s a);
      no_space = subst (Lacks 32) same no_space;
      short = short;
    }

with_spaces-Plain :
    (n len : ℕ) (w : Written) (t : Bytes)
    → Fine n w
    → n < max_path_len
    → with_spaces len w ≡ some t
    → Plain t
with_spaces-Plain n len _ t failed h e = absurd (ground (arith, e))
with_spaces-Plain n len _ t (wrote s false a l k) h e =
    let same : s ≡ t = ground (arith, e) in
    record {
      visible = subst (All Visible) same a;
      no_space = subst (Lacks 32) same (k refl);
      short = subst (λ u. length u < max_path_len) same (omega arith);
    }
with_spaces-Plain n len _ t (wrote s true a l k) h e = spaces-Plain s t a (ground (arith, e))

-- From a path shorter than its buffer, `single_path_nointer` leaves bytes from 33 on, no `#` and no
-- space among them, that fit the buffer. DEL, 127, may be among them.
pub single_path_nointer-Plain :
    (s t : Bytes) → length s < max_path_len → single_path_nointer s max_path_len ≡ some t → Plain t
unfolding single_path_nointer
single_path_nointer-Plain s t h e =
    with_spaces-Plain (length s) max_path_len _ t (single_from-Fine in_path s) h e
