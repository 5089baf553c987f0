-- ===== src/Extractor/Saved.antt =====
-- The links that `getLinks` saves.
use lspider.Common.{
  ℕ, ◌-◌, ◌<◌, ◌≤◌, ◌≡◌, ◌≢◌, refl, sym, subst, true, Option, none, some, Option-cases, Bool-cases,
  inl, inr, ◌⊎◌, List, [], ◌∷◌, ◌++◌, ◌==◌, ltb, leb, ◌||◌, if◌then◌else◌, if_both, Bytes, codes,
  bytes_eq, bytes_eq_iff, bytes_eq_refl, take, length, length-take, All, Lacks, arith,
}
use lspider.Common.Maps.{put, find, insert, replace, bytes_lt}
use lspider.Context.{UrlContext}
use lspider.Protocol.Text.{ltrim, rtrim}
use lspider.Url.Parse.{max_url_len}
use lspider.Url.Normalize.{normalize_url, isnormalized_url}
use lspider.Url.Normalize.Accepted.{normalize_url-isnormalized_url}
use lspider.Utf8.{to_utf8}
use lspider.Extractor.{
  max_anchor_len, up_to, amend_anchor, contains, begins, first_is, is_link, absolute, normal,
  saved_href, save_link, get_links,
}

-- A text for a link: short, on one line.
pub record OneLine (anchor : Bytes) : Type 0 where
  pub short : length anchor ≤ max_anchor_len
  pub no_newline : Lacks 10 anchor
  pub no_return : Lacks 13 anchor

-- A link of the page with the URL `own`.
pub record Saved (own : Bytes) (link : Bytes × Bytes) : Type 0 where
  pub fits : length link.0 < max_url_len - 1
  pub other : link.0 ≢ own
  pub http : begins (codes "http") link.0 ≡ true
  pub form :
      ((t : Bytes) × (link.0 ≡ codes "http://" ++ t) × (isnormalized_url 0 t ≡ true))
      ⊎ (normalize_url link.0 max_url_len ≡ none)
  pub anchor : OneLine link.1

length-up_to : (c : ℕ) (s : Bytes) → length (up_to c s) ≤ length s
unfolding up_to
length-up_to c [] = omega arith
length-up_to c (d ∷ s) = ground (arith, length-up_to c s)

up_to-Lacks : (c : ℕ) (s : Bytes) → Lacks c (up_to c s)
unfolding up_to
up_to-Lacks c [] = tt
up_to-Lacks c (d ∷ s) =
    if_both (Lacks c) (d == c) _ _ (λ e. tt) λ e. ((λ k. ground (arith, e, k)), up_to-Lacks c s)

up_to-keeps : (b c : ℕ) (s : Bytes) → Lacks b s → Lacks b (up_to c s)
unfolding up_to
up_to-keeps b c [] h = tt
up_to-keeps b c (d ∷ s) h =
    if_both (Lacks b) (d == c) _ _ (λ e. tt) λ e. (h.0, up_to-keeps b c s h.1)

amend_anchor-OneLine :
    (iconv : Bytes → Option Bytes) (anchor : Bytes) → OneLine (amend_anchor iconv anchor)
unfolding amend_anchor
amend_anchor-OneLine iconv anchor =
    let s = ltrim (rtrim (to_utf8 iconv anchor)) in
    let cut = if ltb max_anchor_len (length s) then take max_anchor_len s else s in
    let short : length cut ≤ max_anchor_len =
      if_both (λ (x : Bytes). length x ≤ max_anchor_len) (ltb max_anchor_len (length s)) _ _
        (λ e. omega (arith, length-take max_anchor_len s)) (λ e. ground (arith, e)) in
    record {
      short = omega (arith, length-up_to 13 (up_to 10 cut), length-up_to 10 cut, short);
      no_newline = up_to-keeps 10 13 (up_to 10 cut) (up_to-Lacks 10 cut);
      no_return = up_to-Lacks 13 (up_to 10 cut);
    }

absolute-begins :
    (host href a : Bytes) → absolute host href ≡ some a → begins (codes "http") a ≡ true
unfolding absolute begins
absolute-begins host href a e = elim (Bool-cases (contains (codes "://") href)) [
  | inl k ↦ elim (Bool-cases (begins (codes "http") href)) [
    | inl b ↦
        subst (λ x. begins (codes "http") x ≡ true) {x = href} {y = a} (ground (arith, e, k, b)) b
    | inr b ↦ absurd (ground (arith, e, k, b))
  ]
  | inr k ↦ elim (Bool-cases (first_is b'/' href)) [
    | inl b ↦
        subst (λ x. begins (codes "http") x ≡ true) {x = codes "http://" ++ (host ++ href)} {y = a}
          (ground (arith, e, k, b)) refl
    | inr b ↦
        subst (λ x. begins (codes "http") x ≡ true)
          {x = codes "http://" ++ (host ++ (codes "/" ++ href))} {y = a} (ground (arith, e, k, b))
          refl
  ]
]

-- The two forms of a link.
Form : Bytes → Type 0
Form n =
    (begins (codes "http") n ≡ true)
    × (((t : Bytes) × (n ≡ codes "http://" ++ t) × (isnormalized_url 0 t ≡ true))
        ⊎ (normalize_url n max_url_len ≡ none))

normal-Form : (a : Bytes) → begins (codes "http") a ≡ true → Form (normal a)
unfolding normal begins Form
normal-Form a h = elim (Option-cases (normalize_url a max_url_len)) [
  | inl e ↦ subst Form (sym (normal_same a e)) (h, inr e)
  | inr p ↦
      let (t, e) = p in
      subst Form (sym (normal_new a t e)) (
        refl,
        inl (
          t,
          refl,
          normalize_url-isnormalized_url 0 max_url_len a t (omega arith) (omega arith) e,
        ),
      )
]
  where
    normal_same : (a : Bytes) → normalize_url a max_url_len ≡ none → normal a ≡ a
    normal_same a e = ground (arith, e)

    normal_new :
        (a t : Bytes) → normalize_url a max_url_len ≡ some t → normal a ≡ codes "http://" ++ t
    normal_new a t e = ground (arith, e)

saved_href_lem :
    (u : UrlContext) (href n : Bytes)
    → saved_href u href ≡ some n
    → Form n × (length n < max_url_len - 1) × (n ≢ u.url)
unfolding saved_href
saved_href_lem u href n e = elim (Option-cases (absolute u.host href)) [
  | inl k ↦ absurd (ground (arith, e, k))
  | inr p ↦
      let (a, k) = p in
      let f = normal-Form a (absolute-begins u.host href a k) in
      elim (Bool-cases (leb (max_url_len - 1) (length (normal a)) || bytes_eq (normal a) u.url)) [
        | inl b ↦ absurd (ground (arith, e, k, b))
        | inr b ↦
            let same : normal a ≡ n = ground (arith, e, k, b) in
            subst (λ x. Form x × (length x < max_url_len - 1) × (x ≢ u.url)) same
              (
                f,
                ground arith,
                λ z. absurd (
                    ground (
                      arith,
                      b,
                      subst (λ x. bytes_eq (normal a) x ≡ true) z (bytes_eq_refl (normal a)),
                    )),
              )
      ]
]

module _ (P : Bytes × Bytes → Type 0) where
  insert-All : (k v : Bytes) (m : List (Bytes × Bytes)) → P (k, v) → All P m → All P (insert k v m)
  unfolding insert
  insert-All k v [] h g = (h, tt)
  insert-All k v ((j, w) ∷ m) h g =
      if_both (All P) (bytes_lt k j) _ _ (λ e. (h, g)) λ e. (g.0, insert-All k v m h g.1)

  replace-All :
      (k v : Bytes) (m : List (Bytes × Bytes))
      → ((j : Bytes) → j ≡ k → P (j, v))
      → All P m
      → All P (replace k v m)
  unfolding replace
  replace-All k v [] h g = tt
  replace-All k v ((j, w) ∷ m) h g =
      if_both (All P) (bytes_eq j k) _ _ (λ e. (h j ((bytes_eq_iff j k).0 e), g.1))
        λ e. (g.0, replace-All k v m h g.1)

  put-All : (k v : Bytes) (m : List (Bytes × Bytes)) → P (k, v) → All P m → All P (put k v m)
  unfolding put
  put-All k v m h g = elim (Option-cases (find k m)) [
    | inl e ↦ rw (e, put) (insert-All k v m h g)
    | inr p ↦ rw (p.1, put) (replace-All k v m (λ j e. subst (λ x. P (x, v)) (sym e) h) g)
  ]

save_link-Saved :
    (iconv : Bytes → Option Bytes) (u : UrlContext) (anchor href : Bytes)
    (links : List (Bytes × Bytes))
    → All (Saved u.url) links
    → All (Saved u.url) (save_link iconv u anchor href links)
unfolding save_link Form
save_link-Saved iconv u anchor href links h =
    let g = ltrim (rtrim (to_utf8 iconv href)) in
    if_both (All (Saved u.url)) (is_link g) _ _
      (λ e. elim (Option-cases (saved_href u g)) [
        | inl k ↦ rw (k, save_link) h
        | inr p ↦
            let (n, k) = p in
            let (f, fits, other) = saved_href_lem u g n k in
            rw k (
              put-All (Saved u.url) n (amend_anchor iconv anchor) links
                (record {
                  fits = fits;
                  other = other;
                  http = f.0;
                  form = f.1;
                  anchor = amend_anchor-OneLine iconv anchor;
                })
                h)
      ])
      λ e. h

-- Every link that `getLinks` saves begins with `http`, is shorter than `MAX_URL_LEN - 1` and is not the
-- page's own; it is `http://` before a URL that `isnormalized_url` accepts, or has no normal form. Its
-- anchor has at most `MAX_ANCHOR_LEN` bytes and no line break.
pub get_links-Saved :
    (iconv : Bytes → Option Bytes) (u : UrlContext) (elements links : List (Bytes × Bytes))
    → All (Saved u.url) links
    → All (Saved u.url) (get_links iconv u elements links)
unfolding get_links
get_links-Saved iconv u [] links h = h
get_links-Saved iconv u ((anchor, href) ∷ elements) links h =
    get_links-Saved iconv u elements (save_link iconv u anchor href links)
      (save_link-Saved iconv u anchor href links h)
