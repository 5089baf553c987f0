-- ===== src/Utf8/Grammar.antt =====
-- What `is_utf8` accepts.
use lspider.Common.{
  none, Option, ◌∙◌, ℕ, zero, suc, ◌≤◌, ◌<◌, ◌≡◌, ◌↔◌, inl, inr, refl, sym, subst, ap, true,
  Bool-cases, some, Option-cases, [], ◌∷◌, ◌++◌, arith, length, length-append, All, Bytes, ltb,
}
use lspider.Utf8.{lead_len, is_continuation, after_continuations, after_character, is_utf8}

-- How many bytes follow a lead byte. UTF-8 of up to six bytes has no lead bytes 254 and 255; here
-- four bytes follow them.
pub data Announces : ℕ → ℕ → Type 0 where
  two : (c : ℕ) → 192 ≤ c → c < 224 → Announces c 1
  three : (c : ℕ) → 224 ≤ c → c < 240 → Announces c 2
  four : (c : ℕ) → 240 ≤ c → c < 248 → Announces c 3
  five : (c : ℕ) → 248 ≤ c → c < 252 → Announces c 4
  six : (c : ℕ) → 252 ≤ c → c < 254 → Announces c 5
  beyond : (c : ℕ) → 254 ≤ c → Announces c 4

abbrev pub Follows : ℕ → Type 0
Follows d = (128 ≤ d) × (d < 192)

-- A text of characters: a byte below 128, or a lead byte with the bytes that follow it.
pub data Encoded : Bytes → Type 0 where
  done : Encoded []
  ascii : (c : ℕ) (s : Bytes) → c < 128 → Encoded s → Encoded (c ∷ s)
  multi :
      (c n : ℕ) (cs s : Bytes)
      → Announces c n
      → length cs ≡ n
      → All Follows cs
      → Encoded s
      → Encoded (c ∷ cs ++ s)

Announces-lead_len : (c n : ℕ) → Announces c n → lead_len c ≡ some n
unfolding lead_len
Announces-lead_len _ _ (two c h k) = ground arith
Announces-lead_len _ _ (three c h k) = ground arith
Announces-lead_len _ _ (four c h k) = ground arith
Announces-lead_len _ _ (five c h k) = ground arith
Announces-lead_len _ _ (six c h k) = ground arith
Announces-lead_len _ _ (beyond c h) = ground arith

Announces-high : (c n : ℕ) → Announces c n → 128 ≤ c
Announces-high _ _ (two c h k) = omega arith
Announces-high _ _ (three c h k) = omega arith
Announces-high _ _ (four c h k) = omega arith
Announces-high _ _ (five c h k) = omega arith
Announces-high _ _ (six c h k) = omega arith
Announces-high _ _ (beyond c h) = omega arith

count_lem : (n m : ℕ) → ◌≡◌ {A = Option ℕ} (some n) (some m) → n ≡ m
count_lem n m e = cc

announced : (c n m : ℕ) → Announces c m → lead_len c ≡ some n → Announces c n
announced c n m a e = subst (Announces c) (count_lem m n (sym (Announces-lead_len c m a) ∙ e)) a

no_lead : (c : ℕ) → c < 192 → lead_len c ≡ none
unfolding lead_len
no_lead c h = ground arith

lead_len-Announces : (c n : ℕ) → lead_len c ≡ some n → Announces c n
lead_len-Announces c n e = elim (Bool-cases (ltb c 192)) [
  | inl a ↦ absurd (ground (arith, no_lead c))
  | inr a ↦ elim (Bool-cases (ltb c 224)) [
    | inl b ↦ announced c n 1 (two c (ground arith) (ground arith)) e
    | inr b ↦ elim (Bool-cases (ltb c 240)) [
      | inl d ↦ announced c n 2 (three c (ground arith) (ground arith)) e
      | inr d ↦ elim (Bool-cases (ltb c 248)) [
        | inl f ↦ announced c n 3 (four c (ground arith) (ground arith)) e
        | inr f ↦ elim (Bool-cases (ltb c 252)) [
          | inl g ↦ announced c n 4 (five c (ground arith) (ground arith)) e
          | inr g ↦ elim (Bool-cases (ltb c 254)) [
            | inl h ↦ announced c n 5 (six c (ground arith) (ground arith)) e
            | inr h ↦ announced c n 4 (beyond c (ground arith)) e
          ]
        ]
      ]
    ]
  ]
]

Follows-continuations : (cs : Bytes) → All Follows cs → All (λ d. is_continuation d ≡ true) cs
Follows-continuations [] h = tt
Follows-continuations (d ∷ cs) h = (ground (arith, h.0), Follows-continuations cs h.1)

continuations-Follows : (cs : Bytes) → All (λ d. is_continuation d ≡ true) cs → All Follows cs
continuations-Follows [] h = tt
continuations-Follows (d ∷ cs) h = (ground (arith, h.0), continuations-Follows cs h.1)

pub after_continuations-append :
    (cs s : Bytes)
    → All (λ d. is_continuation d ≡ true) cs
    → after_continuations (length cs) (cs ++ s) ≡ some s
unfolding after_continuations
after_continuations-append [] s h = refl
after_continuations-append (c ∷ cs) s h = ground (arith, h.0, after_continuations-append cs s h.1)

-- The bytes that were skipped.
skipped :
    (n : ℕ) (s rest : Bytes)
    → after_continuations n s ≡ some rest
    → (cs : Bytes) × (s ≡ cs ++ rest) × (length cs ≡ n) × All (λ d. is_continuation d ≡ true) cs
unfolding after_continuations
skipped zero s rest h = ([], ground arith, refl, tt)
skipped (suc n) [] rest h = cc
skipped (suc n) (c ∷ s) rest h = elim (Bool-cases (is_continuation c)) [
  | inr e ↦ absurd (ground (arith, e))
  | inl e ↦
      let (cs, p, q, r) = skipped n s rest (ground (arith, e)) in
      (c ∷ cs, ap (◌∷◌ c) p, omega (arith, q), (e, r))
]

after_character-append :
    (c n : ℕ) (cs s : Bytes)
    → lead_len c ≡ some n
    → length cs ≡ n
    → All (λ d. is_continuation d ≡ true) cs
    → after_character c (cs ++ s) ≡ some s
unfolding after_character
after_character-append c n cs s p q a =
    ground
      (arith, p, ap (λ k. after_continuations k (cs ++ s)) q, after_continuations-append cs s a)

Encoded-is_utf8 : (s : Bytes) (fuel : ℕ) → Encoded s → length s < fuel → is_utf8 fuel s ≡ some true
unfolding is_utf8
Encoded-is_utf8 s zero e h = absurd (omega arith)
Encoded-is_utf8 _ (suc fuel) done h = refl
Encoded-is_utf8 _ (suc fuel) (ascii c s l e) h = ground (arith, Encoded-is_utf8 s fuel e)
Encoded-is_utf8 _ (suc fuel) (multi c n cs s l q a e) h = ground (
  arith,
  Announces-high c n l,
  after_character-append c n cs s (Announces-lead_len c n l) q (Follows-continuations cs a),
  Encoded-is_utf8 s fuel e,
  length-append cs s,
)

character-Encoded :
    (c : ℕ) (s rest : Bytes) → after_character c s ≡ some rest → Encoded rest → Encoded (c ∷ s)
unfolding after_character
character-Encoded c s rest h e = elim (Option-cases (lead_len c)) [
  | inl p ↦ absurd (ground (arith, p))
  | inr (n, p) ↦
      let (cs, q, r, a) = skipped n s rest (ground (arith, p)) in
      subst (λ t. Encoded (c ∷ t)) (sym q)
        (multi c n cs rest (lead_len-Announces c n p) r (continuations-Follows cs a) e)
]

is_utf8-Encoded : (s : Bytes) (fuel : ℕ) → is_utf8 fuel s ≡ some true → Encoded s
unfolding is_utf8
is_utf8-Encoded s zero h = cc
is_utf8-Encoded [] (suc fuel) h = done
is_utf8-Encoded (c ∷ s) (suc fuel) h = elim (Bool-cases (ltb c 128)) [
  | inl e ↦ ascii c s (ground arith) (is_utf8-Encoded s fuel (ground (arith, e)))
  | inr e ↦ elim (Option-cases (after_character c s)) [
    | inl f ↦ absurd (ground (arith, e, f))
    | inr (rest, f) ↦
        character-Encoded c s rest f (is_utf8-Encoded rest fuel (ground (arith, e, f)))
  ]
]

-- With more rounds than bytes, `is_utf8` accepts exactly the texts that consist of bytes below 128
-- and of lead bytes with the bytes from 128 to 191 that follow them: one after 192 to 223, two up to
-- 239, three up to 247, four up to 251, five after 252 and 253, and again four after 254 and 255,
-- which no UTF-8 text has.
pub is_utf8_iff :
    (s : Bytes) (fuel : ℕ) → length s < fuel → (is_utf8 fuel s ≡ some true) ↔ Encoded s
is_utf8_iff s fuel h = (is_utf8-Encoded s fuel, λ e. Encoded-is_utf8 s fuel e h)
