-- ===== src/Url/Site/Port.antt =====
-- What `normalize_port` leaves.
use lspider.Common.{
  ℕ, zero, suc, ◌+◌, ◌*◌, ◌/◌, ◌%◌, ◌-◌, ◌<◌, ◌≤◌, true, ◌&&◌, ◌||◌, some, [], ◌∷◌, ◌⊎◌, ◌≢◌, ◌≡◌,
  refl, ap, ◌∙◌, sym, inl, inr, Bool-cases, subst, arith, ◌==◌, ltb, leb, length, All, Bytes,
}
use lspider.Common.Decimal.{decimal, Digit, decimal-Digit, length-decimal, decimal_from}
use lspider.Url.Chars.{url_digit}
use lspider.Url.Parse.{atoi, signed_value, digits_value, is_digit}
use lspider.Url.Site.{normalize_port, all_digits, checked_number}

digits_value-Digit :
    (n c : ℕ) (s : Bytes) → Digit c → digits_value n (c ∷ s) ≡ digits_value (n * 10 + (c - 48)) s
unfolding digits_value is_digit
digits_value-Digit n c s h = ground arith

value_from :
    (fuel n : ℕ) (out : Bytes)
    → n < fuel
    → digits_value 0 (decimal_from fuel n out) ≡ digits_value n out
unfolding decimal_from
value_from zero n out h = absurd (omega arith)
value_from (suc fuel) n out h = elim (Bool-cases (n / 10 == 0)) [
  | inl e ↦
      rw (e, decimal_from)
        (digits_value-Digit 0 (48 + n % 10) out (omega arith, omega arith)
          ∙ ap (λ m. digits_value m out) (ground (arith, e)))
  | inr e ↦
      rw (e, decimal_from)
        (value_from fuel (n / 10) ((48 + n % 10) ∷ out) (ground (arith, e))
          ∙ digits_value-Digit (n / 10) (48 + n % 10) out (omega arith, omega arith)
          ∙ ap (λ m. digits_value m out) (omega arith))
]

atoi-digits : (s : Bytes) → All Digit s → atoi s ≡ digits_value 0 s
unfolding atoi signed_value digits_value
atoi-digits [] h = refl
atoi-digits (c ∷ s) h = ground (arith, h.0.0, h.0.1)

pub atoi-decimal : (n : ℕ) → atoi (decimal n) ≡ n
unfolding decimal digits_value
atoi-decimal n = atoi-digits (decimal n) (decimal-Digit n) ∙ value_from (suc n) n [] (omega arith)

all_digits-Digit : (s : Bytes) → All Digit s → all_digits s ≡ true
unfolding all_digits url_digit
all_digits-Digit [] h = refl
all_digits-Digit (c ∷ s) h = ground (arith, h.0.0, h.0.1, all_digits-Digit s h.1)

-- A port of one to five digits, from 1 to 65535 and not 80.
pub record GoodPort (p : Bytes) : Type 0 where
  pub digits : All Digit p
  pub short : length p ≤ 5
  pub positive : 0 < atoi p
  pub in_range : atoi p ≤ 65535
  pub not_default : atoi p ≢ 80

decimal-GoodPort : (n : ℕ) → 0 < n → n ≤ 65535 → n ≢ 80 → GoodPort (decimal n)
decimal-GoodPort n h k d = record {
  digits = decimal-Digit n;
  short = length-decimal n 4 (omega arith);
  positive = omega (arith, atoi-decimal n);
  in_range = omega (arith, atoi-decimal n);
  not_default = λ e. d (sym (atoi-decimal n) ∙ e);
}

again : (p : Bytes) → GoodPort p → decimal (atoi p) ≡ p → normalize_port p ≡ some p
unfolding normalize_port checked_number
again [] g e = refl
again (c ∷ s) g e =
    ground
      (arith, g.short, g.positive, g.in_range, g.not_default, all_digits-Digit (c ∷ s) g.digits, e)

checked_lem :
    (n : ℕ) (q : Bytes)
    → checked_number n ≡ some q
    → (q ≡ []) ⊎ ((q ≡ decimal n) × (0 < n) × (n ≤ 65535) × (n ≢ 80))
unfolding checked_number
checked_lem n q e = elim (Bool-cases (n == 0 || ltb 65535 n)) [
  | inl h ↦ absurd (ground (arith, e, h))
  | inr h ↦ elim (Bool-cases (n == 80)) [
    | inl k ↦ inl (ground (arith, e, h, k))
    | inr k ↦ inr (ground (arith, e, h, k), ground arith, ground arith, ground arith)
  ]
]

checked-GoodPort :
    (n : ℕ) (q : Bytes)
    → checked_number n ≡ some q
    → ((q ≡ []) ⊎ GoodPort q) × (normalize_port q ≡ some q)
unfolding normalize_port
checked-GoodPort n q e = elim (checked_lem n q e) [
  | inl h ↦ (inl h, subst (λ p. normalize_port p ≡ some p) (sym h) refl)
  | inr h ↦
      let (same, positive, small, other) = h in
      let g = decimal-GoodPort n positive small other in
      (
        inr (subst GoodPort (sym same) g),
        subst (λ p. normalize_port p ≡ some p) (sym same)
            (again (decimal n) g (ap decimal (atoi-decimal n))),
      )
]

none_left : (q : Bytes) → [] ≡ q → normalize_port q ≡ some q
unfolding normalize_port
none_left q h = subst (λ p. normalize_port p ≡ some p) h refl

-- What `normalize_port` leaves is empty or a port of one to five digits, from 1 to 65535 and not 80;
-- a second call leaves it as it is.
pub normalize_port-GoodPort :
    (p q : Bytes)
    → normalize_port p ≡ some q
    → ((q ≡ []) ⊎ GoodPort q) × (normalize_port q ≡ some q)
unfolding normalize_port
normalize_port-GoodPort [] q e = (inl (ground (arith, e)), none_left q (ground (arith, e)))
normalize_port-GoodPort (c ∷ s) q e =
    elim (Bool-cases (all_digits (c ∷ s) && leb (length (c ∷ s)) 5)) [
      | inl h ↦ checked-GoodPort (atoi (c ∷ s)) q (ground (arith, e, h))
      | inr h ↦ absurd (ground (arith, e, h))
    ]
