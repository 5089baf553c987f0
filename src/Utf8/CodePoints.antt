-- ===== src/Utf8/CodePoints.antt =====
-- The encoding of code points, by the number of their bits.
use lspider.Common.{
  ℕ, zero, suc, ◌+◌, ◌/◌, ◌%◌, ◌^◌, ◌<◌, ◌≡◌, refl, true, some, List, [], ◌∷◌, ◌++◌, arith, length,
  All, Bytes, ltb, if◌then◌else◌, if_both,
}
use lspider.Utf8.{is_utf8}
use lspider.Utf8.Grammar.{
  Announces, Follows, two, three, four, five, six, Encoded, done, ascii, multi, is_utf8_iff,
}

-- The last `n` groups of six bits, each as a continuation byte.
abbrev pub groups : ℕ → ℕ → Bytes
groups zero x = []
groups (suc n) x = (128 + (x / 64 ^ n) % 64) ∷ groups n x

abbrev pub encode_point : ℕ → Bytes
encode_point x =
    if ltb x (2 ^ 7)
    then x ∷ []
    else if ltb x (2 ^ 11)
    then (192 + x / 64 ^ 1) ∷ groups 1 x
    else if ltb x (2 ^ 16)
    then (224 + x / 64 ^ 2) ∷ groups 2 x
    else if ltb x (2 ^ 21)
    then (240 + x / 64 ^ 3) ∷ groups 3 x
    else if ltb x (2 ^ 26)
    then (248 + x / 64 ^ 4) ∷ groups 4 x
    else (252 + x / 64 ^ 5) ∷ groups 5 x

abbrev pub encode : List ℕ → Bytes
encode [] = []
encode (x ∷ xs) = encode_point x ++ encode xs

length-groups : (n x : ℕ) → length (groups n x) ≡ n
length-groups zero x = refl
length-groups (suc n) x = omega (arith, length-groups n x)

groups-Follows : (n x : ℕ) → All Follows (groups n x)
groups-Follows zero x = tt
groups-Follows (suc n) x = ((omega arith, omega arith), groups-Follows n x)

with_groups : (c n x : ℕ) (s : Bytes) → Announces c n → Encoded s → Encoded (c ∷ groups n x ++ s)
with_groups c n x s l e = multi c n (groups n x) s l (length-groups n x) (groups-Follows n x) e

abbrev Before : Bytes → Bytes → Type 0
Before s t = Encoded (t ++ s)

point-Encoded : (x : ℕ) (s : Bytes) → x < 2 ^ 31 → Encoded s → Encoded (encode_point x ++ s)
point-Encoded x s h e =
    if_both (Before s) (ltb x (2 ^ 7)) _ _ (λ a. ascii x s (ground arith) e)
      λ b.
        if_both (Before s) (ltb x (2 ^ 11)) _ _
          (λ a.
            with_groups (192 + x / 64 ^ 1) 1 x s
              (two (192 + x / 64 ^ 1) (omega arith) (ground arith)) e)
          λ b2.
            if_both (Before s) (ltb x (2 ^ 16)) _ _
              (λ a.
                with_groups (224 + x / 64 ^ 2) 2 x s
                  (three (224 + x / 64 ^ 2) (omega arith) (ground arith)) e)
              λ b3.
                if_both (Before s) (ltb x (2 ^ 21)) _ _
                  (λ a.
                    with_groups (240 + x / 64 ^ 3) 3 x s
                      (four (240 + x / 64 ^ 3) (omega arith) (ground arith)) e)
                  λ b4.
                    if_both (Before s) (ltb x (2 ^ 26)) _ _
                      (λ a.
                        with_groups (248 + x / 64 ^ 4) 4 x s
                          (five (248 + x / 64 ^ 4) (omega arith) (ground arith)) e)
                      λ b5.
                        with_groups (252 + x / 64 ^ 5) 5 x s
                          (six (252 + x / 64 ^ 5) (omega arith) (omega arith)) e

encode-Encoded : (xs : List ℕ) → All (λ x. x < 2 ^ 31) xs → Encoded (encode xs)
encode-Encoded [] h = done
encode-Encoded (x ∷ xs) h = point-Encoded x (encode xs) h.0 (encode-Encoded xs h.1)

-- With more rounds than bytes, `is_utf8` accepts the encoding of every text of code points below
-- 2^31, in up to six bytes each.
pub is_utf8-encode :
    (xs : List ℕ) (fuel : ℕ)
    → All (λ x. x < 2 ^ 31) xs
    → length (encode xs) < fuel
    → is_utf8 fuel (encode xs) ≡ some true
is_utf8-encode xs fuel h l = (is_utf8_iff (encode xs) fuel l).1 (encode-Encoded xs h)
