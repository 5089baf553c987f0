-- ===== src/Utf8/Tests.antt =====
-- Texts in UTF-8 and not, and the hypotheses of the theorems.
use lspider.Common.{◌≡◌, ◌↔◌, refl, arith, true, false, some, [], ◌∷◌}
use lspider.Utf8.{is_utf8, lead_len, after_character, after_continuations}
use lspider.Utf8.Grammar.{Encoded, is_utf8_iff}
use lspider.Utf8.CodePoints.{is_utf8-encode}

is_utf8_iff_example : (is_utf8 5 (97 ∷ 195 ∷ 169 ∷ []) ≡ some true) ↔ Encoded (97 ∷ 195 ∷ 169 ∷ [])
is_utf8_iff_example = is_utf8_iff (97 ∷ 195 ∷ 169 ∷ []) 5 (omega arith)

is_utf8-encode_example : is_utf8 7 (97 ∷ 195 ∷ 169 ∷ 226 ∷ 130 ∷ 172 ∷ []) ≡ some true
is_utf8-encode_example =
    is_utf8-encode (97 ∷ 233 ∷ 8364 ∷ []) 7 (omega arith, (omega arith, (omega arith, tt)))
      (omega arith)

-- A truncated character.
truncated : is_utf8 5 (97 ∷ 195 ∷ []) ≡ some false
unfolding is_utf8 lead_len after_character after_continuations
truncated = refl

-- The byte 254, which UTF-8 never has, is taken for the lead byte of five.
lead_254 : is_utf8 9 (254 ∷ 128 ∷ 128 ∷ 128 ∷ 128 ∷ []) ≡ some true
unfolding is_utf8 lead_len after_character after_continuations
lead_254 = refl
