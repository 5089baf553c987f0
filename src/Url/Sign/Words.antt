-- ===== src/Url/Sign/Words.antt =====
-- The range of the signatures and the length of their digits.
use lspider.Common.{
  ℕ, zero, suc, ◌-◌, ◌*◌, ◌/◌, ◌%◌, ◌^◌, ◌<◌, ◌≤◌, ◌≡◌, sym, subst, inl, inr, Option-cases, [], ◌∷◌,
  arith, length, take, Bytes,
}
use lspider.Common.Decimal.{decimal, length-decimal}
use Prim.Native.Nat.{bit_xor, digits, differ, bit_xor-bitwise}
use lspider.Url.Parse.{max_url_len}
use lspider.Url.Normalize.{normalize_url}
use lspider.Url.Sign.{
  word, murmur_m, mixed, bytes_value, xor_bytes, tail_mixed, murmur_from, finished, murmur_hash64a,
  get_url_sign64,
}

differ_below : (x y : ℕ) → x < 2 → y < 2 → differ x y < 2
differ_below zero y h k = k
differ_below (suc x) zero h k = h
differ_below (suc zero) (suc y) h k = omega arith
differ_below (suc (suc x)) (suc y) h k = absurd (omega arith)

power_suc : (k : ℕ) → 2 ^ suc k ≡ 2 * 2 ^ k
power_suc k = omega arith

digits_below : (fuel k a b : ℕ) → a < 2 ^ k → b < 2 ^ k → digits (λ b. b) differ fuel a b < 2 ^ k
digits_below zero k a b h l = l
digits_below (suc n) k zero b h l = l
digits_below (suc n) zero (suc a) b h l = absurd (omega arith)
digits_below (suc n) (suc k) (suc a) b h l = omega (
  arith,
  power_suc k,
  differ_below (suc a % 2) (b % 2) (omega arith) (omega arith),
  digits_below n k (suc a / 2) (b / 2) (omega (arith, power_suc k)) (omega (arith, power_suc k)),
)

bit_xor_below : (k a b : ℕ) → a < 2 ^ k → b < 2 ^ k → bit_xor a b < 2 ^ k
bit_xor_below k a b h l =
    subst (λ x. x < 2 ^ k) (sym (bit_xor-bitwise a b)) (digits_below a k a b h l)

word_below : (x : ℕ) → word x < 2 ^ 64
word_below x = omega arith

tail_mixed_below : (h : ℕ) (s : Bytes) → h < 2 ^ 64 → tail_mixed h s < 2 ^ 64
unfolding tail_mixed
tail_mixed_below h [] l = l
tail_mixed_below h (c ∷ s) l = word_below (xor_bytes h 1 (c ∷ s) * murmur_m)

-- One round of the loop.
abbrev round : ℕ → Bytes → ℕ
round h s = word (bit_xor h (mixed (bytes_value s)) * murmur_m)

murmur_from_below : (s : Bytes) (h : ℕ) → h < 2 ^ 64 → murmur_from h s < 2 ^ 64
unfolding murmur_from
murmur_from_below (a ∷ b ∷ c ∷ d ∷ e ∷ f ∷ g ∷ i ∷ s) h l =
    murmur_from_below s (round h (a ∷ b ∷ c ∷ d ∷ e ∷ f ∷ g ∷ i ∷ []))
      (word_below (bit_xor h (mixed (bytes_value (a ∷ b ∷ c ∷ d ∷ e ∷ f ∷ g ∷ i ∷ []))) * murmur_m))
murmur_from_below [] h l = tail_mixed_below h [] l
murmur_from_below (a ∷ []) h l = tail_mixed_below h _ l
murmur_from_below (a ∷ b ∷ []) h l = tail_mixed_below h _ l
murmur_from_below (a ∷ b ∷ c ∷ []) h l = tail_mixed_below h _ l
murmur_from_below (a ∷ b ∷ c ∷ d ∷ []) h l = tail_mixed_below h _ l
murmur_from_below (a ∷ b ∷ c ∷ d ∷ e ∷ []) h l = tail_mixed_below h _ l
murmur_from_below (a ∷ b ∷ c ∷ d ∷ e ∷ f ∷ []) h l = tail_mixed_below h _ l
murmur_from_below (a ∷ b ∷ c ∷ d ∷ e ∷ f ∷ g ∷ []) h l = tail_mixed_below h _ l

shift_below : (h : ℕ) → h < 2 ^ 64 → h / 2 ^ 47 < 2 ^ 64
shift_below h l = omega arith

finished_below : (h : ℕ) → h < 2 ^ 64 → finished h < 2 ^ 64
unfolding finished
finished_below h l =
    let h2 = word (bit_xor h (h / 2 ^ 47) * murmur_m) in
    bit_xor_below 64 h2 (h2 / 2 ^ 47) (word_below _) (shift_below h2 (word_below _))

pub murmur_hash64a_below :
    (key : Bytes) (seed : ℕ) → seed < 2 ^ 64 → murmur_hash64a key seed < 2 ^ 64
unfolding murmur_hash64a
murmur_hash64a_below key seed h = finished_below _ (
    murmur_from_below key _
      (bit_xor_below 64 seed (word (length key * murmur_m)) h (word_below (length key * murmur_m))))

small : (s : Bytes) → (murmur_hash64a s 0 < 2 ^ 64) × (length (decimal (murmur_hash64a s 0)) ≤ 20)
small s =
    let h = murmur_hash64a_below s 0 (omega arith) in
    (h, length-decimal (murmur_hash64a s 0) 19 (omega (arith, h)))

-- The signature of any URL is less than 2^64, so that its decimal digits are at most twenty, and fit
-- a field of `MAX_SIGN_LEN` bytes with the terminating zero.
pub get_url_sign64-decimal :
    (url : Bytes) → (get_url_sign64 url < 2 ^ 64) × (length (decimal (get_url_sign64 url)) ≤ 20)
unfolding get_url_sign64
get_url_sign64-decimal url = elim (Option-cases (normalize_url url max_url_len)) [
  | inl e ↦ rw (e, get_url_sign64) (small (take (max_url_len - 1) url))
  | inr p ↦ rw (p.1, get_url_sign64) (small (take (max_url_len - 1) p.0))
]
