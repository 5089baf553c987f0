-- ===== src/Url/Sign.antt =====
-- The signature of a URL: `MurmurHash64A` and `get_url_sign64` of src/url_tools.cpp, on a machine
-- whose words have their low byte first.
pub mod Words
pub mod Tests
use lspider.Common.{
  ℕ, zero, suc, ◌+◌, ◌-◌, ◌*◌, ◌/◌, ◌%◌, ◌^◌, Bool, true, false, Option, none, some, List, [], ◌∷◌,
  ◌==◌, if◌then◌else◌, length, take, Bytes,
}
use Prim.Native.Nat.{bit_xor}
use lspider.Url.Parse.{max_url_len}
use lspider.Url.Normalize.{normalize_url}

abbrev pub word : ℕ → ℕ
word x = x % 2 ^ 64

abbrev pub murmur_m : ℕ
murmur_m = 0xc6a4a7935bd1e995

-- `k *= m; k ^= k >> r; k *= m` on eight bytes of the key.
unfoldable pub mixed : ℕ → ℕ
mixed k = let k1 = word (k * murmur_m) in let k2 = bit_xor k1 (k1 / 2 ^ 47) in word (k2 * murmur_m)

-- The bytes of a word.
unfoldable pub bytes_value : Bytes → ℕ
bytes_value [] = 0
bytes_value (c ∷ s) = c + 256 * bytes_value s

-- The switch on the last bytes, fewer than eight: from the last one down, each byte at its place of
-- the word.
unfoldable pub xor_bytes : ℕ → ℕ → Bytes → ℕ
xor_bytes h place [] = h
xor_bytes h place (c ∷ s) = bit_xor (xor_bytes h (place * 2 ^ 8) s) (c * place)

unfoldable pub tail_mixed : ℕ → Bytes → ℕ
tail_mixed h [] = h
tail_mixed h (c ∷ s) = word (xor_bytes h 1 (c ∷ s) * murmur_m)

-- The loop over words of eight bytes, and the switch.
unfoldable pub murmur_from : ℕ → Bytes → ℕ
murmur_from h (a ∷ b ∷ c ∷ d ∷ e ∷ f ∷ g ∷ i ∷ s) =
    murmur_from
      (word (bit_xor h (mixed (bytes_value (a ∷ b ∷ c ∷ d ∷ e ∷ f ∷ g ∷ i ∷ []))) * murmur_m)) s
murmur_from h s = tail_mixed h s

unfoldable pub finished : ℕ → ℕ
finished h =
    let h1 = bit_xor h (h / 2 ^ 47) in let h2 = word (h1 * murmur_m) in bit_xor h2 (h2 / 2 ^ 47)

unfoldable pub murmur_hash64a : Bytes → ℕ → ℕ
murmur_hash64a key seed = finished (murmur_from (bit_xor seed (word (length key * murmur_m))) key)

-- A URL that has no normal form is signed as it is, as far as the buffer holds it.
unfoldable pub get_url_sign64 : Bytes → ℕ
get_url_sign64 url = elim (normalize_url url max_url_len) [
  | some t ↦ murmur_hash64a (take (max_url_len - 1) t) 0
  | none ↦ murmur_hash64a (take (max_url_len - 1) url) 0
]
