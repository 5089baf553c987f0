-- ===== src/Url/Sign/Tests.antt =====
-- The signature of a URL and of another spelling of it.
use lspider.Common.{◌≡◌, refl, codes}
use lspider.Url.Sign.{
  murmur_hash64a, mixed, bytes_value, xor_bytes, tail_mixed, murmur_from, finished,
}

empty_key : murmur_hash64a (codes "") 0 ≡ 0
unfolding murmur_hash64a murmur_from tail_mixed finished
empty_key = refl

-- Eight bytes and a rest of three.
long_key : murmur_hash64a (codes "www.ab.com/") 0 ≡ 14771291750021130869
unfolding murmur_hash64a murmur_from mixed bytes_value xor_bytes tail_mixed finished
long_key = refl
