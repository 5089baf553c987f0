-- ===== src/Protocol/Request.antt =====
-- The request text and its buffer.
use lspider.Common.{
  ℕ, zero, suc, Option-cases, ◌+◌, ◌-◌, ◌≤◌, ◌<◌, ◌≡◌, ◌≢◌, refl, sym, ap, ◌∙◌, List, [], ◌∷◌, ◌++◌,
  none, some, Option, arith, length, take, length-append, append_assoc, append-nil, Bytes,
  bytes_eq_iff, ltb, if◌then◌else◌, Bool-cases, inl, inr,
}
use lspider.Context.{UrlContext}
use lspider.Protocol.Text.{crlf}
use lspider.Protocol.{
  request_text, request_heads, cookie_heads, concat, Buffer, print, print_all, printed,
  build_request, Built, overflow, cut, built, max_head_len,
}

abbrev cookie_len : Bytes → ℕ
cookie_len [] = 0
cookie_len (c ∷ s) = length (c ∷ s) + 10

cookie_len_le : (s : Bytes) → cookie_len s ≤ length s + 10
cookie_len_le [] = omega arith
cookie_len_le (c ∷ s) = omega arith

concat-append : (ts us : List Bytes) → concat (ts ++ us) ≡ concat ts ++ concat us
unfolding concat
concat-append [] us = refl
concat-append (t ∷ ts) us = ap (λ x. t ++ x) (concat-append ts us) ∙ sym (append_assoc t _ _)

length-cookie_heads : (s : Bytes) → length (concat (cookie_heads s)) ≡ cookie_len s
unfolding concat
length-cookie_heads [] = refl
length-cookie_heads (c ∷ s) = rw (append-nil (s ++ crlf)) (omega (arith, length-append {0} s crlf))

-- The fixed part of the request has 343 bytes.
length-request_heads :
    (u : UrlContext)
    → length (concat (request_heads u)) ≡ 341 + length u.file + length u.host + cookie_len u.cookie
unfolding concat
length-request_heads u = simp (length-append, length-cookie_heads) (omega arith)

last_two : length (concat (crlf ∷ [])) ≡ 2
unfolding concat
last_two = refl

length-request_text :
    (u : UrlContext) → length (request_text u) ≡ length (concat (request_heads u)) + 2
length-request_text u =
    ap length (concat-append (request_heads u) (crlf ∷ []))
    ∙ length-append (concat (request_heads u)) (concat (crlf ∷ []))
    ∙ ap (λ n. length (concat (request_heads u)) + n) last_two

take_all : (n : ℕ) (s : Bytes) → length s ≤ n → take n s ≡ s
take_all zero [] h = refl
take_all (suc n) [] h = refl
take_all zero (c ∷ s) h = absurd (omega arith)
take_all (suc n) (c ∷ s) h = ap (λ t. c ∷ t) (take_all n s (omega arith))

abbrev buffer : Bytes → ℕ → Buffer
buffer s n = record { text = s; len = n }

abbrev next : Bytes → Buffer → Buffer
next t b = buffer (b.text ++ take (max_head_len - 1 - b.len) t) (b.len + length t)

some_buffer :
    (s t : Bytes) (n m : ℕ)
    → s ≡ t
    → n ≡ m
    → ◌≡◌ {A = Option Buffer} (some (buffer s n)) (some (buffer t m))
some_buffer s t n m e f = ap (λ x. some (buffer x n)) e ∙ ap (λ x. some (buffer t x)) f

print_all-step :
    (t : Bytes) (ts : List Bytes) (b : Buffer)
    → b.len ≤ max_head_len
    → print_all (t ∷ ts) b ≡ print_all ts (next t b)
unfolding print_all print
print_all-step t ts b h = ground arith

length-concat_cons :
    (t : Bytes) (ts : List Bytes) → length (concat (t ∷ ts)) ≡ length t + length (concat ts)
unfolding concat
length-concat_cons t ts = length-append t (concat ts)

-- Texts that fit are printed one behind the other.
print_all-fits :
    (ts : List Bytes) (b : Buffer)
    → b.len + length (concat ts) < max_head_len
    → print_all ts b ≡ some (buffer (b.text ++ concat ts) (b.len + length (concat ts)))
unfolding print_all concat
print_all-fits [] b h =
    some_buffer b.text (b.text ++ []) b.len (b.len + 0) (sym (append-nil b.text)) (omega arith)
print_all-fits (t ∷ ts) b h =
    let l = length-concat_cons t ts in
    print_all-step t ts b (omega (arith, l))
    ∙ print_all-fits ts (next t b) (omega (arith, l))
    ∙ some_buffer _ _ _ _
        (ap (λ x. (b.text ++ x) ++ concat ts)
            (take_all (max_head_len - 1 - b.len) t (omega (arith, l)))
          ∙ append_assoc b.text t (concat ts))
        (omega (arith, l))

-- No call writes out of bounds if the texts reach at most to the end.
print_all-len :
    (ts : List Bytes) (b : Buffer)
    → b.len + length (concat ts) ≤ max_head_len
    → (s : Bytes) × (print_all ts b ≡ some (buffer s (b.len + length (concat ts))))
unfolding print_all concat
print_all-len [] b h = (b.text, some_buffer b.text b.text b.len (b.len + 0) refl (omega arith))
print_all-len (t ∷ ts) b h =
    let l = length-concat_cons t ts in
    let (s, e) = print_all-len ts (next t b) (omega (arith, l)) in
    (s, print_all-step t ts b (omega (arith, l)) ∙ e ∙ some_buffer s s _ _ refl (omega (arith, l)))

print_all-behind :
    (t : Bytes) (ts : List Bytes) (b : Buffer) → max_head_len < b.len → print_all (t ∷ ts) b ≡ none
unfolding print_all print
print_all-behind t ts b h = ground arith

-- A call that begins behind the end writes out of bounds.
print_all-overruns :
    (ts : List Bytes) (t : Bytes) (b : Buffer)
    → max_head_len < b.len + length (concat ts)
    → print_all (ts ++ t ∷ []) b ≡ none
unfolding concat
print_all-overruns [] t b h = print_all-behind t [] b (omega arith)
print_all-overruns (s ∷ ts) t b h = elim (Bool-cases (ltb max_head_len b.len)) [
  | inl e ↦ print_all-behind s (ts ++ t ∷ []) b (ground (arith, e))
  | inr e ↦
      print_all-step s (ts ++ t ∷ []) b (ground (arith, e))
      ∙ print_all-overruns ts t (next s b) (omega (arith, length-concat_cons s ts))
]

print_all-append :
    (ts us : List Bytes) (b d : Buffer)
    → print_all ts b ≡ some d
    → print_all (ts ++ us) b ≡ print_all us d
unfolding print_all
print_all-append [] us b d e = ground arith
print_all-append (t ∷ ts) us b d e = elim (Option-cases (print t b)) [
  | inl f ↦ absurd (ground (arith, f))
  | inr (x, f) ↦ ground (arith, f, print_all-append ts us x d)
]

-- What the calls leave, by the length of the request.
abbrev pub by_length : UrlContext → Built
by_length u =
    let n = length (request_text u) in
    if ltb n max_head_len
    then built (record u { request_data = request_text u })
    else if ltb n (max_head_len + 3)
    then cut
    else overflow

abbrev all_printed : UrlContext → Option Buffer
all_printed u = print_all (request_heads u ++ crlf ∷ []) (buffer [] 0)

all_printed-fits :
    (u : UrlContext)
    → length (request_text u) < max_head_len
    → printed u (all_printed u) ≡ built (record u { request_data = request_text u })
all_printed-fits u h =
    ap (printed u) (print_all-fits (request_heads u ++ crlf ∷ []) (buffer [] 0) (omega arith))
    ∙ ground arith

last_printed :
    (u : UrlContext) (b : Buffer) → max_head_len ≤ b.len → printed u (print_all [] b) ≡ cut
unfolding print_all
last_printed u b m = ground arith

all_printed-cut :
    (u : UrlContext)
    → max_head_len ≤ length (request_text u)
    → length (request_text u) < max_head_len + 3
    → printed u (all_printed u) ≡ cut
all_printed-cut u h k =
    let l = length-request_text u in
    let (s, e) = print_all-len (request_heads u) (buffer [] 0) (omega (arith, l)) in
    ap (printed u) (
      print_all-append (request_heads u) (crlf ∷ []) (buffer [] 0) _ e
      ∙ print_all-step crlf [] _ (omega (arith, l)))
    ∙ last_printed u (next crlf (buffer s (0 + length (concat (request_heads u)))))
        (omega (arith, l))

all_printed-overflow :
    (u : UrlContext)
    → max_head_len + 3 ≤ length (request_text u)
    → printed u (all_printed u) ≡ overflow
all_printed-overflow u h =
    ap (printed u) (
      print_all-overruns (request_heads u) crlf (buffer [] 0)
        (omega (arith, length-request_text u)))

all_printed-by_length : (u : UrlContext) → printed u (all_printed u) ≡ by_length u
all_printed-by_length u = elim (Bool-cases (ltb (length (request_text u)) max_head_len)) [
  | inl e ↦ all_printed-fits u (ground (arith, e)) ∙ ground (arith, e)
  | inr e ↦ elim (Bool-cases (ltb (length (request_text u)) (max_head_len + 3))) [
    | inl f ↦ all_printed-cut u (ground (arith, e)) (ground (arith, f)) ∙ ground (arith, e, f)
    | inr f ↦ all_printed-overflow u (ground (arith, f)) ∙ ground (arith, e, f)
  ]
]

-- With a host and a port, the calls of `snprintf` together leave the whole request if it is shorter
-- than the buffer, cut it if it is up to two bytes longer than the buffer, and write out of bounds
-- if it is longer than that.
pub build_request-by_length :
    (u : UrlContext) → u.host ≢ [] → u.strport ≢ [] → build_request u ≡ by_length u
unfolding build_request
build_request-by_length u h p =
    ground (arith, all_printed-by_length u, bytes_eq_iff u.host [], bytes_eq_iff u.strport [])

-- The longest cookie for which the request of any parsed URL fits the buffer.
abbrev pub max_cookie : ℕ
max_cookie = 6560

-- With the longest path and host that `parse_url` gives.
pub request_fits :
    (u : UrlContext)
    → length u.file + length u.host ≤ 1278
    → length u.cookie ≤ max_cookie
    → length (request_text u) < max_head_len
request_fits u h k =
    omega (arith, length-request_text u, length-request_heads u, cookie_len_le u.cookie)
