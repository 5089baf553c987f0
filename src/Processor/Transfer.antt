-- ===== src/Processor/Transfer.antt =====
-- The loops that send the request and receive the page.
use lspider.Common.{
  ℕ, ◌+◌, ◌-◌, ◌<◌, ◌≤◌, ◌≡◌, ◌∙◌, true, false, List, [], ◌∷◌, ◌++◌, arith, Bytes, Bool-cases, inl,
  inr, ltb, ◌==◌, length, All, map, append_assoc, append-nil, sym, ap,
}
use lspider.Processor.Sockets.{
  SendResult, sent, send_again, send_broken, RecvResult, received, closed, SndRcv, e_finish,
  e_again, e_err, e_assert, try_send, try_recv,
}

-- `send` takes at most the bytes that it is given, those from the `n`th on.
abbrev pub Takes : ℕ → ℕ → List SendResult → Type 0
Takes len n [] = Unit
Takes len n (send_again ∷ rs) = Unit
Takes len n (send_broken ∷ rs) = Unit
Takes len n (sent k ∷ rs) = (k ≤ len - n) × Takes len (n + k) rs

-- The request is finished exactly when all of it was sent.
abbrev pub Sent : ℕ → ℕ → SndRcv ℕ → Type 0
Sent len n (e_finish m) = m ≡ len
Sent len n (e_again m) = (n ≤ m) × (m < len)
Sent len n (e_err m) = (n ≤ m) × (m < len)
Sent len n e_assert = ⊥

Sent-later : (len n m : ℕ) (r : SndRcv ℕ) → n ≤ m → Sent len m r → Sent len n r
Sent-later len n m (e_finish k) h s = s
Sent-later len n m (e_again k) h s = (omega arith, s.1)
Sent-later len n m (e_err k) h s = (omega arith, s.1)
Sent-later len n m e_assert h s = elim s [ ]

not_there : (len n k : ℕ) → n < len → k ≤ len - n → (n + k == len) ≡ false → ltb (n + k) len ≡ true
not_there len n k h t e = ground arith

not_above : (a b : ℕ) → b ≤ a → ltb a b ≡ false
not_above a b h = ground arith

-- If a part of the request is still to be sent and `send` takes at most what it is given, the loop
-- goes no further than the end of the request, finishes exactly there, never goes back, and its
-- assertion holds.
pub Sent-try_send :
    (len n : ℕ) (rs : List SendResult) → n < len → Takes len n rs → Sent len n (try_send len n rs)
unfolding try_send
Sent-try_send len n [] h t = (omega arith, h)
Sent-try_send len n (send_again ∷ rs) h t = (omega arith, h)
Sent-try_send len n (send_broken ∷ rs) h t = (omega arith, h)
Sent-try_send len n (sent k ∷ rs) h t = elim (Bool-cases (n + k == len)) [
  | inl e ↦ rw (e, Sent, try_send) (ground arith)
  | inr e ↦
      rw (e, Sent, try_send, not_there len n k h t.0 e)
        (Sent-later len n (n + k) (try_send len (n + k) rs) (omega arith)
          (Sent-try_send len (n + k) rs (ground arith) t.1))
]

abbrev pub joined : List Bytes → Bytes
joined [] = []
joined (t ∷ ts) = t ++ joined ts

-- If no single `recv` returns more than the page limit and the peer then closes, the page arrives
-- whole, however long it is: the limit is not compared with what was received so far.
pub try_recv_joins :
    (max_page : ℕ) (s : Bytes) (ts : List Bytes) (rs : List RecvResult)
    → All (λ t. length t ≤ max_page) ts
    → try_recv max_page s (map received ts ++ closed ∷ rs) ≡ e_finish (s ++ joined ts)
unfolding try_recv
try_recv_joins max_page s [] rs h = ap e_finish (sym (append-nil s))
try_recv_joins max_page s (t ∷ ts) rs h =
    rw (try_recv, not_above max_page (length t) h.0) (try_recv_joins max_page (s ++ t) ts rs h.1)
    ∙ ap e_finish (append_assoc s t (joined ts))
