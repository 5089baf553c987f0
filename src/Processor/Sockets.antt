-- ===== src/Processor/Sockets.antt =====
-- `trySend` and `tryRecv` of src/http_processor.cpp, over what the system calls return.
use lspider.Common.{ℕ, ◌+◌, true, false, List, [], ◌∷◌, ◌++◌, ltb, ◌==◌, length, Bytes}

-- What `send` and `recv` return: a count or data, the end of the stream, `EAGAIN`, another error.
pub data SendResult : Type 0 where
  sent : ℕ → SendResult
  send_again send_broken : SendResult

pub data RecvResult : Type 0 where
  received : Bytes → RecvResult
  closed recv_again recv_broken : RecvResult

-- `SndRcvRetType` with what was sent or received so far, and a failed `assert`.
pub data SndRcv (A : Type 0) : Type 0 where
  e_finish e_again e_err : A → SndRcv A
  e_assert : SndRcv A

-- When the list ends the next call has nothing to return yet.
unfoldable pub try_send : ℕ → ℕ → List SendResult → SndRcv ℕ
try_send len n [] = e_again n
try_send len n (send_again ∷ rs) = e_again n
try_send len n (send_broken ∷ rs) = e_err n
try_send len n (sent k ∷ rs) = elim (n + k == len) [
  | true ↦ e_finish (n + k)
  | false ↦ elim (ltb (n + k) len) [ true ↦ try_send len (n + k) rs | false ↦ e_assert ]
]

unfoldable pub try_recv : ℕ → Bytes → List RecvResult → SndRcv Bytes
try_recv max_page s [] = e_again s
try_recv max_page s (recv_again ∷ rs) = e_again s
try_recv max_page s (recv_broken ∷ rs) = e_err s
try_recv max_page s (closed ∷ rs) = e_finish s
try_recv max_page s (received t ∷ rs) = elim (ltb max_page (length t)) [
  | true ↦ e_finish (s ++ t)
  | false ↦ try_recv max_page (s ++ t) rs
]
