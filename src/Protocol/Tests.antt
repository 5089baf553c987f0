-- ===== src/Protocol/Tests.antt =====
-- Chunks and requests on small inputs, and the hypotheses of the theorems.
use lspider.Common.{
  some, ◌^◌, ◌-◌, ℕ, zero, suc, ◌≡◌, ◌≢◌, refl, false, List, [], ◌∷◌, arith, length, Bytes, codes,
  All,
}
use lspider.Context.{UrlContext, new_context}
use lspider.Protocol.{build_request}
use lspider.Protocol.Chunk.{
  chunk_loop, joined, out_of_fuel, scan_hex, hex_signed, hex_unsigned, hex_number, hex_digits,
}
use lspider.Protocol.ChunkLoop.{Piece, IsPiece, chunk_loop_joins, chunk_loop_hangs}
use lspider.Protocol.Request.{by_length, build_request-by_length}
use lspider.Protocol.Text.{status_int}
use lspider.Url.Chars.{hex_value}
use lspider.Url.Parse.{digits_value, is_digit}

abbrev hello : List Piece
hello = record { line = codes "5"; bytes = codes "hello" } ∷ []

hello-IsPiece : All IsPiece hello
unfolding scan_hex hex_signed hex_unsigned hex_number hex_digits
hello-IsPiece = (
  record { plain = omega arith; size = refl; some_bytes = omega arith; not_huge = omega arith },
  tt,
)

chunk_loop_joins_example :
    chunk_loop 2 0 (codes "5\r\nhello\r\n0\r\nend") 0 [] ≡ joined (codes "hello")
chunk_loop_joins_example =
    chunk_loop_joins hello 2 0 (codes "end") hello-IsPiece (omega arith) (omega arith)

-- The second chunk of the body takes the loop back.
chunk_loop_hangs_example : chunk_loop 9 0 (codes "1\r\nx\r\n-06\r\n") 6 (codes "x") ≡ out_of_fuel
unfolding scan_hex hex_signed hex_unsigned hex_number hex_digits hex_value
chunk_loop_hangs_example =
    chunk_loop_hangs 9 0 6 (codes "1\r\nx\r\n-06\r\n") (codes "x") (codes "-06") [] refl
      (omega arith) refl (omega arith) (omega arith)

not-nil : {c : ℕ} {s : Bytes} → (c ∷ s) ≢ []
not-nil = cc

repeat : ℕ → Bytes
repeat zero = []
repeat (suc n) = b'x' ∷ repeat n

length-repeat : (n : ℕ) → length (repeat n) ≡ n
unfolding repeat
length-repeat zero = refl
length-repeat (suc n) = omega (arith, length-repeat n)

abbrev long_cookie : UrlContext
long_cookie = record (new_context [] 0 false []) {
  host = codes "a.com";
  strport = codes "80";
  cookie = repeat 8192;
}

build_request-by_length_example : build_request long_cookie ≡ by_length long_cookie
unfolding new_context
build_request-by_length_example = build_request-by_length long_cookie not-nil not-nil

-- `atoi` wraps around to 32 bits.
wrapped_status : (status_int (codes "4294967597") ≡ 301) × (status_int (codes "-1") ≡ 4294967295)
unfolding status_int digits_value is_digit
wrapped_status = (refl, refl)

-- A size that is too large is the greatest one, also behind a minus, and `0x` alone is 0.
sizes :
    (scan_hex (codes "-1FFFFFFFFFFFFFFFB") ≡ some (2 ^ 64 - 1))
    × (scan_hex (codes "0xg") ≡ some 0)
    × (scan_hex (codes "-5") ≡ some (2 ^ 64 - 5))
unfolding scan_hex hex_signed hex_unsigned hex_number hex_digits hex_value
sizes = (refl, refl, refl)
