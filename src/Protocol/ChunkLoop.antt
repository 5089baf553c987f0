-- ===== src/Protocol/ChunkLoop.antt =====
-- The chunk loop on well-formed bodies, and on sizes that take it back.
use lspider.Common.{
  ℕ, ◌%◌, ◌-◌, zero, suc, ◌+◌, ◌^◌, ◌≤◌, ◌<◌, ◌≡◌, refl, sym, ap, ◌∙◌, Bool, true, false, some,
  List, [], ◌∷◌, ◌++◌, length, take, drop, Bytes, Lacks, arith, append_assoc, append-nil,
  length-append, drop-length_append, take-length_append, All,
}
use Prim.Native.Nat.add
use lspider.Protocol.Text.{crlf, split_at, after_prefix}
use lspider.Protocol.Chunk.{chunk_loop, joined, out_of_fuel, scan_hex, to_size, size_word}

-- A chunk: a size line that reads as the number of its bytes, and the bytes.
pub record Piece : Type 0 where
  pub line : Bytes
  pub bytes : Bytes

abbrev pub encode : List Piece → Bytes → Bytes
encode [] trailer = b'0' ∷ (crlf ++ trailer)
encode (p ∷ ps) trailer = p.line ++ (crlf ++ (p.bytes ++ (crlf ++ encode ps trailer)))

abbrev pub payload : List Piece → Bytes
payload [] = []
payload (p ∷ ps) = p.bytes ++ payload ps

pub record IsPiece (p : Piece) : Type 0 where
  pub plain : Lacks 13 p.line
  pub size : scan_hex p.line ≡ some (length p.bytes)
  pub some_bytes : 0 < length p.bytes
  pub not_huge : length p.bytes < 2 ^ 31

split_at-crlf : (s t : Bytes) → Lacks 13 s → split_at crlf (s ++ (crlf ++ t)) ≡ some (s, t)
unfolding split_at after_prefix
split_at-crlf [] t h = refl
split_at-crlf (c ∷ s) t h = ground (arith, split_at-crlf s t h.1)

drop-nil : (n : ℕ) → drop {A = ℕ} n [] ≡ []
drop-nil zero = refl
drop-nil (suc n) = refl

drop-add : (n m : ℕ) (s : Bytes) → drop (n + m) s ≡ drop m (drop n s)
drop-add zero m s = rw (add.zero m)
drop-add (suc n) m [] = rw (drop-nil m, drop-nil (suc n + m)) refl
drop-add (suc n) m (c ∷ s) = rw (add.suc n m) (drop-add n m s)

-- After a chunk's bytes the position stands between the two bytes of its line break.
abbrev break_left : Bool → Bytes
break_left true = 10 ∷ []
break_left false = []

scan_break : (b : Bool) (line : Bytes) → scan_hex (break_left b ++ line) ≡ scan_hex line
unfolding scan_hex
scan_break true line = refl
scan_break false line = refl

break-Lacks : (b : Bool) (line : Bytes) → Lacks 13 line → Lacks 13 (break_left b ++ line)
break-Lacks true line h = (omega arith, h)
break-Lacks false line h = h

to_size_lem : (n : ℕ) → n < 2 ^ 31 → to_size n ≡ n
unfolding to_size
to_size_lem n h = ground arith

-- The text at the position `cur` of the body.
abbrev At : Bytes → ℕ → Bytes → Type 0
At body cur s = drop cur body ≡ s

length-drop_add : (body : Bytes) (cur : ℕ) → length body ≤ cur + length (drop cur body)
length-drop_add body zero = omega arith
length-drop_add [] (suc cur) = omega arith
length-drop_add (c ∷ body) (suc cur) = omega (arith, length-drop_add body cur)

round :
    (fuel garbage cur : ℕ) (body out line data_bytes rest : Bytes) (n : ℕ)
    → At body cur (line ++ (crlf ++ (data_bytes ++ (crlf ++ rest))))
    → Lacks 13 line
    → scan_hex line ≡ some n
    → n ≡ length data_bytes
    → 0 < n
    → n < 2 ^ 31
    → cur + length line + n + 3 < size_word
    → chunk_loop (suc fuel) garbage body cur out
      ≡ chunk_loop fuel garbage body (cur + length line + 2 + n + 1) (out ++ data_bytes)
unfolding chunk_loop
round fuel garbage cur body out line data_bytes rest n a l e d p h k = ground (
  arith,
  ap (split_at crlf) a ∙ split_at-crlf line (data_bytes ++ (crlf ++ rest)) l,
  e,
  to_size_lem n h,
  ap (λ m. take m (data_bytes ++ (crlf ++ rest))) d ∙ take-length_append data_bytes (crlf ++ rest),
)

to_size-negative : (k : ℕ) → 0 < k → k ≤ 2 ^ 31 → to_size (size_word - k) ≡ size_word - k
unfolding to_size
to_size-negative k h l = ground arith

back :
    (cur n : ℕ)
    → cur < size_word
    → n + 3 ≤ 2 ^ 31
    → (cur + n + 2 + (size_word - (n + 3)) + 1) % size_word ≡ cur
back cur n h l = omega arith

same_round :
    (fuel garbage cur : ℕ) (body out line rest : Bytes)
    → At body cur (line ++ (crlf ++ rest))
    → Lacks 13 line
    → scan_hex line ≡ some (size_word - (length line + 3))
    → length line + 3 ≤ 2 ^ 31
    → cur < size_word
    → chunk_loop (suc fuel) garbage body cur out
      ≡ chunk_loop fuel garbage body cur (out ++ take (size_word - (length line + 3)) rest)
unfolding chunk_loop
same_round fuel garbage cur body out line rest a l e k h = ground (
  arith,
  ap (split_at crlf) a ∙ split_at-crlf line rest l,
  e,
  to_size-negative (length line + 3) (omega arith) k,
  back cur (length line) h k,
)

-- A size line that reads as a negative number of as many bytes as the line has, and three more for its
-- break and the byte that the loop adds, takes the loop back to the line: wherever the line stands,
-- the loop does not end, however many rounds are given. `-5` is such a line.
pub chunk_loop_hangs :
    (fuel garbage cur : ℕ) (body out line rest : Bytes)
    → drop cur body ≡ line ++ (crlf ++ rest)
    → Lacks 13 line
    → scan_hex line ≡ some (size_word - (length line + 3))
    → length line + 3 ≤ 2 ^ 31
    → cur < size_word
    → chunk_loop fuel garbage body cur out ≡ out_of_fuel
unfolding chunk_loop
chunk_loop_hangs zero garbage cur body out line rest a l e k h = refl
chunk_loop_hangs (suc fuel) garbage cur body out line rest a l e k h =
    same_round fuel garbage cur body out line rest a l e k h
    ∙ chunk_loop_hangs fuel garbage cur body _ line rest a l e k h

At-next :
    (cur : ℕ) (body line data_bytes rest : Bytes)
    → At body cur (line ++ (crlf ++ (data_bytes ++ (crlf ++ rest))))
    → At body (cur + length line + 2 + length data_bytes + 1) (10 ∷ rest)
At-next cur body line data_bytes rest a = rw (
  drop-add (cur + length line + 2 + length data_bytes) 1 body,
  drop-add (cur + length line + 2) (length data_bytes) body,
  drop-add (cur + length line) 2 body,
  drop-add cur (length line) body,
  a,
  drop-length_append line (crlf ++ (data_bytes ++ (crlf ++ rest))),
  drop-length_append data_bytes (crlf ++ rest),
)

last_round :
    (fuel garbage cur : ℕ) (body out line rest : Bytes)
    → At body cur (line ++ (crlf ++ rest))
    → Lacks 13 line
    → scan_hex line ≡ some 0
    → chunk_loop (suc fuel) garbage body cur out ≡ joined out
unfolding chunk_loop
last_round fuel garbage cur body out line rest a l e =
    ground (arith, ap (split_at crlf) a ∙ split_at-crlf line rest l, e, to_size_lem 0 (omega arith))

scan_zero : scan_hex (b'0' ∷ []) ≡ some 0
unfolding scan_hex
scan_zero = refl

-- The number of bytes of a chunk's text.
length-piece :
    (line data_bytes rest : Bytes)
    → length (line ++ (crlf ++ (data_bytes ++ (crlf ++ rest))))
      ≡ length line + length data_bytes + length rest + 4
length-piece line data_bytes rest = simp length-append (omega arith)

abbrev AllPieces : List Piece → Type 0
AllPieces = All IsPiece

-- The loop from a position at the line break of the chunk before, or at the body's beginning.
chunk_loop-encode :
    (ps : List Piece) (b : Bool) (fuel garbage cur : ℕ) (body out trailer : Bytes)
    → At body cur (break_left b ++ encode ps trailer)
    → AllPieces ps
    → cur + length (break_left b ++ encode ps trailer) < size_word
    → length ps < fuel
    → chunk_loop fuel garbage body cur out ≡ joined (out ++ payload ps)
chunk_loop-encode ps b zero garbage cur body out trailer a v w l = absurd (omega arith)
chunk_loop-encode [] b (suc fuel) garbage cur body out trailer a v w l = rw (append-nil out) (
    last_round fuel garbage cur body out (break_left b ++ b'0' ∷ []) trailer
      (a ∙ sym (append_assoc (break_left b) (b'0' ∷ []) (crlf ++ trailer)))
      (break-Lacks b (b'0' ∷ []) (omega arith)) (scan_break b (b'0' ∷ []) ∙ scan_zero))
chunk_loop-encode (p ∷ ps) b (suc fuel) garbage cur body out trailer a v w l =
    round fuel garbage cur body out line p.bytes (encode ps trailer) (length p.bytes) at
      (break-Lacks b p.line v.0.plain) (scan_break b p.line ∙ v.0.size) refl v.0.some_bytes
      v.0.not_huge (omega (arith, fits))
    ∙ chunk_loop-encode ps true fuel garbage (cur + length line + 2 + length p.bytes + 1) body
        (out ++ p.bytes) trailer (At-next cur body line p.bytes (encode ps trailer) at) v.1
        (omega (arith, fits)) (omega arith)
    ∙ ap joined (append_assoc out p.bytes (payload ps))
  where
    line : Bytes
    line = break_left b ++ p.line

    tail : Bytes
    tail = crlf ++ (p.bytes ++ (crlf ++ encode ps trailer))

    at : At body cur (line ++ tail)
    at = a ∙ sym (append_assoc (break_left b) p.line tail)

    fits : cur + (length line + length p.bytes + length (encode ps trailer) + 4) < size_word
    fits =
        rw (← length-piece line p.bytes (encode ps trailer))
          (rw (append_assoc (break_left b) p.line tail) w)

-- The chunks of a well-formed body are joined, whatever follows the chunk of size 0: each size line
-- reads as the number of the bytes of its chunk, from 1 to below 2^31, and the body is shorter than
-- 2^64. As many rounds as there are chunks and one more are enough.
pub chunk_loop_joins :
    (ps : List Piece) (fuel garbage : ℕ) (trailer : Bytes)
    → All IsPiece ps
    → length (encode ps trailer) < size_word
    → length ps < fuel
    → chunk_loop fuel garbage (encode ps trailer) 0 [] ≡ joined (payload ps)
chunk_loop_joins ps fuel garbage trailer v w l =
    chunk_loop-encode ps false fuel garbage 0 (encode ps trailer) [] trailer refl v (omega arith) l
