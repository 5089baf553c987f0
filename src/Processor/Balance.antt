-- ===== src/Processor/Balance.antt =====
-- What `_concCount` counts.
use lspider.Common.{
  ℕ, ◌+◌, ◌%◌, ◌≡◌, refl, List, [], ◌∷◌, ◌++◌, Bytes, arith, length, length-append, ap, subst,
  sum_of, sum_of-append,
}
use lspider.LinkTable.{word, increment, decrement}
use lspider.Context.{UrlContext, Status, done, timeout, proterr}
use lspider.Protocol.{Outside}
use lspider.Processor.{Conf, on_connected, Processor, Watch, lower_count, crawl_done}
use lspider.Processor.Serve.{
  Outcome, waits, again, crawled, failed, given_up, stranded, handle-Outcome,
}
use lspider.Processor.Count.{length-snoc}
use lspider.Processor.Reach.{Reach, start, pushed, tried, fired, tried-connect, pushed-enqueue}
use lspider.Processor.Dialled.{Dialled, not_begun, broken_off, begun, connect-Dialled}

unfoldable pub status_flag : Status → ℕ
status_flag timeout = 1
status_flag other = 0

unfoldable pub timed : UrlContext → ℕ
timed u = status_flag u.status

-- The contexts given up after their last retry.
abbrev pub given_up_count : Processor → ℕ
given_up_count p = sum_of timed p.failed

-- The sockets that were opened and not closed.
abbrev pub open_count : Processor → ℕ
open_count p = length p.watched + length p.leaked + length p.stuck

-- The count is below the number of open sockets by the number of contexts given up.
abbrev pub Balanced : ℕ → Processor → Type 0
Balanced extra p = (p.conc_count + given_up_count p) % word ≡ (extra + open_count p) % word

decrement_lem :
    (a t d : ℕ) → (a + t) % word ≡ (1 + d) % word → (decrement a + t) % word ≡ (0 + d) % word
unfolding decrement
decrement_lem a t d h = omega arith

twice_lem :
    (a t d : ℕ) → (a + t) % word ≡ (0 + d) % word → (decrement a + (t + 1)) % word ≡ (0 + d) % word
unfolding decrement
twice_lem a t d h = omega arith

increment_lem :
    (a t d : ℕ) → (a + t) % word ≡ (0 + d) % word → (increment a + t) % word ≡ (1 + d) % word
unfolding increment
increment_lem a t d h = omega arith

given_up-snoc :
    (us : List UrlContext) (u : UrlContext)
    → sum_of timed (us ++ u ∷ []) ≡ sum_of timed us + timed u
given_up-snoc us u = omega (arith, sum_of-append timed us (u ∷ []))

timed_flag : (u : UrlContext) (s : Status) → u.status ≡ s → timed u ≡ status_flag s
unfolding timed status_flag
timed_flag u s e = ap status_flag e

crawl_done-Balanced :
    (p : Processor) (u : UrlContext) → timed u ≡ 0 → Balanced 1 p → Balanced 0 (crawl_done p u)
unfolding crawl_done
crawl_done-Balanced p u h b = ground (
  arith,
  given_up-snoc p.failed u,
  decrement_lem p.conc_count (given_up_count p) (open_count p) b,
)

give_up-Balanced :
    (p : Processor) (u : UrlContext)
    → u.status ≡ timeout
    → Balanced 0 p
    → Balanced 0 (crawl_done p u)
unfolding crawl_done status_flag
give_up-Balanced p u h b = ground (
  arith,
  given_up-snoc p.failed u,
  timed_flag u timeout h,
  twice_lem p.conc_count (given_up_count p) (open_count p) b,
)

Outcome-Balanced :
    (c : Conf) (p q : Processor) (w : Watch) → Outcome c p w q → Balanced 1 p → Balanced 0 q
unfolding status_flag
Outcome-Balanced c p q w (waits h v l s) b =
    omega (arith, b, length-append p.watched (record { handler = h; context = v } ∷ []))
Outcome-Balanced c p q w (again v a) b =
    decrement_lem p.conc_count (given_up_count p) (open_count p) b
Outcome-Balanced c p q w (crawled v e f) b = crawl_done-Balanced p v (timed_flag v done f) b
Outcome-Balanced c p q w (failed v e f) b = crawl_done-Balanced p v (timed_flag v proterr f) b
Outcome-Balanced c p q w (given_up v e f g) b =
    give_up-Balanced (lower_count p) v f
      (decrement_lem p.conc_count (given_up_count p) (open_count p) b)
Outcome-Balanced c p q w (stranded e f) b = omega (arith, b, length-snoc p.stuck w.context)

Dialled-Balanced : (p q : Processor) (u : UrlContext) → Dialled p u q → Balanced 0 p → Balanced 0 q
Dialled-Balanced p q u (not_begun v s) b = b
Dialled-Balanced p q u (broken_off v s) b =
    omega (
      arith,
      increment_lem p.conc_count (given_up_count p) (open_count p) b,
      length-snoc p.leaked v,
    )
Dialled-Balanced p q u (begun v s t) b = omega (
  arith,
  increment_lem p.conc_count (given_up_count p) (open_count p) b,
  length-append p.watched (record { handler = on_connected; context = v } ∷ []),
)

watched-Balanced :
    (p : Processor) (xs ys : List Watch) (w : Watch)
    → p.watched ≡ xs ++ w ∷ ys
    → Balanced 0 p
    → Balanced 1 (record p { watched = xs ++ ys })
watched-Balanced p xs ys w e b =
    omega (arith, b, ap (length {A = Watch}) e, length-append xs (w ∷ ys), length-append xs ys)

-- Whatever is pushed, new and parsed or not, and however connections and events follow, `_concCount` is the number of sockets that are open, less the number of contexts
-- given up after their last retry, each of which was subtracted twice, as a 32-bit number. The open
-- sockets include those of contexts that were deleted when `connect` failed, which nothing closes.
pub Reach-Balanced :
    (c : Conf) (o : Outside) {us : List Bytes} {n : ℕ} {p : Processor}
    → Reach c o us n p
    → (p.conc_count + given_up_count p) % word
      ≡ (length p.watched + length p.leaked + length p.stuck) % word
Reach-Balanced c o r = omega (arith, all r)
  where
    all : {us : List Bytes} {n : ℕ} {p : Processor} → Reach c o us n p → Balanced 0 p
    all start = refl
    all (pushed {p = p} {q = q} u f s e) = subst (Balanced 0) (pushed-enqueue c o p q u e) (all s)
    all (tried {p = p} {q = q} resolve random d u us s e b h) =
        Dialled-Balanced (record p { waiting = us }) q u
          (connect-Dialled resolve random d (record p { waiting = us }) q u
            (tried-connect c o p q resolve random d u us e b h))
          (all s)
    all (fired {p = p} {q = q} xs w ys f ss rs s e h) =
        Outcome-Balanced c (record p { watched = xs ++ ys }) q w
          (handle-Outcome c o (record p { watched = xs ++ ys }) q w f ss rs h)
          (watched-Balanced p xs ys w e (all s))
