-- ===== src/Processor/Dialled.antt =====
-- What `connect` of src/http_processor.cpp makes of a context.
use lspider.Common.{
  if_both, not, ◌&&◌, ℕ, ◌+◌, ◌≤◌, ◌≡◌, refl, Option, none, some, List, arith, Bytes, subst, ◌∙◌,
  ap,
}
use lspider.Context.{UrlContext}
use lspider.Protocol.{Built, not_parsed, overflow, cut, built, build_request}
use lspider.Processor.{Conf, on_connected, Processor, Run, ran, aborted, hangs, corrupted, watch}
use lspider.Processor.Connect.{
  is_https, site_missing, Dial, no_socket, refused, dialling, raise_count, drop_context,
  leak_context, dial, connect, connect_to, serv_addr,
}
use lspider.Processor.Keeps.{
  serv_addr-status, build_request-status, IsSameTask, same, then_same, serv_addr-IsSameTask,
  build_request-IsSameTask,
}
use lspider.Processor.Serve.{budget}
use lspider.Processor.Count.{held, potential, weight-snoc, weight-watch, waits_lem, budget-same}

-- What `connect` makes of the context `u`: without a socket it leaves the count of connections alone.
pub data Dialled (p : Processor) (u : UrlContext) : Processor → Type 0 where
  not_begun : (v : UrlContext) → IsSameTask u v → Dialled p u (drop_context v p)
  broken_off : (v : UrlContext) → IsSameTask u v → Dialled p u (leak_context v (raise_count p))
  begun :
      (v : UrlContext)
      → IsSameTask u v
      → v.status ≡ u.status
      → Dialled p u (watch on_connected v (raise_count p))

abbrev DialRun : Processor → UrlContext → Run → Type 0
DialRun p u (ran q) = Dialled p u q
DialRun p u aborted = Unit
DialRun p u hangs = Unit
DialRun p u corrupted = Unit

dial-DialRun :
    (p : Processor) (u v : UrlContext) (d : Dial) (b : Built)
    → IsSameTask u v
    → v.status ≡ u.status
    → build_request v ≡ b
    → DialRun p u (dial p v d b)
unfolding dial
dial-DialRun p u v no_socket not_parsed s t e = not_begun v s
dial-DialRun p u v no_socket overflow s t e = not_begun v s
dial-DialRun p u v no_socket cut s t e = not_begun v s
dial-DialRun p u v no_socket (built w) s t e = not_begun v s
dial-DialRun p u v refused not_parsed s t e = broken_off v s
dial-DialRun p u v refused overflow s t e = tt
dial-DialRun p u v refused cut s t e = broken_off v s
dial-DialRun p u v refused (built w) s t e =
    broken_off w (then_same u v w s (build_request-IsSameTask v w e))
dial-DialRun p u v dialling not_parsed s t e = broken_off v s
dial-DialRun p u v dialling overflow s t e = tt
dial-DialRun p u v dialling cut s t e = tt
dial-DialRun p u v dialling (built w) s t e =
    begun w (then_same u v w s (build_request-IsSameTask v w e)) (build_request-status v w e ∙ t)

connect_to-DialRun :
    (resolve : Bytes → List Bytes) (random : ℕ) (p : Processor) (u : UrlContext) (d : Dial)
    (o : Option UrlContext)
    → serv_addr resolve random u ≡ o
    → DialRun p u (connect_to d p u o)
unfolding connect_to
connect_to-DialRun resolve random p u d none e = not_begun u (same u)
connect_to-DialRun resolve random p u d (some v) e =
    dial-DialRun p u v d (build_request v) (serv_addr-IsSameTask resolve random u v e)
      (serv_addr-status resolve random u v e) refl

-- `connect` keeps the context: its socket is watched or it is deleted, and no other appears.
pub connect-Dialled :
    (resolve : Bytes → List Bytes) (random : ℕ) (d : Dial) (p q : Processor) (u : UrlContext)
    → connect resolve random d p u ≡ ran q
    → Dialled p u q
unfolding connect
connect-Dialled resolve random d p q u h = subst (DialRun p u) h (
    if_both (DialRun p u) (not (is_https u) && site_missing u) _ _ (λ e. tt)
      λ e. connect_to-DialRun resolve random p u d _ refl)

pub Dialled-held :
    (g : Bytes → ℕ) (p q : Processor) (u : UrlContext)
    → Dialled p u q
    → held g q ≡ g u.url + held g p
unfolding held
Dialled-held g p q u (not_begun v s) = omega (arith, weight-snoc g p.dropped v, ap g s.url)
Dialled-held g p q u (broken_off v s) = omega (arith, weight-snoc g p.leaked v, ap g s.url)
Dialled-held g p q u (begun v s t) = omega (arith, weight-watch g p on_connected v, ap g s.url)

raise_count-potential : (c : Conf) (p : Processor) → potential c (raise_count p) ≡ potential c p
unfolding potential
raise_count-potential c p = refl

pub Dialled-potential :
    (c : Conf) (p q : Processor) (u : UrlContext)
    → Dialled p u q
    → potential c q ≤ potential c p + budget c u
Dialled-potential c p q u (not_begun v s) = unfold potential in omega arith
Dialled-potential c p q u (broken_off v s) = unfold potential in omega arith
Dialled-potential c p q u (begun v s t) = omega (
  arith,
  waits_lem c (raise_count p) on_connected v,
  budget-same c u v s,
  raise_count-potential c p,
)
