-- ===== src/Processor/Keeps.antt =====
-- The fields of a context that the analysis of a response, the parsing of a URL and the request
-- do not write.
use lspider.Common.{
  ◌&&◌, ℕ, ◌≡◌, refl, ◌∙◌, Bool, true, false, Bool-cases, inl, inr, Option, none, some, List, [],
  ◌∷◌, arith, Bytes, not, ◌==◌, if◌then◌else◌,
}
use lspider.Context.{UrlContext, parse, first_parse, redirect_parse}
use lspider.Protocol.{
  Outside, Analysis, ha_ok, ha_fail, unfinished, ◌>>=◌, built, Buffer, printed, build_request,
  analyse, analyse_first_line, analyse_header, analyse_body, analyse_chunk, unzip, with_words,
  analyse_cookie, unless_done, or_fail,
}
use lspider.Processor.Connect.{serv_addr}

-- The same task: the URL and what was spent of its redirections and retries.
pub record IsSameTask (u v : UrlContext) : Type 0 where
  pub url : v.url ≡ u.url
  pub depth : v.redirect_depth ≡ u.redirect_depth
  pub retry : v.retry ≡ u.retry

pub same : (u : UrlContext) → IsSameTask u u
same u = record { url = refl; depth = refl; retry = refl }

pub then_same : (u v w : UrlContext) → IsSameTask u v → IsSameTask v w → IsSameTask u w
then_same u v w a b = record {
  url = b.url ∙ a.url;
  depth = b.depth ∙ a.depth;
  retry = b.retry ∙ a.retry;
}

-- Whatever context the analysis returns is about the same task.
abbrev pub IsKept : UrlContext → Analysis → Type 0
IsKept u (ha_ok v) = IsSameTask u v
IsKept u ha_fail = Unit
IsKept u unfinished = Unit

IsKept-bind :
    (u : UrlContext) (a : Analysis) (f : UrlContext → Analysis)
    → IsKept u a
    → ((v : UrlContext) → IsSameTask u v → IsKept u (f v))
    → IsKept u (a >>= f)
IsKept-bind u (ha_ok v) f h k = k v h
IsKept-bind u ha_fail f h k = tt
IsKept-bind u unfinished f h k = tt

IsKept-after : (u v : UrlContext) (a : Analysis) → IsSameTask u v → IsKept v a → IsKept u a
IsKept-after u v (ha_ok w) s k = then_same u v w s k
IsKept-after u v ha_fail s k = tt
IsKept-after u v unfinished s k = tt

with_words-IsSameTask : (u : UrlContext) (ws : List Bytes) → IsSameTask u (with_words u ws)
unfolding with_words
with_words-IsSameTask u [] = record { url = refl; depth = refl; retry = refl }
with_words-IsSameTask u (v ∷ []) = record { url = refl; depth = refl; retry = refl }
with_words-IsSameTask u (v ∷ s ∷ r) = record { url = refl; depth = refl; retry = refl }

IsKept-first_line : (u : UrlContext) → IsKept u (or_fail (analyse_first_line u))
unfolding analyse_first_line with_words
IsKept-first_line u = ground arith

IsKept-header : (u : UrlContext) → IsKept u (or_fail (analyse_header u))
unfolding analyse_header analyse_cookie
IsKept-header u = ground arith

IsKept-chunk : (o : Outside) (u : UrlContext) → IsKept u (analyse_chunk o u)
unfolding analyse_chunk
IsKept-chunk o u = ground arith

IsKept-unzip : (o : Outside) (u : UrlContext) → IsKept u (unzip o u)
unfolding unzip
IsKept-unzip o u = ground arith

IsKept-body : (o : Outside) (u : UrlContext) → IsKept u (analyse_body o u)
unfolding analyse_body
IsKept-body o u = elim (Bool-cases (not (u.http_status == 200))) [
  | inl e ↦ rw e (ground arith)
  | inr e ↦ rw e (
      IsKept-bind u _ _ (IsKept-after u _ _ (ground arith) (IsKept-chunk o _))
        λ v s. IsKept-bind u _ _ (IsKept-after u v _ s (IsKept-unzip o v)) λ w t. ground arith)
]

IsKept-unless_done :
    (done : Bool) (f : UrlContext → Option UrlContext) (u : UrlContext)
    → IsKept u (or_fail (f u))
    → IsKept u (unless_done done f u)
IsKept-unless_done true f u h = same u
IsKept-unless_done false f u h = h

-- The stages of the analysis.
abbrev Stage : Type 0
Stage = UrlContext → Analysis

abbrev line_stage : Stage
line_stage u = unless_done u.finish_first_line analyse_first_line u

abbrev header_stage : Stage
header_stage u = unless_done u.finish_header analyse_header u

abbrev body_stage : Outside → Stage
body_stage o u = if u.finish_first_line && u.finish_header then analyse_body o u else ha_ok u

abbrev end_stage : Stage
end_stage u = if u.finish_first_line && (u.finish_header && u.finish_body) then ha_ok u else ha_fail

IsKept-body_stage : (o : Outside) (u : UrlContext) → IsKept u (body_stage o u)
IsKept-body_stage o u = elim (Bool-cases (u.finish_first_line && u.finish_header)) [
  | inl e ↦ rw e (IsKept-body o u)
  | inr e ↦ rw e (same u)
]

IsKept-end_stage : (u : UrlContext) → IsKept u (end_stage u)
IsKept-end_stage u = ground arith

IsKept-then :
    (f g : Stage)
    → ((u : UrlContext) → IsKept u (f u))
    → ((u : UrlContext) → IsKept u (g u))
    → (u : UrlContext) → IsKept u (f u >>= g)
IsKept-then f g h k u = IsKept-bind u (f u) g (h u) λ v s. IsKept-after u v (g v) s (k v)

-- The analysis of a response keeps the URL and the spent redirections and retries.
pub IsKept-analyse : (o : Outside) (u : UrlContext) → IsKept u (analyse o u)
unfolding analyse
IsKept-analyse o =
    IsKept-then line_stage (λ v. header_stage v >>= λ w. body_stage o w >>= end_stage)
      (λ u. IsKept-unless_done u.finish_first_line analyse_first_line u (IsKept-first_line u))
      (IsKept-then header_stage (λ w. body_stage o w >>= end_stage)
        (λ u. IsKept-unless_done u.finish_header analyse_header u (IsKept-header u))
        (IsKept-then (body_stage o) end_stage (IsKept-body_stage o) IsKept-end_stage))

-- So do the parsing of the URL and the choice of the port.
pub serv_addr-IsSameTask :
    (resolve : Bytes → List Bytes) (random : ℕ) (u v : UrlContext)
    → serv_addr resolve random u ≡ some v
    → IsSameTask u v
unfolding serv_addr parse first_parse redirect_parse
serv_addr-IsSameTask resolve random u v h = ground arith

printed-IsSameTask : (u v : UrlContext) (b : Option Buffer) → printed u b ≡ built v → IsSameTask u v
printed-IsSameTask u v none h = cc
printed-IsSameTask u v (some b) h = ground arith

pub build_request-IsSameTask : (u v : UrlContext) → build_request u ≡ built v → IsSameTask u v
unfolding build_request
build_request-IsSameTask u v h = ground (arith, printed-IsSameTask u v _)

-- And the status stays.
pub serv_addr-status :
    (resolve : Bytes → List Bytes) (random : ℕ) (u v : UrlContext)
    → serv_addr resolve random u ≡ some v
    → v.status ≡ u.status
unfolding serv_addr parse first_parse redirect_parse
serv_addr-status resolve random u v h = ground arith

printed-status :
    (u v : UrlContext) (b : Option Buffer) → printed u b ≡ built v → v.status ≡ u.status
printed-status u v none h = cc
printed-status u v (some b) h = ground arith

pub build_request-status : (u v : UrlContext) → build_request u ≡ built v → v.status ≡ u.status
unfolding build_request
build_request-status u v h = ground (arith, printed-status u v _)
