-- ===== src/Control/Requests.antt =====
-- The context that a request becomes.
use lspider.Common.{
  ℕ, zero, suc, ◌≡◌, ◌<◌, ◌≤◌, ◌^◌, ◌-◌, refl, ap, true, none, some, Option-cases, inl, inr, ◌⊎◌,
  [], ◌∷◌, ◌++◌, Bytes, codes, take, length, arith,
}
use lspider.Common.Decimal.{decimal}
use lspider.Context.{UrlContext, new_context}
use lspider.LinkTable.{increment}
use lspider.Processor.{Conf, enqueue}
use lspider.Processor.Connect.{push_connect_queue}
use lspider.Url.Parse.{max_url_len}
use lspider.Url.Normalize.{normalize_url, isnormalized_url}
use lspider.Url.Normalize.Accepted.{normalize_url-isnormalized_url}
use lspider.Url.Sign.{get_url_sign64}
use lspider.Url.Sign.Words.{get_url_sign64-decimal}
use lspider.Store.Dumper.{max_sign_len}
use lspider.Control.{Request, RequestRecv, requested, request}

-- What is pushed for a request.
pub record IsRequested (r : Request) (u : UrlContext) : Type 0 where
  pub url :
      ((t : Bytes) × (u.url ≡ codes "http://" ++ t) × (isnormalized_url 0 t ≡ true))
      ⊎ ((u.url ≡ r.str) × (normalize_url r.str max_url_len ≡ none))
  pub depth : u.link_depth ≡ 0
  pub hub : u.hub ≡ r.hub
  pub sign : u.sign ≡ decimal (get_url_sign64 r.str)
  pub below : get_url_sign64 r.str < 2 ^ 64

take_all : (n : ℕ) (s : Bytes) → length s ≤ n → take n s ≡ s
take_all zero [] h = refl
take_all (suc n) [] h = refl
take_all zero (c ∷ s) h = absurd (omega arith)
take_all (suc n) (c ∷ s) h = ap (λ t. c ∷ t) (take_all n s (omega arith))

requested-IsRequested : (r : Request) → IsRequested r (requested r)
unfolding requested new_context
requested-IsRequested r =
    let (below, digits) = get_url_sign64-decimal r.str in
    record {
      url = elim (Option-cases (normalize_url r.str max_url_len)) [
        | inl e ↦ inr (plain r e, e)
        | inr p ↦ inl (
          p.0,
          normal r p.0 p.1,
          normalize_url-isnormalized_url 0 max_url_len r.str p.0 (omega arith) (omega arith) p.1,
        )
      ];
      depth = refl;
      hub = refl;
      sign = take_all (max_sign_len - 1) (decimal (get_url_sign64 r.str)) (omega (arith, digits));
      below = below;
    }
  where
    plain : (r : Request) → normalize_url r.str max_url_len ≡ none → (requested r).url ≡ r.str
    plain r e = ground (arith, e)

    normal :
        (r : Request) (t : Bytes)
        → normalize_url r.str max_url_len ≡ some t
        → (requested r).url ≡ codes "http://" ++ t
    normal r t e = ground (arith, e)

-- Unless the queue of the processor is over its limit, a request is counted and put at the end of the
-- queue as a context of depth 0 with its whole signature, a number below 2^64 in decimal digits; its
-- URL is `http://` before one that `isnormalized_url` accepts, or, if it has no normal form, the URL
-- of the request.
pub request-IsRequested :
    (c : Conf) (r : Request) (q : RequestRecv)
    → length q.processor.waiting ≤ c.connect_queue_size
    → (u : UrlContext) × IsRequested r u
      × (request c r q
          ≡ some (record {
            request_count = increment q.request_count;
            processor = enqueue u q.processor;
          }))
unfolding request push_connect_queue
request-IsRequested c r q h = (requested r, requested-IsRequested r, ground (arith, h))
