-- ===== src/Extractor/Turns.antt =====
-- The view over any sequence of pushes, loaded pages and timer events.
use lspider.Common.{
  ℕ, suc, ◌+◌, ◌≤◌, ◌≡◌, refl, sym, subst, ap, ◌∙◌, Option, none, some, Option-cases, inl, inr,
  List, [], ◌∷◌, ◌++◌, Bytes, length, length-append, append_assoc, arith,
}
use lspider.Context.{UrlContext}
use lspider.Store.Dumper.{Extracted}
use lspider.Extractor.{
  View, started, push, on_load_finish, timer_event, start_timer, do_with_one_url, kill,
}

-- A view that can be reached, with the contexts pushed and the number of timer events.
pub data Reach (iconv : Bytes → Option Bytes) (most : ℕ) : List UrlContext → ℕ → View → Type 0 where
  begun : Reach iconv most [] 0 started
  pushed :
      (us : List UrlContext) (n : ℕ) (v : View) (u : UrlContext)
      → Reach iconv most us n v
      → length v.waiting ≤ most
      → Reach iconv most (us ++ (u ∷ [])) n (push u v)
  loaded :
      (us : List UrlContext) (n : ℕ) (v : View) (u : UrlContext) (elements : List (Bytes × Bytes))
      → Reach iconv most us n v
      → v.current ≡ some u
      → Reach iconv most us n (on_load_finish iconv elements u v)
  timed :
      (us : List UrlContext) (n : ℕ) (v : View) (u : UrlContext)
      → Reach iconv most us n v
      → v.current ≡ some u
      → Reach iconv most us (suc n) (timer_event v)

abbrev pub contexts : List Extracted → List UrlContext
contexts [] = []
contexts (x ∷ xs) = x.context ∷ contexts xs

abbrev pub shown : Option UrlContext → List UrlContext
shown none = []
shown (some u) = u ∷ []

-- What holds of such a view: every context is waiting, shown or handed on, in the order in which they
-- were pushed; the queue is at most one over its limit; nothing waits while the view is idle; and each
-- timer event has left a timer running besides the one of the page that is shown.
pub record Turn (most : ℕ) (us : List UrlContext) (n : ℕ) (v : View) : Type 0 where
  pub order : contexts v.handed ++ (shown v.current ++ v.waiting) ≡ us
  pub queue : length v.waiting ≤ suc most
  pub idle : v.current ≡ none → v.waiting ≡ []
  pub count : length v.timers ≡ n + length (shown v.current)
  pub latest :
      (u : UrlContext) → v.current ≡ some u → (rest : List ℕ) × (v.timers ≡ v.timer_id ∷ rest)

contexts-append : (xs ys : List Extracted) → contexts (xs ++ ys) ≡ contexts xs ++ contexts ys
contexts-append [] ys = refl
contexts-append (x ∷ xs) ys = ap (λ l. x.context ∷ l) (contexts-append xs ys)

-- The next context is shown.
next_Turn :
    (most n : ℕ) (us ws : List UrlContext) (v : View)
    → contexts v.handed ++ ws ≡ us
    → length ws ≤ suc most
    → length v.timers ≡ n
    → Turn most us n (do_with_one_url ws v)
unfolding do_with_one_url start_timer
next_Turn most n us [] v e l t = record {
  order = e;
  queue = l;
  idle = λ k. refl;
  count = omega (arith, t);
  latest = λ u k. absurd (ground (arith, k));
}
next_Turn most n us (w ∷ ws) v e l t = record {
  order = e;
  queue = omega arith;
  idle = λ k. absurd (ground (arith, k));
  count = omega (arith, t);
  latest = λ u k. (v.timers, refl);
}

push_idle :
    (u : UrlContext) (v : View)
    → v.current ≡ none
    → push u v ≡ do_with_one_url (v.waiting ++ (u ∷ [])) v
unfolding push
push_idle u v e = ground (arith, e)

push_busy :
    (u w : UrlContext) (v : View)
    → v.current ≡ some w
    → push u v ≡ record v { waiting = v.waiting ++ (u ∷ []) }
unfolding push
push_busy u w v e = ground (arith, e)

push-Turn :
    (most n : ℕ) (us : List UrlContext) (v : View) (u : UrlContext)
    → length v.waiting ≤ most
    → Turn most us n v
    → Turn most (us ++ (u ∷ [])) n (push u v)
push-Turn most n us v u l t =
    let more : contexts v.handed ++ (shown v.current ++ (v.waiting ++ (u ∷ []))) ≡ us ++ (u ∷ []) =
      ap (λ x. contexts v.handed ++ x) (sym (append_assoc (shown v.current) v.waiting (u ∷ [])))
      ∙ (sym (append_assoc (contexts v.handed) (shown v.current ++ v.waiting) (u ∷ []))
          ∙ ap (λ x. x ++ (u ∷ [])) t.order) in
    let long = length-append v.waiting (u ∷ []) in
    elim (Option-cases v.current) [
      | inl e ↦ subst (Turn most (us ++ (u ∷ [])) n) (sym (push_idle u v e)) (
          next_Turn most n _ (v.waiting ++ (u ∷ [])) v
            (subst (λ c. contexts v.handed ++ (shown c ++ (v.waiting ++ (u ∷ []))) ≡ us ++ (u ∷ []))
              e more)
            (omega (arith, long))
            (t.count ∙ subst (λ c. n + length (shown c) ≡ n) (sym e) (omega arith)))
      | inr p ↦ subst (Turn most (us ++ (u ∷ [])) n) (sym (push_busy u p.0 v p.1)) (record {
        order = more;
        queue = omega (arith, long);
        idle = λ k. absurd (ground (arith, sym k ∙ p.1));
        count = t.count;
        latest = t.latest;
      })
    ]

kill_latest : (t : ℕ) (rest : List ℕ) → kill t (t ∷ rest) ≡ rest
kill_latest t rest = ground arith

load-Turn :
    (iconv : Bytes → Option Bytes) (most n : ℕ) (us : List UrlContext) (v : View) (u : UrlContext)
    (elements : List (Bytes × Bytes))
    → v.current ≡ some u
    → Turn most us n v
    → Turn most us n (on_load_finish iconv elements u v)
unfolding on_load_finish
load-Turn iconv most n us v u elements e t =
    let (rest, k) = t.latest u e in
    next_Turn most n us v.waiting _
      (ap (λ l. l ++ v.waiting) (contexts-append v.handed _)
        ∙ (append_assoc (contexts v.handed) (u ∷ []) v.waiting
            ∙ subst (λ c. contexts v.handed ++ (shown c ++ v.waiting) ≡ us) e t.order))
      t.queue
      (ap length (ap (kill v.timer_id) k ∙ kill_latest v.timer_id rest)
        ∙ omega (arith, ap length k, t.count, ap (λ c. length (shown c)) e))

timer-Turn :
    (most n : ℕ) (us : List UrlContext) (v : View) (u : UrlContext)
    → v.current ≡ some u
    → Turn most us n v
    → Turn most us (suc n) (timer_event v)
unfolding timer_event start_timer
timer-Turn most n us v u e t = record {
  order = t.order;
  queue = t.queue;
  idle = t.idle;
  count = omega (arith, t.count);
  latest = λ w k. (v.timers, refl);
}

-- In every state of the view that can be reached: the contexts handed to the dumper, the one that is
-- shown and those that wait are the contexts pushed, in their order; the queue is at most one over
-- its limit; nothing waits while the view is idle; and of the timers that run, one belongs to the page
-- shown, and each timer event so far has left one more, which nothing stops.
pub Reach-Turn :
    (iconv : Bytes → Option Bytes) (most n : ℕ) (us : List UrlContext) (v : View)
    → Reach iconv most us n v
    → Turn most us n v
unfolding started do_with_one_url
Reach-Turn iconv most n us _ begun = record {
  order = refl;
  queue = omega arith;
  idle = λ k. refl;
  count = refl;
  latest = λ u k. absurd (ground (arith, k));
}
Reach-Turn iconv most n _ _ (pushed us _ v u r l) =
    push-Turn most n us v u l (Reach-Turn iconv most n us v r)
Reach-Turn iconv most n us _ (loaded _ _ v u elements r e) =
    load-Turn iconv most n us v u elements e (Reach-Turn iconv most n us v r)
Reach-Turn iconv most _ us _ (timed _ n v u r e) =
    timer-Turn most n us v u e (Reach-Turn iconv most n us v r)
