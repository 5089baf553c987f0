-- ===== src/Control/Commands.antt =====
-- Commands and the handlers that they find.
use lspider.Common.{
  ◌≡◌, ◌≢◌, refl, sym, ap, ◌∙◌, true, false, Option, none, some, inl, inr, List, [], ◌∷◌, Bytes,
  codes, bytes_eq, bytes_eq_iff, arith, if_both, if◌then◌else◌, Bool-cases, subst, All,
}
use lspider.Common.Maps.{find, put, insert, replace, bytes_lt}
use lspider.Control.{
  responded, null_called, Controllable, add_handler, answer_of, call_handler, part_names, is_part,
  show_part, control_words, control, main_handlers, word_at, usage,
}
use lspider.Protocol.Text.{words}

-- A part is found under its name.
found_all :
    (part : Bytes → Controllable)
    → All (λ n. find n (main_handlers part) ≡ some (part n)) part_names
unfolding main_handlers add_handler find put insert replace bytes_lt
found_all part = (refl, (refl, (refl, (refl, (refl, (refl, (refl, tt)))))))

All-is_part :
    (P : Bytes → Type 0) (ns : List Bytes) (name : Bytes)
    → All P ns
    → is_part ns name ≡ true
    → P name
All-is_part P [] name h e = absurd (ground (arith, e))
All-is_part P (n ∷ ns) name h e = elim (Bool-cases (bytes_eq n name)) [
  | inl k ↦ subst P ((bytes_eq_iff n name).0 k) h.0
  | inr k ↦ All-is_part P ns name h.1 (ground (arith, e, k))
]

answered : (o : Option Bytes) → answer_of o ≢ null_called
answered none e = ground (arith, e)
answered (some s) e = ground (arith, e)

show_part-main_handlers :
    (part : Bytes → Controllable) (name cmd : Bytes)
    → is_part part_names name ≡ true
    → show_part (main_handlers part) name cmd ≡ answer_of (part name cmd)
unfolding show_part
show_part-main_handlers part name cmd e =
    let f =
      All-is_part (λ n. find n (main_handlers part) ≡ some (part n)) part_names name
        (found_all part) e in
    ap (λ b. if b then call_handler (find name (main_handlers part)) cmd else responded usage) e
    ∙ ap (λ o. call_handler o cmd) f

no_part :
    (name cmd : Bytes) (part : Bytes → Controllable)
    → is_part part_names name ≡ false
    → show_part (main_handlers part) name cmd ≢ null_called
unfolding show_part
no_part name cmd part e k = ground (arith, e, k)

show_part_answers :
    (part : Bytes → Controllable) (name cmd : Bytes)
    → show_part (main_handlers part) name cmd ≢ null_called
show_part_answers part name cmd = elim (Bool-cases (is_part part_names name)) [
  | inl e ↦ λ k. answered (part name cmd) (sym (show_part-main_handlers part name cmd e) ∙ k)
  | inr e ↦ λ k. no_part name cmd part e k
]

-- With the handlers that `main` registers, whatever they answer, no command calls a null handler.
pub control-main_handlers :
    (part : Bytes → Controllable) (cmd : Bytes) → control (main_handlers part) cmd ≢ null_called
unfolding control control_words
control-main_handlers part cmd =
    let ws = words [] cmd in
    if_both (λ a. a ≢ null_called) (bytes_eq (word_at 0 ws) (codes "help")) _ _
      (λ e.
        if_both (λ a. a ≢ null_called) (bytes_eq (word_at 1 ws) []) _ _ (λ k z. ground (arith, z))
          λ k z. ground (arith, z))
      λ e.
        if_both (λ a. a ≢ null_called) (bytes_eq (word_at 0 ws) (codes "show")) _ _
          (λ k. show_part_answers part (word_at 1 ws) (word_at 2 ws)) λ k z. ground (arith, z)
