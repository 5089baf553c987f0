-- ===== src/Url/Section.antt =====
-- `single_path_nointer` of src/url_tools.cpp: the escapes of a path, its parameters and its query.
-- It writes over its argument from left to right, never past the byte it reads; `none` is the return
-- value 0.
pub mod Visible
use lspider.Common.{
  ℕ, Bool, true, false, not, ◌&&◌, ◌||◌, Option, none, some, [], ◌∷◌, ◌++◌, ltb, ◌==◌,
  if◌then◌else◌, length, Bytes,
}
use lspider.Url.Chars.{reserved, pchar, param, uch_res, to_char}
use lspider.Url.Parse.{max_path_len}
use lspider.Url.Escape.{space_escape_path}

-- The loops of `single_path_nointer`: the path, the parameters, the query.
pub data Section : Type 0 where
  in_path in_params in_query : Section

-- The bytes that stay in a section.
unfoldable pub of_section : Section → ℕ → Bool
of_section in_path = pchar
of_section in_params = param
of_section in_query = uch_res

-- The section that a separator begins.
unfoldable pub separated : Section → ℕ → Option Section
separated in_path c =
    if c == b'/'
    then some in_path
    else if c == b';'
    then some in_params
    else if c == b'?'
    then some in_query
    else none
separated in_params c =
    if c == b';' then some in_params else if c == b'?' then some in_query else none
separated in_query c = if c == b'?' then some in_query else none

-- What is written from a place on, and `space_flag`.
abbrev pub Written : Type 0
Written = Option (Bytes × Bool)

abbrev pub keep : ℕ → Written → Written
keep c none = none
keep c (some (t, f)) = some (c ∷ t, c == 32 || f)

abbrev pub put_all : Bytes → Written → Written
put_all s none = none
put_all s (some (t, f)) = some (s ++ t, f)

-- A byte that no loop of a section takes.
abbrev pub at_separator : Section → ℕ → (Section → Written) → Written
at_separator sec c rest = elim (separated sec c) [
  | some next ↦ put_all (c ∷ []) (rest next)
  | none ↦ if c == b'#' then some ([], false) else none
]

unfoldable pub single_from : Section → Bytes → Written
single_from sec [] = some ([], false)
single_from sec (c ∷ []) = elim (of_section sec c) [
  | true ↦ keep c (single_from sec [])
  | false ↦ at_separator sec c λ next. single_from next []
]
single_from sec (c ∷ d ∷ []) = elim (of_section sec c) [
  | true ↦ keep c (single_from sec (d ∷ []))
  | false ↦ at_separator sec c λ next. single_from next (d ∷ [])
]
single_from sec (c ∷ d ∷ e ∷ s) = elim (of_section sec c) [
  | true ↦ elim (c == b'%') [
    | false ↦ keep c (single_from sec (d ∷ e ∷ s))
    | true ↦ elim (to_char d e == 0) [
      | true ↦ put_all (b'%' ∷ []) (single_from sec (d ∷ e ∷ s))
      | false ↦ elim (of_section sec (to_char d e) && not (reserved (to_char d e))) [
        | true ↦ keep (to_char d e) (single_from sec s)
        | false ↦ put_all (b'%' ∷ d ∷ e ∷ []) (single_from sec s)
      ]
    ]
  ]
  | false ↦ at_separator sec c λ next. single_from next (d ∷ e ∷ s)
]

abbrev pub with_spaces : ℕ → Written → Option Bytes
with_spaces len none = none
with_spaces len (some (t, f)) =
    if ltb len (length t) then none else if f then space_escape_path max_path_len t else some t

unfoldable pub single_path_nointer : Bytes → ℕ → Option Bytes
single_path_nointer s len = with_spaces len (single_from in_path s)
