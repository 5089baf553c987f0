-- ===== src/Url/Dots.antt =====
-- `replace_slash` and `normalize_path` of src/url_tools.cpp: the dot segments and empty segments of
-- a path. A path keeps its parameters and query.
pub mod Rooted
pub mod Segments
pub mod Resolved
use lspider.Common.{
  ℕ, Bool, true, false, ◌&&◌, ◌||◌, none, some, [], ◌∷◌, ◌++◌, reverse, ◌==◌, if◌then◌else◌, length,
  take, drop, Bytes,
}
use lspider.Url.Parse.{strchr}

-- Where `replace_slash` and `normalize_path` stop: at the first `?`, else at the first `;`, else at
-- the end.
unfoldable pub path_end : Bytes → ℕ
path_end s = elim (strchr s b'?') [
  | some i ↦ i
  | none ↦ elim (strchr s b';') [ some i ↦ i | none ↦ length s ]
]

unfoldable pub slashes : Bytes → Bytes
slashes [] = []
slashes (c ∷ s) = (if c == b'\\' then b'/' else c) ∷ slashes s

unfoldable pub replace_slash : Bytes → Bytes
replace_slash s = slashes (take (path_end s) s) ++ drop (path_end s) s

-- Back from `q` to the `/` before it; what is written is read backwards.
unfoldable pub back_to_slash : Bytes → Bytes
back_to_slash [] = []
back_to_slash (c ∷ out) = elim (c == b'/') [ true ↦ c ∷ out | false ↦ back_to_slash out ]

unfoldable pub up : Bytes → Bytes
up [] = []
up (c ∷ []) = c ∷ []
up (c ∷ d ∷ out) = back_to_slash (d ∷ out)

abbrev pub at_slash : Bytes → Bool
at_slash [] = false
at_slash (c ∷ out) = c == b'/'

abbrev pub is_dot : ℕ → Bool
is_dot c = c == b'.'

abbrev pub is_slash : ℕ → Bool
is_slash c = c == b'/'

-- The loop of `normalize_path` from `q` and `p` over the bytes up to `pend`.
unfoldable pub walk : Bytes → Bytes → Bytes
walk out [] = out
walk out (c ∷ []) = if at_slash out && (is_slash c || is_dot c) then out else c ∷ out
walk out (c ∷ d ∷ []) = elim (at_slash out) [
  | false ↦ walk (c ∷ out) (d ∷ [])
  | true ↦ elim (is_dot c && is_slash d) [
    | true ↦ out
    | false ↦ elim (is_slash c) [
      | true ↦ walk out (d ∷ [])
      | false ↦ elim (is_dot c && is_dot d) [ true ↦ up out | false ↦ walk (c ∷ out) (d ∷ []) ]
    ]
  ]
]
walk out (c ∷ d ∷ e ∷ s) = elim (at_slash out) [
  | false ↦ walk (c ∷ out) (d ∷ e ∷ s)
  | true ↦ elim (is_dot c && is_slash d) [
    | true ↦ walk out (e ∷ s)
    | false ↦ elim (is_dot c && is_dot d && is_slash e) [
      | true ↦ walk (up out) s
      | false ↦ elim (is_slash c) [
        | true ↦ walk out (d ∷ e ∷ s)
        | false ↦ walk (c ∷ out) (d ∷ e ∷ s)
      ]
    ]
  ]
]

-- The path begins with `/`, as `normalize_path` asserts.
unfoldable pub without_dots : Bytes → Bytes
without_dots [] = []
without_dots (c ∷ s) = reverse (walk (c ∷ []) (take (path_end s) s)) ++ drop (path_end s) s

unfoldable pub normalize_path : Bytes → Bytes
normalize_path s = without_dots (replace_slash s)
