-- ===== src/Url/Escape/Tests.antt =====
-- Paths with spaces.
use lspider.Common.{◌≡◌, refl, none, codes}
use lspider.Url.Escape.{space_escape_path, escape_from}

too_long : space_escape_path 6 (codes "/a b") ≡ none
unfolding space_escape_path escape_from
too_long = refl
