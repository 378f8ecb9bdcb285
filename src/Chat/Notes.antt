-- ===== src/Chat/Notes.antt =====
-- backend/internal/notes/anchor.go: what a note may be pinned to, and its text.
use urara_vision.Base.{ℕ, Option, none, some, List, [], ◌∷◌, ltb, if◌then◌else◌}
use urara_vision.Base.Text.{Text, codes, ◌==◌, elem, trim_space, rune_count}

abbrev pub kinds : List Text
kinds =
    codes "domain" ∷ codes "table" ∷ codes "column" ∷ codes "relationship" ∷ codes "lineage" ∷ []

-- An unknown kind is an error.
unfoldable pub parse_kind : Text → Option Text
parse_kind s = if elem s kinds then some s else none

abbrev pub max_body_runes : ℕ
max_body_runes = 4000

pub data Body : Type 0 where
  accepted : Text → Body
  empty_body : Body
  body_too_long : Body

unfoldable pub check_body : Text → Body
check_body text =
    let body = trim_space text in
    if body == []
    then empty_body
    else if ltb max_body_runes (rune_count body)
    then body_too_long
    else accepted body
