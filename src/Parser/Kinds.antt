-- ===== src/Parser/Kinds.antt =====
-- backend/internal/parser/normalise.go: which role a type label or a table's name stands for.
pub mod Vocabulary
pub mod Phrases
use urara_vision.Base.{
  ℕ, Bool, true, false, Option, none, some, List, [], ◌∷◌, ◌++◌, map, not, ◌&&◌, ◌||◌, nat_eq, leb,
  ltb, length, is_empty, if◌then◌else◌,
}
use urara_vision.Base.Text.{
  Text, codes, ◌==◌, text_lt, has_prefix, to_lower, trim_space, join, fields,
}
use urara_vision.Base.Maps.{Map, get, get_or, keys}
use urara_vision.Base.Sort.{sort_by}
use urara_vision.Model.Roles.{kind_unknown}
use urara_vision.Parser.Kinds.Vocabulary.{role_aliases, name_prefixes, name_suffixes}

-- The \s of a regular expression: tab, newline, form feed, return, blank.
abbrev pattern_space : ℕ → Bool
pattern_space c = nat_eq c 9 || nat_eq c 10 || nat_eq c 12 || nat_eq c 13 || nat_eq c 32

abbrev begins_blank : Text → Bool
begins_blank [] = false
begins_blank (c ∷ s) = pattern_space c

-- Every run of white space becomes one blank.
unfoldable pub collapse : Text → Text
collapse [] = []
collapse (c ∷ s) =
    let rest = collapse s in
    if not (pattern_space c) then c ∷ rest else if begins_blank s then rest else 32 ∷ rest

unfoldable pub norm_key : Text → Text
norm_key s = trim_space (collapse (to_lower s))

unfoldable pub alias_less : Text → Text → Bool
alias_less a b =
    if not (nat_eq (length a) (length b)) then ltb (length b) (length a) else text_lt a b

unfoldable pub alias_order : List Text
alias_order = sort_by alias_less (keys role_aliases)

-- The inner loop: the phrase stands at the beginning.
unfoldable pub starts_with : List Text → List Text → Bool
starts_with ws [] = true
starts_with [] (p ∷ ps) = false
starts_with (w ∷ ws) (p ∷ ps) = w == p && starts_with ws ps

-- The outer loop, for a phrase of one word or more.
unfoldable pub has_run : List Text → List Text → Bool
has_run [] phrase = false
has_run (w ∷ ws) phrase = starts_with (w ∷ ws) phrase || has_run ws phrase

unfoldable pub contains_phrase : List Text → List Text → Bool
contains_phrase words phrase = not (is_empty phrase) && has_run words phrase

abbrev slug_byte : ℕ → Bool
slug_byte c = leb b'a' c && leb c b'z' || leb b'0' c && leb c b'9'

-- The bytes before the first open bracket, if there is one.
unfoldable pub before_bracket : Text → Option Text
before_bracket [] = none
before_bracket (c ∷ s) =
    if nat_eq c b'('
    then some []
    else elim (before_bracket s) [ none ↦ none | some t ↦ some (c ∷ t) ]

-- A bracket at the very start is left.
abbrev drop_qualifier : Text → Option Text → Text
drop_qualifier l none = l
drop_qualifier l (some []) = l
drop_qualifier l (some (c ∷ s)) = trim_space (c ∷ s)

abbrev begins_lower : Text → Bool
begins_lower [] = false
begins_lower (c ∷ s) = leb b'a' c && leb c b'z'

unfoldable pub slug_kind : Text → Text
slug_kind l =
    let cut = drop_qualifier l (before_bracket l) in
    let words = fields (map (λ c. if slug_byte c then c else 32) cut) in
    let slug = join (codes "_") words in
    if is_empty words || ltb 3 (length words)
    then kind_unknown
    else if slug == [] || ltb 32 (length slug) || not (begins_lower slug)
    then kind_unknown
    else slug

-- The loop over the aliases in their order.
unfoldable pub first_alias : List Text → List Text → Text → Text
first_alias words [] l = slug_kind l
first_alias words (a ∷ rest_of) l =
    let rest = first_alias words rest_of l in
    if contains_phrase words (fields a) then get_or a role_aliases [] else rest

abbrev known_or_read : Text → Option Text → Text
known_or_read l (some k) = k
known_or_read l none = first_alias (fields l) alias_order l

unfoldable pub normalise_kind : Text → Text
normalise_kind raw =
    let l = norm_key raw in if l == [] then kind_unknown else known_or_read l (get l role_aliases)

unfoldable pub has_suffix : Text → Text → Bool
has_suffix [] x = x == []
has_suffix (c ∷ s) x = (c ∷ s) == x || has_suffix s x

unfoldable pub by_suffix : List (Text × Text) → Text → Text
by_suffix [] l = kind_unknown
by_suffix ((affix, kind) ∷ ss) l =
    let rest = by_suffix ss l in if has_suffix l affix then kind else rest

unfoldable pub by_prefix : List (Text × Text) → Text → Text
by_prefix [] l = by_suffix name_suffixes l
by_prefix ((affix, kind) ∷ ps) l =
    let rest = by_prefix ps l in if has_prefix l affix then kind else rest

unfoldable pub kind_from_name : Text → Text
kind_from_name name = by_prefix name_prefixes (to_lower (trim_space name))
