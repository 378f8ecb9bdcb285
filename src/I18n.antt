-- ===== src/I18n.antt =====
-- backend/internal/i18ntext/i18ntext.go: the translations that a field carries inline.
-- The expression `(?i)\[[ \t]*(A|B|…)[ \t]*\]` that New builds is written out as a matcher for the
-- tags A, B, …; a tag neither begins nor ends with a blank, so the blanks need no backtracking.
pub mod Prose
pub mod Laws
pub mod Tagged
use urara_vision.Base.{
  ℕ, zero, suc, ◌+◌, ◌-◌, Bool, true, false, Option, none, some, List, [], ◌∷◌, ◌++◌, ◌||◌, not,
  length, any, nat_eq, is_empty, if◌then◌else◌,
}
use urara_vision.Base.Text.{Text, codes, ◌==◌, elem, to_upper, trim_space, upper_byte}
use urara_vision.Base.Maps.{Map, get, get_or, put}
use urara_vision.Model.{Internationalization}

unfoldable pub normalise_tag : Text → Text
normalise_tag v = to_upper (trim_space v)

pub record Splitter : Type 0 where
  pub primary : Text
  pub supported : List Text

unfoldable pub supported_tags : List Text → List Text
supported_tags [] = []
supported_tags (raw ∷ raws) =
    let tag = normalise_tag raw in
    if tag == [] then supported_tags raws else tag ∷ supported_tags raws

unfoldable pub new : Internationalization → Splitter
new i18n = record {
  primary = normalise_tag i18n.primary;
  supported = supported_tags i18n.supported;
}

abbrev pub is_blank : ℕ → Bool
is_blank c = nat_eq c 32 || nat_eq c 9

-- `[ \t]*`
unfoldable pub skip_blanks : Text → Text
skip_blanks [] = []
skip_blanks (c ∷ s) = if is_blank c then skip_blanks s else c ∷ s

abbrev pub push_byte : ℕ → Option (Text × Text) → Option (Text × Text)
push_byte c none = none
push_byte c (some (m, rest)) = some (c ∷ m, rest)

-- The tag in any case: the text that matched, and the rest.
unfoldable pub strip_tag : Text → Text → Option (Text × Text)
strip_tag [] s = some ([], s)
strip_tag (t ∷ ts) [] = none
strip_tag (t ∷ ts) (c ∷ s) =
    if nat_eq (upper_byte t) (upper_byte c) then push_byte c (strip_tag ts s) else none

-- `]` after blanks, then the rest.
unfoldable pub strip_close : Text → Option Text
strip_close [] = none
strip_close (c ∷ s) = if nat_eq c b']' then some s else none

abbrev pub closed : Text → Option Text → Option (Text × Text)
closed m none = none
closed m (some after) = some (m, after)

abbrev pub close_tag : Option (Text × Text) → Option (Text × Text)
close_tag none = none
close_tag (some (m, rest)) = closed m (strip_close (skip_blanks rest))

abbrev pub first_found : Option (Text × Text) → Option (Text × Text) → Option (Text × Text)
first_found (some found) other = some found
first_found none other = other

-- The first alternative that leads to a match.
unfoldable pub match_tags : List Text → Text → Option (Text × Text)
match_tags [] s = none
match_tags (tag ∷ tags) s = first_found (close_tag (strip_tag tag s)) (match_tags tags s)

-- A marker that begins here: the tag as it is written, and what stands behind the marker.
unfoldable pub match_marker : List Text → Text → Option (Text × Text)
match_marker tags [] = none
match_marker tags (c ∷ s) = if nat_eq c b'[' then match_tags tags (skip_blanks s) else none

abbrev pub begin_part : Text → Text × List (Text × Text) → Text × List (Text × Text)
begin_part tag (body, parts) = ([], (tag, body) ∷ parts)

abbrev pub more_text : ℕ → Text × List (Text × Text) → Text × List (Text × Text)
more_text c (body, parts) = (c ∷ body, parts)

-- The text before the first marker, and each marker's tag with the text up to the next marker.
-- `skip` counts the bytes of a marker that are still to be passed over.
unfoldable pub segments : List Text → ℕ → Text → Text × List (Text × Text)
segments tags skip [] = ([], [])
segments tags (suc skip) (c ∷ s) = segments tags skip s
segments tags zero (c ∷ s) = elim (match_marker tags (c ∷ s)) [
  | none ↦ more_text c (segments tags zero s)
  | some (tag, rest) ↦ begin_part tag (segments tags (length s - length rest) s)
]

pub record Field : Type 0 where
  pub primary : Text
  pub langs : List Text
  pub by_lang : Map Text
  pub duplicated : List Text

unfoldable pub append_once : List Text → Text → List Text
append_once xs v = if elem v xs then xs else xs ++ v ∷ []

abbrev pub add_body : Text → Text → Field → Option Text → Field
add_body lang body f (some existing) = record f {
  by_lang = put lang (existing ++ b' ' ∷ body) f.by_lang;
  duplicated = append_once f.duplicated lang;
}
add_body lang body f none = record f {
  by_lang = put lang body f.by_lang;
  langs = f.langs ++ lang ∷ [];
}

-- The closure `add` of Split.
unfoldable pub add : Text → Text → Field → Field
add lang text f =
    let body = trim_space text in
    if body == [] then f else add_body lang body f (get lang f.by_lang)

unfoldable pub add_parts : List (Text × Text) → Field → Field
add_parts [] f = f
add_parts ((tag, text) ∷ parts) f = add_parts parts (add (normalise_tag tag) text f)

abbrev pub blank_field : Text → Field
blank_field primary = record { primary = primary; langs = []; by_lang = []; duplicated = [] }

-- With no supported tag there is no expression to match, and the text is read whole.
unfoldable pub split : Splitter → Text → Field
split s text =
    if is_empty s.supported
    then add s.primary text (blank_field s.primary)
    else let (before, parts) = segments s.supported zero text in
      add_parts parts (add s.primary before (blank_field s.primary))

unfoldable pub translated : Field → Bool
translated f = any (λ l. not (l == f.primary)) f.langs

abbrev pub first_text : Text → Text → Text
first_text [] other = other
first_text (c ∷ s) other = c ∷ s

unfoldable pub first_written : List Text → Map Text → Text
first_written [] m = []
first_written (l ∷ ls) m = first_text (get_or l m []) (first_written ls m)

-- The text in one language: the primary one, then any, stands in for what is not there.
unfoldable pub in_lang : Field → Text → Text
in_lang f lang =
    first_text (get_or (normalise_tag lang) f.by_lang [])
      (first_text (get_or f.primary f.by_lang []) (first_written f.langs f.by_lang))
