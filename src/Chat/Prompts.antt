-- ===== src/Chat/Prompts.antt =====
-- backend/internal/chat/agent/prompts.go: the fixed texts, and the fence around documentation. The
-- long instructions are an argument of the prompt.
pub mod Fencing
pub mod Fences
use urara_vision.Base.{
  ℕ, zero, suc, Bool, true, false, List, [], ◌∷◌, ◌++◌, ◌||◌, ◌&&◌, nat_eq, if◌then◌else◌,
}
use urara_vision.Base.Text.{
  Text, codes, ◌==◌, has_prefix, lower_byte, to_upper, trim_space, trim_right,
}

abbrev pub tool_budget_spent : Text
tool_budget_spent =
    codes "You have used your tool budget for this turn. Answer from what you have "
    ++ codes "retrieved, and say plainly which parts you could not confirm."

abbrev pub tool_budget_spent_result : Text
tool_budget_spent_result = codes "Not run: the tool budget for this turn is spent."

abbrev pub no_answer_produced : Text
no_answer_produced =
    codes "I ran out of tool budget for this question before I could put an answer "
    ++ codes "together. Try asking about one table at a time, or narrowing the question."

abbrev pub fence_tag : Text
fence_tag = codes "documentation-content"

abbrev pub disclosure_canary : Text
disclosure_canary = codes "harbour-lantern-kestrel"

-- \s of a regular expression
abbrev pub is_blank : ℕ → Bool
is_blank c = nat_eq c 32 || nat_eq c 9 || nat_eq c 10 || nat_eq c 12 || nat_eq c 13

unfoldable pub skip_blanks : Text → Text
skip_blanks [] = []
skip_blanks (c ∷ s) = let rest = skip_blanks s in if is_blank c then rest else c ∷ s

unfoldable pub skip_slash : Text → Text
skip_slash [] = []
skip_slash (c ∷ s) = if nat_eq c b'/' then s else c ∷ s

-- A prefix in any case, for a lower-case one.
unfoldable pub has_prefix_fold : Text → Text → Bool
has_prefix_fold s [] = true
has_prefix_fold [] (p ∷ ps) = false
has_prefix_fold (c ∷ s) (p ∷ ps) = nat_eq (lower_byte c) p && has_prefix_fold s ps

-- What follows a `<` that fenceTagRE matches.
unfoldable pub tag_follows : Text → Bool
unfolding skip_blanks skip_slash has_prefix_fold
tag_follows s = has_prefix_fold (skip_blanks (skip_slash (skip_blanks s))) fence_tag

-- fenceTagRE.ReplaceAllString(content, "&lt;$1")
unfoldable pub escape_tags : Text → Text
unfolding tag_follows
escape_tags [] = []
escape_tags (c ∷ s) =
    if nat_eq c b'<' && tag_follows s then codes "&lt;" ++ escape_tags s else c ∷ escape_tags s

unfoldable pub escape_byte : ℕ → Text
escape_byte c =
    if nat_eq c b'&'
    then codes "&amp;"
    else if nat_eq c b'"'
    then codes "&quot;"
    else if nat_eq c b'<'
    then codes "&lt;"
    else if nat_eq c b'>'
    then codes "&gt;"
    else c ∷ []

-- attrEscaper
unfoldable pub escape_attr : Text → Text
unfolding escape_byte
escape_attr [] = []
escape_attr (c ∷ s) = escape_byte c ++ escape_attr s

unfoldable pub fence : Text → Text → Text
unfolding escape_tags escape_attr
fence content source =
    codes "<"
    ++ fence_tag
    ++ codes " source=\""
    ++ escape_attr source
    ++ codes "\">\n"
    ++ escape_tags content
    ++ codes "\n</"
    ++ fence_tag
    ++ codes ">"

-- LanguageName
unfoldable pub language_name : Text → Text
language_name code =
    let c = to_upper (trim_space code) in
    if c == codes "EN"
    then codes "English"
    else if c == codes "JA"
    then codes "Japanese"
    else codes "English"

-- strings.NewReplacer("{language}", language, "{canary}", DisclosureCanary)
unfoldable pub fill_in : Text → ℕ → Text → Text
fill_in language skip [] = []
fill_in language (suc skip) (c ∷ s) = fill_in language skip s
fill_in language zero (c ∷ s) =
    if has_prefix (c ∷ s) (codes "{language}")
    then language ++ fill_in language 9 s
    else if has_prefix (c ∷ s) (codes "{canary}")
    then disclosure_canary ++ fill_in language 7 s
    else c ∷ fill_in language zero s

-- SystemPrompt; `instructions` is the text of that constant.
unfoldable pub system_prompt : Text → Text → Text → Text
unfolding language_name fill_in fence
system_prompt instructions card language =
    fill_in (language_name language) 0 instructions
    ++ codes "\nSNAPSHOT INVENTORY\n"
    ++ fence (trim_right card) (codes "snapshot-inventory")
    ++ codes "\n"
