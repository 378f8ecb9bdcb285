-- ===== src/Chat/Citations.antt =====
-- backend/internal/chat/agent/citations.go: which tables an answer cites. The regular expression of an
-- identifier is read on ASCII.
pub mod Searches
pub mod Cites
pub mod Sources
pub mod Places
use urara_vision.Base.{
  ℕ, zero, suc, ◌+◌, Bool, true, false, not, Option, none, some, List, [], ◌∷◌, ◌++◌, ◌&&◌, ◌||◌,
  map, leb, ltb, nat_eq, is_empty, length, take, drop, if◌then◌else◌,
}
use urara_vision.Base.Text.{Text, codes, ◌==◌, elem, has_prefix, to_lower, trim_space}
use urara_vision.Base.Sort.{sort_by}
use urara_vision.Base.Json.{
  Value, null, bool, num, str, arr, obj, Items, no_items, item, Members, no_members, member,
}

abbrev pub max_citations : ℕ
max_citations = 20

abbrev pub max_depth : ℕ
max_depth = 12

abbrev is_lower : ℕ → Bool
is_lower c = leb b'a' c && leb c b'z'

-- isWordByte
abbrev pub is_word_byte : ℕ → Bool
is_word_byte c = nat_eq c b'_' || leb b'0' c && leb c b'9' || is_lower c

-- The bytes of an identifier, in lower case: the first, and the others.
abbrev is_id_byte : ℕ → Bool
is_id_byte c = is_word_byte c || nat_eq c b'.' || nat_eq c b'-'

unfoldable pub all_bytes : (ℕ → Bool) → Text → Bool
all_bytes p [] = true
all_bytes p (c ∷ s) = p c && all_bytes p s

unfoldable pub is_id_part : Text → Bool
unfolding all_bytes
is_id_part [] = false
is_id_part (c ∷ s) = is_word_byte c && all_bytes is_id_byte s

-- What stands before and after the first slash, if there is one.
unfoldable pub before_slash : Text → Text
before_slash [] = []
before_slash (c ∷ s) = let rest = before_slash s in if nat_eq c b'/' then [] else c ∷ rest

unfoldable pub after_slash : Text → Option Text
after_slash [] = none
after_slash (c ∷ s) = let rest = after_slash s in if nat_eq c b'/' then some s else rest

unfoldable pub is_part_after : Option Text → Bool
unfolding is_id_part
is_part_after none = false
is_part_after (some s) = is_id_part s

-- tableID.MatchString
unfoldable pub is_table_id : Text → Bool
unfolding is_id_part before_slash after_slash is_part_after
is_table_id v = is_id_part (before_slash (to_lower v)) && is_part_after (after_slash (to_lower v))

-- plainWord.MatchString
unfoldable pub is_plain_word : Text → Bool
unfolding all_bytes
is_plain_word s = not (is_empty s) && all_bytes is_lower s

abbrev id_keys : List Text
id_keys =
    codes "id" ∷ codes "tableId" ∷ codes "from" ∷ codes "to" ∷ codes "source" ∷ codes "target" ∷ []

-- add, where `seen` holds the identifiers in lower case.
unfoldable pub add_id : Text → List Text → List Text
unfolding is_table_id
add_id v ids =
    let w = trim_space v in
    if is_table_id w && not (elem (to_lower w) (map to_lower ids)) then ids ++ w ∷ [] else ids

unfoldable pub add_value : Value → List Text → List Text
unfolding add_id
add_value (str s) ids = add_id s ids
add_value v ids = ids

-- stringsOf, each one added
unfoldable pub add_items : Items → List Text → List Text
unfolding add_value
add_items no_items ids = ids
add_items (item v vs) ids = add_items vs (add_value v ids)

unfoldable pub add_list : Value → List Text → List Text
unfolding add_items
add_list (arr vs) ids = add_items vs ids
add_list v ids = ids

unfoldable pub add_member : Text → Value → List Text → List Text
unfolding add_list add_value
add_member k v ids =
    if elem k id_keys then add_value v ids else if k == codes "tables" then add_list v ids else ids

-- walk, at a depth
unfoldable mutual
  unfolding add_member

  pub walk_value : ℕ → Value → List Text → List Text
  walk_value depth (arr vs) ids =
      let rest = walk_items (suc depth) vs ids in if ltb max_depth depth then ids else rest
  walk_value depth (obj ms) ids =
      let rest = walk_members (suc depth) ms ids in if ltb max_depth depth then ids else rest
  walk_value depth v ids = ids

  pub walk_items : ℕ → Items → List Text → List Text
  walk_items depth no_items ids = ids
  walk_items depth (item v vs) ids = walk_items depth vs (walk_value depth v ids)

  pub walk_members : ℕ → Members → List Text → List Text
  walk_members depth no_members ids = ids
  walk_members depth (member k v ms) ids =
      walk_members depth ms (walk_value depth v (add_member k v ids))

unfoldable pub walk_all : List Value → List Text → List Text
walk_all [] ids = ids
walk_all (v ∷ vs) ids = walk_all vs (walk_value 0 v ids)

-- collect
unfoldable pub collect : List Value → List Text
unfolding walk_all
collect results = walk_all results []

-- Whether a text begins with a byte of a word.
abbrev pub starts_word : Text → Bool
starts_word [] = false
starts_word (c ∷ s) = is_word_byte c

-- The first place from `i` on where the needle stands between bytes of no word; `w` says whether the
-- byte before is one.
unfoldable pub scan : ℕ → Bool → Text → Text → Option ℕ
scan i w [] needle = if is_empty needle && not w then some i else none
scan i w (c ∷ s) needle =
    let rest = scan (suc i) (is_word_byte c) s needle in
    if has_prefix (c ∷ s) needle && not w && not (starts_word (drop (length needle) (c ∷ s)))
    then some i
    else rest

-- Whether the byte before a place is one of a word.
unfoldable pub word_before : ℕ → Text → Bool
word_before zero s = false
word_before (suc i) [] = false
word_before (suc zero) (c ∷ s) = is_word_byte c
word_before (suc (suc i)) (c ∷ s) = word_before (suc i) s

-- boundedFrom
unfoldable pub bounded_from : Text → Text → ℕ → Option ℕ
unfolding scan word_before
bounded_from hay needle from = scan from (word_before from hay) (drop from hay) needle

-- indexBounded
unfoldable pub index_bounded : Text → Text → Option ℕ
unfolding bounded_from
index_bounded hay needle = bounded_from hay needle 0

unfoldable pub spaces : ℕ → Text
spaces zero = []
spaces (suc n) = 32 ∷ spaces n

abbrev blank_at : ℕ → ℕ → Text → Text
blank_at at n s = take at s ++ spaces n ++ drop (at + n) s

-- allBounded with each occurrence made blank; there are at most as many as the text has bytes.
unfoldable pub blank_all : ℕ → Text → Text → ℕ → Text → Text
unfolding bounded_from spaces
blank_all zero hay needle from out = out
blank_all (suc fuel) hay needle from out = elim (bounded_from hay needle from) [
  | none ↦ out
  | some at ↦ blank_all fuel hay needle (at + length needle) (blank_at at (length needle) out)
]

-- The text without the full identifiers.
unfoldable pub unpin : List Text → Text → Text
unfolding blank_all
unpin [] s = s
unpin (c ∷ cs) s = unpin cs (blank_all (suc (length s)) s (to_lower c) 0 s)

abbrev ends_span : Text → Bool
ends_span [] = false
ends_span (c ∷ s) = nat_eq c b'`' || nat_eq c b'.'

-- indexCodeSpan, of the name with its open quote
unfoldable pub scan_span : ℕ → Text → Text → Option ℕ
scan_span i [] needle = none
scan_span i (c ∷ s) needle =
    let rest = scan_span (suc i) s needle in
    if has_prefix (c ∷ s) needle && ends_span (drop (length needle) (c ∷ s)) then some i else rest

unfoldable pub bare_name : Option Text → Text
bare_name none = []
bare_name (some s) = s

-- Where the bare name of a candidate stands: a plain word counts only in a code span.
unfoldable pub bare_mention : Text → Text → Option ℕ
unfolding scan_span index_bounded is_plain_word
bare_mention bare unpinned =
    if is_plain_word bare
    then scan_span 0 unpinned (b'`' ∷ bare)
    else index_bounded unpinned (to_lower bare)

unfoldable pub earlier : Option ℕ → Option ℕ → Option ℕ
earlier none q = q
earlier (some p) none = some p
earlier (some p) (some q) = if ltb q p then some q else some p

-- firstMention
unfoldable pub first_mention : Text → Text → Text → Option ℕ
unfolding index_bounded bare_mention earlier bare_name after_slash
first_mention candidate lowered unpinned =
    earlier (index_bounded lowered (to_lower candidate))
      (bare_mention (bare_name (after_slash candidate)) unpinned)

pub record Mention : Type 0 where
  pub place : ℕ  -- pos
  pub order : ℕ
  pub id : Text

unfoldable pub add_mention : ℕ → Text → Option ℕ → List Mention → List Mention
add_mention order id none ms = ms
add_mention order id (some p) ms = record { place = p; order = order; id = id } ∷ ms

unfoldable pub mentions_from : ℕ → Text → Text → List Text → List Mention
unfolding first_mention add_mention
mentions_from order lowered unpinned [] = []
mentions_from order lowered unpinned (c ∷ cs) =
    add_mention order c (first_mention c lowered unpinned)
      (mentions_from (suc order) lowered unpinned cs)

abbrev pub mention_less : Mention → Mention → Bool
mention_less a b = if nat_eq a.place b.place then ltb a.order b.order else ltb a.place b.place

abbrev pub mention_id : Mention → Text
mention_id m = m.id

unfoldable pub cite : List Text → Text → List Text
unfolding mentions_from unpin
cite candidates lowered = map mention_id (
    take max_citations
      (sort_by mention_less (mentions_from 0 lowered (unpin candidates lowered) candidates)))

-- ExtractCitations
unfoldable pub extract_citations : List Value → Text → List Text
unfolding collect cite
extract_citations results answer =
    if is_empty answer then [] else cite (collect results) (to_lower answer)
