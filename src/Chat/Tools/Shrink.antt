-- ===== src/Chat/Tools/Shrink.antt =====
-- backend/internal/chat/tools/shrink.go: how results are cut down. A value of any type is a JSON
-- value.
pub mod Pruning
use urara_vision.Base.{
  ℕ, zero, suc, ◌-◌, Bool, true, false, Option, none, some, List, [], ◌∷◌, ◌++◌, ◌||◌, ◌&&◌, not,
  map, ltb, leb, is_empty, length, take, if◌then◌else◌,
}
use urara_vision.Base.Text.{Text, codes, ◌==◌, starts_rune, rune_count, elem}
use urara_vision.Base.Json.{
  Value, null, bool, num, str, arr, obj, Items, no_items, item, Members, no_members, member, Result,
  ok, fault, items_of, set_member, delete_member, members_of, find, number,
}

abbrev pub max_items : ℕ
max_items = 50

abbrev pub max_column_description_runes : ℕ
max_column_description_runes = 300

-- Capped
unfoldable pub capped : List Value → Members
capped items = members_of (
    (codes "items", arr (items_of (take max_items items)))
    ∷ (codes "truncated", bool (ltb max_items (length items)))
    ∷ (codes "total", number (length items))
    ∷ [])

-- The bytes of the first runes.
unfoldable pub take_runes : ℕ → Text → Text
take_runes n [] = []
take_runes zero (c ∷ s) = let rest = take_runes zero s in if starts_rune c then [] else c ∷ rest
take_runes (suc n) (c ∷ s) =
    let rest = take_runes n s in
    let same = take_runes (suc n) s in if starts_rune c then c ∷ rest else c ∷ same

-- U+2026 in UTF-8
abbrev pub ellipsis : Text
ellipsis = 226 ∷ 128 ∷ 166 ∷ []

unfoldable pub truncate_runes : Text → ℕ → Text
unfolding take_runes
truncate_runes text limit =
    if leb (rune_count text) limit then text else take_runes limit text ++ ellipsis

unfoldable pub worth_keeping : Value → Bool
worth_keeping null = false
worth_keeping (bool b) = b
worth_keeping (num n) = true
worth_keeping (str s) = not (is_empty s)
worth_keeping (arr no_items) = false
worth_keeping (arr (item v vs)) = true
worth_keeping (obj no_members) = false
worth_keeping (obj (member k v ms)) = true

unfoldable pub keep_member : Text → Value → Members → Members
unfolding worth_keeping
keep_member k v ms = if worth_keeping v then member k v ms else ms

unfoldable mutual
  unfolding keep_member

  pub prune : Value → Value
  prune (arr vs) = arr (prune_items vs)
  prune (obj ms) = obj (prune_members ms)
  prune v = v

  pub prune_items : Items → Items
  prune_items no_items = no_items
  prune_items (item v vs) = item (prune v) (prune_items vs)

  pub prune_members : Members → Members
  prune_members no_members = no_members
  prune_members (member k v ms) = keep_member k (prune v) (prune_members ms)

unfoldable pub strs : List Text → Value
strs s = arr (items_of (map str s))
