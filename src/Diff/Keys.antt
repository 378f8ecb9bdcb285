-- ===== src/Diff/Keys.antt =====
-- backend/internal/diff/keys.go: the keys that items of two models are matched by.
pub mod Laws
pub mod Pairs
pub mod Unique
use urara_vision.Base.{
  ℕ, suc, Bool, true, false, Option, none, some, List, [], ◌∷◌, ◌++◌, map, not, ◌&&◌, nat_eq, keep,
  if◌then◌else◌,
}
use urara_vision.Base.Text.{Text, codes, join, elem}
use urara_vision.Base.Maps.{Map, get_or, put, keys}
use urara_vision.Base.Print.{itoa}
use urara_vision.Model.{Domain, Table, Column, ColumnLineage, Relationship}

unfoldable pub join_key : List Text → Text
join_key parts = join (codes "|") parts

abbrev pub domain_key : Domain → Text
domain_key d = d.id

abbrev pub table_key : Table → Text
table_key t = t.id

abbrev pub column_key : Column → Text
column_key c = c.name

unfoldable pub relationship_key : Relationship → Text
relationship_key r = join_key (r.from_table_id ∷ r.target_ref ∷ r.from_column ∷ r.to_column ∷ [])

unfoldable pub lineage_key : Text → ColumnLineage → Text
lineage_key table_id l = join_key (table_id ∷ l.column ∷ l.source_table ∷ l.source_column ∷ [])

unfoldable pub occurrence : Text → ℕ → Text
occurrence base n = if nat_eq n 1 then base else base ++ b'#' ∷ itoa n

module _ {T : Type 0} (key : T → Text) where
  -- The loop, from the counts seen and the map built so far.
  unfoldable pub index_from : List T → Map ℕ → Map T → Map T
  index_from [] seen out = out
  index_from (it ∷ its) seen out =
      let k = key it in
      let n = suc (get_or k seen 0) in index_from its (put k n seen) (put (occurrence k n) it out)

  unfoldable pub index : List T → Map T
  index items = index_from items [] []

  unfoldable pub group_from : List T → Map (List T) → Map (List T)
  group_from [] out = out
  group_from (it ∷ its) out = group_from its (put (key it) (get_or (key it) out [] ++ it ∷ []) out)

  unfoldable pub group : List T → Map (List T)
  group items = group_from items []

-- An entry of the new side with its flag in `used`. Where the source keeps in match[i] the index of
-- an entry, or -1, the model keeps the entry itself, or nothing.
pub record Slot (T : Type 0) : Type 0 where
  pub item : T
  pub used : Bool

abbrev pub taken : {T : Type 0} → T → Slot T
taken t = record { item = t; used = true }

abbrev pub fresh : {T : Type 0} → T → Slot T
fresh t = record { item = t; used = false }

-- A map for each side.
abbrev pub Sides : Type 0 → Type 0
Sides T = Map T × Map T

module _ {T : Type 0} where
  -- The first unused entry that satisfies the test, and the entries with that one used.
  unfoldable pub claim : (T → Bool) → List (Slot T) → Option T × List (Slot T)
  claim p [] = (none, [])
  claim p (s ∷ ss) =
      let (found, rest) = claim p ss in
      if not s.used && p s.item then (some s.item, taken s.item ∷ ss) else (found, s ∷ rest)

  -- The first loop over fs: what is the same pairs first.
  unfoldable pub match_same :
      (T → T → Bool) → List T → List (Slot T) → List (Option T) × List (Slot T)
  match_same same [] slots = ([], slots)
  match_same same (f ∷ fs) slots =
      let (m, slots') = claim (same f) slots in
      let (ms, slots'') = match_same same fs slots' in (m ∷ ms, slots'')

  -- The second loop: the rest pairs by position. The index j of the source never has to go back, as
  -- every entry before it is used.
  unfoldable pub match_rest : List (Option T) → List (Slot T) → List (Option T) × List (Slot T)
  match_rest [] slots = ([], slots)
  match_rest (some t ∷ ms) slots = let (ms', slots') = match_rest ms slots in (some t ∷ ms', slots')
  match_rest (none ∷ ms) slots =
      let (m, slots') = claim (λ t. true) slots in
      let (ms', slots'') = match_rest ms slots' in (m ∷ ms', slots'')

  -- The three loops that number the pairs and then what is left on either side.
  unfoldable pub number_pairs : Text → ℕ → List T → List (Option T) → Sides T → ℕ × Sides T
  number_pairs base n (f ∷ fs) (some t ∷ ms) (out_from, out_to) =
      let k = occurrence base (suc n) in
      number_pairs base (suc n) fs ms (put k f out_from, put k t out_to)
  number_pairs base n (f ∷ fs) (none ∷ ms) out = number_pairs base n fs ms out
  number_pairs base n _ _ out = (n, out)

  unfoldable pub number_from : Text → ℕ → List T → List (Option T) → Map T → ℕ × Map T
  number_from base n (f ∷ fs) (none ∷ ms) out =
      number_from base (suc n) fs ms (put (occurrence base (suc n)) f out)
  number_from base n (f ∷ fs) (some t ∷ ms) out = number_from base n fs ms out
  number_from base n _ _ out = (n, out)

  unfoldable pub number_to : Text → ℕ → List (Slot T) → Map T → Map T
  number_to base n [] out = out
  number_to base n (s ∷ ss) out =
      let n' = suc n in
      if s.used
      then number_to base n ss out
      else number_to base n' ss (put (occurrence base n') s.item out)

  -- One round of the loop over the bases.
  unfoldable pub pair_base : (T → T → Bool) → Text → List T → List T → Sides T → Sides T
  pair_base same base fs ts out =
      let (found, slots) = match_same same fs (map fresh ts) in
      let (matched, left) = match_rest found slots in
      let (n, (out_from, out_to)) = number_pairs base 0 fs matched out in
      let (n', out_from') = number_from base n fs matched out_from in
      (out_from', number_to base n' left out_to)

  unfoldable pub pair_bases :
      (T → T → Bool) → List Text → Map (List T) → Map (List T) → Sides T → Sides T
  pair_bases same [] from to out = out
  pair_bases same (base ∷ bases) from to out =
      pair_bases same bases from to
        (pair_base same base (get_or base from []) (get_or base to []) out)

-- The bases are visited in the order of a Go map, which is any order; the model takes that of the
-- two groups.
unfoldable pub pair_index : {T : Type 0} → (T → Text) → (T → T → Bool) → List T → List T → Sides T
pair_index key same from to =
    let from_groups = group key from in
    let to_groups = group key to in
    let bases = keys from_groups ++ keep (λ b. not (elem b (keys from_groups))) (keys to_groups) in
    pair_bases same bases from_groups to_groups ([], [])
