-- ===== src/Chat/Citations/Sources.antt =====
-- backend/internal/chat/agent/citations.go: where what is cited comes from, and where it is mentioned.
use urara_vision.Base.{
  ℕ, suc, ◌≡◌, ◌⊎◌, refl, inl, inr, Bool, true, false, not, List, [], ◌∷◌, ◌&&◌, ltb, map, In, All,
  All-append, if◌then◌else◌, Bool-cases,
}
use urara_vision.Base.Text.{Text, codes, ◌==◌, ==_iff, elem, elem→In, to_lower, trim_space}
use urara_vision.Base.Json.{
  Value, null, bool, num, str, arr, obj, Items, no_items, item, Members, no_members, member,
}
use urara_vision.Chat.Citations.{
  max_depth, id_keys, is_table_id, add_id, add_value, add_items, add_list, add_member, walk_value,
  walk_items, walk_members, walk_all, collect,
}

-- A text value that reads so without the blanks around it.
abbrev pub ReadsAs : Value → Text → Type 0
ReadsAs v c = (s : Text) × (v ≡ str s) × (trim_space s ≡ c)

-- One of some values reads so.
abbrev pub OneReadsAs : Items → Text → Type 0
OneReadsAs no_items c = ⊥
OneReadsAs (item v vs) c = ReadsAs v c ⊎ OneReadsAs vs c

-- A member names a text: by one of the keys of an identifier, or in the list of tables.
abbrev pub Names : Text → Value → Text → Type 0
Names k v c =
    (In k (
        codes "id"
        ∷ codes "tableId"
        ∷ codes "from"
        ∷ codes "to"
        ∷ codes "source"
        ∷ codes "target"
        ∷ [])
      × ReadsAs v c)
    ⊎ ((k ≡ codes "tables") × ((vs : Items) × (v ≡ arr vs) × OneReadsAs vs c))

-- A member of an object somewhere in a value names a text.
mutual
  pub Shows : Value → Text → Type 0
  Shows (arr vs) c = ShowsItem vs c
  Shows (obj ms) c = ShowsMember ms c
  Shows v c = ⊥

  pub ShowsItem : Items → Text → Type 0
  ShowsItem no_items c = ⊥
  ShowsItem (item v vs) c = Shows v c ⊎ ShowsItem vs c

  pub ShowsMember : Members → Text → Type 0
  ShowsMember no_members c = ⊥
  ShowsMember (member k v ms) c = Names k v c ⊎ (Shows v c ⊎ ShowsMember ms c)

module _ (P : Text → Type 0) where
  add_id-All : (s : Text) (ids : List Text) → P (trim_space s) → All P ids → All P (add_id s ids)
  unfolding add_id
  add_id-All s ids p h =
      elim (Bool-cases
        (is_table_id (trim_space s) && not (elem (to_lower (trim_space s)) (map to_lower ids)))) [
          | inl e ↦ rw e (All-append P ids (trim_space s ∷ []) h (p, tt))
          | inr e ↦ rw e h
        ]

  add_value-All :
      (v : Value) (ids : List Text)
      → ((c : Text) → ReadsAs v c → P c)
      → All P ids
      → All P (add_value v ids)
  unfolding add_value
  add_value-All (str s) ids p h = add_id-All s ids (p (trim_space s) (s, refl, refl)) h
  add_value-All null ids p h = h
  add_value-All (bool b) ids p h = h
  add_value-All (num n) ids p h = h
  add_value-All (arr vs) ids p h = h
  add_value-All (obj ms) ids p h = h

  add_items-All :
      (vs : Items) (ids : List Text)
      → ((c : Text) → OneReadsAs vs c → P c)
      → All P ids
      → All P (add_items vs ids)
  unfolding add_items
  add_items-All no_items ids p h = h
  add_items-All (item v vs) ids p h =
      add_items-All vs (add_value v ids) (λ c r. p c (inr r))
        (add_value-All v ids (λ c r. p c (inl r)) h)

  add_list-All :
      (v : Value) (ids : List Text)
      → ((c : Text) → (vs : Items) → v ≡ arr vs → OneReadsAs vs c → P c)
      → All P ids
      → All P (add_list v ids)
  unfolding add_list
  add_list-All (arr vs) ids p h = add_items-All vs ids (λ c r. p c vs refl r) h
  add_list-All null ids p h = h
  add_list-All (bool b) ids p h = h
  add_list-All (num n) ids p h = h
  add_list-All (str s) ids p h = h
  add_list-All (obj ms) ids p h = h

  add_member-All :
      (k : Text) (v : Value) (ids : List Text)
      → ((c : Text) → Names k v c → P c)
      → All P ids
      → All P (add_member k v ids)
  unfolding add_member
  add_member-All k v ids p h = elim (Bool-cases (elem k id_keys)) [
    | inl e ↦ rw e (add_value-All v ids (λ c r. p c (inl (elem→In k id_keys e, r))) h)
    | inr e ↦ elim (Bool-cases (k == codes "tables")) [
      | inl f ↦
          rw (e, f)
            (add_list-All v ids
              (λ c vs q r. p c (inr ((==_iff k (codes "tables")).0 f, (vs, q, r)))) h)
      | inr f ↦ rw (e, f) h
    ]
  ]

  either_All : (b : Bool) (xs ys : List Text) → All P xs → All P ys → All P (if b then xs else ys)
  either_All true xs ys h k = h
  either_All false xs ys h k = k

  mutual
    unfolding Shows ShowsItem ShowsMember walk_value walk_items walk_members

    walk_value-All :
        (depth : ℕ) (v : Value) (ids : List Text)
        → ((c : Text) → Shows v c → P c)
        → All P ids
        → All P (walk_value depth v ids)
    walk_value-All depth (arr vs) ids p h =
        either_All (ltb max_depth depth) ids (walk_items (suc depth) vs ids) h
          (walk_items-All (suc depth) vs ids p h)
    walk_value-All depth (obj ms) ids p h =
        either_All (ltb max_depth depth) ids (walk_members (suc depth) ms ids) h
          (walk_members-All (suc depth) ms ids p h)
    walk_value-All depth null ids p h = h
    walk_value-All depth (bool b) ids p h = h
    walk_value-All depth (num n) ids p h = h
    walk_value-All depth (str s) ids p h = h

    walk_items-All :
        (depth : ℕ) (vs : Items) (ids : List Text)
        → ((c : Text) → ShowsItem vs c → P c)
        → All P ids
        → All P (walk_items depth vs ids)
    walk_items-All depth no_items ids p h = h
    walk_items-All depth (item v vs) ids p h =
        walk_items-All depth vs (walk_value depth v ids) (λ c r. p c (inr r))
          (walk_value-All depth v ids (λ c r. p c (inl r)) h)

    walk_members-All :
        (depth : ℕ) (ms : Members) (ids : List Text)
        → ((c : Text) → ShowsMember ms c → P c)
        → All P ids
        → All P (walk_members depth ms ids)
    walk_members-All depth no_members ids p h = h
    walk_members-All depth (member k v ms) ids p h =
        walk_members-All depth ms (walk_value depth v (add_member k v ids))
          (λ c r. p c (inr (inr r)))
          (walk_value-All depth v (add_member k v ids) (λ c r. p c (inr (inl r)))
            (add_member-All k v ids (λ c r. p c (inl r)) h))

  walk_all-All :
      (vs : List Value) (ids : List Text)
      → ((v : Value) (c : Text) → In v vs → Shows v c → P c)
      → All P ids
      → All P (walk_all vs ids)
  unfolding walk_all
  walk_all-All [] ids p h = h
  walk_all-All (v ∷ vs) ids p h =
      walk_all-All vs (walk_value 0 v ids) (λ w c m r. p w c (inr m) r)
        (walk_value-All 0 v ids (λ c r. p v c (inl refl) r) h)

-- A result names a text.
abbrev pub Retrieved : List Value → Text → Type 0
Retrieved results c = (v : Value) × In v results × Shows v c

pub collect-Retrieved : (results : List Value) → All (Retrieved results) (collect results)
unfolding collect
collect-Retrieved results = walk_all-All (Retrieved results) results [] (λ v c m r. (v, m, r)) tt
