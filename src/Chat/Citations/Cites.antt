-- ===== src/Chat/Citations/Cites.antt =====
-- backend/internal/chat/agent/citations.go: what is cited.
use urara_vision.Base.{
  ℕ, zero, suc, ◌≤◌, ◌≡◌, refl, inl, inr, Bool, true, false, not, some, List, [], ◌∷◌, ◌&&◌, arith,
  length, ltb, take, map, count, count-append, All, All-append, is_empty, if◌then◌else◌, Bool-cases,
  Option-cases,
}
use urara_vision.Base.Text.{Text, codes, ◌==◌, ==_iff, ==_refl, elem, trim_space, to_lower}
use urara_vision.Base.Sort.{sort_by, All-sort_by, count-sort_by}
use urara_vision.Base.Json.{
  Value, null, bool, num, str, arr, obj, Items, no_items, item, Members, no_members, member,
}
use urara_vision.Chat.Citations.{
  max_citations, max_depth, id_keys, is_table_id, add_id, add_value, add_items, add_list,
  add_member, walk_value, walk_items, walk_members, walk_all, collect, first_mention, unpin,
  Mention, add_mention, mentions_from, mention_less, mention_id, cite, extract_citations,
}

-- Whether a text is a given one in lower case.
abbrev pub same_as : Text → Text → Bool
same_as k c = to_lower c == k

-- Identifiers, none of which comes twice in whatever case.
abbrev pub IsClean : List Text → Type 0
IsClean ids =
    All (λ (c : Text). is_table_id c ≡ true) ids × ((k : Text) → count (same_as k) ids ≤ 1)

count_unseen :
    (k : Text) (ids : List Text) → elem k (map to_lower ids) ≡ false → count (same_as k) ids ≡ 0
unfolding elem count
count_unseen k [] h = refl
count_unseen k (c ∷ ids) h = ground (arith, count_unseen k ids)

add_id-IsClean : (v : Text) (ids : List Text) → IsClean ids → IsClean (add_id v ids)
unfolding add_id count
add_id-IsClean v ids h =
    let w = trim_space v in
    elim (Bool-cases (is_table_id w && not (elem (to_lower w) (map to_lower ids)))) [
      | inr e ↦ rw e h
      | inl e ↦ rw e (
        All-append (λ (c : Text). is_table_id c ≡ true) ids (w ∷ []) h.0 (ground arith, tt),
        λ k. ground (
          arith,
          h.1 k,
          count-append (same_as k) ids (w ∷ []),
          count_unseen (to_lower w) ids,
          ==_iff (to_lower w) k,
        ),
      )
    ]

if-IsClean :
    (b : Bool) (xs ys : List Text) → IsClean xs → IsClean ys → IsClean (if b then xs else ys)
if-IsClean true xs ys h k = h
if-IsClean false xs ys h k = k

add_value-IsClean : (v : Value) (ids : List Text) → IsClean ids → IsClean (add_value v ids)
unfolding add_value
add_value-IsClean (str s) ids h = add_id-IsClean s ids h
add_value-IsClean v ids h = h

add_items-IsClean : (vs : Items) (ids : List Text) → IsClean ids → IsClean (add_items vs ids)
unfolding add_items
add_items-IsClean no_items ids h = h
add_items-IsClean (item v vs) ids h =
    add_items-IsClean vs (add_value v ids) (add_value-IsClean v ids h)

add_list-IsClean : (v : Value) (ids : List Text) → IsClean ids → IsClean (add_list v ids)
unfolding add_list
add_list-IsClean (arr vs) ids h = add_items-IsClean vs ids h
add_list-IsClean v ids h = h

add_member-IsClean :
    (k : Text) (v : Value) (ids : List Text) → IsClean ids → IsClean (add_member k v ids)
unfolding add_member
add_member-IsClean k v ids h =
    if-IsClean (elem k id_keys) (add_value v ids) _ (add_value-IsClean v ids h)
      (if-IsClean (k == codes "tables") (add_list v ids) ids (add_list-IsClean v ids h) h)

mutual
  unfolding walk_value walk_items walk_members

  walk_value-IsClean :
      (depth : ℕ) (v : Value) (ids : List Text) → IsClean ids → IsClean (walk_value depth v ids)
  walk_value-IsClean depth (arr vs) ids h =
      if-IsClean (ltb max_depth depth) ids (walk_items (suc depth) vs ids) h
        (walk_items-IsClean (suc depth) vs ids h)
  walk_value-IsClean depth (obj ms) ids h =
      if-IsClean (ltb max_depth depth) ids (walk_members (suc depth) ms ids) h
        (walk_members-IsClean (suc depth) ms ids h)
  walk_value-IsClean depth null ids h = h
  walk_value-IsClean depth (bool b) ids h = h
  walk_value-IsClean depth (num n) ids h = h
  walk_value-IsClean depth (str s) ids h = h

  walk_items-IsClean :
      (depth : ℕ) (vs : Items) (ids : List Text) → IsClean ids → IsClean (walk_items depth vs ids)
  walk_items-IsClean depth no_items ids h = h
  walk_items-IsClean depth (item v vs) ids h =
      walk_items-IsClean depth vs (walk_value depth v ids) (walk_value-IsClean depth v ids h)

  walk_members-IsClean :
      (depth : ℕ) (ms : Members) (ids : List Text)
      → IsClean ids
      → IsClean (walk_members depth ms ids)
  walk_members-IsClean depth no_members ids h = h
  walk_members-IsClean depth (member k v ms) ids h =
      walk_members-IsClean depth ms (walk_value depth v (add_member k v ids))
        (walk_value-IsClean depth v (add_member k v ids) (add_member-IsClean k v ids h))

walk_all-IsClean : (vs : List Value) (ids : List Text) → IsClean ids → IsClean (walk_all vs ids)
unfolding walk_all
walk_all-IsClean [] ids h = h
walk_all-IsClean (v ∷ vs) ids h =
    walk_all-IsClean vs (walk_value 0 v ids) (walk_value-IsClean 0 v ids h)

collect-IsClean : (results : List Value) → IsClean (collect results)
unfolding collect count
collect-IsClean results = walk_all-IsClean results [] (tt, λ k. omega arith)

-- A mention of a candidate at a place where it is first mentioned.
abbrev MentionOf : List Text → Text → Text → Mention → Type 0
MentionOf ids lowered unpinned m =
    (elem m.id ids ≡ true)
    × (is_table_id m.id ≡ true)
    × (first_mention m.id lowered unpinned ≡ some m.place)

abbrev mention_as : Text → Mention → Bool
mention_as k m = same_as k m.id

mentions_from-MentionOf :
    (ids : List Text) (n : ℕ) (lowered unpinned : Text) (cs : List Text)
    → ((c : Text) → elem c cs ≡ true → elem c ids ≡ true)
    → All (λ (c : Text). is_table_id c ≡ true) cs
    → All (MentionOf ids lowered unpinned) (mentions_from n lowered unpinned cs)
unfolding mentions_from add_mention elem
mentions_from-MentionOf ids n lowered unpinned [] h t = tt
mentions_from-MentionOf ids n lowered unpinned (c ∷ cs) h t =
    let rest =
      mentions_from-MentionOf ids (suc n) lowered unpinned cs (λ d e. h d (ground arith)) t.1 in
    elim (Option-cases (first_mention c lowered unpinned)) [
      | inl e ↦ rw (e, add_mention) rest
      | inr (p, e) ↦ rw (e, add_mention) ((h c (ground (arith, ==_refl c)), t.0, e), rest)
    ]

count-mentions_from :
    (k : Text) (n : ℕ) (lowered unpinned : Text) (cs : List Text)
    → count (mention_as k) (mentions_from n lowered unpinned cs) ≤ count (same_as k) cs
unfolding mentions_from add_mention count
count-mentions_from k n lowered unpinned [] = omega arith
count-mentions_from k n lowered unpinned (c ∷ cs) =
    let rest = count-mentions_from k (suc n) lowered unpinned cs in
    elim (Option-cases (first_mention c lowered unpinned)) [
      | inl e ↦ rw (e, add_mention) (ground arith)
      | inr (p, e) ↦ rw (e, add_mention) (ground arith)
    ]

count-take : (p : Mention → Bool) (n : ℕ) (ms : List Mention) → count p (take n ms) ≤ count p ms
unfolding count
count-take p zero ms = omega arith
count-take p (suc n) [] = omega arith
count-take p (suc n) (m ∷ ms) = omega (arith, count-take p n ms)

count_ids :
    (k : Text) (ms : List Mention) → count (same_as k) (map mention_id ms) ≡ count (mention_as k) ms
unfolding count
count_ids k [] = refl
count_ids k (m ∷ ms) = omega (arith, count_ids k ms)

-- A citation: an identifier that was retrieved and that the answer mentions.
abbrev pub Cited : List Text → Text → Text → Type 0
Cited ids lowered c =
    (elem c ids ≡ true)
    × (is_table_id c ≡ true)
    × ((p : ℕ) × (first_mention c lowered (unpin ids lowered) ≡ some p))

All-ids :
    (ids : List Text) (lowered : Text) (n : ℕ) (ms : List Mention)
    → All (MentionOf ids lowered (unpin ids lowered)) ms
    → All (Cited ids lowered) (map mention_id (take n ms))
      × (length (map mention_id (take n ms)) ≤ n)
All-ids ids lowered zero ms h = (tt, omega arith)
All-ids ids lowered (suc n) [] h = (tt, omega arith)
All-ids ids lowered (suc n) (m ∷ ms) h =
    let (rest, l) = All-ids ids lowered n ms h.1 in
    (((h.0.0, h.0.1, (m.place, h.0.2)), rest), omega (arith, l))

cite_lem :
    (ids : List Text) (lowered : Text)
    → IsClean ids
    → (length (cite ids lowered) ≤ max_citations)
      × ((k : Text) → count (same_as k) (cite ids lowered) ≤ 1)
      × All (Cited ids lowered) (cite ids lowered)
unfolding cite
cite_lem ids lowered h =
    let ms = mentions_from 0 lowered (unpin ids lowered) ids in
    let made = mentions_from-MentionOf ids 0 lowered (unpin ids lowered) ids (λ c e. e) h.0 in
    let sorted = All-sort_by mention_less (MentionOf ids lowered (unpin ids lowered)) ms made in
    let (cited, l) = All-ids ids lowered max_citations (sort_by mention_less ms) sorted in
    (
      l,
      λ k. omega (
        arith,
        count_ids k (take max_citations (sort_by mention_less ms)),
        count-take (mention_as k) max_citations (sort_by mention_less ms),
        count-sort_by mention_less (mention_as k) ms,
        count-mentions_from k 0 lowered (unpin ids lowered) ids,
        h.1 k,
      ),
      cited,
    )

-- What is cited is clean, bounded, and found by the search.
pub extract_citations_found :
    (results : List Value) (answer : Text)
    → let cited = extract_citations results answer in
      (length cited ≤ max_citations)
      × ((k : Text) → count (same_as k) cited ≤ 1)
      × All (Cited (collect results) (to_lower answer)) cited
unfolding extract_citations count
extract_citations_found results answer = elim (Bool-cases (is_empty answer)) [
  | inl e ↦ rw e (omega arith, λ k. omega arith, tt)
  | inr e ↦ rw e (cite_lem (collect results) (to_lower answer) (collect-IsClean results))
]
