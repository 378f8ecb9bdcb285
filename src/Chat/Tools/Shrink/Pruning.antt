-- ===== src/Chat/Tools/Shrink/Pruning.antt =====
-- backend/internal/chat/tools/shrink.go: what Prune leaves, and how long a cut text is.
use urara_vision.Base.{
  ℕ, zero, suc, ◌+◌, ◌≤◌, ◌≡◌, ◌≢◌, refl, sym, ◌∙◌, ap, false, inl, inr, true, [], ◌∷◌, arith, leb,
  count, count-append, Bool-cases,
}
use urara_vision.Base.Text.{Text, starts_rune, rune_count}
use urara_vision.Base.Json.{
  Value, null, bool, num, str, arr, obj, Items, no_items, item, Members, no_members, member,
}
use urara_vision.Chat.Tools.Shrink.{
  worth_keeping, keep_member, prune, prune_items, prune_members, take_runes, truncate_runes,
  ellipsis,
}

-- Neither null, nor false, nor an empty text, array or object.
abbrev pub SaysSomething : Value → Type 0
SaysSomething v =
    (v ≢ null) × (v ≢ bool false) × (v ≢ str []) × (v ≢ arr no_items) × (v ≢ obj no_members)

not_kept : (v w : Value) → worth_keeping v ≡ true → worth_keeping w ≡ false → v ≢ w
not_kept v w h k e = cc (sym h ∙ ap worth_keeping e ∙ k)

kept-SaysSomething : (v : Value) → worth_keeping v ≡ true → SaysSomething v
unfolding worth_keeping
kept-SaysSomething v h = (
  not_kept v null h refl,
  not_kept v (bool false) h refl,
  not_kept v (str []) h refl,
  not_kept v (arr no_items) h refl,
  not_kept v (obj no_members) h refl,
)

SaysSomething-kept : (v : Value) → SaysSomething v → worth_keeping v ≡ true
unfolding worth_keeping
SaysSomething-kept null (n, f, s, a, o) = absurd (n refl)
SaysSomething-kept (bool true) h = refl
SaysSomething-kept (bool false) (n, f, s, a, o) = absurd (f refl)
SaysSomething-kept (num n) h = refl
SaysSomething-kept (str []) (n, f, s, a, o) = absurd (s refl)
SaysSomething-kept (str (c ∷ s)) h = refl
SaysSomething-kept (arr no_items) (n, f, s, a, o) = absurd (a refl)
SaysSomething-kept (arr (item v vs)) h = refl
SaysSomething-kept (obj no_members) (n, f, s, a, o) = absurd (o refl)
SaysSomething-kept (obj (member k v ms)) h = refl

-- A value in which every member of an object says something.
mutual
  pub Pruned : Value → Type 0
  Pruned (arr vs) = PrunedItems vs
  Pruned (obj ms) = PrunedMembers ms
  Pruned v = Unit

  pub PrunedItems : Items → Type 0
  PrunedItems no_items = Unit
  PrunedItems (item v vs) = Pruned v × PrunedItems vs

  pub PrunedMembers : Members → Type 0
  PrunedMembers no_members = Unit
  PrunedMembers (member k v ms) = SaysSomething v × (Pruned v × PrunedMembers ms)

keep_member-Pruned :
    (k : Text) (v : Value) (ms : Members)
    → Pruned v
    → PrunedMembers ms
    → PrunedMembers (keep_member k v ms)
unfolding PrunedMembers keep_member
keep_member-Pruned k v ms h l = elim (Bool-cases (worth_keeping v)) [
  | inl e ↦ rw e (kept-SaysSomething v e, (h, l))
  | inr e ↦ rw e l
]

mutual
  unfolding Pruned PrunedItems PrunedMembers prune prune_items prune_members

  -- Whatever a value is, nothing in what Prune makes of it says nothing: no object at any depth has a
  -- member that is null, false, or empty.
  pub prune-Pruned : (v : Value) → Pruned (prune v)
  prune-Pruned null = tt
  prune-Pruned (bool b) = tt
  prune-Pruned (num n) = tt
  prune-Pruned (str s) = tt
  prune-Pruned (arr vs) = prune_items-Pruned vs
  prune-Pruned (obj ms) = prune_members-Pruned ms

  prune_items-Pruned : (vs : Items) → PrunedItems (prune_items vs)
  prune_items-Pruned no_items = tt
  prune_items-Pruned (item v vs) = (prune-Pruned v, prune_items-Pruned vs)

  prune_members-Pruned : (ms : Members) → PrunedMembers (prune_members ms)
  prune_members-Pruned no_members = tt
  prune_members-Pruned (member k v ms) =
      keep_member-Pruned k (prune v) (prune_members ms) (prune-Pruned v) (prune_members-Pruned ms)

keep_member_kept :
    (k : Text) (v : Value) (ms : Members)
    → worth_keeping v ≡ true
    → keep_member k v ms ≡ member k v ms
unfolding keep_member
keep_member_kept k v ms h = rw h refl

mutual
  unfolding Pruned PrunedItems PrunedMembers prune prune_items prune_members

  prune_same : (v : Value) → Pruned v → prune v ≡ v
  prune_same null h = refl
  prune_same (bool b) h = refl
  prune_same (num n) h = refl
  prune_same (str s) h = refl
  prune_same (arr vs) h = ap arr (prune_items_same vs h)
  prune_same (obj ms) h = ap obj (prune_members_same ms h)

  prune_items_same : (vs : Items) → PrunedItems vs → prune_items vs ≡ vs
  prune_items_same no_items h = refl
  prune_items_same (item v vs) h = rw (prune_same v h.0, prune_items_same vs h.1) refl

  prune_members_same : (ms : Members) → PrunedMembers ms → prune_members ms ≡ ms
  prune_members_same no_members h = refl
  prune_members_same (member k v ms) h =
      rw (prune_same v h.1.0, prune_members_same ms h.1.1)
        (keep_member_kept k v ms (SaysSomething-kept v h.0))

-- In what Prune makes of a value, no object at any depth has a member that is null, false, an
-- empty text, an empty array or an empty object; and a value of which that holds, so also the result,
-- Prune leaves as it is.
pub prune_lem :
    (v : Value) → Pruned (prune v) × (Pruned v → prune v ≡ v) × (prune (prune v) ≡ prune v)
prune_lem v = (prune-Pruned v, prune_same v, prune_same (prune v) (prune-Pruned v))

rune_count-take_runes : (n : ℕ) (s : Text) → rune_count (take_runes n s) ≤ n
unfolding rune_count count take_runes
rune_count-take_runes n [] = omega arith
rune_count-take_runes zero (c ∷ s) = ground (arith, rune_count-take_runes zero s)
rune_count-take_runes (suc n) (c ∷ s) =
    ground (arith, rune_count-take_runes n s, rune_count-take_runes (suc n) s)

-- A cut text is the text itself if that is within the limit, and is otherwise its first runes, at most
-- one rune, the mark of the cut, longer than the limit.
pub truncate_runes_lem :
    (s : Text) (n : ℕ)
    → (rune_count s ≤ n → truncate_runes s n ≡ s) × (rune_count (truncate_runes s n) ≤ n + 1)
unfolding truncate_runes rune_count count
truncate_runes_lem s n = elim (Bool-cases (leb (rune_count s) n)) [
  | inl e ↦ rw e (λ h. refl, ground arith)
  | inr e ↦ rw e (
    λ h. absurd (ground arith),
    omega (arith, count-append starts_rune (take_runes n s) ellipsis, rune_count-take_runes n s),
  )
]
