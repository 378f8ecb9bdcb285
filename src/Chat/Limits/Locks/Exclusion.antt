-- ===== src/Chat/Limits/Locks/Exclusion.antt =====
-- backend/internal/chat/httpapi/limits.go: what ConversationLocks promises.
use mathlib.Core.Path.{subst}
use urara_vision.Base.{
  some-injective, ℕ, ◌≤◌, ◌<◌, ◌≡◌, refl, sym, ap, inl, inr, Bool, true, false, some, List, [], ◌∷◌,
  ◌++◌, arith, ◌&&◌, count, In, ◌⊎◌, ◌∙◌, Bool-cases, nat_eq_iff, ltb, ltb→lt, length, is_empty,
  ◌↔◌,
}
use urara_vision.Base.Text.{Text, ◌==◌, elem, ==_iff, ==_refl}
use urara_vision.Base.Maps.{Map, get, keys, get_of_elem, elem_of_get}
use urara_vision.Chat.Limits.{
  LockState, wants, has, leaves, done, LockTurn, lock_turn, ConversationLocks, write, set_full,
  takes, unlocks, lock_move, tracked,
}
use urara_vision.Chat.Limits.Locks.{
  state_at, state_owns, is_at, owns, LockSteps, IsSound, count_mid, In-here, In-count,
}
use urara_vision.Chat.Limits.Locks.Keeps.{false-true}
use urara_vision.Chat.Limits.Locks.Moves.{LockSteps-IsSound}

abbrev pub has_lock : LockState → Bool
has_lock (has a) = true
has_lock s = false

-- A turn that is between Lock and unlock of a conversation.
abbrev pub is_inside : Text → LockTurn → Bool
is_inside id t = t.id == id && has_lock t.state

abbrev pub in_use : LockState → Bool
in_use done = false
in_use s = true

-- A turn that has called Lock for a conversation and not finished.
abbrev pub is_busy : LockTurn → Bool
is_busy t = in_use t.state

count_mono :
    (p r : LockTurn → Bool) (ts : List LockTurn)
    → ((t : LockTurn) → In t ts → p t ≡ true → r t ≡ true)
    → count p ts ≤ count r ts
unfolding count
count_mono p r [] h = omega arith
count_mono p r (t ∷ ts) h =
    let rest = count_mono p r ts (λ u m. h u (inr m)) in ground (arith, h t (inl refl), rest)

-- Some item that a test accepts.
some_item :
    (p : LockTurn → Bool) (ts : List LockTurn)
    → 0 < count p ts
    → (t : LockTurn) × In t ts × (p t ≡ true)
unfolding count
some_item p [] h = absurd (omega (arith, h))
some_item p (t ∷ ts) h = elim (Bool-cases (p t)) [
  | inl e ↦ (t, inl refl, e)
  | inr e ↦ let (u, m, f) = some_item p ts (ground arith) in (u, inr m, f)
]

-- Which lock a turn uses.
lock_of :
    (s : LockState) → has_lock s ≡ true → (a : ℕ) × (state_owns a s ≡ true) × (state_at a s ≡ true)
lock_of (wants a) h = absurd (false-true h)
lock_of (has a) h = (a, (nat_eq_iff a a).1 refl, (nat_eq_iff a a).1 refl)
lock_of (leaves a) h = absurd (false-true h)
lock_of done h = absurd (false-true h)

busy_at : (s : LockState) → in_use s ≡ true → (a : ℕ) × (state_at a s ≡ true)
busy_at (wants a) h = (a, (nat_eq_iff a a).1 refl)
busy_at (has a) h = (a, (nat_eq_iff a a).1 refl)
busy_at (leaves a) h = (a, (nat_eq_iff a a).1 refl)
busy_at done h = absurd (false-true h)

at_busy : (s : LockState) (a : ℕ) → state_at a s ≡ true → in_use s ≡ true
at_busy (wants b) a h = refl
at_busy (has b) a h = refl
at_busy (leaves b) a h = refl
at_busy done a h = absurd (false-true h)

owner_state :
    (s : LockState) (a : ℕ) → state_owns a s ≡ true → (state_at a s ≡ true) × (has_lock s ≡ true)
owner_state (wants b) a h = absurd (false-true h)
owner_state (has b) a h = (h, refl)
owner_state (leaves b) a h = absurd (false-true h)
owner_state done a h = absurd (false-true h)

length_empty : (m : Map ℕ) → is_empty m ≡ true → length m ≡ 0
length_empty [] h = refl
length_empty (x ∷ m) h = absurd (false-true h)

some_key : (m : Map ℕ) → is_empty m ≡ false → (k : Text) × (elem k (keys m) ≡ true)
unfolding elem keys
some_key [] h = absurd (false-true (sym h))
some_key ((k, v) ∷ m) h = (k, ground (arith, ==_refl k))

module _ (c : ConversationLocks) (h : IsSound c) where
  -- The lock that a turn uses is in the map.
  at_named :
      (id : Text) (s : LockState) (a : ℕ) (before after : List LockTurn)
      → c.turns ≡ before ++ lock_turn id s ∷ after
      → state_at a s ≡ true
      → get id c.locks ≡ some a
  at_named id s a before after q e =
      h.named (lock_turn id s) a
        (subst (λ l. In (lock_turn id s) l) (sym q) (In-here (lock_turn id s) before after)) e

  -- Two turns of a conversation use one lock.
  same_lock :
      (t u : LockTurn) (a b : ℕ)
      → In t c.turns
      → In u c.turns
      → is_at a t ≡ true
      → is_at b u ≡ true
      → t.id ≡ u.id
      → b ≡ a
  same_lock t u a b m k x y e =
      some-injective (sym (h.named u b k y) ∙ ap (λ i. get i c.locks) (sym e) ∙ h.named t a m x)

  -- The turns inside a conversation have the lock of one of them.
  inside-owns :
      (id : Text) (t : LockTurn) (a : ℕ)
      → In t c.turns
      → is_at a t ≡ true
      → t.id ≡ id
      → count (is_inside id) c.turns ≤ count (owns a) c.turns
  inside-owns id t a m x e = count_mono (is_inside id) (owns a) c.turns (λ u k f.
      let (b, y, z) = lock_of u.state (ground arith) in
      let i : t.id ≡ u.id = e ∙ sym ((==_iff u.id id).0 (ground arith)) in
      subst (λ (n : ℕ). owns n u ≡ true) (same_lock t u a b m k x z i) y)

-- Two turns are never inside the same conversation together.
pub mutual_exclusion :
    (c : ConversationLocks) (id : Text) → LockSteps c → count (is_inside id) c.turns ≤ 1
mutual_exclusion c id r =
    let h = LockSteps-IsSound c r in
    elim (Bool-cases (ltb 0 (count (is_inside id) c.turns))) [
      | inr e ↦ ground arith
      | inl e ↦
          let (t, m, f) =
            some_item (is_inside id) c.turns (ltb→lt 0 (count (is_inside id) c.turns) e) in
          let (a, x, y) = lock_of t.state (ground arith) in
          let i : t.id ≡ id = (==_iff t.id id).0 (ground arith) in
          let n = inside-owns c h id t a m y i in ground (arith, h.channel a)
    ]

-- An unlock never waits for the channel.
pub unlock_proceeds :
    (c : ConversationLocks) (id : Text) (a : ℕ) (before after : List LockTurn)
    → LockSteps c
    → c.turns ≡ before ++ lock_turn id (has a) ∷ after
    → (d : ConversationLocks) × (lock_move id unlocks (has a) c ≡ some (d, leaves a))
unfolding lock_move
unlock_proceeds c id a before after r q =
    let h = LockSteps-IsSound c r in
    let full : (c.store a).full ≡ true = ground (
      arith,
      h.channel a,
      ap (count (owns a)) q,
      count_mid (owns a) before after (lock_turn id (has a)),
      nat_eq_iff a a,
    ) in
    (record c { store = write a (set_full false (c.store a)) c.store }, rw full refl)

-- A turn that waits can take its lock at once, unless another is inside the conversation.
pub waiter_proceeds :
    (c : ConversationLocks) (id : Text) (a : ℕ) (before after : List LockTurn)
    → LockSteps c
    → c.turns ≡ before ++ lock_turn id (wants a) ∷ after
    → ((d : ConversationLocks) × (lock_move id takes (wants a) c ≡ some (d, has a)))
      ⊎ ((t : LockTurn) × In t c.turns × (is_inside id t ≡ true))
unfolding lock_move
waiter_proceeds c id a before after r q =
    let h = LockSteps-IsSound c r in
    elim (Bool-cases (c.store a).full) [
      | inr e ↦ inl (record c { store = write a (set_full true (c.store a)) c.store }, rw e refl)
      | inl e ↦
          let (t, m, f) = some_item (owns a) c.turns (ground (arith, h.channel a)) in
          let (x, y) = owner_state t.state a f in
          let i =
            h.single t.id id a (h.named t a m x)
              (at_named c h id (wants a) a before after q ((nat_eq_iff a a).1 refl)) in
          inr (t, m, ground (arith, ==_iff t.id id))
    ]

-- The map has a lock for exactly the conversations of the turns that have not finished: no lock is
-- lost and none is left behind.
pub tracked-keys :
    (c : ConversationLocks) (id : Text)
    → LockSteps c
    → (elem id (keys c.locks) ≡ true)
      ↔ ((t : LockTurn) × In t c.turns × (t.id ≡ id) × (is_busy t ≡ true))
tracked-keys c id r = (
  used,
  λ (t, m, i, b).
      let (a, x) = busy_at t.state b in
      elem_of_get id c.locks a (ap (λ k. get k c.locks) (sym i) ∙ h.named t a m x),
)
  where
    h : IsSound c
    h = LockSteps-IsSound c r

    used :
        elem id (keys c.locks) ≡ true
        → (t : LockTurn) × In t c.turns × (t.id ≡ id) × (is_busy t ≡ true)
    used e =
        let (a, g) = get_of_elem id c.locks e in
        let (t, m, x) = some_item (is_at a) c.turns (ground (arith, h.engaged a, h.kept id a g)) in
        (t, m, h.single t.id id a (h.named t a m x) g, at_busy t.state a x)

-- When every turn has finished, no conversation is tracked.
pub tracked_none : (c : ConversationLocks) → LockSteps c → count is_busy c.turns ≡ 0 → tracked c ≡ 0
unfolding tracked
tracked_none c r e = elim (Bool-cases (is_empty c.locks)) [
  | inl n ↦ length_empty c.locks n
  | inr n ↦
      let (id, m) = some_key c.locks n in
      let (t, k, i, b) = (tracked-keys c id r).0 m in
      absurd (omega (arith, e, In-count is_busy t c.turns k b))
]
