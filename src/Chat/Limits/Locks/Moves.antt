-- ===== src/Chat/Limits/Locks/Moves.antt =====
-- backend/internal/chat/httpapi/limits.go: a turn that drops its lock, and so every step, keeps the locks sound.
use mathlib.Core.Path.{subst}
use urara_vision.Base.{
  some-injective, ℕ, ◌+◌, ◌≡◌, refl, sym, ap, inl, inr, Bool, true, false, none, some, List, ◌∷◌,
  ◌++◌, arith, nat_eq, if◌then◌else◌, count, In, nat_eq_iff,
}
use urara_vision.Base.Text.{Text, ==_iff, ==_refl}
use urara_vision.Base.Maps.{get, get-remove}
use urara_vision.Chat.Limits.{
  LockState, wants, has, leaves, done, LockTurn, lock_turn, ConversationLocks, write, set_full,
  drop_at, LockMove, takes, gives_up, unlocks, drops, lock_move, LockStep, arrive, proceed,
}
use urara_vision.Chat.Limits.Locks.{
  is_at, owns, one, LockSteps, start, onward, IsSound, count_mid, In-mid, In-here, In-count,
}
use urara_vision.Chat.Limits.Locks.Keeps.{
  new-IsSound, named_at, enter-IsSound, stay_IsSound, false-true,
}

-- The lock that a turn leaves is in the map.
leaving :
    (c : ConversationLocks) (id : Text) (a : ℕ) (before after : List LockTurn)
    → IsSound c
    → c.turns ≡ before ++ lock_turn id (leaves a) ∷ after
    → get id c.locks ≡ some a
leaving c id a before after h q =
    h.named (lock_turn id (leaves a)) a
      (subst (λ l. In (lock_turn id (leaves a)) l) (sym q)
        (In-here (lock_turn id (leaves a)) before after))
      ((nat_eq_iff a a).1 refl)

-- A turn drops a lock that others still use, or that no other does.
module _ (c : ConversationLocks) (id : Text) (a : ℕ) (before after : List LockTurn) (h : IsSound c)
    (q : c.turns ≡ before ++ lock_turn id (leaves a) ∷ after) where
  rest : List LockTurn
  rest = before ++ lock_turn id done ∷ after

  counts_at : (b : ℕ) → count (is_at b) c.turns ≡ count (is_at b) rest + one (nat_eq b a)
  unfolding rest
  counts_at b = omega (
    arith,
    ap (count (is_at b)) q,
    count_mid (is_at b) before after (lock_turn id (leaves a)),
    count_mid (is_at b) before after (lock_turn id done),
  )

  counts_own : (b : ℕ) → count (owns b) c.turns ≡ count (owns b) rest
  unfolding rest
  counts_own b = omega (
    arith,
    ap (count (owns b)) q,
    count_mid (owns b) before after (lock_turn id (leaves a)),
    count_mid (owns b) before after (lock_turn id done),
  )

  still_named : (t : LockTurn) (b : ℕ) → In t rest → is_at b t ≡ true → get t.id c.locks ≡ some b
  unfolding rest
  still_named t b m e =
      elim (In-mid t (lock_turn id (leaves a)) (lock_turn id done) before after m) [
        | inl p ↦ named_at c.locks id done t b (λ f. absurd (false-true f)) p e
        | inr k ↦ h.named t b (subst (λ l. In t l) (sym q) k) e
      ]

  drop-IsSound : IsSound (record (drop_at id a c) { turns = rest })
  unfolding drop_at write
  drop-IsSound =
      let g = leaving c id a before after h q in
      record {
        engaged = λ b. ground (
          arith,
          h.engaged a,
          h.engaged b,
          counts_at a,
          counts_at b,
          nat_eq_iff a b,
          nat_eq_iff b a,
        );
        channel = λ b. ground (arith, h.channel a, h.channel b, counts_own b, nat_eq_iff a b);
        fresh = λ b e. ground (arith, h.fresh b, counts_at b);
        named = λ t b m e. ground (
          arith,
          h.engaged a,
          counts_at a,
          still_named t b m e,
          In-count (is_at b) t rest m e,
          get-remove id t.id c.locks,
          ==_iff id t.id,
          nat_eq_iff a b,
          nat_eq_iff a a,
        );
        kept = λ i b e. ground (
          arith,
          h.kept i b,
          h.single id i a g,
          get-remove id i c.locks,
          ==_iff id i,
          ==_refl id,
          nat_eq_iff a b,
        );
        single = λ i j b e k.
            ground (arith, h.single i j b, get-remove id i c.locks, get-remove id j c.locks);
      }

-- Where a step leads.
abbrev Led : Text → List LockTurn → List LockTurn → ConversationLocks × LockState → Type 0
Led id before after (d, t) = IsSound (record d { turns = before ++ lock_turn id t ∷ after })

none-some : {x : ConversationLocks × LockState} → none ≡ some x → ⊥
none-some h = cc

if_free :
    {x y : ConversationLocks × LockState} (b : Bool)
    → (if b then none else some y) ≡ some x
    → (b ≡ false) × (y ≡ x)
if_free true e = absurd (none-some e)
if_free false e = (refl, some-injective e)

if_full :
    {x y : ConversationLocks × LockState} (b : Bool)
    → (if b then some y else none) ≡ some x
    → (b ≡ true) × (y ≡ x)
if_full true e = (refl, some-injective e)
if_full false e = absurd (none-some e)

move-IsSound :
    (c : ConversationLocks) (id : Text) (m : LockMove) (s : LockState)
    (before after : List LockTurn) (x : ConversationLocks × LockState)
    → IsSound c
    → c.turns ≡ before ++ lock_turn id s ∷ after
    → lock_move id m s c ≡ some x
    → Led id before after x
unfolding lock_move write rest
move-IsSound c id takes (wants a) before after x h q e =
    let (f, y) = if_free (c.store a).full e in
    subst (Led id before after) y (
      stay_IsSound c (write a (set_full true (c.store a)) c.store) id (wants a) (has a) before after
        h q (λ b. ground (arith, nat_eq_iff a b)) (λ b. ground (arith, nat_eq_iff a b)) (λ b. refl))
move-IsSound c id gives_up (wants a) before after x h q e =
    subst (Led id before after) (some-injective e) (
      stay_IsSound c c.store id (wants a) (leaves a) before after h q (λ b. refl) (λ b. refl)
        (λ b. refl))
move-IsSound c id unlocks (has a) before after x h q e =
    let (f, y) = if_full (c.store a).full e in
    subst (Led id before after) y (
      stay_IsSound c (write a (set_full false (c.store a)) c.store) id (has a) (leaves a) before
        after h q (λ b. ground (arith, nat_eq_iff a b)) (λ b. ground (arith, nat_eq_iff a b))
        (λ b. refl))
move-IsSound c id drops (leaves a) before after x h q e =
    subst (Led id before after) (some-injective e) (drop-IsSound c id a before after h q)
move-IsSound c id m s before after x h q e = absurd (none-some e)

step-IsSound : {c d : ConversationLocks} → LockStep c d → IsSound c → IsSound d
step-IsSound (arrive {c} id) h = enter-IsSound id c h
step-IsSound (proceed {c} {d} {t} id s before after m q e) h =
    move-IsSound c id m s before after (d, t) h q e

pub LockSteps-IsSound : (c : ConversationLocks) → LockSteps c → IsSound c
LockSteps-IsSound c start = new-IsSound
LockSteps-IsSound d (onward {c} r s) = step-IsSound s (LockSteps-IsSound c r)
