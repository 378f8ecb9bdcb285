-- ===== src/Chat/Limits/Locks.antt =====
-- backend/internal/chat/httpapi/limits.go: what holds of ConversationLocks whatever the order of the
-- steps.
pub mod Keeps
pub mod Moves
pub mod Exclusion
use mathlib.Core.Path.{subst}
use urara_vision.Base.{
  ℕ, suc, ◌+◌, ◌≤◌, ◌<◌, ◌≡◌, refl, sym, ap, inl, inr, Bool, true, false, Option, none, some, List,
  [], ◌∷◌, ◌++◌, arith, nat_eq, if◌then◌else◌, count, count-append, In, In-append, In-append_left,
  In-append_right, ◌⊎◌, ◌∙◌, Bool-cases,
}
use urara_vision.Base.Text.{Text, ◌==◌}
use urara_vision.Base.Maps.{Map, get}
use urara_vision.Chat.Limits.{
  ConvLock, LockState, wants, has, leaves, done, LockTurn, lock_turn, ConversationLocks,
  new_conversation_locks, LockStep,
}

-- A turn that counts as a holder of a lock, and one that has its channel.
abbrev pub state_at : ℕ → LockState → Bool
state_at a (wants b) = nat_eq a b
state_at a (has b) = nat_eq a b
state_at a (leaves b) = nat_eq a b
state_at a done = false

abbrev pub state_owns : ℕ → LockState → Bool
state_owns a (has b) = nat_eq a b
state_owns a s = false

abbrev pub is_at : ℕ → LockTurn → Bool
is_at a t = state_at a t.state

abbrev pub owns : ℕ → LockTurn → Bool
owns a t = state_owns a t.state

abbrev pub one : Bool → ℕ
one b = if b then 1 else 0

-- The states that the locks come to.
pub data LockSteps : ConversationLocks → Type 0 where
  start : LockSteps new_conversation_locks
  onward : {c d : ConversationLocks} → LockSteps c → LockStep c d → LockSteps d

-- The numbers of holders and the channels agree with the turns; a turn uses the lock that the map
-- has for its conversation; and the map has only locks with holders, one conversation each.
pub record IsSound (c : ConversationLocks) : Type 0 where
  pub engaged : (a : ℕ) → (c.store a).holders ≡ count (is_at a) c.turns
  pub channel : (a : ℕ) → one (c.store a).full ≡ count (owns a) c.turns
  pub fresh : (a : ℕ) → c.next ≤ a → count (is_at a) c.turns ≡ 0
  pub named : (t : LockTurn) (a : ℕ) → In t c.turns → is_at a t ≡ true → get t.id c.locks ≡ some a
  pub kept :
      (id : Text) (a : ℕ) → get id c.locks ≡ some a → (a < c.next) × (0 < (c.store a).holders)
  pub single : (i j : Text) (a : ℕ) → get i c.locks ≡ some a → get j c.locks ≡ some a → i ≡ j

pub count_mid :
    (p : LockTurn → Bool) (before after : List LockTurn) (t : LockTurn)
    → count p (before ++ t ∷ after) ≡ count p before + (one (p t) + count p after)
unfolding count
count_mid p before after t = count-append p before (t ∷ after)

pub owns-le-is_at : (a : ℕ) (ts : List LockTurn) → count (owns a) ts ≤ count (is_at a) ts
unfolding count
owns-le-is_at a [] = omega arith
owns-le-is_at a (t ∷ ts) = ground (arith, owns-le-is_at a ts)

-- What is in a list with another item in one place.
pub In-mid :
    (t x y : LockTurn) (before after : List LockTurn)
    → In t (before ++ y ∷ after)
    → (t ≡ y) ⊎ In t (before ++ x ∷ after)
In-mid t x y before after h = elim (In-append t before (y ∷ after) h) [
  | inl m ↦ inr (In-append_left t before (x ∷ after) m)
  | inr (inl e) ↦ inl e
  | inr (inr m) ↦ inr (In-append_right t before (x ∷ after) (inr m))
]

pub In-here : (x : LockTurn) (before after : List LockTurn) → In x (before ++ x ∷ after)
In-here x before after = In-append_right x before (x ∷ after) (inl refl)

pub In-count :
    (p : LockTurn → Bool) (t : LockTurn) (ts : List LockTurn)
    → In t ts
    → p t ≡ true
    → 0 < count p ts
unfolding count
In-count p t [] h e = absurd h
In-count p t (x ∷ ts) (inl q) e = ground (arith, subst (λ (u : LockTurn). p u ≡ true) q e)
In-count p t (x ∷ ts) (inr h) e = ground (arith, In-count p t ts h e)
