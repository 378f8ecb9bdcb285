-- ===== src/Examples/Waits.antt =====
-- The theorems on the limits of turns, at two callers of one slot and two turns of one conversation.
use urara_vision.Base.{
  ℕ, ◌-◌, ◌≤◌, ◌≡◌, ◌⊎◌, ◌↔◌, inl, inr, refl, Bool, true, false, Option, none, some, List, [], ◌∷◌,
  arith, count, In, ◌++◌,
}
use urara_vision.Base.Text.{Text, codes, elem, ◌==◌}
use urara_vision.Base.Maps.{keys, get}
use urara_vision.Chat.Limits.{
  Caller, asking, waiting, holding, first_try, advance, TurnLimiter, new_turn_limiter, call, move,
  wants, has, LockTurn, lock_turn, ConversationLocks, new_conversation_locks, enter, takes,
  lock_move, arrive, proceed, set_full, write,
}
use urara_vision.Chat.Limits.Slots.{
  is_holding, Steps, stay, onward, slots_bounded, Has, CanTake, CanTakeNext, waiting_proceeds,
}
use urara_vision.Chat.Limits.Locks.{LockSteps, start}
use urara_vision.Chat.Limits.Locks
use urara_vision.Chat.Limits.Locks.Exclusion.{
  is_inside, is_busy, mutual_exclusion, tracked-keys, waiter_proceeds,
}

abbrev slots : ℕ → List Caller → TurnLimiter
slots n cs = record { limit = 1; used = n; callers = cs }

-- Two callers ask, the second that came is first.
slots_asked : Steps (new_turn_limiter 1) (slots 0 (asking ∷ asking ∷ []))
slots_asked = onward (onward stay call) call

slots_taken : Steps (new_turn_limiter 1) (slots 1 (holding ∷ asking ∷ []))
unfolding advance
slots_taken = onward slots_asked (move asking [] (asking ∷ []) first_try refl refl)

slots_full : Steps (new_turn_limiter 1) (slots 1 (holding ∷ waiting ∷ []))
unfolding advance
slots_full = onward slots_taken (move asking (holding ∷ []) [] first_try refl refl)

slots_bounded_example :
    ◌≡◌ {A = ℕ} 1 (count is_holding (holding ∷ waiting ∷ []))
    × (count is_holding (holding ∷ waiting ∷ []) ≤ 1)
slots_bounded_example = slots_bounded 1 (slots 1 (holding ∷ waiting ∷ [])) slots_full

waiting_proceeds_example :
    CanTake 1 1 ⊎ ((Has holding (holding ∷ []) ⊎ Has holding []) × CanTakeNext 1 1)
waiting_proceeds_example =
    waiting_proceeds 1 (slots 1 (holding ∷ waiting ∷ [])) (holding ∷ []) [] (omega arith) slots_full
      refl

abbrev talk : Text
talk = codes "c1"

abbrev entered : ConversationLocks
entered = enter talk (enter talk new_conversation_locks)

entered-LockSteps : LockSteps entered
entered-LockSteps = Locks.onward (Locks.onward start (arrive talk)) (arrive talk)

-- The first turn has the lock, and the second waits.
abbrev locked : ConversationLocks
locked = record entered {
  store = write 0 (set_full true (entered.store 0)) entered.store;
  turns = lock_turn talk (has 0) ∷ lock_turn talk (wants 0) ∷ [];
}

locked-LockSteps : LockSteps locked
unfolding lock_move enter get urara_vision.Base.Maps.put ◌==◌
locked-LockSteps =
    Locks.onward entered-LockSteps
      (proceed talk (wants 0) [] (lock_turn talk (wants 0) ∷ []) takes refl refl)

mutual_exclusion_example : count (is_inside talk) locked.turns ≤ 1
mutual_exclusion_example = mutual_exclusion locked talk locked-LockSteps

tracked-keys_example :
    (elem talk (keys locked.locks) ≡ true)
    ↔ ((t : LockTurn) × In t locked.turns × (t.id ≡ talk) × (is_busy t ≡ true))
tracked-keys_example = tracked-keys locked talk locked-LockSteps

waiter_proceeds_example :
    ((d : ConversationLocks) × (lock_move talk takes (wants 0) locked ≡ some (d, has 0)))
    ⊎ ((t : LockTurn) × In t locked.turns × (is_inside talk t ≡ true))
waiter_proceeds_example =
    waiter_proceeds locked talk 0 (lock_turn talk (has 0) ∷ []) [] locked-LockSteps refl
