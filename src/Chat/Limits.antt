-- ===== src/Chat/Limits.antt =====
-- backend/internal/chat/httpapi/limits.go: the slots for turns, and the locks of conversations. What
-- a goroutine does between two points where others may run is one step.
pub mod Slots
pub mod Locks
use urara_vision.Base.{
  ℕ, suc, ◌+◌, ◌-◌, Bool, true, false, Option, none, some, List, [], ◌∷◌, ◌++◌, ◌≡◌, ltb, nat_eq,
  if◌then◌else◌, length, not, ◌&&◌,
}
use urara_vision.Base.Text.{Text, codes}
use urara_vision.Base.Print.{itoa}
use urara_vision.Base.Maps.{Map, get, put, remove}

abbrev pub retry_after_seconds : ℕ
retry_after_seconds = 5

-- TurnsBusyError
unfoldable pub turns_busy_error : ℕ → Text
turns_busy_error limit =
    codes "all "
    ++ itoa limit
    ++ codes " turn slots are busy; retry in "
    ++ itoa retry_after_seconds
    ++ codes "s"

-- What one caller of Acquire is about to do, or what came of it.
pub data Caller : Type 0 where
  asking waiting holding released cancelled refused : Caller

-- The cases of the two selects of Acquire, and the call of what it returns.
pub data Move : Type 0 where
  first_try slot_freed context_done timer_fired release : Move

-- One step of a caller, on the slots that are taken: none where it has to wait.
unfoldable pub advance : ℕ → ℕ → Move → Caller → Option (ℕ × Caller)
advance limit used first_try asking =
    if ltb used limit then some (suc used, holding) else some (used, waiting)
advance limit used slot_freed waiting = if ltb used limit then some (suc used, holding) else none
advance limit used context_done waiting = some (used, cancelled)
advance limit used timer_fired waiting = some (used, refused)
advance limit used release holding = if ltb 0 used then some (used - 1, released) else none
advance limit used release released = some (used, released)
advance limit used m c = none

pub record TurnLimiter : Type 0 where
  pub limit : ℕ
  pub used : ℕ
  pub callers : List Caller

abbrev pub new_turn_limiter : ℕ → TurnLimiter
new_turn_limiter limit = record { limit = limit; used = 0; callers = [] }

-- A call of Acquire begins, or a caller moves on.
pub data Step : TurnLimiter → TurnLimiter → Type 0 where
  call : {l : TurnLimiter} → Step l (record l { callers = asking ∷ l.callers })
  move :
      {l : TurnLimiter} {n : ℕ} {d : Caller} (c : Caller) (before after : List Caller) (m : Move)
      → l.callers ≡ before ++ c ∷ after
      → advance l.limit l.used m c ≡ some (n, d)
      → Step l (record l { used = n; callers = before ++ d ∷ after })

-- convLock: whether its channel is full, and the turns that hold it or wait for it.
pub record ConvLock : Type 0 where
  pub full : Bool
  pub holders : ℕ

abbrev pub new_lock : ConvLock
new_lock = record { full = false; holders = 0 }

-- A turn that has called Lock: it waits for the channel of a lock, has it, has let go of it but not
-- yet called drop, or is done. A lock is a place in the store.
pub data LockState : Type 0 where
  wants has leaves : ℕ → LockState
  done : LockState

pub record LockTurn : Type 0 where
  pub id : Text
  pub state : LockState

abbrev pub lock_turn : Text → LockState → LockTurn
lock_turn id s = record { id = id; state = s }

-- The map from conversations to locks, the locks of the store, and the place for the next one.
pub record ConversationLocks : Type 0 where
  pub locks : Map ℕ
  pub store : ℕ → ConvLock
  pub next : ℕ
  pub turns : List LockTurn

abbrev pub new_conversation_locks : ConversationLocks
new_conversation_locks = record { locks = []; store = λ a. new_lock; next = 0; turns = [] }

unfoldable pub write : ℕ → ConvLock → (ℕ → ConvLock) → ℕ → ConvLock
write a l store b = if nat_eq a b then l else store b

abbrev pub add_holder : ConvLock → ConvLock
add_holder l = record l { holders = suc l.holders }

-- Lock, as far as the mutex is held: the lock of the conversation, made if there is none.
unfoldable pub enter_at : Option ℕ → Text → ConversationLocks → ConversationLocks
unfolding write
enter_at (some a) id c = record c {
  store = write a (add_holder (c.store a)) c.store;
  turns = lock_turn id (wants a) ∷ c.turns;
}
enter_at none id c = record c {
  locks = put id c.next c.locks;
  store = write c.next (add_holder new_lock) c.store;
  next = suc c.next;
  turns = lock_turn id (wants c.next) ∷ c.turns;
}

unfoldable pub enter : Text → ConversationLocks → ConversationLocks
unfolding enter_at
enter id c = enter_at (get id c.locks) id c

-- drop
unfoldable pub drop_at : Text → ℕ → ConversationLocks → ConversationLocks
unfolding write
drop_at id a c =
    let l : ConvLock = c.store a in
    let n = l.holders - 1 in
    record c {
      store = write a (record l { holders = n }) c.store;
      locks = if nat_eq n 0 then remove id c.locks else c.locks;
    }

-- What a turn does next: the channel takes its value, its context is done, it unlocks, or it drops
-- the lock.
pub data LockMove : Type 0 where
  takes gives_up unlocks drops : LockMove

abbrev pub set_full : Bool → ConvLock → ConvLock
set_full b l = record l { full = b }

-- One step of a turn; none where it has to wait.
unfoldable pub lock_move :
    Text → LockMove → LockState → ConversationLocks → Option (ConversationLocks × LockState)
unfolding write drop_at
lock_move id takes (wants a) c =
    if (c.store a).full
    then none
    else some (record c { store = write a (set_full true (c.store a)) c.store }, has a)
lock_move id gives_up (wants a) c = some (c, leaves a)
lock_move id unlocks (has a) c =
    if (c.store a).full
    then some (record c { store = write a (set_full false (c.store a)) c.store }, leaves a)
    else none
lock_move id drops (leaves a) c = some (drop_at id a c, done)
lock_move id m s c = none

-- A turn calls Lock, or makes a step.
pub data LockStep : ConversationLocks → ConversationLocks → Type 0 where
  arrive : {c : ConversationLocks} (id : Text) → LockStep c (enter id c)
  proceed :
      {c d : ConversationLocks} {t : LockState} (id : Text) (s : LockState)
      (before after : List LockTurn) (m : LockMove)
      → c.turns ≡ before ++ lock_turn id s ∷ after
      → lock_move id m s c ≡ some (d, t)
      → LockStep c (record d { turns = before ++ lock_turn id t ∷ after })

-- Tracked
unfoldable pub tracked : ConversationLocks → ℕ
tracked c = length c.locks
