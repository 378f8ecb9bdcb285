-- ===== src/Chat/History/Laws.antt =====
-- backend/internal/chat/agent/history.go: which messages are kept.
use mathlib.Core.List.{append_assoc, append-nil}
use urara_vision.Base.{
  ℕ, zero, suc, ◌-◌, ◌≤◌, ◌≡◌, refl, sym, ap, ◌∙◌, inl, inr, true, List, [], ◌∷◌, ◌++◌, arith,
  Bool-cases, length, drop,
}
use urara_vision.Base.Text.{◌==◌}
use urara_vision.Chat.History.{Message, role_user, from_user, truncate_history}

-- A user's message leads, if any does.
abbrev pub UserLeads : List Message → Type 0
UserLeads [] = Unit
UserLeads (m ∷ ms) = (m.role == role_user) ≡ true

-- A list ends in another one.
abbrev pub EndsIn : List Message → List Message → Type 0
EndsIn xs ys = (pre : List Message) × (xs ≡ pre ++ ys)

from_user_lem :
    (ms : List Message)
    → EndsIn ms (from_user ms) × UserLeads (from_user ms) × (length (from_user ms) ≤ length ms)
unfolding from_user
from_user_lem [] = (([], refl), tt, omega arith)
from_user_lem (m ∷ ms) = elim (Bool-cases (m.role == role_user)) [
  | inl e ↦ rw e (([], refl), e, omega arith)
  | inr e ↦
      let ((pre, q), leads, short) = from_user_lem ms in
      rw e ((m ∷ pre, ap (λ l. m ∷ l) q), leads, omega (arith, short))
]

drop-EndsIn :
    (n : ℕ) (ms : List Message) → EndsIn ms (drop n ms) × (length (drop n ms) ≡ length ms - n)
drop-EndsIn zero ms = (([], refl), omega arith)
drop-EndsIn (suc n) [] = (([], refl), omega arith)
drop-EndsIn (suc n) (m ∷ ms) =
    let ((pre, q), len) = drop-EndsIn n ms in ((m ∷ pre, ap (λ l. m ∷ l) q), omega (arith, len))

ends-EndsIn : (xs ys zs : List Message) → EndsIn xs ys → EndsIn ys zs → EndsIn xs zs
ends-EndsIn xs ys zs (pre, p) (mid, q) =
    (pre ++ mid, p ∙ ap (λ l. pre ++ l) q ∙ sym (append_assoc pre mid zs))

-- What is kept of a conversation is its end, is no longer than the limit, and begins with a message
-- of a user unless nothing is kept.
pub truncate_history_lem :
    (msgs : List Message) (limit : ℕ)
    → EndsIn msgs (truncate_history msgs limit)
      × UserLeads (truncate_history msgs limit)
      × (length (truncate_history msgs limit) ≤ limit)
unfolding truncate_history
truncate_history_lem msgs zero = ((msgs, sym (append-nil msgs)), tt, omega arith)
truncate_history_lem msgs (suc n) =
    let (tail, len) = drop-EndsIn (length msgs - suc n) msgs in
    let (ends, leads, short) = from_user_lem (drop (length msgs - suc n) msgs) in
    (ends-EndsIn msgs _ _ tail ends, leads, omega (arith, short, len))
