-- ===== src/Chat/Limits/Slots.antt =====
-- backend/internal/chat/httpapi/limits.go: TurnLimiter, whatever the order of the steps.
use urara_vision.Base.{
  ℕ, suc, ◌+◌, ◌-◌, ◌≤◌, ◌<◌, ◌≡◌, ◌⊎◌, refl, ap, inl, inr, Bool, true, false, some, List, [], ◌∷◌,
  ◌++◌, arith, ltb, if◌then◌else◌, count, count-append, Bool-cases, lt→ltb, ltb→lt,
}
use urara_vision.Chat.Limits.{
  Caller, waiting, holding, released, Move, slot_freed, release, advance, TurnLimiter,
  new_turn_limiter, Step, call, move,
}

abbrev pub is_holding : Caller → Bool
is_holding holding = true
is_holding c = false

-- The states that a limiter comes to.
pub data Steps (start : TurnLimiter) : TurnLimiter → Type 0 where
  stay : Steps start start
  onward : {l m : TurnLimiter} → Steps start l → Step l m → Steps start m

abbrev IsCounted : TurnLimiter → Type 0
IsCounted l = (l.used ≡ count is_holding l.callers) × (l.used ≤ l.limit)

abbrev held : Caller → ℕ
held c = if is_holding c then 1 else 0

-- A step changes the slots as it changes the caller.
advance_lem :
    (limit used n : ℕ) (m : Move) (c d : Caller)
    → advance limit used m c ≡ some (n, d)
    → used ≤ limit
    → (n + held c ≡ used + held d) × (n ≤ limit)
unfolding advance
advance_lem limit used n m c d h b = ground arith

count_mid :
    (before after : List Caller) (c : Caller)
    → count is_holding (before ++ c ∷ after)
      ≡ count is_holding before + (held c + count is_holding after)
unfolding count
count_mid before after c = count-append is_holding before (c ∷ after)

Steps-IsCounted :
    {limit : ℕ} {l : TurnLimiter}
    → Steps (new_turn_limiter limit) l
    → IsCounted l × (l.limit ≡ limit)
unfolding count
Steps-IsCounted stay = ((refl, omega arith), refl)
Steps-IsCounted (onward r call) = let ((k, b), s) = Steps-IsCounted r in ((omega (arith, k), b), s)
Steps-IsCounted (onward {l} r (move {n} {d} c before after m q e)) =
    let ((k, b), s) = Steps-IsCounted r in
    let (j, i) = advance_lem l.limit l.used n m c d e b in
    (
      (
        omega (
          arith,
          j,
          k,
          ap (count is_holding) q,
          count_mid before after c,
          count_mid before after d,
        ),
        i,
      ),
      s,
    )

-- Whatever the callers do, as many slots are taken as callers hold one, and no more than the limit.
pub slots_bounded :
    (limit : ℕ) (l : TurnLimiter)
    → Steps (new_turn_limiter limit) l
    → (l.used ≡ count is_holding l.callers) × (count is_holding l.callers ≤ limit)
slots_bounded limit l r = let ((k, b), s) = Steps-IsCounted r in (k, omega (arith, k, b, s))

-- A release never waits for the channel.
pub release_proceeds :
    (limit : ℕ) (l : TurnLimiter) (before after : List Caller)
    → Steps (new_turn_limiter limit) l
    → l.callers ≡ before ++ holding ∷ after
    → advance l.limit l.used release holding ≡ some (l.used - 1, released)
unfolding advance
release_proceeds limit l before after r q =
    let ((k, b), s) = Steps-IsCounted r in
    let p : 0 < l.used =
      omega (arith, k, ap (count is_holding) q, count_mid before after holding) in
    rw (lt→ltb 0 l.used p) refl

-- A place where a list has an item.
abbrev pub Has : Caller → List Caller → Type 0
Has c xs = (before : List Caller) × (after : List Caller) × (xs ≡ before ++ c ∷ after)

holder : (xs : List Caller) → 0 < count is_holding xs → Has holding xs
unfolding count
holder [] h = absurd (omega (arith, h))
holder (holding ∷ xs) h = ([], xs, refl)
holder (c ∷ xs) h = let (b, a, q) = holder xs (ground arith) in (c ∷ b, a, ap (λ l. c ∷ l) q)

-- A caller that waits can take a slot now.
abbrev pub CanTake : ℕ → ℕ → Type 0
CanTake limit used = advance limit used slot_freed waiting ≡ some (suc used, holding)

-- Or once a caller that holds one has released it, which that caller can do now.
abbrev pub CanTakeNext : ℕ → ℕ → Type 0
CanTakeNext limit used =
    (n : ℕ) × (advance limit used release holding ≡ some (n, released)) × CanTake limit n

can_take : (limit used : ℕ) → used < limit → CanTake limit used
unfolding advance
can_take limit used h = rw (lt→ltb used limit h) refl

can_take_next : (limit used : ℕ) → 0 < used → used ≤ limit → CanTakeNext limit used
unfolding advance
can_take_next limit used p h =
    (used - 1, rw (lt→ltb 0 used p) refl, can_take limit (used - 1) (omega (arith, p, h)))

-- A caller that waits can take a slot at once, or there is another caller, before or after it, that
-- holds one and can release it, and when that one caller has done so the one that waits can take a
-- slot: a limiter with a slot at all is never stuck.
pub waiting_proceeds :
    (limit : ℕ) (l : TurnLimiter) (before after : List Caller)
    → 0 < limit
    → Steps (new_turn_limiter limit) l
    → l.callers ≡ before ++ waiting ∷ after
    → CanTake l.limit l.used
      ⊎ ((Has holding before ⊎ Has holding after) × CanTakeNext l.limit l.used)
waiting_proceeds limit l before after p r q =
    let ((k, b), s) = Steps-IsCounted r in
    elim (Bool-cases (ltb l.used l.limit)) [
      | inl h ↦ inl (can_take l.limit l.used (ltb→lt l.used l.limit h))
      | inr h ↦
          let u : 0 < l.used = ground arith in
          let c : count is_holding before + count is_holding after ≡ l.used =
            omega (arith, k, ap (count is_holding) q, count_mid before after waiting) in
          elim (Bool-cases (ltb 0 (count is_holding before))) [
            | inl f ↦ inr (
              inl (holder before (ltb→lt 0 (count is_holding before) f)),
              can_take_next l.limit l.used u b,
            )
            | inr f ↦ inr (inr (holder after (ground arith)), can_take_next l.limit l.used u b)
          ]
    ]
