-- ===== src/Chat/Limits/Locks/Keeps.antt =====
-- backend/internal/chat/httpapi/limits.go: a turn that arrives, or that goes on at its
-- lock, keeps the locks sound.
use mathlib.Core.Path.{subst}
use urara_vision.Base.{
  ℕ, ◌+◌, ◌≡◌, refl, sym, ap, inl, inr, true, false, none, some, List, [], ◌∷◌, ◌++◌, arith, count,
  In, ◌∙◌, Option-cases, nat_eq_iff,
}
use urara_vision.Base.Text.{Text, ==_iff, ==_refl}
use urara_vision.Base.Maps.{Map, get, put, get-put}
use urara_vision.Chat.Limits.{
  ConvLock, LockState, wants, LockTurn, lock_turn, ConversationLocks, write, enter, enter_at,
  new_conversation_locks,
}
use urara_vision.Chat.Limits.Locks.{
  state_at, state_owns, is_at, owns, one, IsSound, count_mid, owns-le-is_at, In-mid, In-here,
}

get_nil : (id : Text) (a : ℕ) → get id [] ≡ some a → ⊥
unfolding get
get_nil id a h = cc

pub new-IsSound : IsSound new_conversation_locks
unfolding count
new-IsSound = record {
  engaged = λ a. refl;
  channel = λ a. refl;
  fresh = λ a h. refl;
  named = λ t a h e. absurd h;
  kept = λ id a h. absurd (get_nil id a h);
  single = λ i j a h k. absurd (get_nil i a h);
}

-- What is named of a turn that uses the lock of its conversation.
pub named_at :
    (m : Map ℕ) (id : Text) (s : LockState) (t : LockTurn) (b : ℕ)
    → (state_at b s ≡ true → get id m ≡ some b)
    → t ≡ lock_turn id s
    → is_at b t ≡ true
    → get t.id m ≡ some b
named_at m id s t b h q = subst (λ (x : LockTurn). is_at b x ≡ true → get x.id m ≡ some b) (sym q) h

-- A turn arrives at the lock of its conversation.
join_IsSound :
    (c : ConversationLocks) (id : Text) (a : ℕ)
    → IsSound c
    → get id c.locks ≡ some a
    → IsSound (enter_at (some a) id c)
unfolding count enter_at write
join_IsSound c id a h g = record {
  engaged = λ b. ground (arith, h.engaged a, h.engaged b, nat_eq_iff a b);
  channel = λ b. ground (arith, h.channel a, h.channel b, nat_eq_iff a b);
  fresh = λ b e. ground (arith, h.fresh b, h.kept id a g);
  named = λ t b m e. elim m [
    | inl q ↦ named_at c.locks id (wants a) t b (λ f. g ∙ ap some (sym ((nat_eq_iff b a).0 f))) q e
    | inr m ↦ h.named t b m e
  ];
  kept = λ i b e. ground (arith, h.kept i b e);
  single = h.single;
}

pub false-true : false ≡ true → ⊥
false-true h = cc

-- A turn makes the lock of its conversation.
make_IsSound :
    (c : ConversationLocks) (id : Text)
    → IsSound c
    → get id c.locks ≡ none
    → IsSound (enter_at none id c)
unfolding count enter_at write
make_IsSound c id h g = record {
  engaged = λ b. ground (arith, h.engaged b, h.fresh c.next, nat_eq_iff c.next b);
  channel = λ b.
      ground
        (arith, h.channel b, h.fresh c.next, nat_eq_iff c.next b, owns-le-is_at c.next c.turns);
  fresh = λ b e. ground (arith, h.fresh b);
  named = λ t b m e. elim m [
    | inl q ↦
        named_at (put id c.next c.locks) id (wants c.next) t b
          (λ f. ground (arith, get-put id id c.next c.locks, ==_refl id, nat_eq_iff b c.next)) q e
    | inr m ↦ ground (arith, get-put id t.id c.next c.locks, ==_iff id t.id, h.named t b m e)
  ];
  kept = λ i b e. ground (arith, get-put id i c.next c.locks, h.kept i b, nat_eq_iff c.next b);
  single = λ i j a e k. ground (
    arith,
    get-put id i c.next c.locks,
    get-put id j c.next c.locks,
    ==_iff id i,
    ==_iff id j,
    h.kept i a,
    h.kept j a,
    h.single i j a,
  );
}

pub enter-IsSound : (id : Text) (c : ConversationLocks) → IsSound c → IsSound (enter id c)
unfolding enter
enter-IsSound id c h = elim (Option-cases (get id c.locks)) [
  | inl e ↦ rw e (make_IsSound c id h e)
  | inr (a, e) ↦ rw e (join_IsSound c id a h e)
]

-- A turn goes to another state at the same lock, and the channel follows.
pub stay_IsSound :
    (c : ConversationLocks) (st : ℕ → ConvLock) (id : Text) (s t : LockState)
    (before after : List LockTurn)
    → IsSound c
    → c.turns ≡ before ++ lock_turn id s ∷ after
    → ((b : ℕ) → (st b).holders ≡ (c.store b).holders)
    → ((b : ℕ)
        → one (st b).full + one (state_owns b s) ≡ one (c.store b).full + one (state_owns b t))
    → ((b : ℕ) → state_at b s ≡ state_at b t)
    → IsSound (record c { store = st; turns = before ++ lock_turn id t ∷ after })
stay_IsSound c st id s t before after h q x y z = record {
  engaged = λ b. rw (x b) (h.engaged b ∙ same b);
  channel = λ b. omega (
    arith,
    y b,
    h.channel b,
    ap (count (owns b)) q,
    count_mid (owns b) before after (lock_turn id s),
    count_mid (owns b) before after (lock_turn id t),
  );
  fresh = λ b e. sym (same b) ∙ h.fresh b e;
  named = λ u b m e. elim (In-mid u (lock_turn id s) (lock_turn id t) before after m) [
    | inl p ↦
        named_at c.locks id t u b
          (λ f.
            h.named (lock_turn id s) b
              (subst (λ l. In (lock_turn id s) l) (sym q) (In-here (lock_turn id s) before after))
              (z b ∙ f))
          p e
    | inr k ↦ h.named u b (subst (λ l. In u l) (sym q) k) e
  ];
  kept = λ i b e. let (j, k) = h.kept i b e in (j, rw (x b) k);
  single = h.single;
}
  where
    same : (b : ℕ) → count (is_at b) c.turns ≡ count (is_at b) (before ++ lock_turn id t ∷ after)
    same b =
        ap (count (is_at b)) q
        ∙ count_mid (is_at b) before after (lock_turn id s)
        ∙ ap (λ v. count (is_at b) before + (one v + count (is_at b) after)) (z b)
        ∙ sym (count_mid (is_at b) before after (lock_turn id t))
