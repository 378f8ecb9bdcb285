-- ===== src/Access/Limits/Laws.antt =====
-- backend/internal/api/ratelimit.go: what the limiter counts.
use urara_vision.Base.{
  ℕ, suc, ◌+◌, ◌<◌, ◌≡◌, refl, ap, ◌∙◌, inl, inr, Bool, true, false, List, [], ◌∷◌, ◌++◌, arith,
  Bool-cases, if◌then◌else◌, leb, ltb, length, length-append, is_empty,
}
use urara_vision.Base.Text.{Text, ◌==◌, ==_iff, ==_refl}
use urara_vision.Base.Maps.{Map, get_or, put, remove, keys, get_or-put, get_or-eq, get-remove}
use urara_vision.Access.Limits.{
  RateLimiter, limit_for, drop_old, prune, prune_all, allow, fail, reset,
}

-- The failures of a key that still count.
abbrev pub recent : ℕ → Text → RateLimiter → List ℕ
recent now k l = drop_old l.window now (get_or k l.failures [])

drop_old_twice : (w now : ℕ) (fs : List ℕ) → drop_old w now (drop_old w now fs) ≡ drop_old w now fs
unfolding drop_old
drop_old_twice w now [] = refl
drop_old_twice w now (f ∷ fs) = elim (Bool-cases (leb (f + w) now)) [
  | inl e ↦ rw e (drop_old_twice w now fs)
  | inr e ↦ rw (e, e) refl
]

drop_old_now :
    (w now : ℕ) (fs : List ℕ)
    → 0 < w
    → drop_old w now (fs ++ now ∷ []) ≡ drop_old w now fs ++ now ∷ []
unfolding drop_old
drop_old_now w now [] h = ground arith
drop_old_now w now (f ∷ fs) h = ground (arith, drop_old_now w now fs h)

get_or-remove :
    (k j : Text) (m : Map (List ℕ))
    → get_or j (remove k m) [] ≡ (if k == j then [] else get_or j m [])
get_or-remove k j m =
    rw (get_or-eq j (remove k m) [], get_or-eq j m [], get-remove k j m) (ground arith)

get_or_kept :
    (fs : List ℕ) (j k : Text) (m : Map (List ℕ))
    → get_or k (if is_empty fs then remove j m else put j fs m) []
      ≡ (if j == k then fs else get_or k m [])
get_or_kept [] j k m = get_or-remove j k m
get_or_kept (f ∷ fs) j k m = get_or-put j k (f ∷ fs) [] m

-- Pruning drops only what does not count.
prune-recent :
    (now : ℕ) (j k : Text) (l : RateLimiter)
    → (recent now k (prune now j l).1 ≡ recent now k l) × ((prune now j l).1.window ≡ l.window)
unfolding prune
prune-recent now j k l = (
  ap (drop_old l.window now) (get_or_kept (recent now j l) j k l.failures)
      ∙ elim (Bool-cases (j == k)) [
        | inl e ↦ rw (e, (==_iff j k).0 e) (drop_old_twice l.window now (get_or k l.failures []))
        | inr e ↦ rw e refl
      ],
  refl,
)

prune_all-recent :
    (now : ℕ) (js : List Text) (k : Text) (l : RateLimiter)
    → (recent now k (prune_all now js l) ≡ recent now k l)
      × ((prune_all now js l).window ≡ l.window)
unfolding prune_all
prune_all-recent now [] k l = (refl, refl)
prune_all-recent now (j ∷ js) k l =
    let (r, w) = prune_all-recent now js k (prune now j l).1 in
    let (r', w') = prune-recent now j k l in (r ∙ r', w ∙ w')

abbrev failed : ℕ → Text → RateLimiter → RateLimiter
failed now key l =
    let (fs, l') = prune now key l in record l' { failures = put key (fs ++ now ∷ []) l'.failures }

failed-recent :
    (now : ℕ) (key k : Text) (l : RateLimiter)
    → 0 < l.window
    → recent now k (failed now key l)
      ≡ (if key == k then recent now k l ++ now ∷ [] else recent now k l)
unfolding prune
failed-recent now key k l h =
    ap (drop_old l.window now) (get_or-put key k _ [] (prune now key l).1.failures)
    ∙ elim (Bool-cases (key == k)) [
      | inl e ↦
          rw (e, (==_iff key k).0 e)
            (drop_old_now l.window now (recent now k l) h
              ∙ ap (λ fs. fs ++ now ∷ []) (drop_old_twice l.window now (get_or k l.failures [])))
      | inr e ↦ rw e ((prune-recent now key k l).0)
    ]

allow-eq :
    (now : ℕ) (key : Text) (l : RateLimiter)
    → (allow now key l).0 ≡ ltb (length (recent now key l)) (limit_for key)
unfolding allow prune
allow-eq now key l = ground arith

-- A failure adds itself to those that count for its key, and nothing to those of another key, also
-- when the limiter clears out old keys.
pub recent-fail :
    (now : ℕ) (key k : Text) (l : RateLimiter)
    → 0 < l.window
    → recent now k (fail now key l)
      ≡ (if key == k then recent now k l ++ now ∷ [] else recent now k l)
unfolding fail
recent-fail now key k l h = by_size (ltb 10000 (length (failed now key l).failures))
  where
    by_size :
        (b : Bool)
        → recent now k (
            if b
            then prune_all now (keys (failed now key l).failures) (failed now key l)
            else failed now key l)
          ≡ (if key == k then recent now k l ++ now ∷ [] else recent now k l)
    by_size true =
        (prune_all-recent now (keys (failed now key l).failures) k (failed now key l)).0
        ∙ failed-recent now key k l h
    by_size false = failed-recent now key k l h

-- Right after a failure a key may try again exactly when one more than the failures that counted
-- before is still below its limit.
pub allow-fail :
    (now : ℕ) (key : Text) (l : RateLimiter)
    → 0 < l.window
    → (allow now key (fail now key l)).0 ≡ ltb (suc (length (recent now key l))) (limit_for key)
allow-fail now key l h =
    allow-eq now key (fail now key l)
    ∙ ap (λ n. ltb n (limit_for key))
        (ap length (recent-fail now key key l h ∙ rw (==_refl key) refl)
          ∙ length-append (recent now key l) (now ∷ [])
          ∙ omega arith)

-- A key that was reset may try again at once.
pub allow-reset : (now : ℕ) (key : Text) (l : RateLimiter) → (allow now key (reset key l)).0 ≡ true
unfolding reset drop_old limit_for
allow-reset now key l =
    allow-eq now key (reset key l)
    ∙ rw (get_or-remove key key l.failures, ==_refl key) (ground arith)
