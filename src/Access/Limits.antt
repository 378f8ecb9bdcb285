-- ===== src/Access/Limits.antt =====
-- backend/internal/api/ratelimit.go: failures per key in a sliding window. The clock is an argument,
-- in nanoseconds; the lock makes each operation one step.
pub mod Laws
use urara_vision.Base.{
  ℕ, ◌+◌, ◌-◌, Bool, true, false, Option, none, some, List, [], ◌∷◌, ◌++◌, leb, ltb, length,
  is_empty, if◌then◌else◌,
}
use urara_vision.Base.Text.{Text, codes, has_prefix}
use urara_vision.Base.Maps.{Map, get_or, put, remove, keys}

-- 15 minutes
abbrev pub login_window : ℕ
login_window = 900000000000

unfoldable pub limit_for : Text → ℕ
limit_for key = if has_prefix key (codes "ip:") then 20 else 5

pub record RateLimiter : Type 0 where
  pub window : ℕ
  pub failures : Map (List ℕ)

abbrev pub new_login_limiter : RateLimiter
new_login_limiter = record { window = login_window; failures = [] }

-- The loop of prune: !f.After(now - window) is f + window ≤ now.
unfoldable pub drop_old : ℕ → ℕ → List ℕ → List ℕ
drop_old window now [] = []
drop_old window now (f ∷ fs) =
    let rest = drop_old window now fs in if leb (f + window) now then rest else f ∷ fs

unfoldable pub prune : ℕ → Text → RateLimiter → List ℕ × RateLimiter
prune now key l =
    let fs = drop_old l.window now (get_or key l.failures []) in
    (
      fs,
      record l { failures = if is_empty fs then remove key l.failures else put key fs l.failures },
    )

abbrev pub first_time : List ℕ → ℕ
first_time [] = 0
first_time (f ∷ fs) = f

-- Whether the key may try again, and if not, how long until it may.
unfoldable pub allow : ℕ → Text → RateLimiter → Bool × ℕ × RateLimiter
allow now key l =
    let (fs, l') = prune now key l in
    if ltb (length fs) (limit_for key)
    then (true, 0, l')
    else (false, (first_time fs + l.window) - now, l')

unfoldable pub prune_all : ℕ → List Text → RateLimiter → RateLimiter
prune_all now [] l = l
prune_all now (k ∷ ks) l = let (fs, l') = prune now k l in prune_all now ks l'

unfoldable pub fail : ℕ → Text → RateLimiter → RateLimiter
fail now key l =
    let (fs, l') = prune now key l in
    let failed : RateLimiter = record l' { failures = put key (fs ++ now ∷ []) l'.failures } in
    let pruned = prune_all now (keys failed.failures) failed in
    if ltb 10000 (length failed.failures) then pruned else failed

unfoldable pub reset : Text → RateLimiter → RateLimiter
reset key l = record l { failures = remove key l.failures }
