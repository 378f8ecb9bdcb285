-- ===== src/Base/Lists.antt =====
-- Lists measured by native numbers, predicates by recursion, and the laws that several components
-- share.
use Prim.Native.Nat.{ℕ, zero, suc, ◌+◌, ◌≤◌}
use mathlib.Core.Path.{◌≡◌, refl, ap}
use mathlib.Core.Logic.{◌⊎◌, inl, inr}
use mathlib.Core.Bool.{Bool, true, false, not, ◌||◌}
use mathlib.Core.List.{List, [], ◌∷◌, ◌++◌, map}
use mathlib.Core.Option.{Option, none, some}
use native.Mathlib.Omega.{arith}
use urara_vision.Base.Tests.{nat_eq, if◌then◌else◌}

module _ {ℓ} {A : Type ℓ} where
  abbrev pub length : List A → ℕ
  length [] = 0
  length (x ∷ xs) = suc (length xs)

  abbrev pub get_elem? : List A → ℕ → Option A
  get_elem? [] i = none
  get_elem? (x ∷ xs) zero = some x
  get_elem? (x ∷ xs) (suc i) = get_elem? xs i

  abbrev pub take : ℕ → List A → List A
  take zero xs = []
  take (suc n) [] = []
  take (suc n) (x ∷ xs) = x ∷ take n xs

  abbrev pub drop : ℕ → List A → List A
  drop zero xs = xs
  drop (suc n) [] = []
  drop (suc n) (x ∷ xs) = drop n xs

  abbrev pub is_empty : List A → Bool
  is_empty [] = true
  is_empty (x ∷ xs) = false

  -- The items that a test keeps, in their order.
  unfoldable pub keep : (A → Bool) → List A → List A
  keep p [] = []
  keep p (x ∷ xs) = if p x then x ∷ keep p xs else keep p xs

  -- How many items a test accepts.
  unfoldable pub count : (A → Bool) → List A → ℕ
  count p [] = 0
  count p (x ∷ xs) = (if p x then 1 else 0) + count p xs

  unfoldable pub any : (A → Bool) → List A → Bool
  any p [] = false
  any p (x ∷ xs) = p x || any p xs

  abbrev pub All {κ} : (A → Type κ) → List A → Type κ
  All P [] = Unit
  All P (x ∷ xs) = P x × All P xs

  pub length-append : (xs ys : List A) → length (xs ++ ys) ≡ length xs + length ys
  length-append [] ys = omega arith
  length-append (x ∷ xs) ys = omega (arith, length-append xs ys)

  pub length-keep : (p : A → Bool) (xs : List A) → length (keep p xs) ≡ count p xs
  unfolding keep count
  length-keep p [] = refl
  length-keep p (x ∷ xs) = ground (arith, length-keep p xs)

  pub count-append : (p : A → Bool) (xs ys : List A) → count p (xs ++ ys) ≡ count p xs + count p ys
  unfolding count
  count-append p [] ys = omega arith
  count-append p (x ∷ xs) ys = omega (arith, count-append p xs ys)

  pub count_zero : (p : A → Bool) (xs : List A) → nat_eq (count p xs) 0 ≡ not (any p xs)
  unfolding count any
  count_zero p [] = refl
  count_zero p (x ∷ xs) = ground (arith, count_zero p xs)

  pub count-le-length : (p : A → Bool) (xs : List A) → count p xs ≤ length xs
  unfolding count
  count-le-length p [] = omega arith
  count-le-length p (x ∷ xs) = ground (arith, count-le-length p xs)

module _ {ℓ κ} {A : Type ℓ} where
  pub All-append : (P : A → Type κ) (xs ys : List A) → All P xs → All P ys → All P (xs ++ ys)
  All-append P [] ys hx hy = hy
  All-append P (x ∷ xs) ys hx hy = (hx.0, All-append P xs ys hx.1 hy)

-- Membership, with its place.
module _ {A : Type 0} where
  abbrev pub In : A → List A → Type 0
  In x [] = ⊥
  In x (y ∷ ys) = (x ≡ y) ⊎ In x ys

  pub In-append_left : (x : A) (xs ys : List A) → In x xs → In x (xs ++ ys)
  In-append_left x [] ys h = elim h [ ]
  In-append_left x (y ∷ xs) ys (inl e) = inl e
  In-append_left x (y ∷ xs) ys (inr h) = inr (In-append_left x xs ys h)

  pub In-append_right : (x : A) (xs ys : List A) → In x ys → In x (xs ++ ys)
  In-append_right x [] ys h = h
  In-append_right x (y ∷ xs) ys h = inr (In-append_right x xs ys h)

  pub In-append : (x : A) (xs ys : List A) → In x (xs ++ ys) → In x xs ⊎ In x ys
  In-append x [] ys h = inr h
  In-append x (y ∷ xs) ys (inl e) = inl (inl e)
  In-append x (y ∷ xs) ys (inr h) = elim (In-append x xs ys h) [
    | inl a ↦ inl (inr a)
    | inr b ↦ inr b
  ]

  -- What holds of every item holds of each.
  pub All-In : (P : A → Type 0) (xs : List A) (x : A) → All P xs → In x xs → P x
  All-In P [] x h m = elim m [ ]
  All-In P (y ∷ ys) x h (inl e) = rw e h.0
  All-In P (y ∷ ys) x h (inr m) = All-In P ys x h.1 m

module _ {ℓ κ} {A : Type ℓ} {B : Type κ} where
  pub length-map : (f : A → B) (xs : List A) → length (map f xs) ≡ length xs
  length-map f [] = refl
  length-map f (x ∷ xs) = ap suc (length-map f xs)
