-- ===== src/Base/Sort.antt =====
-- sort.Strings, sort.Slice and sort.SliceStable over a Boolean "less". The result of a stable sort
-- is unique; sort.Slice may order items that are not told apart in another way.
use Prim.Native.Nat.{ℕ, suc}
use mathlib.Core.Path.{◌≡◌, refl, ◌∙◌}
use mathlib.Core.Logic.{inl, inr}
use mathlib.Core.Bool.{Bool, true, false, not, ◌&&◌, ◌||◌}
use mathlib.Core.List.{List, [], ◌∷◌, Perm}
use mathlib.Core.List.Perm
use native.Mathlib.Omega.{arith}
use urara_vision.Base.Tests.{ltb, nat_eq, if◌then◌else◌, Bool-cases}
use urara_vision.Base.Lists.{length, All, count, In}
use urara_vision.Base.Maps.{Distinct}
use urara_vision.Base.Text.{
  Text, ◌==◌, ==_iff, elem, text_lt, text_lt_irrefl, text_lt_asym, text_le_trans, text_lt_antisym,
}

-- What `sort` wants of a "less": a strict weak order.
pub record IsOrder {ℓ} {A : Type ℓ} (lt : A → A → Bool) : Type ℓ where
  pub asym : (a b : A) → lt a b ≡ true → lt b a ≡ false
  pub le_trans : (a b c : A) → lt b a ≡ false → lt c b ≡ false → lt c a ≡ false

module _ {ℓ} {A : Type ℓ} (lt : A → A → Bool) where
  unfoldable pub insert_by : A → List A → List A
  insert_by x [] = x ∷ []
  insert_by x (y ∷ ys) = if lt y x then y ∷ insert_by x ys else x ∷ y ∷ ys

  unfoldable pub sort_by : List A → List A
  unfolding insert_by
  sort_by [] = []
  sort_by (x ∷ xs) = insert_by x (sort_by xs)

  -- Nothing later is less than what stands before it.
  abbrev pub IsSortedBy : List A → Type ℓ
  IsSortedBy [] = Unit
  IsSortedBy (x ∷ xs) = All (λ y. lt y x ≡ false) xs × IsSortedBy xs

  insert_by-perm : (x : A) (xs : List A) → Perm (insert_by x xs) (x ∷ xs)
  unfolding insert_by
  insert_by-perm x [] = Perm.refl (x ∷ [])
  insert_by-perm x (y ∷ ys) = elim (Bool-cases (lt y x)) [
    | inl e ↦ rw e (Perm.trans (Perm.cons y (insert_by-perm x ys)) (Perm.swap x y ys))
    | inr n ↦ rw n (Perm.refl (x ∷ y ∷ ys))
  ]

  -- Sorting loses and invents nothing.
  pub sort_by-perm : (xs : List A) → Perm (sort_by xs) xs
  unfolding sort_by
  sort_by-perm [] = Perm.refl []
  sort_by-perm (x ∷ xs) = Perm.trans (insert_by-perm x (sort_by xs)) (Perm.cons x (sort_by-perm xs))

  All-insert_by : (P : A → Type 0) (x : A) (xs : List A) → P x → All P xs → All P (insert_by x xs)
  unfolding insert_by
  All-insert_by P x [] p h = (p, tt)
  All-insert_by P x (y ∷ ys) p h = elim (Bool-cases (lt y x)) [
    | inl e ↦ rw e (h.0, All-insert_by P x ys p h.1)
    | inr n ↦ rw n (p, h)
  ]

  pub All-sort_by : (P : A → Type 0) (xs : List A) → All P xs → All P (sort_by xs)
  unfolding sort_by
  All-sort_by P [] h = tt
  All-sort_by P (x ∷ xs) h = All-insert_by P x (sort_by xs) h.0 (All-sort_by P xs h.1)

  pub length-insert_by : (x : A) (xs : List A) → length (insert_by x xs) ≡ suc (length xs)
  unfolding insert_by
  length-insert_by x [] = refl
  length-insert_by x (y ∷ ys) = ground (arith, length-insert_by x ys)

  pub length-sort_by : (xs : List A) → length (sort_by xs) ≡ length xs
  unfolding sort_by
  length-sort_by [] = refl
  length-sort_by (x ∷ xs) = omega (arith, length-insert_by x (sort_by xs), length-sort_by xs)

  count-insert_by :
      (p : A → Bool) (x : A) (xs : List A) → count p (insert_by x xs) ≡ count p (x ∷ xs)
  unfolding insert_by count
  count-insert_by p x [] = refl
  count-insert_by p x (y ∷ ys) = ground (arith, count-insert_by p x ys)

  pub count-sort_by : (p : A → Bool) (xs : List A) → count p (sort_by xs) ≡ count p xs
  unfolding sort_by count
  count-sort_by p [] = refl
  count-sort_by p (x ∷ xs) = omega (arith, count-insert_by p x (sort_by xs), count-sort_by p xs)

module _ {ℓ} {A : Type ℓ} {lt : A → A → Bool} (o : IsOrder lt) where
  weaken :
      (x y : A) (xs : List A)
      → lt y x ≡ false
      → All (λ z. lt z y ≡ false) xs
      → All (λ z. lt z x ≡ false) xs
  weaken x y [] e h = tt
  weaken x y (z ∷ zs) e h = (o.le_trans x y z e h.0, weaken x y zs e h.1)

  insert_by-IsSortedBy :
      (x : A) (xs : List A) → IsSortedBy lt xs → IsSortedBy lt (insert_by lt x xs)
  unfolding insert_by
  insert_by-IsSortedBy x [] h = (tt, tt)
  insert_by-IsSortedBy x (y ∷ ys) h = elim (Bool-cases (lt y x)) [
    | inl e ↦ rw e (
      All-insert_by lt (λ z. lt z y ≡ false) x ys (o.asym y x e) h.0,
      insert_by-IsSortedBy x ys h.1,
    )
    | inr n ↦ rw n ((n, weaken x y ys n h.0), h)
  ]

  -- Sorting sorts.
  pub sort_by-IsSortedBy : (xs : List A) → IsSortedBy lt (sort_by lt xs)
  unfolding sort_by
  sort_by-IsSortedBy [] = tt
  sort_by-IsSortedBy (x ∷ xs) = insert_by-IsSortedBy x (sort_by lt xs) (sort_by-IsSortedBy xs)

-- A comparison by a first key, and where that is equal by the rest.
abbrev pub lex {ℓ} : {A : Type ℓ} → (eq first rest : A → A → Bool) → A → A → Bool
lex eq first rest a b = if not (eq a b) then first a b else rest a b

pub lex-IsOrder {ℓ} :
    {A : Type ℓ} (eq first rest : A → A → Bool)
    → ((a b : A) → eq a b ≡ (not (first a b) && not (first b a)))
    → IsOrder first
    → IsOrder rest
    → IsOrder (lex eq first rest)
lex-IsOrder eq first rest e o r = record {
  asym = λ a b h. ground (arith, e a b, e b a, o.asym a b, r.asym a b);
  le_trans = λ a b c h k. ground (
    arith,
    e a b,
    e b a,
    e b c,
    e c b,
    e a c,
    e c a,
    o.le_trans a b c,
    o.le_trans b c a,
    o.le_trans c a b,
    r.le_trans a b c,
  );
}

pub IsOrder-pull {ℓ κ} :
    {A : Type ℓ} {B : Type κ} (f : A → B) {lt : B → B → Bool}
    → IsOrder lt
    → IsOrder (λ (a b : A). lt (f a) (f b))
IsOrder-pull f o = record {
  asym = λ a b. o.asym (f a) (f b);
  le_trans = λ a b c. o.le_trans (f a) (f b) (f c);
}

pub ltb-IsOrder : IsOrder ltb
ltb-IsOrder = record { asym = λ a b h. ground arith; le_trans = λ a b c h k. ground arith }

pub nat_eq-eq : (a b : ℕ) → nat_eq a b ≡ (not (ltb a b) && not (ltb b a))
nat_eq-eq a b = ground arith

pub ==-eq : (s t : Text) → (s == t) ≡ (not (text_lt s t) && not (text_lt t s))
==-eq s t = ground (arith, ==_iff s t, text_lt_antisym s t, text_lt_irrefl s)

module _ {A : Type 0} (lt : A → A → Bool) where
  In-insert_by_self : (x : A) (xs : List A) → In x (insert_by lt x xs)
  unfolding insert_by
  In-insert_by_self x [] = inl refl
  In-insert_by_self x (y ∷ ys) = elim (Bool-cases (lt y x)) [
    | inl e ↦ rw e (inr (In-insert_by_self x ys))
    | inr n ↦ rw n (inl refl)
  ]

  In-insert_by : (x z : A) (xs : List A) → In z xs → In z (insert_by lt x xs)
  unfolding insert_by
  In-insert_by x z [] h = elim h [ ]
  In-insert_by x z (y ∷ ys) h = elim (Bool-cases (lt y x)) [
    | inl e ↦ rw e (elim h [ inl p ↦ inl p | inr m ↦ inr (In-insert_by x z ys m) ])
    | inr n ↦ rw n (inr h)
  ]

  pub In-sort_by : (z : A) (xs : List A) → In z xs → In z (sort_by lt xs)
  unfolding sort_by
  In-sort_by z [] h = h
  In-sort_by z (x ∷ xs) (inl e) = rw e (In-insert_by_self x (sort_by lt xs))
  In-sort_by z (x ∷ xs) (inr h) = In-insert_by x z (sort_by lt xs) (In-sort_by z xs h)

elem-insert_by :
    (lt : Text → Text → Bool) (v x : Text) (xs : List Text)
    → elem v (insert_by lt x xs) ≡ (x == v || elem v xs)
unfolding insert_by elem
elem-insert_by lt v x [] = refl
elem-insert_by lt v x (y ∷ ys) = ground (arith, elem-insert_by lt v x ys)

pub elem-sort_by :
    (lt : Text → Text → Bool) (v : Text) (xs : List Text) → elem v (sort_by lt xs) ≡ elem v xs
unfolding sort_by elem
elem-sort_by lt v [] = refl
elem-sort_by lt v (x ∷ xs) =
    ground (arith, elem-insert_by lt v x (sort_by lt xs), elem-sort_by lt v xs)

Distinct-insert_by :
    (lt : Text → Text → Bool) (x : Text) (xs : List Text)
    → elem x xs ≡ false
    → Distinct xs
    → Distinct (insert_by lt x xs)
unfolding insert_by elem
Distinct-insert_by lt x [] n h = (refl, tt)
Distinct-insert_by lt x (y ∷ ys) n h =
    ground (arith, elem-insert_by lt y x ys, ==_iff x y, ==_iff y x, Distinct-insert_by lt x ys)

-- What stands once stands once after sorting.
pub Distinct-sort_by :
    (lt : Text → Text → Bool) (xs : List Text) → Distinct xs → Distinct (sort_by lt xs)
unfolding sort_by
Distinct-sort_by lt [] h = tt
Distinct-sort_by lt (x ∷ xs) h =
    Distinct-insert_by lt x (sort_by lt xs) (elem-sort_by lt x xs ∙ h.0)
      (Distinct-sort_by lt xs h.1)

pub text_lt-IsOrder : IsOrder text_lt
text_lt-IsOrder = record { asym = text_lt_asym; le_trans = text_le_trans }

-- sort.Strings
unfoldable pub sort_strings : List Text → List Text
unfolding sort_by
sort_strings = sort_by text_lt
