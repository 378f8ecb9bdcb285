-- ===== src/Base/Maps.antt =====
-- Go maps with string keys, as association lists: the order of the entries stands for the order in
-- which a `range` loop happens to visit them.
use Prim.Native.Nat.{suc}
use mathlib.Core.Path.{◌≡◌, refl}
use mathlib.Core.Logic.{inl, inr}
use mathlib.Core.Bool.{true, false, ◌||◌}
use mathlib.Core.List.{List, [], ◌∷◌}
use mathlib.Core.Option.{Option, none, some}
use native.Mathlib.Omega.{arith}
use urara_vision.Base.Tests.{if◌then◌else◌, Option-cases}
use urara_vision.Base.Lists.{length}
use urara_vision.Base.Text.{Text, ◌==◌, ==_iff, elem}

abbrev pub Map {ℓ} : Type ℓ → Type ℓ
Map V = List (Text × V)

module _ {ℓ} {V : Type ℓ} where
  -- v, ok := m[k]
  unfoldable pub get : Text → Map V → Option V
  get k [] = none
  get k ((j, v) ∷ m) = if j == k then some v else get k m

  -- m[k], which is the zero value where the key is missing
  unfoldable pub get_or : Text → Map V → V → V
  get_or k [] d = d
  get_or k ((j, v) ∷ m) d = if j == k then v else get_or k m d

  -- m[k] = v
  unfoldable pub put : Text → V → Map V → Map V
  put k v [] = (k, v) ∷ []
  put k v ((j, w) ∷ m) = if j == k then (j, v) ∷ m else (j, w) ∷ put k v m

  -- delete(m, k)
  unfoldable pub remove : Text → Map V → Map V
  remove k [] = []
  remove k ((j, v) ∷ m) = let rest = remove k m in if j == k then rest else (j, v) ∷ rest

  -- the keys that `range` visits
  unfoldable pub keys : Map V → List Text
  keys [] = []
  keys ((j, v) ∷ m) = j ∷ keys m

  pub get-put :
      (k j : Text) (v : V) (m : Map V) → get j (put k v m) ≡ (if k == j then some v else get j m)
  unfolding get put
  get-put k j v [] = refl
  get-put k j v ((i, w) ∷ m) = ground (arith, ==_iff k j, ==_iff i k, ==_iff i j, get-put k j v m)

  pub get-remove :
      (k j : Text) (m : Map V) → get j (remove k m) ≡ (if k == j then none else get j m)
  unfolding get remove
  get-remove k j [] = ground arith
  get-remove k j ((i, w) ∷ m) = ground (arith, ==_iff k j, ==_iff i k, ==_iff i j, get-remove k j m)

  pub get_or-eq :
      (k : Text) (m : Map V) (d : V) → get_or k m d ≡ elim (get k m) [ some v ↦ v | none ↦ d ]
  unfolding get get_or
  get_or-eq k [] d = refl
  get_or-eq k ((j, v) ∷ m) d = ground (arith, get_or-eq k m d)

  pub get_or-put :
      (k j : Text) (v d : V) (m : Map V)
      → get_or j (put k v m) d ≡ (if k == j then v else get_or j m d)
  unfolding get_or put
  get_or-put k j v d [] = refl
  get_or-put k j v d ((i, w) ∷ m) =
      ground (arith, ==_iff i k, ==_iff k j, ==_iff i j, get_or-put k j v d m)

  pub elem-keys-put :
      (j k : Text) (v : V) (m : Map V) → elem j (keys (put k v m)) ≡ (k == j || elem j (keys m))
  unfolding elem keys put
  elem-keys-put j k v [] = ground arith
  elem-keys-put j k v ((i, w) ∷ m) =
      ground (arith, ==_iff i k, ==_iff k j, ==_iff i j, elem-keys-put j k v m)

  -- A key is visited exactly when it is there.
  pub get_of_not_elem : (k : Text) (m : Map V) → elem k (keys m) ≡ false → get k m ≡ none
  unfolding get keys elem
  get_of_not_elem k [] h = refl
  get_of_not_elem k ((j, v) ∷ m) h = ground (arith, get_of_not_elem k m)

  pub elem_of_get : (k : Text) (m : Map V) (v : V) → get k m ≡ some v → elem k (keys m) ≡ true
  unfolding get keys elem
  elem_of_get k [] v h = cc
  elem_of_get k ((j, w) ∷ m) v h = ground (arith, elem_of_get k m v)

  pub not_elem_of_get : (k : Text) (m : Map V) → get k m ≡ none → elem k (keys m) ≡ false
  unfolding get keys elem
  not_elem_of_get k [] h = refl
  not_elem_of_get k ((j, w) ∷ m) h = ground (arith, not_elem_of_get k m)

  pub get_of_elem : (k : Text) (m : Map V) → elem k (keys m) ≡ true → (v : V) × (get k m ≡ some v)
  get_of_elem k m h = elim (Option-cases (get k m)) [
    | inl e ↦ absurd (ground (arith, not_elem_of_get k m e))
    | inr found ↦ found
  ]

  pub length-put :
      (k : Text) (v : V) (m : Map V)
      → length (put k v m) ≡ (if elem k (keys m) then length m else suc (length m))
  unfolding put keys elem
  length-put k v [] = refl
  length-put k v ((j, w) ∷ m) = ground (arith, length-put k v m)

-- No key stands twice. Every map that is made by `put` has this.
abbrev pub Distinct : List Text → Type 0
Distinct [] = Unit
Distinct (k ∷ ks) = (elem k ks ≡ false) × Distinct ks

module _ {ℓ} {V : Type ℓ} where
  pub put-Distinct :
      (k : Text) (v : V) (m : Map V) → Distinct (keys m) → Distinct (keys (put k v m))
  unfolding put keys elem
  put-Distinct k v [] h = (refl, tt)
  put-Distinct k v ((j, w) ∷ m) h =
      ground (arith, put-Distinct k v m, elem-keys-put j k v m, ==_iff j k, ==_iff k j)
