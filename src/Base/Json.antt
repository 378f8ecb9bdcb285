-- ===== src/Base/Json.antt =====
-- The values of JSON, as encoding/json reads them into `any` with UseNumber: a number is its text,
-- an object is its members in the order of their keys. And the outcome of what can fail.
use mathlib.Core.Path.{◌≡◌, refl, ap}
use mathlib.Core.Logic.{◌⊎◌, inl, inr}
use mathlib.Core.Bool.{Bool, true, false, ◌&&◌}
use mathlib.Core.Option.{Option, none, some}
use mathlib.Core.List.{List, [], ◌∷◌, ◌++◌}
use Prim.Native.Nat.{ℕ, zero, suc, ◌+◌, ◌-◌, ◌*◌}
use urara_vision.Base.Tests.{ltb, leb, nat_eq, if◌then◌else◌}
use urara_vision.Base.Text.{Text, codes, ◌==◌, text_lt}
use urara_vision.Base.Print.{itoa}

-- A value or the text of an error.
pub data Result {ℓ} (A : Type ℓ) : Type ℓ where
  ok : A → Result A
  fault : Text → Result A

pub Result-cases {ℓ} :
    {A : Type ℓ} (r : Result A) → ((a : A) × (r ≡ ok a)) ⊎ ((e : Text) × (r ≡ fault e))
Result-cases (ok a) = inl (a, refl)
Result-cases (fault e) = inr (e, refl)

pub fault-ok {ℓ} : {A : Type ℓ} {e : Text} {a : A} → fault e ≡ ok a → ⊥
fault-ok h = cc

value_or {ℓ} : {A : Type ℓ} → A → Result A → A
value_or a (ok b) = b
value_or a (fault e) = a

pub ok-injective {ℓ} : {A : Type ℓ} {a b : A} → ok a ≡ ok b → a ≡ b
unfolding value_or
ok-injective {a} h = ap (value_or a) h

mutual
  pub data Value : Type 0 where
    null : Value
    bool : Bool → Value
    num : Text → Value
    str : Text → Value
    arr : Items → Value
    obj : Members → Value

  pub data Items : Type 0 where
    no_items : Items
    item : Value → Items → Items

  pub data Members : Type 0 where
    no_members : Members
    member : Text → Value → Members → Members

unfoldable pub items_of : List Value → Items
items_of [] = no_items
items_of (v ∷ vs) = item v (items_of vs)

unfoldable pub list_of : Items → List Value
list_of no_items = []
list_of (item v vs) = v ∷ list_of vs

-- obj[k], where there is one
unfoldable pub find : Text → Members → Option Value
find k no_members = none
find k (member j v ms) = if j == k then some v else find k ms

-- m[k] = v, at its place in the order of the keys
unfoldable pub set_member : Text → Value → Members → Members
set_member k v no_members = member k v no_members
set_member k v (member j w ms) =
    let rest = set_member k v ms in
    if j == k
    then member k v ms
    else if text_lt k j
    then member k v (member j w ms)
    else member j w rest

-- delete(m, k)
unfoldable pub delete_member : Text → Members → Members
delete_member k no_members = no_members
delete_member k (member j v ms) =
    let rest = delete_member k ms in if j == k then rest else member j v rest

-- A map literal.
unfoldable pub members_of : List (Text × Value) → Members
unfolding set_member
members_of [] = no_members
members_of ((k, v) ∷ kvs) = set_member k v (members_of kvs)

unfoldable pub member_keys : Members → List Text
member_keys no_members = []
member_keys (member k v ms) = k ∷ member_keys ms

abbrev pub number : ℕ → Value
number n = num (itoa n)

-- The integers, over the native numbers.
pub data ℤ : Type 0 where
  pos : ℕ → ℤ
  negsuc : ℕ → ℤ

unfoldable pub digits_value : ℕ → Text → Option ℕ
digits_value acc [] = some acc
digits_value acc (c ∷ s) =
    let rest = digits_value (acc * 10 + (c - b'0')) s in
    if leb b'0' c && leb c b'9' then rest else none

abbrev pub int_max : ℕ
int_max = 9223372036854775807

unfoldable pub to_int : Bool → Option ℕ → Option ℤ
to_int neg none = none
to_int true (some zero) = some (pos zero)
to_int true (some (suc n)) = if leb n int_max then some (negsuc n) else none
to_int false (some n) = if leb n int_max then some (pos n) else none

-- What json.Unmarshal reads into an int: a literal of digits, which fits in 64 bits.
unfoldable pub int_of : Text → Option ℤ
unfolding digits_value to_int
int_of [] = none
int_of (c ∷ s) =
    if nat_eq c b'-' then to_int true (digits_value 0 s) else to_int false (digits_value 0 (c ∷ s))

-- %d
unfoldable pub int_text : ℤ → Text
int_text (pos n) = itoa n
int_text (negsuc n) = codes "-" ++ itoa (suc n)

-- n < b and b < n, for a bound b
unfoldable pub int_below : ℤ → ℕ → Bool
int_below (pos n) b = ltb n b
int_below (negsuc n) b = true

unfoldable pub int_above : ℤ → ℕ → Bool
int_above (pos n) b = ltb b n
int_above (negsuc n) b = false
