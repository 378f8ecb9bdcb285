-- ===== src/Chat/Tools/Validate/Accepts.antt =====
-- backend/internal/chat/tools/validate.go: which arguments pass, said without the checks.
use urara_vision.Base.{
  ℕ, suc, ◌≤◌, ◌≡◌, ◌⊎◌, ◌↔◌, refl, ap, inl, inr, Bool, true, false, Option, none, some, List, [],
  ◌∷◌, arith, All, In, is_empty, length, map, Bool-cases,
}
use urara_vision.Base.Text.{Text, elem→In, In→elem}
use urara_vision.Base.Json.{
  Value, null, num, str, arr, Items, no_items, item, Members, find, member_keys, list_of, ℤ, pos,
  negsuc, int_of, int_below, int_above,
}
use urara_vision.Chat.Tools.Fields.{Field, Kind, kind_string, kind_int, kind_strings}
use urara_vision.Chat.Tools.Checks.{
  is_string, check_int, check_items, check_size, check_strings, check_enum, not_int, check_number,
}
use urara_vision.Chat.Tools.Validate.{field_name}

abbrev pub AllStrings : Items → Type 0
AllStrings no_items = Unit
AllStrings (item v vs) = (is_string v ≡ true) × AllStrings vs

-- A value that a field of a kind takes.
abbrev pub Takes : Kind → Field → Value → Type 0
Takes kind_int f v =
    (t : Text) × (n : ℕ) × (v ≡ num t) × (int_of t ≡ some (pos n)) × (f.min ≤ n) × (n ≤ f.max)
Takes kind_strings f v =
    (vs : Items) × (v ≡ arr vs)
    × AllStrings vs
    × (f.min ≤ length (list_of vs))
    × (length (list_of vs) ≤ f.max)
Takes kind_string f v = (s : Text) × (v ≡ str s) × ((f.enum ≡ []) ⊎ In s f.enum)

-- A field that is missing or null only where it may be, and has a value that it takes otherwise.
abbrev pub Fits : Field → Option Value → Type 0
Fits f none = f.required ≡ false
Fits f (some v) = ((f.nullable ≡ true) × (v ≡ null)) ⊎ Takes f.kind f v

-- An object that has what the fields ask for, and nothing else.
pub record IsAccepted (spec : List Field) (ms : Members) : Type 0 where
  pub fits : All (λ (f : Field). Fits f (find f.name ms)) spec
  pub known : (k : Text) → In k (member_keys ms) → In k (map field_name spec)

pub cons-nil : {A : Type 0} {x : A} {xs : List A} → x ∷ xs ≡ [] → ⊥
cons-nil h = cc

neg_pos : {m n : ℕ} → negsuc n ≡ pos m → ⊥
neg_pos h = cc

pos_or : ℤ → ℕ
pos_or (pos n) = n
pos_or (negsuc n) = 0

pos-injective : {m n : ℕ} → pos m ≡ pos n → m ≡ n
unfolding pos_or
pos-injective h = ap pos_or h

check_int_fine :
    (f : Field) (v : Value) (n : ℤ)
    → (check_int f v n ≡ []) ↔ ((m : ℕ) × (n ≡ pos m) × (f.min ≤ m) × (m ≤ f.max))
unfolding check_int int_below int_above
check_int_fine f v (pos n) = (
  λ h. (n, refl, ground arith, ground arith),
  λ (m, e, x, y). let q = pos-injective e in ground arith,
)
check_int_fine f v (negsuc n) = (λ h. absurd (cons-nil h), λ (m, e, x, y). absurd (neg_pos e))

pub check_number_fine :
    (fr : Text → Bool) (wt : Text → Text) (f : Field) (t : Text) (o : Option ℤ)
    → (check_number fr wt f t o ≡ []) ↔ ((m : ℕ) × (o ≡ some (pos m)) × (f.min ≤ m) × (m ≤ f.max))
unfolding check_number not_int
check_number_fine fr wt f t none =
    (λ h. absurd (ground arith), λ (m, e, x, y). absurd (ground arith))
check_number_fine fr wt f t (some n) = (
  λ h. let (m, e, x, y) = (check_int_fine f (num t) n).0 h in (m, ap some e, x, y),
  λ (m, e, x, y). (check_int_fine f (num t) n).1 (m, ground arith, x, y),
)

check_items_fine : (f : Field) (i : ℕ) (vs : Items) → (check_items f i vs ≡ []) ↔ AllStrings vs
unfolding check_items
check_items_fine f i no_items = (λ h. tt, λ h. refl)
check_items_fine f i (item v vs) =
    let rest = check_items_fine f (suc i) vs in
    elim (Bool-cases (is_string v)) [
      | inl e ↦ (λ h. (e, rest.0 (ground arith)), λ h. rw e (rest.1 h.1))
      | inr e ↦ (λ h. absurd (ground arith), λ h. absurd (ground arith))
    ]

pub check_strings_fine :
    (f : Field) (v : Value) (vs : Items)
    → (check_strings f v vs ≡ [])
      ↔ (AllStrings vs × (f.min ≤ length (list_of vs)) × (length (list_of vs) ≤ f.max))
unfolding check_strings check_size
check_strings_fine f v vs = elim (Bool-cases (is_empty (check_items f 0 vs))) [
  | inl e ↦ (
    λ h. ((check_items_fine f 0 vs).0 (ground arith), ground arith, ground arith),
    λ h. ground arith,
  )
  | inr e ↦ (
    λ h. absurd (ground arith),
    λ h. let q = (check_items_fine f 0 vs).1 h.0 in absurd (ground arith),
  )
]

pub check_enum_fine :
    (f : Field) (v : Value) (s : Text) → (check_enum f v s ≡ []) ↔ ((f.enum ≡ []) ⊎ In s f.enum)
unfolding check_enum
check_enum_fine f v s = (
  λ h. elim (Bool-cases (is_empty f.enum)) [
    | inl e ↦ inl (ground arith)
    | inr e ↦ inr (elem→In s f.enum (ground arith))
  ],
  λ h. elim h [ inl e ↦ ground arith | inr m ↦ let q = In→elem s f.enum m in ground arith ],
)
