-- ===== src/Chat/Tools/Validate/Exact.antt =====
-- backend/internal/chat/tools/validate.go: Validate finds a problem exactly where there is one.
use mathlib.Core.Path.{subst}
use urara_vision.Base.{
  ◌≤◌, ◌≡◌, ◌⊎◌, ◌↔◌, refl, sym, ap, ◌∙◌, inl, inr, Bool, true, false, not, Option, none, some,
  List, [], ◌∷◌, ◌++◌, ◌&&◌, arith, All, In, keep, is_empty, length, map, if◌then◌else◌, Bool-cases,
  Option-cases, some-injective,
}
use urara_vision.Base.Text.{Text, elem, elem→In, In→elem, trim_space, ==_iff, ==_refl}
use urara_vision.Base.Maps.{get}
use urara_vision.Base.Sort.{sort_strings, elem-sort_by}
use urara_vision.Base.Text.{text_lt}
use urara_vision.Base.Json.{
  Value, null, num, str, arr, obj, Items, no_items, Members, no_members, find, member_keys, int_of,
  list_of,
}
use urara_vision.Chat.Tools.Fields.{Field, Kind, kind_string, kind_int, kind_strings, all_fields}
use urara_vision.Chat.Tools.Checks.{is_null, not_int, check_kind, check}
use urara_vision.Chat.Tools.Validate.{
  fine, field_name, extra_keys, extra_problems, field_problems, spec_problems, all_problems,
  validate_value, validate_args, validate_spec, validate,
}
use urara_vision.Chat.Tools.Validate.Accepts.{
  AllStrings, Takes, Fits, IsAccepted, cons-nil, check_number_fine, check_strings_fine,
  check_enum_fine,
}

append_nil : {A : Type 0} (xs ys : List A) → xs ++ ys ≡ [] → (xs ≡ []) × (ys ≡ [])
append_nil [] ys h = (refl, h)
append_nil (x ∷ xs) ys h = absurd (cons-nil h)

is_null_eq : (v : Value) → is_null v ≡ true → v ≡ null
is_null_eq null h = refl
is_null_eq v h = cc

text_or : Value → Text
text_or (num t) = t
text_or (str t) = t
text_or v = []

items_or : Value → Items
items_or (arr vs) = vs
items_or v = no_items

-- A list that a field takes.
abbrev IsList : Field → Items → Type 0
IsList f vs = AllStrings vs × (f.min ≤ length (list_of vs)) × (length (list_of vs) ≤ f.max)

no_extra : (tool : Text) (ms : Members) (ks : List Text) → extra_problems tool ms ks ≡ [] → ks ≡ []
unfolding extra_problems
no_extra tool ms [] h = refl
no_extra tool ms (k ∷ ks) h = absurd (cons-nil h)

no_elem : (ks : List Text) → ((k : Text) → elem k ks ≡ false) → ks ≡ []
unfolding elem
no_elem [] h = refl
no_elem (k ∷ ks) h = absurd (ground (arith, h k, ==_refl k))

abbrev is_unknown : List Field → Text → Bool
is_unknown spec k = not (elem k (map field_name spec))

elem_unknown :
    (spec : List Field) (k : Text) (ks : List Text)
    → elem k (keep (is_unknown spec) ks) ≡ (elem k ks && is_unknown spec k)
unfolding elem keep
elem_unknown spec k [] = refl
elem_unknown spec k (j ∷ ks) = ground (arith, elem_unknown spec k ks, ==_iff j k)

module _ (fr : Text → Bool) (wt : Text → Text) where
  not_int_cons : (f : Field) (v : Value) → not_int fr wt f v ≡ [] → ⊥
  unfolding not_int
  not_int_cons f (num t) h = ground arith
  not_int_cons f v h = cons-nil h

  check_kind_fine : (k : Kind) (f : Field) (v : Value) → (check_kind fr wt k f v ≡ []) ↔ Takes k f v
  unfolding check_kind text_or items_or
  check_kind_fine kind_int f (num t) = (
    λ h. let (n, e, x, y) = (check_number_fine fr wt f t (int_of t)).0 h in (t, n, refl, e, x, y),
    λ (u, n, q, e, x, y).
        (check_number_fine fr wt f t (int_of t)).1 (n, ap int_of (ap text_or q) ∙ e, x, y),
  )
  check_kind_fine kind_strings f (arr vs) = (
    λ h. let (x, y, z) = (check_strings_fine f (arr vs) vs).0 h in (vs, refl, x, y, z),
    λ (us, q, x, y, z).
        (check_strings_fine f (arr vs) vs).1 (subst (IsList f) (sym (ap items_or q)) (x, y, z)),
  )
  check_kind_fine kind_string f (str s) = (
    λ h. (s, refl, (check_enum_fine f (str s) s).0 h),
    λ (u, q, x).
        (check_enum_fine f (str s) s).1
          (subst (λ z. (f.enum ≡ []) ⊎ In z f.enum) (sym (ap text_or q)) x),
  )
  check_kind_fine kind_int f v =
      (λ h. absurd (not_int_cons f v h), λ w. let q = w.2 in absurd (ground arith))
  check_kind_fine kind_strings f v =
      (λ h. absurd (cons-nil h), λ w. let q = w.1 in absurd (ground arith))
  check_kind_fine kind_string f v =
      (λ h. absurd (cons-nil h), λ w. let q = w.1 in absurd (ground arith))

  check_fine : (f : Field) (v : Value) → (check fr wt f v ≡ []) ↔ Takes f.kind f v
  unfolding check
  check_fine f v = check_kind_fine f.kind f v

  field_fine :
      (whole : Value) (f : Field) (o : Option Value)
      → (field_problems fr wt whole f o ≡ []) ↔ Fits f o
  unfolding field_problems
  field_fine whole f none = (λ h. ground arith, λ h. ground arith)
  field_fine whole f (some v) = elim (Bool-cases (f.nullable && is_null v)) [
    | inl e ↦ (λ h. inl (ground arith, is_null_eq v (ground arith)), λ h. rw e refl)
    | inr e ↦ (
      λ h. inr ((check_fine f v).0 (ground arith)),
      λ h. elim h [ inl n ↦ absurd (ground arith) | inr t ↦ rw e ((check_fine f v).1 t) ],
    )
  ]

  spec_fine :
      (spec : List Field) (whole : Value) (ms : Members)
      → (spec_problems fr wt spec whole ms ≡ []) ↔ All (λ (f : Field). Fits f (find f.name ms)) spec
  unfolding spec_problems
  spec_fine [] whole ms = (λ h. tt, λ h. refl)
  spec_fine (f ∷ fs) whole ms =
      let one = field_fine whole f (find f.name ms) in
      let rest = spec_fine fs whole ms in
      (
        λ h. let (a, b) = append_nil _ _ h in (one.0 a, rest.0 b),
        λ h. rw (one.1 h.0, rest.1 h.1) refl,
      )

  extra_fine :
      (tool : Text) (spec : List Field) (ms : Members)
      → (extra_problems tool ms (extra_keys spec ms) ≡ [])
        ↔ ((k : Text) → In k (member_keys ms) → In k (map field_name spec))
  unfolding extra_keys sort_strings elem extra_problems
  extra_fine tool spec ms = (
    λ h k m. elim (Bool-cases (elem k (map field_name spec))) [
      | inl e ↦ elem→In k (map field_name spec) e
      | inr e ↦
          let found = elem_unknown spec k (member_keys ms) in
          let sorted = elem-sort_by text_lt k (keep (is_unknown spec) (member_keys ms)) in
          let none_left = ap (elem k) (no_extra tool ms (extra_keys spec ms) h) in
          absurd (ground (arith, In→elem k (member_keys ms) m))
    ],
    λ h. ap (extra_problems tool ms) (
        no_elem (extra_keys spec ms) (λ k.
          let found = elem_unknown spec k (member_keys ms) in
          let sorted = elem-sort_by text_lt k (keep (is_unknown spec) (member_keys ms)) in
          elim (Bool-cases (elem k (member_keys ms))) [
            | inl e ↦
                ground (arith, In→elem k (map field_name spec) (h k (elem→In k (member_keys ms) e)))
            | inr e ↦ ground arith
          ])),
  )

  all_fine :
      (tool : Text) (spec : List Field) (ms : Members)
      → (all_problems fr wt tool spec ms ≡ []) ↔ IsAccepted spec ms
  unfolding all_problems
  all_fine tool spec ms =
      let fields = spec_fine spec (obj ms) ms in
      let extra = extra_fine tool spec ms in
      (
        λ h. let (a, b) = append_nil _ _ h in record { fits = fields.0 a; known = extra.0 b },
        λ h. rw (fields.1 h.fits, extra.1 h.known) refl,
      )

-- The object that arguments stand for: none are an empty one.
unfoldable pub object_of : Option Value → Option Members
object_of (some (obj ms)) = some ms
object_of v = none

unfoldable pub arguments : (Text → Option Value) → Text → Option Members
unfolding object_of
arguments unmarshal args =
    if is_empty (trim_space args) then some no_members else object_of (unmarshal args)

module _ (fr : Text → Bool) (wt : Text → Text) where
  checked_fine :
      (tool : Text) (spec : List Field) (ms : Members)
      → (validate_value fr wt tool spec [] (some (obj ms)) ≡ fine) ↔ IsAccepted spec ms
  unfolding validate_value
  checked_fine tool spec ms = elim (Bool-cases (is_empty (all_problems fr wt tool spec ms))) [
    | inl e ↦ (λ h. (all_fine fr wt tool spec ms).0 (ground arith), λ h. rw e refl)
    | inr e ↦ (
      λ h. absurd (ground arith),
      λ h. let q = (all_fine fr wt tool spec ms).1 h in absurd (ground arith),
    )
  ]

  value_fine :
      (tool : Text) (spec : List Field) (args : Text) (v : Option Value)
      → (validate_value fr wt tool spec args v ≡ fine)
        ↔ ((ms : Members) × (object_of v ≡ some ms) × IsAccepted spec ms)
  unfolding validate_value object_of
  value_fine tool spec args none = (λ h. absurd (ground arith), λ (ms, e, a). absurd (ground arith))
  value_fine tool spec args (some (obj ms)) = (
    λ h. (ms, refl, (checked_fine tool spec ms).0 h),
    λ (ns, e, a).
        (checked_fine tool spec ms).1 (subst (IsAccepted spec) (sym (some-injective e)) a),
  )
  value_fine tool spec args (some v) =
      (λ h. absurd (ground arith), λ (ms, e, a). absurd (ground arith))

  args_fine :
      (unmarshal : Text → Option Value) (tool : Text) (spec : List Field) (args : Text)
      → (validate_args fr wt unmarshal tool spec args ≡ fine)
        ↔ ((ms : Members) × (arguments unmarshal args ≡ some ms) × IsAccepted spec ms)
  unfolding validate_args arguments validate_value
  args_fine unmarshal tool spec args = elim (Bool-cases (is_empty (trim_space args))) [
    | inl e ↦ rw e (value_fine tool spec args (some (obj no_members)))
    | inr e ↦ rw e (value_fine tool spec args (unmarshal args))
  ]

-- Validate accepts exactly the calls of a known tool whose arguments are an object in which each field
-- is missing, is null, or has a value only as its kind, its bounds and its choices allow, and which
-- has no other member; blank arguments are the empty object.
pub validate_lem :
    (fractional : Text → Bool) (whole_text : Text → Text) (unmarshal : Text → Option Value)
    (tool args : Text)
    → (validate fractional whole_text unmarshal tool args ≡ fine) ↔ (
        (spec : List Field) × (ms : Members) × (get tool all_fields ≡ some spec)
        × (arguments unmarshal args ≡ some ms)
        × IsAccepted spec ms)
unfolding validate validate_spec
validate_lem fr wt unmarshal tool args = elim (Option-cases (get tool all_fields)) [
  | inl e ↦ rw e (λ h. absurd (ground arith), λ (spec, ms, q, r, t). absurd (ground arith))
  | inr (spec, e) ↦
      let whole = args_fine fr wt unmarshal tool spec args in
      rw e (
        λ h. let (ms, a, b) = whole.0 h in (spec, ms, refl, a, b),
        λ (s, ms, q, a, b).
            whole.1 (ms, a, subst (λ x. IsAccepted x ms) (sym (some-injective q)) b),
      )
]
