-- ===== src/Chat/Tools/Checks.antt =====
-- backend/internal/chat/tools/validate.go: the check of one value for a field.
-- `fractional` and `whole_text` stand for what is read of a number as a float64.
use urara_vision.Base.{
  ℕ, suc, Bool, true, false, not, Option, none, some, List, [], ◌∷◌, ◌++◌, ◌&&◌, ltb, nat_eq,
  is_empty, length, if◌then◌else◌,
}
use urara_vision.Base.Text.{Text, codes, elem}
use urara_vision.Base.Maps.{Map}
use urara_vision.Base.Print.{itoa, quote}
use urara_vision.Base.Json.{
  Value, null, num, str, arr, Items, no_items, item, number, list_of, ℤ, int_of, int_text,
  int_below, int_above,
}
use urara_vision.Chat.Tools.Fields.{
  at_name, at_index, Problem, Kind, kind_string, kind_int, kind_strings, Field,
}

abbrev plural : ℕ → Text
plural n = if nat_eq n 1 then [] else codes "s"

abbrev single_quoted : Text → Text
single_quoted v = codes "'" ++ v ++ codes "'"

-- quotedList: 'a', 'b' or 'c'
unfoldable pub quoted_list : List Text → Text
quoted_list [] = []
quoted_list (q ∷ []) = single_quoted q
quoted_list (q ∷ r ∷ []) = single_quoted q ++ codes " or " ++ single_quoted r
quoted_list (q ∷ r ∷ rs) = single_quoted q ++ codes ", " ++ quoted_list (r ∷ rs)

abbrev pub is_null : Value → Bool
is_null null = true
is_null v = false

abbrev pub is_string : Value → Bool
is_string (str s) = true
is_string v = false

-- A problem with a field, without a context.
abbrev pub problem : Text → Text → Text → Value → Text → Problem
problem k name m input why = record {
  kind = k;
  loc = at_name name ∷ [];
  msg = m;
  input = input;
  ctx = [];
  reason = name ++ why;
}

abbrev bounded : Text → Field → Text → Text → Text
bounded verb f unit got =
    verb ++ itoa f.min ++ codes " and " ++ itoa f.max ++ unit ++ codes ", got " ++ got

-- The number of an integer field.
unfoldable pub check_int : Field → Value → ℤ → List Problem
check_int f input n =
    let why = bounded (codes ": must be between ") f [] (int_text n) in
    if int_below n f.min
    then record (problem (codes "greater_than_equal") f.name
        (codes "Input should be greater than or equal to " ++ itoa f.min) input why) {
          ctx = (codes "ge", number f.min) ∷ [];
        }
      ∷ []
    else if int_above n f.max
    then record (problem (codes "less_than_equal") f.name
        (codes "Input should be less than or equal to " ++ itoa f.max) input why) {
          ctx = (codes "le", number f.max) ∷ [];
        }
      ∷ []
    else []

-- The items of a list that are no strings, from an index on.
unfoldable pub check_items : Field → ℕ → Items → List Problem
check_items f i no_items = []
check_items f i (item v vs) =
    let rest = check_items f (suc i) vs in
    if is_string v
    then rest
    else record (problem (codes "string_type") f.name (codes "Input should be a valid string") v
        (codes "[" ++ itoa i ++ codes "]: must be a string")) {
          loc = at_name f.name ∷ at_index i ∷ [];
        }
      ∷ rest

abbrev size_msg : Text → ℕ → ℕ → Text
size_msg most bound n =
    codes "List should have at "
    ++ most
    ++ codes " "
    ++ itoa bound
    ++ codes " item"
    ++ plural bound
    ++ codes " after validation, not "
    ++ itoa n

abbrev size_ctx : Text → ℕ → ℕ → Map Value
size_ctx key bound n =
    (codes "field_type", str (codes "List"))
    ∷ (codes "actual_length", number n)
    ∷ (key, number bound)
    ∷ []

unfoldable pub check_size : Field → Value → ℕ → List Problem
check_size f input n =
    let why = bounded (codes ": must have between ") f (codes " items") (itoa n) in
    if ltb n f.min
    then record (problem (codes "too_short") f.name (size_msg (codes "least") f.min n) input why) {
      ctx = size_ctx (codes "min_length") f.min n;
    }
      ∷ []
    else if ltb f.max n
    then record (problem (codes "too_long") f.name (size_msg (codes "most") f.max n) input why) {
      ctx = size_ctx (codes "max_length") f.max n;
    }
      ∷ []
    else []

unfoldable pub check_strings : Field → Value → Items → List Problem
unfolding check_items check_size
check_strings f input vs =
    if is_empty (check_items f 0 vs)
    then check_size f input (length (list_of vs))
    else check_items f 0 vs

unfoldable pub check_enum : Field → Value → Text → List Problem
unfolding quoted_list
check_enum f input s =
    if not (is_empty f.enum) && not (elem s f.enum)
    then record (problem (codes "literal_error") f.name
        (codes "Input should be " ++ quoted_list f.enum) input
        (codes ": must be " ++ quoted_list f.enum ++ codes ", got " ++ quote s)) {
          ctx = (codes "expected", str (quoted_list f.enum)) ∷ [];
        }
      ∷ []
    else []

module _ (fractional : Text → Bool) (whole_text : Text → Text) where
  -- A value that is no integer.
  unfoldable pub not_int : Field → Value → List Problem
  not_int f (num t) =
      if fractional t
      then problem (codes "int_from_float") f.name
          (codes "Input should be a valid integer, got a number with a fractional part") (num t)
          (codes ": must be a whole number")
        ∷ []
      else problem (codes "int_type") f.name (codes "Input should be a valid integer") (num t)
          (codes ": must be written as a whole number, e.g. " ++ whole_text t)
        ∷ []
  not_int f v =
      problem (codes "int_type") f.name (codes "Input should be a valid integer") v
        (codes ": must be a whole number")
      ∷ []

  unfoldable pub check_number : Field → Text → Option ℤ → List Problem
  unfolding not_int check_int
  check_number f t none = not_int f (num t)
  check_number f t (some n) = check_int f (num t) n

  unfoldable pub check_kind : Kind → Field → Value → List Problem
  unfolding check_number check_strings check_enum
  check_kind kind_int f (num t) = check_number f t (int_of t)
  check_kind kind_int f v = not_int f v
  check_kind kind_strings f (arr vs) = check_strings f (arr vs) vs
  check_kind kind_strings f v =
      problem (codes "list_type") f.name (codes "Input should be a valid list") v
        (codes ": must be a list of strings")
      ∷ []
  check_kind kind_string f (str s) = check_enum f (str s) s
  check_kind kind_string f v =
      problem (codes "string_type") f.name (codes "Input should be a valid string") v
        (codes ": must be a string")
      ∷ []

  -- field.check
  unfoldable pub check : Field → Value → List Problem
  unfolding check_kind
  check f v = check_kind f.kind f v
