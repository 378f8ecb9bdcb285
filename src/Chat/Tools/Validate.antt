-- ===== src/Chat/Tools/Validate.antt =====
-- backend/internal/chat/tools/validate.go: Validate, over the checks of the fields. `unmarshal` stands
-- for json.Unmarshal into a value; no number is too large for a float64.
pub mod Accepts
pub mod Exact
use urara_vision.Base.{
  ℕ, Bool, true, false, not, Option, none, some, List, [], ◌∷◌, ◌++◌, ◌&&◌, map, keep, is_empty,
  if◌then◌else◌,
}
use urara_vision.Base.Text.{Text, codes, elem, join, trim_space}
use urara_vision.Base.Maps.{get}
use urara_vision.Base.Sort.{sort_strings}
use urara_vision.Base.Print.{quote}
use urara_vision.Base.Json.{Value, null, str, obj, Members, no_members, find, member_keys}
use urara_vision.Chat.Tools.Fields.{Place, at_name, Problem, Field, all_fields}
use urara_vision.Chat.Tools.Checks.{is_null, problem, check}

-- What Validate returns.
pub data Checked : Type 0 where
  fine : Checked
  args_error : List Problem → Checked
  unknown_tool : Text → Checked

abbrev problem_reason : Problem → Text
problem_reason p = p.reason

-- The text of the error.
unfoldable pub error_text : Checked → Text
error_text fine = []
error_text (args_error ps) = join (codes "; ") (map problem_reason ps)
error_text (unknown_tool name) = codes "unknown tool " ++ quote name

abbrev pub field_name : Field → Text
field_name f = f.name

-- The members of an object that no field names.
unfoldable pub extra_keys : List Field → Members → List Text
extra_keys spec ms = sort_strings (keep (λ k. not (elem k (map field_name spec))) (member_keys ms))

unfoldable pub value_at : Option Value → Value
value_at none = null
value_at (some v) = v

unfoldable pub extra_problems : Text → Members → List Text → List Problem
unfolding value_at
extra_problems tool ms [] = []
extra_problems tool ms (k ∷ ks) =
    problem (codes "extra_forbidden") k (codes "Extra inputs are not permitted")
      (value_at (find k ms)) (codes ": not an argument of " ++ tool)
    ∷ extra_problems tool ms ks

-- The arguments that are no object.
abbrev not_dict : Value → Problem
not_dict input = record {
  kind = codes "dict_type";
  loc = [];
  msg = codes "Input should be a valid dictionary";
  input = input;
  ctx = [];
  reason = codes "arguments must be a JSON object";
}

module _ (fractional : Text → Bool) (whole_text : Text → Text) where
  -- The problems with one field, where the object has it or not.
  unfoldable pub field_problems : Value → Field → Option Value → List Problem
  field_problems whole f none =
      if f.required
      then problem (codes "missing") f.name (codes "Field required") whole (codes ": required") ∷ []
      else []
  field_problems whole f (some v) =
      if f.nullable && is_null v then [] else check fractional whole_text f v

  unfoldable pub spec_problems : List Field → Value → Members → List Problem
  unfolding field_problems
  spec_problems [] whole ms = []
  spec_problems (f ∷ fs) whole ms =
      field_problems whole f (find f.name ms) ++ spec_problems fs whole ms

  unfoldable pub all_problems : Text → List Field → Members → List Problem
  unfolding spec_problems extra_problems extra_keys
  all_problems tool spec ms =
      spec_problems spec (obj ms) ms ++ extra_problems tool ms (extra_keys spec ms)

  abbrev checked : List Problem → Checked
  checked ps = if is_empty ps then fine else args_error ps

  unfoldable pub validate_value : Text → List Field → Text → Option Value → Checked
  unfolding all_problems
  validate_value tool spec args none = args_error (not_dict (str args) ∷ [])
  validate_value tool spec args (some (obj ms)) = checked (all_problems tool spec ms)
  validate_value tool spec args (some v) = args_error (not_dict v ∷ [])

  unfoldable pub validate_args : (Text → Option Value) → Text → List Field → Text → Checked
  unfolding validate_value
  validate_args unmarshal tool spec args =
      if is_empty (trim_space args)
      then checked (all_problems tool spec no_members)
      else validate_value tool spec args (unmarshal args)

  unfoldable pub validate_spec : (Text → Option Value) → Text → Text → Option (List Field) → Checked
  unfolding validate_args
  validate_spec unmarshal tool args none = unknown_tool tool
  validate_spec unmarshal tool args (some spec) = validate_args unmarshal tool spec args

  -- Validate
  unfoldable pub validate : (Text → Option Value) → Text → Text → Checked
  unfolding validate_spec
  validate unmarshal tool args = validate_spec unmarshal tool args (get tool all_fields)
