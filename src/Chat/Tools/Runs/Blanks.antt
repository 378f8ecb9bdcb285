-- ===== src/Chat/Tools/Runs/Blanks.antt =====
-- backend/internal/chat/tools/validate.go and tools.go: arguments that the two read differently.
use urara_vision.Base.{◌≡◌, refl, Bool, false, Option, none, [], is_empty, keep}
use urara_vision.Base.Text.{Text, codes, ◌==◌, trim_space}
use urara_vision.Base.Maps.{get}
use urara_vision.Base.Sort.{sort_strings, sort_by}
use urara_vision.Base.Json.{Value, find, member_keys}
use urara_vision.Chat.Tools.Backend.{other_failure, went_wrong, Backend}
use urara_vision.Chat.Tools.Guard.{guarded, recover, advice_for, or_failure}
use urara_vision.Chat.Tools.Validate.{
  fine, validate, validate_spec, validate_args, all_problems, spec_problems, field_problems,
  extra_problems, extra_keys,
}
use urara_vision.Chat.Tools.Runs.{and_then, decode, decode_value, list_tables, on_object}

blank_fine :
    (fr : Text → Bool) (wt : Text → Text) (unmarshal : Text → Option Value) (blanks : Text)
    → trim_space blanks ≡ []
    → validate fr wt unmarshal (codes "list_tables") blanks ≡ fine
unfolding validate validate_spec validate_args all_problems spec_problems field_problems
    extra_problems extra_keys sort_strings sort_by keep member_keys get ◌==◌ find
blank_fine fr wt um blanks h = rw h refl

blank_decode :
    (unmarshal : Text → Option Value) (b : Backend) (blanks : Text)
    → is_empty blanks ≡ false
    → unmarshal blanks ≡ none
    → on_object b unmarshal (list_tables b) blanks
      ≡ went_wrong (other_failure (codes "invalid JSON"))
unfolding decode decode_value and_then
blank_decode um b blanks n u = rw (n, u) refl

-- Arguments of blanks only, which are no JSON, are accepted by Validate for list_tables, but the tool
-- reads them as JSON all the same, and its guarded call fails, with an error that no advice replaces.
pub blank_args_fail :
    (fractional : Text → Bool) (whole_text : Text → Text) (unmarshal : Text → Option Value)
    (b : Backend) (blanks : Text)
    → trim_space blanks ≡ []
    → is_empty blanks ≡ false
    → unmarshal blanks ≡ none
    → (validate fractional whole_text unmarshal (codes "list_tables") blanks ≡ fine)
      × ((e : Text) × (guarded fractional whole_text unmarshal
              (codes "list_tables")
              (on_object b unmarshal (list_tables b))
              false
              blanks
            ≡ went_wrong (other_failure e)))
unfolding guarded recover advice_for or_failure
blank_args_fail fr wt um b blanks h n u =
    let v = blank_fine fr wt um blanks h in
    (v, (codes "invalid JSON", rw (v, blank_decode um b blanks n u) refl))
