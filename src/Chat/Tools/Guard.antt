-- ===== src/Chat/Tools/Guard.antt =====
-- backend/internal/chat/tools/guard.go: a tool whose failures become text for the model, but those that
-- end the turn. The log is left out; `ctx_done` says whether the context of the turn is done.
pub mod Advises
use urara_vision.Base.{
  ℕ, Bool, true, false, not, Option, none, some, List, [], ◌∷◌, ◌++◌, ◌||◌, nat_eq, is_empty,
  if◌then◌else◌,
}
use urara_vision.Base.Text.{Text, codes, join}
use urara_vision.Base.Json.{Value, str, arr, obj, Items, no_items, item, Members, no_members, find}
use urara_vision.Chat.Tools.Backend.{
  ApiError, Failure, backend_error, deadline_exceeded, other_failure, Outcome, came, went_wrong,
}
use urara_vision.Chat.Tools.Validate.{Checked, fine, error_text, validate}

abbrev id_arguments : List Text
id_arguments = codes "table_id" ∷ codes "ids" ∷ codes "from_table" ∷ codes "to_table" ∷ []

abbrev quoted_id : Text → Text
quoted_id s = codes "'" ++ s ++ codes "'"

unfoldable pub ids_in : Items → List Text
ids_in no_items = []
ids_in (item (str s) vs) = quoted_id s ∷ ids_in vs
ids_in (item v vs) = ids_in vs

unfoldable pub named_by : Option Value → List Text
unfolding ids_in
named_by (some (str s)) = if is_empty s then [] else quoted_id s ∷ []
named_by (some (arr vs)) = ids_in vs
named_by v = []

unfoldable pub named_ids : List Text → Members → List Text
unfolding named_by
named_ids [] ms = []
named_ids (k ∷ ks) ms = named_by (find k ms) ++ named_ids ks ms

unfoldable pub object_or : Option Value → Members
object_or (some (obj ms)) = ms
object_or v = no_members

-- notFoundMessage
unfoldable pub not_found_message : Option Value → Text
unfolding named_ids object_or
not_found_message args =
    let named = named_ids id_arguments (object_or args) in
    (if is_empty named
      then codes "That was not found"
      else codes "No table with id " ++ join (codes ", ") named)
    ++ codes " in this model. Call search_model to find the right ID."

-- Error.Is
abbrev pub is_not_found : ApiError → Bool
is_not_found e = nat_eq e.status 404

abbrev pub is_forbidden : ApiError → Bool
is_forbidden e = nat_eq e.status 403

abbrev timed_out_text : Text
timed_out_text = codes "That lookup timed out. Try a narrower query."

-- The text for a failure, if there is one.
unfoldable pub advice_for : Option Value → Failure → Option Text
unfolding not_found_message
advice_for args (backend_error e) =
    if is_forbidden e
    then none
    else if is_not_found e
    then some (not_found_message args)
    else if e.timed_out
    then some timed_out_text
    else some (codes "The model store could not answer that: " ++ e.message ++ codes ".")
advice_for args deadline_exceeded = some timed_out_text
advice_for args (other_failure t) = none

abbrev pub invalid_text : Text → Checked → Text
invalid_text tool c =
    codes "Invalid arguments for "
    ++ tool
    ++ codes ": "
    ++ error_text c
    ++ codes ". Fix them and call the tool again."

unfoldable pub or_failure : Failure → Option Text → Outcome Value
or_failure e none = went_wrong e
or_failure e (some advice) = came (str advice)

unfoldable pub recover : Option Value → Bool → Outcome Value → Outcome Value
unfolding advice_for or_failure
recover args ctx_done (came v) = came v
recover args ctx_done (went_wrong e) =
    if ctx_done then went_wrong e else or_failure e (advice_for args e)

abbrev is_fine : Checked → Bool
is_fine fine = true
is_fine c = false

module _ (fractional : Text → Bool) (whole_text : Text → Text)
    (unmarshal : Text → Option Value) where
  -- Guarded, around the run of a tool
  unfoldable pub guarded : Text → (Text → Outcome Value) → Bool → Text → Outcome Value
  unfolding recover
  guarded tool tool_run ctx_done args =
      let c = validate fractional whole_text unmarshal tool args in
      if is_fine c
      then recover (unmarshal args) ctx_done (tool_run args)
      else came (str (invalid_text tool c))
