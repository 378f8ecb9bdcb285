-- ===== src/Chat/History.antt =====
-- backend/internal/chat/agent/history.go: what of a conversation goes to the language model, and
-- about how many tokens that is.
pub mod Laws
use urara_vision.Base.{
  ℕ, zero, suc, ◌+◌, ◌-◌, ◌/◌, Bool, true, false, List, [], ◌∷◌, ◌||◌, map, length, drop, is_empty,
  if◌then◌else◌,
}
use urara_vision.Base.Text.{Text, codes, ◌==◌, rune_count}
use urara_vision.Base.Maps.{Map}
use urara_vision.Chat.Llm.{Role, user, assistant, ToolCall, LlmMessage}

abbrev pub role_user : Text
role_user = codes "user"

abbrev pub role_assistant : Text
role_assistant = codes "assistant"

abbrev pub role_system : Text
role_system = codes "system"

unfoldable pub valid_role : Text → Bool
valid_role r = r == role_user || r == role_assistant || r == role_system

-- model.Message; the values of meta, of any type, are their texts.
pub record Message : Type 0 where
  pub ordinal : ℕ
  pub role : Text
  pub content : Text
  pub citations : List Text
  pub meta : Map Text
  pub created_at : ℕ

-- The loop that drops messages until one of a user leads.
unfoldable pub from_user : List Message → List Message
from_user [] = []
from_user (m ∷ ms) = let rest = from_user ms in if m.role == role_user then m ∷ ms else rest

-- A limit below zero is treated as zero is.
unfoldable pub truncate_history : List Message → ℕ → List Message
truncate_history msgs zero = []
truncate_history msgs (suc n) = from_user (drop (length msgs - suc n) msgs)

-- A message without anything about tools.
abbrev pub plain_message : Role → Text → LlmMessage
plain_message r s = record {
  role = r;
  text = s;
  tool_calls = [];
  tool_call_id = [];
  tool_name = [];
}

-- Stored messages of other roles are dropped.
unfoldable pub to_llm_messages : List Message → List LlmMessage
to_llm_messages [] = []
to_llm_messages (m ∷ ms) =
    let rest = to_llm_messages ms in
    if m.role == role_user
    then plain_message user m.content ∷ rest
    else if m.role == role_assistant
    then plain_message assistant m.content ∷ rest
    else rest

-- orEmpty
abbrev pub or_empty : Text → Text
or_empty raw = if is_empty raw then codes "{}" else raw

abbrev args_of : ToolCall → Text
args_of c = or_empty c.args

-- The characters of one message. `marshal` is json.Marshal on the arguments of the calls; its bytes
-- are empty where it fails.
unfoldable pub message_chars : (List Text → Text) → LlmMessage → ℕ
message_chars marshal m =
    if is_empty m.tool_calls
    then rune_count m.text
    else rune_count m.text + rune_count (marshal (map args_of m.tool_calls))

unfoldable pub total_chars : (List Text → Text) → List LlmMessage → ℕ
total_chars marshal [] = 0
total_chars marshal (m ∷ ms) = message_chars marshal m + total_chars marshal ms

-- EstimateTokens
unfoldable pub estimate_tokens : (List Text → Text) → List LlmMessage → ℕ
unfolding total_chars
estimate_tokens marshal msgs = total_chars marshal msgs / 4
