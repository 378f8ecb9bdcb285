-- ===== src/Chat/Llm.antt =====
-- backend/internal/chat/llm/llm.go: the messages that a language model is sent, and its replies.
-- Arguments of tools are the texts that the model wrote; `rand` stands for crypto/rand.
use urara_vision.Base.{ℕ, suc, Option, List, [], ◌∷◌, ◌++◌, is_empty, if◌then◌else◌}
use urara_vision.Base.Text.{Text, codes}
use urara_vision.Base.Maps.{Map}

pub data Role : Type 0 where
  user assistant tool no_role : Role

pub record ToolCall : Type 0 where
  pub id : Text
  pub name : Text
  pub args : Text
  pub opaque : Text

-- llm.Message
pub record LlmMessage : Type 0 where
  pub role : Role
  pub text : Text
  pub tool_calls : List ToolCall
  pub tool_call_id : Text
  pub tool_name : Text

pub data ToolChoice : Type 0 where
  choice_auto choice_any : ToolChoice

pub record ToolDef : Type 0 where
  pub name : Text
  pub description : Text
  pub schema : Text

pub record Request : Type 0 where
  pub system : Text
  pub messages : List LlmMessage
  pub tools : List ToolDef
  pub tool_choice : ToolChoice

pub record Usage : Type 0 where
  pub input_tokens : ℕ
  pub output_tokens : ℕ
  pub total_tokens : ℕ

pub record Response : Type 0 where
  pub text : Text
  pub tool_calls : List ToolCall
  pub usage : Option Usage

-- The error that comes with a reply: ErrEmptyReply with its reason, or any other.
pub data ModelError : Type 0 where
  empty_reply : Text → ModelError
  other_error : Text → ModelError

-- Usage.Map
abbrev pub usage_map : Usage → Map ℕ
usage_map u =
    (codes "input_tokens", u.input_tokens)
    ∷ (codes "output_tokens", u.output_tokens)
    ∷ (codes "total_tokens", u.total_tokens)
    ∷ []

abbrev with_id : Text → ToolCall → ToolCall
with_id i c = record c { id = codes "call_" ++ i }

-- FillIDs; `rand n` is the hexadecimal text of the n-th six random bytes.
unfoldable pub fill_ids : (ℕ → Text) → ℕ → List ToolCall → List ToolCall
fill_ids rand n [] = []
fill_ids rand n (c ∷ cs) =
    if is_empty c.id then with_id (rand n) c ∷ fill_ids rand (suc n) cs else c ∷ fill_ids rand n cs
