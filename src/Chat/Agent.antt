-- ===== src/Chat/Agent.antt =====
-- backend/internal/chat/agent/agent.go and loop.go: one turn, which asks the model, runs the tools it
-- asks for, and stops on an answer or a spent budget. The logs and the latency are left out; the
-- loop runs on fuel.
pub mod Loop
pub mod Passes
pub mod Protocol
pub mod Ends
pub mod Answers
use urara_vision.Base.{
  ◌≡◌, ap, ℕ, zero, suc, ◌+◌, Bool, true, false, Option, none, some, List, [], ◌∷◌, ◌++◌, ◌||◌, map,
  leb, nat_eq, is_empty, not, length, if◌then◌else◌,
}
use urara_vision.Base.Text.{Text, codes, ◌==◌, elem, join, trim_space}
use urara_vision.Base.Maps.{Map}
use urara_vision.Base.Json.{Value, str, Result, ok, fault}
use urara_vision.Chat.Llm.{
  user, assistant, tool, no_role, ToolCall, LlmMessage, ToolChoice, choice_auto, choice_any,
  ToolDef, Request, Usage, Response, ModelError, empty_reply, other_error,
}
use urara_vision.Chat.History.{
  Message, truncate_history, to_llm_messages, plain_message, or_empty, estimate_tokens,
}
use urara_vision.Chat.Prompts.{
  tool_budget_spent, tool_budget_spent_result, no_answer_produced, fence,
}

pub record Options : Type 0 where
  pub model_name : Text
  pub max_history : ℕ
  pub max_tool_iterations : ℕ
  pub max_turn_tokens : ℕ

pub record CallRecord : Type 0 where
  pub name : Text
  pub args : Text

pub record Answer : Type 0 where
  pub text : Text
  pub citations : List Text
  pub tool_calls : List CallRecord
  pub iterations : ℕ
  pub truncated : Bool
  pub model : Text
  pub usage : Map ℕ
  pub prompt_tokens : ℕ
  pub completion_tokens : ℕ
  pub tokens_estimated : Bool

-- What a turn calls. The model and the tools may answer each round differently, so the number of the
-- round is an argument. Of the errors of one round's tools, `first` is the one that came first.
pub record Outside : Type 0 where
  pub card : Text → Result Text
  pub prompt : Text → Text → Text
  pub tools : List ToolDef
  pub generate : ℕ → Request → Response × Option ModelError
  pub run_tool : ℕ → Text → Text → Result Value
  pub first : Text → List Text → Text
  pub marshal : List Text → Text
  pub encode : Value → Result Text
  pub extract : List Value → Text → List Text

-- The variables of the loop.
pub record Turn : Type 0 where
  pub messages : List LlmMessage
  pub replies : List Response
  pub results : List Value
  pub refused : List Text
  pub iterations : ℕ
  pub truncated : Bool
  pub notice_sent : Bool
  pub est_prompt : ℕ
  pub est_completion : ℕ

abbrev pub first_turn : List LlmMessage → Turn
first_turn ms = record {
  messages = ms;
  replies = [];
  results = [];
  refused = [];
  iterations = 0;
  truncated = false;
  notice_sent = false;
  est_prompt = 0;
  est_completion = 0;
}

-- What a pass of the loop leads to: `continue`, `break` or an error.
pub data Pass : Type 0 where
  again : Turn → Pass
  stopped : Turn → Pass
  failed : Text → Pass

turn_or : Turn → Pass → Turn
turn_or t (again s) = s
turn_or t (stopped s) = t
turn_or t (failed e) = t

pub again-injective : {s t : Turn} → again s ≡ again t → s ≡ t
unfolding turn_or
again-injective {s} h = ap (turn_or s) h

pub failed-again : {e : Text} {t : Turn} → failed e ≡ again t → ⊥
failed-again h = cc

pub stopped-again : {s t : Turn} → stopped s ≡ again t → ⊥
stopped-again h = cc

abbrev tool_name_of : ToolDef → Text
tool_name_of d = d.name

abbrev pub call_id : ToolCall → Text
call_id c = c.id

abbrev pub said_by : Response → LlmMessage
said_by r = record {
  role = assistant;
  text = r.text;
  tool_calls = r.tool_calls;
  tool_call_id = [];
  tool_name = [];
}

abbrev pub tool_message : ToolCall → Text → LlmMessage
tool_message c s = record {
  role = tool;
  text = s;
  tool_calls = [];
  tool_call_id = c.id;
  tool_name = c.name;
}

-- The answers to the calls of a round that the budget refuses.
unfoldable pub refusals : List ToolCall → List LlmMessage
refusals [] = []
refusals (c ∷ cs) = tool_message c tool_budget_spent_result ∷ refusals cs

-- The errors among the outcomes.
unfoldable pub faults : List (Result Value) → List Text
faults [] = []
faults (ok v ∷ rs) = faults rs
faults (fault e ∷ rs) = e ∷ faults rs

unfoldable pub values : List (Result Value) → List Value
values [] = []
values (ok v ∷ rs) = v ∷ values rs
values (fault e ∷ rs) = values rs

module _ (o : Outside) where
  -- estimate
  unfoldable pub estimate : Text → List LlmMessage → ℕ
  estimate system ms = estimate_tokens o.marshal (plain_message no_role system ∷ ms)

  abbrev no_such_tool : Text → Text
  no_such_tool name =
      codes "Error: "
      ++ name
      ++ codes " is not a valid tool, try one of ["
      ++ join (codes ", ") (map tool_name_of o.tools)
      ++ codes "]."

  unfoldable pub run_call : ℕ → ToolCall → Result Value
  run_call round c =
      if elem c.name (map tool_name_of o.tools)
      then o.run_tool round c.name c.args
      else ok (str (no_such_tool c.name))

  -- The results, or the error that came first.
  unfoldable pub unless_failed : List Text → List Value → Result (List Value)
  unless_failed [] vs = ok vs
  unless_failed (e ∷ es) vs = fault (o.first e es)

  -- runTools, with the results by the calls' indices.
  unfoldable pub run_tools : ℕ → List ToolCall → Result (List Value)
  unfolding run_call unless_failed
  run_tools round calls =
      let outs = map (run_call round) calls in unless_failed (faults outs) (values outs)

  -- resultText
  unfoldable pub result_text : Value → Result Text
  result_text (str s) = ok s
  result_text v = o.encode v

  unfoldable pub add_result :
      ToolCall → Result Text → Result (List LlmMessage) → Result (List LlmMessage)
  add_result c (fault e) rest = fault e
  add_result c (ok text) (fault e) = fault e
  add_result c (ok text) (ok ms) = ok (tool_message c (fence text c.name) ∷ ms)

  -- The messages for a round's results.
  unfoldable pub tool_messages : List ToolCall → List Value → Result (List LlmMessage)
  unfolding result_text add_result
  tool_messages (c ∷ cs) (v ∷ vs) = add_result c (result_text v) (tool_messages cs vs)
  tool_messages cs vs = ok []
