-- ===== src/Examples/Turns.antt =====
-- The theorems on the chat agent, at a turn that calls one tool and then answers.
use urara_vision.Base.{
  ℕ, zero, suc, ◌≡◌, refl, Bool, true, false, Option, none, some, List, [], ◌∷◌, ◌⊎◌, not,
  if◌then◌else◌, is_empty, In,
}
use urara_vision.Base.Text.{Text, codes, elem}
use urara_vision.Base.Json.{str, Result, ok, fault}
use urara_vision.Chat.Llm.{ToolCall, ToolDef, Request, Usage, Response, ModelError}
use urara_vision.Chat.History.{Message, role_user, role_assistant}
use urara_vision.Chat.Prompts.{no_answer_produced}
use urara_vision.Chat.Agent.{
  CallRecord, Options, Answer, Outside, Turn, first_turn, Pass, again, stopped, failed,
}
use urara_vision.Chat.Agent.Loop.{answer, opening, request, pass, finalise, answer_text}
use urara_vision.Chat.Agent.Passes.{Reach, here, next}
use urara_vision.Chat.Agent.Protocol.{answered, request-answered}
use urara_vision.Chat.Agent.Ends.{InLimit, answer_ends}
use urara_vision.Chat.Agent.Answers.{
  Silent, LastSaid, answer_text_lem, all_reported, total_of, inputs, outputs, finalise_tokens,
  late_calls_recorded,
}

abbrev a_call : ToolCall
a_call = record { id = codes "c1"; name = codes "list_domains"; args = []; opaque = [] }

abbrev counted : Usage
counted = record { input_tokens = 7; output_tokens = 2; total_tokens = 9 }

abbrev calls_tool : Response
calls_tool = record { text = []; tool_calls = a_call ∷ []; usage = some counted }

abbrev says_two : Response
says_two = record { text = codes " Two domains. "; tool_calls = []; usage = some counted }

abbrev reply_of : ℕ → Request → Response × Option ModelError
reply_of zero q = (calls_tool, none)
reply_of (suc n) q = (says_two, none)

abbrev a_tool : ToolDef
a_tool = record { name = codes "list_domains"; description = []; schema = codes "{}" }

abbrev world : Outside
world = record {
  card = λ sid. ok sid;
  prompt = λ card language. card;
  tools = a_tool ∷ [];
  generate = reply_of;
  run_tool = λ n name args. ok (str (codes "ordering"));
  first = λ e es. e;
  marshal = λ args. codes "[{}]";
  encode = λ v. fault [];
  extract = λ vs s. [];
}

abbrev options : Options
options = record {
  model_name = codes "m";
  max_history = 4;
  max_tool_iterations = 3;
  max_turn_tokens = 1000;
}

abbrev asked : List Message
asked =
    record {
      ordinal = 0;
      role = role_user;
      content = codes "hi";
      citations = [];
      meta = [];
      created_at = 0;
    }
    ∷ record {
      ordinal = 1;
      role = role_assistant;
      content = codes "yes";
      citations = [];
      meta = [];
      created_at = 1;
    }
    ∷ []

abbrev question : Text
question = codes "Which domains?"

answer_ends_example :
    (y : Result Answer) × (answer world options question (codes "s1") asked (codes "en") ≡ some y)
    × InLimit options y
answer_ends_example = answer_ends world options question (codes "s1") asked (codes "en")

abbrev turn_in : Pass → Turn
turn_in (again t) = t
turn_in (stopped t) = t
turn_in (failed e) = first_turn []

abbrev opened : Turn
opened = first_turn (opening world options question asked)

abbrev called : Turn
called = turn_in (pass world options (codes "s1") opened)

called-Reach : Reach world options (codes "s1") opened called
unfolding pass urara_vision.Chat.History.estimate_tokens urara_vision.Chat.History.message_chars
    urara_vision.Base.Text.rune_count urara_vision.Base.count opening
    urara_vision.Chat.History.to_llm_messages urara_vision.Chat.History.truncate_history
    urara_vision.Chat.History.from_user urara_vision.Base.Text.◌==◌ urara_vision.Chat.Agent.faults
    urara_vision.Base.Text.elem urara_vision.Chat.Agent.values
called-Reach = next here refl

request-answered_example : answered [] (request world options (codes "s1") called).messages ≡ true
request-answered_example =
    request-answered world options (codes "s1") question asked called called-Reach

abbrev two_replies : Turn
two_replies = record (first_turn []) { replies = calls_tool ∷ says_two ∷ []; iterations = 2 }

finalise_tokens_example :
    let a = finalise world options (codes "s1") two_replies in
    (a.tokens_estimated ≡ not (all_reported two_replies.replies))
    × (a.prompt_tokens ≡ (
        if all_reported two_replies.replies
        then total_of inputs two_replies.replies
        else two_replies.est_prompt))
    × (a.completion_tokens ≡ (
        if all_reported two_replies.replies
        then total_of outputs two_replies.replies
        else two_replies.est_completion))
finalise_tokens_example = finalise_tokens world options (codes "s1") two_replies refl

answer_text_lem_example :
    ((answer_text (calls_tool ∷ says_two ∷ []) ≡ no_answer_produced)
      × Silent (calls_tool ∷ says_two ∷ []))
    ⊎ LastSaid (calls_tool ∷ says_two ∷ []) (answer_text (calls_tool ∷ says_two ∷ []))
answer_text_lem_example = answer_text_lem (calls_tool ∷ says_two ∷ [])

abbrev noticed : Turn
noticed = record (first_turn []) { notice_sent = true }

late_calls_recorded_example :
    (t : Turn) × (pass world options (codes "s1") noticed ≡ stopped t)
    × (t.results ≡ noticed.results)
    × ((c : ToolCall)
        → In c calls_tool.tool_calls
        → elem c.id noticed.refused ≡ false
        → (k : CallRecord) × In k (finalise world options (codes "s1") t).tool_calls
          × (k.name ≡ c.name))
late_calls_recorded_example =
    late_calls_recorded world options (codes "s1") noticed calls_tool refl refl
