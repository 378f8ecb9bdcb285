-- ===== src/Chat/Agent/Loop.antt =====
-- backend/internal/chat/agent/loop.go: the loop of a turn, the answer it ends in, and
-- backend/internal/chat/agent/agent.go: Answer.
use urara_vision.Base.{
  ℕ, zero, suc, ◌+◌, Bool, true, false, Option, none, some, List, [], ◌∷◌, ◌++◌, ◌||◌, ◌&&◌, not,
  map, leb, nat_eq, is_empty, if◌then◌else◌,
}
use urara_vision.Base.Text.{Text, codes, ◌==◌, elem, trim_space}
use urara_vision.Base.Maps.{Map, get_or, put}
use urara_vision.Base.Json.{Result, ok, fault}
use urara_vision.Chat.Llm.{
  user, ToolCall, LlmMessage, choice_auto, choice_any, Request, Response, ModelError, empty_reply,
  other_error, usage_map,
}
use urara_vision.Chat.History.{
  Message, truncate_history, to_llm_messages, plain_message, or_empty, estimate_tokens,
}
use urara_vision.Chat.Prompts.{tool_budget_spent, no_answer_produced}
use urara_vision.Chat.Agent.{
  Options, CallRecord, Answer, Outside, Turn, first_turn, Pass, again, stopped, failed, said_by,
  call_id, refusals, estimate, run_tools, tool_messages,
}

-- The text of the last reply that wrote anything.
unfoldable pub last_text : List Response → Text
last_text [] = []
last_text (r ∷ rs) = let rest = last_text rs in if is_empty rest then trim_space r.text else rest

unfoldable pub answer_text : List Response → Text
unfolding last_text
answer_text rs = if is_empty (last_text rs) then no_answer_produced else last_text rs

unfoldable pub call_records : List Text → List ToolCall → List CallRecord
call_records refused [] = []
call_records refused (c ∷ cs) =
    let rest = call_records refused cs in
    if elem c.id refused then rest else record { name = c.name; args = or_empty c.args } ∷ rest

-- The loop over replies, for what they called.
unfoldable pub records : List Text → List Response → List CallRecord
unfolding call_records
records refused [] = []
records refused (r ∷ rs) = call_records refused r.tool_calls ++ records refused rs

unfoldable pub add_usage : Map ℕ → Map ℕ → Map ℕ
add_usage total [] = total
add_usage total ((k, v) ∷ m) = add_usage (put k (get_or k total 0 + v) total) m

-- The loop over replies, for what they used: the sum, and whether every one reported.
unfoldable pub sum_usage : Map ℕ → Bool → List Response → Map ℕ × Bool
unfolding add_usage
sum_usage total reported [] = (total, reported)
sum_usage total reported (r ∷ rs) = elim r.usage [
  | none ↦ sum_usage total false rs
  | some u ↦ sum_usage (add_usage total (usage_map u)) reported rs
]

module _ (o : Outside) (opts : Options) (system : Text) where
  -- What a pass asks the model. The first call must use a tool.
  abbrev pub request : Turn → Request
  request t = record {
    system = system;
    messages = t.messages;
    tools = o.tools;
    tool_choice = if nat_eq t.iterations 0 then choice_any else choice_auto;
  }

  -- The variables when the model has replied.
  unfoldable pub heard : Turn → Response → Turn
  unfolding estimate
  heard t r = record t {
    messages = t.messages ++ said_by r ∷ [];
    replies = t.replies ++ r ∷ [];
    iterations = suc t.iterations;
    est_prompt = t.est_prompt + estimate o system t.messages;
    est_completion = t.est_completion + estimate_tokens o.marshal (said_by r ∷ []);
  }

  abbrev pub spent : Turn → Bool
  spent t =
      leb opts.max_tool_iterations t.iterations
      || leb opts.max_turn_tokens (estimate o system t.messages)

  -- The pass that refuses the calls and asks for an answer.
  unfoldable pub refuse : Turn → List ToolCall → Turn
  unfolding refusals
  refuse t calls = record t {
    refused = map call_id calls ++ t.refused;
    messages = t.messages ++ (refusals calls ++ plain_message user tool_budget_spent ∷ []);
    truncated = true;
    notice_sent = true;
  }

  -- The pass that runs the calls.
  unfoldable pub run_round : Turn → List ToolCall → Pass
  unfolding run_tools tool_messages
  run_round t calls = elim (run_tools o t.iterations calls) [
    | fault e ↦ failed e
    | ok outs ↦ elim (tool_messages o calls outs) [
      | fault e ↦ failed e
      | ok ms ↦ again (record t { results = t.results ++ outs; messages = t.messages ++ ms })
    ]
  ]

  -- One pass with the reply that the model gave.
  unfoldable pub take_reply : Turn → Response → Pass
  unfolding heard refuse run_round
  take_reply t r =
      let t' = heard t r in
      if is_empty r.tool_calls || t.notice_sent
      then stopped t'
      else if spent t'
      then again (refuse t' r.tool_calls)
      else run_round t' r.tool_calls

  -- An empty reply is not an error.
  unfoldable pub take_outcome : Turn → Response × Option ModelError → Pass
  unfolding take_reply
  take_outcome t (r, none) = take_reply t r
  take_outcome t (r, some (empty_reply why)) = take_reply t r
  take_outcome t (r, some (other_error e)) = failed e

  -- The body of the loop.
  unfoldable pub pass : Turn → Pass
  unfolding take_outcome
  pass t = take_outcome t (o.generate t.iterations (request t))

  unfoldable pub loop : ℕ → Turn → Option (Result Turn)
  unfolding pass
  loop zero t = none
  loop (suc n) t = elim (pass t) [
    | again t' ↦ loop n t'
    | stopped t' ↦ some (ok t')
    | failed e ↦ some (fault e)
  ]

  -- What run makes of the variables when the loop has ended.
  unfoldable pub finalise : Turn → Answer
  unfolding answer_text records sum_usage
  finalise t =
      let text = answer_text t.replies in
      let (usage, reported) = sum_usage [] true t.replies in
      let known = reported && not (is_empty usage) in
      record {
        text = text;
        citations = o.extract t.results text;
        tool_calls = records t.refused t.replies;
        iterations = t.iterations;
        truncated = t.truncated;
        model = opts.model_name;
        usage = usage;
        prompt_tokens = if known then get_or (codes "input_tokens") usage 0 else t.est_prompt;
        completion_tokens =
            if known then get_or (codes "output_tokens") usage 0 else t.est_completion;
        tokens_estimated = not known;
      }

  -- The passes that a turn can need.
  abbrev pub max_passes : ℕ
  max_passes = opts.max_tool_iterations + 2

module _ (o : Outside) (opts : Options) where
  unfoldable pub end_turn : Text → Option (Result Turn) → Option (Result Answer)
  unfolding finalise
  end_turn system none = none
  end_turn system (some (fault e)) = some (fault e)
  end_turn system (some (ok t)) = some (ok (finalise o opts system t))

  -- The turn with the card of its snapshot.
  unfoldable pub run_with : Result Text → Text → List LlmMessage → Option (Result Answer)
  unfolding loop end_turn
  run_with (fault e) language messages = some (fault e)
  run_with (ok card) language messages =
      let system = o.prompt card language in
      end_turn system (loop o opts system (max_passes o opts system) (first_turn messages))

  unfoldable pub run : Text → Text → List LlmMessage → Option (Result Answer)
  unfolding run_with
  run sid language messages = run_with (o.card sid) language messages

  abbrev pub latest_snapshot : Text
  latest_snapshot = codes "answer requires a concrete snapshot ID, not 'latest'; resolve it first"

  -- The messages that a question begins with.
  unfoldable pub opening : Text → List Message → List LlmMessage
  opening question history =
      to_llm_messages (truncate_history history opts.max_history)
      ++ plain_message user question ∷ []

  -- Agent.Answer
  unfoldable pub answer : Text → Text → List Message → Text → Option (Result Answer)
  unfolding run opening
  answer question sid history language =
      if sid == codes "latest"
      then some (fault latest_snapshot)
      else run sid language (opening question history)
