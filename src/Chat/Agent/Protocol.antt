-- ===== src/Chat/Agent/Protocol.antt =====
-- backend/internal/chat/agent/loop.go: what a model requires of the messages of a request, that each
-- call of a tool is answered, in order and before anything else is said.
use mathlib.Core.Path.{subst}
use mathlib.Core.List.{append_assoc}
use urara_vision.Base.{
  ℕ, suc, ◌≡◌, refl, sym, ap, ◌∙◌, Bool, true, false, not, List, [], ◌∷◌, ◌++◌, ◌&&◌, map, arith,
  length, length-map,
}
use urara_vision.Base.Text.{Text, ◌==◌, ==_refl}
use urara_vision.Base.Json.{Value, Result, ok, fault, ok-injective, fault-ok}
use urara_vision.Chat.Llm.{Role, user, tool, LlmMessage, Response, ToolCall}
use urara_vision.Chat.History.{Message, to_llm_messages, truncate_history, plain_message}
use urara_vision.Chat.Prompts.{tool_budget_spent}
use urara_vision.Chat.Agent.{
  Options, Outside, Turn, first_turn, again, said_by, run_call, run_tools, faults, values,
  tool_messages, refusals, result_text, unless_failed, add_result, failed-again, stopped-again,
  again-injective,
}
use urara_vision.Chat.Agent.Loop.{heard, refuse, pass, opening, request}
use urara_vision.Chat.Agent.Passes.{
  went_wrong, went_out, went_over, went_on, pass-Went, Reach, here, next,
}

abbrev pub is_tool : Role → Bool
is_tool tool = true
is_tool r = false

-- Whether messages answer the given calls, by ID and by the name of the tool, and then each call that
-- they make.
unfoldable pub answered : List ToolCall → List LlmMessage → Bool
answered [] [] = true
answered (i ∷ is) [] = false
answered [] (m ∷ ms) = not (is_tool m.role) && answered m.tool_calls ms
answered (i ∷ is) (m ∷ ms) =
    is_tool m.role && m.tool_call_id == i.id && m.tool_name == i.name && answered is ms

answered-append :
    (is : List ToolCall) (xs ys : List LlmMessage)
    → answered is xs ≡ true
    → answered [] ys ≡ true
    → answered is (xs ++ ys) ≡ true
unfolding answered
answered-append [] [] ys h k = k
answered-append (i ∷ is) [] ys h k = cc
answered-append [] (m ∷ ms) ys h k = ground (arith, answered-append m.tool_calls ms ys)
answered-append (i ∷ is) (m ∷ ms) ys h k = ground (arith, answered-append is ms ys)

answered-refusals : (cs : List ToolCall) → answered cs (refusals cs) ≡ true
unfolding answered refusals
answered-refusals [] = refl
answered-refusals (c ∷ cs) = ground (arith, ==_refl c.id, ==_refl c.name, answered-refusals cs)

answered-to_llm_messages : (ms : List Message) → answered [] (to_llm_messages ms) ≡ true
unfolding answered to_llm_messages
answered-to_llm_messages [] = refl
answered-to_llm_messages (m ∷ ms) = ground (arith, answered-to_llm_messages ms)

-- Where no outcome is an error, each gives a value.
length-values : (rs : List (Result Value)) → faults rs ≡ [] → length (values rs) ≡ length rs
unfolding faults values
length-values [] h = refl
length-values (ok v ∷ rs) h = ap suc (length-values rs h)
length-values (fault e ∷ rs) h = cc

module _ (o : Outside) where
  answered-add_result :
      (c : ToolCall) (is : List ToolCall) (x : Result Text) (y : Result (List LlmMessage))
      (ms : List LlmMessage)
      → add_result o c x y ≡ ok ms
      → ((rest : List LlmMessage) → y ≡ ok rest → answered is rest ≡ true)
      → answered (c ∷ is) ms ≡ true
  unfolding add_result answered
  answered-add_result c is (fault e) y ms h k = absurd (fault-ok h)
  answered-add_result c is (ok text) (fault e) ms h k = absurd (fault-ok h)
  answered-add_result c is (ok text) (ok rest) ms h k =
      subst (λ l. answered (c ∷ is) l ≡ true) (ok-injective h)
        (ground (arith, ==_refl c.id, ==_refl c.name, k rest refl))

  answered-tool_messages :
      (cs : List ToolCall) (vs : List Value) (ms : List LlmMessage)
      → length vs ≡ length cs
      → tool_messages o cs vs ≡ ok ms
      → answered cs ms ≡ true
  unfolding answered tool_messages
  answered-tool_messages [] [] ms h e = subst (λ l. answered [] l ≡ true) (ok-injective e) refl
  answered-tool_messages [] (v ∷ vs) ms h e = absurd (omega (arith, h))
  answered-tool_messages (c ∷ cs) [] ms h e = absurd (omega (arith, h))
  answered-tool_messages (c ∷ cs) (v ∷ vs) ms h e =
      answered-add_result c cs (result_text o v) (tool_messages o cs vs) ms e
        (λ rest q. answered-tool_messages cs vs rest (omega (arith, h)) q)

  length-unless_failed :
      (es : List Text) (rs : List (Result Value)) (vs : List Value)
      → faults rs ≡ es
      → unless_failed o es (values rs) ≡ ok vs
      → length vs ≡ length rs
  unfolding unless_failed
  length-unless_failed [] rs vs f e = sym (ap length (ok-injective e)) ∙ length-values rs f
  length-unless_failed (x ∷ xs) rs vs f e = absurd (fault-ok e)

  length-run_tools :
      (n : ℕ) (cs : List ToolCall) (vs : List Value)
      → run_tools o n cs ≡ ok vs
      → length vs ≡ length cs
  unfolding run_tools
  length-run_tools n cs vs e =
      length-unless_failed (faults (map (run_call o n) cs)) (map (run_call o n) cs) vs refl e
      ∙ length-map (run_call o n) cs

-- A reply and the answers to its calls are added.
answered_said :
    (ms : List LlmMessage) (r : Response) (xs : List LlmMessage)
    → answered [] ms ≡ true
    → answered r.tool_calls xs ≡ true
    → answered [] ((ms ++ said_by r ∷ []) ++ xs) ≡ true
unfolding answered
answered_said ms r xs h k =
    subst (λ l. answered [] l ≡ true) (sym (append_assoc ms (said_by r ∷ []) xs))
      (answered-append [] ms (said_by r ∷ xs) h k)

abbrev asks : List LlmMessage
asks = plain_message user tool_budget_spent ∷ []

module _ (o : Outside) (opts : Options) (system : Text) where
  -- A pass that goes on keeps the messages answered.
  pass-answered :
      (t t' : Turn)
      → answered [] t.messages ≡ true
      → pass o opts system t ≡ again t'
      → answered [] t'.messages ≡ true
  unfolding heard refuse answered
  pass-answered t t' h q = elim (pass-Went o opts system t) [
    | went_wrong e p ↦ absurd (failed-again (sym p ∙ q))
    | went_out r p d ↦ absurd (stopped-again (sym p ∙ q))
    | went_over r p d k ↦
        subst (λ (x : Turn). answered [] x.messages ≡ true) (again-injective (sym p ∙ q))
          (answered_said t.messages r (refusals r.tool_calls ++ asks) h (
            answered-append r.tool_calls (refusals r.tool_calls) asks
              (answered-refusals r.tool_calls) refl))
    | went_on r outs ms p k s a b ↦
        subst (λ (x : Turn). answered [] x.messages ≡ true) (again-injective (sym p ∙ q))
          (answered_said t.messages r ms h
            (answered-tool_messages o r.tool_calls outs ms (length-run_tools o _ _ outs a) b))
  ]

  Reach-answered :
      (start t : Turn)
      → answered [] start.messages ≡ true
      → Reach o opts system start t
      → answered [] t.messages ≡ true
  Reach-answered start t h here = h
  Reach-answered start t h (next {t = s} r q) = pass-answered s t (Reach-answered start s h r) q

-- In every request of a turn, each call of a tool is answered by a message with the role of a tool,
-- the ID of the call and the name of the tool, in the order of the calls and before any other message, and
-- no such message answers a call that is not there.
pub request-answered :
    (o : Outside) (opts : Options) (system question : Text) (history : List Message) (t : Turn)
    → Reach o opts system (first_turn (opening o opts question history)) t
    → answered [] (request o opts system t).messages ≡ true
unfolding opening answered
request-answered o opts system question history t r =
    Reach-answered o opts system _ t
      (answered-append [] (to_llm_messages (truncate_history history opts.max_history)) _
        (answered-to_llm_messages (truncate_history history opts.max_history)) refl)
      r
