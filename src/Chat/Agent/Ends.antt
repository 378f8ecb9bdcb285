-- ===== src/Chat/Agent/Ends.antt =====
-- backend/internal/chat/agent/loop.go and agent.go: what a turn ends in.
use urara_vision.Base.{
  ◌+◌, ◌≤◌, ◌≡◌, refl, inl, inr, some, List, arith, Bool-cases, leb, if◌then◌else◌,
}
use urara_vision.Base.Text.{Text, codes, ◌==◌}
use urara_vision.Base.Json.{Result, ok, fault}
use urara_vision.Chat.Llm.{LlmMessage}
use urara_vision.Chat.History.{Message}
use urara_vision.Chat.Agent.{Options, Answer, Outside, Turn, first_turn}
use urara_vision.Chat.Agent.Loop.{
  max_passes, finalise, end_turn, run_with, run, opening, answer, latest_snapshot,
}
use urara_vision.Chat.Agent.Passes.{IsShort, loop-end}

-- An answer after at most as many calls of the model as the limit allows, and one more; a limit of
-- zero counts as one.
abbrev pub InLimit : Options → Result Answer → Type 0
InLimit opts (ok a) =
    a.iterations ≤ (if leb 1 opts.max_tool_iterations then opts.max_tool_iterations else 1) + 1
InLimit opts (fault e) = Unit

module _ (o : Outside) (opts : Options) where
  end_turn-InLimit :
      (system : Text) (x : Result Turn)
      → IsShort o opts system x
      → (y : Result Answer) × (end_turn o opts system (some x) ≡ some y) × InLimit opts y
  unfolding end_turn finalise
  end_turn-InLimit system (ok t) h = (ok (finalise o opts system t), refl, h)
  end_turn-InLimit system (fault e) h = (fault e, refl, tt)

  run_with-InLimit :
      (c : Result Text) (language : Text) (messages : List LlmMessage)
      → (y : Result Answer) × (run_with o opts c language messages ≡ some y) × InLimit opts y
  unfolding run_with
  run_with-InLimit (fault e) language messages = (fault e, refl, tt)
  run_with-InLimit (ok card) language messages =
      let system = o.prompt card language in
      let (x, e, s) =
        loop-end o opts system (max_passes o opts system) (first_turn messages) (ground arith)
          (ground arith) in
      let (y, f, l) = end_turn-InLimit system x s in (y, rw e f, l)

-- A turn ends, with an answer or an error: the fuel is enough whatever the model and the tools do.
-- An answer has asked the model at most once more than the limit on rounds, where a limit of zero
-- counts as one.
pub answer_ends :
    (o : Outside) (opts : Options) (question sid : Text) (history : List Message) (language : Text)
    → (y : Result Answer) × (answer o opts question sid history language ≡ some y) × InLimit opts y
unfolding answer run
answer_ends o opts question sid history language = elim (Bool-cases (sid == codes "latest")) [
  | inl e ↦ (fault (latest_snapshot o opts), rw e refl, tt)
  | inr e ↦
      let (y, q, l) =
        run_with-InLimit o opts (o.card sid) language (opening o opts question history) in
      (y, rw e q, l)
]
