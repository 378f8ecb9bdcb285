-- ===== src/Chat/Agent/Passes.antt =====
-- backend/internal/chat/agent/loop.go: the ways that a pass of the loop ends, the turns that the
-- passes lead to, and how many passes there are.
use urara_vision.Base.{
  ℕ, zero, suc, ◌+◌, ◌-◌, ◌≤◌, ◌≡◌, refl, ◌∙◌, inl, inr, true, false, Option, none, some, List,
  ◌++◌, ◌||◌, arith, leb, is_empty, if◌then◌else◌, Bool-cases,
}
use urara_vision.Base.Text.{Text}
use urara_vision.Base.Json.{Value, Result, ok, fault, Result-cases}
use urara_vision.Chat.Llm.{LlmMessage, Response, ModelError, empty_reply, other_error}
use urara_vision.Chat.Agent.{
  Options, Outside, Turn, again, stopped, failed, run_tools, tool_messages,
}
use urara_vision.Chat.Agent.Loop.{
  heard, spent, refuse, run_round, take_reply, take_outcome, pass, loop, request,
}

module _ (o : Outside) (opts : Options) (system : Text) where
  -- The variables after a round of tools.
  abbrev pub after_tools : Turn → List Value → List LlmMessage → Turn
  after_tools t outs ms = record t { results = t.results ++ outs; messages = t.messages ++ ms }

  -- How a pass went.
  pub data Went (t : Turn) : Type 0 where
    went_wrong : (e : Text) → pass o opts system t ≡ failed e → Went t
    went_out :
        (r : Response)
        → pass o opts system t ≡ stopped (heard o opts system t r)
        → (is_empty r.tool_calls || t.notice_sent) ≡ true
        → Went t
    went_over :
        (r : Response)
        → pass o opts system t ≡ again (refuse o opts system (heard o opts system t r) r.tool_calls)
        → is_empty r.tool_calls ≡ false
        → t.notice_sent ≡ false
        → Went t
    went_on :
        (r : Response) (outs : List Value) (ms : List LlmMessage)
        → pass o opts system t ≡ again (after_tools (heard o opts system t r) outs ms)
        → t.notice_sent ≡ false
        → spent o opts system (heard o opts system t r) ≡ false
        → run_tools o (suc t.iterations) r.tool_calls ≡ ok outs
        → tool_messages o r.tool_calls outs ≡ ok ms
        → Went t

  run_round-Went :
      (t : Turn) (r : Response)
      → t.notice_sent ≡ false
      → spent o opts system (heard o opts system t r) ≡ false
      → pass o opts system t ≡ run_round o opts system (heard o opts system t r) r.tool_calls
      → Went t
  unfolding run_round heard
  run_round-Went t r n s q = elim (Result-cases (run_tools o (suc t.iterations) r.tool_calls)) [
    | inl (outs, e) ↦ elim (Result-cases (tool_messages o r.tool_calls outs)) [
      | inl (ms, f) ↦ went_on r outs ms ((q ∙ rw (run_round, e, f) refl)) n s e f
      | inr (x, f) ↦ went_wrong x ((q ∙ rw (run_round, e, f) refl))
    ]
    | inr (x, e) ↦ went_wrong x ((q ∙ rw (run_round, e) refl))
  ]

  take_reply-Went :
      (t : Turn) (r : Response) → pass o opts system t ≡ take_reply o opts system t r → Went t
  unfolding take_reply
  take_reply-Went t r q = elim (Bool-cases (is_empty r.tool_calls || t.notice_sent)) [
    | inl e ↦ went_out r (q ∙ rw (take_reply, e) refl) e
    | inr e ↦ elim (Bool-cases (spent o opts system (heard o opts system t r))) [
      | inl s ↦ went_over r (q ∙ rw (take_reply, e, s) refl) (ground arith) (ground arith)
      | inr s ↦ run_round-Went t r (ground arith) s (q ∙ rw (take_reply, e, s) refl)
    ]
  ]

  outcome-Went :
      (t : Turn) (g : Response × Option ModelError)
      → pass o opts system t ≡ take_outcome o opts system t g
      → Went t
  unfolding take_outcome
  outcome-Went t (r, none) e = take_reply-Went t r e
  outcome-Went t (r, some (empty_reply why)) e = take_reply-Went t r e
  outcome-Went t (r, some (other_error x)) e = went_wrong x e

  pub pass-Went : (t : Turn) → Went t
  unfolding pass
  pass-Went t = outcome-Went t (o.generate t.iterations (request o opts system t)) refl

  -- The turns that the loop comes to, from one on.
  pub data Reach (start : Turn) : Turn → Type 0 where
    here : Reach start start
    next : {t t' : Turn} → Reach start t → pass o opts system t ≡ again t' → Reach start t'

  -- How many passes are left at most.
  abbrev pub passes_left : Turn → ℕ
  passes_left t = if t.notice_sent then 1 else (opts.max_tool_iterations - t.iterations) + 2

  -- The rounds of tools stay below their limit.
  abbrev pub InBudget : Turn → Type 0
  InBudget t = t.iterations ≤ (
      if t.notice_sent
      then (if leb 1 opts.max_tool_iterations then opts.max_tool_iterations else 1)
      else opts.max_tool_iterations - 1)

  -- A turn that the loop has ended in.
  abbrev pub IsShort : Result Turn → Type 0
  IsShort (ok t) =
      t.iterations ≤ (if leb 1 opts.max_tool_iterations then opts.max_tool_iterations else 1) + 1
  IsShort (fault e) = Unit

  pub loop-end :
      (n : ℕ) (t : Turn)
      → passes_left t ≤ n
      → InBudget t
      → (x : Result Turn) × (loop o opts system n t ≡ some x) × IsShort x
  unfolding loop refuse heard
  loop-end zero t h b = absurd (ground arith)
  loop-end (suc n) t h b = elim (pass-Went t) [
    | went_wrong e q ↦ (fault e, rw (loop, q) refl, tt)
    | went_out r q d ↦ (ok (heard o opts system t r), rw (loop, q) refl, ground arith)
    | went_over r q d k ↦
        let t' = refuse o opts system (heard o opts system t r) r.tool_calls in
        let (x, e, s) = loop-end n t' (ground arith) (ground arith) in (x, rw (loop, q) e, s)
    | went_on r outs ms q k s a b ↦
        let (x, e, s) =
          loop-end n (after_tools (heard o opts system t r) outs ms) (ground arith)
            (ground arith) in
        (x, rw (loop, q) e, s)
  ]
