-- ===== src/Chat/Agent/Answers.antt =====
-- backend/internal/chat/agent/loop.go: what an answer says, which tokens it counts, and which calls
-- it records.
use mathlib.Core.List.{append_assoc, append-nil}
use mathlib.Core.Path.{subst}
use urara_vision.Base.{
  ℕ, ◌+◌, ◌≡◌, ◌⊎◌, refl, sym, ap, ◌∙◌, inl, inr, Bool, true, false, not, none, some, List, [], ◌∷◌,
  ◌++◌, ◌&&◌, arith, Bool-cases, Option-cases, is_empty, if◌then◌else◌, ◌||◌, In, In-append_right,
}
use urara_vision.Base.Text.{Text, codes, ◌==◌, elem, trim_space}
use urara_vision.Base.Maps.{Map, get_or, put, get_or-put}
use urara_vision.Chat.Llm.{ToolCall, Response, Usage, usage_map}
use urara_vision.Chat.Prompts.{no_answer_produced}
use urara_vision.Chat.Agent.{CallRecord, Options, Outside, Turn, stopped}
use urara_vision.Chat.Agent.Loop.{
  last_text, answer_text, sum_usage, add_usage, finalise, call_records, records, heard, pass,
  take_reply, take_outcome, request,
}

-- Replies that say nothing.
abbrev pub Silent : List Response → Type 0
Silent [] = Unit
Silent (r ∷ rs) = (trim_space r.text ≡ []) × Silent rs

-- The last reply that says something, and what it says.
abbrev pub LastSaid : List Response → Text → Type 0
LastSaid rs s =
    (pre : List Response) × (r : Response) × (post : List Response) × (rs ≡ pre ++ r ∷ post)
    × (trim_space r.text ≡ s)
    × (is_empty s ≡ false)
    × Silent post

is_empty_nil : (s : Text) → is_empty s ≡ true → s ≡ []
is_empty_nil [] h = refl
is_empty_nil (c ∷ s) h = cc

last_text_lem :
    (rs : List Response) → ((last_text rs ≡ []) × Silent rs) ⊎ LastSaid rs (last_text rs)
unfolding last_text
last_text_lem [] = inl (refl, tt)
last_text_lem (r ∷ rs) = elim (last_text_lem rs) [
  | inr (pre, x, post, e, f, g, h) ↦ rw g (inr (r ∷ pre, x, post, ap (λ l. r ∷ l) e, f, g, h))
  | inl (e, h) ↦ elim (Bool-cases (is_empty (trim_space r.text))) [
    | inl b ↦ rw e (inl (is_empty_nil _ b, (is_empty_nil _ b, h)))
    | inr b ↦ rw e (inr ([], r, rs, refl, refl, b, h))
  ]
]

-- An answer is the trimmed text of the last reply with any text, or the fixed notice where none has.
pub answer_text_lem :
    (rs : List Response)
    → ((answer_text rs ≡ no_answer_produced) × Silent rs) ⊎ LastSaid rs (answer_text rs)
unfolding answer_text
answer_text_lem rs = elim (last_text_lem rs) [
  | inl (e, h) ↦ rw e (inl (refl, h))
  | inr (pre, x, post, e, f, g, h) ↦ rw g (inr (pre, x, post, e, f, g, h))
]

-- Whether every reply reports its usage, and the sums of what they report.
unfoldable pub all_reported : List Response → Bool
all_reported [] = true
all_reported (r ∷ rs) = elim r.usage [ none ↦ false | some u ↦ all_reported rs ]

unfoldable pub total_of : (Usage → ℕ) → List Response → ℕ
total_of part [] = 0
total_of part (r ∷ rs) = elim r.usage [ none ↦ 0 | some u ↦ part u ] + total_of part rs

abbrev pub inputs : Usage → ℕ
inputs u = u.input_tokens

abbrev pub outputs : Usage → ℕ
outputs u = u.output_tokens

is_empty-put : (k : Text) (v : ℕ) (m : Map ℕ) → is_empty (put k v m) ≡ false
unfolding put
is_empty-put k v [] = refl
is_empty-put k v ((j, w) ∷ m) = ground arith

abbrev in_key : Text
in_key = codes "input_tokens"

abbrev out_key : Text
out_key = codes "output_tokens"

get_or-add_usage :
    (m : Map ℕ) (u : Usage)
    → (get_or in_key (add_usage m (usage_map u)) 0 ≡ get_or in_key m 0 + u.input_tokens)
      × (get_or out_key (add_usage m (usage_map u)) 0 ≡ get_or out_key m 0 + u.output_tokens)
      × (is_empty (add_usage m (usage_map u)) ≡ false)
unfolding add_usage ◌==◌
get_or-add_usage m u = (
  rw (get_or-put, get_or-put, get_or-put) refl,
  rw (get_or-put, get_or-put, get_or-put) refl,
  is_empty-put _ _ _,
)

-- What the sum is, where every reply reports.
sum_usage_reported :
    (m : Map ℕ) (rs : List Response)
    → all_reported rs ≡ true
    → (get_or in_key (sum_usage m true rs).0 0 ≡ get_or in_key m 0 + total_of inputs rs)
      × (get_or out_key (sum_usage m true rs).0 0 ≡ get_or out_key m 0 + total_of outputs rs)
      × ((sum_usage m true rs).1 ≡ true)
      × ((is_empty m && is_empty rs) ≡ false → is_empty (sum_usage m true rs).0 ≡ false)
unfolding sum_usage all_reported total_of
sum_usage_reported m [] h = (omega arith, omega arith, refl, λ e. ground arith)
sum_usage_reported m (r ∷ rs) h = elim (Option-cases r.usage) [
  | inl e ↦ absurd (ground arith)
  | inr (u, e) ↦
      let (i, j, k, l) = sum_usage_reported (add_usage m (usage_map u)) rs (ground arith) in
      let (x, y, z) = get_or-add_usage m u in
      rw e (omega (arith, i, x), omega (arith, j, y), k, λ n. l (ground arith))
]

sum_usage_unreported :
    (m : Map ℕ) (b : Bool) (rs : List Response)
    → (b && all_reported rs) ≡ false
    → (sum_usage m b rs).1 ≡ false
unfolding sum_usage all_reported
sum_usage_unreported m b [] h = ground arith
sum_usage_unreported m b (r ∷ rs) h = elim (Option-cases r.usage) [
  | inl e ↦ rw e (sum_usage_unreported m false rs refl)
  | inr (u, e) ↦ rw e (sum_usage_unreported (add_usage m (usage_map u)) b rs (ground arith))
]

-- What an answer counts. When some reply has come, the counts are the estimates exactly if a reply
-- did not report its usage, and otherwise they are the sums of what was reported.
pub finalise_tokens :
    (o : Outside) (opts : Options) (system : Text) (t : Turn)
    → is_empty t.replies ≡ false
    → let a = finalise o opts system t in
      (a.tokens_estimated ≡ not (all_reported t.replies))
      × (a.prompt_tokens
          ≡ (if all_reported t.replies then total_of inputs t.replies else t.est_prompt))
      × (a.completion_tokens
          ≡ (if all_reported t.replies then total_of outputs t.replies else t.est_completion))
unfolding finalise get_or
finalise_tokens o opts system t h = elim (Bool-cases (all_reported t.replies)) [
  | inr e ↦ rw (e, sum_usage_unreported [] true t.replies e) (refl, refl, refl)
  | inl e ↦
      let (i, j, k, l) = sum_usage_reported [] t.replies e in
      rw (e, k, l h) (refl, omega (arith, i), omega (arith, j))
]

or_true : (b : Bool) → (b || true) ≡ true
or_true b = ground arith

records-append :
    (refused : List Text) (xs ys : List Response)
    → records refused (xs ++ ys) ≡ records refused xs ++ records refused ys
unfolding records
records-append refused [] ys = refl
records-append refused (r ∷ xs) ys =
    ap (λ l. call_records refused r.tool_calls ++ l) (records-append refused xs ys)
    ∙ sym
        (append_assoc (call_records refused r.tool_calls) (records refused xs) (records refused ys))

In-call_records :
    (refused : List Text) (cs : List ToolCall) (c : ToolCall)
    → In c cs
    → elem c.id refused ≡ false
    → (k : CallRecord) × In k (call_records refused cs) × (k.name ≡ c.name)
unfolding call_records
In-call_records refused [] c m h = absurd m
In-call_records refused (d ∷ cs) c (inl e) h =
    rw (ap (λ (x : ToolCall). elem x.id refused) (sym e) ∙ h)
      (_, inl refl, ap (λ (x : ToolCall). x.name) (sym e))
In-call_records refused (d ∷ cs) c (inr m) h =
    let (k, n, e) = In-call_records refused cs c m h in
    elim (Bool-cases (elem d.id refused)) [ inl y ↦ rw y (k, n, e) | inr y ↦ rw y (k, inr n, e) ]

-- The reply after the notice ends the turn, and the turn has no more results than before it; yet every
-- call of that reply, all but those whose IDs the budget has refused, is among the calls that the
-- answer records, by the name of its tool.
pub late_calls_recorded :
    (o : Outside) (opts : Options) (system : Text) (t : Turn) (r : Response)
    → t.notice_sent ≡ true
    → o.generate t.iterations (request o opts system t) ≡ (r, none)
    → (t' : Turn) × (pass o opts system t ≡ stopped t')
      × (t'.results ≡ t.results)
      × ((c : ToolCall)
          → In c r.tool_calls
          → elem c.id t.refused ≡ false
          → (k : CallRecord) × In k (finalise o opts system t').tool_calls × (k.name ≡ c.name))
unfolding finalise heard pass take_outcome take_reply records
late_calls_recorded o opts system t r n g = (
  heard o opts system t r,
  ap (take_outcome o opts system t) g ∙ rw (n, or_true (is_empty r.tool_calls)) refl,
  refl,
  λ c m h.
      let (k, i, e) = In-call_records t.refused r.tool_calls c m h in
      let all =
        records-append t.refused t.replies (r ∷ [])
        ∙ ap (λ l. records t.refused t.replies ++ l) (append-nil _) in
      (k, subst (In k) (sym all) (In-append_right k (records t.refused t.replies) _ i), e),
)
