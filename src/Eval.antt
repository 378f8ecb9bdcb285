-- ===== src/Eval.antt =====
-- backend/internal/chateval/score.go and questions.go: how an answer of the chat agent is scored. A
-- ratio is a pair of numbers.
pub mod Passing
pub mod Criterion
use urara_vision.Base.{
  ℕ, Bool, true, false, not, Option, none, some, List, [], ◌∷◌, ◌++◌, ◌&&◌, ◌||◌, map, keep, count,
  any, nat_eq, is_empty, length, if◌then◌else◌,
}
use urara_vision.Base.Text.{Text, codes, ◌==◌, elem, contains, to_lower}

-- The fields of a question that scoring reads.
pub record Question : Type 0 where
  pub category : Text
  pub expect_citations : List Text
  pub expect_tools_any : List Text
  pub expect_contains_any : List Text
  pub must_not_contain : List Text
  pub allow_citations : List Text

-- The fields of an answer that scoring reads; of a call, its name.
pub record AnswerResponse : Type 0 where
  pub text : Text
  pub citations : List Text
  pub tool_calls : List Text

pub record Scores : Type 0 where
  pub recall : Option (ℕ × ℕ)
  pub precision : Option (ℕ × ℕ)
  pub tools : Option Bool
  pub substr : Option Bool
  pub violations : List Text
  pub refusal_ok : Option Bool

-- isFalse
unfoldable pub is_false : Option Bool → Bool
is_false none = false
is_false (some b) = not b

unfoldable pub is_one : Option (ℕ × ℕ) → Bool
is_one none = true
is_one (some (a, b)) = nat_eq a b

-- Passed
unfoldable pub passed : Scores → Bool
unfolding is_false is_one
passed s =
    is_one s.recall
    && not (is_false s.tools)
    && not (is_false s.substr)
    && is_empty s.violations
    && not (is_false s.refusal_ok)

-- lowerSet
unfoldable pub lower_set : List Text → List Text
lower_set [] = []
lower_set (x ∷ xs) =
    let rest = lower_set xs in if elem (to_lower x) rest then rest else to_lower x ∷ rest

unfoldable pub when_asked : {A : Type 0} → List Text → A → Option A
when_asked [] a = none
when_asked (x ∷ xs) a = some a

-- A citation that a question neither expects nor allows.
abbrev pub is_suspect : Question → Text → Bool
is_suspect q c =
    not (elem c (lower_set q.expect_citations)) && not (elem c (lower_set q.allow_citations))

abbrev pub says : AnswerResponse → Text → Bool
says a sub = contains (to_lower a.text) (to_lower sub)

abbrev pub calls : Question → Text → Bool
calls q name = elem name q.expect_tools_any

-- Score
unfoldable pub score_answer : Question → AnswerResponse → Scores
unfolding lower_set when_asked
score_answer q a =
    let expected = lower_set q.expect_citations in
    let actual = lower_set a.citations in
    let hit = count (λ c. elem c actual) expected in
    let violations = keep (says a) q.must_not_contain in
    record {
      recall = when_asked expected (hit, length expected);
      precision = if is_empty expected then none else when_asked actual (hit, length actual);
      tools = when_asked q.expect_tools_any (any (calls q) a.tool_calls);
      substr = when_asked q.expect_contains_any (any (says a) q.expect_contains_any);
      violations = violations;
      refusal_ok =
          if q.category == codes "refusal"
          then some (is_empty violations && not (any (is_suspect q) actual))
          else none;
    }
