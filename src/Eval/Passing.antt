-- ===== src/Eval/Passing.antt =====
-- backend/internal/chateval/score.go: which answers pass.
use mathlib.Core.Path.{subst}
use urara_vision.Base.{
  ◌≡◌, refl, ap, ◌∙◌, inl, inr, Bool, true, not, none, some, List, [], ◌∷◌, ◌&&◌, ◌||◌, arith, map,
  keep, count, count-le-length, any, nat_eq, is_empty, length, if◌then◌else◌, Bool-cases,
}
use urara_vision.Base.Text.{Text, codes, ◌==◌, ==_iff, elem, to_lower}
use urara_vision.Eval.{
  Question, AnswerResponse, is_false, is_one, passed, lower_set, when_asked, is_suspect, says,
  calls, score_answer,
}

-- Whether a test accepts every item.
unfoldable pub every : (Text → Bool) → List Text → Bool
every p [] = true
every p (x ∷ xs) = p x && every p xs

elem-lower_set : (c : Text) (xs : List Text) → elem c (lower_set xs) ≡ elem c (map to_lower xs)
unfolding elem lower_set
elem-lower_set c [] = refl
elem-lower_set c (x ∷ xs) =
    ground (arith, elem-lower_set c xs, elem-lower_set (to_lower x) xs, ==_iff (to_lower x) c)

every-elem :
    (p : Text → Bool) (c : Text) (xs : List Text)
    → elem c xs ≡ true
    → every p xs ≡ true
    → p c ≡ true
unfolding elem every
every-elem p c [] h e = cc
every-elem p c (x ∷ xs) h e = elim (Bool-cases (x == c)) [
  | inl q ↦ subst (λ y. p y ≡ true) ((==_iff x c).0 q) (ground arith)
  | inr q ↦ every-elem p c xs (ground arith) (ground arith)
]

absorb : (a b c : Bool) → b ≡ c → (b ≡ true → a ≡ true) → b ≡ (a && c)
absorb a b c e h = ground arith

every-lower_set :
    (p : Text → Bool) (xs : List Text) → every p (lower_set xs) ≡ every (λ x. p (to_lower x)) xs
unfolding every lower_set
every-lower_set p [] = refl
every-lower_set p (x ∷ xs) = elim (Bool-cases (elem (to_lower x) (lower_set xs))) [
  | inr e ↦ rw e (ap (λ b. p (to_lower x) && b) (every-lower_set p xs))
  | inl e ↦ rw e (
      absorb (p (to_lower x)) (every p (lower_set xs)) _ (every-lower_set p xs)
        (every-elem p (to_lower x) (lower_set xs) e))
]

every_same :
    (p r : Text → Bool) (xs : List Text) → ((x : Text) → p x ≡ r x) → every p xs ≡ every r xs
unfolding every
every_same p r [] h = refl
every_same p r (x ∷ xs) h = ground (arith, h x, every_same p r xs h)

count-every : (p : Text → Bool) (xs : List Text) → nat_eq (count p xs) (length xs) ≡ every p xs
unfolding count every
count-every p [] = refl
count-every p (x ∷ xs) = ground (arith, count-every p xs, count-le-length p xs)

none_kept : (p : Text → Bool) (xs : List Text) → is_empty (keep p xs) ≡ every (λ x. not (p x)) xs
unfolding keep every
none_kept p [] = refl
none_kept p (x ∷ xs) = ground (arith, none_kept p xs)

not-any : (p : Text → Bool) (xs : List Text) → not (any p xs) ≡ every (λ x. not (p x)) xs
unfolding any every
not-any p [] = refl
not-any p (x ∷ xs) = ground (arith, not-any p xs)

one_recall :
    (xs : List Text) (p : Text → Bool) → is_one (when_asked xs (count p xs, length xs)) ≡ every p xs
unfolding when_asked is_one every count
one_recall [] p = refl
one_recall (x ∷ xs) p = count-every p (x ∷ xs)

met : (xs : List Text) (b : Bool) → not (is_false (when_asked xs b)) ≡ (is_empty xs || b)
unfolding when_asked is_false
met [] b = refl
met (x ∷ xs) b = ground arith

-- Whether a citation is one of some, in whatever case.
abbrev pub is_among : List Text → Text → Bool
is_among xs c = elem (to_lower c) (map to_lower xs)

refusal_met :
    (b : Bool) (v s : Bool)
    → (v && not (is_false (if b then some (v && s) else none))) ≡ (v && (not b || s))
unfolding is_false
refusal_met b v s = ground arith

suspects :
    (q : Question) (a : AnswerResponse)
    → not (any (is_suspect q) (lower_set a.citations))
      ≡ every (λ c. is_among q.expect_citations c || is_among q.allow_citations c) a.citations
suspects q a =
    not-any (is_suspect q) (lower_set a.citations)
    ∙ every-lower_set (λ c. not (is_suspect q c)) a.citations
    ∙ every_same _ _ a.citations (λ c. ground (
      arith,
      elem-lower_set (to_lower c) q.expect_citations,
      elem-lower_set (to_lower c) q.allow_citations,
    ))

five :
    {a b c d a' b' c' d' s s' : Bool} (f r : Bool)
    → a ≡ a'
    → b ≡ b'
    → c ≡ c'
    → d ≡ d'
    → (d && f) ≡ (d && (not r || s))
    → s ≡ s'
    → (a && b && c && d && f) ≡ (a' && b' && c' && d' && (not r || s'))
five f r h i j k l m = ground arith

-- The tests that passing comes down to.
pub passed_tests :
    (q : Question) (a : AnswerResponse)
    → passed (score_answer q a) ≡ (
        every (is_among a.citations) q.expect_citations
        && (is_empty q.expect_tools_any || any (calls q) a.tool_calls)
        && (is_empty q.expect_contains_any || any (says a) q.expect_contains_any)
        && every (λ s. not (says a s)) q.must_not_contain
        && (not (q.category == codes "refusal")
            || every
                (λ c. is_among q.expect_citations c || is_among q.allow_citations c)
                a.citations))
unfolding passed score_answer
passed_tests q a =
    let recall =
      one_recall (lower_set q.expect_citations) (λ c. elem c (lower_set a.citations))
      ∙ every-lower_set (λ c. elem c (lower_set a.citations)) q.expect_citations
      ∙ every_same _ _ q.expect_citations (λ c. elem-lower_set (to_lower c) a.citations) in
    let tools = met q.expect_tools_any (any (calls q) a.tool_calls) in
    let substr = met q.expect_contains_any (any (says a) q.expect_contains_any) in
    let kept = none_kept (says a) q.must_not_contain in
    let refusal =
      refusal_met (q.category == codes "refusal") (is_empty (keep (says a) q.must_not_contain))
        (not (any (is_suspect q) (lower_set a.citations))) in
    let s = suspects q a in
    five _ (q.category == codes "refusal") recall tools substr kept refusal s
