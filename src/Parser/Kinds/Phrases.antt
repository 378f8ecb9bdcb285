-- ===== src/Parser/Kinds/Phrases.antt =====
-- backend/internal/parser/normalise.go: a phrase is found as a run of whole words.
use urara_vision.Base.{
  ◌≡◌, ◌↔◌, refl, ap, ◌∙◌, inl, inr, true, List, [], ◌∷◌, ◌++◌, arith, Bool-cases,
}
use urara_vision.Base.Text.{Text, ==_iff, ==_refl}
use urara_vision.Parser.Kinds.{starts_with, has_run, contains_phrase}

-- The phrase stands among the words, between some words before and some after.
abbrev pub RunOf : List Text → List Text → Type 0
RunOf phrase words = (pre : List Text) × (post : List Text) × (words ≡ pre ++ (phrase ++ post))

starts_with_lem :
    (ws ps : List Text) → starts_with ws ps ≡ true → (post : List Text) × (ws ≡ ps ++ post)
unfolding starts_with
starts_with_lem ws [] h = (ws, refl)
starts_with_lem [] (p ∷ ps) h = absurd (cc h)
starts_with_lem (w ∷ ws) (p ∷ ps) h =
    let (post, e) = starts_with_lem ws ps (ground (arith, ==_iff w p)) in
    (post, cc (e, (==_iff w p).0 (ground arith)))

starts_with-append : (ps post : List Text) → starts_with (ps ++ post) ps ≡ true
unfolding starts_with
starts_with-append [] post = refl
starts_with-append (p ∷ ps) post = rw (==_refl p) (starts_with-append ps post)

has_run_lem : (ws ps : List Text) → has_run ws ps ≡ true → RunOf ps ws
unfolding has_run
has_run_lem [] ps h = absurd (cc h)
has_run_lem (w ∷ ws) ps h = elim (Bool-cases (starts_with (w ∷ ws) ps)) [
  | inl e ↦ let (post, q) = starts_with_lem (w ∷ ws) ps e in ([], post, q)
  | inr e ↦
      let (pre, post, q) = has_run_lem ws ps (ground arith) in (w ∷ pre, post, ap (λ l. w ∷ l) q)
]

run-has_run :
    (p : Text) (ps pre post : List Text) → has_run (pre ++ ((p ∷ ps) ++ post)) (p ∷ ps) ≡ true
unfolding has_run
run-has_run p ps [] post = rw (starts_with-append (p ∷ ps) post) refl
run-has_run p ps (w ∷ pre) post = ground (arith, run-has_run p ps pre post)

-- A phrase of one word or more is found exactly when it stands among the words as a run of whole
-- words.
pub contains_phrase_lem :
    (p : Text) (ps words : List Text)
    → (contains_phrase words (p ∷ ps) ≡ true) ↔ RunOf (p ∷ ps) words
unfolding contains_phrase
contains_phrase_lem p ps words = (
  (λ h. has_run_lem words (p ∷ ps) h),
  (λ (pre, post, e). ap (λ l. has_run l (p ∷ ps)) e ∙ run-has_run p ps pre post),
)
