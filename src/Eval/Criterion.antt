-- ===== src/Eval/Criterion.antt =====
-- backend/internal/chateval/score.go: what an answer has to do to pass.
use mathlib.Core.Path.{subst}
use urara_vision.Base.{
  ◌≡◌, ◌⊎◌, ◌↔◌, refl, sym, ap, ◌∙◌, inl, inr, Bool, true, not, List, [], ◌∷◌, ◌&&◌, ◌||◌, arith,
  map, any, is_empty, Bool-cases, In,
}
use urara_vision.Base.Text.{Text, codes, ◌==◌, ==_iff, elem→In, In→elem, to_lower}
use urara_vision.Base.Finds.{Mentions, contains_iff}
use urara_vision.Eval.{Question, AnswerResponse, passed, says, calls, score_answer}
use urara_vision.Eval.Passing.{every, is_among, passed_tests}

-- A citation is one of some, in whatever case.
abbrev pub Cited : List Text → Text → Type 0
Cited xs c = (d : Text) × In d xs × (to_lower d ≡ to_lower c)

-- An answer holds a text, in whatever case.
abbrev pub Says : AnswerResponse → Text → Type 0
Says a s = Mentions (to_lower a.text) (to_lower s)

-- What an answer to a question has to do.
pub record IsPass (q : Question) (a : AnswerResponse) : Type 0 where
  pub cites : (c : Text) → In c q.expect_citations → Cited a.citations c
  pub tools : (q.expect_tools_any ≡ []) ⊎ ((t : Text) × In t a.tool_calls × In t q.expect_tools_any)
  pub holds : (q.expect_contains_any ≡ []) ⊎ ((s : Text) × In s q.expect_contains_any × Says a s)
  pub avoids : (s : Text) → In s q.must_not_contain → ¬ Says a s
  pub keeps_to :
      q.category ≡ codes "refusal"
      → (c : Text) → In c a.citations
      → Cited q.expect_citations c ⊎ Cited q.allow_citations c

every_iff :
    (p : Text → Bool) (xs : List Text) → (every p xs ≡ true) ↔ ((x : Text) → In x xs → p x ≡ true)
unfolding every
every_iff p [] = (λ h x m. absurd m, λ h. refl)
every_iff p (y ∷ xs) =
    let (f, g) = every_iff p xs in
    (
      λ h x m. elim m [
        | inl e ↦ subst (λ z. p z ≡ true) (sym e) (ground arith)
        | inr n ↦ f (ground arith) x n
      ],
      λ h. let a = h y (inl refl) in let b = g (λ x m. h x (inr m)) in ground arith,
    )

any_iff :
    (p : Text → Bool) (xs : List Text) → (any p xs ≡ true) ↔ ((x : Text) × In x xs × (p x ≡ true))
unfolding any
any_iff p [] = (λ h. cc, λ (x, m, e). absurd m)
any_iff p (y ∷ xs) =
    let (f, g) = any_iff p xs in
    (
      λ h. elim (Bool-cases (p y)) [
        | inl e ↦ (y, inl refl, e)
        | inr n ↦ let (x, m, e) = f (ground arith) in (x, inr m, e)
      ],
      λ (x, m, e). elim m [
        | inl q ↦ let k = ap p (sym q) ∙ e in ground arith
        | inr n ↦ let k = g (x, n, e) in ground arith
      ],
    )

In-map :
    (x : Text) (xs : List Text) → In x (map to_lower xs) → (d : Text) × In d xs × (to_lower d ≡ x)
In-map x [] m = absurd m
In-map x (y ∷ xs) (inl e) = (y, inl refl, sym e)
In-map x (y ∷ xs) (inr m) = let (d, n, e) = In-map x xs m in (d, inr n, e)

map-In : (d : Text) (xs : List Text) → In d xs → In (to_lower d) (map to_lower xs)
map-In d [] m = absurd m
map-In d (y ∷ xs) (inl e) = inl (ap to_lower e)
map-In d (y ∷ xs) (inr m) = inr (map-In d xs m)

is_among_iff : (xs : List Text) (c : Text) → (is_among xs c ≡ true) ↔ Cited xs c
is_among_iff xs c = (
  λ h. In-map (to_lower c) xs (elem→In (to_lower c) (map to_lower xs) h),
  λ (d, m, e).
      In→elem (to_lower c) (map to_lower xs)
        (subst (λ z. In z (map to_lower xs)) e (map-In d xs m)),
)

says_iff : (a : AnswerResponse) (s : Text) → (says a s ≡ true) ↔ Says a s
says_iff a s = contains_iff (to_lower a.text) (to_lower s)

empty_iff : (xs : List Text) → (is_empty xs ≡ true) ↔ (xs ≡ [])
empty_iff [] = (λ h. refl, λ e. refl)
empty_iff (x ∷ xs) = (λ h. cc, λ e. ap is_empty e)

when_any :
    (p : Text → Bool) (xs ys : List Text)
    → ((is_empty ys || any p xs) ≡ true) ↔ ((ys ≡ []) ⊎ ((x : Text) × In x xs × (p x ≡ true)))
when_any p xs ys = (
  λ h. elim (Bool-cases (is_empty ys)) [
    | inl e ↦ inl ((empty_iff ys).0 e)
    | inr e ↦ inr ((any_iff p xs).0 (ground arith))
  ],
  λ h. elim h [
    | inl e ↦ let k = (empty_iff ys).1 e in ground arith
    | inr w ↦ let k = (any_iff p xs).1 w in ground arith
  ],
)

module _ (q : Question) (a : AnswerResponse) where
  abbrev kept_to : Text → Bool
  kept_to c = is_among q.expect_citations c || is_among q.allow_citations c

  kept_to_iff :
      (c : Text) → (kept_to c ≡ true) ↔ (Cited q.expect_citations c ⊎ Cited q.allow_citations c)
  kept_to_iff c = (
    λ h. elim (Bool-cases (is_among q.expect_citations c)) [
      | inl e ↦ inl ((is_among_iff q.expect_citations c).0 e)
      | inr e ↦ inr ((is_among_iff q.allow_citations c).0 (ground arith))
    ],
    λ h. elim h [
      | inl w ↦ let k = (is_among_iff q.expect_citations c).1 w in ground arith
      | inr w ↦ let k = (is_among_iff q.allow_citations c).1 w in ground arith
    ],
  )

  abbrev refusing : Bool
  refusing = q.category == codes "refusal"

  tests-IsPass :
      every (is_among a.citations) q.expect_citations ≡ true
      → (is_empty q.expect_tools_any || any (calls q) a.tool_calls) ≡ true
      → (is_empty q.expect_contains_any || any (says a) q.expect_contains_any) ≡ true
      → every (λ s. not (says a s)) q.must_not_contain ≡ true
      → (not refusing || every kept_to a.citations) ≡ true
      → IsPass q a
  tests-IsPass h i j k l = record {
    cites = λ c m. (is_among_iff a.citations c).0 ((every_iff _ q.expect_citations).0 h c m);
    tools = elim ((when_any (calls q) a.tool_calls q.expect_tools_any).0 i) [
      | inl e ↦ inl e
      | inr (t, m, e) ↦ inr (t, m, elem→In t q.expect_tools_any e)
    ];
    holds = elim ((when_any (says a) q.expect_contains_any q.expect_contains_any).0 j) [
      | inl e ↦ inl e
      | inr (s, m, e) ↦ inr (s, m, (says_iff a s).0 e)
    ];
    avoids = λ s m w.
        let no = (every_iff _ q.must_not_contain).0 k s m in
        let yes = (says_iff a s).1 w in absurd (ground arith);
    keeps_to = λ r c m.
        let b = (==_iff q.category (codes "refusal")).1 r in
        (kept_to_iff c).0 ((every_iff kept_to a.citations).0 (ground arith) c m);
  }

  IsPass-tests :
      IsPass q a
      → (every (is_among a.citations) q.expect_citations
          && (is_empty q.expect_tools_any || any (calls q) a.tool_calls)
          && (is_empty q.expect_contains_any || any (says a) q.expect_contains_any)
          && every (λ s. not (says a s)) q.must_not_contain
          && (not refusing || every kept_to a.citations))
        ≡ true
  IsPass-tests w =
      let h =
        (every_iff _ q.expect_citations).1 (λ c m. (is_among_iff a.citations c).1 (w.cites c m)) in
      let i = (when_any (calls q) a.tool_calls q.expect_tools_any).1 (elim w.tools [
        | inl e ↦ inl e
        | inr (t, m, e) ↦ inr (t, m, In→elem t q.expect_tools_any e)
      ]) in
      let j =
        (when_any (says a) q.expect_contains_any q.expect_contains_any).1
          (elim w.holds [ inl e ↦ inl e | inr (s, m, e) ↦ inr (s, m, (says_iff a s).1 e) ]) in
      let k =
        (every_iff (λ s. not (says a s)) q.must_not_contain).1 (λ s m. unsaid s (w.avoids s m)) in
      let l = kept w.keeps_to in all_five h i j k l
    where
      unsaid : (s : Text) → ¬ Says a s → not (says a s) ≡ true
      unsaid s n = elim (Bool-cases (says a s)) [
        | inl e ↦ absurd (n ((says_iff a s).0 e))
        | inr e ↦ ground arith
      ]

      kept :
          (q.category ≡ codes "refusal"
            → (c : Text) → In c a.citations
            → Cited q.expect_citations c ⊎ Cited q.allow_citations c)
          → (not refusing || every kept_to a.citations) ≡ true
      kept f = elim (Bool-cases refusing) [
        | inl e ↦
            let g =
              (every_iff kept_to a.citations).1
                (λ c m. (kept_to_iff c).1 (f ((==_iff q.category (codes "refusal")).0 e) c m)) in
            ground arith
        | inr e ↦ ground arith
      ]

      all_five :
          {b c d e f : Bool}
          → b ≡ true
          → c ≡ true
          → d ≡ true
          → e ≡ true
          → f ≡ true
          → (b && c && d && e && f) ≡ true
      all_five h i j k l = ground arith

-- An answer passes exactly if it cites all that is expected, in any case of letters; calls one of the
-- tools, by its exact name, where any are asked for; holds one of the texts, in any case, where any
-- are asked for; holds none of the texts that it must not, in any case; and, for a refusal, cites
-- nothing but what is expected or allowed, in any case.
pub passed_lem :
    (q : Question) (a : AnswerResponse) → (passed (score_answer q a) ≡ true) ↔ IsPass q a
passed_lem q a = (
  λ h.
      let k = sym (passed_tests q a) ∙ h in
      tests-IsPass q a (ground arith) (ground arith) (ground arith) (ground arith) (ground arith),
  λ w. passed_tests q a ∙ IsPass-tests q a w,
)
