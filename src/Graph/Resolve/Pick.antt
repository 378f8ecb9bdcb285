-- ===== src/Graph/Resolve/Pick.antt =====
-- backend/internal/graph/resolve.go: pickConformed chooses the best instance, whatever the order in
-- which the instances are listed.
use mathlib.Core.Path.{subst}
use urara_vision.Base.{
  ◌↔◌, ◌⊎◌, ◌++◌, ◌<◌, ◌≡◌, true, refl, sym, ap, ◌∙◌, inl, inr, false, none, some, List, [], ◌∷◌,
  arith, Option-cases, length, In, All, All-In,
}
use urara_vision.Base.Finds.{Mentions, contains_iff}
use urara_vision.Base.Text.{
  Text, codes, to_lower, text_lt, text_lt_irrefl, text_lt_asym, text_le_trans, text_lt_antisym,
}
use urara_vision.Base.Maps.{Map, get}
use urara_vision.Base.Sort.{
  IsOrder, IsSortedBy, sort_by, sort_by-IsSortedBy, All-sort_by, In-sort_by,
}
use urara_vision.Model.{Table}
use urara_vision.Graph.Registry.{declares_conformed}
use urara_vision.Graph.Resolve.{Scored, rank, scored_less, first_id, pick_conformed}

pub scored_less-IsOrder : IsOrder scored_less
unfolding scored_less
scored_less-IsOrder = record {
  asym = λ a b h. ground (arith, text_lt_asym a.id b.id);
  le_trans = λ a b c h k. ground (arith, text_le_trans a.id b.id c.id);
}

scored_less_irrefl : (a : Scored) → scored_less a a ≡ false
unfolding scored_less
scored_less_irrefl a = ground (arith, text_lt_irrefl a.id)

-- Two instances of which neither is better are one.
scored_less_antisym :
    (a b : Scored) → scored_less a b ≡ false → scored_less b a ≡ false → a.id ≡ b.id
unfolding scored_less
scored_less_antisym a b h k = ground (arith, text_lt_antisym a.id b.id)

unfoldable pub score : Text → Table → Scored
score id t = record { id = id; declared = declares_conformed t; columns = length t.columns }

-- A table says that it is conformed: its domain's label or its kind holds the word, in any case.
abbrev pub SaysConformed : Table → Type 0
SaysConformed t =
    Mentions (to_lower (t.domain_label ++ codes " " ++ t.kind_raw)) (codes "conformed")

declares_conformed_iff : (t : Table) → (declares_conformed t ≡ true) ↔ SaysConformed t
unfolding declares_conformed
declares_conformed_iff t = contains_iff _ (codes "conformed")

-- A table is as good a choice as another: one that says it is conformed before one that does not,
-- then the one with more columns, then the one whose identifier comes first.
abbrev pub IsAsGood : Text → Table → Text → Table → Type 0
IsAsGood p u id t =
    (SaysConformed u × (¬ SaysConformed t))
    ⊎ ((SaysConformed u ↔ SaysConformed t)
        × ((length t.columns < length u.columns)
            ⊎ ((length u.columns ≡ length t.columns) × (text_lt id p ≡ false))))

-- The same, of the answers of the code's test.
abbrev IsRanked : Text → Table → Text → Table → Type 0
IsRanked p u id t =
    ((declares_conformed u ≡ true) × (declares_conformed t ≡ false))
    ⊎ ((declares_conformed u ≡ declares_conformed t)
        × ((length t.columns < length u.columns)
            ⊎ ((length u.columns ≡ length t.columns) × (text_lt id p ≡ false))))

not_less-IsRanked :
    (p : Text) (u : Table) (id : Text) (t : Table)
    → scored_less (score id t) (score p u) ≡ false
    → IsRanked p u id t
unfolding scored_less score
not_less-IsRanked p u id t h = ground arith

IsRanked-IsAsGood :
    (p : Text) (u : Table) (id : Text) (t : Table) → IsRanked p u id t → IsAsGood p u id t
IsRanked-IsAsGood p u id t (inl (a, b)) =
    let (f, g) = declares_conformed_iff u in
    let (i, j) = declares_conformed_iff t in inl (f a, λ s. cc (sym b ∙ j s))
IsRanked-IsAsGood p u id t (inr (e, h)) =
    let (f, g) = declares_conformed_iff u in
    let (i, j) = declares_conformed_iff t in inr ((λ s. i (sym e ∙ g s), λ s. f (e ∙ j s)), h)

not_less_head :
    (s : Scored) (ss : List Scored)
    → All (λ y. scored_less y s ≡ false) ss
    → (x : Scored) → In x (s ∷ ss)
    → scored_less x s ≡ false
not_less_head s ss h x (inl e) = rw e (scored_less_irrefl s)
not_less_head s ss h x (inr m) = All-In (λ y. scored_less y s ≡ false) ss x h m

module _ (by_id : Map Table) where
  -- What is ranked is the score of a candidate that exists.
  abbrev IsCandidate : List Text → Scored → Type 0
  IsCandidate ids s = In s.id ids × ((t : Table) × (get s.id by_id ≡ some t) × (s ≡ score s.id t))

  IsCandidate-cons :
      (id : Text) (ids : List Text) (ss : List Scored)
      → All (IsCandidate ids) ss
      → All (IsCandidate (id ∷ ids)) ss
  IsCandidate-cons id ids [] h = tt
  IsCandidate-cons id ids (s ∷ ss) h = ((inr h.0.0, h.0.1), IsCandidate-cons id ids ss h.1)

  rank-none :
      (id : Text) (ids : List Text) → get id by_id ≡ none → rank by_id (id ∷ ids) ≡ rank by_id ids
  unfolding rank
  rank-none id ids e = ground arith

  rank-some :
      (id : Text) (ids : List Text) (t : Table)
      → get id by_id ≡ some t
      → rank by_id (id ∷ ids) ≡ score id t ∷ rank by_id ids
  unfolding rank score
  rank-some id ids t e = ground arith

  rank-IsCandidate : (ids : List Text) → All (IsCandidate ids) (rank by_id ids)
  rank-IsCandidate [] = unfold rank in tt
  rank-IsCandidate (id ∷ ids) = elim (Option-cases (get id by_id)) [
    | inl e ↦ rw (rank-none id ids e) (IsCandidate-cons id ids _ (rank-IsCandidate ids))
    | inr (t, e) ↦
        rw (rank-some id ids t e) (
          unfold score in (inl refl, (t, e, refl)),
          IsCandidate-cons id ids _ (rank-IsCandidate ids),
        )
  ]

  In-rank :
      (id : Text) (ids : List Text) (t : Table)
      → In id ids
      → get id by_id ≡ some t
      → In (score id t) (rank by_id ids)
  In-rank id [] t m e = elim m [ ]
  In-rank id (j ∷ ids) t (inl p) e =
      rw
        (
          rank-some j ids t (ap (λ (k : Text). get k by_id) (sym p) ∙ e),
          ap (λ (k : Text). score k t) p,
        )
        (inl refl)
  In-rank id (j ∷ ids) t (inr m) e = elim (Option-cases (get j by_id)) [
    | inl n ↦ rw (rank-none j ids n) (In-rank id ids t m e)
    | inr (u, f) ↦ rw (rank-some j ids u f) (inr (In-rank id ids t m e))
  ]

  -- The head of a sorted ranking, and what it is.
  abbrev IsBest : List Text → Text → Type 0
  IsBest ids p =
      In p ids
      × ((u : Table) × (get p by_id ≡ some u)
          × ((id : Text) (t : Table)
              → In id ids
              → get id by_id ≡ some t
              → scored_less (score id t) (score p u) ≡ false))

  IsBest-of_sorted :
      (c : Text) (ids : List Text) (ss : List Scored)
      → All (IsCandidate ids) ss
      → IsSortedBy scored_less ss
      → ((id : Text) (t : Table) → In id ids → get id by_id ≡ some t → In (score id t) ss)
      → (id : Text) (t : Table) → In id ids
      → get id by_id ≡ some t
      → IsBest ids (first_id c ss)
  IsBest-of_sorted c ids [] all sorted complete id t m e = absurd (complete id t m e)
  IsBest-of_sorted c ids (s ∷ ss) all sorted complete id t m e =
      unfold first_id in
      let (t', e', is_score) = all.0.1 in
      (
        all.0.0,
        (
          t',
          e',
          λ j u n f.
              subst (λ z. scored_less (score j u) z ≡ false) is_score
                (not_less_head s ss sorted.0 (score j u) (complete j u n f)),
        ),
      )

  pick_conformed-IsBest :
      (c : Text) (cs : List Text) (id : Text) (t : Table)
      → In id (c ∷ cs)
      → get id by_id ≡ some t
      → IsBest (c ∷ cs) (pick_conformed c cs by_id)
  unfolding pick_conformed
  pick_conformed-IsBest c cs id t m e =
      IsBest-of_sorted c (c ∷ cs) (sort_by scored_less (rank by_id (c ∷ cs)))
        (All-sort_by scored_less (IsCandidate (c ∷ cs)) _ (rank-IsCandidate (c ∷ cs)))
        (sort_by-IsSortedBy scored_less-IsOrder _)
        (λ j u n f. In-sort_by scored_less (score j u) _ (In-rank j (c ∷ cs) u n f)) id t m e

  -- The identifier that is picked is one of the candidates and is registered, and it is as good as
  -- any registered candidate: it says that it is conformed where that one does not; or they agree
  -- in that and it has more columns; or they agree in both and its identifier does not come later.
  pub pick_conformed_best :
      (c : Text) (cs : List Text) (id : Text) (t : Table)
      → In id (c ∷ cs)
      → get id by_id ≡ some t
      → In (pick_conformed c cs by_id) (c ∷ cs)
        × ((u : Table) × (get (pick_conformed c cs by_id) by_id ≡ some u)
            × IsAsGood (pick_conformed c cs by_id) u id t)
  pick_conformed_best c cs id t m e =
      let (p_in, (u, p_reg, p_best)) = pick_conformed-IsBest c cs id t m e in
      (p_in, (u, p_reg, IsRanked-IsAsGood _ u id t (not_less-IsRanked _ u id t (p_best id t m e))))

  -- Two lists of the same candidates, in any order, lead to the same pick, if one of the candidates
  -- is registered.
  pub pick_conformed_order :
      (c d : Text) (cs ds : List Text) (id : Text) (t : Table)
      → ((j : Text) → In j (c ∷ cs) ↔ In j (d ∷ ds))
      → In id (c ∷ cs)
      → get id by_id ≡ some t
      → pick_conformed c cs by_id ≡ pick_conformed d ds by_id
  unfolding score
  pick_conformed_order c d cs ds id t same m e =
      let (p_in, (u, p_reg, p_best)) = pick_conformed-IsBest c cs id t m e in
      let (q_in, (v, q_reg, q_best)) = pick_conformed-IsBest d ds id t ((same id).0 m) e in
      scored_less_antisym (score (pick_conformed c cs by_id) u)
        (score (pick_conformed d ds by_id) v)
        (q_best (pick_conformed c cs by_id) u ((same _).0 p_in) p_reg)
        (p_best (pick_conformed d ds by_id) v ((same _).1 q_in) q_reg)
