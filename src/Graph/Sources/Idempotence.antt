-- ===== src/Graph/Sources/Idempotence.antt =====
-- backend/internal/graph/sources.go: rewriting the sources twice changes nothing more.
use urara_vision.Base.{
  ℕ, ◌≡◌, ◌≢◌, refl, sym, ap, ◌∙◌, inl, inr, false, Option, none, some, List, [], ◌∷◌, arith,
  Bool-cases, Option-cases,
}
use urara_vision.Base.Text.{Text, ◌==◌, ==_iff, ==_refl}
use urara_vision.Base.Maps.{Map, get, put, get-put, get_or-eq}
use urara_vision.Model.{Table, ColumnLineage}
use urara_vision.Graph.Sources.{
  last_dot, split_qualified, Scan, scan_ref, scan_lineage, scan_tables, canonicalise_sources, canon,
  note_source, extend, or_bare, is_source_ref,
}
use urara_vision.Graph.Sources.Canon.{get-unambiguous}

bare-extend :
    (c : ℕ) (s a b : Text) (o : Option (Text × Text))
    → last_dot s ≡ o
    → ((x y : Text) → o ≡ some (x, y) → last_dot y ≡ none)
    → extend c s o ≡ some (a, b)
    → last_dot b ≡ none
bare-extend c s a b (some (x, y)) e ih h =
    let same : y ≡ b = ground arith in rw same at (ih x y refl)
bare-extend c s a b none e ih h = let same : s ≡ b = ground arith in rw same at e

-- What stands behind the last dot has no dot.
last_dot-last_dot : (s a b : Text) → last_dot s ≡ some (a, b) → last_dot b ≡ none
unfolding last_dot
last_dot-last_dot [] a b h = absurd (cc)
last_dot-last_dot (c ∷ s) a b h = bare-extend c s a b (last_dot s) refl (last_dot-last_dot s) h

-- A citation with a dataset has a dot, and its name has none.
abbrev IsDotted : Text → Text → Type 0
IsDotted n v = (last_dot n ≡ none) × (last_dot v ≢ none)

IsDotted-or_bare :
    (src : Text) (o : Option (Text × Text))
    → last_dot src ≡ o
    → ((or_bare src o).0 == []) ≡ false
    → IsDotted (or_bare src o).1 src
IsDotted-or_bare src none e h = absurd (ground (arith, ==_refl []))
IsDotted-or_bare src (some ([], b)) e h = absurd (ground (arith, ==_refl []))
IsDotted-or_bare src (some (d ∷ ds, b)) e h =
    (last_dot-last_dot src (d ∷ ds) b e, λ n. cc (sym e ∙ n))

-- Every entry leads from a name without a dot to a citation with one.
abbrev AllDotted : Map Text → Type 0
AllDotted m = (n v : Text) → get n m ≡ some v → IsDotted n v

AllDotted-put :
    (name src : Text) (m : Map Text) → IsDotted name src → AllDotted m → AllDotted (put name src m)
AllDotted-put name src m d h n v e = elim (Bool-cases (name == n)) [
  | inl y ↦
      let same_name : name ≡ n = (==_iff name n).0 y in
      let same : src ≡ v = ground (arith, get-put name n src m) in rw (← same_name, ← same) d
  | inr z ↦ h n v (ground (arith, get-put name n src m))
]

AllDotted-scan_ref :
    (src : Text) (st : Scan) → AllDotted st.qualified → AllDotted (scan_ref src st).qualified
unfolding scan_ref
AllDotted-scan_ref src st h = elim (Bool-cases (is_source_ref src)) [
  | inr n ↦ rw n h
  | inl y ↦ elim (Bool-cases ((split_qualified src).0 == [])) [
    | inl p ↦ rw (y, p) h
    | inr p ↦
        rw (y, p)
          (noted (get (split_qualified src).1 st.qualified)
            (unfold split_qualified in IsDotted-or_bare src (last_dot src) refl p))
  ]
]
  where
    noted :
        (o : Option Text)
        → IsDotted (split_qualified src).1 src
        → AllDotted (note_source src (split_qualified src).1 st o).qualified
    noted none d = AllDotted-put _ src st.qualified d h
    noted (some prev) d = elim (Bool-cases (prev == src)) [
      | inl y ↦ rw y (AllDotted-put _ src st.qualified d h)
      | inr n ↦ rw n h
    ]

AllDotted-scan_lineage :
    (ls : List ColumnLineage) (st : Scan)
    → AllDotted st.qualified
    → AllDotted (scan_lineage ls st).qualified
unfolding scan_lineage
AllDotted-scan_lineage [] st h = h
AllDotted-scan_lineage (l ∷ ls) st h =
    AllDotted-scan_lineage ls _ (AllDotted-scan_ref l.source_table st h)

AllDotted-scan_tables :
    (ts : List Table) (st : Scan) → AllDotted st.qualified → AllDotted (scan_tables ts st).qualified
unfolding scan_tables
AllDotted-scan_tables [] st h = h
AllDotted-scan_tables (t ∷ ts) st h =
    AllDotted-scan_tables ts _ (AllDotted-scan_lineage t.column_lineage st h)

AllDotted-canonicalise_sources : (ts : List Table) → AllDotted (canonicalise_sources ts)
unfolding canonicalise_sources get
AllDotted-canonicalise_sources ts n v h =
    AllDotted-scan_tables ts (record { qualified = []; ambiguous = [] }) (λ m w e. absurd (cc e)) n
      v (get-unambiguous n _ _ v h).1

canon-get :
    (m : Map Text) (s : Text) (o : Option Text)
    → get s m ≡ o
    → canon m s ≡ elim o [ some v ↦ v | none ↦ s ]
canon-get m s o e = get_or-eq s m s ∙ ap (λ (z : Option Text). elim z [ some v ↦ v | none ↦ s ]) e

-- A source that is rewritten to its canonical form is not rewritten again.
pub canon-canon :
    (ts : List Table) (s : Text)
    → canon (canonicalise_sources ts) (canon (canonicalise_sources ts) s)
      ≡ canon (canonicalise_sources ts) s
canon-canon ts s =
    let m = canonicalise_sources ts in
    elim (Option-cases (get s m)) [
      | inl e ↦ ap (canon m) (canon-get m s none e)
      | inr (v, e) ↦ elim (Option-cases (get v m)) [
        | inl f ↦
            ap (canon m) (canon-get m s (some v) e)
            ∙ canon-get m v none f
            ∙ sym (canon-get m s (some v) e)
        | inr (w, f) ↦ absurd (
            (AllDotted-canonicalise_sources ts s v e).1 (AllDotted-canonicalise_sources ts v w f).0)
      ]
    ]
