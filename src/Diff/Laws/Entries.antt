-- ===== src/Diff/Laws/Entries.antt =====
-- backend/internal/diff/diff.go: which entries a comparison has.
use mathlib.Core.Path.{subst}
use urara_vision.Base.{
  ◌≡◌, ◌↔◌, refl, sym, inl, inr, Bool, true, false, not, ◌&&◌, ◌||◌, Option, none, some, List, [],
  ◌∷◌, ◌++◌, arith, Bool-cases, keep, All, All-append, All-In, In, In-append_left, In-append_right,
}
use urara_vision.Base.Text.{Text, ◌==◌, ==_iff, elem, elem-append, text_lt}
use urara_vision.Base.Maps.{Map, get, keys, elem_of_get}
use urara_vision.Base.Sort.{sort_strings, elem-sort_by}
use urara_vision.Diff.Types.{FieldChange, Counts}
use urara_vision.Diff.Walk.{Visit, visit, visit_of, visit_all, union_keys, walk}
use urara_vision.Diff.{report, fields_of, unchanged}

elem-keep : (p : Text → Bool) (k : Text) (ks : List Text) → elem k (keep p ks) ≡ (p k && elem k ks)
unfolding elem keep
elem-keep p k [] = ground arith
elem-keep p k (j ∷ ks) = elim (Bool-cases (j == k)) [
  | inl e ↦ rw (sym ((==_iff j k).0 e)) (ground (arith, elem-keep p j ks, ==_iff j j))
  | inr e ↦ ground (arith, elem-keep p k ks)
]

elem-union_keys :
    {T : Type 0} (from to : Map T) (k : Text)
    → elem k (union_keys from to) ≡ (elem k (keys from) || elem k (keys to))
unfolding union_keys sort_strings
elem-union_keys from to k =
    let old = keys from in
    let added = keep (λ j. not (elem j old)) (keys to) in
    ground (
      arith,
      elem-sort_by text_lt k (old ++ added),
      elem-append k old added,
      elem-keep (λ j. not (elem j old)) k (keys to),
    )

visited_key :
    {T : Type 0} (from to : Map T) (k : Text) (a b : Option T) (v : Visit T)
    → get k from ≡ a
    → get k to ≡ b
    → visit_of a b ≡ some v
    → elem k (union_keys from to) ≡ true
visited_key from to k (some a) b v ea eb e =
    rw (elem-union_keys from to k, elem_of_get k from a ea) refl
visited_key from to k none (some b) v ea eb e =
    rw (elem-union_keys from to k) (ground (arith, elem_of_get k to b eb))
visited_key from to k none none v ea eb e = absurd (cc e)

module _ {T D : Type 0} (compared : T → T → List FieldChange)
    (entry : Visit T → List FieldChange → D) (from to : Map T) where
  -- The entry of an item of one side only, or of a pair that differs in a compared field, at some
  -- key.
  abbrev pub Reported : D → Type 0
  Reported d =
      (k : Text) × (v : Visit T) × (visit_of (get k from) (get k to) ≡ some v)
      × (unchanged v (fields_of compared v) ≡ false)
      × (d ≡ entry v (fields_of compared v))

  abbrev walked : List Text → Counts × List D → Counts × List D
  walked = visit_all (report compared entry) from to

  step : Option (Visit T) → Counts × List D → Counts × List D
  step = visit (report compared entry)

  In-step : (d : D) (v : Option (Visit T)) (st : Counts × List D) → In d st.1 → In d (step v st).1
  unfolding step report
  In-step d none st h = h
  In-step d (some v) (c, out) h = elim (Bool-cases (unchanged v (fields_of compared v))) [
    | inl e ↦ rw e h
    | inr e ↦ rw e (In-append_left d out _ h)
  ]

  In-walked : (d : D) (ks : List Text) (st : Counts × List D) → In d st.1 → In d (walked ks st).1
  unfolding visit_all step
  In-walked d [] st h = h
  In-walked d (k ∷ ks) st h = In-walked d ks _ (In-step d (visit_of (get k from) (get k to)) st h)

  walked-first :
      (k : Text) (v : Visit T) (ks : List Text) (st : Counts × List D)
      → visit_of (get k from) (get k to) ≡ some v
      → unchanged v (fields_of compared v) ≡ false
      → In (entry v (fields_of compared v)) (walked (k ∷ ks) st).1
  unfolding visit_all step report
  walked-first k v ks (c, out) e u =
      In-walked _ ks _ (by_visit (visit_of (get k from) (get k to)) e)
    where
      by_visit :
          (o : Option (Visit T))
          → o ≡ some v
          → In (entry v (fields_of compared v)) (step o (c, out)).1
      by_visit o q =
          rw (q, u) (In-append_right _ out (entry v (fields_of compared v) ∷ []) (inl refl))

  walked_complete :
      (k : Text) (v : Visit T) (ks : List Text) (st : Counts × List D)
      → visit_of (get k from) (get k to) ≡ some v
      → unchanged v (fields_of compared v) ≡ false
      → elem k ks ≡ true
      → In (entry v (fields_of compared v)) (walked ks st).1
  unfolding elem visit_all
  walked_complete k v [] st e u h = absurd (cc h)
  walked_complete k v (j ∷ ks) st e u h = elim (Bool-cases (j == k)) [
    | inl q ↦
        subst (λ i. In (entry v (fields_of compared v)) (walked (i ∷ ks) st).1)
          (sym ((==_iff j k).0 q)) (walked-first k v ks st e u)
    | inr q ↦ walked_complete k v ks _ e u (ground (arith, ==_iff k j, ==_iff j k))
  ]

  step_sound :
      (k : Text) (o : Option (Visit T)) (st : Counts × List D)
      → visit_of (get k from) (get k to) ≡ o
      → All Reported st.1
      → All Reported (step o st).1
  unfolding step report
  step_sound k none st e h = h
  step_sound k (some v) (c, out) e h = elim (Bool-cases (unchanged v (fields_of compared v))) [
    | inl u ↦ rw u h
    | inr u ↦ rw u (All-append Reported out _ h ((k, v, e, u, refl), tt))
  ]

  walked_sound :
      (ks : List Text) (st : Counts × List D) → All Reported st.1 → All Reported (walked ks st).1
  unfolding visit_all step
  walked_sound [] st h = h
  walked_sound (k ∷ ks) st h =
      walked_sound ks _ (step_sound k (visit_of (get k from) (get k to)) st refl h)

  pub walk-exact :
      (counts : Counts) (d : D)
      → In d (walk from to counts (report compared entry) []).1 ↔ Reported d
  unfolding walk
  walk-exact counts d = (
    (λ h. All-In Reported _ d (walked_sound (union_keys from to) (counts, []) tt) h),
    (λ (k, v, e, u, q).
        subst (λ z. In z (walked (union_keys from to) (counts, [])).1) (sym q)
          (walked_complete k v (union_keys from to) (counts, []) e u
            (visited_key from to k _ _ v refl refl e))),
  )
