-- ===== src/Diff/Walks.antt =====
-- backend/internal/diff/diff.go: what a walk keeps, and what it reports.
use urara_vision.Base.{
  ◌≡◌, refl, inl, inr, Bool, true, false, Option, none, some, List, [], ◌∷◌, Option-cases,
}
use urara_vision.Base.Text.{Text, ==_refl}
use urara_vision.Base.Maps.{Map, get}
use urara_vision.Diff.Types.{Counts, Value, text, flag, FieldChange}
use urara_vision.Diff.Walk.{Visit, both, visit, visit_of, visit_all, walk, same_value, field}

module _ {T S : Type 0} (emit : Visit T → S → Bool × S) where
  -- A walk over one map on both sides, by an emit that reports no pair of equals, does nothing.
  visit_all_self :
      (m : Map T) (ks : List Text) (st : Counts × S)
      → ((a : T) (s : S) → emit (both a a) s ≡ (false, s))
      → visit_all emit m m ks st ≡ st
  unfolding visit_all
  visit_all_self m [] st quiet = refl
  visit_all_self m (k ∷ ks) (counts, s) quiet = elim (Option-cases (get k m)) [
    | inl e ↦ rw e (visit_all_self m ks (counts, s) quiet)
    | inr (a, e) ↦ rw (e, quiet a s) (visit_all_self m ks (counts, s) quiet)
  ]

  pub walk_self :
      (m : Map T) (counts : Counts) (s : S)
      → ((a : T) (z : S) → emit (both a a) z ≡ (false, z))
      → walk m m counts emit s ≡ (counts, s)
  unfolding walk
  walk_self m counts s quiet = visit_all_self m _ (counts, s) quiet

  visit-keeps :
      (P : Counts × S → Type 0) (v : Option (Visit T)) (st : Counts × S)
      → ((w : Visit T) (z : Counts × S) → P z → P (visit emit (some w) z))
      → P st
      → P (visit emit v st)
  visit-keeps P none st step p = p
  visit-keeps P (some v) st step p = step v st p

  -- What every visit keeps, a walk keeps.
  visit_all-keeps :
      (P : Counts × S → Type 0) (from to : Map T) (ks : List Text) (st : Counts × S)
      → ((v : Visit T) (z : Counts × S) → P z → P (visit emit (some v) z))
      → P st
      → P (visit_all emit from to ks st)
  unfolding visit_all
  visit_all-keeps P from to [] st step p = p
  visit_all-keeps P from to (k ∷ ks) st step p =
      visit_all-keeps P from to ks _ step
        (visit-keeps P (visit_of (get k from) (get k to)) st step p)

  pub walk-keeps :
      (P : Counts × S → Type 0) (from to : Map T) (counts : Counts) (s : S)
      → ((v : Visit T) (z : Counts × S) → P z → P (visit emit (some v) z))
      → P (counts, s)
      → P (walk from to counts emit s)
  unfolding walk
  walk-keeps P from to counts s step p = visit_all-keeps P from to _ (counts, s) step p

pub same_value_self : (v : Value) → same_value v v ≡ true
unfolding same_value
same_value_self (text s) = ==_refl s
same_value_self (flag true) = refl
same_value_self (flag false) = refl

pub field_self : (fs : List FieldChange) (name : Text) (v : Value) → field fs name v v ≡ fs
unfolding field
field_self fs name v = rw (same_value_self v) refl
