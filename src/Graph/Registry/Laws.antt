-- ===== src/Graph/Registry/Laws.antt =====
-- backend/internal/graph/registry.go: what the registry holds.
use mathlib.Core.List.{append-nil, append_assoc}
use urara_vision.Base.{
  ◌≡◌, refl, sym, ap, ◌∙◌, inl, inr, true, false, ◌||◌, List, [], ◌∷◌, ◌++◌, map, arith, Bool-cases,
  if◌then◌else◌, length, count, leb, All,
}
use urara_vision.Base.Text.{Text, ◌==◌, ==_iff, elem, text_lt}
use urara_vision.Base.Maps.{Map, get_or, get_or-put, keys, elem-keys-put}
use urara_vision.Base.Sort.{sort_by, sort_strings, length-sort_by, elem-sort_by}
use urara_vision.Model.{Table}
use urara_vision.Graph.Registry.{
  Registry, stamp_all, index_tables, sort_names, new_registry, declares_conformed, is_conformed,
  mark_conformed,
}

abbrev pub ids : List Table → List Text
ids = map (λ t. t.id)

get_or-sort_names :
    (n : Text) (m : Map (List Text)) → get_or n (sort_names m) [] ≡ sort_strings (get_or n m [])
unfolding get_or sort_names sort_strings sort_by
get_or-sort_names n [] = refl
get_or-sort_names n ((j, l) ∷ m) = ground (arith, get_or-sort_names n m)

-- The loop keeps every identifier, old or new.
keys-index_tables :
    (id : Text) (ts : List Table) (reg : Registry)
    → elem id (keys (index_tables ts reg).by_id) ≡ (elem id (ids ts) || elem id (keys reg.by_id))
unfolding index_tables elem
keys-index_tables id [] reg = refl
keys-index_tables id (t ∷ ts) reg =
    keys-index_tables id ts _ ∙ ground (arith, elem-keys-put id t.id t reg.by_id)

pub ids-stamp_all : (sid : Text) (ts : List Table) → ids (stamp_all sid ts) ≡ ids ts
unfolding stamp_all
ids-stamp_all sid [] = refl
ids-stamp_all sid (t ∷ ts) = ap (◌∷◌ t.id) (ids-stamp_all sid ts)

-- The identifiers that the registry knows are those of the tables.
pub keys-new_registry :
    (ts : List Table) (sid id : Text)
    → elem id (keys (new_registry ts sid).1.by_id) ≡ elem id (ids ts)
unfolding new_registry keys elem
keys-new_registry ts sid id =
    keys-index_tables id (stamp_all sid ts) _ ∙ ground (arith, ids-stamp_all sid ts)

-- Which tables carry a name, in the order of the documents.
pub ids_named : Text → List Table → List Text
ids_named n [] = []
ids_named n (t ∷ ts) = if t.name == n then t.id ∷ ids_named n ts else ids_named n ts

regroup :
    (n : Text) (t : Table) (ts : List Table) (reg : Registry)
    → (if t.name == n then get_or t.name reg.by_name [] ++ t.id ∷ [] else get_or n reg.by_name [])
        ++ ids_named n ts
      ≡ get_or n reg.by_name [] ++ (if t.name == n then t.id ∷ ids_named n ts else ids_named n ts)
regroup n t ts reg = elim (Bool-cases (t.name == n)) [
  | inl e ↦ rw (e, append_assoc) (rw ((==_iff t.name n).0 e))
  | inr e ↦ rw e
]

by_name-index_tables :
    (n : Text) (ts : List Table) (reg : Registry)
    → get_or n (index_tables ts reg).by_name [] ≡ get_or n reg.by_name [] ++ ids_named n ts
unfolding index_tables ids_named
by_name-index_tables n [] reg = sym (append-nil _)
by_name-index_tables n (t ∷ ts) reg =
    by_name-index_tables n ts _ ∙ simp get_or-put (regroup n t ts reg)

ids_named-stamp_all :
    (n sid : Text) (ts : List Table) → ids_named n (stamp_all sid ts) ≡ ids_named n ts
unfolding stamp_all ids_named
ids_named-stamp_all n sid [] = refl
ids_named-stamp_all n sid (t ∷ ts) = ground (arith, ids_named-stamp_all n sid ts)

-- A name leads to the identifiers of the tables that carry it, sorted.
pub by_name-new_registry :
    (ts : List Table) (sid n : Text)
    → get_or n (new_registry ts sid).1.by_name [] ≡ sort_strings (ids_named n ts)
unfolding new_registry get_or
by_name-new_registry ts sid n =
    get_or-sort_names n _
    ∙ ap sort_strings (by_name-index_tables n (stamp_all sid ts) _ ∙ ids_named-stamp_all n sid ts)

elem-sort_strings : (v : Text) (l : List Text) → elem v (sort_strings l) ≡ elem v l
unfolding sort_strings
elem-sort_strings v l = elem-sort_by text_lt v l

elem-ids_named :
    (n id : Text) (ts : List Table) → elem id (ids_named n ts) ≡ true → elem id (ids ts) ≡ true
unfolding ids_named elem
elem-ids_named n id [] h = h
elem-ids_named n id (t ∷ ts) h = ground (arith, elem-ids_named n id ts)

-- A registry is sound when what it lists under a name it has under its identifier too.
abbrev pub IsSound : Registry → Type 0
IsSound reg =
    (n id : Text) → elem id (get_or n reg.by_name []) ≡ true → elem id (keys reg.by_id) ≡ true

pub new_registry-IsSound : (ts : List Table) (sid : Text) → IsSound (new_registry ts sid).1
new_registry-IsSound ts sid n id h =
    keys-new_registry ts sid id
    ∙ elem-ids_named n id ts (
        sym (elem-sort_strings id (ids_named n ts))
        ∙ sym (ap (elem id) (by_name-new_registry ts sid n))
        ∙ h)

-- How many tables carry a name.
length-ids_named :
    (n : Text) (ts : List Table) → length (ids_named n ts) ≡ count (λ (t : Table). t.name == n) ts
unfolding ids_named count
length-ids_named n [] = refl
length-ids_named n (t ∷ ts) = ground (arith, length-ids_named n ts)

-- A table counts as conformed exactly when two tables or more carry its name, or it declares it.
pub is_conformed-new_registry :
    (ts : List Table) (sid : Text) (t : Table)
    → is_conformed (new_registry ts sid).1 t
      ≡ (leb 2 (count (λ (u : Table). u.name == t.name) ts) || declares_conformed t)
unfolding is_conformed sort_strings
is_conformed-new_registry ts sid t = ground (
  arith,
  ap length (by_name-new_registry ts sid t.name),
  length-sort_by text_lt (ids_named t.name ts),
  length-ids_named t.name ts,
)

-- mark_conformed reports how many of the tables it leaves flagged, if none was flagged before.
pub mark_conformed-count :
    (reg : Registry) (ts : List Table)
    → All (λ t. t.conformed ≡ false) ts
    → (mark_conformed reg ts).1 ≡ count (λ t. t.conformed) (mark_conformed reg ts).0
unfolding mark_conformed count
mark_conformed-count reg [] h = refl
mark_conformed-count reg (t ∷ ts) h = ground (arith, mark_conformed-count reg ts h.1)
