-- ===== src/Diff/Laws/Domains.antt =====
-- backend/internal/diff/diff.go and keys.go: the entries of domains, by the domains of the two models.
use mathlib.Core.Path.{subst}
use urara_vision.Base.{
  ◌≡◌, ◌≢◌, ◌↔◌, refl, sym, ap, ◌∙◌, inl, inr, false, Option, none, some, List, [], ◌∷◌, ◌++◌, map,
  Bool-cases, is_empty, if◌then◌else◌, In,
}
use urara_vision.Base.Text.{Text, codes, ◌==◌}
use urara_vision.Base.Maps.{get, Distinct}
use urara_vision.Model.{Domain, Model}
use urara_vision.Diff.Types.{added, removed, changed, text, FieldChange, DomainDiff}
use urara_vision.Diff.Keys.{domain_key, index}
use urara_vision.Diff.Walk.{
  visit_of, gone, new, both, change_of, pick, same_value, field, domain_fields,
}
use urara_vision.Diff.{domain_entry, no_counts, compare_domains, compare}
use urara_vision.Diff.Laws.Entries.{Reported, walk-exact}
use urara_vision.Diff.Keys.Unique.{index-In, In-index, none_at, at_none}

-- A text field that differs, by its name; nothing if it does not.
abbrev pub differing : Text → Text → Text → List FieldChange
differing name was is =
    if was == is then [] else record { field = name; from = text was; to = text is } ∷ []

abbrev pub domain_changes : Domain → Domain → List FieldChange
domain_changes a b =
    differing (codes "title") a.title b.title
    ++ differing (codes "description") a.description b.description

-- What a comparison is to say of the domains of two models.
pub data DomainEntry (from to : List Domain) : DomainDiff → Type 0 where
  only_old :
      (a : Domain)
      → In a from
      → ((b : Domain) → In b to → b.id ≢ a.id)
      → DomainEntry from to (record { id = a.id; change = removed; fields = [] })
  only_new :
      (b : Domain)
      → In b to
      → ((a : Domain) → In a from → a.id ≢ b.id)
      → DomainEntry from to (record { id = b.id; change = added; fields = [] })
  altered :
      (a b : Domain)
      → In a from
      → In b to
      → a.id ≡ b.id
      → is_empty (domain_changes a b) ≡ false
      → DomainEntry from to (record { id = b.id; change = changed; fields = domain_changes a b })

domain_fields-eq : (a b : Domain) → domain_fields a b ≡ domain_changes a b
unfolding domain_fields field same_value
domain_fields-eq a b = elim (Bool-cases (a.title == b.title)) [
  | inl e ↦ rw e refl
  | inr e ↦ elim (Bool-cases (a.description == b.description)) [
    | inl f ↦ rw (e, f) refl
    | inr f ↦ rw (e, f) refl
  ]
]

visit_gone :
    {T : Type 0} (o p : Option T) (a : T) → visit_of o p ≡ some (gone a) → (o ≡ some a) × (p ≡ none)
visit_gone none none a h = cc
visit_gone none (some y) a h = cc
visit_gone (some x) none a h = (cc, refl)
visit_gone (some x) (some y) a h = cc

visit_new :
    {T : Type 0} (o p : Option T) (b : T) → visit_of o p ≡ some (new b) → (o ≡ none) × (p ≡ some b)
visit_new none none a h = cc
visit_new none (some y) a h = (refl, cc)
visit_new (some x) none a h = cc
visit_new (some x) (some y) a h = cc

visit_both :
    {T : Type 0} (o p : Option T) (a b : T)
    → visit_of o p ≡ some (both a b)
    → (o ≡ some a) × (p ≡ some b)
visit_both none none a b h = cc
visit_both none (some y) a b h = cc
visit_both (some x) none a b h = cc
visit_both (some x) (some y) a b h = (cc, cc)

abbrev IsReported : List Domain → List Domain → DomainDiff → Type 0
IsReported from to =
    Reported domain_fields domain_entry (index domain_key from) (index domain_key to)

module _ (from to : List Domain) (d1 : Distinct (map domain_key from))
    (d2 : Distinct (map domain_key to)) where
  IsReported-DomainEntry : (d : DomainDiff) → IsReported from to d → DomainEntry from to d
  unfolding domain_entry pick change_of
  IsReported-DomainEntry d (k, gone a, e, u, q) =
      let (x, y) = visit_gone _ _ a e in
      let (m, i) = index-In domain_key k from a d1 x in
      subst (DomainEntry from to) (sym q) (
        only_old a m (λ b n j.
          at_none domain_key to b d2 (ap (λ z. get z (index domain_key to)) (j ∙ i) ∙ y) n))
  IsReported-DomainEntry d (k, new b, e, u, q) =
      let (x, y) = visit_new _ _ b e in
      let (m, i) = index-In domain_key k to b d2 y in
      subst (DomainEntry from to) (sym q) (
        only_new b m (λ a n j.
          at_none domain_key from a d1 (ap (λ z. get z (index domain_key from)) (j ∙ i) ∙ x) n))
  IsReported-DomainEntry d (k, both a b, e, u, q) =
      let (x, y) = visit_both _ _ a b e in
      let (m, i) = index-In domain_key k from a d1 x in
      let (n, j) = index-In domain_key k to b d2 y in
      subst (DomainEntry from to)
        (sym (
          q
          ∙ ap (λ fs. record { id = b.id; change = changed; fields = fs }) (domain_fields-eq a b)))
        (altered a b m n (i ∙ sym j) (sym (ap is_empty (domain_fields-eq a b)) ∙ u))

  DomainEntry-IsReported : (d : DomainDiff) → DomainEntry from to d → IsReported from to d
  unfolding domain_entry pick change_of
  DomainEntry-IsReported d (only_old a m n) = (
    a.id,
    gone a,
    rw (In-index domain_key from a d1 m, none_at domain_key a.id to d2 n) refl,
    refl,
    refl,
  )
  DomainEntry-IsReported d (only_new b m n) = (
    b.id,
    new b,
    rw (In-index domain_key to b d2 m, none_at domain_key b.id from d1 n) refl,
    refl,
    refl,
  )
  DomainEntry-IsReported d (altered a b m n i u) = (
    b.id,
    both a b,
    rw
        (
          sym (ap (λ z. get z (index domain_key from)) i) ∙ In-index domain_key from a d1 m,
          In-index domain_key to b d2 n,
        )
        refl,
    ap is_empty (domain_fields-eq a b) ∙ u,
    ap (λ fs. record { id = b.id; change = changed; fields = fs }) (sym (domain_fields-eq a b)),
  )

-- Where no identifier of a domain comes twice in a model, a comparison of two models has an entry
-- exactly for each domain of the old one that the new one does not have, as removed; for each of the new
-- one that the old one does not have, as added; and for each of both whose title or description
-- differs, as changed, with the old and new value of the fields that differ and no others.
pub compare_domains_exact :
    (from to : Model) (d : DomainDiff)
    → Distinct (map domain_key from.domains)
    → Distinct (map domain_key to.domains)
    → In d (compare from to).domains ↔ DomainEntry from.domains to.domains d
unfolding compare compare_domains
compare_domains_exact from to d d1 d2 =
    let (f, g) =
      walk-exact domain_fields domain_entry (index domain_key from.domains)
        (index domain_key to.domains) no_counts d in
    (
      λ h. IsReported-DomainEntry from.domains to.domains d1 d2 d (f h),
      λ w. g (DomainEntry-IsReported from.domains to.domains d1 d2 d w),
    )
