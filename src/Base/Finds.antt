-- ===== src/Base/Finds.antt =====
-- strings.Contains: a text holds another exactly when that stands somewhere in it.
use urara_vision.Base.{◌≡◌, ◌↔◌, refl, ap, ◌∙◌, inl, inr, true, [], ◌∷◌, ◌++◌, arith, Bool-cases}
use urara_vision.Base.Text.{Text, has_prefix, contains}

abbrev pub StartsWith : Text → Text → Type 0
StartsWith s p = (after : Text) × (s ≡ p ++ after)

abbrev pub Mentions : Text → Text → Type 0
Mentions s sub = (before : Text) × (after : Text) × (s ≡ before ++ (sub ++ after))

pub has_prefix-StartsWith : (s p : Text) → has_prefix s p ≡ true → StartsWith s p
unfolding has_prefix
has_prefix-StartsWith s [] h = (s, refl)
has_prefix-StartsWith [] (x ∷ p) h = cc
has_prefix-StartsWith (c ∷ s) (x ∷ p) h =
    let (after, e) = has_prefix-StartsWith s p (ground arith) in
    let same : c ≡ x = ground arith in (after, rw (same, e) refl)

has_prefix-append : (p after : Text) → has_prefix (p ++ after) p ≡ true
unfolding has_prefix
has_prefix-append [] after = refl
has_prefix-append (x ∷ p) after = ground (arith, has_prefix-append p after)

contains-Mentions : (s sub : Text) → contains s sub ≡ true → Mentions s sub
unfolding contains
contains-Mentions [] sub h = let (after, e) = has_prefix-StartsWith [] sub h in ([], after, e)
contains-Mentions (c ∷ s) sub h = elim (Bool-cases (has_prefix (c ∷ s) sub)) [
  | inl y ↦ let (after, e) = has_prefix-StartsWith (c ∷ s) sub y in ([], after, e)
  | inr n ↦
      let (before, after, e) = contains-Mentions s sub (ground arith) in
      (c ∷ before, after, ap (λ l. c ∷ l) e)
]

contains-append : (before sub after : Text) → contains (before ++ (sub ++ after)) sub ≡ true
unfolding contains
contains-append [] [] [] = unfold has_prefix in refl
contains-append [] [] (c ∷ after) = unfold has_prefix in refl
contains-append [] (x ∷ sub) after = rw (has_prefix-append (x ∷ sub) after) refl
contains-append (c ∷ before) sub after = ground (arith, contains-append before sub after)

pub contains_iff : (s sub : Text) → (contains s sub ≡ true) ↔ Mentions s sub
contains_iff s sub = (
  contains-Mentions s sub,
  λ (before, after, e). ap (λ l. contains l sub) e ∙ contains-append before sub after,
)
