-- ===== src/I18n/Laws.antt =====
-- backend/internal/i18ntext/i18ntext.go: what a split field holds, and what a reader is shown.
use urara_vision.Base.{
  ℕ, ◌≡◌, ◌≢◌, ◌⊎◌, refl, sym, ap, ◌∙◌, inl, inr, Bool, true, false, Option, none, some, List, [],
  ◌∷◌, ◌++◌, arith, Bool-cases, is_empty,
}
use urara_vision.Base.Text.{Text, ◌==◌, ==_iff, ==_refl, elem, elem-append, trim_space}
use urara_vision.Base.Maps.{Map, get, get_or, get-put, get_or-eq}
use urara_vision.I18n.{
  Splitter, Field, add, add_body, add_parts, first_text, blank_field, split, in_lang, first_written,
  normalise_tag,
}

abbrev pub carried : Option Text → Bool
carried none = false
carried (some t) = true

-- The languages listed are those that have a text, and no text is blank.
pub record IsField (f : Field) : Type 0 where
  pub listed : (l : Text) → elem l f.langs ≡ carried (get l f.by_lang)
  pub filled : (l v : Text) → get l f.by_lang ≡ some v → v ≢ []

blank_field-IsField : (p : Text) → IsField (blank_field p)
unfolding elem get
blank_field-IsField p = record { listed = λ l. refl; filled = λ l v e. absurd (cc e) }

append-ne-nil : (x : Text) (c : ℕ) (y : Text) → x ++ c ∷ y ≢ []
append-ne-nil [] c y e = cc
append-ne-nil (a ∷ x) c y e = cc

add_body-IsField :
    (lang body : Text) (f : Field) (o : Option Text)
    → get lang f.by_lang ≡ o
    → body ≢ []
    → IsField f
    → IsField (add_body lang body f o)
unfolding elem
add_body-IsField lang body f (some x) e n h = record {
  listed =
      λ l. ground (arith, get-put lang l (x ++ 32 ∷ body) f.by_lang, ==_iff lang l, h.listed l);
  filled = λ l v p.
      ground
        (arith, get-put lang l (x ++ 32 ∷ body) f.by_lang, append-ne-nil x 32 body, h.filled l v);
}
add_body-IsField lang body f none e n h = record {
  listed = λ l.
      ground (arith, get-put lang l body f.by_lang, h.listed l, elem-append l f.langs (lang ∷ []));
  filled = λ l v p. ground (arith, get-put lang l body f.by_lang, h.filled l v);
}

add-IsField : (lang text : Text) (f : Field) → IsField f → IsField (add lang text f)
unfolding add
add-IsField lang text f h = elim (Bool-cases (trim_space text == [])) [
  | inl y ↦ rw y h
  | inr n ↦ rw n (
      add_body-IsField lang (trim_space text) f _ refl
        (λ e. ground (arith, ==_iff (trim_space text) [])) h)
]

add_parts-IsField :
    (parts : List (Text × Text)) (f : Field) → IsField f → IsField (add_parts parts f)
unfolding add_parts
add_parts-IsField [] f h = h
add_parts-IsField ((tag, text) ∷ parts) f h =
    add_parts-IsField parts _ (add-IsField (normalise_tag tag) text f h)

split-IsField : (s : Splitter) (text : Text) → IsField (split s text)
unfolding split
split-IsField s text = elim (Bool-cases (is_empty s.supported)) [
  | inl y ↦ rw y (add-IsField s.primary text _ (blank_field-IsField s.primary))
  | inr n ↦ rw n (add_parts-IsField _ _ (add-IsField s.primary _ _ (blank_field-IsField s.primary)))
]

first_text-eq : (a b : Text) → a ≢ [] → first_text a b ≡ a
first_text-eq [] b n = absurd (n refl)
first_text-eq (c ∷ s) b n = refl

first_text-ne-nil : (a b : Text) → b ≢ [] → first_text a b ≢ []
first_text-ne-nil [] b n = n
first_text-ne-nil (c ∷ s) b n = λ e. cc

get_or-some : (l v : Text) (m : Map Text) → get l m ≡ some v → get_or l m [] ≡ v
get_or-some l v m e =
    get_or-eq l m [] ∙ ap (λ (z : Option Text). elim z [ some w ↦ w | none ↦ [] ]) e

get_or-none : (l : Text) (m : Map Text) → get l m ≡ none → get_or l m [] ≡ []
get_or-none l m e = get_or-eq l m [] ∙ ap (λ (z : Option Text). elim z [ some w ↦ w | none ↦ [] ]) e

-- The first language listed has a text.
first_written-ne-nil :
    (ls : List Text) (m : Map Text)
    → ((l : Text) → elem l ls ≡ true → carried (get l m) ≡ true)
    → ((l v : Text) → get l m ≡ some v → v ≢ [])
    → ls ≢ []
    → first_written ls m ≢ []
unfolding first_written elem
first_written-ne-nil [] m listed filled n = absurd (n refl)
first_written-ne-nil (l ∷ ls) m listed filled n =
    by_text (get l m) refl (listed l (ground (arith, ==_refl l)))
  where
    by_text :
        (o : Option Text)
        → get l m ≡ o
        → carried o ≡ true
        → first_text (get_or l m []) (first_written ls m) ≢ []
    by_text none e c = absurd (cc c)
    by_text (some v) e c =
        rw (get_or-some l v m e, first_text-eq v (first_written ls m) (filled l v e)) (filled l v e)

-- A reader of a split field is shown a text in any language asked for, unless the field carries no
-- language at all.
pub in_lang-split-ne-nil :
    (s : Splitter) (text lang : Text) → (split s text).langs ≢ [] → in_lang (split s text) lang ≢ []
unfolding in_lang
in_lang-split-ne-nil s text lang h =
    let f = split s text in
    let inv = split-IsField s text in
    first_text-ne-nil _ _ (
      first_text-ne-nil _ _
        (first_written-ne-nil f.langs f.by_lang (λ l e. sym (inv.listed l) ∙ e) inv.filled h))

-- A reader is shown the text of the language asked for if the field carries it, and else that of
-- the primary language if the field carries that.
pub in_lang-split :
    (s : Splitter) (text lang t : Text)
    → (get (normalise_tag lang) (split s text).by_lang ≡ some t)
      ⊎ ((get (normalise_tag lang) (split s text).by_lang ≡ none)
          × (get (split s text).primary (split s text).by_lang ≡ some t))
    → in_lang (split s text) lang ≡ t
unfolding in_lang
in_lang-split s text lang t (inl e) =
    let f = split s text in
    rw (get_or-some _ t f.by_lang e) (first_text-eq t _ ((split-IsField s text).filled _ t e))
in_lang-split s text lang t (inr (e, p)) =
    let f = split s text in
    rw (get_or-none _ f.by_lang e, get_or-some _ t f.by_lang p)
      (first_text-eq t _ ((split-IsField s text).filled _ t p))
