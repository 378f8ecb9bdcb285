-- ===== src/Examples/Prose.antt =====
-- Tagged prose in two languages.
use urara_vision.Base.{◌≡◌, ◌≢◌, refl, Bool, true, false, List, [], ◌∷◌, ◌++◌, any}
use urara_vision.Base.Text.{Text, codes, ◌==◌, ==_iff, trim_space, trim_left, trim_right, to_upper}
use urara_vision.I18n.{Splitter, normalise_tag, split, in_lang}
use urara_vision.I18n.Tagged.{in_lang-tag}

abbrev sp : Splitter
sp = record { primary = codes "EN"; supported = codes "EN" ∷ codes "DE" ∷ [] }

abbrev prose : Text
prose = codes "Orders" ++ b'[' ∷ codes "DE" ++ b']' ∷ codes "Bestellungen"

-- What compares unequal differs.
differs : (s t : Text) → (s == t) ≡ false → s ≢ t
differs s t h e = absurd (cc (h, (==_iff s t).1 e))

in_lang-tag_example : in_lang (split sp prose) (codes "de") ≡ trim_space (codes "Bestellungen")
unfolding ◌==◌ trim_space trim_left trim_right normalise_tag to_upper any
in_lang-tag_example =
    in_lang-tag sp (codes "Orders") (codes "DE") (codes "Bestellungen") (refl, (refl, tt)) refl refl
      refl refl (differs _ _ refl) (differs _ _ refl) (differs _ _ refl) (codes "de") refl

abbrev of_langs : List Text → Bool
of_langs [] = false
of_langs (l ∷ ls) = true
