-- ===== src/Chat/Prompts/Fences.antt =====
-- backend/internal/chat/agent/prompts.go: what a fenced text is.
use urara_vision.Base.{◌≡◌, ◌≢◌, ◌⊎◌, [], ◌∷◌, ◌++◌, ℕ, In, All}
use urara_vision.Base.Text.{Text, codes, to_lower}

-- Blanks, tabs, line feeds, form feeds and carriage returns.
abbrev pub AreBlanks : Text → Type 0
AreBlanks s = All (λ (c : ℕ). In c (32 ∷ 9 ∷ 10 ∷ 12 ∷ 13 ∷ [])) s

-- A text begins with the tag of a fence, of either kind, with blanks in it and in any case.
pub record IsTag (s : Text) : Type 0 where
  pub gap : Text
  pub slash : Text
  pub second_gap : Text
  pub name : Text
  pub after : Text
  pub blanks : AreBlanks gap
  pub either : (slash ≡ []) ⊎ (slash ≡ codes "/")
  pub second_blanks : AreBlanks second_gap
  pub named : to_lower name ≡ codes "documentation-content"
  pub spelled : s ≡ codes "<" ++ (gap ++ (slash ++ (second_gap ++ (name ++ after))))

-- Such a tag stands somewhere in a text.
abbrev pub HasTag : Text → Type 0
HasTag s = (before : Text) × (rest : Text) × (s ≡ before ++ rest) × IsTag rest

-- A text with some of its `<` written as entities.
pub data Escaped : Text → Text → Type 0 where
  end : Escaped [] []
  same : {s t : Text} (c : ℕ) → Escaped s t → Escaped (c ∷ s) (c ∷ t)
  entity : {s t : Text} → Escaped s t → Escaped (b'<' ∷ s) (codes "&lt;" ++ t)

-- No byte of a text ends an attribute or a tag.
abbrev pub IsAttribute : Text → Type 0
IsAttribute s = All (λ (c : ℕ). (c ≢ b'"') × (c ≢ b'<') × (c ≢ b'>')) s
