-- ===== src/Access/Roles/Laws.antt =====
-- backend/internal/auth/roles.go: what the roles may do, and normal names.
use mathlib.Core.Path.{ap₂}
use urara_vision.Base.{
  ℕ, ◌≡◌, refl, sym, ap, ◌∙◌, Bool, true, false, Option, none, some, List, [], ◌∷◌, ◌||◌, arith,
  if◌then◌else◌,
}
use urara_vision.Base.Text.{Text, codes, ◌==◌, elem, elem-append, text_lt, to_lower, lower_byte}
use urara_vision.Base.Sort.{sort_strings, elem-sort_by}
use urara_vision.Access.Roles.{
  role_viewer, role_creator, role_admin, parse_role, viewer_perms, creator_perms, admin_perms,
  permissions, can, name_byte, name_bytes, is_username, normalise_username,
}

can-viewer : (p : Text) → can role_viewer p ≡ elem p viewer_perms
unfolding can permissions sort_strings ◌==◌
can-viewer p = elem-sort_by text_lt p viewer_perms

can-creator : (p : Text) → can role_creator p ≡ elem p creator_perms
unfolding can permissions sort_strings ◌==◌
can-creator p = elem-sort_by text_lt p creator_perms

can-admin : (p : Text) → can role_admin p ≡ elem p admin_perms
unfolding can permissions sort_strings ◌==◌
can-admin p = elem-sort_by text_lt p admin_perms

abbrev managing : List Text
managing =
    codes "project.delete"
    ∷ codes "version.delete"
    ∷ codes "note.moderate"
    ∷ codes "settings.manage"
    ∷ codes "user.manage"
    ∷ codes "user.delete"
    ∷ []

abbrev pub importing : List Text
importing = codes "project.import" ∷ codes "version.import" ∷ []

-- Roles only ever add to what a lesser role may do: a creator may do what a viewer may do and import
-- projects and versions, no more, and an administrator may do what a creator may do.
pub can_grows :
    (p : Text)
    → (can role_creator p ≡ (can role_viewer p || elem p importing))
      × ((can role_admin p || can role_creator p) ≡ can role_admin p)
can_grows p = (
  can-creator p
      ∙ elem-append p viewer_perms importing
      ∙ ap (λ b. b || elem p importing) (sym (can-viewer p)),
  rw (can-creator p, can-admin p, elem-append p creator_perms managing) (ground arith),
)

-- A string that is no role may do nothing.
pub can_unknown : (r p : Text) → parse_role r ≡ none → can r p ≡ false
unfolding can permissions parse_role elem
can_unknown r p h = ground arith

lower-name_byte : (c : ℕ) → name_byte c ≡ true → lower_byte c ≡ c
lower-name_byte c h = ground arith

to_lower-name_bytes : (s : Text) → name_bytes s ≡ true → to_lower s ≡ s
unfolding name_bytes to_lower
to_lower-name_bytes [] h = refl
to_lower-name_bytes (c ∷ s) h =
    ap₂ ◌∷◌ (lower-name_byte c (ground arith)) (to_lower-name_bytes s (ground arith))

accepted : (b : Bool) (x u : Text) → (if b then some x else none) ≡ some u → (b ≡ true) × (x ≡ u)
accepted true x u h = (refl, ap (or_blank) h)
  where
    or_blank : Option Text → Text
    or_blank none = []
    or_blank (some v) = v
accepted false x u h = absurd (cc h)

-- A name that is accepted is accepted again as it is, whatever the case it was written in.
pub normalise_username_again :
    (s u : Text) → normalise_username s ≡ some u → normalise_username u ≡ some u
unfolding normalise_username is_username
normalise_username_again s u h =
    let (valid, same) = accepted (is_username (to_lower s)) (to_lower s) u h in
    let valid_u : is_username u ≡ true = ap is_username (sym same) ∙ valid in
    rw (to_lower-name_bytes u (ground arith)) (rw valid_u refl)
