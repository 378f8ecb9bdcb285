-- ===== src/Access/Roles.antt =====
-- backend/internal/auth/roles.go: the roles of users, their permissions and their names.
pub mod Laws
use urara_vision.Base.{
  ℕ, Bool, true, false, Option, none, some, List, [], ◌∷◌, ◌++◌, not, ◌&&◌, ◌||◌, nat_eq, leb,
  length, if◌then◌else◌,
}
use urara_vision.Base.Text.{Text, codes, ◌==◌, elem, to_lower}
use urara_vision.Base.Sort.{sort_strings}

abbrev pub role_viewer : Text
role_viewer = codes "viewer"

abbrev pub role_creator : Text
role_creator = codes "creator"

abbrev pub role_admin : Text
role_admin = codes "admin"

-- An unknown role is an error.
unfoldable pub parse_role : Text → Option Text
parse_role s = if s == role_viewer || s == role_creator || s == role_admin then some s else none

abbrev pub viewer_perms : List Text
viewer_perms = codes "project.view" ∷ codes "chat.use" ∷ codes "note.write" ∷ []

abbrev pub creator_perms : List Text
creator_perms = viewer_perms ++ codes "project.import" ∷ codes "version.import" ∷ []

abbrev pub admin_perms : List Text
admin_perms =
    creator_perms
    ++ codes "project.delete"
      ∷ codes "version.delete"
      ∷ codes "note.moderate"
      ∷ codes "settings.manage"
      ∷ codes "user.manage"
      ∷ codes "user.delete"
      ∷ []

unfoldable pub permissions : Text → List Text
permissions role =
    if role == role_viewer
    then sort_strings viewer_perms
    else if role == role_creator
    then sort_strings creator_perms
    else if role == role_admin
    then sort_strings admin_perms
    else []

unfoldable pub can : Text → Text → Bool
can role p = elem p (permissions role)

-- [a-z0-9._-]
abbrev pub name_byte : ℕ → Bool
name_byte c =
    leb b'a' c && leb c b'z'
    || leb b'0' c && leb c b'9'
    || nat_eq c b'.'
    || nat_eq c b'_'
    || nat_eq c b'-'

unfoldable pub name_bytes : Text → Bool
name_bytes [] = true
name_bytes (c ∷ s) = name_byte c && name_bytes s

unfoldable pub is_username : Text → Bool
is_username u = leb 3 (length u) && leb (length u) 64 && name_bytes u

unfoldable pub normalise_username : Text → Option Text
normalise_username s = let u = to_lower s in if is_username u then some u else none
