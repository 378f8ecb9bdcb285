-- ===== src/Access/Routes.antt =====
-- backend/internal/api/permissions.go and backend/internal/auth/principal.go: which requests are let
-- through. The pattern that the router finds for a request is an argument.
pub mod Gates
use urara_vision.Base.{
  ℕ, Bool, true, false, Option, none, some, List, [], ◌∷◌, nat_eq, if◌then◌else◌,
}
use urara_vision.Base.Text.{Text, codes, elem}
use urara_vision.Base.Maps.{Map, get, put}
use urara_vision.Base.Sort.{sort_strings}
use urara_vision.Access.Roles.{role_admin, permissions}

-- The kind of a principal, with the role of a user.
pub data Principal : Type 0 where
  kind_user : Text → Principal
  kind_service kind_anonymous kind_none : Principal

abbrev pub service_perms : List Text
service_perms =
    codes "project.view" ∷ codes "chat.use" ∷ codes "project.import" ∷ codes "version.import" ∷ []

-- Principal.Permissions
unfoldable pub principal_perms : Principal → List Text
principal_perms (kind_user role) = permissions role
principal_perms kind_service = sort_strings service_perms
principal_perms kind_anonymous = permissions role_admin
principal_perms kind_none = []

unfoldable pub principal_can : Principal → Text → Bool
unfolding principal_perms
principal_can p perm = elem perm (principal_perms p)

-- routePermissions
abbrev pub route_permissions : Map Text
route_permissions =
    (codes "GET /api/v1/features", codes "project.view")
    ∷ (codes "GET /api/v1/snapshots", codes "project.view")
    ∷ (codes "GET /api/v1/snapshots/{sid}/", codes "project.view")
    ∷ (codes "GET /api/v1/snapshots/{sid}/context", codes "project.view")
    ∷ (codes "GET /api/v1/snapshots/{sid}/diagnostics", codes "project.view")
    ∷ (codes "GET /api/v1/snapshots/{sid}/domains", codes "project.view")
    ∷ (codes "GET /api/v1/snapshots/{sid}/graph", codes "project.view")
    ∷ (codes "GET /api/v1/snapshots/{sid}/lineage", codes "project.view")
    ∷ (codes "GET /api/v1/snapshots/{sid}/neighborhood", codes "project.view")
    ∷ (codes "GET /api/v1/snapshots/{sid}/paths", codes "project.view")
    ∷ (codes "GET /api/v1/snapshots/{sid}/search", codes "project.view")
    ∷ (codes "GET /api/v1/snapshots/{sid}/sources", codes "project.view")
    ∷ (codes "GET /api/v1/snapshots/{sid}/table", codes "project.view")
    ∷ (codes "GET /api/v1/snapshots/{sid}/tables", codes "project.view")
    ∷ (codes "GET /api/v1/snapshots/{sid}/tables/detail", codes "project.view")
    ∷ (codes "DELETE /api/v1/snapshots/{sid}/", codes "project.delete")
    ∷ (codes "GET /api/v1/snapshots/{sid}/notes", codes "project.view")
    ∷ (codes "GET /api/v1/snapshots/{sid}/notes/counts", codes "project.view")
    ∷ (codes "POST /api/v1/snapshots/{sid}/notes", codes "note.write")
    ∷ (codes "PATCH /api/v1/notes/{id}", codes "note.write")
    ∷ (codes "DELETE /api/v1/notes/{id}", codes "note.write")
    ∷ (codes "GET /api/v1/projects", codes "project.view")
    ∷ (codes "GET /api/v1/projects/{project}/", codes "project.view")
    ∷ (codes "GET /api/v1/projects/{project}/diff", codes "project.view")
    ∷ (codes "GET /api/v1/projects/{project}/versions", codes "project.view")
    ∷ (codes "GET /api/v1/projects/{project}/versions/{version}", codes "project.view")
    ∷ (codes "DELETE /api/v1/projects/{project}/", codes "project.delete")
    ∷ (codes "DELETE /api/v1/projects/{project}/versions/{version}", codes "version.delete")
    ∷ (codes "POST /api/v1/conversations/", codes "chat.use")
    ∷ (codes "GET /api/v1/conversations/", codes "chat.use")
    ∷ (codes "GET /api/v1/conversations/{cid}/", codes "chat.use")
    ∷ (codes "PATCH /api/v1/conversations/{cid}/", codes "chat.use")
    ∷ (codes "DELETE /api/v1/conversations/{cid}/", codes "chat.use")
    ∷ (codes "POST /api/v1/conversations/{cid}/messages", codes "chat.use")
    ∷ (codes "PATCH /api/v1/settings", codes "settings.manage")
    ∷ (codes "GET /api/v1/users", codes "user.manage")
    ∷ (codes "POST /api/v1/users", codes "user.manage")
    ∷ (codes "PATCH /api/v1/users/{id}", codes "user.manage")
    ∷ (codes "POST /api/v1/users/{id}/password", codes "user.manage")
    ∷ (codes "DELETE /api/v1/users/{id}", codes "user.delete")
    ∷ []

-- publicRoutes
abbrev pub public_routes : List Text
public_routes =
    codes "POST /api/v1/auth/login"
    ∷ codes "POST /api/v1/auth/logout"
    ∷ codes "GET /api/v1/auth/me"
    ∷ codes "POST /api/v1/auth/password"
    ∷ codes "GET /api/v1/auth/session"
    ∷ []

abbrev pub ingest_route : Text
ingest_route = codes "POST /api/v1/ingest"

-- routeKey
unfoldable pub route_key : Text → Text
route_key [] = []
route_key (c ∷ []) = if nat_eq c b'/' then [] else c ∷ []
route_key (c ∷ d ∷ s) = c ∷ route_key (d ∷ s)

pub data RouteRule : Type 0 where
  needs : Text → RouteRule
  public : RouteRule

unfoldable pub add_permissions : Map Text → Map RouteRule → Map RouteRule
unfolding route_key
add_permissions [] rules = rules
add_permissions ((r, perm) ∷ rs) rules = add_permissions rs (put (route_key r) (needs perm) rules)

unfoldable pub add_public : List Text → Map RouteRule → Map RouteRule
unfolding route_key
add_public [] rules = rules
add_public (r ∷ rs) rules = add_public rs (put (route_key r) public rules)

-- routeRules
unfoldable pub route_rules : Map RouteRule
unfolding add_permissions add_public
route_rules =
    add_public public_routes
      (add_permissions route_permissions ((route_key ingest_route, public) ∷ []))

-- What becomes of a request: an internal error, a refusal, or the handler.
pub data Verdict : Type 0 where
  no_entry refused served : Verdict

unfoldable pub judge : Principal → Option RouteRule → Verdict
unfolding principal_can
judge p none = no_entry
judge p (some public) = served
judge p (some (needs perm)) = if principal_can p perm then served else refused

-- RequirePermission
unfoldable pub require_permission : Principal → Text → Verdict
unfolding judge route_rules
require_permission p route = judge p (get (route_key route) route_rules)
