-- ===== src/Examples/Access.antt =====
-- Roles, the login limiter and the permission table at work.
use urara_vision.Base.{
  suc, ◌≡◌, [], ◌∷◌, ltb, length, arith, List, ◌++◌, inl, inr, refl, In, take, if◌then◌else◌,
}
use urara_vision.Base.Text.{Text, codes}
use urara_vision.Access.Limits.{RateLimiter, login_window, limit_for, allow, fail}
use urara_vision.Access.Limits.Laws.{recent, allow-fail}
use urara_vision.Access.Roles.{role_admin}
use urara_vision.Access.Routes.{
  kind_user, principal_can, route_permissions, route_key, require_permission, served, refused,
}
use urara_vision.Access.Routes.Gates.{require_permission_lem}

abbrev four_failures : RateLimiter
four_failures = record {
  window = login_window;
  failures = (codes "user:ada", 1 ∷ 5 ∷ 7 ∷ 900000000002 ∷ []) ∷ [];
}

allow-fail_example :
    (allow 900000000003 (codes "user:ada") (fail 900000000003 (codes "user:ada") four_failures)).0
    ≡ ltb
        (suc (length (recent 900000000003 (codes "user:ada") four_failures)))
        (limit_for (codes "user:ada"))
allow-fail_example = allow-fail 900000000003 (codes "user:ada") four_failures (omega arith)

last_In : (x : Text × Text) (xs : List (Text × Text)) → In x (xs ++ x ∷ [])
last_In x [] = inl refl
last_In x (y ∷ xs) = inr (last_In x xs)

last_route : In (codes "DELETE /api/v1/users/{id}", codes "user.delete") route_permissions
last_route =
    last_In (codes "DELETE /api/v1/users/{id}", codes "user.delete") (take 39 route_permissions)

require_permission_lem_example :
    let deleting = codes "DELETE /api/v1/users/{id}" in
    let verdict =
      if principal_can (kind_user role_admin) (codes "user.delete") then served else refused in
    (require_permission (kind_user role_admin) deleting ≡ verdict)
    × (require_permission (kind_user role_admin) (route_key deleting) ≡ verdict)
require_permission_lem_example =
    require_permission_lem (kind_user role_admin) (codes "DELETE /api/v1/users/{id}")
      (codes "user.delete") last_route
