-- ===== src/Access/Routes/Gates.antt =====
-- backend/internal/api/permissions.go: the table guards every route that it names.
use mathlib.Core.Path.{subst}
use urara_vision.Base.{
  ◌≡◌, refl, sym, ap, inl, inr, Bool, true, false, Option, none, some, [], ◌∷◌, ◌&&◌, arith, In,
  if◌then◌else◌,
}
use urara_vision.Base.Text.{Text, ◌==◌, ==_iff}
use urara_vision.Base.Maps.{Map, get, put}
use urara_vision.Access.Routes.{
  Principal, principal_can, route_permissions, route_key, RouteRule, needs, public, add_permissions,
  add_public, route_rules, refused, served, judge, require_permission,
}

abbrev rule_is : Text → Option RouteRule → Bool
rule_is perm (some (needs q)) = perm == q
rule_is perm r = false

-- Whether each entry of a table is the rule of its route, written with or without the last slash.
abbrev all_ruled : Map RouteRule → Map Text → Bool
all_ruled rules [] = true
all_ruled rules ((r, perm) ∷ rs) =
    rule_is perm (get (route_key r) rules)
    && rule_is perm (get (route_key (route_key r)) rules)
    && all_ruled rules rs

table_ruled : all_ruled route_rules route_permissions ≡ true
unfolding route_rules get put route_key ◌==◌ add_permissions add_public
table_ruled = refl

rule_eq : (perm : Text) (o : Option RouteRule) → rule_is perm o ≡ true → o ≡ some (needs perm)
rule_eq perm none h = cc
rule_eq perm (some public) h = cc
rule_eq perm (some (needs q)) h = ap (λ x. some (needs x)) (sym ((==_iff perm q).0 h))

ruled :
    (rules : Map RouteRule) (table : Map Text) (r perm : Text)
    → all_ruled rules table ≡ true
    → In (r, perm) table
    → (get (route_key r) rules ≡ some (needs perm))
      × (get (route_key (route_key r)) rules ≡ some (needs perm))
ruled rules [] r perm h m = absurd m
ruled rules ((s, q) ∷ rs) r perm h (inr m) = ruled rules rs r perm (ground arith) m
ruled rules ((s, q) ∷ rs) r perm h (inl e) =
    subst
      (λ (x : Text × Text).
        (get (route_key x.0) rules ≡ some (needs x.1))
        × (get (route_key (route_key x.0)) rules ≡ some (needs x.1)))
      (sym e)
      (
        rule_eq q (get (route_key s) rules) (ground arith),
        rule_eq q (get (route_key (route_key s)) rules) (ground arith),
      )

-- A route of the permission table, with or without its last slash, is served to exactly the principals
-- that have its permission, and refused to the others: no other entry of the table and no public
-- route takes its place.
pub require_permission_lem :
    (p : Principal) (route perm : Text)
    → In (route, perm) route_permissions
    → let verdict = if principal_can p perm then served else refused in
      (require_permission p route ≡ verdict) × (require_permission p (route_key route) ≡ verdict)
unfolding require_permission judge
require_permission_lem p route perm m =
    let (a, b) = ruled route_rules route_permissions route perm table_ruled m in
    (ap (judge p) a, ap (judge p) b)
