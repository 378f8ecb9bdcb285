-- ===== src/Model/Roles.antt =====
-- backend/internal/model/roles.go: the open vocabulary of table roles. A TableKind is a text.
pub mod Laws
use urara_vision.Base.{
  ℕ, Bool, true, false, Option, none, some, List, [], ◌∷◌, ◌++◌, ◌||◌, nat_eq, if◌then◌else◌,
}
use urara_vision.Base.Text.{Text, codes, ◌==◌, upper_byte, fields_by, join}
use urara_vision.Base.Maps.{Map, get, put}

pub data RoleFamily : Type 0 where
  kimball vault relational other : RoleFamily

pub record Role : Type 0 where
  pub id : Text
  pub label : Text
  pub family : RoleFamily
  pub connective : Bool

abbrev pub kind_fact : Text
kind_fact = codes "fact"

abbrev pub kind_factless : Text
kind_factless = codes "factless"

abbrev pub kind_dimension : Text
kind_dimension = codes "dimension"

abbrev pub kind_outrigger : Text
kind_outrigger = codes "outrigger"

abbrev pub kind_bridge : Text
kind_bridge = codes "bridge"

abbrev pub kind_junk : Text
kind_junk = codes "junk"

abbrev pub kind_degenerate : Text
kind_degenerate = codes "degenerate"

abbrev pub kind_hub : Text
kind_hub = codes "hub"

abbrev pub kind_link : Text
kind_link = codes "link"

abbrev pub kind_satellite : Text
kind_satellite = codes "satellite"

abbrev pub kind_pit : Text
kind_pit = codes "pit"

abbrev pub kind_entity : Text
kind_entity = codes "entity"

abbrev pub kind_associative : Text
kind_associative = codes "associative"

abbrev pub kind_lookup : Text
kind_lookup = codes "lookup"

abbrev pub kind_reference : Text
kind_reference = codes "reference"

abbrev pub kind_unknown : Text
kind_unknown = codes "unknown"

abbrev role : Text → Text → RoleFamily → Bool → Role
role k l f c = record { id = k; label = l; family = f; connective = c }

-- In display order.
unfoldable pub known_roles : List Role
known_roles =
    role kind_fact (codes "Fact") kimball true
    ∷ role kind_factless (codes "Factless fact") kimball true
    ∷ role kind_dimension (codes "Dimension") kimball false
    ∷ role kind_outrigger (codes "Outrigger") kimball false
    ∷ role kind_bridge (codes "Bridge") kimball true
    ∷ role kind_junk (codes "Junk dimension") kimball false
    ∷ role kind_degenerate (codes "Degenerate dimension") kimball false
    ∷ role kind_hub (codes "Hub") vault false
    ∷ role kind_link (codes "Link") vault true
    ∷ role kind_satellite (codes "Satellite") vault false
    ∷ role kind_pit (codes "Point-in-time") vault false
    ∷ role kind_entity (codes "Entity") relational false
    ∷ role kind_associative (codes "Associative") relational true
    ∷ role kind_lookup (codes "Lookup") relational false
    ∷ role kind_reference (codes "Reference") relational false
    ∷ role kind_unknown (codes "Unknown") other false
    ∷ []

-- The map that `roleByID` is built as, by the loop over the list.
unfoldable pub index_roles : List Role → Map Role → Map Role
index_roles [] m = m
index_roles (r ∷ rs) m = index_roles rs (put r.id r m)

unfoldable pub role_by_id : Map Role
unfolding index_roles known_roles put ◌==◌
role_by_id = index_roles known_roles []

upper_first : Text → Text
upper_first [] = []
upper_first (c ∷ s) = upper_byte c ∷ s

label_of : Text → List Text → Text
unfolding upper_first
label_of k [] = k
label_of k (p ∷ ps) = join (codes " ") (upper_first p ∷ ps)

unfoldable pub role_label : Text → Text
unfolding label_of
role_label k = label_of k (fields_by (λ c. nat_eq c b'_' || nat_eq c b'-') k)

or_unknown : Option Role → Role
or_unknown (some r) = r
or_unknown none = role [] [] other false

role_or_slug : Text → Option Role → Role
unfolding or_unknown role_by_id
role_or_slug k (some r) = r
role_or_slug k none =
    if k == [] then or_unknown (get kind_unknown role_by_id) else role k (role_label k) other false

unfoldable pub role_of : Text → Role
unfolding role_or_slug
role_of k = role_or_slug k (get k role_by_id)

unfoldable pub is_connective : Text → Bool
unfolding role_of
is_connective k = (role_of k).connective
