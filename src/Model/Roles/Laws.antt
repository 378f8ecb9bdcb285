-- ===== src/Model/Roles/Laws.antt =====
-- backend/internal/model/roles.go: the vocabulary is open, and the roles that must join others are
-- known.
use urara_vision.Base.{
  ◌≡◌, refl, ◌≢◌, Bool, false, Option, none, some, List, [], ◌∷◌, arith, ap, ◌∙◌, if◌then◌else◌,
}
use urara_vision.Base.Text.{Text, ◌==◌, ==_iff, elem}
use urara_vision.Base.Maps.{Map, get, put, get-put, keys, Distinct}
use urara_vision.Model.Roles.{
  Role, index_roles, known_roles, role_by_id, role_or_slug, role_of, is_connective, kind_fact,
  kind_factless, kind_bridge, kind_link, kind_associative,
}

-- Every role is stored under its own identifier.
abbrev IsKeyedById : Map Role → Type 0
IsKeyedById m = (k : Text) (r : Role) → get k m ≡ some r → r.id ≡ k

index_roles-IsKeyedById :
    (rs : List Role) (m : Map Role) → IsKeyedById m → IsKeyedById (index_roles rs m)
unfolding index_roles
index_roles-IsKeyedById [] m h = h
index_roles-IsKeyedById (r ∷ rs) m h =
    index_roles-IsKeyedById rs (put r.id r m)
      λ k s e. ground (arith, get-put r.id k r m, ==_iff r.id k, h k s)

role_by_id-IsKeyedById : IsKeyedById role_by_id
unfolding role_by_id
role_by_id-IsKeyedById =
    index_roles-IsKeyedById known_roles [] (λ k r e. absurd (unfold get in cc e))

role_or_slug-id :
    (k : Text) (o : Option Role)
    → ((r : Role) → o ≡ some r → r.id ≡ k)
    → k ≢ []
    → (role_or_slug k o).id ≡ k
unfolding role_or_slug
role_or_slug-id k (some r) h n = h r refl
role_or_slug-id k none h n = ground (arith, ==_iff k [])

-- A kind that is written at all keeps its own name as its role's identifier, known or not.
pub id-role_of : (k : Text) → k ≢ [] → (role_of k).id ≡ k
unfolding role_of
id-role_of k n = role_or_slug-id k (get k role_by_id) (role_by_id-IsKeyedById k) n

-- The roles whose purpose is to join other tables.
abbrev pub connective_kinds : List Text
connective_kinds = kind_fact ∷ kind_factless ∷ kind_bridge ∷ kind_link ∷ kind_associative ∷ []

connective_at : Option Role → Bool
connective_at none = false
connective_at (some r) = r.connective

connective_ids : Map Role → List Text
connective_ids [] = []
connective_ids ((j, r) ∷ m) = if r.connective then j ∷ connective_ids m else connective_ids m

connective_ids-keys :
    (k : Text) (m : Map Role) → elem k (keys m) ≡ false → elem k (connective_ids m) ≡ false
unfolding connective_ids keys elem
connective_ids-keys k [] h = refl
connective_ids-keys k ((j, r) ∷ m) h = ground (arith, connective_ids-keys k m)

connective_at-get :
    (k : Text) (m : Map Role)
    → Distinct (keys m)
    → connective_at (get k m) ≡ elem k (connective_ids m)
unfolding connective_at connective_ids keys get elem
connective_at-get k [] h = refl
connective_at-get k ((j, r) ∷ m) h =
    ground (arith, connective_at-get k m h.1, connective_ids-keys k m, ==_iff j k)

connective-role_or_slug :
    (k : Text) (o : Option Role) → (role_or_slug k o).connective ≡ connective_at o
unfolding role_or_slug connective_at get
connective-role_or_slug k (some r) = refl
connective-role_or_slug k none = ground arith

role_by_id-Distinct : Distinct (keys role_by_id)
unfolding role_by_id keys elem ◌==◌
role_by_id-Distinct = ground arith

role_by_id-connective : connective_ids role_by_id ≡ connective_kinds
unfolding role_by_id connective_ids ◌==◌
role_by_id-connective = refl

-- A kind is connective exactly when it is one of fact, factless, bridge, link and associative; no
-- kind outside the built-in vocabulary is.
pub is_connective-eq-elem : (k : Text) → is_connective k ≡ elem k connective_kinds
unfolding is_connective
is_connective-eq-elem k =
    connective-role_or_slug k (get k role_by_id)
    ∙ connective_at-get k role_by_id role_by_id-Distinct
    ∙ ap (elem k) role_by_id-connective
