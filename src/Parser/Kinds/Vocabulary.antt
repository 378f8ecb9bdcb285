-- ===== src/Parser/Kinds/Vocabulary.antt =====
-- backend/internal/parser/normalise.go: the tables of words, prefixes and suffixes that name a role.
use urara_vision.Base.{List, [], ◌∷◌}
use urara_vision.Base.Text.{Text, codes}
use urara_vision.Base.Maps.{Map}
use urara_vision.Model.Roles.{
  kind_associative, kind_bridge, kind_degenerate, kind_dimension, kind_entity, kind_fact,
  kind_factless, kind_hub, kind_junk, kind_link, kind_lookup, kind_outrigger, kind_pit,
  kind_reference, kind_satellite,
}

abbrev pub role_aliases : Map Text
role_aliases =
    (codes "fact", kind_fact)
    ∷ (codes "fact table", kind_fact)
    ∷ (codes "transaction fact", kind_fact)
    ∷ (codes "periodic snapshot", kind_fact)
    ∷ (codes "accumulating snapshot", kind_fact)
    ∷ (codes "aggregate fact", kind_fact)
    ∷ (codes "factless", kind_factless)
    ∷ (codes "factless fact", kind_factless)
    ∷ (codes "coverage fact", kind_factless)
    ∷ (codes "dim", kind_dimension)
    ∷ (codes "dimension", kind_dimension)
    ∷ (codes "conformed dimension", kind_dimension)
    ∷ (codes "role playing dimension", kind_dimension)
    ∷ (codes "role-playing dimension", kind_dimension)
    ∷ (codes "slowly changing dimension", kind_dimension)
    ∷ (codes "scd", kind_dimension)
    ∷ (codes "mini dimension", kind_dimension)
    ∷ (codes "mini-dimension", kind_dimension)
    ∷ (codes "shrunken dimension", kind_dimension)
    ∷ (codes "outrigger", kind_outrigger)
    ∷ (codes "outrigger dimension", kind_outrigger)
    ∷ (codes "sub dimension", kind_outrigger)
    ∷ (codes "sub-dimension", kind_outrigger)
    ∷ (codes "subdimension", kind_outrigger)
    ∷ (codes "snowflaked dimension", kind_outrigger)
    ∷ (codes "snowflake dimension", kind_outrigger)
    ∷ (codes "normalised dimension", kind_outrigger)
    ∷ (codes "normalized dimension", kind_outrigger)
    ∷ (codes "bridge", kind_bridge)
    ∷ (codes "bridge table", kind_bridge)
    ∷ (codes "multi valued bridge", kind_bridge)
    ∷ (codes "multi-valued bridge", kind_bridge)
    ∷ (codes "helper table", kind_bridge)
    ∷ (codes "junk", kind_junk)
    ∷ (codes "junk dimension", kind_junk)
    ∷ (codes "degenerate", kind_degenerate)
    ∷ (codes "degenerate dimension", kind_degenerate)
    ∷ (codes "hub", kind_hub)
    ∷ (codes "hub table", kind_hub)
    ∷ (codes "link", kind_link)
    ∷ (codes "link table", kind_link)
    ∷ (codes "same as link", kind_link)
    ∷ (codes "same-as link", kind_link)
    ∷ (codes "hierarchical link", kind_link)
    ∷ (codes "sat", kind_satellite)
    ∷ (codes "satellite", kind_satellite)
    ∷ (codes "effectivity satellite", kind_satellite)
    ∷ (codes "pit", kind_pit)
    ∷ (codes "point in time", kind_pit)
    ∷ (codes "point-in-time", kind_pit)
    ∷ (codes "entity", kind_entity)
    ∷ (codes "base table", kind_entity)
    ∷ (codes "normalised entity", kind_entity)
    ∷ (codes "normalized entity", kind_entity)
    ∷ (codes "associative", kind_associative)
    ∷ (codes "associative entity", kind_associative)
    ∷ (codes "associative table", kind_associative)
    ∷ (codes "junction", kind_associative)
    ∷ (codes "junction table", kind_associative)
    ∷ (codes "join table", kind_associative)
    ∷ (codes "cross reference", kind_associative)
    ∷ (codes "cross-reference", kind_associative)
    ∷ (codes "xref", kind_associative)
    ∷ (codes "lookup", kind_lookup)
    ∷ (codes "lookup table", kind_lookup)
    ∷ (codes "code table", kind_lookup)
    ∷ (codes "reference", kind_reference)
    ∷ (codes "reference table", kind_reference)
    ∷ (codes "reference data", kind_reference)
    ∷ (codes "master data", kind_reference)
    ∷ []

abbrev pub name_prefixes : List (Text × Text)
name_prefixes =
    (codes "factless_", kind_factless)
    ∷ (codes "fact_", kind_fact)
    ∷ (codes "fct_", kind_fact)
    ∷ (codes "dimension_", kind_dimension)
    ∷ (codes "dim_", kind_dimension)
    ∷ (codes "outrigger_", kind_outrigger)
    ∷ (codes "junk_", kind_junk)
    ∷ (codes "bridge_", kind_bridge)
    ∷ (codes "brg_", kind_bridge)
    ∷ (codes "hub_", kind_hub)
    ∷ (codes "link_", kind_link)
    ∷ (codes "lnk_", kind_link)
    ∷ (codes "satellite_", kind_satellite)
    ∷ (codes "sat_", kind_satellite)
    ∷ (codes "pit_", kind_pit)
    ∷ (codes "xref_", kind_associative)
    ∷ (codes "map_", kind_associative)
    ∷ (codes "lookup_", kind_lookup)
    ∷ (codes "lkp_", kind_lookup)
    ∷ (codes "ref_", kind_reference)
    ∷ []

abbrev pub name_suffixes : List (Text × Text)
name_suffixes =
    (codes "_factless", kind_factless)
    ∷ (codes "_fact", kind_fact)
    ∷ (codes "_dimension", kind_dimension)
    ∷ (codes "_dim", kind_dimension)
    ∷ (codes "_outrigger", kind_outrigger)
    ∷ (codes "_bridge", kind_bridge)
    ∷ (codes "_hub", kind_hub)
    ∷ (codes "_link", kind_link)
    ∷ (codes "_satellite", kind_satellite)
    ∷ (codes "_sat", kind_satellite)
    ∷ (codes "_pit", kind_pit)
    ∷ (codes "_xref", kind_associative)
    ∷ (codes "_lookup", kind_lookup)
    ∷ (codes "_ref", kind_reference)
    ∷ []
