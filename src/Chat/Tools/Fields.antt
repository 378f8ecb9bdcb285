-- ===== src/Chat/Tools/Fields.antt =====
-- backend/internal/chat/tools/validate.go: the fields of the arguments that a tool accepts.
use urara_vision.Base.{ℕ, Bool, true, false, List, [], ◌∷◌}
use urara_vision.Base.Text.{Text, codes}
use urara_vision.Base.Maps.{Map}
use urara_vision.Base.Json.{Value}

-- The item of a path into the arguments: a name or an index.
pub data Place : Type 0 where
  at_name : Text → Place
  at_index : ℕ → Place

pub record Problem : Type 0 where
  pub kind : Text  -- Type
  pub loc : List Place
  pub msg : Text
  pub input : Value
  pub ctx : Map Value
  pub reason : Text

pub data Kind : Type 0 where
  kind_string kind_int kind_strings : Kind

pub record Field : Type 0 where
  pub name : Text
  pub kind : Kind
  pub required : Bool
  pub nullable : Bool
  pub min : ℕ
  pub max : ℕ
  pub enum : List Text

abbrev pub text_field : Text → Bool → Bool → List Text → Field
text_field n req nul choices = record {
  name = n;
  kind = kind_string;
  required = req;
  nullable = nul;
  min = 0;
  max = 0;
  enum = choices;
}

abbrev pub int_field : Text → ℕ → ℕ → Field
int_field n lo hi = record {
  name = n;
  kind = kind_int;
  required = false;
  nullable = false;
  min = lo;
  max = hi;
  enum = [];
}

abbrev pub ids_field : Field
ids_field = record {
  name = codes "ids";
  kind = kind_strings;
  required = true;
  nullable = false;
  min = 1;
  max = 8;
  enum = [];
}

abbrev pub list_tables_fields : List Field
list_tables_fields = text_field (codes "domain") false true [] ∷ []

abbrev pub get_tables_fields : List Field
get_tables_fields = ids_field ∷ []

abbrev pub search_fields : List Field
search_fields = text_field (codes "query") true false [] ∷ int_field (codes "limit") 1 50 ∷ []

abbrev pub neighbourhood_fields : List Field
neighbourhood_fields =
    text_field (codes "table_id") true false [] ∷ int_field (codes "depth") 1 3 ∷ []

abbrev pub join_paths_fields : List Field
join_paths_fields =
    text_field (codes "from_table") true false []
    ∷ text_field (codes "to_table") true false []
    ∷ int_field (codes "max_depth") 1 6
    ∷ []

abbrev pub lineage_fields : List Field
lineage_fields =
    text_field (codes "table_id") true false []
    ∷ text_field (codes "direction") false false (codes "upstream" ∷ codes "downstream" ∷ [])
    ∷ []

abbrev pub diagnostics_fields : List Field
diagnostics_fields =
    text_field (codes "severity") false true (codes "error" ∷ codes "warning" ∷ codes "info" ∷ [])
    ∷ []

-- The fields of every tool.
abbrev pub all_fields : Map (List Field)
all_fields =
    (codes "list_domains", [])
    ∷ (codes "list_tables", list_tables_fields)
    ∷ (codes "get_tables", get_tables_fields)
    ∷ (codes "search_model", search_fields)
    ∷ (codes "get_neighbourhood", neighbourhood_fields)
    ∷ (codes "find_join_paths", join_paths_fields)
    ∷ (codes "get_lineage", lineage_fields)
    ∷ (codes "list_diagnostics", diagnostics_fields)
    ∷ (codes "list_source_models", [])
    ∷ []
