-- ===== src/I18n/Prose.antt =====
-- backend/internal/i18ntext/prose.go: the fields of a model that are prose.
-- A site's pointer into the model is modelled by the text that it points to; Resolve, which writes
-- through the pointers, is the same walk with a function over the texts.
use urara_vision.Base.{
  ℕ, ◌+◌, Bool, true, false, Option, none, some, List, [], ◌∷◌, ◌++◌, ◌||◌, ◌&&◌, not, map,
  is_empty, if◌then◌else◌,
}
use urara_vision.Base.Text.{Text, codes, ◌==◌, trim_space}
use urara_vision.Base.Maps.{get}
use urara_vision.Model.{
  Model, Domain, Table, Column, ColumnLineage, Severity, warning, info, Diagnostic,
}
use urara_vision.I18n.{Splitter, Field, new, split, translated, in_lang}

pub record Site : Type 0 where
  pub field : Text
  pub subject : Text
  pub domain_id : Text
  pub table_id : Text
  pub doc_path : Text
  pub text : Text

abbrev domain_site : Domain → Text → Text → Site
domain_site d field text = record {
  field = field;
  subject = d.name;
  domain_id = d.id;
  table_id = [];
  doc_path = d.doc_path;
  text = text;
}

unfoldable pub domain_sites : List Domain → List Site
domain_sites [] = []
domain_sites (d ∷ ds) =
    domain_site d (codes "title") d.title
    ∷ domain_site d (codes "description") d.description
    ∷ domain_sites ds

abbrev table_site : Table → Text → Text → Site
table_site t field text = record {
  field = field;
  subject = t.name;
  domain_id = t.domain_id;
  table_id = t.id;
  doc_path = t.doc_path;
  text = text;
}

unfoldable pub note_sites : Table → List Site
note_sites t =
    map (table_site t (codes "notes")) t.notes
    ++ map (λ c. table_site t (codes "description of column " ++ c.name) c.description) t.columns
    ++ map (λ l. table_site t (codes "lineage note for column " ++ l.column) l.notes)
        t.column_lineage

unfoldable pub table_sites : List Table → List Site
table_sites [] = []
table_sites (t ∷ ts) =
    table_site t (codes "description") t.description
      ∷ table_site t (codes "grain") t.grain
      ∷ table_site t (codes "update frequency") t.update_frequency
      ∷ table_site t (codes "relationship note") t.relationship_note
      ∷ note_sites t
    ++ table_sites ts

unfoldable pub sites : Model → List Site
sites m = domain_sites m.domains ++ table_sites m.tables

pub record Report : Type 0 where
  pub translated : ℕ
  pub diagnostics : List Diagnostic

abbrev site_diagnostic : Site → Severity → Text → Text → Diagnostic
site_diagnostic s severity code message = record {
  severity = severity;
  code = code;
  message = message;
  domain_id = s.domain_id;
  table_id = s.table_id;
  doc_path = s.doc_path;
}

unfoldable pub duplicate_tag : Site → Text → Diagnostic
duplicate_tag s lang = site_diagnostic s warning (codes "duplicate_language_tag") (
    codes "The "
    ++ s.field
    ++ codes " of "
    ++ s.subject
    ++ codes " tags "
    ++ lang
    ++ codes " more than once; the parts were joined in the order they appear.")

unfoldable pub missing_primary : Site → Text → Text → Diagnostic
missing_primary s primary first = site_diagnostic s info (codes "missing_primary_language") (
    codes "The "
    ++ s.field
    ++ codes " of "
    ++ s.subject
    ++ codes " opens with a "
    ++ first
    ++ codes " tag, so "
    ++ primary
    ++ codes " -- the primary language -- has no text of its own and falls back to "
    ++ first
    ++ codes ".")

-- f.Langs[0], which panics on a field that carries no language; such a field is not reached here.
abbrev first_lang : List Text → Text
first_lang [] = []
first_lang (l ∷ ls) = l

abbrev has_text : Option Text → Bool
has_text none = false
has_text (some t) = true

-- What Check adds for one site.
unfoldable pub field_diagnostics : Site → Field → List Diagnostic
field_diagnostics s f =
    map (duplicate_tag s) f.duplicated
    ++ (if not (has_text (get f.primary f.by_lang)) && not (f.primary == [])
        then missing_primary s f.primary (first_lang f.langs) ∷ []
        else [])

-- Check goes past a field that is blank, or that has neither a translation nor a repeated tag.
unfoldable pub is_skipped : Splitter → Site → Bool
is_skipped sp s =
    let f = split sp s.text in
    trim_space s.text == [] || not (translated f) && is_empty f.duplicated

unfoldable pub check_sites : Splitter → List Site → Report
check_sites sp [] = record { translated = 0; diagnostics = [] }
check_sites sp (s ∷ ss) =
    let rest = check_sites sp ss in
    let f = split sp s.text in
    if is_skipped sp s then rest else record {
      translated = (if translated f then 1 else 0) + rest.translated;
      diagnostics = field_diagnostics s f ++ rest.diagnostics;
    }

unfoldable pub check : Model → Report
check m = check_sites (new m.snapshot.project.internationalization) (sites m)

-- What Resolve writes back into one field.
unfoldable pub resolve_text : Splitter → Text → Text → Text
resolve_text sp lang text = if trim_space text == [] then text else in_lang (split sp text) lang

abbrev resolve_domain : (Text → Text) → Domain → Domain
resolve_domain f d = record d { title = f d.title; description = f d.description }

abbrev resolve_column : (Text → Text) → Column → Column
resolve_column f c = record c { description = f c.description }

abbrev resolve_lineage : (Text → Text) → ColumnLineage → ColumnLineage
resolve_lineage f l = record l { notes = f l.notes }

abbrev resolve_table : (Text → Text) → Table → Table
resolve_table f t = record t {
  description = f t.description;
  grain = f t.grain;
  update_frequency = f t.update_frequency;
  relationship_note = f t.relationship_note;
  notes = map f t.notes;
  columns = map (resolve_column f) t.columns;
  column_lineage = map (resolve_lineage f) t.column_lineage;
}

unfoldable pub resolve : Model → Text → Model
resolve m lang =
    let f = resolve_text (new m.snapshot.project.internationalization) lang in
    record m { domains = map (resolve_domain f) m.domains; tables = map (resolve_table f) m.tables }
