-- ===== src/Chat/Card.antt =====
-- backend/internal/chat/agent/card.go: the context card of a snapshot, and the cache of cards. The
-- clock is an argument; one caller is in the cache at a time, so the lock of an entry and the second
-- look after waiting for it are left out.
pub mod Cache
pub mod Reuse
use urara_vision.Base.{
  ℕ, zero, suc, ◌+◌, Bool, true, false, not, Option, none, some, List, [], ◌∷◌, ◌++◌, ◌&&◌, map,
  keep, leb, ltb, nat_eq, is_empty, length, take, if◌then◌else◌,
}
use urara_vision.Base.Text.{Text, codes, ◌==◌, join, trim_space}
use urara_vision.Base.Maps.{Map, get_or}
use urara_vision.Base.Print.{itoa}
use urara_vision.Base.Json.{Result, ok, fault}
use urara_vision.Model.{Stats, Project, Internationalization, ProjectMeta}

pub record ContextSnapshot : Type 0 where
  pub id : Text
  pub name : Text
  pub project : ProjectMeta
  pub stats : Stats

pub record ContextDomain : Type 0 where
  pub id : Text
  pub table_count : ℕ

pub record ContextTable : Type 0 where
  pub id : Text
  pub kind : Text
  pub grain : Text
  pub column_count : ℕ
  pub conformed : Bool

-- apiclient.Context
pub record Context : Type 0 where
  pub snapshot : ContextSnapshot
  pub domains : List ContextDomain
  pub tables : List ContextTable
  pub diagnostics : Map ℕ
  pub truncated : Bool

-- U+2014 in UTF-8
abbrev em_dash : Text
em_dash = 226 ∷ 128 ∷ 148 ∷ []

abbrev or_text : Text → Text → Text
or_text s t = if is_empty s then t else s

unfoldable pub language_lines : Internationalization → List Text
language_lines i =
    let others = keep (λ lang. not (lang == i.primary)) i.supported in
    if is_empty others
    then []
    else (codes "LANGUAGES: primary " ++ i.primary ++ codes ", also " ++ join (codes ", ") others)
      ∷ []

unfoldable pub total_count : Map ℕ → ℕ
total_count [] = 0
total_count ((k, n) ∷ m) = n + total_count m

unfoldable pub breakdown : Map ℕ → List Text → List Text
breakdown m [] = []
breakdown m (level ∷ levels) =
    let rest = breakdown m levels in
    let n = get_or level m 0 in if nat_eq n 0 then rest else (itoa n ++ codes " " ++ level) ∷ rest

abbrev levels : List Text
levels = codes "error" ∷ codes "warning" ∷ codes "info" ∷ []

unfoldable pub count_parts : Context → List Text
unfolding total_count breakdown
count_parts c =
    let s : Stats = c.snapshot.stats in
    let total = total_count c.diagnostics in
    (itoa s.domains ++ codes " domains")
    ∷ (itoa s.tables ++ codes " tables")
    ∷ (itoa s.columns ++ codes " columns")
    ∷ (itoa s.relationships ++ codes " relationships")
    ∷ (if nat_eq total 0
        then []
        else (itoa total
            ++ codes " diagnostics ("
            ++ join (codes ", ") (breakdown c.diagnostics levels)
            ++ codes ")")
          ∷ [])

unfoldable pub header : Context → List Text
unfolding language_lines count_parts
header c =
    let s : ContextSnapshot = c.snapshot in
    let p : Project = s.project.project in
    (codes "PROJECT: "
        ++ or_text p.name (or_text s.name s.id)
        ++ (if is_empty p.version then [] else codes " (v" ++ p.version ++ codes ")"))
      ∷ language_lines s.project.internationalization
    ++ (codes "COUNTS: " ++ join (codes ", ") (count_parts c)) ∷ []

abbrev domain_detail : ℕ → Text
domain_detail n =
    if nat_eq n 1
    then codes "1 table"
    else if nat_eq n 0
    then codes "(no tables documented)"
    else itoa n ++ codes " tables"

abbrev domain_line : ContextDomain → Text
domain_line d =
    codes "  " ++ d.id ++ codes " " ++ em_dash ++ codes " " ++ domain_detail d.table_count

abbrev table_line : ContextTable → Text
table_line t =
    codes "  "
    ++ t.id
    ++ codes " | "
    ++ t.kind
    ++ codes " | "
    ++ or_text t.grain em_dash
    ++ codes " | "
    ++ itoa t.column_count
    ++ (if t.conformed then codes " | conformed" else [])

unfoldable pub table_lines : Context → List Text
table_lines c =
    if c.truncated
    then (codes "TABLES: "
        ++ itoa c.snapshot.stats.tables
        ++ codes " tables, too many to list here. "
        ++ codes "Use search_model to find them by name or description, then get_tables "
        ++ codes "to read them.")
      ∷ []
    else codes "TABLES  (id | kind | grain | columns)" ∷ map table_line c.tables

-- RenderCard
unfoldable pub render_card : Context → Text
unfolding header table_lines
render_card c =
    trim_space (
      join (codes "\n")
        (header c ++ [] ∷ (codes "DOMAINS" ∷ map domain_line c.domains) ++ [] ∷ table_lines c))
    ++ codes "\n"

-- cardEntry
pub record CardEntry : Type 0 where
  pub id : Text
  pub card : Text
  pub expires : ℕ

-- CardCache: the entries, the one used last in front.
pub record CardCache : Type 0 where
  pub ttl : ℕ
  pub max_entries : ℕ
  pub order : List CardEntry

abbrev pub max_cached_cards : ℕ
max_cached_cards = 32

abbrev pub new_card_cache : ℕ → ℕ → CardCache
new_card_cache ttl max_entries = record { ttl = ttl; max_entries = max_entries; order = [] }

unfoldable pub entry_of : Text → List CardEntry → Option CardEntry
entry_of id [] = none
entry_of id (e ∷ es) = if e.id == id then some e else entry_of id es

unfoldable pub without : Text → List CardEntry → List CardEntry
without id [] = []
without id (e ∷ es) = let rest = without id es in if e.id == id then rest else e ∷ rest

-- slot: a new entry takes the place of the one used longest ago.
unfoldable pub place : Option CardEntry → Text → ℕ → List CardEntry → List CardEntry
unfolding without
place (some e) id limit es = e ∷ without id es
place none id limit es = take limit (record { id = id; card = []; expires = 0 } ∷ es)

unfoldable pub slot : Text → CardCache → CardCache
unfolding entry_of place
slot id c = record c { order = place (entry_of id c.order) id c.max_entries c.order }

-- live, of the entry that slot has put in front
unfoldable pub live : ℕ → CardEntry → CardEntry
live now e = if not (is_empty e.card) && leb e.expires now then record e { card = [] } else e

unfoldable pub refresh : ℕ → Text → List CardEntry → List CardEntry
unfolding live
refresh now id [] = []
refresh now id (e ∷ es) = if e.id == id then live now e ∷ es else e ∷ refresh now id es

unfoldable pub card_of : Option CardEntry → Text
card_of none = []
card_of (some e) = e.card

-- What is written to an entry that has been fetched; nothing sees it if the entry is gone.
unfoldable pub store_card : Text → Text → ℕ → List CardEntry → List CardEntry
store_card id card expires [] = []
store_card id card expires (e ∷ es) =
    if e.id == id
    then record e { card = card; expires = expires } ∷ es
    else e ∷ store_card id card expires es

unfoldable pub fetched : Text → ℕ → Result Context → CardCache → Result Text × CardCache
unfolding render_card store_card
fetched id done (fault e) c = (fault e, c)
fetched id done (ok snap) c = (
  ok (render_card snap),
  record c { order = store_card id (render_card snap) (done + c.ttl) c.order },
)

abbrev latest_card : Text
latest_card = codes "the card cache requires a concrete snapshot ID, not 'latest'; resolve it first"

-- Get; `fetch` is the backend's context, and `done` the time when it has come.
unfoldable pub get_card :
    Text → ℕ → ℕ → (Text → Result Context) → CardCache → Result Text × CardCache
unfolding slot refresh card_of fetched entry_of
get_card id now done fetch c =
    let s : CardCache = slot id c in
    let c' : CardCache = record s { order = refresh now id s.order } in
    let card = card_of (entry_of id c'.order) in
    if id == codes "latest"
    then (fault latest_card, c)
    else if is_empty card
    then fetched id done (fetch id) c'
    else (ok card, c')
