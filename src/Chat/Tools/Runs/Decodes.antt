-- ===== src/Chat/Tools/Runs/Decodes.antt =====
-- backend/internal/chat/tools/tools.go and validate.go: members that fit the fields of a tool are
-- decoded without an error, and within bounds.
use urara_vision.Base.{
  ℕ, suc, ◌≤◌, ◌≡◌, refl, ap, inl, inr, Bool, true, false, Option, none, some, List, [], ◌∷◌, arith,
  length,
}
use urara_vision.Base.Text.{Text, codes}
use urara_vision.Base.Maps.{keys}
use urara_vision.Base.Json.{Value, str, Items, no_items, item, Members, find, ℤ, pos, list_of}
use urara_vision.Chat.Tools.Fields.{
  text_field, int_field, ids_field, list_tables_fields, get_tables_fields, search_fields,
  neighbourhood_fields, join_paths_fields, lineage_fields, diagnostics_fields, all_fields,
}
use urara_vision.Chat.Tools.Validate.Accepts.{AllStrings, Fits, IsAccepted}
use urara_vision.Chat.Tools.Backend.{Outcome, came, Backend}
use urara_vision.Chat.Tools.Runs.{
  and_then, text_arg, int_arg, or_mismatch, texts_in, texts_arg, search_args, neighbourhood_args,
  join_paths_args, lineage_args, build_tools,
}

-- What is decoded, and how it is bounded.
abbrev pub Decoded : {A : Type 0} → Outcome A → (A → Type 0) → Type 0
Decoded {A} o P = (a : A) × (o ≡ came a) × P a

abbrev pub Between : ℕ → ℕ → ℤ → Type 0
Between lo hi n = (k : ℕ) × (n ≡ pos k) × (lo ≤ k) × (k ≤ hi)

abbrev pub Anything : {A : Type 0} → A → Type 0
Anything a = Unit

text_arg_Decoded :
    (name : Text) (req nul : Bool) (choices : List Text) (d : Text) (o : Option Value)
    → Fits (text_field name req nul choices) o
    → Decoded (text_arg d o) Anything
unfolding text_arg
text_arg_Decoded name req nul choices d none h = (d, refl, tt)
text_arg_Decoded name req nul choices d (some v) (inl h) = (d, rw h.1 refl, tt)
text_arg_Decoded name req nul choices d (some v) (inr (s, e, h)) = (s, rw e refl, tt)

int_arg_Decoded :
    (name : Text) (lo hi d : ℕ) (o : Option Value)
    → lo ≤ d
    → d ≤ hi
    → Fits (int_field name lo hi) o
    → Decoded (int_arg d o) (Between lo hi)
unfolding int_arg or_mismatch
int_arg_Decoded name lo hi d none l u h = (pos d, refl, (d, refl, l, u))
int_arg_Decoded name lo hi d (some v) l u (inl h) = absurd (ground arith)
int_arg_Decoded name lo hi d (some v) l u (inr (t, n, e, q, x, y)) =
    (pos n, rw (e, q) refl, (n, refl, x, y))

texts_in_Decoded :
    (vs : Items) → AllStrings vs → Decoded (texts_in vs) (λ ss. length ss ≡ length (list_of vs))
unfolding texts_in and_then text_arg list_of
texts_in_Decoded no_items h = ([], refl, refl)
texts_in_Decoded (item (str s) vs) h =
    let (ss, e, l) = texts_in_Decoded vs h.1 in (s ∷ ss, rw e refl, ap suc l)
texts_in_Decoded (item v vs) h = absurd (ground arith)

-- Between one and eight.
abbrev pub IsFew : List Text → Type 0
IsFew ss = (1 ≤ length ss) × (length ss ≤ 8)

texts_arg_Decoded : (o : Option Value) → Fits ids_field o → Decoded (texts_arg o) IsFew
unfolding texts_arg
texts_arg_Decoded none h = absurd (ground arith)
texts_arg_Decoded (some v) (inl h) = absurd (ground arith)
texts_arg_Decoded (some v) (inr (vs, e, x, lo, hi)) =
    let (ss, q, l) = texts_in_Decoded vs x in
    (ss, rw (e, q) refl, (omega (arith, l, lo), omega (arith, l, hi)))

-- Members that fit the fields of a tool are decoded without an error; a search asks for one
-- to fifty hits, a neighbourhood for one to three hops, a path for one to six, and tables are read
-- one to eight together.
pub IsAccepted-Decoded :
    (ms : Members)
    → (IsAccepted search_fields ms → Decoded (search_args ms) (λ (q, n). Between 1 50 n))
      × (IsAccepted neighbourhood_fields ms
          → Decoded (neighbourhood_args ms) (λ (id, n). Between 1 3 n))
      × (IsAccepted join_paths_fields ms
          → Decoded (join_paths_args ms) (λ (x, y, n). Between 1 6 n))
      × (IsAccepted get_tables_fields ms → Decoded (texts_arg (find (codes "ids") ms)) IsFew)
      × (IsAccepted lineage_fields ms → Decoded (lineage_args ms) Anything)
      × (IsAccepted list_tables_fields ms
          → Decoded (text_arg [] (find (codes "domain") ms)) Anything)
      × (IsAccepted diagnostics_fields ms
          → Decoded (text_arg [] (find (codes "severity") ms)) Anything)
unfolding search_args neighbourhood_args join_paths_args lineage_args and_then
IsAccepted-Decoded ms = (
  λ h.
      let (q, e, t) =
        text_arg_Decoded (codes "query") true false [] [] (find (codes "query") ms) h.fits.0 in
      let (n, f, b) =
        int_arg_Decoded (codes "limit") 1 50 20 (find (codes "limit") ms) (omega arith)
          (omega arith) h.fits.1.0 in
      ((q, n), rw (e, f) refl, b),
  λ h.
      let (q, e, t) =
        text_arg_Decoded (codes "table_id") true false [] [] (find (codes "table_id") ms)
          h.fits.0 in
      let (n, f, b) =
        int_arg_Decoded (codes "depth") 1 3 1 (find (codes "depth") ms) (omega arith) (omega arith)
          h.fits.1.0 in
      ((q, n), rw (e, f) refl, b),
  λ h.
      let (x, e, t) =
        text_arg_Decoded (codes "from_table") true false [] [] (find (codes "from_table") ms)
          h.fits.0 in
      let (y, g, s) =
        text_arg_Decoded (codes "to_table") true false [] [] (find (codes "to_table") ms)
          h.fits.1.0 in
      let (n, f, b) =
        int_arg_Decoded (codes "max_depth") 1 6 4 (find (codes "max_depth") ms) (omega arith)
          (omega arith) h.fits.1.1.0 in
      ((x, y, n), rw (e, g, f) refl, b),
  λ h. texts_arg_Decoded (find (codes "ids") ms) h.fits.0,
  λ h.
      let (q, e, t) =
        text_arg_Decoded (codes "table_id") true false [] [] (find (codes "table_id") ms)
          h.fits.0 in
      let (d, f, s) =
        text_arg_Decoded (codes "direction") false false
          (codes "upstream" ∷ codes "downstream" ∷ []) (codes "upstream")
          (find (codes "direction") ms) h.fits.1.0 in
      ((q, d), rw (e, f) refl, tt),
  λ h. text_arg_Decoded (codes "domain") false true [] [] (find (codes "domain") ms) h.fits.0,
  λ h.
      text_arg_Decoded (codes "severity") false true
        (codes "error" ∷ codes "warning" ∷ codes "info" ∷ []) [] (find (codes "severity") ms)
        h.fits.0,
)

-- Build gives exactly the tools that Validate knows, in the same order.
build_tools-keys :
    (b : Backend) (unmarshal : Text → Option Value)
    → keys (build_tools b unmarshal) ≡ keys all_fields
unfolding build_tools keys
build_tools-keys b unmarshal = refl
