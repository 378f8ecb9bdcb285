-- ===== src/Chat/Tools/Runs/Accepted.antt =====
-- backend/internal/chat/tools/tools.go and validate.go: a tool can decode what Validate lets through.
use mathlib.Core.Path.{subst}
use urara_vision.Base.{
  ◌≡◌, refl, sym, ap, ◌∙◌, Bool, true, false, Option, none, some, some-injective, List, [], ◌∷◌,
  is_empty, if◌then◌else◌,
}
use urara_vision.Base.Text.{Text, codes, ◌==◌, trim_space}
use urara_vision.Base.Maps.{get}
use urara_vision.Base.Json.{Value, null, bool, num, str, arr, obj, Members, find}
use urara_vision.Chat.Tools.Fields.{
  Field, all_fields, list_tables_fields, get_tables_fields, search_fields, neighbourhood_fields,
  join_paths_fields, lineage_fields, diagnostics_fields,
}
use urara_vision.Chat.Tools.Validate.{fine, validate}
use urara_vision.Chat.Tools.Validate.Accepts.{IsAccepted}
use urara_vision.Chat.Tools.Validate.Exact.{arguments, object_of, validate_lem}
use urara_vision.Chat.Tools.Backend.{came}
use urara_vision.Chat.Tools.Runs.{
  decode, decode_value, text_arg, texts_arg, search_args, neighbourhood_args, join_paths_args,
  lineage_args,
}
use urara_vision.Chat.Tools.Runs.Decodes.{Decoded, Between, Anything, IsFew, IsAccepted-Decoded}

trim_nothing : (s : Text) → is_empty (trim_space s) ≡ false → is_empty s ≡ false
unfolding trim_space
trim_nothing [] h = h
trim_nothing (c ∷ s) h = refl

from_else : (b : Bool) (x y z : Option Members) → b ≡ false → (if b then x else y) ≡ z → y ≡ z
from_else true x y z h k = cc
from_else false x y z h k = k

object_decoded :
    (o : Option Value) (ms : Members) → object_of o ≡ some ms → decode_value o ≡ came ms
unfolding object_of decode_value
object_decoded none ms h = cc
object_decoded (some (obj ns)) ms h = ap came (some-injective h)
object_decoded (some null) ms h = cc
object_decoded (some (bool b)) ms h = cc
object_decoded (some (num n)) ms h = cc
object_decoded (some (str s)) ms h = cc
object_decoded (some (arr vs)) ms h = cc

module _ (fr : Text → Bool) (wt : Text → Text) (um : Text → Option Value) where
  -- What the arguments of a call are decoded to, once Validate has let it through.
  abbrev pub Reads : Text → Text → (Members → Type 0) → Type 0
  Reads tool args P =
      validate fr wt um tool args ≡ fine → (ms : Members) × (decode um args ≡ came ms) × P ms

  reads :
      (tool args : Text) (spec : List Field) (P : Members → Type 0)
      → get tool all_fields ≡ some spec
      → is_empty (trim_space args) ≡ false
      → ((ms : Members) → IsAccepted spec ms → P ms)
      → Reads tool args P
  unfolding arguments decode
  reads tool args spec P known full f v =
      let (s, ms, e, a, h) = (validate_lem fr wt um tool args).0 v in
      let same : s ≡ spec = some-injective (sym e ∙ known) in
      let read : object_of (um args) ≡ some ms = from_else _ _ _ _ full a in
      (
        ms,
        rw (trim_nothing args full) (object_decoded (um args) ms read),
        f ms (subst (λ z. IsAccepted z ms) same h),
      )

  -- Arguments that Validate lets through for a tool, and that are not blank, are decoded by the tool
  -- without an error, each field too; a search asks for one to fifty hits, a neighbourhood for one to
  -- three hops, a path for one to six, and tables are read one to eight together.
  pub validate-decode :
      (args : Text)
      → is_empty (trim_space args) ≡ false
      → Reads
          (codes "search_model")
          args
          (λ ms. Decoded (search_args ms) (λ (q, n). Between 1 50 n))
        × Reads
            (codes "get_neighbourhood")
            args
            (λ ms. Decoded (neighbourhood_args ms) (λ (id, n). Between 1 3 n))
        × Reads
            (codes "find_join_paths")
            args
            (λ ms. Decoded (join_paths_args ms) (λ (x, y, n). Between 1 6 n))
        × Reads (codes "get_tables") args (λ ms. Decoded (texts_arg (find (codes "ids") ms)) IsFew)
        × Reads (codes "get_lineage") args (λ ms. Decoded (lineage_args ms) Anything)
        × Reads
            (codes "list_tables")
            args
            (λ ms. Decoded (text_arg [] (find (codes "domain") ms)) Anything)
        × Reads
            (codes "list_diagnostics")
            args
            (λ ms. Decoded (text_arg [] (find (codes "severity") ms)) Anything)
  unfolding get ◌==◌
  validate-decode args full = (
    reads (codes "search_model") args search_fields _ refl full
        (λ ms h. let (a, b, c, d, e, f, g) = IsAccepted-Decoded ms in a h),
    reads (codes "get_neighbourhood") args neighbourhood_fields _ refl full
        (λ ms h. let (a, b, c, d, e, f, g) = IsAccepted-Decoded ms in b h),
    reads (codes "find_join_paths") args join_paths_fields _ refl full
        (λ ms h. let (a, b, c, d, e, f, g) = IsAccepted-Decoded ms in c h),
    reads (codes "get_tables") args get_tables_fields _ refl full
        (λ ms h. let (a, b, c, d, e, f, g) = IsAccepted-Decoded ms in d h),
    reads (codes "get_lineage") args lineage_fields _ refl full
        (λ ms h. let (a, b, c, d, e, f, g) = IsAccepted-Decoded ms in e h),
    reads (codes "list_tables") args list_tables_fields _ refl full
        (λ ms h. let (a, b, c, d, e, f, g) = IsAccepted-Decoded ms in f h),
    reads (codes "list_diagnostics") args diagnostics_fields _ refl full
        (λ ms h. let (a, b, c, d, e, f, g) = IsAccepted-Decoded ms in g h),
  )
