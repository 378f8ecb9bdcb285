-- ===== src/Examples/Answers.antt =====
-- The theorems on citations, cards and scores, at an answer about one table.
use urara_vision.Base.{◌≤◌, ◌≡◌, ◌↔◌, true, false, [], ◌∷◌, length, count, All}
use urara_vision.Base.Text.{Text, codes, ◌==◌, to_lower}
use urara_vision.Base.Json.{Value, str, obj, no_members, member, Result, ok, fault}
use urara_vision.Model.{Stats}
use urara_vision.Chat.Citations.{extract_citations, index_bounded}
use urara_vision.Chat.Citations.Searches.{First, stands_at, index_bounded_lem}
use urara_vision.Chat.Citations.Places.{IsCited, extract_citations_lem}
use urara_vision.Chat.Card.{Context, CardCache, new_card_cache, get_card}
use urara_vision.Chat.Card.Cache.{Calls, no_calls, then_get, cards_bounded}
use urara_vision.Eval.{Question, AnswerResponse, passed, score_answer}
use urara_vision.Eval.Criterion.{IsPass, passed_lem}

abbrev result : Value
result = obj (member (codes "id") (str (codes "sales/orders")) no_members)

abbrev written : Text
written = codes "See sales/orders."

extract_citations_lem_example :
    let cited = extract_citations (result ∷ []) written in
    (length cited ≤ 20)
    × ((k : Text) → count (λ c. to_lower c == k) cited ≤ 1)
    × All (IsCited (result ∷ []) written) cited
extract_citations_lem_example = extract_citations_lem (result ∷ []) written

index_bounded_lem_example :
    First 0
      (index_bounded written (codes "orders"))
      (λ n. stands_at n false written (codes "orders"))
index_bounded_lem_example = index_bounded_lem written (codes "orders")

abbrev no_stats : Stats
no_stats = record {
  domains = 1;
  tables = 1;
  columns = 2;
  relationships = 0;
  lineage_edges = 0;
  source_tables = 0;
  conformed = 0;
  files_parsed = 1;
  files_skipped = 0;
  diagnostics = 0;
  translated = 0;
}

abbrev context : Context
context = record {
  snapshot = record {
    id = codes "s1";
    name = codes "shop";
    stats = no_stats;
    project = record {
      project = record { name = []; version = []; description = [] };
      internationalization = record { primary = []; supported = []; kind = [] };
    };
  };
  domains = [];
  tables = [];
  diagnostics = [];
  truncated = false;
}

abbrev gives : Text → Result Context
gives id = ok context

abbrev gives_none : Text → Result Context
gives_none id = fault []

abbrev cached : CardCache
cached = (get_card (codes "s1") 0 5 gives (new_card_cache 10 1)).1

cached-Calls : Calls (new_card_cache 10 1) cached
cached-Calls = then_get no_calls (codes "s1") 0 5 gives

cards_bounded_example : length cached.order ≤ 1
cards_bounded_example = cards_bounded 10 1 cached cached-Calls

-- Two cards are kept, and another snapshot is asked for in between.
abbrev first_card : CardCache
first_card = (get_card (codes "s1") 0 5 gives (new_card_cache 10 2)).1

abbrev asked : Question
asked = record {
  category = codes "joins";
  expect_citations = codes "Sales/Orders" ∷ [];
  expect_tools_any = codes "get_tables" ∷ [];
  expect_contains_any = [];
  must_not_contain = codes "secret" ∷ [];
  allow_citations = [];
}

abbrev answered : AnswerResponse
answered = record {
  text = written;
  citations = codes "sales/orders" ∷ [];
  tool_calls = codes "get_tables" ∷ [];
}

passed_lem_example : (passed (score_answer asked answered) ≡ true) ↔ IsPass asked answered
passed_lem_example = passed_lem asked answered
