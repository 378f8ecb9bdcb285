-- ===== src/Chat/Citations/Places.antt =====
-- backend/internal/chat/agent/citations.go: where an answer mentions what it cites.
use urara_vision.Base.{
  ℕ, suc, ◌≡◌, ◌≤◌, count, ◌⊎◌, refl, sym, ap, ◌∙◌, inl, inr, true, false, Option, none, some, List,
  [], ◌∷◌, ◌++◌, ◌&&◌, arith, length, drop, nat_eq, Bool-cases, Option-cases, All, All-In,
}
use urara_vision.Base.Text.{Text, elem→In, ◌==◌, to_lower, has_prefix}
use urara_vision.Base.Finds.{Mentions, has_prefix-StartsWith}
use urara_vision.Base.Json.{Value}
use urara_vision.Chat.Citations.{
  is_table_id, is_part_after, after_slash, bare_name, unpin, scan_span, bare_mention, ends_span,
  index_bounded, is_plain_word, earlier, first_mention, collect, extract_citations,
}
use urara_vision.Chat.Citations.Cites.{Cited, extract_citations_found}
use urara_vision.Chat.Citations.Sources.{Retrieved, collect-Retrieved}
use urara_vision.Chat.Citations.Searches.{stands_at, index_bounded_lem}

-- A text stands in another, between bytes of no word.
abbrev pub StandsIn : Text → Text → Type 0
StandsIn s needle = (n : ℕ) × (stands_at n false s needle ≡ true)

-- A text stands in another after an open quote.
abbrev pub IsQuotedIn : Text → Text → Type 0
IsQuotedIn s needle = Mentions s (b'`' ∷ needle)

-- An answer in lower case mentions an identifier: it stands there itself, or what follows its slash
-- stands or is quoted there once the identifiers themselves are made blank.
abbrev pub Mentioned : List Text → Text → Text → Type 0
Mentioned ids lowered c =
    StandsIn lowered (to_lower c)
    ⊎ ((domain : Text) × (bare : Text) × (c ≡ domain ++ b'/' ∷ bare)
        × (StandsIn (unpin ids lowered) (to_lower bare) ⊎ IsQuotedIn (unpin ids lowered) bare))

index_bounded-StandsIn :
    (s needle : Text) (p : ℕ) → index_bounded s needle ≡ some p → StandsIn s needle
index_bounded-StandsIn s needle p h = elim (index_bounded_lem s needle) [
  | inl (e, never) ↦ cc (sym h ∙ e)
  | inr (n, e, stands, before) ↦ (n, stands)
]

scan_span-Mentions :
    (i : ℕ) (s needle : Text) (p : ℕ) → scan_span i s needle ≡ some p → Mentions s needle
unfolding scan_span
scan_span-Mentions i [] needle p h = cc
scan_span-Mentions i (c ∷ s) needle p h =
    elim (Bool-cases (has_prefix (c ∷ s) needle && ends_span (drop (length needle) (c ∷ s)))) [
      | inl e ↦
          let (after, q) = has_prefix-StartsWith (c ∷ s) needle (ground arith) in ([], after, q)
      | inr e ↦
          let (before, after, q) = scan_span-Mentions (suc i) s needle p (ground arith) in
          (c ∷ before, after, ap (λ l. c ∷ l) q)
    ]

after_slash-parts :
    (c bare : Text) → after_slash c ≡ some bare → (domain : Text) × (c ≡ domain ++ b'/' ∷ bare)
unfolding after_slash
after_slash-parts [] bare h = cc
after_slash-parts (x ∷ c) bare h = elim (Bool-cases (nat_eq x b'/')) [
  | inl e ↦ ([], ground arith)
  | inr e ↦
      let (domain, q) = after_slash-parts c bare (ground arith) in (x ∷ domain, ap (λ l. x ∷ l) q)
]

no_slash-to_lower : (c : Text) → after_slash c ≡ none → after_slash (to_lower c) ≡ none
unfolding after_slash to_lower
no_slash-to_lower [] h = refl
no_slash-to_lower (x ∷ c) h = ground (arith, no_slash-to_lower c)

-- An identifier has a slash.
table_id-slash : (c : Text) → is_table_id c ≡ true → (bare : Text) × (after_slash c ≡ some bare)
unfolding is_table_id is_part_after
table_id-slash c h = elim (Option-cases (after_slash c)) [
  | inl e ↦ absurd (ground (arith, no_slash-to_lower c e))
  | inr (bare, e) ↦ (bare, e)
]

bare_mention-found :
    (bare s : Text) (p : ℕ)
    → bare_mention bare s ≡ some p
    → StandsIn s (to_lower bare) ⊎ IsQuotedIn s bare
unfolding bare_mention
bare_mention-found bare s p h = elim (Bool-cases (is_plain_word bare)) [
  | inl e ↦ inr (scan_span-Mentions 0 s (b'`' ∷ bare) p (ground arith))
  | inr e ↦ inl (index_bounded-StandsIn s (to_lower bare) p (ground arith))
]

earlier-either :
    (x y : Option ℕ) (p : ℕ)
    → earlier x y ≡ some p
    → ((q : ℕ) × (x ≡ some q)) ⊎ ((q : ℕ) × (y ≡ some q))
unfolding earlier
earlier-either none y p h = inr (p, h)
earlier-either (some q) y p h = inl (q, refl)

first_mention-Mentioned :
    (ids : List Text) (lowered c : Text) (p : ℕ)
    → is_table_id c ≡ true
    → first_mention c lowered (unpin ids lowered) ≡ some p
    → Mentioned ids lowered c
unfolding first_mention bare_name
first_mention-Mentioned ids lowered c p t h =
    let (bare, e) = table_id-slash c t in
    let (domain, q) = after_slash-parts c bare e in
    elim (earlier-either (index_bounded lowered (to_lower c))
      (bare_mention (bare_name (after_slash c)) (unpin ids lowered)) p h) [
        | inl (n, f) ↦ inl (index_bounded-StandsIn lowered (to_lower c) n f)
        | inr (n, f) ↦ inr (
          domain,
          bare,
          q,
          bare_mention-found bare (unpin ids lowered) n
              (ap (λ o. bare_mention (bare_name o) (unpin ids lowered)) (sym e) ∙ f),
        )
      ]

-- What an answer cites: a result names it, and the answer mentions it.
abbrev pub IsCited : List Value → Text → Text → Type 0
IsCited results answer c = Retrieved results c × Mentioned (collect results) (to_lower answer) c

All-IsCited :
    (results : List Value) (answer : Text) (cs : List Text)
    → All (Cited (collect results) (to_lower answer)) cs
    → All (IsCited results answer) cs
All-IsCited results answer [] h = tt
All-IsCited results answer (c ∷ cs) ((held, t, (p, e)), hs) = (
  (
    All-In (Retrieved results) (collect results) c (collect-Retrieved results) (elem→In c _ held),
    first_mention-Mentioned (collect results) (to_lower answer) c p t e,
  ),
  All-IsCited results answer cs hs,
)

-- An answer cites at most twenty tables and none twice, in whatever case. Each is named by a result of
-- this turn, in a member that holds an identifier or a list of tables; and the answer mentions it, in
-- any case: the identifier stands in it between bytes of no word, or, once the identifiers that were
-- retrieved are made blank, the name after the slash does, or stands there after an open quote.
pub extract_citations_lem :
    (results : List Value) (answer : Text)
    → let cited = extract_citations results answer in
      (length cited ≤ 20)
      × ((k : Text) → count (λ c. to_lower c == k) cited ≤ 1)
      × All (IsCited results answer) cited
extract_citations_lem results answer =
    let (few, once, cited) = extract_citations_found results answer in
    (few, once, All-IsCited results answer _ cited)
