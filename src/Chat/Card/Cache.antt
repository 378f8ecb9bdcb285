-- ===== src/Chat/Card/Cache.antt =====
-- backend/internal/chat/agent/card.go: how many cards are kept, and how long.
use urara_vision.Base.{
  ℕ, zero, suc, ◌+◌, ◌≤◌, ◌≡◌, refl, inl, inr, some, List, [], ◌∷◌, arith, length, take, is_empty,
  Bool-cases, Option-cases,
}
use urara_vision.Base.Text.{Text, codes, ◌==◌}
use urara_vision.Base.Json.{Result, ok, fault}
use urara_vision.Chat.Card.{
  Context, render_card, CardEntry, CardCache, new_card_cache, entry_of, without, place, slot,
  refresh, card_of, store_card, fetched, get_card,
}

-- What has come of one call of Get after another.
pub data Calls (start : CardCache) : CardCache → Type 0 where
  no_calls : Calls start start
  then_get :
      {c : CardCache}
      → Calls start c
      → (id : Text) (now done : ℕ) (fetch : Text → Result Context)
      → Calls start (get_card id now done fetch c).1

length-without : (id : Text) (es : List CardEntry) → length (without id es) ≤ length es
unfolding without
length-without id [] = omega arith
length-without id (e ∷ es) = ground (arith, length-without id es)

length-without_found :
    (id : Text) (es : List CardEntry) (e : CardEntry)
    → entry_of id es ≡ some e
    → suc (length (without id es)) ≤ length es
unfolding without entry_of
length-without_found id [] e h = absurd (ground arith)
length-without_found id (d ∷ es) e h =
    ground (arith, length-without id es, length-without_found id es e)

length-take_le : (n : ℕ) (es : List CardEntry) → length (take n es) ≤ n
length-take_le zero es = omega arith
length-take_le (suc n) [] = omega arith
length-take_le (suc n) (e ∷ es) = omega (arith, length-take_le n es)

length-place :
    (id : Text) (limit : ℕ) (es : List CardEntry)
    → length es ≤ limit
    → length (place (entry_of id es) id limit es) ≤ limit
unfolding place
length-place id limit es h = elim (Option-cases (entry_of id es)) [
  | inl e ↦ rw e (length-take_le limit (record { id = id; card = []; expires = 0 } ∷ es))
  | inr (d, e) ↦ rw e (omega (arith, h, length-without_found id es d e))
]

length-refresh :
    (now : ℕ) (id : Text) (es : List CardEntry) → length (refresh now id es) ≡ length es
unfolding refresh
length-refresh now id [] = refl
length-refresh now id (e ∷ es) = ground (arith, length-refresh now id es)

length-store_card :
    (id card : Text) (t : ℕ) (es : List CardEntry) → length (store_card id card t es) ≡ length es
unfolding store_card
length-store_card id card t [] = refl
length-store_card id card t (e ∷ es) = ground (arith, length-store_card id card t es)

abbrev IsKept : ℕ → CardCache → Type 0
IsKept limit c = (c.max_entries ≡ limit) × (length c.order ≤ limit)

fetched-IsKept :
    (limit : ℕ) (id : Text) (done : ℕ) (r : Result Context) (c : CardCache)
    → IsKept limit c
    → IsKept limit (fetched id done r c).1
unfolding fetched
fetched-IsKept limit id done (fault e) c h = h
fetched-IsKept limit id done (ok snap) c h =
    (h.0, omega (arith, h.1, length-store_card id (render_card snap) (done + c.ttl) c.order))

get_card-IsKept :
    (limit : ℕ) (id : Text) (now done : ℕ) (fetch : Text → Result Context) (c : CardCache)
    → IsKept limit c
    → IsKept limit (get_card id now done fetch c).1
unfolding get_card slot
get_card-IsKept limit id now done fetch c h =
    let s : CardCache = slot id c in
    let c' : CardCache = record s { order = refresh now id s.order } in
    let k : IsKept limit c' = (
      h.0,
      omega (
        arith,
        h.0,
        length-place id c.max_entries c.order (omega (arith, h.0, h.1)),
        length-refresh now id s.order,
      ),
    ) in
    elim (Bool-cases (id == codes "latest")) [
      | inl e ↦ rw e h
      | inr e ↦ elim (Bool-cases (is_empty (card_of (entry_of id c'.order)))) [
        | inl f ↦ rw (e, f) (fetched-IsKept limit id done (fetch id) c' k)
        | inr f ↦ rw (e, f) k
      ]
    ]

-- Whatever is asked for, the cache never keeps more cards than its limit.
pub cards_bounded :
    (ttl limit : ℕ) (c : CardCache) → Calls (new_card_cache ttl limit) c → length c.order ≤ limit
cards_bounded ttl limit c r = (kept r).1
  where
    kept : {d : CardCache} → Calls (new_card_cache ttl limit) d → IsKept limit d
    kept no_calls = (refl, omega arith)
    kept (then_get {c} q id now done fetch) = get_card-IsKept limit id now done fetch c (kept q)
