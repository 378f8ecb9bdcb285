-- ===== src/Chat/Card/Reuse.antt =====
-- backend/internal/chat/agent/card.go: how long a card is reused, while others are asked for.
use urara_vision.Base.{ℕ, suc, ◌<◌, ◌≡◌, refl, false, some, List, ◌∷◌, arith, take, is_empty, leb}
use urara_vision.Base.Text.{Text, codes, ◌==◌, ==_refl}
use urara_vision.Base.Json.{Result, ok}
use urara_vision.Chat.Card.{
  Context, CardEntry, CardCache, entry_of, place, slot, live, refresh, card_of, get_card,
}

-- The cache with the card of a snapshot in front.
abbrev with_card : ℕ → ℕ → Text → Text → ℕ → List CardEntry → CardCache
with_card ttl limit id card expires es = record {
  ttl = ttl;
  max_entries = limit;
  order = record { id = id; card = card; expires = expires } ∷ es;
}

reuse :
    (ttl limit : ℕ) (id card : Text) (expires now done : ℕ) (fetch : Text → Result Context)
    (es : List CardEntry)
    → (id == codes "latest") ≡ false
    → is_empty card ≡ false
    → now < expires
    → (get_card id now done fetch (with_card ttl limit id card expires es)).0 ≡ ok card
unfolding get_card slot entry_of place refresh live card_of
reuse ttl limit id card expires now done fetch es l n t =
    let early : leb expires now ≡ false = ground arith in
    rw (l, ==_refl id, ==_refl id, n, early, ==_refl id, n) refl

-- What has come of calls of Get for other snapshots, one after another, and how many there were.
pub data Others (id : Text) (start : CardCache) : ℕ → CardCache → Type 0 where
  no_others : Others id start 0 start
  then_other :
      {n : ℕ} {c : CardCache}
      → Others id start n c
      → (other : Text) (now done : ℕ) (fetch : Text → Result Context) → (other == id) ≡ false
      → Others id start (suc n) (get_card other now done fetch c).1

-- An entry of a snapshot is among the first of a cache.
abbrev Among : Text → CardEntry → ℕ → List CardEntry → Type 0
Among id e k es = entry_of id (take k es) ≡ some e

-- The entry is among the first, and the cache has its limit.
abbrev Keeps : Text → CardEntry → ℕ → ℕ → CardCache → Type 0
Keeps id e k limit c = Among id e k c.order × (c.max_entries ≡ limit)
