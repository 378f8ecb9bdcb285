-- ===== src/Chat/Tools/Results/Closed.antt =====
-- backend/internal/chat/tools/shrink.go: a list is cut, and a graph has no link out of what is shown.
use mathlib.Core.Path.{subst}
use urara_vision.Base.{
  ℕ, zero, suc, ◌≤◌, ◌≡◌, refl, ap, inl, inr, some, List, [], ◌∷◌, ◌&&◌, arith, take, length,
  length-map, map, keep, All, In, Bool-cases,
}
use urara_vision.Base.Text.{Text, codes, ◌==◌, text_lt, elem, elem→In}
use urara_vision.Base.Json.{arr, items_of, find, set_member, members_of, number}
use urara_vision.Chat.Tools.Shrink.{capped, max_items}
use urara_vision.Chat.Tools.Backend.{Link, Graph}
use urara_vision.Chat.Tools.Results.{node_value, link_value, node_id, kept_links, shrink_graph}

length-take : {A : Type 0} (n : ℕ) (xs : List A) → length (take n xs) ≤ n
length-take zero xs = omega arith
length-take (suc n) [] = omega arith
length-take (suc n) (x ∷ xs) = omega (arith, length-take n xs)

map-take : {A B : Type 0} (f : A → B) (n : ℕ) (xs : List A) → take n (map f xs) ≡ map f (take n xs)
map-take f zero xs = refl
map-take f (suc n) [] = refl
map-take f (suc n) (x ∷ xs) = ap (λ l. f x ∷ l) (map-take f n xs)

All-take : {A : Type 0} (P : A → Type 0) (n : ℕ) (xs : List A) → All P xs → All P (take n xs)
All-take P zero xs h = tt
All-take P (suc n) [] h = tt
All-take P (suc n) (x ∷ xs) h = (h.0, All-take P n xs h.1)

-- The ends of a link are among some nodes.
abbrev pub Joins : List Text → Link → Type 0
Joins ids l = In l.source ids × In l.target ids

All-kept_links : (ids : List Text) (ls : List Link) → All (Joins ids) (kept_links ids ls)
unfolding kept_links keep
All-kept_links ids [] = tt
All-kept_links ids (l ∷ ls) = elim (Bool-cases (elem l.source ids && elem l.target ids)) [
  | inl e ↦ rw e (
    (elem→In l.source ids (ground arith), elem→In l.target ids (ground arith)),
    All-kept_links ids ls,
  )
  | inr e ↦ rw e (All-kept_links ids ls)
]

-- A graph that is shown has at most fifty nodes and fifty links, it says how many nodes there are,
-- and both ends of every link are among the nodes that are shown.
pub shrink_graph_lem :
    (g : Graph)
    → let shown = take max_items g.nodes in
      (links : List Link) × (find (codes "items") (shrink_graph g)
        ≡ some (arr (items_of (map node_value shown))))
      × (find (codes "links") (shrink_graph g) ≡ some (arr (items_of (map link_value links))))
      × (find (codes "total") (shrink_graph g) ≡ some (number (length g.nodes)))
      × (length shown ≤ max_items)
      × (length links ≤ max_items)
      × All (Joins (map node_id shown)) links
unfolding shrink_graph capped members_of set_member find ◌==◌ text_lt
shrink_graph_lem g =
    let ids = take max_items (map node_id g.nodes) in
    let links = kept_links ids g.links in
    (
      take max_items links,
      ap (λ vs. some (arr (items_of vs))) (map-take node_value max_items g.nodes),
      ap (λ vs. some (arr (items_of vs))) (map-take link_value max_items links),
      ap (λ (n : ℕ). some (number n)) (length-map node_value g.nodes),
      length-take max_items g.nodes,
      length-take max_items links,
      subst (λ is. All (Joins is) (take max_items links)) (map-take node_id max_items g.nodes)
          (All-take (Joins ids) max_items links (All-kept_links ids g.links)),
    )
