-- ===== src/Diff/Keys/Laws.antt =====
-- backend/internal/diff/keys.go: when an index drops no item.
use urara_vision.Base.{
  ℕ, suc, ◌+◌, ◌≡◌, ◌≤◌, refl, sym, ap, ◌∙◌, inl, inr, Bool, true, false, ◌||◌, List, [], ◌∷◌, ◌++◌,
  arith, Bool-cases, if◌then◌else◌, length, nat_eq, All,
}
use urara_vision.Base.Text.{Text, codes, ◌==◌, ==_iff, ==_refl, elem}
use urara_vision.Base.Maps.{Map, get_or, put, keys, get_or-put, elem-keys-put, length-put}
use urara_vision.Base.Print.{itoa, decimal, itoa-injective}
use urara_vision.Diff.Keys.{occurrence, index_from, index}

-- Whether a key holds the byte that numbers repeats.
abbrev pub has_hash : Text → Bool
has_hash [] = false
has_hash (c ∷ s) = nat_eq c b'#' || has_hash s

-- What stands before the first '#', and after it.
before : Text → Text
before [] = []
before (c ∷ s) = if nat_eq c b'#' then [] else c ∷ before s

after : Text → Text
after [] = []
after (c ∷ s) = if nat_eq c b'#' then s else after s

before-plain : (k : Text) → has_hash k ≡ false → before k ≡ k
unfolding before
before-plain [] h = refl
before-plain (c ∷ k) h = ground (arith, before-plain k)

split-hash :
    (k s : Text) → has_hash k ≡ false → (before (k ++ b'#' ∷ s) ≡ k) × (after (k ++ b'#' ∷ s) ≡ s)
unfolding before after
split-hash [] s h = (refl, refl)
split-hash (c ∷ k) s h = ground (arith, split-hash k s)

has_hash-append : (k s : Text) → has_hash (k ++ b'#' ∷ s) ≡ true
has_hash-append [] s = refl
has_hash-append (c ∷ k) s = ground (arith, has_hash-append k s)

number_of : Text → Text
number_of s = if has_hash s then after s else itoa 1

read-occurrence :
    (k : Text) (n : ℕ)
    → has_hash k ≡ false
    → (before (occurrence k n) ≡ k) × (number_of (occurrence k n) ≡ itoa n)
unfolding occurrence number_of
read-occurrence k n h = elim (Bool-cases (nat_eq n 1)) [
  | inl e ↦ rw (e, h) (before-plain k h, ap itoa (ground arith))
  | inr e ↦ rw (e, has_hash-append k (itoa n)) (split-hash k (itoa n) h)
]

-- Plain keys number their repeats apart.
occurrence-injective :
    (k j : Text) (n m : ℕ)
    → has_hash k ≡ false
    → has_hash j ≡ false
    → occurrence k n ≡ occurrence j m
    → (k ≡ j) × (n ≡ m)
occurrence-injective k j n m hk hj e =
    let (bk, nk) = read-occurrence k n hk in
    let (bj, nj) = read-occurrence j m hj in
    (sym bk ∙ ap before e ∙ bj, itoa-injective n m (sym nk ∙ ap number_of e ∙ nj))

module _ {T : Type 0} (key : T → Text) where
  -- The occurrences in the map are those counted.
  record IsNumbered (seen : Map ℕ) (out : Map T) : Type 0 where
    bounded :
        (k : Text) (n : ℕ)
        → has_hash k ≡ false
        → elem (occurrence k n) (keys out) ≡ true
        → n ≤ get_or k seen 0

  next-IsNumbered :
      (seen : Map ℕ) (out : Map T) (it : T)
      → has_hash (key it) ≡ false
      → IsNumbered seen out
      → let n = suc (get_or (key it) seen 0) in
        IsNumbered (put (key it) n seen) (put (occurrence (key it) n) it out)
  next-IsNumbered seen out it h inv = record {
    bounded = λ k n hk e.
        let s = suc (get_or (key it) seen 0) in
        elim (Bool-cases (occurrence (key it) s == occurrence k n)) [
          | inl q ↦
              let (same, num) = occurrence-injective (key it) k s n h hk ((==_iff _ _).0 q) in
              ground (arith, get_or-put (key it) k s 0 seen, ==_iff (key it) k)
          | inr q ↦ ground (
            arith,
            get_or-put (key it) k s 0 seen,
            ==_iff (key it) k,
            elem-keys-put (occurrence k n) (occurrence (key it) s) it out,
            inv.bounded k n hk,
          )
        ];
  }

  length-index_from :
      (items : List T) (seen : Map ℕ) (out : Map T)
      → All (λ it. has_hash (key it) ≡ false) items
      → IsNumbered seen out
      → length (index_from key items seen out) ≡ length out + length items
  unfolding index_from
  length-index_from [] seen out h inv = omega arith
  length-index_from (it ∷ its) seen out h inv =
      let n = suc (get_or (key it) seen 0) in
      length-index_from its _ _ h.1 (next-IsNumbered seen out it h.0 inv)
      ∙ ground (arith, length-put (occurrence (key it) n) it out, inv.bounded (key it) n h.0)

  nothing-IsNumbered : IsNumbered [] []
  unfolding keys elem
  nothing-IsNumbered = record { bounded = λ k n hk e. absurd (cc e) }

  -- When no key holds a '#', the index has an entry for every item: repeats included, none is
  -- dropped.
  pub index_drops_none :
      (items : List T)
      → All (λ it. has_hash (key it) ≡ false) items
      → length (index key items) ≡ length items
  unfolding index
  index_drops_none items h = length-index_from items [] [] h nothing-IsNumbered ∙ omega arith

longer : (k : Text) (c : ℕ) (s : Text) → (k == k ++ c ∷ s) ≡ false
unfolding ◌==◌
longer [] c s = refl
longer (x ∷ k) c s = ground (arith, longer k c s)

-- A key that holds a '#' can be the numbered key of another item, and the index then drops an item:
-- of two items with one key and a third whose key is that key with "#2" after it, two are left.
pub index_drops :
    {T : Type 0} (key : T → Text) (a b c : T)
    → key a ≡ key b
    → key c ≡ key a ++ codes "#2"
    → length (index key (a ∷ b ∷ c ∷ [])) ≡ 2
unfolding index index_from get_or put occurrence itoa decimal
index_drops key a b c e h =
    rw (sym e, h, ==_refl (key a), longer (key a) b'#' (codes "2"))
      (rw (longer (key a) b'#' (codes "2"), ==_refl (key a ++ codes "#2")) refl)
