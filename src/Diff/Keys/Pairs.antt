-- ===== src/Diff/Keys/Pairs.antt =====
-- backend/internal/diff/keys.go: pairing the items of a model with themselves.
use urara_vision.Base.{ℕ, suc, ◌≡◌, refl, ap, ◌∙◌, Bool, true, some, List, [], ◌∷◌, map}
use urara_vision.Base.Text.{Text}
use urara_vision.Base.Maps.{Map, get_or, put}
use urara_vision.Diff.Keys.{
  occurrence, group, Slot, taken, fresh, claim, match_same, match_rest, number_pairs, number_from,
  number_to, pair_base, pair_bases, pair_index,
}

module _ {T : Type 0} (same : T → T → Bool) (refl_same : (t : T) → same t t ≡ true) where
  -- A used entry is passed over.
  match_same-taken :
      (t : T) (fs : List T) (ss : List (Slot T))
      → match_same same fs (taken t ∷ ss)
        ≡ ((match_same same fs ss).0, taken t ∷ (match_same same fs ss).1)
  unfolding match_same claim
  match_same-taken t [] ss = refl
  match_same-taken t (f ∷ fs) ss = rw (match_same-taken t fs (claim (same f) ss).1) refl

  match_same_self : (fs : List T) → match_same same fs (map fresh fs) ≡ (map some fs, map taken fs)
  unfolding match_same claim
  match_same_self [] = refl
  match_same_self (f ∷ fs) =
      rw (refl_same f, match_same-taken f fs (map fresh fs), match_same_self fs) refl

  match_rest_self :
      (fs : List T) (ss : List (Slot T)) → match_rest (map some fs) ss ≡ (map some fs, ss)
  unfolding match_rest
  match_rest_self [] ss = refl
  match_rest_self (f ∷ fs) ss = rw (match_rest_self fs ss) refl

  -- Both maps are given the same entries.
  numbered : Text → ℕ → List T → Map T → Map T
  numbered base n [] m = m
  numbered base n (f ∷ fs) m = numbered base (suc n) fs (put (occurrence base (suc n)) f m)

  count_up : ℕ → List T → ℕ
  count_up n [] = n
  count_up n (f ∷ fs) = count_up (suc n) fs

  number_pairs_self :
      (base : Text) (n : ℕ) (fs : List T) (m : Map T)
      → number_pairs base n fs (map some fs) (m, m)
        ≡ (count_up n fs, (numbered base n fs m, numbered base n fs m))
  unfolding number_pairs numbered count_up
  number_pairs_self base n [] m = refl
  number_pairs_self base n (f ∷ fs) m = number_pairs_self base (suc n) fs _

  number_from_self :
      (base : Text) (n : ℕ) (fs : List T) (m : Map T)
      → number_from base n fs (map some fs) m ≡ (n, m)
  unfolding number_from
  number_from_self base n [] m = refl
  number_from_self base n (f ∷ fs) m = number_from_self base n fs m

  number_to_self :
      (base : Text) (n : ℕ) (fs : List T) (m : Map T) → number_to base n (map taken fs) m ≡ m
  unfolding number_to
  number_to_self base n [] m = refl
  number_to_self base n (f ∷ fs) m = number_to_self base n fs m

  pair_base_self :
      (base : Text) (fs : List T) (m : Map T)
      → pair_base same base fs fs (m, m) ≡ (numbered base 0 fs m, numbered base 0 fs m)
  unfolding pair_base
  pair_base_self base fs m =
      rw
        (
          match_same_self fs,
          match_rest_self fs (map taken fs),
          number_pairs_self base 0 fs m,
          number_from_self base (count_up 0 fs) fs (numbered base 0 fs m),
          number_to_self base (count_up 0 fs) fs (numbered base 0 fs m),
        )
        refl

  pair_bases_self :
      (bases : List Text) (groups : Map (List T)) (m : Map T)
      → (o : Map T) × (pair_bases same bases groups groups (m, m) ≡ (o, o))
  unfolding pair_bases
  pair_bases_self [] groups m = (m, refl)
  pair_bases_self (base ∷ bases) groups m =
      let (o, e) = pair_bases_self bases groups (numbered base 0 (get_or base groups []) m) in
      (
        o,
        ap (pair_bases same bases groups groups) (pair_base_self base (get_or base groups []) m)
            ∙ e,
      )

  -- Items that are paired with themselves are given the same keys on both sides.
  pub pair_index_self :
      (key : T → Text) (items : List T) → (o : Map T) × (pair_index key same items items ≡ (o, o))
  unfolding pair_index
  pair_index_self key items = pair_bases_self _ (group key items) []
