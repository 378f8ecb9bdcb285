-- ===== src/Chat/Citations/Searches.antt =====
-- backend/internal/chat/agent/citations.go: the search for a name that stands alone.
use urara_vision.Base.{
  ℕ, zero, suc, ◌+◌, ◌<◌, ◌≡◌, ◌⊎◌, refl, ap, ◌∙◌, inl, inr, Bool, true, false, not, Option, none,
  some, [], ◌∷◌, ◌&&◌, arith, length, drop, Bool-cases,
}
use urara_vision.Base.Text.{Text, has_prefix}
use urara_vision.Chat.Citations.{
  is_word_byte, starts_word, scan, word_before, bounded_from, index_bounded,
}

-- Whether the needle stands at a place, and neither the byte before it nor the one after it is of a
-- word.
unfoldable pub stands_at : ℕ → Bool → Text → Text → Bool
stands_at zero w s needle =
    has_prefix s needle && not w && not (starts_word (drop (length needle) s))
stands_at (suc n) w [] needle = false
stands_at (suc n) w (c ∷ s) needle = stands_at n (is_word_byte c) s needle

-- What a search for the first place finds.
abbrev pub First : ℕ → Option ℕ → (ℕ → Bool) → Type 0
First i found at =
    ((found ≡ none) × ((n : ℕ) → at n ≡ false))
    ⊎ ((p : ℕ) × (found ≡ some (i + p)) × (at p ≡ true) × ((n : ℕ) → n < p → at n ≡ false))

here-First : (i : ℕ) (at : ℕ → Bool) → at 0 ≡ true → First i (some i) at
here-First i at h = inr (0, ap some (omega arith), h, λ n l. absurd (omega (arith, l)))

all_false : (at : ℕ → Bool) → at 0 ≡ false → ((n : ℕ) → at (suc n) ≡ false) → (n : ℕ) → at n ≡ false
all_false at h k zero = h
all_false at h k (suc n) = k n

later-First :
    (i : ℕ) (o : Option ℕ) (at : ℕ → Bool)
    → at 0 ≡ false
    → First (suc i) o (λ n. at (suc n))
    → First i o at
later-First i o at h (inl (e, none_at)) = inl (e, all_false at h none_at)
later-First i o at h (inr (p, e, f, before)) = inr (suc p, e ∙ ap some (omega arith), f, before_suc)
  where
    before_suc : (n : ℕ) → n < suc p → at n ≡ false
    before_suc zero l = h
    before_suc (suc n) l = before n (omega (arith, l))

scan-First :
    (i : ℕ) (w : Bool) (s needle : Text) → First i (scan i w s needle) (λ n. stands_at n w s needle)
unfolding scan stands_at has_prefix
scan-First i false [] [] = here-First i (λ n. stands_at n false [] []) refl
scan-First i true [] [] = inl (refl, all_false (λ n. stands_at n true [] []) refl (λ n. refl))
scan-First i w [] (p ∷ ps) = inl (refl, all_false (λ n. stands_at n w [] (p ∷ ps)) refl (λ n. refl))
scan-First i w (c ∷ s) needle =
    elim (Bool-cases
      (has_prefix (c ∷ s) needle && not w && not (starts_word (drop (length needle) (c ∷ s))))) [
        | inl e ↦ rw e (here-First i (λ n. stands_at n w (c ∷ s) needle) e)
        | inr e ↦ rw e (
            later-First i (scan (suc i) (is_word_byte c) s needle)
              (λ n. stands_at n w (c ∷ s) needle) e (scan-First (suc i) (is_word_byte c) s needle))
      ]

-- indexBounded finds the first place where the needle stands alone, if there is any.
pub index_bounded_lem :
    (hay needle : Text) → First 0 (index_bounded hay needle) (λ n. stands_at n false hay needle)
unfolding index_bounded bounded_from word_before
index_bounded_lem hay needle = scan-First 0 false hay needle
