-- ===== src/Base/Text.antt =====
-- Go strings as lists of bytes: equality, the byte order of `<` and `sort.Strings`, and the few
-- functions of package strings that the program calls.
use Prim.Native.Char.{code}
use Prim.Native.Nat.{ℕ, ◌+◌, ◌-◌}
use Prim.Native.String.{String}
use mathlib.Core.Path.{◌≡◌, refl, sym}
use mathlib.Core.Logic.{◌↔◌, inl, inr}
use mathlib.Core.Bool.{Bool, true, false, not, ◌&&◌, ◌||◌}
use mathlib.Core.List.{List, [], ◌∷◌, ◌++◌, map}
use native.Mathlib.Omega.{arith}
use urara_vision.Base.Tests.{ltb, leb, nat_eq, if◌then◌else◌, Bool-cases}
use urara_vision.Base.Lists.{In, count}

abbrev pub Text : Type 0
Text = List ℕ

-- The bytes of an ASCII literal.
abbrev pub codes : String → Text
codes String.[] = []
codes (String.◌∷◌ c s) = code c ∷ codes s

infix 50 ◌==◌
unfoldable pub ◌==◌ : Text → Text → Bool
[] == [] = true
(a ∷ s) == (b ∷ t) = nat_eq a b && s == t
_ == _ = false

-- Go's `<` on strings.
unfoldable pub text_lt : Text → Text → Bool
text_lt [] [] = false
text_lt [] (b ∷ t) = true
text_lt (a ∷ s) [] = false
text_lt (a ∷ s) (b ∷ t) = if ltb a b then true else if ltb b a then false else text_lt s t

pub ==_iff : (s t : Text) → ((s == t) ≡ true) ↔ (s ≡ t)
unfolding ◌==◌
==_iff [] [] = ground arith
==_iff [] (b ∷ t) = ground arith
==_iff (a ∷ s) [] = ground arith
==_iff (a ∷ s) (b ∷ t) = ground (arith, ==_iff s t)

pub ==_refl : (s : Text) → (s == s) ≡ true
==_refl s = (==_iff s s).1 refl

pub ==_sym : (s t : Text) → (s == t) ≡ (t == s)
==_sym s t = ground (arith, ==_iff s t, ==_iff t s)

pub text_lt_irrefl : (s : Text) → text_lt s s ≡ false
unfolding text_lt
text_lt_irrefl [] = refl
text_lt_irrefl (a ∷ s) = ground (arith, text_lt_irrefl s)

pub text_lt_asym : (s t : Text) → text_lt s t ≡ true → text_lt t s ≡ false
unfolding text_lt
text_lt_asym [] [] h = cc
text_lt_asym [] (b ∷ t) h = refl
text_lt_asym (a ∷ s) [] h = cc
text_lt_asym (a ∷ s) (b ∷ t) h = ground (arith, text_lt_asym s t)

pub text_lt_trans : (s t u : Text) → text_lt s t ≡ true → text_lt t u ≡ true → text_lt s u ≡ true
unfolding text_lt
text_lt_trans [] [] u h k = cc
text_lt_trans [] (b ∷ t) [] h k = cc
text_lt_trans [] (b ∷ t) (c ∷ u) h k = refl
text_lt_trans (a ∷ s) [] u h k = cc
text_lt_trans (a ∷ s) (b ∷ t) [] h k = cc
text_lt_trans (a ∷ s) (b ∷ t) (c ∷ u) h k = ground (arith, text_lt_trans s t u)

-- Two texts of which neither is before the other are equal.
pub text_lt_antisym : (s t : Text) → text_lt s t ≡ false → text_lt t s ≡ false → s ≡ t
unfolding text_lt
text_lt_antisym [] [] h k = refl
text_lt_antisym [] (b ∷ t) h k = cc
text_lt_antisym (a ∷ s) [] h k = cc
text_lt_antisym (a ∷ s) (b ∷ t) h k = ground (arith, text_lt_antisym s t)

-- The order is total: "not after" is transitive.
pub text_le_trans : (s t u : Text) → text_lt t s ≡ false → text_lt u t ≡ false → text_lt u s ≡ false
unfolding text_lt
text_le_trans [] [] [] h k = refl
text_le_trans [] [] (c ∷ u) h k = refl
text_le_trans [] (b ∷ t) [] h k = refl
text_le_trans [] (b ∷ t) (c ∷ u) h k = refl
text_le_trans (a ∷ s) [] u h k = cc
text_le_trans (a ∷ s) (b ∷ t) [] h k = cc
text_le_trans (a ∷ s) (b ∷ t) (c ∷ u) h k = ground (arith, text_le_trans s t u)

-- slices.Contains and the program's own `contains`
unfoldable pub elem : Text → List Text → Bool
elem v [] = false
elem v (x ∷ xs) = x == v || elem v xs

pub elem→In : (v : Text) (xs : List Text) → elem v xs ≡ true → In v xs
unfolding elem
elem→In v [] h = cc
elem→In v (x ∷ xs) h = elim (Bool-cases (x == v)) [
  | inl e ↦ inl (sym ((==_iff x v).0 e))
  | inr n ↦ inr (elem→In v xs (ground arith))
]

pub In→elem : (v : Text) (xs : List Text) → In v xs → elem v xs ≡ true
unfolding elem
In→elem v [] h = elim h [ ]
In→elem v (x ∷ xs) (inl e) = ground (arith, ==_iff x v)
In→elem v (x ∷ xs) (inr h) = ground (arith, In→elem v xs h)

pub elem-append : (v : Text) (xs ys : List Text) → elem v (xs ++ ys) ≡ (elem v xs || elem v ys)
unfolding elem
elem-append v [] ys = refl
elem-append v (x ∷ xs) ys = ground (arith, elem-append v xs ys)

-- strings.HasPrefix
unfoldable pub has_prefix : Text → Text → Bool
has_prefix s [] = true
has_prefix [] (p ∷ ps) = false
has_prefix (c ∷ s) (p ∷ ps) = nat_eq c p && has_prefix s ps

-- strings.Contains
unfoldable pub contains : Text → Text → Bool
contains [] sub = has_prefix [] sub
contains (c ∷ s) sub = has_prefix (c ∷ s) sub || contains s sub

abbrev pub lower_byte : ℕ → ℕ
lower_byte c = if leb b'A' c && leb c b'Z' then c + 32 else c

abbrev pub upper_byte : ℕ → ℕ
upper_byte c = if leb b'a' c && leb c b'z' then c - 32 else c

-- strings.ToLower and strings.ToUpper on ASCII
unfoldable pub to_lower : Text → Text
to_lower = map lower_byte

unfoldable pub to_upper : Text → Text
to_upper = map upper_byte

-- unicode.IsSpace on ASCII
abbrev pub is_space : ℕ → Bool
is_space c = nat_eq c 32 || leb 9 c && leb c 13

unfoldable pub trim_left : Text → Text
trim_left [] = []
trim_left (c ∷ s) = if is_space c then trim_left s else c ∷ s

unfoldable pub trim_right : Text → Text
trim_right [] = []
trim_right (c ∷ s) =
    let rest = trim_right s in
    elim rest [ [] ↦ (if is_space c then [] else c ∷ []) | d ∷ ds ↦ c ∷ d ∷ ds ]

-- strings.TrimSpace on ASCII
unfoldable pub trim_space : Text → Text
unfolding trim_left trim_right
trim_space s = trim_right (trim_left s)

-- strings.Join
unfoldable pub join : Text → List Text → Text
join sep [] = []
join sep (p ∷ []) = p
join sep (p ∷ q ∷ ps) = p ++ sep ++ join sep (q ∷ ps)

push_field : Text → List Text → List Text
push_field [] rest = rest
push_field (c ∷ cur) rest = (c ∷ cur) ∷ rest

fields_from : (ℕ → Bool) → Text → Text → List Text
unfolding push_field
fields_from sep cur [] = push_field cur []
fields_from sep cur (c ∷ s) =
    let rest = fields_from sep (if sep c then [] else cur ++ c ∷ []) s in
    if sep c then push_field cur rest else rest

-- strings.FieldsFunc
unfoldable pub fields_by : (ℕ → Bool) → Text → List Text
unfolding fields_from
fields_by sep s = fields_from sep [] s

-- strings.Fields on ASCII
unfoldable pub fields : Text → List Text
unfolding fields_by
fields = fields_by is_space

-- The bytes that begin a rune, in valid UTF-8.
abbrev pub starts_rune : ℕ → Bool
starts_rune c = not (leb 128 c && ltb c 192)

-- utf8.RuneCountInString
unfoldable pub rune_count : Text → ℕ
rune_count = count starts_rune
