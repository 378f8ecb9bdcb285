-- ===== src/Base/Print.antt =====
-- strconv.Itoa and the verbs %d, %q of package fmt.
use Prim.Native.Nat.{ℕ, zero, suc, ◌+◌, ◌-◌, ◌*◌, ◌/◌, ◌%◌, ◌<◌}
use mathlib.Core.Path.{◌≡◌, ap, sym, ◌∙◌}
use mathlib.Core.Bool.{◌||◌}
use mathlib.Core.Logic.{inl, inr}
use mathlib.Core.List.{[], ◌∷◌, ◌++◌}
use native.Mathlib.Omega.{arith}
use urara_vision.Base.Tests.{ltb, nat_eq, if◌then◌else◌, Bool-cases}
use urara_vision.Base.Text.{Text, codes}

-- Digits are put in front of `acc`, the last one first. There are at most `n + 1` of them.
unfoldable pub decimal : ℕ → ℕ → Text → Text
decimal zero n acc = acc
decimal (suc f) n acc =
    let rest = decimal f (n / 10) ((b'0' + n % 10) ∷ acc) in
    if ltb n 10 then (b'0' + n) ∷ acc else rest

unfoldable pub itoa : ℕ → Text
unfolding decimal
itoa n = decimal (suc n) n []

-- The number that a run of digits is read as.
value : ℕ → Text → ℕ
value acc [] = acc
value acc (c ∷ s) = value (acc * 10 + (c - b'0')) s

value-decimal : (f n : ℕ) (acc : Text) → n < f → value 0 (decimal f n acc) ≡ value n acc
unfolding value decimal
value-decimal zero n acc h = elim h [ ]
value-decimal (suc f) n acc h = elim (Bool-cases (ltb n 10)) [
  | inl e ↦ rw e (ap (λ (k : ℕ). value k acc) (ground arith))
  | inr e ↦ rw e (
      value-decimal f (n / 10) ((b'0' + n % 10) ∷ acc) (ground arith)
      ∙ ap (λ (k : ℕ). value k acc) (omega arith))
]

-- Two numbers with one print are equal.
pub itoa-injective : (a b : ℕ) → itoa a ≡ itoa b → a ≡ b
unfolding itoa value
itoa-injective a b h =
    sym (value-decimal (suc a) a [] (omega arith))
    ∙ ap (value 0) h
    ∙ value-decimal (suc b) b [] (omega arith)

unfoldable pub hex_digit : ℕ → ℕ
hex_digit d = if ltb d 10 then b'0' + d else b'a' + (d - 10)

-- One byte inside double quotes: the escapes of strconv.Quote. A byte of a longer rune stands as
-- it is, which is right for printable runes.
quote_byte : ℕ → Text
unfolding hex_digit
quote_byte c =
    if nat_eq c b'"' || nat_eq c b'\\'
    then b'\\' ∷ c ∷ []
    else if nat_eq c 7
    then codes "\\a"
    else if nat_eq c 8
    then codes "\\b"
    else if nat_eq c 12
    then codes "\\f"
    else if nat_eq c 10
    then codes "\\n"
    else if nat_eq c 13
    then codes "\\r"
    else if nat_eq c 9
    then codes "\\t"
    else if nat_eq c 11
    then codes "\\v"
    else if ltb c 32 || nat_eq c 127
    then codes "\\x" ++ hex_digit (c / 16) ∷ hex_digit (c % 16) ∷ []
    else c ∷ []

quote_body : Text → Text
unfolding quote_byte
quote_body [] = []
quote_body (c ∷ s) = quote_byte c ++ quote_body s

-- %q
unfoldable pub quote : Text → Text
unfolding quote_body
quote s = codes "\"" ++ quote_body s ++ codes "\""
