-- ===== src/Prelude/Texts.antt =====
-- A Python `str` is the list of its UTF-8 bytes, and so is `bytes`. Literals, decimal and
-- hexadecimal texts, and splitting at a separator.
use Prim.Native.Char.{code}
use Prim.Native.String.{String}
use Prim.Native.Nat.{ℕ, zero, suc, ◌+◌, ◌-◌, ◌*◌, ◌/◌, ◌%◌, ◌≤◌, ◌<◌}
use mathlib.Core.Path.{◌≡◌, ap, ◌∙◌, sym}
use mathlib.Core.Logic.{◌≢◌, inl, inr}
use mathlib.Core.Bool.{Bool, ◌&&◌, ◌||◌}
use mathlib.Core.List.{map, List, [], ◌∷◌, ◌++◌, foldl, foldl-append}
use native.Mathlib.Omega.{arith}
use persistence_memory.Prelude.Tests.{nat_beq, ltb, leb, if◌then◌else◌, Bool-cases}
use persistence_memory.Prelude.Lists.{All, All-append, All-map}

abbrev pub Text : Type 0
Text = List ℕ

abbrev pub Bytes : Type 0
Bytes = List ℕ

-- A literal. All that the program writes are ASCII.
abbrev pub codes : String → Text
codes String.[] = []
codes (String.◌∷◌ c s) = code c ∷ codes s

-- `str(n)` of an integer that is not negative.
show_fuel : ℕ → ℕ → Text
show_fuel zero n = []
show_fuel (suc f) n =
    let rest = show_fuel f (n / 10) ++ (48 + n % 10) ∷ [] in
    if ltb n 10 then (48 + n) ∷ [] else rest

unfoldable pub show : ℕ → Text
unfolding show_fuel
show n = show_fuel (suc n) n

-- `int(text)` on digits.
add_digit : ℕ → ℕ → ℕ
add_digit n c = n * 10 + (c - 48)

abbrev is_digit : ℕ → Bool
is_digit c = leb 48 c && leb c 57

unfoldable pub value : Text → ℕ
unfolding add_digit
value = foldl add_digit 0

value-show_fuel : (f n : ℕ) → n < f → value (show_fuel f n) ≡ n
unfolding show_fuel value
value-show_fuel zero n h = elim h [ ]
value-show_fuel (suc f) n h = elim (Bool-cases (ltb n 10)) [
  | inl small ↦ rw small (omega arith)
  | inr big ↦ rw big (rw foldl-append (ground (arith, value-show_fuel f (n / 10) (ground arith))))
]

pub value-show : (n : ℕ) → value (show n) ≡ n
unfolding show
value-show n = value-show_fuel (suc n) n (omega arith)

pub show-injective : (m n : ℕ) → show m ≡ show n → m ≡ n
show-injective m n h = sym (value-show m) ∙ ap value h ∙ value-show n

abbrev pub AreDigits : Text → Type 0
AreDigits = All (λ c. (48 ≤ c) × (c ≤ 57))

show_fuel-digits : (f n : ℕ) → AreDigits (show_fuel f n)
unfolding show_fuel
show_fuel-digits zero n = tt
show_fuel-digits (suc f) n = elim (Bool-cases (ltb n 10)) [
  | inl small ↦ rw small (ground arith)
  | inr big ↦ rw big (All-append _ _ _ (show_fuel-digits f (n / 10)) (omega arith))
]

pub show-digits : (n : ℕ) → AreDigits (show n)
unfolding show
show-digits n = show_fuel-digits (suc n) n

abbrev pub Without : ℕ → Text → Type 0
Without c = All (λ x. x ≢ c)

pub show-Without : (c n : ℕ) → 57 < c → Without c (show n)
show-Without c n h = All-map _ _ (λ a d. omega arith) (show n) (show-digits n)

-- What stands before the first separator is determined, and so is what stands behind it.
pub split_unique :
    (c : ℕ) (xs ys r s : Text)
    → Without c xs
    → Without c ys
    → xs ++ c ∷ r ≡ ys ++ c ∷ s
    → (xs ≡ ys) × (r ≡ s)
split_unique c [] [] r s hx hy e = ground arith
split_unique c [] (y ∷ ys) r s hx hy e = absurd (hy.0 (ground arith))
split_unique c (x ∷ xs) [] r s hx hy e = absurd (hx.0 (ground arith))
split_unique c (x ∷ xs) (y ∷ ys) r s hx hy e = ground (arith, split_unique c xs ys r s hx.1 hy.1)

-- White space of `str.strip()`, on ASCII texts.
abbrev pub is_space : ℕ → Bool
is_space c = nat_beq c 32 || leb 9 c && leb c 13 || leb 28 c && leb c 31

unfoldable pub lstrip : Text → Text
lstrip [] = []
lstrip (c ∷ cs) = let rest = lstrip cs in if is_space c then rest else c ∷ cs

unfoldable pub rstrip : Text → Text
rstrip [] = []
rstrip (c ∷ cs) = elim (rstrip cs) [ [] ↦ if is_space c then [] else c ∷ [] | d ∷ ds ↦ c ∷ d ∷ ds ]

unfoldable pub strip : Text → Text
strip t = rstrip (lstrip t)

-- `text.lower()`, on ASCII texts.
abbrev pub lower_char : ℕ → ℕ
lower_char c = if leb 65 c && leb c 90 then c + 32 else c

unfoldable pub lower : Text → Text
lower = map lower_char

abbrev extend : ℕ → List Text → List Text
extend c [] = (c ∷ []) ∷ []
extend c (line ∷ lines) = (c ∷ line) ∷ lines

-- `text.split(sep)` at one character.
unfoldable pub split_on : ℕ → Text → List Text
split_on sep [] = [] ∷ []
split_on sep (c ∷ cs) =
    let rest = split_on sep cs in if nat_beq c sep then [] ∷ rest else extend c rest
