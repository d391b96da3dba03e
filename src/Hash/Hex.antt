-- ===== src/Hash/Hex.antt =====
-- `bytes.hex()`, `bytes.fromhex` and the check `re.match("^[0-9a-f]{64}$", value)`. In Python `$`
-- also matches just before a line break at the end, and `fromhex` skips white space.
use persistence_memory.Prelude.{
  Without, Bool-cases, ◌≢◌, inl, inr, and_true, cons-injective, ℕ, zero, suc, ◌+◌, ◌-◌, ◌*◌, ◌/◌,
  ◌%◌, ◌<◌, ◌≡◌, refl, Bool, true, ◌&&◌, ◌||◌, [], ◌∷◌, arith, ltb, leb, nat_beq, if◌then◌else◌,
  length, All, Text, Bytes,
}

hex_char : ℕ → ℕ
hex_char n = if ltb n 10 then 48 + n else 87 + n

-- `d.hex()`
unfoldable pub to_hex : Bytes → Text
unfolding hex_char
to_hex [] = []
to_hex (b ∷ bs) = hex_char (b / 16) ∷ hex_char (b % 16) ∷ to_hex bs

abbrev pub is_hex_char : ℕ → Bool
is_hex_char c = leb 48 c && leb c 57 || leb 97 c && leb c 102

abbrev all_hex : Text → Bool
all_hex [] = true
all_hex (c ∷ cs) = is_hex_char c && all_hex cs

-- The text less one line break at its end.
abbrev pub without_newline : Text → Text
without_newline [] = []
without_newline (c ∷ []) = if nat_beq c 10 then [] else c ∷ []
without_newline (c ∷ d ∷ cs) = c ∷ without_newline (d ∷ cs)

unfoldable pub is_hex64 : Text → Bool
is_hex64 t = let u = without_newline t in nat_beq (length u) 64 && all_hex u

-- 64 lowercase hexadecimal characters and nothing more.
abbrev pub IsHex64 : Text → Type 0
IsHex64 t = (length t ≡ 64) × (all_hex t ≡ true)

hex_value : ℕ → ℕ
hex_value c = if ltb c 58 then c - 48 else c - 87

-- `bytes.fromhex(t)` where the check has passed: pairs of characters, and a last line break.
unfoldable pub fromhex : Text → Bytes
unfolding hex_value
fromhex [] = []
fromhex (c ∷ []) = []
fromhex (c ∷ d ∷ cs) = (hex_value c * 16 + hex_value d) ∷ fromhex cs

hex_value-injective :
    (c d : ℕ) → is_hex_char c ≡ true → is_hex_char d ≡ true → hex_value c ≡ hex_value d → c ≡ d
unfolding hex_value
hex_value-injective c d hc hd e = ground arith

hex_value-lt : (c : ℕ) → is_hex_char c ≡ true → hex_value c < 16
unfolding hex_value
hex_value-lt c h = ground arith

hex_char-injective : (m n : ℕ) → m < 16 → n < 16 → hex_char m ≡ hex_char n → m ≡ n
unfolding hex_char
hex_char-injective m n hm hn e = ground arith

pub to_hex-injective :
    (xs ys : Bytes)
    → All (λ b. b < 256) xs
    → All (λ b. b < 256) ys
    → to_hex xs ≡ to_hex ys
    → xs ≡ ys
unfolding to_hex
to_hex-injective [] [] hx hy e = refl
to_hex-injective [] (y ∷ ys) hx hy e = cc
to_hex-injective (x ∷ xs) [] hx hy e = cc
to_hex-injective (x ∷ xs) (y ∷ ys) hx hy e = ground (
  arith,
  hex_char-injective (x / 16) (y / 16),
  hex_char-injective (x % 16) (y % 16),
  to_hex-injective xs ys hx.1 hy.1,
)

pair_injective :
    (a b c d : ℕ)
    → is_hex_char a ≡ true
    → is_hex_char b ≡ true
    → is_hex_char c ≡ true
    → is_hex_char d ≡ true
    → hex_value a * 16 + hex_value b ≡ hex_value c * 16 + hex_value d
    → (a ≡ c) × (b ≡ d)
pair_injective a b c d ha hb hc hd e = (
  hex_value-injective a c ha hc (omega (arith, hex_value-lt b hb, hex_value-lt d hd)),
  hex_value-injective b d hb hd (omega (arith, hex_value-lt b hb, hex_value-lt d hd)),
)

fromhex-injective_at :
    (k : ℕ) (xs ys : Text)
    → length xs ≡ k + k
    → length ys ≡ k + k
    → all_hex xs ≡ true
    → all_hex ys ≡ true
    → fromhex xs ≡ fromhex ys
    → xs ≡ ys
unfolding fromhex
fromhex-injective_at zero [] [] lx ly hx hy e = refl
fromhex-injective_at (suc k) (a ∷ b ∷ xs) (c ∷ d ∷ ys) lx ly hx hy e =
    let (ha, hbx) = and_true _ _ hx in
    let (hb, hxs) = and_true _ _ hbx in
    let (hc, hdy) = and_true _ _ hy in
    let (hd, hys) = and_true _ _ hdy in
    let (same, rest) = cons-injective _ _ _ _ e in
    let (ac, bd) = pair_injective a b c d ha hb hc hd same in
    cc (ac, bd, fromhex-injective_at k xs ys (omega arith) (omega arith) hxs hys rest)
fromhex-injective_at k xs ys lx ly hx hy e = absurd (omega arith)

-- On texts of exactly 64 characters, decoding loses nothing.
pub fromhex-injective : (xs ys : Text) → IsHex64 xs → IsHex64 ys → fromhex xs ≡ fromhex ys → xs ≡ ys
fromhex-injective xs ys hx hy e = fromhex-injective_at 32 xs ys hx.0 hy.0 hx.1 hy.1 e

hex_char-ne : (c x : ℕ) → 102 < c → is_hex_char x ≡ true → x ≢ c
hex_char-ne c x hc h = ground arith

-- A checked text holds no character past `f`: no separator `|`.
pub is_hex64-Without : (c : ℕ) (t : Text) → 102 < c → is_hex64 t ≡ true → Without c t
unfolding is_hex64
is_hex64-Without c t hc h = go t (and_true _ _ h).1
  where
    go : (t : Text) → all_hex (without_newline t) ≡ true → Without c t
    go [] e = tt
    go (x ∷ []) e = elim (Bool-cases (nat_beq x 10)) [
      | inl line ↦ (ground arith, tt)
      | inr other ↦ (ground (arith, hex_char-ne c x), tt)
    ]
    go (x ∷ y ∷ xs) e = let (hx, rest) = and_true _ _ e in (hex_char-ne c x hc hx, go (y ∷ xs) rest)
