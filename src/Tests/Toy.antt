-- ===== src/Tests/Toy.antt =====
-- A toy hash of 32 bytes: the message itself, cut off or filled up. It has the laws that the model
-- asks of SHA-256, and collisions.
use persistence_memory.Prelude.{
  ℕ, zero, suc, ◌%◌, ◌<◌, ◌≡◌, refl, ap, [], ◌∷◌, ◌++◌, arith, length, All, Text, Bytes, Result, ok,
  err,
}
use persistence_memory.Hash.{Sha256}

unfoldable pub fill : ℕ → Bytes → Bytes
fill zero m = []
fill (suc n) [] = 0 ∷ fill n []
fill (suc n) (b ∷ bs) = b % 256 ∷ fill n bs

pub length-fill : (n : ℕ) (m : Bytes) → length (fill n m) ≡ n
unfolding fill
length-fill zero m = refl
length-fill (suc n) [] = ap suc (length-fill n [])
length-fill (suc n) (b ∷ bs) = ap suc (length-fill n bs)

pub fill_bytes : (n : ℕ) (m : Bytes) → All (λ b. b < 256) (fill n m)
unfolding fill
fill_bytes zero m = tt
fill_bytes (suc n) [] = (omega arith, fill_bytes n [])
fill_bytes (suc n) (b ∷ bs) = (omega arith, fill_bytes n bs)

abbrev pub toy : Sha256
toy = record {
  digest = λ m. fill 32 m;
  length-digest = length-fill 32;
  digest_bytes = fill_bytes 32;
}

-- 64 times the digit `c`.
abbrev pub digits : ℕ → Text
digits c =
    let eight : Text = c ∷ c ∷ c ∷ c ∷ c ∷ c ∷ c ∷ c ∷ [] in
    eight ++ (eight ++ (eight ++ (eight ++ (eight ++ (eight ++ (eight ++ eight))))))

-- The value of a run that succeeds.
abbrev pub value_of {ℓ κ} : {E : Type ℓ} {A : Type κ} → A → Result E A → A
value_of other (ok a) = a
value_of other (err e) = other
