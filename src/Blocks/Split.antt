-- ===== src/Blocks/Split.antt =====
-- The loop of `_mth` that finds where to split a list.
use persistence_memory.Prelude.{
  ℕ, zero, suc, ◌+◌, ◌*◌, ◌^◌, ◌≤◌, ◌<◌, ◌≡◌, refl, inl, inr, arith, ltb, Bool-cases,
}
use persistence_memory.Blocks.Hashing.{double_while, split_point}

double_while-bounds :
    (fuel n k : ℕ)
    → 0 < k
    → k < n
    → n ≤ fuel + k
    → (0 < double_while fuel n k) × (double_while fuel n k < n) × (n ≤ double_while fuel n k * 2)
unfolding double_while
double_while-bounds zero n k pos below enough = absurd (omega arith)
double_while-bounds (suc fuel) n k pos below enough = elim (Bool-cases (ltb (k * 2) n)) [
  | inl more ↦
      rw (more, double_while)
        (double_while-bounds fuel n (k * 2) (omega arith) (ground arith) (omega arith))
  | inr done ↦ rw (done, double_while) (ground arith)
]

double_while-power : (fuel n i : ℕ) → (j : ℕ) × (double_while fuel n (2 ^ i) ≡ 2 ^ j)
unfolding double_while
double_while-power zero n i = (i, refl)
double_while-power (suc fuel) n i = elim (Bool-cases (ltb (2 ^ i * 2) n)) [
  | inl more ↦ rw (more, double_while) (rw (← double i) (double_while-power fuel n (suc i)))
  | inr done ↦ rw (done, double_while) (i, refl)
]
  where
    double : (i : ℕ) → 2 ^ suc i ≡ 2 ^ i * 2
    double i = omega arith

-- For two items or more, the split point is the largest power of two below their number.
pub split_point_lem :
    (n : ℕ)
    → 1 < n
    → (0 < split_point n)
      × (split_point n < n)
      × (n ≤ split_point n * 2)
      × ((j : ℕ) × (split_point n ≡ 2 ^ j))
unfolding split_point
split_point_lem n h =
    let (p, b, e) = double_while-bounds n n 1 (omega arith) h (omega arith) in
    (p, b, e, double_while-power n n 0)
