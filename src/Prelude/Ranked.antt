-- ===== src/Prelude/Ranked.antt =====
-- Sorting by a strict order in which no two items are equal: the largest first, in one way alone.
use mathlib.Core.Path.{◌≡◌, refl, sym, ap}
use mathlib.Core.Logic.{◌⊎◌, inl, inr}
use mathlib.Core.Bool.{Bool, true, false, not}
use mathlib.Core.List.{List, [], ◌∷◌, ◌++◌}
use persistence_memory.Prelude.Tests.{if◌then◌else◌, Bool-cases}
use persistence_memory.Prelude.Lists.{All, All-map, keep}
use persistence_memory.Prelude.Sorting.{insert_sorted, sort, insert_sorted-All, sort-All}

-- A strict order.
pub record StrictOrder {A : Type 0} (lt : A → A → Bool) : Type 0 where
  pub asym : (a b : A) → lt a b ≡ true → lt b a ≡ false
  pub trans : (a b c : A) → lt a b ≡ true → lt b c ≡ true → lt a c ≡ true

module _ {A : Type 0} (lt : A → A → Bool) where
  -- `sorted(xs, key=..., reverse=True)`
  abbrev pub not_lt : A → A → Bool
  not_lt a b = not (lt a b)

  -- Each item is above all that follow it.
  abbrev pub Strict : List A → Type 0
  Strict [] = Unit
  Strict (x ∷ xs) = All (λ y. lt y x ≡ true) xs × Strict xs

  abbrev pub IsApart : A → A → Type 0
  IsApart x y = (lt x y ≡ true) ⊎ (lt y x ≡ true)

  -- Of any two items one is above the other.
  abbrev pub Apart : List A → Type 0
  Apart [] = Unit
  Apart (x ∷ xs) = All (IsApart x) xs × Apart xs

module _ {A : Type 0} (lt : A → A → Bool) (order : StrictOrder lt) where
  insert_sorted-Strict :
      (x : A) (ys : List A)
      → All (IsApart lt x) ys
      → Strict lt ys
      → Strict lt (insert_sorted (not_lt lt) x ys)
  unfolding insert_sorted
  insert_sorted-Strict x [] apart strict = (tt, tt)
  insert_sorted-Strict x (y ∷ ys) apart strict = elim (Bool-cases (lt x y)) [
    | inl below ↦ rw below (
      insert_sorted-All (not_lt lt) (λ z. lt z y ≡ true) x ys below strict.0,
      insert_sorted-Strict x ys apart.1 strict.1,
    )
    | inr no_ ↦ rw no_ (
        let above : lt y x ≡ true = elim apart.0 [ inl xy ↦ absurd (cc) | inr yx ↦ yx ] in
        (
          (
            above,
            All-map (λ z. lt z y ≡ true) (λ z. lt z x ≡ true) (λ z zy. order.trans z y x zy above)
                ys strict.0,
          ),
          strict,
        ))
  ]

  pub sort-Strict : (xs : List A) → Apart lt xs → Strict lt (sort (not_lt lt) xs)
  unfolding sort
  sort-Strict [] apart = tt
  sort-Strict (x ∷ xs) apart =
      insert_sorted-Strict x (sort (not_lt lt) xs) (sort-All (not_lt lt) (IsApart lt x) xs apart.0)
        (sort-Strict xs apart.1)

  module _ (p : A → Bool) where
    insert_first :
        (x y : A) (ys : List A)
        → lt x y ≡ false
        → All (λ z. lt z y ≡ true) ys
        → insert_sorted (not_lt lt) x (keep p ys) ≡ x ∷ keep p ys
    unfolding insert_sorted
    insert_first x y [] first below = refl
    insert_first x y (z ∷ zs) first below = elim (Bool-cases (p z)) [
      | inl kept ↦ rw kept (elim (Bool-cases (lt x z)) [
        | inl xz ↦ absurd (let both : lt x y ≡ true = order.trans x z y xz below.0 in cc)
        | inr no_ ↦ rw no_ refl
      ])
      | inr dropped ↦ rw dropped (insert_first x y zs first below.1)
    ]

    keep-insert_sorted :
        (x : A) (ys : List A)
        → Strict lt ys
        → keep p (insert_sorted (not_lt lt) x ys)
          ≡ (if p x then insert_sorted (not_lt lt) x (keep p ys) else keep p ys)
    unfolding insert_sorted
    keep-insert_sorted x [] strict = refl
    keep-insert_sorted x (y ∷ ys) strict = elim (Bool-cases (lt x y)) [
      | inl below ↦ rw below (elim (Bool-cases (p y)) [
        | inl kept ↦ rw kept (elim (Bool-cases (p x)) [
          | inl here ↦ rw (keep-insert_sorted x ys strict.1, here, below) refl
          | inr gone ↦ rw (keep-insert_sorted x ys strict.1, gone) refl
        ])
        | inr dropped ↦ rw dropped (keep-insert_sorted x ys strict.1)
      ])
      | inr no_ ↦ rw no_ (elim (Bool-cases (p x)) [
        | inl here ↦ rw here (elim (Bool-cases (p y)) [
          | inl kept ↦ rw (kept, no_) refl
          | inr dropped ↦ rw dropped (sym (insert_first x y ys no_ strict.0))
        ])
        | inr gone ↦ rw gone refl
      ])
    ]

    -- Filtering what is sorted is sorting what is filtered.
    pub keep-sort :
        (xs : List A) → Apart lt xs → keep p (sort (not_lt lt) xs) ≡ sort (not_lt lt) (keep p xs)
    unfolding sort
    keep-sort [] apart = refl
    keep-sort (x ∷ xs) apart =
        rw
          (
            keep-insert_sorted x (sort (not_lt lt) xs) (sort-Strict xs apart.1),
            keep-sort xs apart.1,
          )
          (elim (Bool-cases (p x)) [ inl here ↦ rw here refl | inr gone ↦ rw gone refl ])

  keep-All : (r : A) (xs : List A) → All (λ z. lt z r ≡ true) xs → keep (λ z. lt z r) xs ≡ xs
  keep-All r [] all = refl
  keep-All r (x ∷ xs) all = rw all.0 (ap (λ rest. x ∷ rest) (keep-All r xs all.1))

  -- What is below an item is what follows it.
  pub keep-below :
      (front : List A) (r : A) (back : List A)
      → Strict lt (front ++ r ∷ back)
      → keep (λ z. lt z r) (front ++ r ∷ back) ≡ back
  keep-below [] r back strict = elim (Bool-cases (lt r r)) [
    | inl self ↦ absurd (let never : lt r r ≡ false = order.asym r r self in cc)
    | inr no_ ↦ rw no_ (keep-All r back strict.0)
  ]
  keep-below (x ∷ front) r back strict =
      rw (order.asym r x (below_head front strict.0)) (keep-below front r back strict.1)
    where
      below_head : (xs : List A) → All (λ y. lt y x ≡ true) (xs ++ r ∷ back) → lt r x ≡ true
      below_head [] all = all.0
      below_head (y ∷ ys) all = below_head ys all.1
