-- ===== src/Prelude/Sorting.antt =====
-- `sorted(xs, key=...)`: a stable sort by a Boolean order, and the order of texts (bytewise, which
-- is the order of code points too).
use Prim.Native.Nat.{ℕ, compare, Ordering}
use mathlib.Core.Path.{◌≡◌, refl, sym, subst}
use mathlib.Core.Logic.{◌≢◌, inl, inr}
use mathlib.Core.Bool.{Bool, true, false}
use mathlib.Core.List.{List, [], ◌∷◌, Perm}
use mathlib.Core.List.Perm
use native.Mathlib.Omega.{arith}
use persistence_memory.Prelude.Tests.{if◌then◌else◌, Bool-cases}
use persistence_memory.Prelude.Lists.{All, All-map, In}

module _ {ℓ} {A : Type ℓ} (le : A → A → Bool) where
  unfoldable pub insert_sorted : A → List A → List A
  insert_sorted x [] = x ∷ []
  insert_sorted x (y ∷ ys) = if le x y then x ∷ y ∷ ys else y ∷ insert_sorted x ys

  unfoldable pub sort : List A → List A
  unfolding insert_sorted
  sort [] = []
  sort (x ∷ xs) = insert_sorted x (sort xs)

  insert_sorted-perm : (x : A) (ys : List A) → Perm (insert_sorted x ys) (x ∷ ys)
  unfolding insert_sorted
  insert_sorted-perm x [] = Perm.refl _
  insert_sorted-perm x (y ∷ ys) = elim (Bool-cases (le x y)) [
    | inl here ↦ rw here (Perm.refl _)
    | inr later ↦ rw later (Perm.trans (Perm.cons y (insert_sorted-perm x ys)) (Perm.swap x y ys))
  ]

  pub sort-perm : (xs : List A) → Perm (sort xs) xs
  unfolding sort
  sort-perm [] = Perm.refl _
  sort-perm (x ∷ xs) = Perm.trans (insert_sorted-perm x (sort xs)) (Perm.cons x (sort-perm xs))

  -- Lists that sort to one list hold the same items.
  pub sort_perm : (xs ys : List A) → sort xs ≡ sort ys → Perm xs ys
  sort_perm xs ys e =
      Perm.trans (Perm.symm (sort-perm xs)) (subst (λ l. Perm l ys) (sym e) (sort-perm ys))

-- The order of texts.
unfoldable pub text_leb : List ℕ → List ℕ → Bool
text_leb [] ys = true
text_leb (x ∷ xs) [] = false
text_leb (x ∷ xs) (y ∷ ys) = elim (compare x y) [
  | Ordering.lt ↦ true
  | Ordering.eq ↦ text_leb xs ys
  | Ordering.gt ↦ false
]

pub text_leb_total : (xs ys : List ℕ) → text_leb xs ys ≡ false → text_leb ys xs ≡ true
unfolding text_leb
text_leb_total [] ys e = cc
text_leb_total (x ∷ xs) [] e = refl
text_leb_total (x ∷ xs) (y ∷ ys) e = ground (arith, text_leb_total xs ys)

pub text_leb_antisymm : (xs ys : List ℕ) → text_leb xs ys ≡ true → text_leb ys xs ≡ true → xs ≡ ys
unfolding text_leb
text_leb_antisymm [] [] e f = refl
text_leb_antisymm [] (y ∷ ys) e f = cc
text_leb_antisymm (x ∷ xs) [] e f = cc
text_leb_antisymm (x ∷ xs) (y ∷ ys) e f = ground (arith, text_leb_antisymm xs ys)

pub text_leb_trans :
    (xs ys zs : List ℕ) → text_leb xs ys ≡ true → text_leb ys zs ≡ true → text_leb xs zs ≡ true
unfolding text_leb
text_leb_trans [] ys zs e f = refl
text_leb_trans (x ∷ xs) [] zs e f = cc
text_leb_trans (x ∷ xs) (y ∷ ys) [] e f = cc
text_leb_trans (x ∷ xs) (y ∷ ys) (z ∷ zs) e f = ground (arith, text_leb_trans xs ys zs)

-- Sorting by a key that is a text: lists that differ in order alone, with no key twice, sort to
-- one list.
module _ {A : Type 0} (key : A → List ℕ) where
  abbrev pub by_key : A → A → Bool
  by_key a b = text_leb (key a) (key b)

  pub insert_sorted_comm :
      (x y : A) (zs : List A)
      → key x ≢ key y
      → insert_sorted by_key x (insert_sorted by_key y zs)
        ≡ insert_sorted by_key y (insert_sorted by_key x zs)
  unfolding insert_sorted
  insert_sorted_comm x y [] ne =
      ground (arith, text_leb_total (key x) (key y), text_leb_antisymm (key x) (key y), ne)
  insert_sorted_comm x y (z ∷ zs) ne = ground (
    arith,
    text_leb_total (key x) (key y),
    text_leb_total (key y) (key x),
    text_leb_antisymm (key x) (key y),
    text_leb_trans (key x) (key y) (key z),
    text_leb_trans (key y) (key x) (key z),
    insert_sorted_comm x y zs ne,
  )

-- Sorting brings in no item.
module _ {A : Type 0} (le : A → A → Bool) where
  pub insert_sorted-All :
      (P : A → Type 0) (x : A) (ys : List A) → P x → All P ys → All P (insert_sorted le x ys)
  unfolding insert_sorted
  insert_sorted-All P x [] h all = (h, tt)
  insert_sorted-All P x (y ∷ ys) h all = elim (Bool-cases (le x y)) [
    | inl here ↦ rw here (h, all)
    | inr later ↦ rw later (all.0, insert_sorted-All P x ys h all.1)
  ]

  pub sort-All : (P : A → Type 0) (xs : List A) → All P xs → All P (sort le xs)
  unfolding sort
  sort-All P [] all = tt
  sort-All P (x ∷ xs) all = insert_sorted-All P x (sort le xs) all.0 (sort-All P xs all.1)

All-In : {A : Type 0} (xs : List A) → All (λ x. In x xs) xs
All-In [] = tt
All-In (x ∷ xs) =
    (inl refl, All-map (λ y. In y xs) (λ y. In y (x ∷ xs)) (λ y h. inr h) xs (All-In xs))

pub sort-In : {A : Type 0} (le : A → A → Bool) (xs : List A) → All (λ x. In x xs) (sort le xs)
sort-In le xs = sort-All le (λ x. In x xs) xs (All-In xs)

module _ {A : Type 0} (le : A → A → Bool) (P : A → Type 0) where
  All-insert_sorted : (x : A) (xs : List A) → All P (insert_sorted le x xs) → P x × All P xs
  unfolding insert_sorted
  All-insert_sorted x [] all = (all.0, tt)
  All-insert_sorted x (y ∷ ys) all = elim (Bool-cases (le x y)) [
    | inl before ↦ let both : All P (x ∷ y ∷ ys) = rw before at all in (both.0, both.1)
    | inr behind ↦
        let kept : All P (y ∷ insert_sorted le x ys) = rw behind at all in
        let (new, old) = All-insert_sorted x ys kept.1 in (new, (kept.0, old))
  ]

  -- What holds of a sorted list holds of the list.
  pub All-sort : (xs : List A) → All P (sort le xs) → All P xs
  unfolding sort
  All-sort [] all = tt
  All-sort (x ∷ xs) all =
      let (new, old) = All-insert_sorted x (sort le xs) all in (new, All-sort xs old)
