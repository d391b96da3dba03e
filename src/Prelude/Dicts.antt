-- ===== src/Prelude/Dicts.antt =====
-- A Python `dict`, in insertion order: assigning to a key that is there keeps its place.
use mathlib.Core.Path.{◌≡◌, refl, sym, subst}
use mathlib.Core.Logic.{inl, inr}
use mathlib.Core.Bool.{Bool, true, false, ◌||◌}
use mathlib.Core.Option.{Option, none, some, some-injective}
use mathlib.Core.List.{List, [], ◌∷◌}
use native.Mathlib.Omega.{arith}
use persistence_memory.Prelude.Tests.{if◌then◌else◌, Eq, ◌==◌, Bool-cases}
use persistence_memory.Prelude.Lists.{All}

abbrev pub Dict {ℓ κ} : Type ℓ → Type κ → Type (ℓ ⊔ κ)
Dict K V = List (K × V)

module _ {ℓ κ} {K : Type ℓ} {V : Type κ} ⦃e : Eq K⦄ where
  -- `d.get(k)`
  abbrev pub lookup : K → Dict K V → Option V
  lookup k [] = none
  lookup k ((j, v) ∷ d) = if j == k then some v else lookup k d

  -- `d[k] = v`
  abbrev pub insert : K → V → Dict K V → Dict K V
  insert k v [] = (k, v) ∷ []
  insert k v ((j, w) ∷ d) = if j == k then (j, v) ∷ d else (j, w) ∷ insert k v d

  -- `d.pop(k, None)`
  abbrev pub erase : K → Dict K V → Dict K V
  erase k [] = []
  erase k ((j, w) ∷ d) = if j == k then d else (j, w) ∷ erase k d

  -- `k in d`
  abbrev pub member : K → Dict K V → Bool
  member k [] = false
  member k ((j, w) ∷ d) = j == k || member k d

  -- `d.values()`
  abbrev pub values : Dict K V → List V
  values [] = []
  values ((_, v) ∷ d) = v ∷ values d

  pub lookup-insert :
      (k j : K) (v : V) (d : Dict K V)
      → lookup j (insert k v d) ≡ (if k == j then some v else lookup j d)
  lookup-insert k j v [] = refl
  lookup-insert k j v ((i, w) ∷ d) =
      ground (arith, e.equal_iff k j, e.equal_iff i k, e.equal_iff i j, lookup-insert k j v d)

  pub member-lookup : (k : K) (d : Dict K V) → lookup k d ≡ none → member k d ≡ false
  member-lookup k [] h = refl
  member-lookup k ((j, w) ∷ d) h = ground (arith, member-lookup k d)

  -- No key stands twice, which `insert` keeps.
  abbrev pub DistinctKeys : Dict K V → Type κ
  DistinctKeys [] = Unit
  DistinctKeys ((k, v) ∷ d) = (lookup k d ≡ none) × DistinctKeys d

  pub insert-DistinctKeys :
      (k : K) (v : V) (d : Dict K V) → DistinctKeys d → DistinctKeys (insert k v d)
  insert-DistinctKeys k v [] h = (refl, tt)
  insert-DistinctKeys k v ((j, w) ∷ d) h = ground (
    arith,
    e.equal_iff j k,
    e.equal_iff k j,
    insert-DistinctKeys k v d h.1,
    lookup-insert k j v d,
  )

  pub member-insert :
      (k j : K) (v : V) (d : Dict K V) → member j (insert k v d) ≡ (k == j || member j d)
  member-insert k j v [] = ground arith
  member-insert k j v ((i, w) ∷ d) =
      ground (arith, e.equal_iff k j, e.equal_iff i k, e.equal_iff i j, member-insert k j v d)

  pub member_of_lookup : (k : K) (d : Dict K V) (v : V) → lookup k d ≡ some v → member k d ≡ true
  member_of_lookup k [] v h = cc
  member_of_lookup k ((j, w) ∷ d) v h = ground (arith, member_of_lookup k d v)

  -- Taking back a new entry, or the change of an old one.
  pub erase-insert : (k : K) (v : V) (d : Dict K V) → lookup k d ≡ none → erase k (insert k v d) ≡ d
  erase-insert k v [] h = ground (arith, e.equal_iff k k)
  erase-insert k v ((j, w) ∷ d) h = ground (arith, erase-insert k v d)

  pub insert-insert :
      (k : K) (v w : V) (d : Dict K V) → lookup k d ≡ some w → insert k w (insert k v d) ≡ d
  insert-insert k v w [] h = cc
  insert-insert k v w ((j, u) ∷ d) h = ground (arith, insert-insert k v w d)

  pub lookup-erase : (k j : K) (d : Dict K V) → (k == j) ≡ false → lookup j (erase k d) ≡ lookup j d
  lookup-erase k j [] h = refl
  lookup-erase k j ((i, w) ∷ d) h =
      ground (arith, e.equal_iff k j, e.equal_iff i k, e.equal_iff i j, lookup-erase k j d h)

  pub insert-All {ι} :
      (P : K × V → Type ι) (k : K) (v : V) (d : Dict K V)
      → P (k, v)
      → All P d
      → All P (insert k v d)
  insert-All P k v [] new all = (new, tt)
  insert-All P k v ((j, w) ∷ d) new all = elim (Bool-cases (j == k)) [
    | inl same ↦ rw same (subst (λ x. P (x, v)) (sym ((e.equal_iff j k).0 same)) new, all.1)
    | inr other ↦ rw other (all.0, insert-All P k v d new all.1)
  ]

  pub erase-All {ι} : (P : K × V → Type ι) (k : K) (d : Dict K V) → All P d → All P (erase k d)
  erase-All P k [] all = tt
  erase-All P k ((j, w) ∷ d) all = elim (Bool-cases (j == k)) [
    | inl same ↦ rw same all.1
    | inr other ↦ rw other (all.0, erase-All P k d all.1)
  ]

  pub lookup-All {ι} :
      (P : K × V → Type ι) (k : K) (v : V) (d : Dict K V) → All P d → lookup k d ≡ some v → P (k, v)
  lookup-All P k v [] all h = absurd (cc)
  lookup-All P k v ((j, w) ∷ d) all h = elim (Bool-cases (j == k)) [
    | inl same ↦
        let here : some w ≡ some v = rw same at h in
        subst (λ x. P (x, v)) ((e.equal_iff j k).0 same)
          (subst (λ x. P (j, x)) (some-injective _ _ here) all.0)
    | inr other ↦ lookup-All P k v d all.1 (rw other at h)
  ]
