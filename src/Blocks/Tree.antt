-- ===== src/Blocks/Tree.antt =====
-- The tree hash: it returns, its value is a digest, and it binds the leaves.
use persistence_memory.Prelude.{
  subst, ℕ, zero, suc, ◌≤◌, ◌<◌, ◌≡◌, refl, sym, ap, ap₂, ◌∙◌, ◌⊎◌, inl, inr, Option, none, some,
  List, [], ◌∷◌, ◌++◌, map, arith, length, take, drop, length-take, length-drop, length-map,
  map-take, map-drop, take-append-drop, append_unique, Bytes, cons-injective,
}
use persistence_memory.Hash.{Sha256, Collision, Collision-grow, digest-injective}
use persistence_memory.Blocks.Hashing.{node_hash, join, mth, split_point}
use persistence_memory.Blocks.Split.{split_point_lem}

module _ (h : Sha256) where
  join-some :
      (l r : Option Bytes) {d : Bytes}
      → join h l r ≡ some d
      → (a : Bytes) × (b : Bytes) × (l ≡ some a) × (r ≡ some b) × (node_hash h a b ≡ d)
  join-some none r e = cc
  join-some (some a) none e = cc
  join-some (some a) (some b) e = (a, b, refl, refl, cc)

  -- With fuel for the number of hashes, the recursion ends with a value.
  pub mth_total :
      (fuel : ℕ) (xs : List Bytes)
      → 0 < length xs
      → length xs ≤ fuel
      → (d : Bytes) × (mth h fuel xs ≡ some d)
  unfolding mth
  mth_total zero xs pos enough = absurd (omega arith)
  mth_total (suc fuel) [] pos enough = absurd (omega arith)
  mth_total (suc fuel) (x ∷ []) pos enough = (x, refl)
  mth_total (suc fuel) (x ∷ y ∷ xs) pos enough =
      let all : List Bytes = x ∷ y ∷ xs in
      let k = split_point (length all) in
      let (kp, kb, _, _) = split_point_lem (length all) (omega arith) in
      let (l, el) =
        mth_total fuel (take k all) (omega (arith, length-take k all))
          (omega (arith, length-take k all)) in
      let (r, er) =
        mth_total fuel (drop k all) (omega (arith, length-drop k all))
          (omega (arith, length-drop k all)) in
      (node_hash h l r, ap₂ (join h) el er)

  abbrev pub leaves : List Bytes → List Bytes
  leaves ps = map (λ p. h.digest (0 ∷ p)) ps

  -- The messages that the tree hash of the leaf contents `ps` asks a digest of: a content behind
  -- the byte 0, and behind the byte 1 the hashes of the two halves.
  abbrev pub Hashes : ℕ → List Bytes → Bytes → Type 0
  Hashes zero ps m = ⊥
  Hashes (suc fuel) [] m = ⊥
  Hashes (suc fuel) (p ∷ []) m = m ≡ 0 ∷ p
  Hashes (suc fuel) (p ∷ q ∷ ps) m =
      let k = split_point (length (p ∷ q ∷ ps)) in
      let left = take k (p ∷ q ∷ ps) in
      let right = drop k (p ∷ q ∷ ps) in
      ((a : Bytes) × (b : Bytes) × (mth h fuel (leaves left) ≡ some a)
        × (mth h fuel (leaves right) ≡ some b)
        × (m ≡ 1 ∷ a ++ b))
      ⊎ (Hashes fuel left m ⊎ Hashes fuel right m)

  -- What two or more leaves hash to, in terms of the halves.
  pub mth_node :
      (fuel : ℕ) (p q : Bytes) (ps : List Bytes) {d : Bytes}
      → mth h (suc fuel) (leaves (p ∷ q ∷ ps)) ≡ some d
      → (a : Bytes) × (b : Bytes) × (mth h fuel
            (leaves (take (split_point (length (p ∷ q ∷ ps))) (p ∷ q ∷ ps)))
          ≡ some a)
        × (mth h fuel (leaves (drop (split_point (length (p ∷ q ∷ ps))) (p ∷ q ∷ ps))) ≡ some b)
        × (h.digest (1 ∷ a ++ b) ≡ d)
  unfolding mth node_hash
  mth_node fuel p q ps e =
      let tag : Bytes → Bytes = λ p. h.digest (0 ∷ p) in
      let k = split_point (length (leaves (p ∷ q ∷ ps))) in
      let same : k ≡ split_point (length (p ∷ q ∷ ps)) =
        ap split_point (length-map tag (p ∷ q ∷ ps)) in
      let (a, b, ea, eb, en) = join-some _ _ e in
      (
        a,
        b,
        ap (mth h fuel) (
              ap (λ n. leaves (take n (p ∷ q ∷ ps))) (sym same) ∙ sym (map-take tag k (p ∷ q ∷ ps)))
            ∙ ea,
        ap (mth h fuel) (
              ap (λ n. leaves (drop n (p ∷ q ∷ ps))) (sym same) ∙ sym (map-drop tag k (p ∷ q ∷ ps)))
            ∙ eb,
        en,
      )

  pub mth-digest :
      (fuel : ℕ) (ps : List Bytes) {d : Bytes}
      → mth h fuel (leaves ps) ≡ some d
      → (t : ℕ) × (m : Bytes) × Hashes fuel ps (t ∷ m) × (h.digest (t ∷ m) ≡ d)
  mth-digest zero ps e = absurd (unfold mth in cc)
  mth-digest (suc fuel) [] e = absurd (unfold mth in cc)
  mth-digest (suc fuel) (p ∷ []) e = (0, p, refl, unfold mth in cc)
  mth-digest (suc fuel) (p ∷ q ∷ ps) e =
      let (a, b, ea, eb, en) = mth_node fuel p q ps e in (1, a ++ b, inl (a, b, ea, eb, refl), en)

  mth-length :
      (fuel : ℕ) (ps : List Bytes) {d : Bytes} → mth h fuel (leaves ps) ≡ some d → length d ≡ 32
  mth-length fuel ps e =
      let (t, m, _, em) = mth-digest fuel ps e in
      subst (λ x. length x ≡ 32) em (h.length-digest (t ∷ m))

  leaf_or_node :
      {P Q : Bytes → Type 0} (p m : Bytes)
      → P (0 ∷ p)
      → Q (1 ∷ m)
      → h.digest (0 ∷ p) ≡ h.digest (1 ∷ m)
      → Collision h P Q
  leaf_or_node p m hp hm e = elim (digest-injective h _ _ hp hm e) [
    | inl same ↦ absurd (omega (arith, (cons-injective _ _ _ _ same).0))
    | inr found ↦ found
  ]

  node_or_leaf :
      {P Q : Bytes → Type 0} (p m : Bytes)
      → Q (0 ∷ p)
      → P (1 ∷ m)
      → h.digest (0 ∷ p) ≡ h.digest (1 ∷ m)
      → Collision h P Q
  node_or_leaf p m hp hm e = elim (digest-injective h _ _ hm hp (sym e)) [
    | inl same ↦ absurd (omega (arith, (cons-injective _ _ _ _ same).0))
    | inr found ↦ found
  ]

  same_halves :
      {A : Type 0} (k j : ℕ) (xs ys : List A)
      → take k xs ≡ take j ys
      → drop k xs ≡ drop j ys
      → xs ≡ ys
  same_halves k j xs ys et ed = sym (take-append-drop k xs) ∙ ap₂ ◌++◌ et ed ∙ take-append-drop j ys

  -- Equal tree hashes are of equal leaves, or two of the messages that are hashed for them
  -- collide, whatever the two lengths.
  pub mth-binding :
      (f g : ℕ) (ps qs : List Bytes) {d : Bytes}
      → mth h f (leaves ps) ≡ some d
      → mth h g (leaves qs) ≡ some d
      → (ps ≡ qs) ⊎ Collision h (Hashes f ps) (Hashes g qs)
  mth-binding zero g ps qs ep eq = absurd (unfold mth in cc)
  mth-binding (suc f) zero ps qs ep eq = absurd (unfold mth in cc)
  mth-binding (suc f) (suc g) [] qs ep eq = absurd (unfold mth in cc)
  mth-binding (suc f) (suc g) (p ∷ ps) [] ep eq = absurd (unfold mth in cc)
  mth-binding (suc f) (suc g) (p ∷ []) (q ∷ []) ep eq =
      elim (digest-injective h (0 ∷ p) (0 ∷ q) refl refl (unfold mth in cc)) [
        | inl same ↦ inl (ap (λ x. x ∷ []) (cons-injective _ _ _ _ same).1)
        | inr found ↦ inr found
      ]
  mth-binding (suc f) (suc g) (p ∷ []) (q ∷ r ∷ qs) ep eq =
      let (a, b, ea, eb, en) = mth_node g q r qs eq in
      inr (leaf_or_node p (a ++ b) refl (inl (a, b, ea, eb, refl)) (unfold mth in cc))
  mth-binding (suc f) (suc g) (p ∷ r ∷ ps) (q ∷ []) ep eq =
      let (a, b, ea, eb, en) = mth_node f p r ps ep in
      inr (node_or_leaf q (a ++ b) refl (inl (a, b, ea, eb, refl)) (unfold mth in cc))
  mth-binding (suc f) (suc g) (p ∷ p' ∷ ps) (q ∷ q' ∷ qs) ep eq =
      let k = split_point (length (p ∷ p' ∷ ps)) in
      let j = split_point (length (q ∷ q' ∷ qs)) in
      let (a, b, ea, eb, en) = mth_node f p p' ps ep in
      let (a', b', ea', eb', en') = mth_node g q q' qs eq in
      elim (digest-injective h (1 ∷ a ++ b) (1 ∷ a' ++ b') (inl (a, b, ea, eb, refl))
        (inl (a', b', ea', eb', refl)) (en ∙ sym en')) [
          | inr found ↦ inr found
          | inl same ↦
              let (sa, sb) =
                append_unique a a' b b'
                  (mth-length f (take k (p ∷ p' ∷ ps)) ea
                    ∙ sym (mth-length g (take j (q ∷ q' ∷ qs)) ea'))
                  (cons-injective _ _ _ _ same).1 in
              elim (mth-binding f g (take k (p ∷ p' ∷ ps)) (take j (q ∷ q' ∷ qs)) (ea ∙ ap some sa)
                ea') [
                  | inr found ↦
                      inr (Collision-grow h (λ m x. inr (inl x)) (λ m x. inr (inl x)) found)
                  | inl et ↦
                      elim (mth-binding f g (drop k (p ∷ p' ∷ ps)) (drop j (q ∷ q' ∷ qs))
                        (eb ∙ ap some sb) eb') [
                          | inr found ↦
                              inr (Collision-grow h (λ m x. inr (inr x)) (λ m x. inr (inr x)) found)
                          | inl ed ↦ inl (same_halves k j _ _ et ed)
                        ]
                ]
        ]
