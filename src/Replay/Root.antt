-- ===== src/Replay/Root.antt =====
-- What the state root commits to, and that the order of its input does not matter.
use mathlib.Core.Logic.{∥∥₁_elim}
use mathlib.Core.List.{Perm, Permᴰ}
use mathlib.Core.List.Perm
use persistence_memory.Prelude.{
  some, subst, text_eq, suc, ◌≡◌, ◌≢◌, refl, sym, ap, ap₂, ◌∙◌, ◌⊎◌, inl, inr, List, [], ◌∷◌, map,
  length-map, arith, length, All, Text, Bytes, codes, show-injective, show-Without, split_unique,
  append_cancel, append_unique, cons-injective, Result, ok, raise_if, >>=-eq-ok, traverse, sort,
  by_key,
}
use persistence_memory.Prelude.Sorting.{insert_sorted, insert_sorted_comm, sort_perm}
use persistence_memory.Hash.{Sha256, Collision, digest-injective, to_hex, to_hex-injective}
use persistence_memory.Blocks.{ValueError, merkle_tree_hash, mth}
use persistence_memory.Blocks.Tree.{leaves, Hashes, mth-binding, mth-digest}
use persistence_memory.Blocks.Binding.{mth-bytes, returned-ok}
use persistence_memory.Replay.State.{
  state_leaf, state_root, leaf_text, head_id, empty_root, repeats,
}

leaf_text-injective : (x y : Text × Text) → leaf_text x ≡ leaf_text y → x ≡ y
leaf_text-injective (i, r) (j, s) e =
    let e1 = append_cancel (codes "jarvis-state|v1|") _ _ e in
    let (el, e2) =
      split_unique b':' _ _ _ _ (show-Without b':' _ (omega arith))
        (show-Without b':' _ (omega arith)) e1 in
    let (ei, e3) = append_unique i j _ _ (show-injective _ _ el) e2 in
    let er = (cons-injective _ _ _ _ e3).1 in λ k. (ei k, er k)

map-injective : (xs ys : List (Text × Text)) → map leaf_text xs ≡ map leaf_text ys → xs ≡ ys
map-injective [] [] e = refl
map-injective [] (y ∷ ys) e = cc
map-injective (x ∷ xs) [] e = cc
map-injective (x ∷ xs) (y ∷ ys) e =
    let (h, t) = cons-injective _ _ _ _ e in
    ap₂ ◌∷◌ (leaf_text-injective x y h) (map-injective xs ys t)

merkle_tree_hash-ok :
    (h : Sha256) (xs : List Bytes) {d : Bytes}
    → merkle_tree_hash h xs ≡ ok d
    → mth h (length xs) xs ≡ some d
unfolding merkle_tree_hash
merkle_tree_hash-ok h [] e = cc
merkle_tree_hash-ok h (x ∷ xs) e = returned-ok _ e

module _ (h : Sha256) where
  traverse-state_leaf :
      (xs : List (Text × Text)) {ds : List Bytes}
      → traverse (state_leaf h) xs ≡ ok ds
      → leaves h (map leaf_text xs) ≡ ds
  traverse-state_leaf [] e = ground arith
  traverse-state_leaf (x ∷ xs) e =
      let (d, ed, more) = >>=-eq-ok (state_leaf h x) _ e in
      let (ds, eds, whole) = >>=-eq-ok (traverse (state_leaf h) xs) _ more in
      ground (arith, leaf x ed, traverse-state_leaf xs eds)
    where
      leaf : (x : Text × Text) {d : Bytes} → state_leaf h x ≡ ok d → h.digest (0 ∷ leaf_text x) ≡ d
      leaf (i, r) e = unfold state_leaf in ground arith

  abbrev ordered : List (Text × Text) → List (Text × Text)
  ordered = sort (by_key head_id)

  state_root-ok :
      (x : Text × Text) (xs : List (Text × Text)) {r : Text}
      → state_root h (x ∷ xs) ≡ ok r
      → (d : Bytes) × (mth h
            (length (ordered (x ∷ xs)))
            (leaves h (map leaf_text (ordered (x ∷ xs))))
          ≡ some d)
        × (to_hex d ≡ r)
  unfolding state_root
  state_root-ok x xs e =
      let (u, eu, more) = >>=-eq-ok (raise_if (repeats (map head_id (ordered (x ∷ xs)))) _) _ e in
      let (ds, eds, more') = >>=-eq-ok (traverse (state_leaf h) (ordered (x ∷ xs))) _ more in
      let (d, ed, er) = >>=-eq-ok (merkle_tree_hash h ds) _ more' in
      let count : length ds ≡ length (ordered (x ∷ xs)) =
        sym (ap length (traverse-state_leaf _ eds))
        ∙ length-map _ (map leaf_text (ordered (x ∷ xs)))
        ∙ length-map leaf_text (ordered (x ∷ xs)) in
      (
        d,
        ap₂ (mth h) (sym count) (traverse-state_leaf _ eds) ∙ merkle_tree_hash-ok h ds ed,
        ground arith,
      )

  -- The messages that are hashed for a state root: the texts of the sorted leaves and the nodes
  -- over them; of no records, the empty message.
  abbrev pub StateHashes : List (Text × Text) → Bytes → Type 0
  StateHashes [] m = m ≡ []
  StateHashes (x ∷ xs) m = Hashes h (length (ordered (x ∷ xs))) (map leaf_text (ordered (x ∷ xs))) m

  -- The root of no records is the root of some only by a collision.
  empty-or-Collision :
      (x : Text × Text) (xs : List (Text × Text))
      → state_root h (x ∷ xs) ≡ ok (empty_root h)
      → Collision h (StateHashes []) (StateHashes (x ∷ xs))
  empty-or-Collision x xs e =
      let (d, ed, er) = state_root-ok x xs e in
      let (t, m, hashed, em) = mth-digest h _ _ ed in
      let same = to_hex-injective _ _ (h.digest_bytes _) (mth-bytes h _ _ ed) (sym er) in
      elim (digest-injective h [] (t ∷ m) refl hashed (same ∙ sym em)) [
        | inl absurd_path ↦ absurd (cc)
        | inr found ↦ found
      ]

  -- Two states with one root hold the same (record id, row hash) pairs, in whatever order they
  -- were given, or SHA-256 gives one digest to two different messages, one hashed for the first
  -- root and one for the second.
  pub state_root-binding :
      (xs ys : List (Text × Text)) (r : Text)
      → state_root h xs ≡ ok r
      → state_root h ys ≡ ok r
      → Perm xs ys ⊎ Collision h (StateHashes xs) (StateHashes ys)
  state_root-binding [] [] r ex ey = inl (Perm.refl [])
  state_root-binding [] (y ∷ ys) r ex ey = inr (empty-or-Collision y ys (unfold state_root in cc))
  state_root-binding (x ∷ xs) [] r ex ey =
      let (m, n, hm, hn, differ, same) = empty-or-Collision x xs (unfold state_root in cc) in
      inr (n, m, hn, hm, (λ e. differ (sym e)), sym same)
  state_root-binding (x ∷ xs) (y ∷ ys) r ex ey =
      let (d, ed, er) = state_root-ok x xs ex in
      let (d', ed', er') = state_root-ok y ys ey in
      let same = to_hex-injective _ _ (mth-bytes h _ _ ed) (mth-bytes h _ _ ed') (er ∙ sym er') in
      elim (mth-binding h _ _ _ _ (ed ∙ ap some same) ed') [
        | inl texts ↦ inl (sort_perm (by_key head_id) (x ∷ xs) (y ∷ ys) (map-injective _ _ texts))
        | inr found ↦ inr found
      ]

-- No id stands twice.
abbrev pub Apart : List (Text × Text) → Type 0
Apart [] = Unit
Apart (x ∷ xs) = All (λ y. head_id x ≢ head_id y) xs × Apart xs

All-Permᴰ :
    (i : Text) {xs ys : List (Text × Text)}
    → Permᴰ xs ys
    → All (λ y. i ≢ head_id y) xs
    → All (λ y. i ≢ head_id y) ys
All-Permᴰ i Permᴰ.nil all = tt
All-Permᴰ i (Permᴰ.cons e p) all = (λ q. all.0 (q ∙ ap head_id (sym e)), All-Permᴰ i p all.1)
All-Permᴰ i (Permᴰ.swap e f) all =
    (λ q. all.1.0 (q ∙ ap head_id (sym f)), (λ q. all.0 (q ∙ ap head_id (sym e)), all.1.1))
All-Permᴰ i (Permᴰ.trans p q) all = All-Permᴰ i q (All-Permᴰ i p all)

Apart-Permᴰ : {xs ys : List (Text × Text)} → Permᴰ xs ys → Apart xs → Apart ys
Apart-Permᴰ Permᴰ.nil h = tt
Apart-Permᴰ (Permᴰ.cons {b = b} {l₁ = m} e p) h = (
  All-Permᴰ (head_id b) p (subst (λ x. All (λ y. head_id x ≢ head_id y) m) e h.0),
  Apart-Permᴰ p h.1,
)
Apart-Permᴰ (Permᴰ.swap {l = l} e f) h = (
  (
    λ q. h.0.0 (ap head_id e ∙ sym q ∙ ap head_id (sym f)),
    subst (λ x. All (λ y. head_id x ≢ head_id y) l) f h.1.0,
  ),
  (subst (λ x. All (λ y. head_id x ≢ head_id y) l) e h.0.1, h.1.1),
)
Apart-Permᴰ (Permᴰ.trans p q) h = Apart-Permᴰ q (Apart-Permᴰ p h)

sort-Permᴰ :
    {xs ys : List (Text × Text)}
    → Permᴰ xs ys
    → Apart xs
    → sort (by_key head_id) xs ≡ sort (by_key head_id) ys
unfolding sort
sort-Permᴰ Permᴰ.nil h = refl
sort-Permᴰ (Permᴰ.cons e p) h = ap₂ (insert_sorted (by_key head_id)) e (sort-Permᴰ p h.1)
sort-Permᴰ (Permᴰ.swap {a = a} {b = b} {l = l} e f) h =
    insert_sorted_comm head_id a b (sort (by_key head_id) l) h.0.0
    ∙ ap₂
        (λ x y.
          insert_sorted (by_key head_id) x
            (insert_sorted (by_key head_id) y (sort (by_key head_id) l)))
        f e
sort-Permᴰ (Permᴰ.trans p q) h = sort-Permᴰ p h ∙ sort-Permᴰ q (Apart-Permᴰ p h)

state_root-sorted :
    (h : Sha256) (xs ys : List (Text × Text))
    → length xs ≡ length ys
    → sort (by_key head_id) xs ≡ sort (by_key head_id) ys
    → state_root h xs ≡ state_root h ys
unfolding state_root
state_root-sorted h [] [] l e = refl
state_root-sorted h [] (y ∷ ys) l e = absurd (omega arith)
state_root-sorted h (x ∷ xs) [] l e = absurd (omega arith)
state_root-sorted h (x ∷ xs) (y ∷ ys) l e = rw e

length-Permᴰ : {xs ys : List (Text × Text)} → Permᴰ xs ys → length xs ≡ length ys
length-Permᴰ Permᴰ.nil = refl
length-Permᴰ (Permᴰ.cons e p) = ap suc (length-Permᴰ p)
length-Permᴰ (Permᴰ.swap e f) = refl
length-Permᴰ (Permᴰ.trans p q) = length-Permᴰ p ∙ length-Permᴰ q

ValueError-discrete : Discrete ValueError
ValueError-discrete = hlevel

Result-set : IsSet (Result ValueError Text)
Result-set = hlevel

-- The order of the (record id, row hash) pairs does not matter to the state root, where no record
-- stands twice.
pub state_root_order :
    (h : Sha256) (xs ys : List (Text × Text))
    → Perm xs ys
    → Apart xs
    → state_root h xs ≡ state_root h ys
state_root_order h xs ys p apart =
    ∥∥₁_elim p (Result-set _ _) λ d. state_root-sorted h xs ys (length-Permᴰ d) (sort-Permᴰ d apart)
