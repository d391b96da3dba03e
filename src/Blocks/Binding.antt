-- ===== src/Blocks/Binding.antt =====
-- What a Merkle root and a block hash commit to.
use persistence_memory.Prelude.{
  suc, subst, append_unique, ℕ, ◌<◌, ◌≡◌, refl, sym, ap, ap₂, ◌∙◌, ◌⊎◌, inl, inr, true, Option,
  none, some, List, [], ◌∷◌, map, arith, length, length-map, All, Text, Bytes, codes,
  show-injective, show-Without, split_unique, append_cancel, append_unique, cons-injective, ok,
  >>=-eq-ok, traverse,
}
use persistence_memory.Hash.{
  Sha256, Collision, digest-injective, to_hex, to_hex-injective, fromhex, is_hex64,
  is_hex64-Without,
}
use persistence_memory.Blocks.Hashing.{
  check_hex64, leaf_hash, merkle_root, Block, block_text, block_hash, block_hash_at, mth, format,
  returned,
}
use persistence_memory.Blocks.Tree.{leaves, Hashes, mth-binding, mth-digest, mth_total}

check_hex64-ok :
    (t : Text) {raw : Bytes} → check_hex64 t ≡ ok raw → (is_hex64 t ≡ true) × (fromhex t ≡ raw)
unfolding check_hex64
check_hex64-ok t e = ground arith

pub returned-ok : (o : Option Bytes) {d : Bytes} → returned o ≡ ok d → o ≡ some d
returned-ok none e = cc
returned-ok (some a) e = cc

module _ (h : Sha256) where
  leaf_hash-ok : (t : Text) {d : Bytes} → leaf_hash h t ≡ ok d → h.digest (0 ∷ fromhex t) ≡ d
  unfolding leaf_hash
  leaf_hash-ok t e =
      let (raw, er, ed) = >>=-eq-ok (check_hex64 t) _ e in ground (arith, check_hex64-ok t er)

  traverse-leaf_hash :
      (xs : List Text) {ds : List Bytes}
      → traverse (leaf_hash h) xs ≡ ok ds
      → leaves h (map fromhex xs) ≡ ds
  traverse-leaf_hash [] e = ground arith
  traverse-leaf_hash (x ∷ xs) e =
      let (d, ed, more) = >>=-eq-ok (leaf_hash h x) _ e in
      let (ds, eds, whole) = >>=-eq-ok (traverse (leaf_hash h) xs) _ more in
      ground (arith, leaf_hash-ok x ed, traverse-leaf_hash xs eds)

  pub mth-bytes :
      (fuel : ℕ) (ps : List Bytes) {d : Bytes}
      → mth h fuel (leaves h ps) ≡ some d
      → All (λ b. b < 256) d
  mth-bytes fuel ps e =
      let (t, m, _, em) = mth-digest h fuel ps e in
      subst (All (λ b. b < 256)) em (h.digest_bytes (t ∷ m))

  -- A successful root is the text of the tree hash of the decoded row hashes.
  merkle_root-ok :
      (xs : List Text) {r : Text}
      → merkle_root h xs ≡ ok r
      → (d : Bytes) × (mth h (length xs) (leaves h (map fromhex xs)) ≡ some d) × (to_hex d ≡ r)
  unfolding merkle_root
  merkle_root-ok [] e = cc
  merkle_root-ok (x ∷ xs) e =
      let (ds, eds, more) = >>=-eq-ok (traverse (leaf_hash h) (x ∷ xs)) _ e in
      let same = traverse-leaf_hash (x ∷ xs) eds in
      let (d, ed, er) = >>=-eq-ok (returned (mth h (length ds) ds)) _ more in
      let count : length ds ≡ length (x ∷ xs) =
        sym (ap length same) ∙ length-map _ (map fromhex (x ∷ xs)) ∙ length-map fromhex (x ∷ xs) in
      (d, ap₂ (mth h) (sym count) same ∙ returned-ok _ ed, ground arith)

  -- The messages that are hashed for the root of some row hashes.
  abbrev pub RootHashes : List Text → Bytes → Type 0
  RootHashes xs = Hashes h (length xs) (map fromhex xs)

  -- Two lists of row hashes with one Merkle root decode to the same bytes, entry by entry and in
  -- the same order and number, or SHA-256 gives one digest to two different messages, one hashed
  -- for the first root (`0 ∷` a leaf or `1 ∷` two child hashes) and one for the second.
  pub merkle_root-binding :
      (xs ys : List Text) (r : Text)
      → merkle_root h xs ≡ ok r
      → merkle_root h ys ≡ ok r
      → (map fromhex xs ≡ map fromhex ys) ⊎ Collision h (RootHashes xs) (RootHashes ys)
  merkle_root-binding xs ys r ex ey =
      let (d, ed, hd) = merkle_root-ok xs ex in
      let (d', ed', hd') = merkle_root-ok ys ey in
      let same = to_hex-injective d d' (mth-bytes _ _ ed) (mth-bytes _ _ ed') (hd ∙ sym hd') in
      mth-binding h _ _ _ _ (ed ∙ ap some same) ed'

  traverse-leaf_hash_total :
      (xs : List Text)
      → All (λ t. is_hex64 t ≡ true) xs
      → (ds : List Bytes) × (traverse (leaf_hash h) xs ≡ ok ds) × (length ds ≡ length xs)
  unfolding leaf_hash check_hex64
  traverse-leaf_hash_total [] good = ([], refl, refl)
  traverse-leaf_hash_total (x ∷ xs) good =
      let (ds, eds, count) = traverse-leaf_hash_total xs good.1 in
      (h.digest (0 ∷ fromhex x) ∷ ds, rw (good.0, eds), ap suc count)

  -- A block with at least one entry, whose row hashes all pass the check, has a root: the
  -- recursion of `_mth` ends.
  pub merkle_root_total :
      (xs : List Text)
      → 0 < length xs
      → All (λ t. is_hex64 t ≡ true) xs
      → (r : Text) × (merkle_root h xs ≡ ok r)
  unfolding merkle_root
  merkle_root_total [] pos good = absurd (omega arith)
  merkle_root_total (x ∷ xs) pos good =
      let (ds, eds, count) = traverse-leaf_hash_total (x ∷ xs) good in
      let (d, ed) = mth_total h (length ds) ds (omega arith) (omega arith) in
      (to_hex d, rw (eds, ed))

  block_hash_at-ok :
      (fmt : ℕ) (b : Block) {d : Text}
      → block_hash_at fmt h b ≡ ok d
      → (is_hex64 b.prev_block_hash ≡ true)
        × (is_hex64 b.entries_root ≡ true)
        × (to_hex (h.digest (block_text fmt b)) ≡ d)
  unfolding check_hex64
  block_hash_at-ok fmt b e = ground arith

-- The text that is hashed determines every field of the block.
block_text-injective :
    (f g : ℕ) (a b : Block)
    → is_hex64 a.prev_block_hash ≡ true
    → is_hex64 b.prev_block_hash ≡ true
    → block_text f a ≡ block_text g b
    → a ≡ b
unfolding block_text
block_text-injective f g a b ha hb e =
    let bar : ℕ = b'|' in
    let e1 = append_cancel (codes "jarvis-block|v") _ _ e in
    let e2 =
      (split_unique bar _ _ _ _ (show-Without bar f (omega arith))
        (show-Without bar g (omega arith)) e1).1 in
    let (et, e3) =
      split_unique b':' _ _ _ _ (show-Without b':' _ (omega arith))
        (show-Without b':' _ (omega arith)) e2 in
    let (tenant, e4) = append_unique a.tenant b.tenant _ _ (show-injective _ _ et) e3 in
    let (eh, e5) =
      split_unique bar _ _ _ _ (show-Without bar _ (omega arith)) (show-Without bar _ (omega arith))
        (cons-injective _ _ _ _ e4).1 in
    let (ef, e6) =
      split_unique bar _ _ _ _ (show-Without bar _ (omega arith)) (show-Without bar _ (omega arith))
        e5 in
    let (el, e7) =
      split_unique bar _ _ _ _ (show-Without bar _ (omega arith)) (show-Without bar _ (omega arith))
        e6 in
    let (ec, e8) =
      split_unique bar _ _ _ _ (show-Without bar _ (omega arith)) (show-Without bar _ (omega arith))
        e7 in
    let (ep, er) =
      split_unique bar _ _ _ _ (is_hex64-Without bar _ (omega arith) ha)
        (is_hex64-Without bar _ (omega arith) hb) e8 in
    λ i. record {
      tenant = tenant i;
      height = show-injective _ _ eh i;
      first_seq = show-injective _ _ ef i;
      last_seq = show-injective _ _ el i;
      entry_count = show-injective _ _ ec i;
      prev_block_hash = ep i;
      entries_root = er i;
    }

-- The same for any formats: equal block hashes are of equal blocks, or the two texts collide.
pub block_hash_at-binding :
    (h : Sha256) (f g : ℕ) (a b : Block) (d : Text)
    → block_hash_at f h a ≡ ok d
    → block_hash_at g h b ≡ ok d
    → (a ≡ b) ⊎ Collision h (λ m. m ≡ block_text f a) (λ m. m ≡ block_text g b)
block_hash_at-binding h f g a b d ea eb =
    let (pa, _, ta) = block_hash_at-ok h f a ea in
    let (pb, _, tb) = block_hash_at-ok h g b eb in
    let same = to_hex-injective _ _ (h.digest_bytes _) (h.digest_bytes _) (ta ∙ sym tb) in
    elim (digest-injective h _ _ refl refl same) [
      | inl text ↦ inl (block_text-injective f g a b pa pb text)
      | inr found ↦ inr found
    ]

-- Two blocks with one hash are equal in every field (tenant, height, range, count, previous hash
-- and entries root), or their two block texts are
-- different messages to which SHA-256 gives one digest.
pub block_hash-binding :
    (h : Sha256) (a b : Block) (d : Text)
    → block_hash h a ≡ ok d
    → block_hash h b ≡ ok d
    → (a ≡ b) ⊎ Collision h (λ m. m ≡ block_text format a) (λ m. m ≡ block_text format b)
unfolding block_hash
block_hash-binding h a b d ea eb = block_hash_at-binding h format format a b d ea eb
