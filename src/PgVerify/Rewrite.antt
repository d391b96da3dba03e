-- ===== src/PgVerify/Rewrite.antt =====
-- Why a rewritten ledger is noticed: the newest block hash fixes every block and every entry.
use persistence_memory.Prelude.{
  text_eq, nat_eq, ℕ, ◌+◌, ◌≡◌, sym, ap, ◌∙◌, ◌⊎◌, inl, inr, Option, List, [], ◌∷◌, map, length,
  Text, Bytes, ok, arith,
}
use persistence_memory.Hash.{Sha256, Collision, Collision-grow, fromhex}
use persistence_memory.Blocks.{Block, block_text, merkle_root, block_hash_at}
use persistence_memory.Blocks.Binding.{RootHashes, block_hash_at-binding, merkle_root-binding}
use persistence_memory.Replay.{genesis}
use persistence_memory.PgVerify.{BlockRow, as_block, block_problems}
use persistence_memory.PgVerify.Sealed.{Sealed, block_problems-Sealed}

-- The hash of the newest block.
abbrev pub tip : Text → List BlockRow → Text
tip before [] = before
tip before (b ∷ bs) = tip b.block_hash bs

-- The messages that are hashed to check a tenant's blocks: the text of every block and the leaves
-- and nodes of its Merkle tree.
abbrev pub LedgerHashes : Sha256 → Text → (ℕ → ℕ → List Text) → List BlockRow → Bytes → Type 0
LedgerHashes h tenant seqs [] m = ⊥
LedgerHashes h tenant seqs (b ∷ bs) m =
    (m ≡ block_text b.format (as_block h tenant seqs b))
    ⊎ (RootHashes h (seqs b.first_seq b.last_seq) m ⊎ LedgerHashes h tenant seqs bs m)

module _ (h : Sha256) (tenant : Text) (old new : ℕ → ℕ → List Text) where
  -- Block by block the same fields, and in its range the same row hashes, as bytes.
  abbrev pub SameBlocks : List BlockRow → List BlockRow → Type 0
  SameBlocks [] [] = Unit
  SameBlocks [] (b ∷ bs) = ⊥
  SameBlocks (a ∷ rows) [] = ⊥
  SameBlocks (a ∷ rows) (b ∷ bs) =
      (as_block h tenant old a ≡ as_block h tenant new b)
      × (map fromhex (old a.first_seq a.last_seq) ≡ map fromhex (new b.first_seq b.last_seq))
      × SameBlocks rows bs

  same_head :
      (a b : BlockRow) (rows more : List BlockRow)
      → merkle_root h (old a.first_seq a.last_seq) ≡ ok a.entries_root
      → merkle_root h (new b.first_seq b.last_seq) ≡ ok b.entries_root
      → block_hash_at a.format h (as_block h tenant old a) ≡ ok a.block_hash
      → block_hash_at b.format h (as_block h tenant new b) ≡ ok b.block_hash
      → a.block_hash ≡ b.block_hash
      → ((as_block h tenant old a ≡ as_block h tenant new b)
          × (map fromhex (old a.first_seq a.last_seq) ≡ map fromhex (new b.first_seq b.last_seq)))
        ⊎ Collision h (LedgerHashes h tenant old (a ∷ rows)) (LedgerHashes h tenant new (b ∷ more))
  same_head a b rows more root_a root_b hash_a hash_b same =
      elim (block_hash_at-binding h a.format b.format _ _ b.block_hash (hash_a ∙ ap ok same)
        hash_b) [
          | inr found ↦ inr (Collision-grow h (λ m x. inl x) (λ m x. inl x) found)
          | inl fields ↦
              elim (merkle_root-binding h (old a.first_seq a.last_seq) (new b.first_seq b.last_seq)
                b.entries_root (root_a ∙ ap ok (ap (λ (x : Block). x.entries_root) fields))
                root_b) [
                  | inr found ↦
                      inr (Collision-grow h (λ m x. inr (inl x)) (λ m x. inr (inl x)) found)
                  | inl entries ↦ inl (fields, entries)
                ]
        ]

  Sealed-SameBlocks :
      (p q : Text) (k l m n : ℕ) (rows more : List BlockRow)
      → Sealed h tenant old p k m rows
      → Sealed h tenant new q l n more
      → length rows ≡ length more
      → tip p rows ≡ tip q more
      → ((p ≡ q) × SameBlocks rows more)
        ⊎ Collision h (LedgerHashes h tenant old rows) (LedgerHashes h tenant new more)
  Sealed-SameBlocks p q k l m n [] [] sa sb count same = inl (same, tt)
  Sealed-SameBlocks p q k l m n [] (b ∷ bs) sa sb count same = absurd (omega arith)
  Sealed-SameBlocks p q k l m n (a ∷ rows) [] sa sb count same = absurd (omega arith)
  Sealed-SameBlocks p q k l m n (a ∷ rows) (b ∷ bs) (_, pa, _, _, _, ra, ha, sa)
        (_, pb, _, _, _, rb, hb, sb) count same =
      elim (Sealed-SameBlocks a.block_hash b.block_hash a.last_seq b.last_seq (a.height + 1)
        (b.height + 1) rows bs sa sb (omega arith) same) [
          | inr found ↦ inr (Collision-grow h (λ m x. inr (inr x)) (λ m x. inr (inr x)) found)
          | inl (hash, rest) ↦ elim (same_head a b rows bs ra rb ha hb hash) [
            | inr found ↦ inr found
            | inl (fields, entries) ↦ inl (
              sym pa ∙ ap (λ (x : Block). x.prev_block_hash) fields ∙ pb,
              (fields, entries, rest),
            )
          ]
        ]

  -- Two states of a tenant's ledger, of equally many blocks, in both of which the verifier reports
  -- nothing and whose newest block hash is one, have the same blocks, field by field, and in the
  -- range of every block the same history row hashes, or SHA-256 gives one digest to two different
  -- messages, one hashed to check the first state (a block text, a leaf or a node) and one to check
  -- the second.
  pub block_problems-SameBlocks :
      (was now : List (Option ℕ × Text)) (rows more : List BlockRow)
      → block_problems h tenant old was rows ≡ ok []
      → block_problems h tenant new now more ≡ ok []
      → length rows ≡ length more
      → tip genesis rows ≡ tip genesis more
      → SameBlocks rows more
        ⊎ Collision h (LedgerHashes h tenant old rows) (LedgerHashes h tenant new more)
  block_problems-SameBlocks was now rows more clean still count same =
      elim (Sealed-SameBlocks genesis genesis 0 0 1 1 rows more
        (block_problems-Sealed h tenant old was rows clean)
        (block_problems-Sealed h tenant new now more still) count same) [
          | inl (_, blocks) ↦ inl blocks
          | inr found ↦ inr found
        ]
