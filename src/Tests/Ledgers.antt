-- ===== src/Tests/Ledgers.antt =====
-- The verifier of the sealed blocks on small ledgers.
use persistence_memory.Prelude.{
  text_eq, nat_eq, ℕ, ◌⊎◌, refl, List, [], ◌∷◌, ◌++◌, Text, codes, show, take,
}
use persistence_memory.Hash.{Collision, is_hex64, fromhex, to_hex}
use persistence_memory.Blocks.{
  merkle_root, leaf_hash, node_hash, mth, split_point, double_while, check_hex64, block_text,
  block_hash,
}
use persistence_memory.Replay.{genesis}
use persistence_memory.PgVerify.{BlockRow, as_block, check_row, recompute, block_problems}
use persistence_memory.PgVerify.Sealed.{Sealed, block_problems-Sealed}
use persistence_memory.PgVerify.Rewrite.{LedgerHashes, SameBlocks, block_problems-SameBlocks}
use persistence_memory.Tests.Toy.{toy, digits, fill, value_of}

abbrev one_entry : ℕ → ℕ → List Text
one_entry first last = digits b'a' ∷ []

-- Another entry, which the toy hash does not tell from the first.
abbrev other_entry : ℕ → ℕ → List Text
other_entry first last = (take 63 (digits b'a') ++ b'b' ∷ []) ∷ []

abbrev unhashed : Text → BlockRow
unhashed hash = record {
  height = 1;
  first_seq = 1;
  last_seq = 1;
  entry_count = 1;
  prev_block_hash = genesis;
  entries_root = value_of [] (merkle_root toy (digits b'a' ∷ []));
  block_hash = hash;
  format = 1;
}

abbrev sealed_row : BlockRow
sealed_row =
    unhashed
      (value_of [] (block_hash toy (as_block toy (codes "operator") one_entry (unhashed []))))

block_problems-Sealed_example :
    Sealed toy (codes "operator") one_entry genesis 0 1 (sealed_row ∷ [])
unfolding block_problems recompute check_row merkle_root leaf_hash node_hash mth split_point
    double_while check_hex64 block_text block_hash genesis is_hex64 fromhex to_hex fill show
block_problems-Sealed_example =
    block_problems-Sealed toy (codes "operator") one_entry [] (sealed_row ∷ []) refl

block_problems-SameBlocks_example :
    SameBlocks toy (codes "operator") one_entry other_entry (sealed_row ∷ []) (sealed_row ∷ [])
    ⊎ Collision toy
        (LedgerHashes toy (codes "operator") one_entry (sealed_row ∷ []))
        (LedgerHashes toy (codes "operator") other_entry (sealed_row ∷ []))
unfolding block_problems recompute check_row merkle_root leaf_hash node_hash mth split_point
    double_while check_hex64 block_text block_hash genesis is_hex64 fromhex to_hex fill show
block_problems-SameBlocks_example =
    block_problems-SameBlocks toy (codes "operator") one_entry other_entry [] [] (sealed_row ∷ [])
      (sealed_row ∷ []) refl refl refl refl
