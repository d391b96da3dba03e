-- ===== src/Tests/Chains.antt =====
-- Merkle roots, block hashes, and the replay of a history, on small inputs.
use persistence_memory.Prelude.{
  text_eq, nat_eq, ℕ, ◌*◌, ◌^◌, ◌≤◌, ◌<◌, ◌≡◌, ◌≢◌, ◌⊎◌, true, refl, Option, none, some, List, [],
  ◌∷◌, ◌++◌, map, arith, Text, codes, lookup, Result, ok, contains, sort, text_leb, show, take,
}
use mathlib.Core.List.{Perm}
use mathlib.Core.List.Perm
use persistence_memory.Hash.{Collision, is_hex64, fromhex, to_hex}
use persistence_memory.Blocks.{
  ValueError, merkle_root, leaf_hash, node_hash, mth, split_point, double_while, check_hex64, Block,
  block_hash, block_text, format,
}
use persistence_memory.Blocks.Binding.{
  RootHashes, merkle_root-binding, merkle_root_total, block_hash-binding,
}
use persistence_memory.Blocks.Split.{split_point_lem}
use persistence_memory.Blocks.{merkle_tree_hash}
use persistence_memory.Replay.{Entry, fold_state, state_root, state_leaf, entry_row_hash}
use persistence_memory.Replay.{
  seqs, check_seq, check_chain_link, genesis, last_or_genesis, missing_below, chain_loop,
}
use persistence_memory.Replay.Fold.{fold_state-newest, newest, existing}
use persistence_memory.Replay.Root.{StateHashes, state_root-binding, state_root_order}
use persistence_memory.Replay.Intact.{
  chain-of-check_chain_link, complete-of-check_seq, last_row_hash, Distinct,
}
use persistence_memory.Tests.Toy.{toy, digits, fill, value_of}

abbrev pair_root : Result ValueError Text
pair_root = merkle_root toy (digits b'a' ∷ digits b'b' ∷ [])

-- Two lists that the toy hash does not tell apart.
merkle_root-binding_example :
    (map fromhex (digits b'a' ∷ digits b'b' ∷ []) ≡ map fromhex (digits b'a' ∷ digits b'c' ∷ []))
    ⊎ Collision toy
        (RootHashes toy (digits b'a' ∷ digits b'b' ∷ []))
        (RootHashes toy (digits b'a' ∷ digits b'c' ∷ []))
unfolding merkle_root leaf_hash node_hash mth split_point double_while check_hex64 is_hex64 fromhex
    to_hex fill
merkle_root-binding_example =
    merkle_root-binding toy (digits b'a' ∷ digits b'b' ∷ []) (digits b'a' ∷ digits b'c' ∷ [])
      (value_of [] pair_root) refl refl

merkle_root_total_example :
    (r : Text) × (merkle_root toy (digits b'a' ∷ digits b'b' ∷ digits b'c' ∷ []) ≡ ok r)
unfolding is_hex64
merkle_root_total_example =
    merkle_root_total toy (digits b'a' ∷ digits b'b' ∷ digits b'c' ∷ []) (omega arith)
      (refl, (refl, (refl, tt)))

split_point_lem_example :
    (0 < split_point 5)
    × (split_point 5 < 5)
    × (5 ≤ split_point 5 * 2)
    × ((j : ℕ) × (split_point 5 ≡ 2 ^ j))
split_point_lem_example = split_point_lem 5 (omega arith)

abbrev sample_block : Text → Block
sample_block prev = record {
  tenant = codes "operator";
  height = 7;
  first_seq = 5;
  last_seq = 6;
  entry_count = 2;
  prev_block_hash = prev;
  entries_root = digits b'0';
}

block_hash-binding_example :
    (sample_block (digits b'a') ≡ sample_block (digits b'b'))
    ⊎ Collision toy
        (λ m. m ≡ block_text format (sample_block (digits b'a')))
        (λ m. m ≡ block_text format (sample_block (digits b'b')))
unfolding block_hash block_text check_hex64 is_hex64 fromhex to_hex fill show
block_hash-binding_example =
    block_hash-binding toy (sample_block (digits b'a')) (sample_block (digits b'b'))
      (value_of [] (block_hash toy (sample_block (digits b'a')))) refl refl

abbrev two_records : List (Text × Text)
two_records = (codes "m1", digits b'a') ∷ (codes "m2", digits b'b') ∷ []

abbrev swapped_records : List (Text × Text)
swapped_records = (codes "m2", digits b'b') ∷ (codes "m1", take 63 (digits b'a') ++ b'c' ∷ []) ∷ []

state_root-binding_example :
    Perm two_records swapped_records
    ⊎ Collision toy (StateHashes toy two_records) (StateHashes toy swapped_records)
unfolding state_root state_leaf merkle_tree_hash node_hash mth split_point double_while is_hex64
    to_hex fill sort text_leb show
state_root-binding_example =
    state_root-binding toy two_records swapped_records (value_of [] (state_root toy two_records))
      refl refl

different : codes "m1" ≢ codes "m2"
different same = ground arith

state_root_order_example :
    state_root toy two_records
    ≡ state_root toy ((codes "m2", digits b'b') ∷ (codes "m1", digits b'a') ∷ [])
state_root_order_example =
    state_root_order toy two_records ((codes "m2", digits b'b') ∷ (codes "m1", digits b'a') ∷ [])
      (Perm.swap _ _ _) ((different, tt), (tt, tt))

abbrev entry : ℕ → Text → Text → ℕ → Text → Option Text → Option Text → Entry
entry seq id op version prev before_text after_text = record {
  seq = seq;
  memory_id = id;
  op = op;
  version = version;
  prev_hash = prev;
  row_hash = entry_row_hash toy prev op version before_text after_text;
  before_text = before_text;
  after_text = after_text;
}

abbrev first : Entry
first = entry 1 (codes "m1") (codes "create") 1 genesis none (some (codes "a"))

abbrev second : Entry
second = entry 2 (codes "m2") (codes "create") 1 genesis none (some (codes "x"))

abbrev third : Entry
third = entry 3 (codes "m1") (codes "update") 2 first.row_hash (some (codes "a")) (some (codes "b"))

abbrev history : List Entry
history = first ∷ second ∷ third ∷ []

fold_state-newest_example :
    lookup (codes "m1") (fold_state (third ∷ first ∷ second ∷ []) 2).live
    ≡ existing (newest (codes "m1") 2 (third ∷ first ∷ second ∷ []))
fold_state-newest_example = fold_state-newest (third ∷ first ∷ second ∷ []) 2 (codes "m1")

chain-of-check_chain_link_example :
    third.prev_hash ≡ last_or_genesis (last_row_hash (codes "m1") (first ∷ second ∷ []))
unfolding check_chain_link chain_loop genesis entry_row_hash to_hex fill
chain-of-check_chain_link_example =
    chain-of-check_chain_link history (first ∷ second ∷ []) [] third refl refl

complete-of-check_seq_example :
    (3 ≤ 4) × Distinct (seqs history) × (contains 2 (seqs history) ≡ true)
unfolding check_seq missing_below
complete-of-check_seq_example = complete-of-check_seq 3 4 history 2 refl (omega arith) (omega arith)
