-- ===== src/PgVerify.antt =====
-- app/pg_verify.py, `_block_problems`: the sealed blocks of a tenant, recomputed. The problems that
-- the database's own verifier reports and the row hashes of a range are arguments.
pub mod Sealed
pub mod Rewrite
use persistence_memory.Prelude.{
  text_eq, nat_eq, ℕ, ◌+◌, Bool, true, false, not, ◌||◌, Option, List, [], ◌∷◌, ◌++◌, map, ◌==◌,
  if◌then◌else◌, length, when, Text, Result, ok, err, ◌>>=◌,
}
use persistence_memory.Hash.{Sha256}
use persistence_memory.Blocks.{ValueError, Block, merkle_root, block_hash_at}
use persistence_memory.Replay.{genesis}

-- A row of `blocks`.
pub record BlockRow : Type 0 where
  pub height : ℕ
  pub first_seq : ℕ
  pub last_seq : ℕ
  pub entry_count : ℕ
  pub prev_block_hash : Text
  pub entries_root : Text
  pub block_hash : Text
  pub format : ℕ

pub data BlockProblem : Type 0 where
  reported : Option ℕ × Text → BlockProblem
  block_missing not_linked not_continued wrong_count wrong_root wrong_hash : ℕ → BlockProblem

module _ (h : Sha256) (tenant : Text) (leaves : ℕ → ℕ → List Text) where
  abbrev pub as_block : BlockRow → Block
  as_block b = record {
    tenant = tenant;
    height = b.height;
    first_seq = b.first_seq;
    last_seq = b.last_seq;
    entry_count = b.entry_count;
    prev_block_hash = b.prev_block_hash;
    entries_root = b.entries_root;
  }

  -- `count != last_seq - first_seq + 1`, where the difference may be negative
  abbrev pub miscounted : BlockRow → List Text → Bool
  miscounted b found =
      not (length found == b.entry_count) || not (b.entry_count + b.first_seq == b.last_seq + 1)

  abbrev pub entries_problems : BlockRow → List Text → Result ValueError (List BlockProblem)
  entries_problems b found =
      if miscounted b found
      then ok (wrong_count b.height ∷ [])
      else merkle_root h found >>= λ root.
          ok (when (not (root == b.entries_root)) (wrong_root b.height))

  abbrev pub place_problems : Text → ℕ → ℕ → BlockRow → List BlockProblem
  place_problems prev_hash prev_last expected b =
      when (not (b.height == expected)) (block_missing b.height)
      ++ (when (not (b.prev_block_hash == prev_hash)) (not_linked b.height)
          ++ when (not (b.first_seq == prev_last + 1)) (not_continued b.height))

  unfoldable pub check_row : Text → ℕ → ℕ → BlockRow → Result ValueError (List BlockProblem)
  check_row prev_hash prev_last expected b = do
    entries ← entries_problems b (leaves b.first_seq b.last_seq)
    sealed ← block_hash_at b.format h (as_block b)
    ok (
        place_problems prev_hash prev_last expected b
        ++ (entries ++ when (not (sealed == b.block_hash)) (wrong_hash b.height)))

  unfoldable pub recompute : Text → ℕ → ℕ → List BlockRow → Result ValueError (List BlockProblem)
  recompute prev_hash prev_last expected [] = ok []
  recompute prev_hash prev_last expected (b ∷ bs) = do
    here ← check_row prev_hash prev_last expected b
    rest ← recompute b.block_hash b.last_seq (b.height + 1) bs
    ok (here ++ rest)

  unfoldable pub block_problems :
      List (Option ℕ × Text) → List BlockRow → Result ValueError (List BlockProblem)
  block_problems database rows = do
    recomputed ← recompute genesis 0 1 rows
    ok (map reported database ++ recomputed)
