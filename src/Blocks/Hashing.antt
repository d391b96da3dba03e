-- ===== src/Blocks/Hashing.antt =====
-- The functions of app/blocks.py. The tree hash recurs on fuel: the length of the list.
use persistence_memory.Prelude.{
  ℕ, zero, suc, ◌*◌, true, false, Option, none, some, List, [], ◌∷◌, ◌++◌, ltb, if◌then◌else◌,
  length, take, drop, Text, Bytes, codes, show, Result, ok, err, ◌>>=◌, ◌>>◌, traverse,
}
use persistence_memory.Hash.{Sha256, to_hex, fromhex, is_hex64}

pub data ValueError : Type 0 where
  bad_hex empty_tree empty_block repeated_record endless : ValueError

unfoldable pub check_hex64 : Text → Result ValueError Bytes
check_hex64 value = if is_hex64 value then ok (fromhex value) else err bad_hex

-- `while k * 2 < n: k *= 2`
unfoldable pub double_while : ℕ → ℕ → ℕ → ℕ
double_while zero n k = k
double_while (suc fuel) n k = elim (ltb (k * 2) n) [
  | true ↦ double_while fuel n (k * 2)
  | false ↦ k
]

-- The largest power of two below `n`.
unfoldable pub split_point : ℕ → ℕ
split_point n = double_while n n 1

abbrev pub returned : Option Bytes → Result ValueError Bytes
returned none = err endless
returned (some d) = ok d

module _ (h : Sha256) where
  unfoldable pub leaf_hash : Text → Result ValueError Bytes
  leaf_hash row_hash = do raw ← check_hex64 row_hash; ok (h.digest (0 ∷ raw))

  unfoldable pub node_hash : Bytes → Bytes → Bytes
  node_hash left right = h.digest (1 ∷ left ++ right)

  abbrev pub join : Option Bytes → Option Bytes → Option Bytes
  join none r = none
  join (some l) none = none
  join (some l) (some r) = some (node_hash l r)

  -- On an empty list `_mth` never returns; both its callers refuse that list.
  unfoldable pub mth : ℕ → List Bytes → Option Bytes
  mth zero hashes = none
  mth (suc fuel) [] = none
  mth (suc fuel) (x ∷ []) = some x
  mth (suc fuel) (x ∷ y ∷ hashes) =
      let all : List Bytes = x ∷ y ∷ hashes in
      let k = split_point (length all) in join (mth fuel (take k all)) (mth fuel (drop k all))

  unfoldable pub merkle_tree_hash : List Bytes → Result ValueError Bytes
  merkle_tree_hash [] = err empty_tree
  merkle_tree_hash (x ∷ xs) = returned (mth (length (x ∷ xs)) (x ∷ xs))

  unfoldable pub merkle_root : List Text → Result ValueError Text
  merkle_root [] = err empty_block
  merkle_root (x ∷ xs) = do
    leaves ← traverse leaf_hash (x ∷ xs)
    root ← returned (mth (length leaves) leaves)
    ok (to_hex root)

-- The keyword arguments of `block_hash`.
pub record Block : Type 0 where
  pub tenant : Text
  pub height : ℕ
  pub first_seq : ℕ
  pub last_seq : ℕ
  pub entry_count : ℕ
  pub prev_block_hash : Text
  pub entries_root : Text

abbrev pub format : ℕ
format = 1

-- The f-string of `block_hash`; `b'|'` is the separator.
unfoldable pub block_text : ℕ → Block → Text
block_text fmt b =
    codes "jarvis-block|v"
    ++ (show fmt
        ++ b'|'
          ∷ (show (length b.tenant)
              ++ b':'
                ∷ (b.tenant
                    ++ b'|'
                      ∷ (show b.height
                          ++ b'|'
                            ∷ (show b.first_seq
                                ++ b'|'
                                  ∷ (show b.last_seq
                                      ++ b'|'
                                        ∷ (show b.entry_count
                                            ++ b'|'
                                              ∷ (b.prev_block_hash ++ b'|' ∷ b.entries_root))))))))

abbrev pub block_hash_at : ℕ → Sha256 → Block → Result ValueError Text
block_hash_at fmt h b = do
  check_hex64 b.prev_block_hash
  check_hex64 b.entries_root
  ok (to_hex (h.digest (block_text fmt b)))

-- With the format that the code writes.
unfoldable pub block_hash : Sha256 → Block → Result ValueError Text
block_hash h b = block_hash_at format h b
