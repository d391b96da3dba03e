-- ===== src/Replay/State.antt =====
-- app/replay.py: history entries, the state they fold to, and the state root.
use persistence_memory.Prelude.{
  text_eq, nat_eq, ℕ, ◌+◌, Bool, true, false, Option, none, some, List, [], ◌∷◌, ◌++◌, map, leb,
  ◌==◌, if◌then◌else◌, length, contains, Text, Bytes, codes, show, Dict, insert, Result, ok, err,
  ◌>>=◌, ◌>>◌, raise_if, traverse, sort, by_key,
}
use persistence_memory.Hash.{Sha256, to_hex, is_hex64}
use persistence_memory.Blocks.{ValueError, bad_hex, repeated_record, merkle_tree_hash}

-- `Entry`; before and after are the texts that the database renders.
pub record Entry : Type 0 where
  pub seq : ℕ
  pub memory_id : Text
  pub op : Text
  pub version : ℕ
  pub prev_hash : Text
  pub row_hash : Text
  pub before_text : Option Text
  pub after_text : Option Text

pub record Folded : Type 0 where
  pub live : Dict Text Entry
  pub deleted : ℕ

-- `for e in sorted(entries, key=seq): if e.seq <= at_seq: newest[e.memory_id] = e`
abbrev pub by_seq : Entry → Entry → Bool
by_seq a b = leb a.seq b.seq

unfoldable pub newest_loop : ℕ → List Entry → Dict Text Entry → Dict Text Entry
newest_loop at_seq [] newest = newest
newest_loop at_seq (e ∷ es) newest =
    newest_loop at_seq es (if leb e.seq at_seq then insert e.memory_id e newest else newest)

-- `for mid, e in newest.items()`
abbrev pub is_delete : Entry → Bool
is_delete e = e.op == codes "delete"

abbrev count_or_keep : Text → Entry → Folded → Folded
count_or_keep mid e out =
    if is_delete e
    then record out { deleted = out.deleted + 1 }
    else record out { live = insert mid e out.live }

unfoldable pub live_loop : Dict Text Entry → Folded → Folded
live_loop [] out = out
live_loop ((mid, e) ∷ items) out = live_loop items (count_or_keep mid e out)

unfoldable pub fold_state : List Entry → ℕ → Folded
fold_state entries at_seq =
    live_loop (newest_loop at_seq (sort by_seq entries) []) (record { live = []; deleted = 0 })

-- `len(set(ids)) != len(ids)`
abbrev pub repeats : List Text → Bool
repeats [] = false
repeats (i ∷ ids) = if contains i ids then true else repeats ids

abbrev pub head_id : Text × Text → Text
head_id (i, _) = i

abbrev pub leaf_text : Text × Text → Bytes
leaf_text (i, row_hash) =
    codes "jarvis-state|v1|" ++ (show (length i) ++ b':' ∷ (i ++ b'|' ∷ row_hash))

-- `before_text or ''`
abbrev pub or_empty : Option Text → Text
or_empty none = []
or_empty (some t) = t

abbrev pub entry_text : Text → Text → ℕ → Option Text → Option Text → Text
entry_text prev_hash op version before_text after_text =
    prev_hash
    ++ b'|'
      ∷ (op ++ b'|' ∷ (show version ++ b'|' ∷ (or_empty before_text ++ b'|' ∷ or_empty after_text)))

module _ (h : Sha256) where
  unfoldable pub state_leaf : Text × Text → Result ValueError Bytes
  state_leaf (i, row_hash) =
      if is_hex64 row_hash then ok (h.digest (0 ∷ leaf_text (i, row_hash))) else err bad_hex

  abbrev pub empty_root : Text
  empty_root = to_hex (h.digest [])

  unfoldable pub state_root : List (Text × Text) → Result ValueError Text
  state_root [] = ok empty_root
  state_root (x ∷ xs) = do
    let ordered = sort (by_key head_id) (x ∷ xs)
    raise_if (repeats (map head_id ordered)) repeated_record
    leaves ← traverse state_leaf ordered
    root ← merkle_tree_hash h leaves
    ok (to_hex root)

  unfoldable pub entry_row_hash : Text → Text → ℕ → Option Text → Option Text → Text
  entry_row_hash prev_hash op version before_text after_text =
      to_hex (h.digest (entry_text prev_hash op version before_text after_text))
