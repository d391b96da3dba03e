-- ===== src/PgVerify/Sealed.antt =====
-- What the verifier has established where it reports nothing.
use persistence_memory.Prelude.{
  text_eq, nat_eq, ℕ, ◌+◌, ◌≡◌, ap, ◌∙◌, inl, inr, Option, List, [], ◌∷◌, map, length, Text, Result,
  ok, >>=-eq-ok, append-nil_iff, when-nil_iff, not-eq_iff, Bool-cases, arith,
}
use persistence_memory.Hash.{Sha256}
use persistence_memory.Blocks.{ValueError, merkle_root, block_hash_at}
use persistence_memory.Replay.{genesis}
use persistence_memory.PgVerify.{
  BlockRow, BlockProblem, reported, block_missing, not_linked, not_continued, wrong_root,
  wrong_hash, as_block, miscounted, entries_problems, place_problems, check_row, recompute,
  block_problems,
}

module _ (h : Sha256) (tenant : Text) (leaves : ℕ → ℕ → List Text) where
  -- The blocks have the heights from `expected` on; each continues the range and names the hash of
  -- the one before it, counts and hashes the entries of the history in its range, and has the hash
  -- of its own fields.
  abbrev pub Sealed : Text → ℕ → ℕ → List BlockRow → Type 0
  Sealed prev_hash prev_last expected [] = Unit
  Sealed prev_hash prev_last expected (b ∷ bs) =
      (b.height ≡ expected)
      × (b.prev_block_hash ≡ prev_hash)
      × (b.first_seq ≡ prev_last + 1)
      × (length (leaves b.first_seq b.last_seq) ≡ b.entry_count)
      × (b.entry_count + b.first_seq ≡ b.last_seq + 1)
      × (merkle_root h (leaves b.first_seq b.last_seq) ≡ ok b.entries_root)
      × (block_hash_at b.format h (as_block h tenant leaves b) ≡ ok b.block_hash)
      × Sealed b.block_hash b.last_seq (b.height + 1) bs

  ok-injective : {A : Type 0} (x y : A) → ◌≡◌ {A = Result ValueError A} (ok x) (ok y) → x ≡ y
  ok-injective x y e = cc

  entries_problems-nil :
      (b : BlockRow) (found : List Text)
      → entries_problems h tenant leaves b found ≡ ok []
      → (length found ≡ b.entry_count)
        × (b.entry_count + b.first_seq ≡ b.last_seq + 1)
        × (merkle_root h found ≡ ok b.entries_root)
  entries_problems-nil b found e = elim (Bool-cases (miscounted h tenant leaves b found)) [
    | inl wrong ↦ absurd (not-nil (ok-injective _ _ (rw wrong at e)))
    | inr right ↦
        let (root, is_root, same) = >>=-eq-ok (merkle_root h found) _ (rw right at e) in
        (
          ground arith,
          ground arith,
          is_root
              ∙ ap ok (
                  (not-eq_iff root b.entries_root).0
                    ((when-nil_iff _ (wrong_root b.height)).0 (ok-injective _ _ same))),
        )
  ]
    where
      not-nil : {p : BlockProblem} {ps : List BlockProblem} → p ∷ ps ≡ [] → ⊥
      not-nil e = cc

  recompute-Sealed :
      (prev_hash : Text) (prev_last expected : ℕ) (rows : List BlockRow)
      → recompute h tenant leaves prev_hash prev_last expected rows ≡ ok []
      → Sealed prev_hash prev_last expected rows
  unfolding recompute check_row
  recompute-Sealed prev_hash prev_last expected [] e = tt
  recompute-Sealed prev_hash prev_last expected (b ∷ bs) e =
      let (here, is_here, e1) =
        >>=-eq-ok (check_row h tenant leaves prev_hash prev_last expected b) _ e in
      let (rest, is_rest, e2) =
        >>=-eq-ok (recompute h tenant leaves b.block_hash b.last_seq (b.height + 1) bs) _ e1 in
      let (no_here, no_rest) = (append-nil_iff here rest).0 (ok-injective _ _ e2) in
      let (entries, is_entries, e3) =
        >>=-eq-ok (entries_problems h tenant leaves b (leaves b.first_seq b.last_seq)) _ is_here in
      let (sealed, is_sealed, e4) =
        >>=-eq-ok (block_hash_at b.format h (as_block h tenant leaves b)) _ e3 in
      let (place, more) =
        (append-nil_iff (place_problems h tenant leaves prev_hash prev_last expected b) _).0
          (ok-injective _ _ e4 ∙ no_here) in
      let (no_entries, same_hash) = (append-nil_iff entries _).0 more in
      let (height, linked) = (append-nil_iff _ _).0 place in
      let (link, continued) = (append-nil_iff _ _).0 linked in
      let (count, range, root) =
        entries_problems-nil b (leaves b.first_seq b.last_seq) (is_entries ∙ ap ok no_entries) in
      (
        (not-eq_iff _ _).0 ((when-nil_iff _ (block_missing b.height)).0 height),
        (not-eq_iff _ _).0 ((when-nil_iff _ (not_linked b.height)).0 link),
        (not-eq_iff _ _).0 ((when-nil_iff _ (not_continued b.height)).0 continued),
        count,
        range,
        root,
        is_sealed
            ∙ ap ok (
                (not-eq_iff sealed b.block_hash).0
                  ((when-nil_iff _ (wrong_hash b.height)).0 same_hash)),
        recompute-Sealed b.block_hash b.last_seq (b.height + 1) bs (is_rest ∙ ap ok no_rest),
      )

  -- Where the verifier of the blocks reports nothing, the blocks run from height 1 without a gap;
  -- each continues the range of the one before it and names its hash, counts the entries that the
  -- history has in its range and has their Merkle root, and has the hash of its own fields.
  pub block_problems-Sealed :
      (database : List (Option ℕ × Text)) (rows : List BlockRow)
      → block_problems h tenant leaves database rows ≡ ok []
      → Sealed genesis 0 1 rows
  unfolding block_problems
  block_problems-Sealed database rows e =
      let (found, is_found, same) = >>=-eq-ok (recompute h tenant leaves genesis 0 1 rows) _ e in
      recompute-Sealed genesis 0 1 rows (
        is_found
        ∙ ap ok ((append-nil_iff (map reported database) found).0 (ok-injective _ _ same)).1)
