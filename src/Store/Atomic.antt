-- ===== src/Store/Atomic.antt =====
-- A request that fails leaves nothing behind, and one that succeeds is on disk.
use persistence_memory.Prelude.{
  ◌≡◌, refl, sym, ap, ◌∙◌, inl, inr, true, Option, none, some, ◌==◌, text_eq, Text, lookup, insert,
  erase, ok, err, Bool-cases, arith, erase-insert, insert-insert, lookup-erase, lookup-insert,
  text_beq_iff,
}
use persistence_memory.Hash.{Sha256}
use persistence_memory.Models.{MemoryRecord, MemoryCreate, MemoryUpdate}
use persistence_memory.Evidence.{Resolver}
use persistence_memory.ClauseV.{Gate}
use persistence_memory.Store.{
  Store, Env, StoreError, Memories, save_or_restore, create_memory, update_memory, delete_memory,
  delete_found,
}
use persistence_memory.Store.Cases.{create_memory-cases, update_memory-cases}

-- What the attempt to save replies and leaves, on both branches.
pub save_or_restore-err :
    {A : Type 0} (env : Env) (a : A) (changed : Memories) (restore : Memories → Memories)
    (s : Store) (e : StoreError)
    → (save_or_restore env a changed restore s).0 ≡ err e
    → (save_or_restore env a changed restore s).1 ≡ record s { memories = restore changed }
unfolding save_or_restore
save_or_restore-err env a changed restore s e failed = elim (Bool-cases env.can_save) [
  | inl can ↦ absurd (ground arith)
  | inr cannot ↦ rw cannot refl
]

pub save_or_restore-ok :
    {A : Type 0} (env : Env) (a b : A) (changed : Memories) (restore : Memories → Memories)
    (s : Store)
    → (save_or_restore env a changed restore s).0 ≡ ok b
    → (a ≡ b)
      × ((save_or_restore env a changed restore s).1
          ≡ record { memories = changed; disk = changed })
unfolding save_or_restore
save_or_restore-ok env a b changed restore s done = elim (Bool-cases env.can_save) [
  | inl can ↦ let same : ok a ≡ ok b = rw can at done in (ground arith, rw can refl)
  | inr cannot ↦ absurd (ground arith)
]

module _ (h : Sha256) (g : Gate) (resolve : Resolver) where
  -- A creation that fails, with an id that was free, leaves the store as it was, in memory and on
  -- disk.
  pub create_memory-err :
      (env : Env) (d : MemoryCreate) (s : Store) (e : StoreError)
      → lookup env.fresh_id s.memories ≡ none
      → (create_memory h g resolve env d s).0 ≡ err e
      → (create_memory h g resolve env d s).1 ≡ s
  create_memory-err env d s e free failed = elim (create_memory-cases h g resolve env d s) [
    | inl (_, same) ↦ ap (λ r. r.1) same
    | inr created ↦
        ap (λ r. r.1) created.is_saved
        ∙ save_or_restore-err env _ _ _ s e (sym (ap (λ r. r.0) created.is_saved) ∙ failed)
        ∙ ap (λ m. record s { memories = m }) (erase-insert env.fresh_id _ s.memories free)
  ]

  -- An update that fails leaves the store as it was, in memory and on disk.
  pub update_memory-err :
      (env : Env) (id : Text) (u : MemoryUpdate) (s : Store) (e : StoreError)
      → (update_memory h g resolve env id u s).0 ≡ err e
      → (update_memory h g resolve env id u s).1 ≡ s
  update_memory-err env id u s e failed = elim (update_memory-cases h g resolve env id u s) [
    | inl (inl (_, same)) ↦ ap (λ r. r.1) same
    | inl (inr same) ↦ ap (λ r. r.1) same
    | inr updated ↦
        ap (λ r. r.1) updated.is_saved
        ∙ save_or_restore-err env _ _ _ s e (sym (ap (λ r. r.0) updated.is_saved) ∙ failed)
        ∙ ap (λ m. record s { memories = m })
            (insert-insert id _ updated.existing s.memories updated.found)
  ]

-- The memory that was taken out is found again, though at another place.
pub lookup-insert-erase :
    (id k : Text) (r : MemoryRecord) (m : Memories)
    → lookup id m ≡ some r
    → lookup k (insert id r (erase id m)) ≡ lookup k m
lookup-insert-erase id k r m there = elim (Bool-cases (id == k)) [
  | inl same ↦
      rw (lookup-insert id k r (erase id m), same)
        (sym there ∙ ap (λ x. lookup x m) ((text_beq_iff id k).0 same))
  | inr other ↦ rw (lookup-insert id k r (erase id m), other) (lookup-erase id k m other)
]

-- A deletion that fails leaves the file as it was, and in memory every id has what it had.
pub delete_memory-err :
    (env : Env) (id : Text) (s : Store) (e : StoreError) (k : Text)
    → (delete_memory env id s).0 ≡ err e
    → ((delete_memory env id s).1.disk ≡ s.disk)
      × (lookup k (delete_memory env id s).1.memories ≡ lookup k s.memories)
unfolding delete_memory
delete_memory-err env id s e k failed = by (lookup id s.memories) refl failed
  where
    by :
        (o : Option MemoryRecord)
        → lookup id s.memories ≡ o
        → (delete_found env id s o).0 ≡ err e
        → ((delete_found env id s o).1.disk ≡ s.disk)
          × (lookup k (delete_found env id s o).1.memories ≡ lookup k s.memories)
    by none there fails = absurd (cc)
    by (some r) there fails =
        let back = save_or_restore-err env true (erase id s.memories) (insert id r) s e fails in
        (
          ap (λ (t : Store). t.disk) back,
          ap (λ (t : Store). lookup k t.memories) back
              ∙ lookup-insert-erase id k r s.memories there,
        )
