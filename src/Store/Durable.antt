-- ===== src/Store/Durable.antt =====
-- Memory and disk give the same, whatever writes failed on the way.
use persistence_memory.Prelude.{
  ◌≡◌, refl, sym, ap, ◌∙◌, inl, inr, true, Option, none, some, text_eq, Text, lookup, insert, erase,
  Bool-cases, erase-insert, insert-insert, subst,
}
use persistence_memory.Hash.{Sha256}
use persistence_memory.Models.{MemoryRecord, MemoryCreate, MemoryUpdate}
use persistence_memory.Evidence.{Resolver}
use persistence_memory.ClauseV.{Gate}
use persistence_memory.Store.{
  Store, Env, Memories, save_or_restore, create_memory, update_memory, delete_memory, delete_found,
}
use persistence_memory.Store.Cases.{create_memory-cases, update_memory-cases}
use persistence_memory.Store.Atomic.{lookup-insert-erase}
use persistence_memory.Store.Sound.{Reachable, empty, created, updated, deleted}

abbrev Synced : Store → Type 0
Synced s = (k : Text) → lookup k s.disk ≡ lookup k s.memories

save_or_restore-Synced :
    {A : Type 0} (env : Env) (a : A) (changed : Memories) (restore : Memories → Memories)
    (s : Store)
    → Synced s
    → ((k : Text) → lookup k (restore changed) ≡ lookup k s.memories)
    → Synced (save_or_restore env a changed restore s).1
unfolding save_or_restore
save_or_restore-Synced env a changed restore s synced back = elim (Bool-cases env.can_save) [
  | inl can ↦ rw can (λ k. refl)
  | inr cannot ↦ rw cannot (λ k. synced k ∙ sym (back k))
]

delete_memory-Synced :
    (env : Env) (id : Text) (s : Store) → Synced s → Synced (delete_memory env id s).1
unfolding delete_memory
delete_memory-Synced env id s synced = by (lookup id s.memories) refl
  where
    by : (o : Option MemoryRecord) → lookup id s.memories ≡ o → Synced (delete_found env id s o).1
    by none there = synced
    by (some r) there =
        save_or_restore-Synced env true _ (insert id r) s synced
          (λ k. lookup-insert-erase id k r s.memories there)

module _ (h : Sha256) (g : Gate) (resolve : Resolver) where
  create_memory-Synced :
      (env : Env) (d : MemoryCreate) (s : Store)
      → lookup env.fresh_id s.memories ≡ none
      → Synced s
      → Synced (create_memory h g resolve env d s).1
  create_memory-Synced env d s free synced = elim (create_memory-cases h g resolve env d s) [
    | inl (_, same) ↦ subst (λ r. Synced r.1) (sym same) synced
    | inr c ↦
        subst (λ r. Synced r.1) (sym c.is_saved)
          (save_or_restore-Synced env _ _ (erase env.fresh_id) s synced
            (λ k. ap (lookup k) (erase-insert env.fresh_id _ s.memories free)))
  ]

  update_memory-Synced :
      (env : Env) (id : Text) (u : MemoryUpdate) (s : Store)
      → Synced s
      → Synced (update_memory h g resolve env id u s).1
  update_memory-Synced env id u s synced = elim (update_memory-cases h g resolve env id u s) [
    | inl (inl (_, same)) ↦ subst (λ r. Synced r.1) (sym same) synced
    | inl (inr same) ↦ subst (λ r. Synced r.1) (sym same) synced
    | inr c ↦
        subst (λ r. Synced r.1) (sym c.is_saved)
          (save_or_restore-Synced env _ _ (insert id c.existing) s synced
            (λ k. ap (lookup k) (insert-insert id _ c.existing s.memories c.found)))
  ]

  -- In every reachable state, also after writes that failed, the file gives for every id what the
  -- memory gives.
  pub disk-memories :
      (s : Store) (k : Text) → Reachable h g resolve s → lookup k s.disk ≡ lookup k s.memories
  disk-memories _ k empty = refl
  disk-memories _ k (created env d s free before) =
      create_memory-Synced env d s free (λ j. disk-memories s j before) k
  disk-memories _ k (updated env id u s before) =
      update_memory-Synced env id u s (λ j. disk-memories s j before) k
  disk-memories _ k (deleted env id s before) =
      delete_memory-Synced env id s (λ j. disk-memories s j before) k
