-- ===== src/Store/Sound.antt =====
-- What holds in every state that the store can reach from an empty one.
use persistence_memory.Prelude.{
  ◌≤◌, ◌≡◌, refl, sym, inl, inr, true, Option, none, some, [], text_eq, nat_eq, Text, lookup,
  insert, erase, Bool-cases, arith, All, insert-All, erase-All, lookup-All, subst,
}
use persistence_memory.Hash.{Sha256}
use persistence_memory.Models.{MemoryRecord, MemoryCreate, MemoryUpdate, is_verified}
use persistence_memory.Evidence.{Resolver}
use persistence_memory.ClauseV.{Gate, hard_enforced, hard_reasons, pick}
use persistence_memory.ClauseV.Admitted.{gate_create-ok, gate_update-ok}
use persistence_memory.Continuity.{content_sha256}
use persistence_memory.Store.{
  Store, Env, Memories, save_or_restore, new_record, updated_record, create_memory, update_memory,
  delete_memory, delete_found, new_hash,
}
use persistence_memory.Store.Cases.{create_memory-cases, update_memory-cases}

module _ (h : Sha256) (g : Gate) (resolve : Resolver) where
  -- A state that requests lead to: each meets a clock, an id that is free, and a file that can be
  -- replaced or not.
  pub data Reachable : Store → Type 0 where
    empty : Reachable (record { memories = []; disk = [] })
    created :
        (env : Env) (d : MemoryCreate) (s : Store)
        → lookup env.fresh_id s.memories ≡ none
        → Reachable s
        → Reachable (create_memory h g resolve env d s).1
    updated :
        (env : Env) (id : Text) (u : MemoryUpdate) (s : Store)
        → Reachable s
        → Reachable (update_memory h g resolve env id u s).1
    deleted :
        (env : Env) (id : Text) (s : Store) → Reachable s → Reachable (delete_memory env id s).1

  -- A record in its place, with its content's hash, and through the gate if it is verified.
  record Sound (place : Text × MemoryRecord) : Type 0 where
    own_id : place.1.id ≡ place.0
    counted : 1 ≤ place.1.version
    hashed : place.1.content_sha256 ≡ content_sha256 h place.1.content
    backed :
        hard_enforced g.hard ≡ true
        → is_verified place.1.status ≡ true
        → hard_reasons place.1.type place.1.evidence resolve ≡ []

  abbrev AllSound : Store → Type 0
  AllSound s = All Sound s.memories

  save_or_restore-AllSound :
      {A : Type 0} (env : Env) (a : A) (changed : Memories) (restore : Memories → Memories)
      (s : Store)
      → All Sound changed
      → All Sound (restore changed)
      → AllSound (save_or_restore env a changed restore s).1
  unfolding save_or_restore
  save_or_restore-AllSound env a changed restore s done undone = elim (Bool-cases env.can_save) [
    | inl can ↦ rw can done
    | inr cannot ↦ rw cannot undone
  ]

  create_memory-AllSound :
      (env : Env) (d : MemoryCreate) (s : Store)
      → AllSound s
      → AllSound (create_memory h g resolve env d s).1
  create_memory-AllSound env d s all = elim (create_memory-cases h g resolve env d s) [
    | inl (_, same) ↦ subst (λ r. AllSound r.1) (sym same) all
    | inr c ↦
        let new : Sound (env.fresh_id, new_record h g resolve env d) = record {
          own_id = refl;
          counted = omega arith;
          hashed = refl;
          backed = λ on _. gate_create-ok g d resolve c.warnings on c.admitted;
        } in
        let after = insert-All Sound env.fresh_id _ s.memories new all in
        subst (λ r. AllSound r.1) (sym c.is_saved)
          (save_or_restore-AllSound env _ _ (erase env.fresh_id) s after
            (erase-All Sound env.fresh_id _ after))
  ]

  new_hash-hashed :
      (content : Option Text) (old hash : Text)
      → hash ≡ content_sha256 h old
      → new_hash h g resolve content hash ≡ content_sha256 h (pick content old)
  new_hash-hashed none old hash e = e
  new_hash-hashed (some t) old hash e = refl

  update_memory-AllSound :
      (env : Env) (id : Text) (u : MemoryUpdate) (s : Store)
      → AllSound s
      → AllSound (update_memory h g resolve env id u s).1
  update_memory-AllSound env id u s all = elim (update_memory-cases h g resolve env id u s) [
    | inl (inl (_, same)) ↦ subst (λ r. AllSound r.1) (sym same) all
    | inl (inr same) ↦ subst (λ r. AllSound r.1) (sym same) all
    | inr c ↦
        let old : Sound (id, c.existing) = lookup-All Sound id c.existing s.memories all c.found in
        let new : Sound (id, updated_record h g resolve env c.existing u) = record {
          own_id = old.own_id;
          counted = omega arith;
          hashed =
              new_hash-hashed u.content c.existing.content c.existing.content_sha256 old.hashed;
          backed = λ on is. gate_update-ok g c.existing u resolve c.warnings on is c.admitted;
        } in
        let after = insert-All Sound id _ s.memories new all in
        subst (λ r. AllSound r.1) (sym c.is_saved)
          (save_or_restore-AllSound env _ _ (insert id c.existing) s after
            (insert-All Sound id c.existing _ old after))
  ]

  delete_memory-AllSound :
      (env : Env) (id : Text) (s : Store) → AllSound s → AllSound (delete_memory env id s).1
  unfolding delete_memory
  delete_memory-AllSound env id s all = by (lookup id s.memories) refl
    where
      by :
          (o : Option MemoryRecord)
          → lookup id s.memories ≡ o
          → AllSound (delete_found env id s o).1
      by none there = all
      by (some r) there =
          let after = erase-All Sound id s.memories all in
          save_or_restore-AllSound env true _ (insert id r) s after
            (insert-All Sound id r _ (lookup-All Sound id r s.memories all there) after)

  Reachable-AllSound : (s : Store) → Reachable s → AllSound s
  Reachable-AllSound _ empty = tt
  Reachable-AllSound _ (created env d s free before) =
      create_memory-AllSound env d s (Reachable-AllSound s before)
  Reachable-AllSound _ (updated env id u s before) =
      update_memory-AllSound env id u s (Reachable-AllSound s before)
  Reachable-AllSound _ (deleted env id s before) =
      delete_memory-AllSound env id s (Reachable-AllSound s before)

  -- In every reachable state, while the gate is on, a verified record that an id gives has no hard
  -- reason against it: its type is allowed and it has the evidence that its type needs.
  pub verified-backed :
      (s : Store) (k : Text) (r : MemoryRecord)
      → Reachable s
      → lookup k s.memories ≡ some r
      → hard_enforced g.hard ≡ true
      → is_verified r.status ≡ true
      → hard_reasons r.type r.evidence resolve ≡ []
  verified-backed s k r reached there on is =
      (lookup-All Sound k r s.memories (Reachable-AllSound s reached) there).backed on is

  -- In every reachable state, the record that an id gives bears that id, has a version from 1 on,
  -- and the hash of its own content.
  pub Reachable-record :
      (s : Store) (k : Text) (r : MemoryRecord)
      → Reachable s
      → lookup k s.memories ≡ some r
      → (r.id ≡ k) × (1 ≤ r.version) × (r.content_sha256 ≡ content_sha256 h r.content)
  Reachable-record s k r reached there =
      let sound = lookup-All Sound k r s.memories (Reachable-AllSound s reached) there in
      (sound.own_id, sound.counted, sound.hashed)
