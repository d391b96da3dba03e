-- ===== src/Store/Versions.antt =====
-- The versions of a record: what a successful update makes of it, and why no update is lost.
use persistence_memory.Prelude.{
  ℕ, ◌+◌, ◌≡◌, refl, sym, ap, ◌∙◌, inl, inr, true, false, Option, none, some, ◌==◌, text_eq, nat_eq,
  Text, lookup, insert, Result, ok, err, if◌then◌else◌, arith, lookup-insert, not-eq_iff, beq_refl,
}
use mathlib.Core.Option.{some-injective}
use persistence_memory.Hash.{Sha256}
use persistence_memory.Models.{MemoryRecord, MemoryUpdate}
use persistence_memory.Evidence.{Resolver}
use persistence_memory.ClauseV.{Gate}
use persistence_memory.Store.{
  Store, Env, StoreError, version_conflict, updated_record, update_memory, update_found,
  expects_other,
}
use persistence_memory.Store.Cases.{update_memory-cases}
use persistence_memory.Store.Atomic.{save_or_restore-ok}

module _ (h : Sha256) (g : Gate) (resolve : Resolver) where
  ok-updated :
      (env : Env) (id : Text) (u : MemoryUpdate) (s : Store) (r : MemoryRecord)
      → (update_memory h g resolve env id u s).0 ≡ ok (some r)
      → (e : MemoryRecord) × (lookup id s.memories ≡ some e)
        × (expects_other u.expected_version e.version ≡ false)
        × (updated_record h g resolve env e u ≡ r)
        × ((update_memory h g resolve env id u s).1
            ≡ record { memories = insert id r s.memories; disk = insert id r s.memories })
  ok-updated env id u s r done = elim (update_memory-cases h g resolve env id u s) [
    | inl (inl (e, same)) ↦ absurd (refused e (sym (ap (λ x. x.0) same) ∙ done))
    | inl (inr same) ↦ absurd (absent (sym (ap (λ x. x.0) same) ∙ done))
    | inr updated ↦
        let (value, after) =
          save_or_restore-ok env _ (some r) _ _ s (sym (ap (λ x. x.0) updated.is_saved) ∙ done) in
        let is_r : updated_record h g resolve env updated.existing u ≡ r =
          some-injective _ _ value in
        (
          updated.existing,
          updated.found,
          updated.expected,
          is_r,
          ap (λ x. x.1) updated.is_saved
              ∙ after
              ∙ ap
                  (λ x. record { memories = insert id x s.memories; disk = insert id x s.memories })
                  is_r,
        )
  ]
    where
      Found : Type 0
      Found = Result StoreError (Option MemoryRecord)

      refused : (e : StoreError) → ◌≡◌ {A = Found} (err e) (ok (some r)) → ⊥
      refused e same = cc

      absent : ◌≡◌ {A = Found} (ok none) (ok (some r)) → ⊥
      absent same = cc

  -- A successful update found a record whose version is the expected one, if any was; its version
  -- goes up by one, its id and creation time stay, it is what the id gives now, every other id
  -- gives what it gave, and memory and disk are the same.
  pub update_memory-ok :
      (env : Env) (id k : Text) (u : MemoryUpdate) (s : Store) (r : MemoryRecord)
      → (update_memory h g resolve env id u s).0 ≡ ok (some r)
      → (e : MemoryRecord) × (lookup id s.memories ≡ some e)
        × (expects_other u.expected_version e.version ≡ false)
        × (r.version ≡ e.version + 1)
        × (r.id ≡ e.id)
        × (r.created_at ≡ e.created_at)
        × (lookup k (update_memory h g resolve env id u s).1.memories
            ≡ (if id == k then some r else lookup k s.memories))
        × ((update_memory h g resolve env id u s).1.disk
            ≡ (update_memory h g resolve env id u s).1.memories)
  update_memory-ok env id k u s r done =
      let (e, there, expected, is_r, after) = ok-updated env id u s r done in
      (
        e,
        there,
        expected,
        sym (ap (λ (x : MemoryRecord). x.version) is_r),
        sym (ap (λ (x : MemoryRecord). x.id) is_r),
        sym (ap (λ (x : MemoryRecord). x.created_at) is_r),
        ap (λ (t : Store). lookup k t.memories) after ∙ lookup-insert id k r s.memories,
        ap (λ (t : Store). t.disk) after ∙ sym (ap (λ (t : Store). t.memories) after),
      )

  -- Where an update of a record that expects a version succeeds, a second update of the same record
  -- that comes next, on the store that the first leaves, and expects the same version, is refused
  -- with a version conflict and changes nothing.
  pub update_memory-conflict :
      (env later : Env) (id : Text) (u v : MemoryUpdate) (s : Store) (r : MemoryRecord) (n : ℕ)
      → u.expected_version ≡ some n
      → v.expected_version ≡ some n
      → (update_memory h g resolve env id u s).0 ≡ ok (some r)
      → update_memory h g resolve later id v (update_memory h g resolve env id u s).1
        ≡ (err version_conflict, (update_memory h g resolve env id u s).1)
  unfolding update_memory
  update_memory-conflict env later id u v s r n expects_u expects_v done =
      let (e, there, expected, is_r, after) = ok-updated env id u s r done in
      let t = (update_memory h g resolve env id u s).1 in
      let found : lookup id t.memories ≡ some r =
        ap (λ (x : Store). lookup id x.memories) after
        ∙ lookup-insert id id r s.memories
        ∙ ap (λ b. if b then some r else lookup id s.memories) (beq_refl id) in
      let old : e.version ≡ n = sym (
        (not-eq_iff n e.version).0
          (ap (λ o. expects_other o e.version) (sym expects_u) ∙ expected)) in
      let new : r.version ≡ n + 1 =
        sym (ap (λ (x : MemoryRecord). x.version) is_r) ∙ ap (λ x. x + 1) old in
      conflict t r found (ap (λ o. expects_other o r.version) expects_v ∙ other n r.version new)
    where
      other : (n m : ℕ) → m ≡ n + 1 → expects_other (some n) m ≡ true
      other n m e = ground arith

      conflict :
          (t : Store) (r : MemoryRecord)
          → lookup id t.memories ≡ some r
          → expects_other v.expected_version r.version ≡ true
          → update_found h g resolve later id v t (lookup id t.memories) ≡ (err version_conflict, t)
      conflict t r found differs = rw (found, differs) refl
