-- ===== src/Store/Cases.antt =====
-- How the operations of the store can end: refused before anything changes, or with the attempt to
-- save, for a request that the gate let through.
use persistence_memory.Prelude.{
  ◌≡◌, refl, ◌⊎◌, inl, inr, false, Option, none, some, List, [], ◌∷◌, text_eq, nat_eq, Text, lookup,
  insert, erase, Result, ok, err, Bool-cases,
}
use persistence_memory.Hash.{Sha256}
use persistence_memory.Models.{MemoryRecord, MemoryCreate, MemoryUpdate}
use persistence_memory.Evidence.{Resolver, LinkReason, check_links}
use persistence_memory.ClauseV.{Gate, Reason, gate_create, gate_update}
use persistence_memory.Store.{
  Store, Env, StoreError, Reply, save_or_restore, names_missing, new_record, create_memory,
  create_checked, create_gated, updated_record, expects_other, update_memory, update_found,
  update_checked, update_gated, update_links,
}

module _ (h : Sha256) (g : Gate) (resolve : Resolver) where
  pub record Created (env : Env) (d : MemoryCreate) (s : Store) (r : Reply MemoryRecord)
      : Type 0 where
    pub warnings : List Reason
    pub admitted : gate_create g d resolve ≡ ok warnings
    pub is_saved :
        r
        ≡ save_or_restore env
            (new_record h g resolve env d)
            (insert env.fresh_id (new_record h g resolve env d) s.memories)
            (erase env.fresh_id)
            s

  abbrev pub Refused : {A : Type 0} → Store → Reply A → Type 0
  Refused s r = (e : StoreError) × (r ≡ (err e, s))

  pub create_memory-cases :
      (env : Env) (d : MemoryCreate) (s : Store)
      → Refused s (create_memory h g resolve env d s)
        ⊎ Created env d s (create_memory h g resolve env d s)
  unfolding create_memory
  create_memory-cases env d s = checked (check_links resolve d.evidence)
    where
      gated :
          (v : Result (List Reason) (List Reason))
          → gate_create g d resolve ≡ v
          → Refused s (create_gated h g resolve env d s v)
            ⊎ Created env d s (create_gated h g resolve env d s v)
      gated (err rs) e = inl (_, refl)
      gated (ok ws) e = elim (Bool-cases (names_missing d.supersedes s.memories)) [
        | inl missing ↦ rw missing (inl (_, refl))
        | inr there ↦ rw there (inr (record { warnings = ws; admitted = e; is_saved = refl }))
      ]

      checked :
          (bad : List LinkReason)
          → Refused s (create_checked h g resolve env d s bad)
            ⊎ Created env d s (create_checked h g resolve env d s bad)
      checked (r ∷ rs) = inl (_, refl)
      checked [] = gated (gate_create g d resolve) refl

  pub record Updated (env : Env) (id : Text) (u : MemoryUpdate) (s : Store)
      (r : Reply (Option MemoryRecord)) : Type 0 where
    pub existing : MemoryRecord
    pub found : lookup id s.memories ≡ some existing
    pub expected : expects_other u.expected_version existing.version ≡ false
    pub warnings : List Reason
    pub admitted : gate_update g existing u resolve ≡ ok warnings
    pub is_saved :
        r
        ≡ save_or_restore env
            (some (updated_record h g resolve env existing u))
            (insert id (updated_record h g resolve env existing u) s.memories)
            (insert id existing)
            s

  pub update_memory-cases :
      (env : Env) (id : Text) (u : MemoryUpdate) (s : Store)
      → (Refused s (update_memory h g resolve env id u s)
          ⊎ (update_memory h g resolve env id u s ≡ (ok none, s)))
        ⊎ Updated env id u s (update_memory h g resolve env id u s)
  unfolding update_memory
  update_memory-cases env id u s = by (lookup id s.memories) refl
    where
      Ends : Reply (Option MemoryRecord) → Type 0
      Ends r = (Refused s r ⊎ (r ≡ (ok none, s))) ⊎ Updated env id u s r

      gated :
          (e : MemoryRecord) (v : Result (List Reason) (List Reason))
          → lookup id s.memories ≡ some e
          → expects_other u.expected_version e.version ≡ false
          → gate_update g e u resolve ≡ v
          → Ends (update_gated h g resolve env id e u s v)
      gated e (err rs) there expected admitted = inl (inl (_, refl))
      gated e (ok ws) there expected admitted =
          elim (Bool-cases (names_missing u.supersedes s.memories)) [
            | inl missing ↦ rw missing (inl (inl (_, refl)))
            | inr named ↦ rw named (
                inr (record {
                  existing = e;
                  found = there;
                  expected = expected;
                  warnings = ws;
                  admitted = admitted;
                  is_saved = refl;
                }))
          ]

      checked :
          (e : MemoryRecord) (bad : List LinkReason)
          → lookup id s.memories ≡ some e
          → expects_other u.expected_version e.version ≡ false
          → Ends (update_checked h g resolve env id e u s bad)
      checked e (r ∷ rs) there expected = inl (inl (_, refl))
      checked e [] there expected = gated e (gate_update g e u resolve) there expected refl

      by :
          (o : Option MemoryRecord)
          → lookup id s.memories ≡ o
          → Ends (update_found h g resolve env id u s o)
      by none there = inl (inr refl)
      by (some e) there = elim (Bool-cases (expects_other u.expected_version e.version)) [
        | inl other ↦ rw other (inl (inl (_, refl)))
        | inr same ↦ rw same (checked e (update_links h g resolve u) there same)
      ]
