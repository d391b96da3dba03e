-- ===== src/Tests/Memories.antt =====
-- The store and its gate on small inputs.
use persistence_memory.Prelude.{
  text_eq, nat_eq, ℕ, ◌+◌, ◌≤◌, ◌≡◌, refl, Bool, true, false, Option, none, some, [], ◌∷◌, Text,
  codes, lookup, ok, err, strip, lower, rstrip, lstrip,
}
use persistence_memory.Models.{MemoryCreate, MemoryUpdate, MemoryRecord, decision, verified, draft}
use persistence_memory.Evidence.{Resolver, check_links}
use persistence_memory.ClauseV.{
  Gate, SoftRules, hard_enforced, soft_mode, hard_reasons, gate_create, gate_update, judge,
  has_evidence, type_reasons, soft_reasons, admits,
}
use persistence_memory.Continuity.{content_sha256}
use persistence_memory.Store.{
  Store, Env, store_unavailable, version_conflict, create_memory, update_memory, delete_memory,
  save_or_restore, expects_other, updated_record, new_record,
}
use persistence_memory.Store.Atomic.{create_memory-err, update_memory-err, delete_memory-err}
use persistence_memory.Store.Versions.{update_memory-ok, update_memory-conflict}
use persistence_memory.Store.Sound.{
  Reachable, empty, created, updated, verified-backed, Reachable-record,
}
use persistence_memory.Store.Durable.{disk-memories}
use persistence_memory.Store.Listing.{Query, list_memories}
use persistence_memory.Store.Listing.Newest.{Listed, list_memories-Listed}
use persistence_memory.Tests.Toy.{toy}

abbrev no_objects : Resolver
no_objects = λ ref. ok none

abbrev quiet : SoftRules
quiet = record { emotion = λ t. false; transient = λ t. false; transcript = λ t. false }

-- The gate in its default: on, and warning only.
abbrev gate : Gate
gate = record { hard = none; soft = none; rules = quiet }

abbrev draft_decision : MemoryCreate
draft_decision = record {
  content = codes "Use B";
  source_agent = codes "x";
  session_id = codes "s";
  type = decision;
  confidence = 1;
  evidence = record { kind = codes "commit"; ref = codes "abc"; note = [] } ∷ [];
  supersedes = none;
  status = draft;
  subject = none;
  tags = [];
}

abbrev verify_it : Option ℕ → MemoryUpdate
verify_it version = record {
  content = none;
  source_agent = none;
  session_id = none;
  type = none;
  confidence = none;
  evidence = none;
  supersedes = none;
  status = some verified;
  subject = none;
  tags = none;
  expected_version = version;
}

abbrev at_time : Text → Text → Bool → Env
at_time now fresh_id can_save = record { now = now; fresh_id = fresh_id; can_save = can_save }

abbrev nothing : Store
nothing = record { memories = []; disk = [] }

abbrev env : Env
env = at_time (codes "t1") (codes "mem_1") true

abbrev full : Env
full = at_time (codes "t2") (codes "mem_2") false

abbrev one : Store
one = (create_memory toy gate no_objects env draft_decision nothing).1

abbrev one_verified : Store
one_verified = (update_memory toy gate no_objects env (codes "mem_1") (verify_it (some 1)) one).1

one-Reachable : Reachable toy gate no_objects one
one-Reachable = created env draft_decision nothing refl empty

create_memory-err_example :
    (create_memory toy gate no_objects full draft_decision nothing).1 ≡ nothing
unfolding create_memory update_memory delete_memory save_or_restore check_links gate_create
    gate_update judge admits hard_enforced soft_mode hard_reasons has_evidence type_reasons
    soft_reasons lower strip rstrip lstrip
create_memory-err_example =
    create_memory-err toy gate no_objects full draft_decision nothing store_unavailable refl refl

update_memory-err_example :
    (update_memory toy gate no_objects full (codes "mem_1") (verify_it (some 1)) one).1 ≡ one
unfolding create_memory update_memory delete_memory save_or_restore check_links gate_create
    gate_update judge admits hard_enforced soft_mode hard_reasons has_evidence type_reasons
    soft_reasons lower strip rstrip lstrip
update_memory-err_example =
    update_memory-err toy gate no_objects full (codes "mem_1") (verify_it (some 1)) one
      store_unavailable refl

delete_memory-err_example :
    ((delete_memory full (codes "mem_1") one).1.disk ≡ one.disk)
    × (lookup (codes "mem_1") (delete_memory full (codes "mem_1") one).1.memories
        ≡ lookup (codes "mem_1") one.memories)
unfolding create_memory update_memory delete_memory save_or_restore check_links gate_create
    gate_update judge admits hard_enforced soft_mode hard_reasons has_evidence type_reasons
    soft_reasons lower strip rstrip lstrip
delete_memory-err_example =
    delete_memory-err full (codes "mem_1") one store_unavailable (codes "mem_1") refl

abbrev changed : MemoryRecord
changed =
    updated_record toy gate no_objects env (new_record toy gate no_objects env draft_decision)
      (verify_it (some 1))

update_memory-ok_example :
    (e : MemoryRecord) × (lookup (codes "mem_1") one.memories ≡ some e)
    × (expects_other (some 1) e.version ≡ false)
    × (changed.version ≡ e.version + 1)
    × (changed.id ≡ e.id)
    × (changed.created_at ≡ e.created_at)
    × (lookup (codes "mem_1") one_verified.memories ≡ some changed)
    × (one_verified.disk ≡ one_verified.memories)
unfolding create_memory update_memory delete_memory save_or_restore check_links gate_create
    gate_update judge admits hard_enforced soft_mode hard_reasons has_evidence type_reasons
    soft_reasons lower strip rstrip lstrip
update_memory-ok_example =
    update_memory-ok toy gate no_objects env (codes "mem_1") (codes "mem_1") (verify_it (some 1))
      one changed refl

update_memory-conflict_example :
    update_memory toy gate no_objects env (codes "mem_1") (verify_it (some 1)) one_verified
    ≡ (err version_conflict, one_verified)
unfolding create_memory update_memory delete_memory save_or_restore check_links gate_create
    gate_update judge admits hard_enforced soft_mode hard_reasons has_evidence type_reasons
    soft_reasons lower strip rstrip lstrip
update_memory-conflict_example =
    update_memory-conflict toy gate no_objects env env (codes "mem_1") (verify_it (some 1))
      (verify_it (some 1)) one changed 1 refl refl refl

verified-backed_example : hard_reasons changed.type changed.evidence no_objects ≡ []
unfolding create_memory update_memory delete_memory save_or_restore check_links gate_create
    gate_update judge admits hard_enforced soft_mode hard_reasons has_evidence type_reasons
    soft_reasons lower strip rstrip lstrip
verified-backed_example =
    verified-backed toy gate no_objects one_verified (codes "mem_1") changed
      (updated env (codes "mem_1") (verify_it (some 1)) one one-Reachable) refl refl refl

Reachable-record_example :
    (changed.id ≡ codes "mem_1")
    × (1 ≤ changed.version)
    × (changed.content_sha256 ≡ content_sha256 toy changed.content)
unfolding create_memory update_memory delete_memory save_or_restore check_links gate_create
    gate_update judge admits hard_enforced soft_mode hard_reasons has_evidence type_reasons
    soft_reasons lower strip rstrip lstrip
Reachable-record_example =
    Reachable-record toy gate no_objects one_verified (codes "mem_1") changed
      (updated env (codes "mem_1") (verify_it (some 1)) one one-Reachable) refl

disk-memories_example :
    lookup (codes "mem_1") one_verified.disk ≡ lookup (codes "mem_1") one_verified.memories
disk-memories_example =
    disk-memories toy gate no_objects one_verified (codes "mem_1")
      (updated env (codes "mem_1") (verify_it (some 1)) one one-Reachable)

abbrev drafts_about_b : Query
drafts_about_b = record {
  truth_scope = some (codes "live");
  query = some (codes "use b");
  limit = 10;
  memory_type = some (codes "decision");
  status = some (codes "draft");
  session_id = none;
  subject = none;
}

list_memories-Listed_example : Listed drafts_about_b one (list_memories drafts_about_b one)
list_memories-Listed_example = list_memories-Listed drafts_about_b one
