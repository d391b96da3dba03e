-- ===== src/Store.antt =====
-- app/store.py: the JSON file store. The state is what stands in memory and what stands on disk; a
-- write to disk either replaces the whole file or fails and leaves it (temp file, fsync,
-- os.replace), as the environment says.
pub mod Cases
pub mod Atomic
pub mod Versions
pub mod Sound
pub mod Durable
pub mod Listing
use persistence_memory.Prelude.{
  text_eq, nat_eq, ℕ, ◌+◌, ◌≡◌, Bool, true, false, not, ◌&&◌, ◌||◌, Option, none, some, List, [],
  ◌∷◌, ◌++◌, ltb, leb, any, keep, take, ◌==◌, if◌then◌else◌, Text, codes, lower, Dict, lookup,
  insert, erase, member, values, sort, text_leb, Result, ok, err,
}
use persistence_memory.Hash.{Sha256}
use persistence_memory.Models.{
  MemoryRecord, MemoryCreate, MemoryUpdate, MemoryStatus, MemoryType, type_name, status_name,
  is_archived, same_type,
}
use persistence_memory.Evidence.{Resolver, LinkReason, check_links}
use persistence_memory.ClauseV.{Gate, Reason, gate_create, gate_update, pick, pick_subject}
use persistence_memory.Continuity.{content_sha256}

abbrev pub Memories : Type 0
Memories = Dict Text MemoryRecord

pub record Store : Type 0 where
  pub memories : Memories
  pub disk : Memories

pub data StoreError : Type 0 where
  store_unavailable version_conflict : StoreError
  supersedes_missing : Text → StoreError
  evidence_invalid : List LinkReason → StoreError
  clause_v_violation : List Reason → StoreError

-- What one request meets: the clock, a fresh id, and whether the file can be replaced.
pub record Env : Type 0 where
  pub now : Text
  pub fresh_id : Text
  pub can_save : Bool

abbrev pub Reply : Type 0 → Type 0
Reply A = Result StoreError A × Store

-- `_save_or_restore`: on failure the memory becomes what `restore` makes of it.
unfoldable pub save_or_restore :
    {A : Type 0} → Env → A → Memories → (Memories → Memories) → Store → Reply A
save_or_restore env a changed restore s =
    if env.can_save
    then (ok a, record { memories = changed; disk = changed })
    else (err store_unavailable, record s { memories = restore changed })

-- `data.supersedes and data.supersedes not in self._memories`
abbrev pub names_missing : Option Text → Memories → Bool
names_missing none m = false
names_missing (some []) m = false
names_missing (some (c ∷ cs)) m = not (member (c ∷ cs) m)

-- Does the update expect a version other than the current one?
abbrev pub expects_other : Option ℕ → ℕ → Bool
expects_other none current = false
expects_other (some n) current = not (n == current)

module _ (h : Sha256) (g : Gate) (resolve : Resolver) where
  abbrev pub new_record : Env → MemoryCreate → MemoryRecord
  new_record env d = record {
    id = env.fresh_id;
    content = d.content;
    created_at = env.now;
    updated_at = env.now;
    source_agent = d.source_agent;
    session_id = d.session_id;
    type = d.type;
    confidence = d.confidence;
    evidence = d.evidence;
    supersedes = d.supersedes;
    status = d.status;
    subject = d.subject;
    tags = d.tags;
    version = 1;
    content_sha256 = content_sha256 h d.content;
  }

  abbrev missing_text : Option Text → Text
  missing_text none = []
  missing_text (some t) = t

  abbrev pub create_gated :
      Env → MemoryCreate → Store → Result (List Reason) (List Reason) → Reply MemoryRecord
  create_gated env d s (err reasons) = (err (clause_v_violation reasons), s)
  create_gated env d s (ok warnings) =
      if names_missing d.supersedes s.memories
      then (err (supersedes_missing (missing_text d.supersedes)), s)
      else save_or_restore env (new_record env d)
          (insert env.fresh_id (new_record env d) s.memories) (erase env.fresh_id) s

  abbrev pub create_checked : Env → MemoryCreate → Store → List LinkReason → Reply MemoryRecord
  create_checked env d s (r ∷ rs) = (err (evidence_invalid (r ∷ rs)), s)
  create_checked env d s [] = create_gated env d s (gate_create g d resolve)

  unfoldable pub create_memory : Env → MemoryCreate → Store → Reply MemoryRecord
  create_memory env d s = create_checked env d s (check_links resolve d.evidence)

  abbrev pub new_hash : Option Text → Text → Text
  new_hash none old = old
  new_hash (some content) old = content_sha256 h content

  abbrev pub updated_record : Env → MemoryRecord → MemoryUpdate → MemoryRecord
  updated_record env e u = record {
    id = e.id;
    content = pick u.content e.content;
    created_at = e.created_at;
    updated_at = env.now;
    source_agent = pick u.source_agent e.source_agent;
    session_id = pick u.session_id e.session_id;
    type = pick u.type e.type;
    confidence = pick u.confidence e.confidence;
    evidence = pick u.evidence e.evidence;
    supersedes = pick_subject u.supersedes e.supersedes;
    status = pick u.status e.status;
    subject = pick_subject u.subject e.subject;
    tags = pick u.tags e.tags;
    version = e.version + 1;
    content_sha256 = new_hash u.content e.content_sha256;
  }

  abbrev pub update_gated :
      Env
      → Text
      → MemoryRecord
      → MemoryUpdate
      → Store
      → Result (List Reason) (List Reason)
      → Reply (Option MemoryRecord)
  update_gated env id e u s (err reasons) = (err (clause_v_violation reasons), s)
  update_gated env id e u s (ok warnings) =
      if names_missing u.supersedes s.memories
      then (err (supersedes_missing (missing_text u.supersedes)), s)
      else save_or_restore env (some (updated_record env e u))
          (insert id (updated_record env e u) s.memories) (insert id e) s

  abbrev pub update_links : MemoryUpdate → List LinkReason
  update_links u = elim u.evidence [ none ↦ [] | some links ↦ check_links resolve links ]

  abbrev pub update_checked :
      Env
      → Text
      → MemoryRecord
      → MemoryUpdate
      → Store
      → List LinkReason
      → Reply (Option MemoryRecord)
  update_checked env id e u s (r ∷ rs) = (err (evidence_invalid (r ∷ rs)), s)
  update_checked env id e u s [] = update_gated env id e u s (gate_update g e u resolve)

  abbrev pub update_found :
      Env → Text → MemoryUpdate → Store → Option MemoryRecord → Reply (Option MemoryRecord)
  update_found env id u s none = (ok none, s)
  update_found env id u s (some e) =
      if expects_other u.expected_version e.version
      then (err version_conflict, s)
      else update_checked env id e u s (update_links u)

  unfoldable pub update_memory : Env → Text → MemoryUpdate → Store → Reply (Option MemoryRecord)
  update_memory env id u s = update_found env id u s (lookup id s.memories)

abbrev pub delete_found : Env → Text → Store → Option MemoryRecord → Reply Bool
delete_found env id s none = (ok false, s)
delete_found env id s (some removed) =
    save_or_restore env true (erase id s.memories) (insert id removed) s

unfoldable pub delete_memory : Env → Text → Store → Reply Bool
delete_memory env id s = delete_found env id s (lookup id s.memories)

unfoldable pub get_memory : Text → Store → Option MemoryRecord
get_memory id s = lookup id s.memories
