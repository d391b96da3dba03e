-- ===== src/Models.antt =====
-- app/models.py: the records of the Continuity Ledger. A confidence is only stored and passed on,
-- so it is an opaque number here; timestamps are the stored texts.
use persistence_memory.Prelude.{ℕ, Bool, true, false, Option, List, Text, codes}

pub data MemoryType : Type 0 where
  decision fact task preference architecture research external_context : MemoryType

pub data MemoryStatus : Type 0 where
  draft verified archived : MemoryStatus

pub record EvidenceLink : Type 0 where
  pub kind : Text
  pub ref : Text
  pub note : Text

pub record MemoryCreate : Type 0 where
  pub content : Text
  pub source_agent : Text
  pub session_id : Text
  pub type : MemoryType
  pub confidence : ℕ
  pub evidence : List EvidenceLink
  pub supersedes : Option Text
  pub status : MemoryStatus
  pub subject : Option Text
  pub tags : List Text

pub record MemoryUpdate : Type 0 where
  pub content : Option Text
  pub source_agent : Option Text
  pub session_id : Option Text
  pub type : Option MemoryType
  pub confidence : Option ℕ
  pub evidence : Option (List EvidenceLink)
  pub supersedes : Option Text
  pub status : Option MemoryStatus
  pub subject : Option Text
  pub tags : Option (List Text)
  pub expected_version : Option ℕ

pub record MemoryRecord : Type 0 where
  pub id : Text
  pub content : Text
  pub created_at : Text
  pub updated_at : Text
  pub source_agent : Text
  pub session_id : Text
  pub type : MemoryType
  pub confidence : ℕ
  pub evidence : List EvidenceLink
  pub supersedes : Option Text
  pub status : MemoryStatus
  pub subject : Option Text
  pub tags : List Text
  pub version : ℕ
  pub content_sha256 : Text

-- The literals on the wire.
abbrev pub type_name : MemoryType → Text
type_name decision = codes "decision"
type_name fact = codes "fact"
type_name task = codes "task"
type_name preference = codes "preference"
type_name architecture = codes "architecture"
type_name research = codes "research"
type_name external_context = codes "external_context"

abbrev pub status_name : MemoryStatus → Text
status_name draft = codes "draft"
status_name verified = codes "verified"
status_name archived = codes "archived"

abbrev pub is_archived : MemoryStatus → Bool
is_archived archived = true
is_archived _ = false

abbrev pub is_verified : MemoryStatus → Bool
is_verified verified = true
is_verified _ = false

abbrev pub same_type : MemoryType → MemoryType → Bool
same_type decision decision = true
same_type fact fact = true
same_type task task = true
same_type preference preference = true
same_type architecture architecture = true
same_type research research = true
same_type external_context external_context = true
same_type _ _ = false
