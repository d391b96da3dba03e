-- ===== src/Continuity.antt =====
-- app/continuity.py: content hashes, drift, and conflicts among the records of one subject.
use persistence_memory.Prelude.{
  text_eq, nat_eq, ℕ, Bool, true, false, not, ◌&&◌, Option, none, some, List, [], ◌∷◌, ◌++◌, map,
  leb, ◌==◌, if◌then◌else◌, contains, keep, length, is_space, strip, lower, Text, Dict, lookup,
  insert, sort, text_leb,
}
use persistence_memory.Hash.{Sha256, to_hex}
use persistence_memory.Models.{MemoryRecord, is_archived}

-- `re.sub(r"\s+", " ", text)`; the flag says that the character before was white space.
abbrev collapse : Bool → Text → Text
collapse b [] = []
collapse b (c ∷ cs) =
    let rest = collapse (is_space c) cs in
    if is_space c then (if b then rest else 32 ∷ rest) else c ∷ rest

unfoldable pub normalize_content : Text → Text
normalize_content text = collapse false (lower (strip text))

module _ (h : Sha256) where
  unfoldable pub content_sha256 : Text → Text
  content_sha256 text = to_hex (h.digest (normalize_content text))

  -- `r.content_sha256 or content_sha256(r.content)`
  abbrev pub or_computed : Text → Text → Text
  or_computed [] content = content_sha256 content
  or_computed (c ∷ cs) content = c ∷ cs

  unfoldable pub claim_hash : MemoryRecord → Text
  claim_hash r = or_computed r.content_sha256 r.content

  unfoldable pub ensure_content_hash : MemoryRecord → MemoryRecord
  ensure_content_hash r = record r { content_sha256 = claim_hash r }

  -- `drift_check(...)["match"]`
  unfoldable pub drift_match : Text → MemoryRecord → Bool
  drift_match original_content retrieved = content_sha256 original_content == claim_hash retrieved

abbrev pub active : MemoryRecord → Bool
active r = not (is_archived r.status)

abbrev pub ids : List MemoryRecord → List Text
ids = map (λ r. r.id)

-- The records that an active record of the set names in `supersedes`.
abbrev targets_of : List Text → MemoryRecord → Option Text → List Text
targets_of known r none = []
targets_of known r (some []) = []
targets_of known r (some (c ∷ cs)) =
    if contains (c ∷ cs) known && active r then (c ∷ cs) ∷ [] else []

abbrev pub superseded_targets : List Text → List MemoryRecord → List Text
superseded_targets known [] = []
superseded_targets known (r ∷ rs) = targets_of known r r.supersedes ++ superseded_targets known rs

unfoldable pub open_records : List MemoryRecord → List MemoryRecord
open_records group =
    let targets = superseded_targets (ids group) group in
    keep (λ r. active r && not (contains r.id targets)) group

pub record ConflictSet : Type 0 where
  pub subject : Text
  pub unresolved : Bool
  pub memories : List MemoryRecord

-- `groups.setdefault(rec.subject, []).append(rec)`
abbrev or_nil : Option (List MemoryRecord) → List MemoryRecord
or_nil none = []
or_nil (some rs) = rs

abbrev wanted : Option Text → Text → Bool
wanted none s = true
wanted (some subject) s = s == subject

abbrev pub Groups : Type 0
Groups = Dict Text (List MemoryRecord)

abbrev add_to : Option Text → MemoryRecord → Option Text → Groups → Groups
add_to subject r none groups = groups
add_to subject r (some []) groups = groups
add_to subject r (some (c ∷ cs)) groups =
    if wanted subject (c ∷ cs)
    then insert (c ∷ cs) (or_nil (lookup (c ∷ cs) groups) ++ r ∷ []) groups
    else groups

unfoldable pub group_loop : Option Text → List MemoryRecord → Groups → Groups
group_loop subject [] groups = groups
group_loop subject (r ∷ rs) groups = group_loop subject rs (add_to subject r r.subject groups)

-- `len(hashes)` of a set.
abbrev pub distinct : List Text → List Text
distinct [] = []
distinct (t ∷ ts) = let rest = distinct ts in if contains t ts then rest else t ∷ rest

abbrev by_created_at : MemoryRecord → MemoryRecord → Bool
by_created_at a b = text_leb a.created_at b.created_at

abbrev pub conflict_of : Text → List MemoryRecord → ℕ → List ConflictSet
conflict_of subject recs hashes =
    if leb 2 (length recs) && leb 2 hashes
    then record { subject = subject; unresolved = true; memories = sort by_created_at recs } ∷ []
    else if leb 2 (length recs) && hashes == 1
    then record { subject = subject; unresolved = false; memories = sort by_created_at recs } ∷ []
    else []

abbrev by_subject : Text × List MemoryRecord → Text × List MemoryRecord → Bool
by_subject (s, _) (t, _) = text_leb s t

module _ (h : Sha256) where
  unfoldable pub conflicts_in : Groups → List ConflictSet
  conflicts_in [] = []
  conflicts_in ((subject, group) ∷ groups) =
      let recs = open_records group in
      conflict_of subject recs (length (distinct (map (claim_hash h) recs))) ++ conflicts_in groups

  unfoldable pub detect_conflicts : List MemoryRecord → Option Text → List ConflictSet
  detect_conflicts records subject = conflicts_in (sort by_subject (group_loop subject records []))
