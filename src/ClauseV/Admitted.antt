-- ===== src/ClauseV/Admitted.antt =====
-- What the gate guarantees of the records that it lets through.
use persistence_memory.Prelude.{◌≡◌, refl, Bool, true, not, Option, List, [], ◌∷◌, Text, ok}
use persistence_memory.Models.{
  MemoryType, EvidenceLink, MemoryCreate, MemoryUpdate, MemoryRecord, MemoryStatus, draft, verified,
  archived, is_verified, is_archived,
}
use persistence_memory.Evidence.{Resolver}
use persistence_memory.ClauseV.{
  Gate, Reason, SoftMode, warn, enforce, off, judged, judge, hard_enforced, soft_mode, soft_found,
  soft_reasons, hard_reasons, gate_create, gate_update, pick, admits,
}

judged-ok : (m : SoftMode) (hard soft w : List Reason) → judged m hard soft ≡ ok w → hard ≡ []
judged-ok warn [] soft w e = refl
judged-ok warn (r ∷ rs) soft w e = absurd (cc)
judged-ok off [] soft w e = refl
judged-ok off (r ∷ rs) soft w e = absurd (cc)
judged-ok enforce [] soft w e = refl
judged-ok enforce (r ∷ rs) soft w e = absurd (cc)

judge-ok :
    (g : Gate) (check_hard check_soft : Bool) (type : MemoryType) (content : Text)
    (subject : Option Text) (tags : List Text) (evidence : List EvidenceLink) (resolve : Resolver)
    (w : List Reason)
    → hard_enforced g.hard ≡ true
    → check_hard ≡ true
    → judge g check_hard check_soft type content subject tags evidence resolve ≡ ok w
    → hard_reasons type evidence resolve ≡ []
unfolding judge
judge-ok g check_hard check_soft type content subject tags evidence resolve w on checks e =
    judged-ok (soft_mode g.soft) (hard_reasons type evidence resolve)
      (soft_found (soft_mode g.soft) check_soft (soft_reasons g.rules content subject tags)) w
      (rw (on, checks) at e)

pub gate_create-ok :
    (g : Gate) (d : MemoryCreate) (resolve : Resolver) (w : List Reason)
    → hard_enforced g.hard ≡ true
    → gate_create g d resolve ≡ ok w
    → hard_reasons d.type d.evidence resolve ≡ []
unfolding gate_create
gate_create-ok g d resolve w on e =
    judge-ok g true true d.type d.content d.subject d.tags d.evidence resolve w on refl e

verified_live : (s : MemoryStatus) → is_verified s ≡ true → not (is_archived s) ≡ true
verified_live draft v = refl
verified_live verified v = refl
verified_live archived v = absurd (cc)

pub gate_update-ok :
    (g : Gate) (e : MemoryRecord) (u : MemoryUpdate) (resolve : Resolver) (w : List Reason)
    → hard_enforced g.hard ≡ true
    → is_verified (pick u.status e.status) ≡ true
    → gate_update g e u resolve ≡ ok w
    → hard_reasons (pick u.type e.type) (pick u.evidence e.evidence) resolve ≡ []
unfolding gate_update admits
gate_update-ok g e u resolve w on v passed =
    judge-ok g _ _ (pick u.type e.type) _ _ _ (pick u.evidence e.evidence) resolve w on
      (rw (v, verified_live (pick u.status e.status) v) refl) passed
