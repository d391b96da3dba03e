-- ===== src/ClauseV.antt =====
-- app/clause_v.py: the write-side gate of the ledger.
pub mod Admitted
use persistence_memory.Prelude.{
  text_eq, nat_eq, Bool, true, false, not, ◌&&◌, ◌||◌, Option, none, some, List, [], ◌∷◌, ◌++◌, any,
  ◌==◌, if◌then◌else◌, contains, when, Text, codes, strip, lower, Result, ok, err,
}
use persistence_memory.Models.{
  MemoryType, decision, fact, task, preference, architecture, research, external_context,
  MemoryStatus, EvidenceLink, MemoryCreate, MemoryUpdate, MemoryRecord, is_archived, is_verified,
  same_type,
}
use persistence_memory.Evidence.{Resolver, counts_as_fact_evidence}

-- The codes of the reasons.
pub data Reason : Type 0 where
  clause_v_preference clause_v_transient_state clause_v_external_context : Reason
  clause_v_evidence_required clause_v_emotion clause_v_transcript_dump : Reason

-- The three regular expressions, as tests on the text that each is searched in.
pub record SoftRules : Type 0 where
  pub emotion : Text → Bool
  pub transient : Text → Bool
  pub transcript : Text → Bool

pub data SoftMode : Type 0 where
  warn enforce off : SoftMode

-- `JARVIS_CLAUSE_V` and `JARVIS_CLAUSE_V_SOFT`, as the environment gives them.
abbrev or_empty : Option Text → Text
or_empty none = []
or_empty (some t) = t

-- Is the gate on? Anything but `off` means that it is.
unfoldable pub hard_enforced : Option Text → Bool
hard_enforced value = not (lower (strip (or_empty value)) == codes "off")

unfoldable pub soft_mode : Option Text → SoftMode
soft_mode value =
    let v = lower (strip (or_empty value)) in
    if v == codes "enforce" then enforce else if v == codes "off" then off else warn

abbrev pub evidence_kinds : List Text
evidence_kinds =
    codes "file"
    ∷ codes "url"
    ∷ codes "commit"
    ∷ codes "test"
    ∷ codes "receipt"
    ∷ codes "command"
    ∷ codes "document"
    ∷ codes "doc"
    ∷ codes "issue"
    ∷ codes "pr"
    ∷ codes "log"
    ∷ []

abbrev pub nonblank : Text → Bool
nonblank t = elim (strip t) [ [] ↦ false | _ ∷ _ ↦ true ]

abbrev pub has_ref : EvidenceLink → Bool
has_ref e = nonblank e.ref

abbrev pub is_checkable : EvidenceLink → Bool
is_checkable e = contains (lower (strip e.kind)) evidence_kinds && nonblank e.ref

-- Is there evidence of the kind that the type needs?
unfoldable pub has_evidence : MemoryType → List EvidenceLink → Resolver → Bool
has_evidence decision links resolve = any has_ref links
has_evidence _ links resolve = any is_checkable links || any (counts_as_fact_evidence resolve) links

-- The reason on account of the type. The type of the model has no other value, so
-- `clause_v_type_not_allowed` is never given.
unfoldable pub type_reasons : MemoryType → List Reason
type_reasons preference = clause_v_preference ∷ []
type_reasons task = clause_v_transient_state ∷ []
type_reasons external_context = clause_v_external_context ∷ []
type_reasons decision = []
type_reasons architecture = []
type_reasons research = []
type_reasons fact = []

unfoldable pub hard_reasons : MemoryType → List EvidenceLink → Resolver → List Reason
hard_reasons type links resolve =
    type_reasons type ++ when (not (has_evidence type links resolve)) clause_v_evidence_required

abbrev pub joined : List Text → Text
joined [] = []
joined (t ∷ []) = t
joined (t ∷ u ∷ ts) = t ++ 32 ∷ joined (u ∷ ts)

unfoldable pub soft_reasons : SoftRules → Text → Option Text → List Text → List Reason
soft_reasons rules content subject tags =
    when (rules.emotion (joined (content ∷ or_empty subject ∷ joined tags ∷ []))) clause_v_emotion
    ++ (when (rules.transient content) clause_v_transient_state
        ++ when (rules.transcript content) clause_v_transcript_dump)

-- The deployment: its two settings and the rules.
pub record Gate : Type 0 where
  pub hard : Option Text
  pub soft : Option Text
  pub rules : SoftRules

-- A refusal with its reasons, or the warnings that are left behind.
abbrev pub Verdict : Type 0
Verdict = Result (List Reason) (List Reason)

abbrev refuse_or : List Reason → List Reason → Verdict
refuse_or [] warnings = ok warnings
refuse_or (r ∷ rs) warnings = err (r ∷ rs)

abbrev pub judged : SoftMode → List Reason → List Reason → Verdict
judged enforce hard soft = refuse_or (hard ++ soft) []
judged _ hard soft = refuse_or hard soft

abbrev pub soft_found : SoftMode → Bool → List Reason → List Reason
soft_found off check found = []
soft_found _ check found = if check then found else []

unfoldable pub judge :
    Gate
    → Bool
    → Bool
    → MemoryType
    → Text
    → Option Text
    → List Text
    → List EvidenceLink
    → Resolver
    → Verdict
judge g check_hard check_soft type content subject tags evidence resolve =
    if hard_enforced g.hard
    then judged (soft_mode g.soft) (if check_hard then hard_reasons type evidence resolve else [])
        (soft_found (soft_mode g.soft) check_soft (soft_reasons g.rules content subject tags))
    else ok []

unfoldable pub gate_create : Gate → MemoryCreate → Resolver → Verdict
gate_create g d resolve = judge g true true d.type d.content d.subject d.tags d.evidence resolve

-- `pick(name)`
abbrev pub pick {ℓ} : {A : Type ℓ} → Option A → A → A
pick none old = old
pick (some new) old = new

abbrev pub pick_subject : Option Text → Option Text → Option Text
pick_subject none old = old
pick_subject (some new) old = some new

abbrev is_given {ℓ} : {A : Type ℓ} → Option A → Bool
is_given none = false
is_given (some a) = true

abbrev changes_type : Option MemoryType → MemoryType → Bool
changes_type none old = false
changes_type (some new) old = not (same_type new old)

-- Could the update admit something to the constitutional path?
unfoldable pub admits : MemoryRecord → MemoryUpdate → Bool
admits existing u =
    is_verified (pick u.status existing.status)
    || (changes_type u.type existing.type
        || (is_given u.evidence
            || is_archived existing.status && not (is_archived (pick u.status existing.status))))

abbrev text_changed : MemoryUpdate → Bool
text_changed u = is_given u.content || (is_given u.subject || is_given u.tags)

unfoldable pub gate_update : Gate → MemoryRecord → MemoryUpdate → Resolver → Verdict
gate_update g existing u resolve =
    let live = not (is_archived (pick u.status existing.status)) in
    judge g (admits existing u && live) (text_changed u && live) (pick u.type existing.type)
      (pick u.content existing.content) (pick_subject u.subject existing.subject)
      (pick u.tags existing.tags) (pick u.evidence existing.evidence) resolve
