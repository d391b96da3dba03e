-- ===== src/Evidence.antt =====
-- app/evidence.py: links from records to Evidence Objects.
use persistence_memory.Prelude.{
  text_eq, nat_eq, Bool, false, ◌&&◌, Option, none, some, List, [], ◌∷◌, ◌++◌, ◌==◌, if◌then◌else◌,
  Text, codes, strip, lower, Result, ok, err,
}
use persistence_memory.Hash.{is_hex64}
use persistence_memory.Models.{EvidenceLink}

pub record EvidenceInfo : Type 0 where
  pub id : Text
  pub schema_id : Text

-- The reasons of an `EvidenceError`, by their codes, with the ref.
pub data LinkReason : Type 0 where
  unresolved hash_mismatch : Text → LinkReason

-- A resolver returns what a link resolved to, nothing, or raises with its reasons.
abbrev pub Resolver : Type 0
Resolver = Text → Result (List LinkReason) (Option EvidenceInfo)

abbrev pub link_kind : EvidenceLink → Text
link_kind link = lower (strip link.kind)

abbrev pub link_ref : EvidenceLink → Text
link_ref link = strip link.ref

abbrev pub object_kind : Text
object_kind = codes "evidence-object"

abbrev pub ces_fact : Text
ces_fact = codes "CES.Local.FactEvidence.v1"

abbrev after_prefix : Text → Text → Option Text
after_prefix [] t = some t
after_prefix (p ∷ ps) [] = none
after_prefix (p ∷ ps) (c ∷ cs) = if p == c then after_prefix ps cs else none

abbrev is_rest_hex64 : Option Text → Bool
is_rest_hex64 none = false
is_rest_hex64 (some t) = is_hex64 t

-- `ID_RE.match(ref)`
unfoldable pub is_object_id : Text → Bool
is_object_id ref = is_rest_hex64 (after_prefix (codes "eo:sha256:") ref)

abbrev pub resolved_reasons :
    Text → Result (List LinkReason) (Option EvidenceInfo) → List LinkReason
resolved_reasons ref (err []) = unresolved ref ∷ []
resolved_reasons ref (err (r ∷ rs)) = r ∷ rs
resolved_reasons ref (ok none) = unresolved ref ∷ []
resolved_reasons ref (ok (some info)) = []

abbrev pub link_reasons : Resolver → EvidenceLink → List LinkReason
link_reasons resolve link =
    if link_kind link == object_kind
    then (if is_object_id (link_ref link)
        then resolved_reasons (link_ref link) (resolve (link_ref link))
        else unresolved (link_ref link) ∷ [])
    else []

-- The reasons for which `check_links` raises; none, and it returns.
unfoldable pub check_links : Resolver → List EvidenceLink → List LinkReason
check_links resolve [] = []
check_links resolve (link ∷ links) = link_reasons resolve link ++ check_links resolve links

abbrev is_fact_info : Result (List LinkReason) (Option EvidenceInfo) → Bool
is_fact_info (err rs) = false
is_fact_info (ok none) = false
is_fact_info (ok (some info)) = info.schema_id == ces_fact

unfoldable pub counts_as_fact_evidence : Resolver → EvidenceLink → Bool
counts_as_fact_evidence resolve link =
    link_kind link == object_kind && is_fact_info (resolve (link_ref link))
