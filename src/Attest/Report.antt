-- ===== src/Attest/Report.antt =====
-- app/attest.py, `verify_tenant` and `signature_report`: what a tenant's signatures, or those of one
-- block and one receipt, come to in each mode.
use persistence_memory.Prelude.{
  ℕ, Bool, true, false, not, ◌&&◌, Option, none, some, List, [], ◌∷◌, ◌++◌, map, keep, contains,
  length, ltb, if◌then◌else◌, when, Text, codes, show, text_eq, nat_eq, ◌==◌, Dict, lookup, member,
}
use persistence_memory.Attest.Wire.{Crypto, PublicKey}
use persistence_memory.Attest.Trust.{Statement, TrustState, TrustProblem, evaluate_trust}
use persistence_memory.Attest.Log.{Attestation, Truth, LogProblem, Summary}
use persistence_memory.Attest.Evaluate.{evaluate_attestations, attestation_level}

-- `JARVIS_SIGNATURES`
pub data Mode : Type 0 where
  off warn require : Mode

abbrev pub is_required : Mode → Bool
is_required require = true
is_required _ = false

-- What a report can say, as a problem or as a warning.
pub data Remark : Type 0 where
  no_root : Remark
  trust_problem : ℕ → TrustProblem → Remark
  log_problem : ℕ → LogProblem → Remark
  cosign_problem : ℕ → Remark
  unsigned_block : ℕ → Remark
  unsigned_receipt : Text → Remark
  other_problems : ℕ → Remark
  other_block_hash : ℕ → Remark
  block_not_signed : ℕ → Remark

pub record Remarks : Type 0 where
  pub problems : List Remark
  pub warnings : List Remark

-- A problem in `require` mode, else a warning.
abbrev pub remark : Mode → List Remark → Remarks → Remarks
remark require rs r = record r { problems = r.problems ++ rs }
remark _ rs r = record r { warnings = r.warnings ++ rs }

abbrev pub silent : Remarks
silent = record { problems = []; warnings = [] }

abbrev pub nothing {ℓ} : {A : Type ℓ} → List A → Bool
nothing [] = true
nothing (x ∷ xs) = false

abbrev pub cosigned_problems : List ℕ → List Remark
cosigned_problems = map cosign_problem

-- The problems of the trust log, of the attestations and of the cosignatures.
unfoldable pub log_remarks : TrustState → List (ℕ × LogProblem) × List ℕ × Summary → List Remark
log_remarks trust (problems, bad, summary) =
    map (λ p. trust_problem p.0 p.1) trust.problems
    ++ (map (λ p. log_problem p.0 p.1) problems ++ cosigned_problems bad)

-- The blocks and receipts without a valid attestation, older than the grace period. Ages are in
-- seconds.
unfoldable pub late_blocks : ℕ → Summary → List (ℕ × ℕ) → List Remark
late_blocks grace s [] = []
late_blocks grace s ((height, age) ∷ blocks) =
    when (not (member height s.block_seq) && ltb grace age) (unsigned_block height)
    ++ late_blocks grace s blocks

unfoldable pub late_receipts : ℕ → Summary → List (Text × ℕ) → List Remark
late_receipts grace s [] = []
late_receipts grace s ((id, age) ∷ receipts) =
    when (not (member id s.receipt_seq) && ltb grace age) (unsigned_receipt id)
    ++ late_receipts grace s receipts

-- A part of a report: the block or the receipt.
pub record Part : Type 0 where
  pub attestation_seq : Option ℕ
  pub level : ℕ

pub record SignatureReport : Type 0 where
  pub is_verified : Bool
  pub level : Option ℕ
  pub block : Option Part
  pub receipt : Option Part
  pub remarks : Remarks

abbrev pub unsigned_part : Part
unsigned_part = record { attestation_seq = none; level = 0 }

-- `min(..., default=0)` over the parts.
abbrev pub lowest : Option Part → Option Part → ℕ
lowest none none = 0
lowest (some b) none = b.level
lowest none (some r) = r.level
lowest (some b) (some r) = if ltb r.level b.level then r.level else b.level

-- What is asked about: a block by its height, with its hash if there is one, and a receipt.
pub record Asked : Type 0 where
  pub block : Option (ℕ × Option Text)
  pub receipt : Option Text

abbrev pub wanted_block : Option (ℕ × Option Text) → List Text
wanted_block none = []
wanted_block (some (height, hash)) = (codes "block:" ++ show height) ∷ []

abbrev pub wanted_receipt : Option Text → List Text
wanted_receipt none = []
wanted_receipt (some id) = id ∷ []

-- `{a.signer_seq: a.subject for a in attestations}`
unfoldable pub subject_of : List Attestation → ℕ → Option Text
subject_of [] n = none
subject_of (a ∷ rows) n =
    let behind = subject_of rows n in
    elim behind as (λ _. Option Text) [
      | none ↦ if a.signer_seq == n then some a.subject else none
      | some subject ↦ some subject
    ]

abbrev pub is_wanted : List Text → Option Text → Bool
is_wanted wanted none = false
is_wanted wanted (some subject) = contains subject wanted

-- The number at the end of a problem's subject, which is a `signer_seq` or, of a cosignature, a
-- `stmt_seq`.
abbrev pub number_of : Remark → ℕ
number_of (log_problem n p) = n
number_of (cosign_problem n) = n
number_of _ = 0

abbrev pub is_mine : List Text → List Attestation → Remark → Bool
is_mine wanted rows r = is_wanted wanted (subject_of rows (number_of r))

abbrev pub if_others : Mode → List Remark → Remarks → Remarks
if_others mode [] r = r
if_others mode (o ∷ os) r = remark mode (other_problems (length (o ∷ os)) ∷ []) r

-- The problems of the logs: those of the subjects asked about, and the count of all others.
unfoldable pub sort_problems :
    Mode
    → List Text
    → List Attestation
    → TrustState
    → List (ℕ × LogProblem) × List ℕ × Summary
    → Remarks
sort_problems mode wanted rows trust (problems, bad, summary) =
    let found : List Remark = map (λ p. log_problem p.0 p.1) problems ++ cosigned_problems bad in
    if_others mode
      (keep (λ r. not (is_mine wanted rows r)) found
        ++ map (λ p. trust_problem p.0 p.1) trust.problems)
      (record { problems = keep (is_mine wanted rows) found; warnings = [] })

abbrev pub names_other : Option Text → Option Text → Bool
names_other attested none = false
names_other none (some hash) = true
names_other (some attested) (some hash) = not (attested == hash)

abbrev pub seq_or_other : ℕ → Option Text → Option Text → Option ℕ → Option ℕ × List Remark
seq_or_other height attested hash none = (none, [])
seq_or_other height attested hash (some n) =
    if names_other attested hash then (none, other_block_hash height ∷ []) else (some n, [])

-- The block's part, and whether its attestation names another hash.
unfoldable pub block_part : Summary → Option (ℕ × Option Text) → Option Part × List Remark
block_part s none = (none, [])
block_part s (some (height, hash)) =
    let (seq, remarks) =
      seq_or_other height (lookup height s.block_subject_hash) hash (lookup height s.block_seq) in
    (some (record { attestation_seq = seq; level = attestation_level s seq }), remarks)

unfoldable pub receipt_part : Summary → Option Text → Option Part
receipt_part s none = none
receipt_part s (some id) = some (record {
  attestation_seq = lookup id s.receipt_seq;
  level = attestation_level s (lookup id s.receipt_seq);
})

unfoldable pub unsigned_of : Asked → Option Part → Option Part → List Remark
unsigned_of asked b r = of_block asked.block b ++ of_receipt asked.receipt r
  where
    of_block : Option (ℕ × Option Text) → Option Part → List Remark
    of_block (some (height, hash)) (some part) = when (part.level == 0) (unsigned_block height)
    of_block _ _ = []

    of_receipt : Option Text → Option Part → List Remark
    of_receipt (some id) (some part) = when (part.level == 0) (unsigned_receipt id)
    of_receipt _ _ = []

-- The receipt is only as signed as its block.
unfoldable pub block_behind : Asked → Option Part → Option Part → List Remark
block_behind asked (some b) (some r) =
    when (not (r.level == 0) && b.level == 0) (block_not_signed (height_of asked.block))
  where
    height_of : Option (ℕ × Option Text) → ℕ
    height_of none = 0
    height_of (some (height, hash)) = height
block_behind asked _ _ = []

abbrev pub finish : Bool → Option Part → Option Part → Remarks → SignatureReport
finish verified b r remarks = record {
  is_verified = verified;
  level = some (lowest b r);
  block = b;
  receipt = r;
  remarks = remarks;
}

abbrev pub add_problems : List Remark → Remarks → Remarks
add_problems more r = record r { problems = r.problems ++ more }

unfoldable pub part_remarks :
    Mode → Asked → Option Part × List Remark → Option Part → Remarks → SignatureReport
part_remarks mode asked (b, other) r remarks =
    finish true b r
      (remark mode (unsigned_of asked b r ++ block_behind asked b r) (add_problems other remarks))

abbrev pub no_part {ℓ} : {A : Type ℓ} → Option A → Option Part
no_part none = none
no_part (some a) = some unsigned_part

module _ (c : Crypto) (tenant : Text) (roots : Dict Text PublicKey) (truth : Truth) where
  unfoldable pub verify_logs :
      Mode → ℕ → List Attestation → List (ℕ × ℕ) → List (Text × ℕ) → TrustState → Remarks
  verify_logs mode grace attestations blocks receipts trust =
      let evaluated = evaluate_attestations c tenant trust truth attestations in
      let found : Remarks = record { problems = log_remarks trust evaluated; warnings = [] } in
      if nothing trust.keys
      then found
      else remark mode
          (late_blocks grace evaluated.2 blocks ++ late_receipts grace evaluated.2 receipts) found

  -- `verify_tenant`
  unfoldable pub verify_tenant :
      Mode → ℕ → List Statement → List Attestation → List (ℕ × ℕ) → List (Text × ℕ) → Remarks
  verify_tenant off grace statements attestations blocks receipts = silent
  verify_tenant mode grace statements attestations blocks receipts =
      if nothing statements && nothing attestations
      then silent
      else if nothing roots
      then remark mode (no_root ∷ []) silent
      else verify_logs mode grace attestations blocks receipts
          (evaluate_trust c tenant roots statements)

  unfoldable pub report_logs : Mode → Asked → List Attestation → TrustState → SignatureReport
  report_logs mode asked rows trust =
      let evaluated = evaluate_attestations c tenant trust truth rows in
      part_remarks mode asked (block_part evaluated.2 asked.block)
        (receipt_part evaluated.2 asked.receipt)
        (sort_problems mode (wanted_block asked.block ++ wanted_receipt asked.receipt) rows trust
          evaluated)

  -- `signature_report`
  unfoldable pub signature_report :
      Mode → Asked → List Statement → List Attestation → SignatureReport
  signature_report off asked statements rows = record {
    is_verified = false;
    level = none;
    block = none;
    receipt = none;
    remarks = silent;
  }
  signature_report mode asked statements rows =
      let b = no_part asked.block in
      let r = no_part asked.receipt in
      if nothing roots
      then finish false b r (remark mode (no_root ∷ []) silent)
      else if nothing statements && nothing rows
      then finish true b r (remark mode (unsigned_of asked b r) silent)
      else report_logs mode asked rows (evaluate_trust c tenant roots statements)
