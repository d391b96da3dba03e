-- ===== src/Attest/Demanded.antt =====
-- What a report without problems means, where signatures are required.
use persistence_memory.Prelude.{
  ℕ, ◌≡◌, refl, sym, ◌∙◌, inl, inr, Bool, false, not, ◌&&◌, Option, none, some, List, [], ◌∷◌, ◌++◌,
  map, keep, Bool-cases, append-nil_iff, Text, Dict, lookup, nat_eq, text_eq, arith,
}
use persistence_memory.Attest.Wire.{Crypto, PublicKey}
use persistence_memory.Attest.Trust.{Statement, TrustState, evaluate_trust}
use persistence_memory.Attest.Log.{Attestation, Truth, LogProblem, Summary}
use persistence_memory.Attest.Evaluate.{evaluate_attestations, attestation_level}
use persistence_memory.Attest.Evaluate.Vouched.{
  BlockSigned, evaluate_attestations-BlockSigned, evaluate_attestations-real,
}
use persistence_memory.Attest.Report.{
  require, Remark, Remarks, nothing, Part, SignatureReport, Asked, no_part, is_mine, if_others,
  sort_problems, cosigned_problems, names_other, block_part, unsigned_of, part_remarks, report_logs,
  signature_report,
}

keep-both-nil :
    (p : Remark → Bool) (rs : List Remark)
    → keep p rs ≡ []
    → keep (λ r. not (p r)) rs ≡ []
    → rs ≡ []
keep-both-nil p [] yes_ no_ = refl
keep-both-nil p (r ∷ rs) yes_ no_ = elim (Bool-cases (p r)) [
  | inl goes ↦ absurd (let gone : r ∷ keep p rs ≡ [] = rw goes at yes_ in cc)
  | inr stays ↦ absurd (let gone : r ∷ keep (λ r. not (p r)) rs ≡ [] = rw stays at no_ in cc)
]

pub map-nil : {A : Type 0} (f : A → Remark) (xs : List A) → map f xs ≡ [] → xs ≡ []
map-nil f [] same = refl
map-nil f (x ∷ xs) same = absurd (cc)

if_others-nil :
    (others : List Remark) (r : Remarks)
    → (if_others require others r).problems ≡ []
    → (others ≡ []) × (r.problems ≡ [])
if_others-nil [] r same = (refl, same)
if_others-nil (o ∷ os) r same = absurd (let both = (append-nil_iff r.problems _).0 same in cc)

-- No problem in the trust log, in an attestation or in a cosignature.
record Clean (trust : TrustState) (evaluated : List (ℕ × LogProblem) × List ℕ × Summary)
    : Type 0 where
  attestations : evaluated.0 ≡ []
  cosignatures : evaluated.1 ≡ []
  statements : trust.problems ≡ []

sort_problems-Clean :
    (wanted : List Text) (rows : List Attestation) (trust : TrustState)
    (evaluated : List (ℕ × LogProblem) × List ℕ × Summary)
    → (sort_problems require wanted rows trust evaluated).problems ≡ []
    → Clean trust evaluated
unfolding sort_problems
sort_problems-Clean wanted rows trust (problems, bad, summary) none_ =
    let (others, mine) = if_others-nil _ _ none_ in
    let (elsewhere, in_trust) =
      (append-nil_iff (keep (λ r. not (is_mine wanted rows r)) found) _).0 others in
    let (logged, cosigned) =
      (append-nil_iff (map log_remark problems) (cosigned_problems bad)).0
        (keep-both-nil (is_mine wanted rows) found mine elsewhere) in
    record {
      attestations = map-nil log_remark problems logged;
      cosignatures = map-nil Remark.cosign_problem bad cosigned;
      statements = map-nil (λ p. Remark.trust_problem p.0 p.1) trust.problems in_trust;
    }
  where
    log_remark : ℕ × LogProblem → Remark
    log_remark p = Remark.log_problem p.0 p.1

    found : List Remark
    found = map log_remark problems ++ cosigned_problems bad

pub not_empty : (r : Remark) (rs : List Remark) → r ∷ rs ≡ [] → ⊥
not_empty r rs same = cc

-- The block's part names an attestation with the hash that was asked about.
record BlockPart (s : Summary) (height : ℕ) (hash : Text) : Type 0 where
  seq : ℕ
  attested : lookup height s.block_seq ≡ some seq
  same_hash : lookup height s.block_subject_hash ≡ some hash
  part :
      (block_part s (some (height, some hash))).0
      ≡ some (record { attestation_seq = some seq; level = attestation_level s (some seq) })

some_injective : {x y : Text} → some x ≡ some y → x ≡ y
some_injective e = cc

same_name : (o : Option Text) (hash : Text) → names_other o (some hash) ≡ false → o ≡ some hash
same_name none hash same = absurd (cc)
same_name (some t) hash same = ground (arith, text_eq.equal_iff t hash)

block_part-BlockPart :
    (s : Summary) (height : ℕ) (hash : Text) (receipt : Option Text) (r : Option Part)
    → (block_part s (some (height, some hash))).1 ≡ []
    → unsigned_of
        (record { block = some (height, some hash); receipt = receipt })
        (block_part s (some (height, some hash))).0
        r
      ≡ []
    → BlockPart s height hash
unfolding block_part unsigned_of attestation_level
block_part-BlockPart s height hash receipt r no_other signed = by (lookup height s.block_seq) refl
  where
    by : (o : Option ℕ) → lookup height s.block_seq ≡ o → BlockPart s height hash
    by none there = absurd (not_empty _ _ (rw there at signed))
    by (some n) there =
        elim (Bool-cases (names_other (lookup height s.block_subject_hash) (some hash))) [
          | inl other ↦ absurd (not_empty _ _ (rw (there, other) at no_other))
          | inr same ↦ record {
            seq = n;
            attested = there;
            same_hash = same_name (lookup height s.block_subject_hash) hash same;
            part = rw (there, same) refl;
          }
        ]

module _ (c : Crypto) (tenant : Text) (roots : Dict Text PublicKey) (truth : Truth)
    (statements : List Statement) (rows : List Attestation) where
  abbrev pub trust : TrustState
  trust = evaluate_trust c tenant roots statements

  abbrev pub evaluated : List (ℕ × LogProblem) × List ℕ × Summary
  evaluated = evaluate_attestations c tenant trust truth rows

  -- The block is signed under the hash that was asked about, and the logs have no problem at all.
  pub record SignedAs (report : SignatureReport) (height : ℕ) (hash : Text) : Type 0 where
    pub seq : ℕ
    pub is_signed : BlockSigned c tenant trust truth rows height seq
    pub same_hash : is_signed.row.subject_hash ≡ hash
    pub part :
        report.block
        ≡ some (record {
          attestation_seq = some seq;
          level = attestation_level evaluated.2 (some seq);
        })
    pub no_attestation_problem : evaluated.0 ≡ []
    pub no_cosignature_problem : evaluated.1 ≡ []
    pub no_statement_problem : trust.problems ≡ []

  -- Where signatures are required, a report on a block that states no problem means that the block is
  -- signed: the attestation log holds a row for it, over the hash that was asked about, that verifies
  -- under a key which the trust log authorizes at that row; and neither log has any problem.
  pub signature_report-SignedAs :
      (height : ℕ) (hash : Text) (receipt : Option Text)
      → (signature_report c tenant roots truth require
          (record { block = some (height, some hash); receipt = receipt })
          statements
          rows).remarks.problems
        ≡ []
      → SignedAs
          (signature_report c tenant roots truth require
            (record { block = some (height, some hash); receipt = receipt })
            statements
            rows)
          height
          hash
  unfolding signature_report report_logs part_remarks unsigned_of
  signature_report-SignedAs height hash receipt none_ = elim (Bool-cases (nothing roots)) [
    | inl rootless ↦ absurd (not_empty _ _ (rw rootless at none_))
    | inr rooted ↦ elim (Bool-cases (nothing statements && nothing rows)) [
      | inl empty ↦ absurd (unsigned_now (rw (rooted, empty) at none_))
      | inr logged ↦ rw (rooted, logged) (signed (rw (rooted, logged) at none_))
    ]
  ]
    where
      asked : Asked
      asked = record { block = some (height, some hash); receipt = receipt }

      unsigned_now : unsigned_of asked (no_part asked.block) (no_part asked.receipt) ≡ [] → ⊥
      unsigned_now same = not_empty _ _ same

      signed :
          (report_logs c tenant roots truth require asked rows trust).remarks.problems ≡ []
          → SignedAs (report_logs c tenant roots truth require asked rows trust) height hash
      signed clean =
          let (before, parts) = (append-nil_iff _ _).0 clean in
          let (logs, other) = (append-nil_iff _ _).0 before in
          let (unsigned, behind) = (append-nil_iff _ _).0 parts in
          let logged : Clean trust evaluated = sort_problems-Clean _ rows trust evaluated logs in
          let b : BlockPart evaluated.2 height hash =
            block_part-BlockPart evaluated.2 height hash receipt _ other unsigned in
          let is_signed : BlockSigned c tenant trust truth rows height b.seq =
            evaluate_attestations-BlockSigned c tenant trust truth rows height b.seq b.attested in
          record {
            seq = b.seq;
            is_signed = is_signed;
            same_hash = some_injective (
                sym is_signed.real_hash
                ∙ evaluate_attestations-real c tenant trust truth rows height hash b.same_hash);
            part = b.part;
            no_attestation_problem = logged.attestations;
            no_cosignature_problem = logged.cosignatures;
            no_statement_problem = logged.statements;
          }
