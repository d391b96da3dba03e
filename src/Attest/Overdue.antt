-- ===== src/Attest/Overdue.antt =====
-- What `verify_tenant` says of the blocks past the grace period, where signatures are required.
use persistence_memory.Prelude.{
  ℕ, ◌<◌, ◌≡◌, sym, inl, inr, true, false, not, ◌&&◌, some, List, [], ◌∷◌, In, Bool-cases,
  Option-cases, append-nil_iff, when, when-nil_iff, ltb, lt→ltb, Text, Dict, lookup, member,
  member-lookup, nat_eq, text_eq, arith, subst,
}
use persistence_memory.Attest.Wire.{Crypto, PublicKey}
use persistence_memory.Attest.Trust.{Statement}
use persistence_memory.Attest.Log.{Attestation, Truth, Summary}
use persistence_memory.Attest.Evaluate.Vouched.{BlockSigned, evaluate_attestations-BlockSigned}
use persistence_memory.Attest.Report.{
  require, Remark, nothing, log_remarks, late_blocks, verify_logs, verify_tenant,
}
use persistence_memory.Attest.Demanded.{trust, evaluated, map-nil, not_empty}

late_blocks-nil :
    (grace : ℕ) (s : Summary) (blocks : List (ℕ × ℕ)) (height age : ℕ)
    → late_blocks grace s blocks ≡ []
    → In (height, age) blocks
    → grace < age
    → member height s.block_seq ≡ true
unfolding late_blocks
late_blocks-nil grace s [] height age none_ here late = absurd here
late_blocks-nil grace s ((h, a) ∷ blocks) height age none_ here late =
    let (first, others) =
      (append-nil_iff (when (not (member h s.block_seq) && ltb grace a) (Remark.unsigned_block h))
          _).0
        none_ in
    elim here [
      | inl same ↦ elim (Bool-cases (member height s.block_seq)) [
        | inl there ↦ there
        | inr missing ↦
            absurd (reported same missing ((when-nil_iff _ (Remark.unsigned_block h)).0 first))
      ]
      | inr behind ↦ late_blocks-nil grace s blocks height age others behind late
    ]
  where
    reported :
        ◌≡◌ {A = ℕ × ℕ} (height, age) (h, a)
        → member height s.block_seq ≡ false
        → (not (member h s.block_seq) && ltb grace a) ≡ false
        → ⊥
    reported same missing silent_ =
        let past : ltb grace age ≡ true = lt→ltb grace age late in
        let told : (not (member height s.block_seq) && ltb grace age) ≡ false =
          subst (λ p. (not (member p.0 s.block_seq) && ltb grace p.1) ≡ false) (sym same) silent_ in
        ground (arith, missing, past, told)

lookup_of_member : (d : Dict ℕ ℕ) (k : ℕ) → member k d ≡ true → (n : ℕ) × (lookup k d ≡ some n)
lookup_of_member d k there = elim (Option-cases (lookup k d)) [
  | inl none_ ↦ absurd (let missing : member k d ≡ false = member-lookup k d none_ in cc)
  | inr found ↦ found
]

module _ (c : Crypto) (tenant : Text) (roots : Dict Text PublicKey) (truth : Truth)
    (statements : List Statement) (rows : List Attestation) where
  -- A block past the grace period is signed, and the logs have no problem.
  pub record InOrder (height : ℕ) : Type 0 where
    pub seq : ℕ
    pub is_signed :
        BlockSigned c tenant (trust c tenant roots truth statements rows) truth rows height seq
    pub no_attestation_problem : (evaluated c tenant roots truth statements rows).0 ≡ []
    pub no_cosignature_problem : (evaluated c tenant roots truth statements rows).1 ≡ []
    pub no_statement_problem : (trust c tenant roots truth statements rows).problems ≡ []

  -- Where signatures are required, a check of a tenant that finds no problem means that neither log has
  -- one, and that every block of the tenant which is older than the grace period is signed by a key that
  -- the trust log authorizes. Something has been signed or stated, and a signing key is authorized.
  pub verify_tenant-InOrder :
      (grace : ℕ) (blocks : List (ℕ × ℕ)) (receipts : List (Text × ℕ)) (height age : ℕ)
      → (nothing statements && nothing rows) ≡ false
      → nothing (trust c tenant roots truth statements rows).keys ≡ false
      → (verify_tenant c tenant roots truth require grace statements rows blocks receipts).problems
        ≡ []
      → In (height, age) blocks
      → grace < age
      → InOrder height
  unfolding verify_tenant verify_logs log_remarks
  verify_tenant-InOrder grace blocks receipts height age logged keyed none_ here late =
      elim (Bool-cases (nothing roots)) [
        | inl rootless ↦ absurd (not_empty _ _ (rw (logged, rootless) at none_))
        | inr rooted ↦
            let (logs, overdue) = (append-nil_iff _ _).0 (rw (logged, rooted, keyed) at none_) in
            let (in_trust, in_log) = (append-nil_iff _ _).0 logs in
            let (attested, cosigned) = (append-nil_iff _ _).0 in_log in
            let (late_block, late_receipt) = (append-nil_iff _ _).0 overdue in
            let (n, found) =
              lookup_of_member (evaluated c tenant roots truth statements rows).2.block_seq height
                (late_blocks-nil grace _ blocks height age late_block here late) in
            record {
              seq = n;
              is_signed = evaluate_attestations-BlockSigned c tenant _ truth rows height n found;
              no_attestation_problem = map-nil (λ p. Remark.log_problem p.0 p.1) _ attested;
              no_cosignature_problem = map-nil Remark.cosign_problem _ cosigned;
              no_statement_problem = map-nil (λ p. Remark.trust_problem p.0 p.1) _ in_trust;
            }
      ]
