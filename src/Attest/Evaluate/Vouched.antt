-- ===== src/Attest/Evaluate/Vouched.antt =====
-- What it takes for a block to be called signed.
use persistence_memory.Prelude.{
  text_beq_iff, ◌↔◌, text_eq, nat_eq, pair_eq, ℕ, ◌≤◌, ◌≡◌, refl, ap, ◌∙◌, inl, inr, Bool, true,
  false, Option, none, some, List, [], ◌∷◌, arith, ltb, nat_beq_iff, Bool-cases, if◌then◌else◌,
  ◌==◌, All, In, Text, Dict, lookup, lookup-insert, insert, sort, sort-In, append-nil_iff,
  when-nil_iff, not-eq_iff, Result, ok, err, subst,
}
use persistence_memory.Attest.Wire.{Crypto, PublicKey, WireError, verify_sshsig, ledger_namespace}
use persistence_memory.Attest.Messages.{AttestError, AttestKind, attestation_hash}
use persistence_memory.Attest.Trust.{TrustState, KeyAuth, Cosign}
use persistence_memory.Attest.Log.{
  block_matches, Attestation, Truth, LogProblem, too_early, other_signer, Summary, check_subject,
  parse_block_subject, parse_checkpoint_subject, check_block, subject_of_kind, other_block,
}
use persistence_memory.Attest.Evaluate.{
  LogState, message_of, signer_problems, past_cutoff, authority_problems, voided_by, row_problems,
  contents_problems, check_attestation, noted, note_kind, note_block, note_checkpoint, step,
  log_loop, by_signer_seq, cosign_loop, cosign_one, cosign_holds, evaluate_attestations, hash_holds,
  Cosigned,
}

ltb-false : (m n : ℕ) → ltb m n ≡ false → n ≤ m
ltb-false m n h = ground arith

else-nil {ℓ} :
    {A : Type ℓ} (b : Bool) (xs : List A) → b ≡ false → (if b then [] else xs) ≡ [] → xs ≡ []
else-nil true xs e h = absurd (cc)
else-nil false xs e h = h

module _ (c : Crypto) (tenant : Text) (trust : TrustState) (truth : Truth) where
  -- The row is hashed as it says, by a key that the trust log authorizes at its signer_seq, whose
  -- own signature verifies over the row's text.
  pub record Vouched (a : Attestation) : Type 0 where
    pub message : Text
    pub is_message : message_of c tenant trust truth a ≡ ok message
    pub hashed : attestation_hash c.sha256 message a.key_id a.signature ≡ a.attestation_hash
    pub auth : KeyAuth
    pub authorized : lookup a.key_id trust.keys ≡ some auth
    pub not_early : auth.from_seq ≤ a.signer_seq
    pub not_late : past_cutoff c tenant trust truth auth.cutoff a.signer_seq ≡ false
    pub signer : PublicKey
    pub verified : verify_sshsig c a.signature message ledger_namespace ≡ ok signer
    pub named : signer.key_id ≡ a.key_id

  -- A block that is signed: the log has a row that vouches for the hash that the block really has.
  pub record BlockSigned (rows : List Attestation) (height n : ℕ) : Type 0 where
    pub row : Attestation
    pub in_log : In row rows
    pub at_seq : row.signer_seq ≡ n
    pub is_block : row.kind ≡ AttestKind.block
    pub vouched : Vouched row
    pub real_hash : truth.block_hash height ≡ some row.subject_hash

  row_problems-nil :
      (a : Attestation) (message : Text)
      → row_problems c tenant trust truth a message ≡ []
      → attestation_hash c.sha256 message a.key_id a.signature ≡ a.attestation_hash
  row_problems-nil a message e = elim (Bool-cases (hash_holds c tenant trust truth a message)) [
    | inl good ↦ (c_iff _ _).0 good
    | inr bad ↦ absurd (no_problem (rw bad at e))
  ]
    where
      c_iff : (x y : Text) → ((x == y) ≡ true) ↔ (x ≡ y)
      c_iff = text_beq_iff

      no_problem : {p : LogProblem} {ps : List LogProblem} → p ∷ ps ≡ [] → ⊥
      no_problem h = cc

  signer_of :
      (a : Attestation) (v : Result WireError PublicKey)
      → signer_problems c tenant trust truth a v ≡ []
      → (signer : PublicKey) × (v ≡ ok signer) × (signer.key_id ≡ a.key_id)
  signer_of a (err e) h = absurd (cc)
  signer_of a (ok signer) h = (signer, refl, (not-eq_iff _ _).0 ((when-nil_iff _ other_signer).0 h))

  Vouched-of :
      (a : Attestation) (message : Text) (o : Option KeyAuth)
      → message_of c tenant trust truth a ≡ ok message
      → attestation_hash c.sha256 message a.key_id a.signature ≡ a.attestation_hash
      → lookup a.key_id trust.keys ≡ o
      → authority_problems c tenant trust truth a message o ≡ []
      → Vouched a
  Vouched-of a message none em eh eo h = absurd (cc)
  Vouched-of a message (some auth) em eh eo h =
      let (early, rest) = (append-nil_iff _ _).0 h in
      let (late, sig) = (append-nil_iff _ _).0 rest in
      let (signer, ev, named) =
        signer_of a (verify_sshsig c a.signature message ledger_namespace) sig in
      let not_below : ltb a.signer_seq auth.from_seq ≡ false = (when-nil_iff _ too_early).0 early in
      record {
        message = message;
        is_message = em;
        hashed = eh;
        auth = auth;
        authorized = eo;
        not_early = ltb-false a.signer_seq auth.from_seq not_below;
        not_late = (when-nil_iff _ LogProblem.revoked).0 late;
        signer = signer;
        verified = ev;
        named = named;
      }

  -- A row with no problem that no root voided is vouched for, and its subject is real.
  check_attestation-nil :
      (st : LogState) (a : Attestation)
      → check_attestation c tenant trust truth st a ≡ []
      → voided_by c tenant trust truth a (message_of c tenant trust truth a) ≡ false
      → Vouched a × (check_subject c tenant a st.by_seq truth ≡ [])
  unfolding check_attestation
  check_attestation-nil st a h =
      by (message_of c tenant trust truth a) refl
        ((append-nil_iff _ _).0 ((append-nil_iff _ _).0 h).1).0
    where
      by :
          (m : Result AttestError Text)
          → message_of c tenant trust truth a ≡ m
          → contents_problems c tenant trust truth a st.by_seq m ≡ []
          → voided_by c tenant trust truth a m ≡ false
          → Vouched a × (check_subject c tenant a st.by_seq truth ≡ [])
      by (err e) em none_found not_voided = absurd (cc)
      by (ok message) em none_found not_voided =
          let (row, rest) =
            (append-nil_iff (row_problems c tenant trust truth a message) _).0 none_found in
          let (authority, subject) =
            (append-nil_iff
                (authority_problems c tenant trust truth a message (lookup a.key_id trust.keys))
                _).0
              (else-nil _ _ not_voided rest) in
          (
            Vouched-of a message (lookup a.key_id trust.keys) em (row_problems-nil a message row)
                refl authority,
            subject,
          )

  real_block :
      (a : Attestation) (by_seq : Dict ℕ Attestation) (height : ℕ)
      → a.kind ≡ AttestKind.block
      → parse_block_subject a.subject ≡ some height
      → check_subject c tenant a by_seq truth ≡ []
      → truth.block_hash height ≡ some a.subject_hash
  unfolding check_subject
  real_block a by_seq height kind subject h = matched (truth.block_hash height) refl (
      subst (λ o. check_block truth a.subject_hash o ≡ []) subject
        (subst (λ k. subject_of_kind c tenant a by_seq truth k ≡ []) kind h))
    where
      matched :
          (o : Option Text)
          → truth.block_hash height ≡ o
          → block_matches a.subject_hash o ≡ []
          → truth.block_hash height ≡ some a.subject_hash
      matched none eo none_found = absurd (cc)
      matched (some real) eo none_found =
          eo ∙ ap some ((not-eq_iff _ _).0 ((when-nil_iff _ other_block).0 none_found))

  module _ (rows : List Attestation) where
    -- Every block that the summary calls signed is, and every block hash in it is the real one.
    abbrev pub AllSigned : Summary → Type 0
    AllSigned s =
        ((height n : ℕ) → lookup height s.block_seq ≡ some n → BlockSigned rows height n)
        × ((height : ℕ) (hash : Text)
            → lookup height s.block_subject_hash ≡ some hash
            → truth.block_hash height ≡ some hash)

    -- The new attestation of a block.
    abbrev NewBlock : Attestation → ℕ → Type 0
    NewBlock a height =
        BlockSigned rows height a.signer_seq × (truth.block_hash height ≡ some a.subject_hash)

    note_block-AllSigned :
        (s : Summary) (a : Attestation) (o : Option ℕ)
        → AllSigned s
        → ((height : ℕ) → o ≡ some height → NewBlock a height)
        → AllSigned (note_block c tenant trust truth s a o)
    note_block-AllSigned s a none all new = all
    note_block-AllSigned s a (some h) all new = (signed, real)
      where
        signed :
            (height n : ℕ)
            → lookup height (insert h a.signer_seq s.block_seq) ≡ some n
            → BlockSigned rows height n
        signed height n e = elim (Bool-cases (h == height)) [
          | inr other ↦
              all.0 height n (rw (lookup-insert h height a.signer_seq s.block_seq, other) at e)
          | inl same ↦
              let e' : some a.signer_seq ≡ some n =
                rw (lookup-insert h height a.signer_seq s.block_seq, same) at e in
              subst (λ x. BlockSigned rows height x) (ground arith)
                (new height (ap some ((nat_beq_iff h height).0 same))).0
        ]

        real :
            (height : ℕ) (hash : Text)
            → lookup height (insert h a.subject_hash s.block_subject_hash) ≡ some hash
            → truth.block_hash height ≡ some hash
        real height hash e = elim (Bool-cases (h == height)) [
          | inr other ↦
              all.1 height hash
                (rw (lookup-insert h height a.subject_hash s.block_subject_hash, other) at e)
          | inl same ↦
              let e' : some a.subject_hash ≡ some hash =
                rw (lookup-insert h height a.subject_hash s.block_subject_hash, same) at e in
              (new height (ap some ((nat_beq_iff h height).0 same))).1 ∙ e'
        ]

    noted-AllSigned :
        (s : Summary) (a : Attestation) (voided : Bool) (bad : List LogProblem)
        → AllSigned s
        → (voided ≡ false
            → bad ≡ []
            → a.kind ≡ AttestKind.block
            → (height : ℕ) → parse_block_subject a.subject ≡ some height
            → NewBlock a height)
        → AllSigned (noted c tenant trust truth s a voided bad)
    noted-AllSigned s a true [] all new = all
    noted-AllSigned s a true (p ∷ ps) all new = all
    noted-AllSigned s a false (p ∷ ps) all new = all
    noted-AllSigned s a false [] all new = by a.kind refl
      where
        keyed : Summary
        keyed = record s { keys_used = a.key_id ∷ s.keys_used }

        checkpointed :
            (t : Summary) (o : Option (ℕ × Text × ℕ × Text))
            → AllSigned t
            → AllSigned (note_checkpoint c tenant trust truth t a o)
        checkpointed t none h = h
        checkpointed t (some (x, _, _, _)) h = h

        by : (k : AttestKind) → a.kind ≡ k → AllSigned (note_kind c tenant trust truth keyed a k)
        by AttestKind.block e =
            note_block-AllSigned keyed a (parse_block_subject a.subject) all (new refl refl e)
        by AttestKind.receipt e = all
        by AttestKind.checkpoint e = checkpointed _ (parse_checkpoint_subject a.subject) all
        by (AttestKind.other t) e = checkpointed _ (parse_checkpoint_subject a.subject) all

    step-AllSigned :
        (st : LogState) (a : Attestation)
        → In a rows
        → AllSigned st.summary
        → AllSigned (step c tenant trust truth st a).summary
    unfolding step
    step-AllSigned st a mem all =
        noted-AllSigned st.summary a _ _ all λ not_voided none_found kind height subject.
          let (vouched, real) = check_attestation-nil st a none_found not_voided in
          let hash = real_block a st.by_seq height kind subject real in
          (
            record {
              row = a;
              in_log = mem;
              at_seq = refl;
              is_block = kind;
              vouched = vouched;
              real_hash = hash;
            },
            hash,
          )

    log_loop-AllSigned :
        (more : List Attestation) (st : LogState)
        → All (λ a. In a rows) more
        → AllSigned st.summary
        → AllSigned (log_loop c tenant trust truth st more).summary
    unfolding log_loop
    log_loop-AllSigned [] st mem all = all
    log_loop-AllSigned (a ∷ more) st mem all =
        log_loop-AllSigned more (step c tenant trust truth st a) mem.1
          (step-AllSigned st a mem.0 all)

    cosign_loop-AllSigned :
        (by_seq : Dict ℕ Attestation) (cs : List Cosign) (acc : Cosigned c tenant trust truth)
        → AllSigned acc.1
        → AllSigned (cosign_loop c tenant trust truth by_seq acc cs).1
    unfolding cosign_loop
    cosign_loop-AllSigned by_seq [] acc all = all
    cosign_loop-AllSigned by_seq (x ∷ cs) acc all =
        cosign_loop-AllSigned by_seq cs _
          (one (cosign_holds c tenant trust truth x (lookup x.checkpoint_seq by_seq)))
      where
        one : (b : Bool) → AllSigned (cosign_one c tenant trust truth acc x b).1
        one true = all
        one false = all

    evaluate_attestations-AllSigned : AllSigned (evaluate_attestations c tenant trust truth rows).2
    unfolding evaluate_attestations
    evaluate_attestations-AllSigned = cosign_loop-AllSigned _ trust.cosigns _ (
        log_loop-AllSigned (sort (by_signer_seq c tenant trust truth) rows) _
          (sort-In (by_signer_seq c tenant trust truth) rows)
          ((λ height n e. absurd (cc)), (λ height hash e. absurd (cc))))

    -- Whenever the evaluation of the attestation log calls a block signed, at a signer_seq, the log
    -- holds a row with that number that attests the block's real hash, and the row is signed over
    -- its own text by a key that the trust log authorized by then and has not cut off.
    pub evaluate_attestations-BlockSigned :
        (height n : ℕ)
        → lookup height (evaluate_attestations c tenant trust truth rows).2.block_seq ≡ some n
        → BlockSigned rows height n
    evaluate_attestations-BlockSigned = evaluate_attestations-AllSigned.0

    -- A block hash that the summary gives is the hash of the block.
    pub evaluate_attestations-real :
        (height : ℕ) (hash : Text)
        → lookup height (evaluate_attestations c tenant trust truth rows).2.block_subject_hash
          ≡ some hash
        → truth.block_hash height ≡ some hash
    evaluate_attestations-real = evaluate_attestations-AllSigned.1
