-- ===== src/Attest/Evaluate.antt =====
-- app/attest.py, the loop of `evaluate_attestations`, the cosignatures, and the signature levels.
pub mod Vouched
use persistence_memory.Prelude.{
  text_eq, nat_eq, pair_eq, ℕ, ◌+◌, ◌≡◌, Bool, true, false, not, ◌&&◌, ◌||◌, Option, none, some,
  List, [], ◌∷◌, ◌++◌, ltb, leb, max, ◌==◌, if◌then◌else◌, contains, Text, codes, Dict, lookup,
  insert, sort, when, Result, ok, err,
}
use persistence_memory.Attest.Wire.{Crypto, PublicKey, WireError, verify_sshsig, ledger_namespace}
use persistence_memory.Attest.Messages.{
  AttestError, AttestKind, attest_kind_name, attestation_message, attestation_hash,
}
use persistence_memory.Attest.Trust.{TrustState, KeyAuth, Cosign}
use persistence_memory.Attest.Log.{
  Attestation, Truth, LogProblem, wrong_seq, broken_link, bad_hash, replaced_void, bad_message,
  no_authority, too_early, other_signer, bad_signature, already_attested, equivocation, Summary,
  check_subject, parse_block_subject, parse_checkpoint_subject,
}
use persistence_memory.Replay.{genesis}

-- The loop's variables.
pub record LogState : Type 0 where
  pub problems : List (ℕ × LogProblem)
  pub summary : Summary
  pub expected : ℕ
  pub last : Text
  pub seen : Dict (Text × Text) Attestation
  pub by_seq : Dict ℕ Attestation

module _ (c : Crypto) (tenant : Text) (trust : TrustState) (truth : Truth) where
  abbrev pub message_of : Attestation → Result AttestError Text
  message_of a =
      attestation_message a.kind tenant a.subject a.subject_hash a.signer_seq a.prev_hash
        a.signed_at

  abbrev pub signer_problems : Attestation → Result WireError PublicKey → List LogProblem
  signer_problems a (err e) = bad_signature e ∷ []
  signer_problems a (ok signer) = when (not (signer.key_id == a.key_id)) other_signer

  abbrev pub past_cutoff : Option ℕ → ℕ → Bool
  past_cutoff none n = false
  past_cutoff (some cutoff) n = ltb cutoff n

  -- Is the key authorized at this signer_seq, and is the signature its own?
  abbrev pub authority_problems : Attestation → Text → Option KeyAuth → List LogProblem
  authority_problems a message none = no_authority ∷ []
  authority_problems a message (some auth) =
      when (ltb a.signer_seq auth.from_seq) too_early
      ++ (when (past_cutoff auth.cutoff a.signer_seq) LogProblem.revoked
          ++ signer_problems a (verify_sshsig c a.signature message ledger_namespace))

  abbrev is_voided_as : Text → Option Text → Bool
  is_voided_as hash none = false
  is_voided_as hash (some voided) = voided == hash

  abbrev is_some : Option Text → Bool
  is_some none = false
  is_some (some t) = true

  abbrev pub hash_holds : Attestation → Text → Bool
  hash_holds a message =
      attestation_hash c.sha256 message a.key_id a.signature == a.attestation_hash

  -- A root voided exactly this row.
  abbrev pub voided_by : Attestation → Result AttestError Text → Bool
  voided_by a (err e) = false
  voided_by a (ok message) =
      hash_holds a message && is_voided_as a.attestation_hash (lookup a.signer_seq trust.voids)

  abbrev pub row_problems : Attestation → Text → List LogProblem
  row_problems a message =
      if hash_holds a message
      then when
          (is_some (lookup a.signer_seq trust.voids)
            && not (is_voided_as a.attestation_hash (lookup a.signer_seq trust.voids)))
          replaced_void
      else bad_hash ∷ []

  abbrev pub contents_problems :
      Attestation → Dict ℕ Attestation → Result AttestError Text → List LogProblem
  contents_problems a by_seq (err e) = bad_message e ∷ []
  contents_problems a by_seq (ok message) =
      row_problems a message
      ++ (if voided_by a (ok message)
          then []
          else authority_problems a message (lookup a.key_id trust.keys)
            ++ check_subject c tenant a by_seq truth)

  abbrev pub subject_key : Attestation → Text × Text
  subject_key a = (attest_kind_name a.kind, a.subject)

  abbrev pub prior_problems : Attestation → Option Attestation → List LogProblem
  prior_problems a none = []
  prior_problems a (some prior) =
      (if prior.subject_hash == a.subject_hash then already_attested else equivocation) ∷ []

  abbrev pub position_problems : LogState → Attestation → List LogProblem
  position_problems st a =
      when (not (a.signer_seq == st.expected)) wrong_seq
      ++ when (not (a.prev_hash == st.last)) broken_link

  -- Everything that is wrong with one attestation.
  unfoldable pub check_attestation : LogState → Attestation → List LogProblem
  check_attestation st a =
      position_problems st a
      ++ (contents_problems a st.by_seq (message_of a)
          ++ (if voided_by a (message_of a)
              then []
              else prior_problems a (lookup (subject_key a) st.seen)))

  abbrev pub note_block : Summary → Attestation → Option ℕ → Summary
  note_block s a none = s
  note_block s a (some h) = record s {
    block_seq = insert h a.signer_seq s.block_seq;
    block_subject_hash = insert h a.subject_hash s.block_subject_hash;
  }

  abbrev pub note_checkpoint : Summary → Attestation → Option (ℕ × Text × ℕ × Text) → Summary
  note_checkpoint s a none = s
  note_checkpoint s a (some (covered_seq, _, _, _)) = record s {
    valid_checkpoints = insert a.signer_seq covered_seq s.valid_checkpoints;
  }

  abbrev pub note_kind : Summary → Attestation → AttestKind → Summary
  note_kind s a AttestKind.block = note_block s a (parse_block_subject a.subject)
  note_kind s a AttestKind.receipt = record s {
    receipt_seq = insert a.subject a.signer_seq s.receipt_seq;
  }
  note_kind s a _ =
      note_checkpoint
        (record s { newest_checkpoint_seq = max s.newest_checkpoint_seq a.signer_seq }) a
        (parse_checkpoint_subject a.subject)

  -- `summary` after one attestation, but for its count and head.
  abbrev pub noted : Summary → Attestation → Bool → List LogProblem → Summary
  noted s a true [] = record s { voided = s.voided ++ a.signer_seq ∷ [] }
  noted s a true (p ∷ ps) = record s {
    voided = s.voided ++ a.signer_seq ∷ [];
    bad_seqs = a.signer_seq ∷ s.bad_seqs;
  }
  noted s a false (p ∷ ps) = record s { bad_seqs = a.signer_seq ∷ s.bad_seqs }
  noted s a false [] = note_kind (record s { keys_used = a.key_id ∷ s.keys_used }) a a.kind

  abbrev advanced : Summary → Attestation → Summary
  advanced s a = record s {
    count = s.count + 1;
    head_seq = a.signer_seq;
    head_hash = a.attestation_hash;
  }

  abbrev remember :
      Bool
      → Attestation
      → Dict (Text × Text) Attestation
      → Option Attestation
      → Dict (Text × Text) Attestation
  remember true a seen prior = seen
  remember false a seen (some prior) = seen
  remember false a seen none = insert (subject_key a) a seen

  abbrev label : ℕ → List LogProblem → List (ℕ × LogProblem)
  label n [] = []
  label n (p ∷ ps) = (n, p) ∷ label n ps

  unfoldable pub step : LogState → Attestation → LogState
  step st a =
      let bad = check_attestation st a in
      let voided = voided_by a (message_of a) in
      record {
        problems = st.problems ++ label a.signer_seq bad;
        summary = advanced (noted st.summary a voided bad) a;
        expected = a.signer_seq + 1;
        last = a.attestation_hash;
        seen = remember voided a st.seen (lookup (subject_key a) st.seen);
        by_seq = insert a.signer_seq a st.by_seq;
      }

  unfoldable pub log_loop : LogState → List Attestation → LogState
  log_loop st [] = st
  log_loop st (a ∷ rows) = log_loop (step st a) rows

  abbrev pub by_signer_seq : Attestation → Attestation → Bool
  by_signer_seq a b = leb a.signer_seq b.signer_seq

  abbrev is_checkpoint : AttestKind → Bool
  is_checkpoint AttestKind.checkpoint = true
  is_checkpoint _ = false

  -- Is what the root cosigned the checkpoint that the log holds?
  abbrev pub cosign_holds : Cosign → Option Attestation → Bool
  cosign_holds cs none = false
  cosign_holds cs (some t) = is_checkpoint t.kind && t.attestation_hash == cs.checkpoint_hash

  -- The statements whose cosignature fails, and the summary.
  abbrev pub Cosigned : Type 0
  Cosigned = List ℕ × Summary

  abbrev pub cosign_one : Cosigned → Cosign → Bool → Cosigned
  cosign_one (bad, s) cs false = (bad ++ cs.stmt_seq ∷ [], s)
  cosign_one (bad, s) cs true = (
    bad,
    record s {
      cosigned_checkpoint_seq = max s.cosigned_checkpoint_seq cs.checkpoint_seq;
      cosigned_checkpoints = cs.checkpoint_seq ∷ s.cosigned_checkpoints;
    },
  )

  unfoldable pub cosign_loop : Dict ℕ Attestation → Cosigned → List Cosign → Cosigned
  cosign_loop by_seq acc [] = acc
  cosign_loop by_seq acc (cs ∷ more) =
      cosign_loop by_seq (cosign_one acc cs (cosign_holds cs (lookup cs.checkpoint_seq by_seq)))
        more

  abbrev pub no_summary : Summary
  no_summary = record {
    count = 0;
    head_seq = 0;
    head_hash = genesis;
    keys_used = [];
    newest_checkpoint_seq = 0;
    cosigned_checkpoint_seq = 0;
    voided = [];
    bad_seqs = [];
    block_seq = [];
    block_subject_hash = [];
    receipt_seq = [];
    valid_checkpoints = [];
    cosigned_checkpoints = [];
  }

  abbrev pub start : LogState
  start = record {
    problems = [];
    summary = no_summary;
    expected = 1;
    last = genesis;
    seen = [];
    by_seq = [];
  }

  -- The problems of attestations, those of cosignatures (by statement), and the summary.
  unfoldable pub evaluate_attestations : List Attestation → List (ℕ × LogProblem) × List ℕ × Summary
  evaluate_attestations rows =
      let st = log_loop start (sort by_signer_seq rows) in
      let (bad, s) = cosign_loop st.by_seq ([], st.summary) trust.cosigns in (st.problems, bad, s)

-- `attestation_level`: 0 unsigned, 1 signed, 2 covered by a checkpoint that a root cosigned.
abbrev pub covers : Option ℕ → ℕ → Bool
covers none n = false
covers (some covered) n = leb n covered

unfoldable pub level_of : Summary → List ℕ → ℕ → ℕ
level_of s [] n = 1
level_of s (c ∷ cs) n =
    let rest = level_of s cs n in if covers (lookup c s.valid_checkpoints) n then 2 else rest

unfoldable pub attestation_level : Summary → Option ℕ → ℕ
attestation_level s none = 0
attestation_level s (some n) = level_of s s.cosigned_checkpoints n
