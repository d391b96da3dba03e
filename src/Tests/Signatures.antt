-- ===== src/Tests/Signatures.antt =====
-- The trust log and the attestation log on small inputs, with toy signatures.
use persistence_memory.Prelude.{
  text_eq, nat_eq, pair_eq, ℕ, ◌+◌, ◌≡◌, refl, Bool, true, false, Option, none, some, List, [], ◌∷◌,
  ◌++◌, Text, Bytes, codes, show, Dict, lookup, insert, member, ◌==◌, Result, ok, err,
  if◌then◌else◌, sort, strip, lstrip, rstrip, split_on, value,
}
use persistence_memory.Hash.{is_hex64, to_hex}
use persistence_memory.Attest.Wire.{
  Crypto, PublicKey, pack_u32, wire_string, read_u32, read_string, fingerprint,
  public_key_from_blob, normalize_signature, parse_blob, parse_sshsig, digest_for, verify_sshsig,
  parse_public_key,
}
use persistence_memory.Attest.Messages.{
  AttestKind, TrustKind, clean, is_signed_at, attestation_message, trust_message, attestation_hash,
  statement_hash,
}
use persistence_memory.Attest.Trust.{
  Statement, KeyAuth, TrustState, apply_statement, check_statement, trust_loop, evaluate_trust,
  by_stmt_seq,
}
use persistence_memory.Attest.Trust
use persistence_memory.Attest.Trust.Roots.{
  Rooted, Authorized, evaluate_trust-Rooted, evaluate_trust-Authorized,
}
use persistence_memory.Attest.Trust.Chain.{Gapless, Keeps, evaluate_trust-Gapless, trust_loop-Keeps}
use persistence_memory.Attest.Log.{
  Attestation, Truth, dict_truth, parse_block_subject, parse_checkpoint_subject, check_subject,
}
use persistence_memory.Attest.Evaluate
use persistence_memory.Attest.Evaluate.{
  check_attestation, log_loop, cosign_loop, evaluate_attestations,
}
use persistence_memory.Attest.Evaluate.Vouched.{BlockSigned, evaluate_attestations-BlockSigned}
use persistence_memory.Replay.{genesis}
use persistence_memory.Attest.Evaluate.{attestation_level, level_of}
use persistence_memory.Attest.Report.{
  require, signature_report, report_logs, part_remarks, block_part, receipt_part, unsigned_of,
  block_behind, sort_problems, subject_of,
}
use persistence_memory.Prelude.{inl, arith}
use persistence_memory.Attest.Report.{
  verify_tenant, verify_logs, log_remarks, late_blocks, late_receipts,
}
use persistence_memory.Attest.Overdue.{InOrder, verify_tenant-InOrder}
use persistence_memory.Attest.Demanded.{SignedAs, signature_report-SignedAs}
use persistence_memory.Witness.{
  TenantData, Snapshot, sealed_block, check_tenant, seen_loop, dict_of,
}
use persistence_memory.Witness.Append.{recorded, check_tenant-append}
use persistence_memory.Tests.Toy.{toy, digits, fill, value_of}

abbrev sig_blob : Bytes
sig_blob =
    codes "SSHSIG"
    ++ (pack_u32 1
        ++ (wire_string (wire_string (codes "ssh-ed25519") ++ wire_string (fill 32 []))
            ++ (wire_string (codes "jarvis-ledger-v1")
                ++ (wire_string []
                    ++ (wire_string (codes "sha512")
                        ++ wire_string
                            (wire_string (codes "ssh-ed25519") ++ wire_string (fill 64 [])))))))

-- Two texts that decode, one fingerprint, and a check that every signature passes.
abbrev paper : Crypto
paper = record {
  b64decode = λ t.
      if t == codes "SIG"
      then some sig_blob
      else if t == codes "KEY"
      then some (wire_string (codes "ssh-ed25519") ++ wire_string (fill 32 []))
      else none;
  b64encode = λ b. codes "fp";
  sha256 = toy;
  sha512 = λ m. m;
  ed25519 = λ key signature message. true;
}

abbrev armored : Text
armored =
    codes "-----BEGIN SSH SIGNATURE-----"
    ++ 10 ∷ (codes "SIG" ++ 10 ∷ codes "-----END SSH SIGNATURE-----")

abbrev id : Text
id = codes "SHA256:fp"

abbrev root : PublicKey
root = record {
  blob = wire_string (codes "ssh-ed25519") ++ wire_string (fill 32 []);
  raw = fill 32 [];
  key_id = id;
  comment = [];
}

abbrev operator : Text
operator = codes "operator"

-- The root authorizes the key from signer_seq 1 on.
abbrev statement : Statement
statement = record {
  stmt_seq = 1;
  kind = TrustKind.key;
  key_id = id;
  pubkey = some (codes "ssh-ed25519 KEY desk");
  arg = some 1;
  subject_hash = none;
  prev_hash = genesis;
  signed_by = id;
  signature = armored;
  statement_hash =
      statement_hash toy
        (value_of [] (trust_message TrustKind.key operator id (some 1) none 1 genesis)) id armored;
}

abbrev trust : TrustState
trust = evaluate_trust paper operator ((id, root) ∷ []) (statement ∷ [])

abbrev row : Attestation
row = record {
  signer_seq = 1;
  kind = AttestKind.block;
  subject = codes "block:7";
  subject_hash = digits b'a';
  prev_hash = genesis;
  key_id = id;
  signed_at = codes "2026-07-21T09:00:00Z";
  signature = armored;
  attestation_hash =
      attestation_hash toy
        (value_of [] (
          attestation_message AttestKind.block operator (codes "block:7") (digits b'a') 1 genesis
            (codes "2026-07-21T09:00:00Z")))
        id armored;
}

abbrev truth : Truth
truth = dict_truth ((7, digits b'a') ∷ []) []

evaluate_trust-Rooted_example : Rooted paper operator ((id, root) ∷ []) (statement ∷ []) id
unfolding evaluate_trust sort trust_loop check_statement apply_statement Trust.step genesis
    trust_message statement_hash to_hex fill show verify_sshsig parse_sshsig split_on
    normalize_signature strip rstrip lstrip parse_blob read_u32 pack_u32 digest_for fingerprint
    parse_public_key public_key_from_blob read_string wire_string is_hex64
    persistence_memory.Prelude.Sorting.insert_sorted
evaluate_trust-Rooted_example =
    evaluate_trust-Rooted paper operator ((id, root) ∷ []) (statement ∷ []) id refl

evaluate_trust-Authorized_example : Authorized paper operator ((id, root) ∷ []) (statement ∷ []) id
unfolding evaluate_trust sort trust_loop check_statement apply_statement Trust.step genesis
    trust_message statement_hash to_hex fill show verify_sshsig parse_sshsig split_on
    normalize_signature strip rstrip lstrip parse_blob read_u32 pack_u32 digest_for fingerprint
    parse_public_key public_key_from_blob read_string wire_string is_hex64
    persistence_memory.Prelude.Sorting.insert_sorted
evaluate_trust-Authorized_example =
    evaluate_trust-Authorized paper operator ((id, root) ∷ []) (statement ∷ []) id refl

evaluate_trust-Gapless_example :
    Gapless paper operator 1 genesis (sort (by_stmt_seq paper operator) (statement ∷ []))
unfolding evaluate_trust sort trust_loop check_statement apply_statement Trust.step genesis
    trust_message statement_hash to_hex fill show verify_sshsig parse_sshsig split_on
    normalize_signature strip rstrip lstrip parse_blob read_u32 pack_u32 digest_for fingerprint
    parse_public_key public_key_from_blob read_string wire_string is_hex64
    persistence_memory.Prelude.Sorting.insert_sorted
evaluate_trust-Gapless_example =
    evaluate_trust-Gapless paper operator ((id, root) ∷ []) (statement ∷ []) refl

abbrev desk : KeyAuth
desk = record {
  key = record root { comment = codes "desk" };
  from_seq = 1;
  stmt_seq = 1;
  cutoff = none;
}

-- The root then revokes the key from signer_seq 5 on.
abbrev revocation : Statement
revocation = record {
  stmt_seq = 2;
  kind = TrustKind.revoke;
  key_id = id;
  pubkey = none;
  arg = some 5;
  subject_hash = none;
  prev_hash = statement.statement_hash;
  signed_by = id;
  signature = armored;
  statement_hash =
      statement_hash toy
        (value_of []
          (trust_message TrustKind.revoke operator id (some 5) none 2 statement.statement_hash))
        id armored;
}

trust_loop-Keeps_example :
    Keeps id desk
      (trust_loop paper operator trust 2 statement.statement_hash (revocation ∷ [])).keys
unfolding evaluate_trust sort trust_loop check_statement apply_statement Trust.step genesis
    trust_message statement_hash to_hex fill show verify_sshsig parse_sshsig split_on
    normalize_signature strip rstrip lstrip parse_blob read_u32 pack_u32 digest_for fingerprint
    parse_public_key public_key_from_blob read_string wire_string is_hex64
    persistence_memory.Prelude.Sorting.insert_sorted
trust_loop-Keeps_example =
    trust_loop-Keeps paper operator (revocation ∷ []) trust 2 statement.statement_hash id desk refl

evaluate_attestations-BlockSigned_example : BlockSigned paper operator trust truth (row ∷ []) 7 1
unfolding evaluate_trust sort trust_loop check_statement apply_statement Trust.step genesis
    trust_message statement_hash to_hex fill show verify_sshsig parse_sshsig split_on
    normalize_signature strip rstrip lstrip parse_blob read_u32 pack_u32 digest_for fingerprint
    parse_public_key public_key_from_blob read_string wire_string is_hex64
    persistence_memory.Prelude.Sorting.insert_sorted evaluate_attestations log_loop cosign_loop
    Evaluate.step check_attestation check_subject attestation_message attestation_hash clean
    is_signed_at parse_block_subject parse_checkpoint_subject dict_truth value
evaluate_attestations-BlockSigned_example =
    evaluate_attestations-BlockSigned paper operator trust truth (row ∷ []) 7 1 refl

abbrev export : TenantData
export = record {
  statements = statement ∷ [];
  attestations = row ∷ [];
  blocks = (7, digits b'a') ∷ [];
  receipts = [];
}

abbrev seen : Snapshot
seen = (check_tenant paper operator export ((id, root) ∷ []) none).snapshot

check_tenant-append_example :
    lookup 7 (
      recorded sealed_block
        (check_tenant paper operator export ((id, root) ∷ []) (some seen)).snapshot)
    ≡ some (digits b'a')
unfolding evaluate_trust sort trust_loop check_statement apply_statement Trust.step genesis
    trust_message statement_hash to_hex fill show verify_sshsig parse_sshsig split_on
    normalize_signature strip rstrip lstrip parse_blob read_u32 pack_u32 digest_for fingerprint
    parse_public_key public_key_from_blob read_string wire_string is_hex64
    persistence_memory.Prelude.Sorting.insert_sorted evaluate_attestations log_loop cosign_loop
    Evaluate.step check_attestation check_subject attestation_message attestation_hash clean
    is_signed_at parse_block_subject parse_checkpoint_subject dict_truth value check_tenant
    seen_loop dict_of
check_tenant-append_example =
    check_tenant-append paper operator export ((id, root) ∷ []) seen sealed_block 7 (digits b'a')
      refl refl

signature_report-SignedAs_example :
    SignedAs paper operator
      ((id, root) ∷ [])
      truth
      (statement ∷ [])
      (row ∷ [])
      (signature_report paper operator
        ((id, root) ∷ [])
        truth
        require
        (record { block = some (7, some (digits b'a')); receipt = none })
        (statement ∷ [])
        (row ∷ []))
      7
      (digits b'a')
unfolding evaluate_trust sort trust_loop check_statement apply_statement Trust.step genesis
    trust_message statement_hash to_hex fill show verify_sshsig parse_sshsig split_on
    normalize_signature strip rstrip lstrip parse_blob read_u32 pack_u32 digest_for fingerprint
    parse_public_key public_key_from_blob read_string wire_string is_hex64
    persistence_memory.Prelude.Sorting.insert_sorted evaluate_attestations log_loop cosign_loop
    Evaluate.step check_attestation check_subject attestation_message attestation_hash clean
    is_signed_at parse_block_subject parse_checkpoint_subject dict_truth value signature_report
    report_logs part_remarks block_part receipt_part unsigned_of block_behind sort_problems
    attestation_level level_of subject_of
signature_report-SignedAs_example =
    signature_report-SignedAs paper operator ((id, root) ∷ []) truth (statement ∷ []) (row ∷ []) 7
      (digits b'a') none refl

verify_tenant-InOrder_example :
    InOrder paper operator ((id, root) ∷ []) truth (statement ∷ []) (row ∷ []) 7
unfolding evaluate_trust sort trust_loop check_statement apply_statement Trust.step genesis
    trust_message statement_hash to_hex fill show verify_sshsig parse_sshsig split_on
    normalize_signature strip rstrip lstrip parse_blob read_u32 pack_u32 digest_for fingerprint
    parse_public_key public_key_from_blob read_string wire_string is_hex64
    persistence_memory.Prelude.Sorting.insert_sorted evaluate_attestations log_loop cosign_loop
    Evaluate.step check_attestation check_subject attestation_message attestation_hash clean
    is_signed_at parse_block_subject parse_checkpoint_subject dict_truth value verify_tenant
    verify_logs log_remarks late_blocks late_receipts
verify_tenant-InOrder_example =
    verify_tenant-InOrder paper operator ((id, root) ∷ []) truth (statement ∷ []) (row ∷ []) 24
      ((7, 30) ∷ []) [] 7 30 refl refl refl (inl refl) (omega arith)
