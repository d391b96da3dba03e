-- ===== src/Attest/Log.antt =====
-- app/attest.py, `evaluate_attestations`: the attestation log against the trust state and what the
-- database holds, and the signature levels.
use persistence_memory.Prelude.{
  text_eq, nat_eq, ℕ, ◌+◌, Bool, true, false, not, ◌&&◌, Option, none, some, List, [], ◌∷◌, ◌++◌,
  leb, ◌==◌, if◌then◌else◌, Text, codes, value, split_on, Dict, lookup, when,
}
use persistence_memory.Hash.{is_hex64}
use persistence_memory.Attest.Wire.{Crypto, WireError}
use persistence_memory.Attest.Messages.{AttestError, AttestKind, checkpoint_hash}
use persistence_memory.Replay.{genesis}

pub record Attestation : Type 0 where
  pub signer_seq : ℕ
  pub kind : AttestKind
  pub subject : Text
  pub subject_hash : Text
  pub prev_hash : Text
  pub key_id : Text
  pub signed_at : Text
  pub signature : Text
  pub attestation_hash : Text

-- `Truth`: what the database holds. `receipt_problem` returns no text for an intact receipt.
pub record Truth : Type 0 where
  pub block_hash : ℕ → Option Text
  pub receipt_problem : Text → Option Text

-- `DictTruth`, with the dictionaries that it is given.
abbrev or_missing : Option (Option Text) → Option Text
or_missing none = some (codes "receipt does not exist")
or_missing (some p) = p

unfoldable pub dict_truth : Dict ℕ Text → Dict Text (Option Text) → Truth
dict_truth blocks receipts = record {
  block_hash = λ h. lookup h blocks;
  receipt_problem = λ id. or_missing (lookup id receipts);
}

pub data LogProblem : Type 0 where
  wrong_seq broken_link bad_hash replaced_void : LogProblem
  bad_message : AttestError → LogProblem
  no_authority too_early revoked other_signer : LogProblem
  bad_signature : WireError → LogProblem
  bad_block_subject no_block other_block bad_receipt_subject : LogProblem
  receipt_says : Text → LogProblem
  bad_checkpoint_subject not_just_before not_zero_head other_head not_zero_tip other_tip :
      LogProblem
  other_checkpoint_hash already_attested equivocation : LogProblem

pub record Summary : Type 0 where
  pub count : ℕ
  pub head_seq : ℕ
  pub head_hash : Text
  pub keys_used : List Text
  pub newest_checkpoint_seq : ℕ
  pub cosigned_checkpoint_seq : ℕ
  pub voided : List ℕ
  pub bad_seqs : List ℕ
  pub block_seq : Dict ℕ ℕ
  pub block_subject_hash : Dict ℕ Text
  pub receipt_seq : Dict Text ℕ
  pub valid_checkpoints : Dict ℕ ℕ
  pub cosigned_checkpoints : List ℕ

abbrev all_digits : Text → Bool
all_digits [] = true
all_digits (c ∷ cs) = leb 48 c && leb c 57 && all_digits cs

abbrev is_number : Text → Bool
is_number [] = false
is_number (c ∷ cs) = all_digits (c ∷ cs)

abbrev checkpoint_parts : List Text → Option (ℕ × Text × ℕ × Text)
checkpoint_parts (tag ∷ seq ∷ head ∷ height ∷ tip ∷ []) =
    if tag == codes "checkpoint"
    then (if is_number seq && is_number height && is_hex64 head && is_hex64 tip
        then some (value seq, head, value height, tip)
        else none)
    else none
checkpoint_parts _ = none

-- The digits are ASCII digits; `str.isdigit` holds of others too.
unfoldable pub parse_checkpoint_subject : Text → Option (ℕ × Text × ℕ × Text)
parse_checkpoint_subject subject = checkpoint_parts (split_on b':' subject)

-- `block:([1-9][0-9]*)`
abbrev block_parts : List Text → Option ℕ
block_parts (tag ∷ (c ∷ cs) ∷ []) =
    if tag == codes "block" && leb 49 c && leb c 57 && all_digits cs
    then some (value (c ∷ cs))
    else none
block_parts _ = none

unfoldable pub parse_block_subject : Text → Option ℕ
parse_block_subject subject = block_parts (split_on b':' subject)

abbrev pub block_matches : Text → Option Text → List LogProblem
block_matches hash none = no_block ∷ []
block_matches hash (some real) = when (not (real == hash)) other_block

abbrev pub check_block : Truth → Text → Option ℕ → List LogProblem
check_block truth hash none = bad_block_subject ∷ []
check_block truth hash (some height) = block_matches hash (truth.block_hash height)

abbrev receipt_result : Option Text → List LogProblem
receipt_result none = []
receipt_result (some []) = []
receipt_result (some (c ∷ cs)) = receipt_says (c ∷ cs) ∷ []

abbrev check_receipt : Truth → Attestation → List LogProblem
check_receipt truth a =
    if a.subject == codes "eo:sha256:" ++ a.subject_hash
    then receipt_result (truth.receipt_problem a.subject)
    else bad_receipt_subject ∷ []

abbrev head_matches : Text → Option Attestation → Bool
head_matches head none = false
head_matches head (some prior) = prior.attestation_hash == head

abbrev tip_matches : Text → Option Text → Bool
tip_matches tip none = false
tip_matches tip (some real) = real == tip

abbrev check_checkpoint :
    Crypto
    → Text
    → Attestation
    → Dict ℕ Attestation
    → Truth
    → Option (ℕ × Text × ℕ × Text)
    → List LogProblem
check_checkpoint c tenant a by_seq truth none = bad_checkpoint_subject ∷ []
check_checkpoint c tenant a by_seq truth (some (covered_seq, covered_head, tip_height, tip_hash)) =
    when (not (covered_seq + 1 == a.signer_seq)) not_just_before
    ++ ((if covered_seq == 0
          then when (not (covered_head == genesis)) not_zero_head
          else when (not (head_matches covered_head (lookup covered_seq by_seq))) other_head)
        ++ ((if tip_height == 0
              then when (not (tip_hash == genesis)) not_zero_tip
              else when (not (tip_matches tip_hash (truth.block_hash tip_height))) other_tip)
            ++ when
                (not (
                  checkpoint_hash c.sha256 tenant covered_seq covered_head tip_height tip_hash
                  == a.subject_hash))
                other_checkpoint_hash))

abbrev pub subject_of_kind :
    Crypto → Text → Attestation → Dict ℕ Attestation → Truth → AttestKind → List LogProblem
subject_of_kind c tenant a by_seq truth AttestKind.block =
    check_block truth a.subject_hash (parse_block_subject a.subject)
subject_of_kind c tenant a by_seq truth AttestKind.receipt = check_receipt truth a
subject_of_kind c tenant a by_seq truth _ =
    check_checkpoint c tenant a by_seq truth (parse_checkpoint_subject a.subject)

unfoldable pub check_subject :
    Crypto → Text → Attestation → Dict ℕ Attestation → Truth → List LogProblem
check_subject c tenant a by_seq truth = subject_of_kind c tenant a by_seq truth a.kind
