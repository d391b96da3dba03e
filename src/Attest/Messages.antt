-- ===== src/Attest/Messages.antt =====
-- app/attest.py: the texts that are signed and hashed.
use persistence_memory.Attest.Wire.{normalize_signature}
use persistence_memory.Prelude.{
  ◌+◌, text_eq, nat_eq, ℕ, Bool, true, false, not, ◌&&◌, ◌||◌, Option, none, some, [], ◌∷◌, ◌++◌,
  leb, ◌==◌, if◌then◌else◌, length, contains, Text, codes, show, Result, ok, err, ◌>>=◌, ◌>>◌,
  raise_if,
}
use persistence_memory.Hash.{Sha256, to_hex, is_hex64}

-- `AttestError`, by its code.
pub data AttestError : Type 0 where
  kind_unknown field_invalid key_malformed key_unsupported : AttestError

-- `ATTEST_KINDS`; `other` is any other text.
pub data AttestKind : Type 0 where
  block receipt checkpoint : AttestKind
  other : Text → AttestKind

pub data TrustKind : Type 0 where
  key revoke root_add cosign void : TrustKind
  other : Text → TrustKind

abbrev pub attest_kind_name : AttestKind → Text
attest_kind_name AttestKind.block = codes "block"
attest_kind_name AttestKind.receipt = codes "receipt"
attest_kind_name AttestKind.checkpoint = codes "checkpoint"
attest_kind_name (AttestKind.other t) = t

abbrev pub trust_kind_name : TrustKind → Text
trust_kind_name TrustKind.key = codes "key"
trust_kind_name TrustKind.revoke = codes "revoke"
trust_kind_name TrustKind.root_add = codes "root_add"
trust_kind_name TrustKind.cosign = codes "cosign"
trust_kind_name TrustKind.void = codes "void"
trust_kind_name (TrustKind.other t) = t

abbrev is_attest_kind : AttestKind → Bool
is_attest_kind (AttestKind.other t) = false
is_attest_kind _ = true

abbrev is_trust_kind : TrustKind → Bool
is_trust_kind (TrustKind.other t) = false
is_trust_kind _ = true

-- `len:tenant` and the rest of the text behind it.
abbrev pub tenant_part : Text → Text → Text
tenant_part tenant rest = show (length tenant) ++ b':' ∷ (tenant ++ rest)

unfoldable pub clean : Text → Result AttestError Text
clean value =
    if contains b'|' value || (contains 10 value || contains 13 value)
    then err field_invalid
    else ok value

abbrev is_digit : ℕ → Bool
is_digit c = leb 48 c && leb c 57

-- `^[0-9]{4}-[0-9]{2}-[0-9]{2}T[0-9]{2}:[0-9]{2}:[0-9]{2}Z$`, `0` standing for any digit.
abbrev matches : Text → Text → Bool
matches [] [] = true
matches [] (c ∷ cs) = c == 10 && matches [] cs
matches (p ∷ ps) [] = false
matches (p ∷ ps) (c ∷ cs) = (if p == b'0' then is_digit c else p == c) && matches ps cs

abbrev at_most_one_more : Text → Text → Bool
at_most_one_more shape t = leb (length t) (length shape + 1)

unfoldable pub is_signed_at : Text → Bool
is_signed_at t =
    let shape = codes "0000-00-00T00:00:00Z" in at_most_one_more shape t && matches shape t

unfoldable pub attestation_message :
    AttestKind → Text → Text → Text → ℕ → Text → Text → Result AttestError Text
attestation_message kind tenant subject subject_hash signer_seq prev_hash signed_at = do
  raise_if (not (is_attest_kind kind)) kind_unknown
  raise_if (not (is_hex64 subject_hash) || not (is_hex64 prev_hash)) field_invalid
  raise_if (not (is_signed_at signed_at)) field_invalid
  cleaned ← clean subject
  ok (
      codes "jarvis-attest|v1|"
      ++ (attest_kind_name kind
          ++ b'|'
            ∷ tenant_part tenant (
                b'|'
                ∷ (cleaned
                    ++ b'|'
                      ∷ (subject_hash
                          ++ b'|' ∷ (show signer_seq ++ b'|' ∷ (prev_hash ++ b'|' ∷ signed_at)))))))

abbrev show_arg : Option ℕ → Text
show_arg none = []
show_arg (some n) = show n

abbrev or_empty : Option Text → Text
or_empty none = []
or_empty (some t) = t

-- `if subject_hash and not _HEX64.match(subject_hash)`
abbrev bad_subject_hash : Option Text → Bool
bad_subject_hash none = false
bad_subject_hash (some []) = false
bad_subject_hash (some (c ∷ cs)) = not (is_hex64 (c ∷ cs))

unfoldable pub trust_message :
    TrustKind → Text → Text → Option ℕ → Option Text → ℕ → Text → Result AttestError Text
trust_message kind tenant key_id arg subject_hash stmt_seq prev_hash = do
  raise_if (not (is_trust_kind kind)) kind_unknown
  raise_if (bad_subject_hash subject_hash) field_invalid
  ok (
      codes "jarvis-trust|v1|"
      ++ (trust_kind_name kind
          ++ b'|'
            ∷ tenant_part tenant (
                b'|'
                ∷ (key_id
                    ++ b'|'
                      ∷ (show_arg arg
                          ++ b'|'
                            ∷ (or_empty subject_hash
                                ++ b'|' ∷ (show stmt_seq ++ b'|' ∷ prev_hash)))))))

abbrev log_text : Text → Text → Text → Text
log_text message signed_by signature =
    message ++ 10 ∷ (signed_by ++ 10 ∷ normalize_signature signature)

module _ (h : Sha256) where
  unfoldable pub attestation_hash : Text → Text → Text → Text
  attestation_hash message key_id signature = to_hex (h.digest (log_text message key_id signature))

  unfoldable pub statement_hash : Text → Text → Text → Text
  statement_hash message signed_by signature =
      to_hex (h.digest (log_text message signed_by signature))

  unfoldable pub checkpoint_hash : Text → ℕ → Text → ℕ → Text → Text
  checkpoint_hash tenant covered_seq covered_head tip_height tip_hash = to_hex (
      h.digest (
        codes "jarvis-checkpoint|v1|"
        ++ tenant_part tenant (
            b'|'
            ∷ (show covered_seq
                ++ b'|' ∷ (covered_head ++ b'|' ∷ (show tip_height ++ b'|' ∷ tip_hash))))))
