-- ===== src/Attest/Trust/Accept.antt =====
-- What holds of a trust statement that the replay accepts.
use persistence_memory.Prelude.{
  text_eq, nat_eq, ℕ, ◌≡◌, refl, inl, inr, true, List, [], ◌∷◌, arith, Bool-cases, append-nil_iff,
  when-nil_iff, not-eq_iff, Text, Dict, member, Result, ok, err,
}
use persistence_memory.Attest.Wire.{Crypto, PublicKey, WireError, verify_sshsig, ledger_namespace}
use persistence_memory.Attest.Messages.{AttestError, statement_hash}
use persistence_memory.Attest.Trust.{
  Statement, TrustProblem, TrustState, wrong_seq, broken_link, bad_hash, other_signer, message_of,
  contents_problems, signature_problems, signer_problems, if_none, check_statement,
}

module _ (c : Crypto) (tenant : Text) where
  -- The signature verifies over the statement's text, by the key that the statement names.
  pub record Signed (s : Statement) : Type 0 where
    pub message : Text
    pub is_message : message_of c tenant s ≡ ok message
    pub signer : PublicKey
    pub verified : verify_sshsig c s.signature message ledger_namespace ≡ ok signer
    pub named : signer.key_id ≡ s.signed_by
    pub hashed : statement_hash c.sha256 message s.signed_by s.signature ≡ s.statement_hash

  if_none-nil : (xs ys : List TrustProblem) → if_none c tenant xs ys ≡ [] → (xs ≡ []) × (ys ≡ [])
  if_none-nil [] ys e = (refl, e)
  if_none-nil (x ∷ xs) ys e = absurd (cc)

  Signed-of :
      (roots : Dict Text PublicKey) (s : Statement) (m : Result AttestError Text)
      → message_of c tenant s ≡ m
      → contents_problems c tenant s m ≡ []
      → signature_problems c tenant roots s m ≡ []
      → Signed s × (member s.signed_by roots ≡ true)
  Signed-of roots s (err e) em contents sig = absurd (cc)
  Signed-of roots s (ok message) em contents sig = elim (Bool-cases (member s.signed_by roots)) [
    | inr not_root ↦ absurd (ground arith)
    | inl root ↦
        (by (verify_sshsig c s.signature message ledger_namespace) refl (rw root at sig), root)
  ]
    where
      by :
          (v : Result WireError PublicKey)
          → verify_sshsig c s.signature message ledger_namespace ≡ v
          → signer_problems c tenant s v ≡ []
          → Signed s
      by (err e) ev none_found = absurd (cc)
      by (ok signer) ev none_found = record {
        message = message;
        is_message = em;
        signer = signer;
        verified = ev;
        named = (not-eq_iff _ _).0 ((when-nil_iff _ other_signer).0 none_found);
        hashed = (not-eq_iff _ _).0 ((when-nil_iff _ bad_hash).0 contents);
      }

  pub check_statement-nil :
      (st : TrustState) (expected : ℕ) (last : Text) (s : Statement)
      → check_statement c tenant st expected last s ≡ []
      → Signed s
        × (member s.signed_by st.roots ≡ true)
        × (s.stmt_seq ≡ expected)
        × (s.prev_hash ≡ last)
  unfolding check_statement
  check_statement-nil st expected last s e =
      let (before, sig) = if_none-nil _ _ e in
      let (position, contents) = (append-nil_iff _ _).0 before in
      let (seq_ok, link_ok) = (append-nil_iff _ _).0 position in
      let (signed, root) = Signed-of st.roots s (message_of c tenant s) refl contents sig in
      (
        signed,
        root,
        (not-eq_iff _ _).0 ((when-nil_iff _ wrong_seq).0 seq_ok),
        (not-eq_iff _ _).0 ((when-nil_iff _ broken_link).0 link_ok),
      )
