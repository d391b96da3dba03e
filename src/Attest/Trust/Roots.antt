-- ===== src/Attest/Trust/Roots.antt =====
-- Who is trusted after the replay of the trust log: nothing that is not signed by a root counts.
use persistence_memory.Attest.Trust.Accept.{Signed, check_statement-nil}
use persistence_memory.Prelude.{
  All, sort, sort-In, if◌then◌else◌, Bool-cases, text_eq, nat_eq, text_beq_iff, ℕ, ◌≡◌, refl, ◌⊎◌,
  inl, inr, Bool, true, false, Option, none, some, List, [], ◌∷◌, arith, ◌==◌, In, Text, Dict,
  lookup, member, member-insert, member_of_lookup, Result, ok, err,
}
use persistence_memory.Attest.Wire.{Crypto, PublicKey, WireError, parse_public_key}
use persistence_memory.Attest.Messages.{TrustKind}
use persistence_memory.Attest.Trust.{
  Statement, KeyAuth, TrustState, Applied, TrustProblem, no_pubkey, bad_pubkey, other_fingerprint,
  refuse, positive, add_root, authorize, fresh_auth, revoked, add_key, with_key, with_pubkey,
  revoke_key, by_kind, apply_statement, check_statement, step, finish, apply_if_none, by_stmt_seq,
  trust_loop, evaluate_trust,
}

module _ (c : Crypto) (st : TrustState) (s : Statement) where
  -- A statement with a public key is refused, or the key that it carries is used.
  pub with_pubkey-cases :
      (P : Applied → Type 0) (f : PublicKey → Applied)
      → ((p : TrustProblem) → P (refuse st p))
      → ((key : PublicKey) → P (f key))
      → (o : Option Text) → P (with_pubkey c st s f o)
  with_pubkey-cases P f bad good none = bad no_pubkey
  with_pubkey-cases P f bad good (some []) = bad no_pubkey
  with_pubkey-cases P f bad good (some (a ∷ text)) = parsed (parse_public_key c (a ∷ text))
    where
      parsed : (r : Result WireError PublicKey) → P (with_key st s f r)
      parsed (err e) = bad (bad_pubkey e)
      parsed (ok key) = named (key.key_id == s.key_id) key
        where
          named :
              (b : Bool) (key : PublicKey) → P (if b then f key else refuse st other_fingerprint)
          named true key = good key
          named false key = bad other_fingerprint

  abbrev OldRoot : TrustKind → Text → Applied → Type 0
  OldRoot k id r =
      member id r.1.roots ≡ true
      → (member id st.roots ≡ true) ⊎ ((k ≡ TrustKind.root_add) × (s.key_id ≡ id))

  by_kind-roots : (id : Text) (k : TrustKind) → OldRoot k id (by_kind c st s k)
  by_kind-roots id TrustKind.root_add =
      with_pubkey-cases (OldRoot TrustKind.root_add id) (add_root st s) (λ p h. inl h)
        (λ key h. ground (arith, member-insert s.key_id id key st.roots, text_beq_iff s.key_id id))
        s.pubkey
  by_kind-roots id TrustKind.key =
      with_pubkey-cases (OldRoot TrustKind.key id) (add_key st s) (λ p h. inl h)
        (λ key h. ground arith) s.pubkey
  by_kind-roots id _ = λ h. ground arith

  abbrev OldKey : TrustKind → Text → Applied → Type 0
  OldKey k id r =
      member id r.1.keys ≡ true
      → (member id st.keys ≡ true) ⊎ ((k ≡ TrustKind.key) × (s.key_id ≡ id))

  authorize-keys :
      (id : Text) (key : PublicKey) (arg : Option ℕ)
      → OldKey TrustKind.key id (authorize st s key arg)
  authorize-keys id key none h = inl h
  authorize-keys id key (some n) h =
      ground
        (arith, member-insert s.key_id id (fresh_auth s key n) st.keys, text_beq_iff s.key_id id)

  revoke_key-keys :
      (id : Text) (o : Option KeyAuth) (arg : Option ℕ)
      → lookup s.key_id st.keys ≡ o
      → OldKey TrustKind.revoke id (revoke_key st s o arg)
  revoke_key-keys id none arg e h = inl h
  revoke_key-keys id (some auth) none e h = inl h
  revoke_key-keys id (some auth) (some n) e h = ground (
    arith,
    member-insert s.key_id id (revoked auth n) st.keys,
    text_beq_iff s.key_id id,
    member_of_lookup s.key_id st.keys auth e,
  )

  by_kind-keys : (id : Text) (k : TrustKind) → OldKey k id (by_kind c st s k)
  by_kind-keys id TrustKind.root_add =
      with_pubkey-cases (OldKey TrustKind.root_add id) (add_root st s) (λ p h. inl h)
        (λ key h. ground arith) s.pubkey
  by_kind-keys id TrustKind.key =
      with_pubkey-cases (OldKey TrustKind.key id) (add_key st s) (λ p h. inl h)
        (λ key. elim (Bool-cases (member s.key_id st.keys)) [
          | inl again ↦ λ h. ground arith
          | inr new ↦ λ h. authorize-keys id key (positive s.arg) (rw new at h)
        ])
        s.pubkey
  by_kind-keys id TrustKind.revoke = revoke_key-keys id (lookup s.key_id st.keys) s.arg refl
  by_kind-keys id _ = λ h. ground arith

module _ (c : Crypto) (tenant : Text) (pinned : Dict Text PublicKey)
    (statements : List Statement) where
  -- A root: pinned from outside, or added by a statement of the log that a root signed.
  pub data Rooted : Text → Type 0 where
    from_outside : (id : Text) → member id pinned ≡ true → Rooted id
    added :
        (id : Text) (s : Statement)
        → In s statements
        → s.kind ≡ TrustKind.root_add
        → s.key_id ≡ id
        → Signed c tenant s
        → Rooted s.signed_by
        → Rooted id

  -- A signing key: authorized by a statement of the log that a root signed.
  pub record Authorized (id : Text) : Type 0 where
    pub statement : Statement
    pub in_log : In statement statements
    pub is_key : statement.kind ≡ TrustKind.key
    pub names : statement.key_id ≡ id
    pub signed : Signed c tenant statement
    pub by_root : Rooted statement.signed_by

  pub record IsBacked (st : TrustState) : Type 0 where
    pub roots : (id : Text) → member id st.roots ≡ true → Rooted id
    pub keys : (id : Text) → member id st.keys ≡ true → Authorized id

  apply_statement-IsBacked :
      (st : TrustState) (s : Statement)
      → In s statements
      → Signed c tenant s
      → Rooted s.signed_by
      → IsBacked st
      → IsBacked (apply_statement c st s).1
  unfolding apply_statement
  apply_statement-IsBacked st s mem signed root b = record {
    roots = λ id h. elim (by_kind-roots c st s id s.kind h) [
      | inl old ↦ b.roots id old
      | inr (kind, name) ↦ added id s mem kind name signed root
    ];
    keys = λ id h. elim (by_kind-keys c st s id s.kind h) [
      | inl old ↦ b.keys id old
      | inr (kind, name) ↦ record {
        statement = s;
        in_log = mem;
        is_key = kind;
        names = name;
        signed = signed;
        by_root = root;
      }
    ];
  }

  step-IsBacked :
      (st : TrustState) (expected : ℕ) (last : Text) (s : Statement)
      → In s statements
      → IsBacked st
      → IsBacked (step c tenant st expected last s)
  unfolding step
  step-IsBacked st expected last s mem b =
      checked (check_statement c tenant st expected last s) refl
    where
      checked :
          (bad : List TrustProblem)
          → check_statement c tenant st expected last s ≡ bad
          → IsBacked (finish c tenant s (apply_if_none c tenant st s bad))
      checked (p ∷ ps) e = record { roots = b.roots; keys = b.keys }
      checked [] e =
          let (signed, root, _, _) = check_statement-nil c tenant st expected last s e in
          let after = apply_statement-IsBacked st s mem signed (b.roots s.signed_by root) b in
          record { roots = after.roots; keys = after.keys }

  trust_loop-IsBacked :
      (ss : List Statement) (st : TrustState) (expected : ℕ) (last : Text)
      → All (λ s. In s statements) ss
      → IsBacked st
      → IsBacked (trust_loop c tenant st expected last ss)
  unfolding trust_loop
  trust_loop-IsBacked [] st expected last mem b = b
  trust_loop-IsBacked (s ∷ ss) st expected last mem b =
      trust_loop-IsBacked ss _ _ _ mem.1 (step-IsBacked st expected last s mem.0 b)

  evaluate_trust-IsBacked : IsBacked (evaluate_trust c tenant pinned statements)
  unfolding evaluate_trust
  evaluate_trust-IsBacked =
      trust_loop-IsBacked (sort (by_stmt_seq c tenant) statements) _ _ _
        (sort-In (by_stmt_seq c tenant) statements)
        (record { roots = λ id h. from_outside id h; keys = λ id h. absurd (cc) })

  -- After the replay of any trust log, whoever counts as a root was pinned from outside, or was
  -- added by a statement of the log that verifies as signed by what was itself a root.
  pub evaluate_trust-Rooted :
      (id : Text) → member id (evaluate_trust c tenant pinned statements).roots ≡ true → Rooted id
  evaluate_trust-Rooted = evaluate_trust-IsBacked.roots

  -- After the replay of any trust log, whoever counts as a signing key was authorized by a
  -- statement of the log, for this key, that verifies as signed by a root: signing keys authorize
  -- nobody.
  pub evaluate_trust-Authorized :
      (id : Text)
      → member id (evaluate_trust c tenant pinned statements).keys ≡ true
      → Authorized id
  evaluate_trust-Authorized = evaluate_trust-IsBacked.keys
