-- ===== src/Attest/Trust/Chain.antt =====
-- A trust log in which the replay finds no problem is gapless and linked, and revocation is final.
use persistence_memory.Prelude.{
  ◌==◌, member_of_lookup, text_eq, nat_eq, text_beq_iff, ℕ, ◌+◌, ◌≤◌, ◌≡◌, refl, sym, ap, ◌∙◌, inl,
  inr, true, false, Option, none, some, List, [], ◌∷◌, arith, if◌then◌else◌, Bool-cases,
  append-nil_iff, Text, Dict, lookup, lookup-insert, member, sort, subst,
}
use persistence_memory.Attest.Wire.{Crypto, PublicKey}
use persistence_memory.Attest.Messages.{TrustKind}
use persistence_memory.Attest.Trust.{
  Statement, KeyAuth, TrustState, TrustProblem, Applied, lower_cutoff, revoked, fresh_auth,
  positive, target, void_at, cosign_at, add_key, add_root, authorize, revoke_key, by_kind,
  apply_statement, check_statement, label, finish, apply_if_none, step, trust_loop, by_stmt_seq,
  evaluate_trust,
}
use persistence_memory.Attest.Trust.Accept.{Signed, check_statement-nil}
use persistence_memory.Attest.Trust.Roots.{with_pubkey-cases}
use persistence_memory.Replay.{genesis}

module _ (c : Crypto) (tenant : Text) where
  -- The statements carry the numbers from `expected` on, each names the hash of the one before it,
  -- and each is hashed and signed as it says.
  abbrev pub Gapless : ℕ → Text → List Statement → Type 0
  Gapless expected last [] = Unit
  Gapless expected last (s ∷ ss) =
      (s.stmt_seq ≡ expected)
      × (s.prev_hash ≡ last)
      × Signed c tenant s
      × Gapless (s.stmt_seq + 1) s.statement_hash ss

  label-nil : (n : ℕ) (bad : List TrustProblem) → label c tenant n bad ≡ [] → bad ≡ []
  label-nil n [] e = refl
  label-nil n (p ∷ ps) e = absurd (cc)

  apply_statement-problems :
      (st : TrustState) (s : Statement) → (apply_statement c st s).1.problems ≡ st.problems
  unfolding apply_statement
  apply_statement-problems st s = by s.kind
    where
      Same : Applied → Type 0
      Same r = r.1.problems ≡ st.problems

      by : (k : TrustKind) → (by_kind c st s k).1.problems ≡ st.problems
      by TrustKind.root_add =
          with_pubkey-cases c st s (λ r. r.1.problems ≡ st.problems) (add_root st s) (λ p. refl)
            (λ key. ground arith) s.pubkey
      by TrustKind.key =
          with_pubkey-cases c st s (λ r. r.1.problems ≡ st.problems) (add_key st s) (λ p. refl)
            (λ key. ground arith) s.pubkey
      by _ = ground arith

  step-problems :
      (st : TrustState) (expected : ℕ) (last : Text) (s : Statement)
      → (step c tenant st expected last s).problems ≡ []
      → (st.problems ≡ []) × (check_statement c tenant st expected last s ≡ [])
  unfolding step
  step-problems st expected last s = checked (check_statement c tenant st expected last s)
    where
      checked :
          (bad : List TrustProblem)
          → (finish c tenant s (apply_if_none c tenant st s bad)).problems ≡ []
          → (st.problems ≡ []) × (bad ≡ [])
      checked (p ∷ ps) e = absurd (
          let parts = (append-nil_iff st.problems (label c tenant s.stmt_seq (p ∷ ps))).0 e in
          cc (parts.1))
      checked [] e = (sym (apply_statement-problems st s) ∙ ((append-nil_iff _ _).0 e).0, refl)

  trust_loop-problems :
      (ss : List Statement) (st : TrustState) (expected : ℕ) (last : Text)
      → (trust_loop c tenant st expected last ss).problems ≡ []
      → (st.problems ≡ []) × Gapless expected last ss
  unfolding trust_loop
  trust_loop-problems [] st expected last e = (e, tt)
  trust_loop-problems (s ∷ ss) st expected last e =
      let (here, rest) =
        trust_loop-problems ss (step c tenant st expected last s) (s.stmt_seq + 1) s.statement_hash
          e in
      let (before, none_found) = step-problems st expected last s here in
      let (signed, _, position, link) =
        check_statement-nil c tenant st expected last s none_found in
      (before, (position, link, signed, rest))

  -- When the replay of the trust log finds no problem, the statements, by number, run from 1 with
  -- no gap, repeat or altered link, and every one of them is hashed and signed as it says.
  pub evaluate_trust-Gapless :
      (pinned : Dict Text PublicKey) (statements : List Statement)
      → (evaluate_trust c tenant pinned statements).problems ≡ []
      → Gapless 1 genesis (sort (by_stmt_seq c tenant) statements)
  unfolding evaluate_trust
  evaluate_trust-Gapless pinned statements e =
      (trust_loop-problems (sort (by_stmt_seq c tenant) statements) _ 1 genesis e).1

-- A cutoff that is at least as strict: an absent one forbids nothing.
abbrev pub Stricter : Option ℕ → Option ℕ → Type 0
Stricter none new = Unit
Stricter (some n) none = ⊥
Stricter (some n) (some m) = m ≤ n

-- `id` is still authorized, from the same seq, and not past its cutoff.
abbrev pub Keeps : Text → KeyAuth → Dict Text KeyAuth → Type 0
Keeps id auth keys =
    (new : KeyAuth) × (lookup id keys ≡ some new)
    × (new.from_seq ≡ auth.from_seq)
    × Stricter auth.cutoff new.cutoff

Stricter-refl : (o : Option ℕ) → Stricter o o
Stricter-refl none = tt
Stricter-refl (some n) = omega arith

Stricter-trans : (o p q : Option ℕ) → Stricter o p → Stricter p q → Stricter o q
Stricter-trans none p q h k = tt
Stricter-trans (some n) (some m) (some l) h k = omega arith
Stricter-trans (some n) none q h k = absurd h
Stricter-trans (some n) (some m) none h k = absurd k

lower_cutoff-Stricter : (o : Option ℕ) (n : ℕ) → Stricter o (some (lower_cutoff o n))
lower_cutoff-Stricter none n = tt
lower_cutoff-Stricter (some m) n = ground arith

module _ (c : Crypto) (st : TrustState) (s : Statement) (id : Text) (auth : KeyAuth)
    (old : lookup id st.keys ≡ some auth) where
  abbrev Kept : Applied → Type 0
  Kept r = Keeps id auth r.1.keys

  unchanged : Keeps id auth st.keys
  unchanged = (auth, old, refl, Stricter-refl auth.cutoff)

  authorize-Kept :
      (key : PublicKey) (arg : Option ℕ)
      → member s.key_id st.keys ≡ false
      → Kept (authorize st s key arg)
  authorize-Kept key none new = unchanged
  authorize-Kept key (some n) new = (
    auth,
    lookup-insert s.key_id id (fresh_auth s key n) st.keys ∙ other,
    refl,
    Stricter-refl auth.cutoff,
  )
    where
      other : (if s.key_id == id then some (fresh_auth s key n) else lookup id st.keys) ≡ some auth
      other = ground (arith, text_beq_iff s.key_id id, member_of_lookup id st.keys auth old)

  revoke_key-Kept :
      (o : Option KeyAuth) (arg : Option ℕ)
      → lookup s.key_id st.keys ≡ o
      → Kept (revoke_key st s o arg)
  revoke_key-Kept none arg e = unchanged
  revoke_key-Kept (some a) none e = unchanged
  revoke_key-Kept (some a) (some n) e = elim (Bool-cases (s.key_id == id)) [
    | inl same ↦ (
      revoked a n,
      lookup-insert s.key_id id (revoked a n) st.keys ∙ (rw same),
      ap (λ (x : KeyAuth). x.from_seq) (mine same),
      subst (λ (x : KeyAuth). Stricter x.cutoff (some (lower_cutoff a.cutoff n))) (mine same)
          (lower_cutoff-Stricter a.cutoff n),
    )
    | inr other ↦ (
      auth,
      lookup-insert s.key_id id (revoked a n) st.keys ∙ (rw other old),
      refl,
      Stricter-refl auth.cutoff,
    )
  ]
    where
      mine : (s.key_id == id) ≡ true → a ≡ auth
      mine same = ground (arith, text_beq_iff s.key_id id)

  by_kind-Kept : (k : TrustKind) → Kept (by_kind c st s k)
  by_kind-Kept TrustKind.root_add =
      with_pubkey-cases c st s Kept (add_root st s) (λ p. unchanged)
        (λ key. elim (Bool-cases (member s.key_id st.roots)) [
          | inl again ↦ rw again unchanged
          | inr new ↦ rw new unchanged
        ])
        s.pubkey
  by_kind-Kept TrustKind.key =
      with_pubkey-cases c st s Kept (add_key st s) (λ p. unchanged)
        (λ key. elim (Bool-cases (member s.key_id st.keys)) [
          | inl again ↦ rw again unchanged
          | inr new ↦ rw new (authorize-Kept key (positive s.arg) new)
        ])
        s.pubkey
  by_kind-Kept TrustKind.revoke = revoke_key-Kept (lookup s.key_id st.keys) s.arg refl
  by_kind-Kept TrustKind.void = elim (Bool-cases (s.signed_by == s.key_id)) [
    | inl own ↦ rw own (voided (target s.arg s.subject_hash))
    | inr other ↦ rw other unchanged
  ]
    where
      voided : (o : Option (ℕ × Text)) → Kept (void_at st o)
      voided none = unchanged
      voided (some (n, hash)) = unchanged
  by_kind-Kept TrustKind.cosign = elim (Bool-cases (s.signed_by == s.key_id)) [
    | inl own ↦ rw own (cosigned (target s.arg s.subject_hash))
    | inr other ↦ rw other unchanged
  ]
    where
      cosigned : (o : Option (ℕ × Text)) → Kept (cosign_at st s o)
      cosigned none = unchanged
      cosigned (some (n, hash)) = unchanged
  by_kind-Kept (TrustKind.other t) = unchanged

module _ (c : Crypto) (tenant : Text) where
  step-Keeps :
      (st : TrustState) (expected : ℕ) (last : Text) (s : Statement) (id : Text) (auth : KeyAuth)
      → lookup id st.keys ≡ some auth
      → Keeps id auth (step c tenant st expected last s).keys
  unfolding step apply_statement
  step-Keeps st expected last s id auth old = checked (check_statement c tenant st expected last s)
    where
      checked :
          (bad : List TrustProblem)
          → Keeps id auth (finish c tenant s (apply_if_none c tenant st s bad)).keys
      checked (p ∷ ps) = unchanged c st s id auth old
      checked [] = by_kind-Kept c st s id auth old s.kind

  -- Whatever statements follow, good or bad, a key that is authorized stays so from the same
  -- signer_seq on, and its cutoff is never lifted or moved up.
  pub trust_loop-Keeps :
      (ss : List Statement) (st : TrustState) (expected : ℕ) (last id : Text) (auth : KeyAuth)
      → lookup id st.keys ≡ some auth
      → Keeps id auth (trust_loop c tenant st expected last ss).keys
  unfolding trust_loop
  trust_loop-Keeps [] st expected last id auth old = (auth, old, refl, Stricter-refl auth.cutoff)
  trust_loop-Keeps (s ∷ ss) st expected last id auth old =
      let (a, ea, from_a, cut_a) = step-Keeps st expected last s id auth old in
      let (b, eb, from_b, cut_b) =
        trust_loop-Keeps ss (step c tenant st expected last s) (s.stmt_seq + 1) s.statement_hash id
          a ea in
      (b, eb, from_b ∙ from_a, Stricter-trans auth.cutoff a.cutoff b.cutoff cut_a cut_b)
