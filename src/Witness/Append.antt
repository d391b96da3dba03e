-- ===== src/Witness/Append.antt =====
-- What a check without problems says of an earlier one: nothing that was seen is gone or changed.
use persistence_memory.Prelude.{
  text_eq, nat_eq, ℕ, ◌≡◌, ap, inl, inr, Option, none, some, List, [], ◌∷◌, ◌++◌, ◌==◌, Text, Dict,
  lookup, lookup-All, All-sort, sort, All, Bool-cases, append-nil_iff, text_beq_iff, map,
}
use persistence_memory.Attest.Wire.{Crypto, PublicKey}
use persistence_memory.Attest.Trust.{evaluate_trust}
use persistence_memory.Attest.Evaluate.{evaluate_attestations}
use persistence_memory.Attest.Log.{dict_truth}
use persistence_memory.Witness.{
  TenantData, Snapshot, Seen, attestation, trust_statement, sealed_block, WitnessProblem,
  seen_problem, seen_loop, by_number, seen_problems, extension_problems, check_tenant, in_trust,
  in_log, in_cosign, dict_of, put_block, put_receipt,
}

seen_problem-nil :
    (label : Seen) (n : ℕ) (was : Text) (o : Option Text)
    → seen_problem label n was o ≡ []
    → o ≡ some was
seen_problem-nil label n was none e = absurd (cc)
seen_problem-nil label n was (some now) e = elim (Bool-cases (now == was)) [
  | inl same ↦ ap some ((text_beq_iff now was).0 same)
  | inr other ↦ absurd (not-nil (rw other at e))
]
  where
    not-nil : {p : WitnessProblem} {ps : List WitnessProblem} → p ∷ ps ≡ [] → ⊥
    not-nil h = cc

-- Every entry that was seen stands unchanged.
abbrev Stands : Dict ℕ Text → ℕ × Text → Type 0
Stands now (n, was) = lookup n now ≡ some was

seen_loop-Stands :
    (label : Seen) (now : Dict ℕ Text) (was : List (ℕ × Text))
    → seen_loop label now was ≡ []
    → All (Stands now) was
unfolding seen_loop
seen_loop-Stands label now [] e = tt
seen_loop-Stands label now ((n, t) ∷ was) e =
    let (first, rest) = (append-nil_iff _ _).0 e in
    (seen_problem-nil label n t (lookup n now) first, seen_loop-Stands label now was rest)

seen_problems-nil :
    (label : Seen) (was now : Dict ℕ Text) (n : ℕ) (t : Text)
    → seen_problems label was now ≡ []
    → lookup n was ≡ some t
    → lookup n now ≡ some t
seen_problems-nil label was now n t e there =
    lookup-All (Stands now) n t was
      (All-sort by_number (Stands now) was (seen_loop-Stands label now (sort by_number was) e))
      there

abbrev pub recorded : Seen → Snapshot → Dict ℕ Text
recorded attestation s = s.attestations
recorded trust_statement s = s.statements
recorded sealed_block s = s.blocks

last-nil : (xs ys zs ws : List WitnessProblem) → xs ++ (ys ++ (zs ++ ws)) ≡ [] → ws ≡ []
last-nil xs ys zs ws e =
    ((append-nil_iff zs ws).0 ((append-nil_iff ys _).0 ((append-nil_iff xs _).0 e).1).1).1

extension_problems-nil :
    (seen now : Snapshot) (bad : List ℕ) (label : Seen) (n : ℕ) (hash : Text)
    → extension_problems (some seen) now bad ≡ []
    → lookup n (recorded label seen) ≡ some hash
    → lookup n (recorded label now) ≡ some hash
extension_problems-nil seen now bad label n hash e there =
    let atts = seen_problems attestation seen.attestations now.attestations in
    let stmts = seen_problems trust_statement seen.statements now.statements in
    let sealed = seen_problems sealed_block seen.blocks now.blocks in
    let (no_atts, e1) = (append-nil_iff atts _).0 e in
    let (no_stmts, e2) = (append-nil_iff stmts _).0 e1 in
    let (no_blocks, _) = (append-nil_iff sealed _).0 e2 in by label no_atts no_stmts no_blocks there
  where
    by :
        (l : Seen)
        → seen_problems attestation seen.attestations now.attestations ≡ []
        → seen_problems trust_statement seen.statements now.statements ≡ []
        → seen_problems sealed_block seen.blocks now.blocks ≡ []
        → lookup n (recorded l seen) ≡ some hash
        → lookup n (recorded l now) ≡ some hash
    by attestation a b c = seen_problems-nil attestation seen.attestations now.attestations n hash a
    by trust_statement a b c =
        seen_problems-nil trust_statement seen.statements now.statements n hash b
    by sealed_block a b c = seen_problems-nil sealed_block seen.blocks now.blocks n hash c

-- When the check of an export against an earlier run finds no problem, every attestation, trust
-- statement and block that the earlier run recorded, by number and hash, is in the snapshot of the
-- export with the same hash: nothing was cut off or rewritten.
pub check_tenant-append :
    (c : Crypto) (tenant : Text) (t : TenantData) (roots : Dict Text PublicKey) (seen : Snapshot)
    (label : Seen) (n : ℕ) (hash : Text)
    → (check_tenant c tenant t roots (some seen)).problems ≡ []
    → lookup n (recorded label seen) ≡ some hash
    → lookup n (recorded label (check_tenant c tenant t roots (some seen)).snapshot) ≡ some hash
unfolding check_tenant
check_tenant-append c tenant t roots seen label n hash e there =
    let r = check_tenant c tenant t roots (some seen) in
    let trust = evaluate_trust c tenant roots t.statements in
    let truth = dict_truth (dict_of put_block [] t.blocks) (dict_of put_receipt [] t.receipts) in
    let ev = evaluate_attestations c tenant trust truth t.attestations in
    extension_problems-nil seen r.snapshot ev.1 label n hash
      (last-nil (map in_trust trust.problems) (map in_log ev.0) (map in_cosign ev.1)
        (extension_problems (some seen) r.snapshot ev.1) e)
      there
