-- ===== src/Witness.antt =====
-- app/witness.py: the offline check of an exported ledger against pinned roots and against what an
-- earlier run recorded.
pub mod Append
use persistence_memory.Prelude.{
  text_eq, nat_eq, ℕ, Bool, true, false, Option, none, some, List, [], ◌∷◌, ◌++◌, map, ltb, leb,
  ◌==◌, if◌then◌else◌, Text, Dict, lookup, insert, sort, text_leb, when, Result, ok, err, ◌>>=◌,
}
use persistence_memory.Attest.Wire.{Crypto, PublicKey}
use persistence_memory.Attest.Trust.{Statement, TrustState, TrustProblem, evaluate_trust}
use persistence_memory.Attest.Log.{Attestation, LogProblem, Summary, dict_truth}
use persistence_memory.Attest.Evaluate.{evaluate_attestations}

-- One tenant's part of the export.
pub record TenantData : Type 0 where
  pub statements : List Statement
  pub attestations : List Attestation
  pub blocks : List (ℕ × Text)
  pub receipts : List Text

-- What a run records of a tenant.
pub record Snapshot : Type 0 where
  pub attestations : Dict ℕ Text
  pub statements : Dict ℕ Text
  pub blocks : Dict ℕ Text
  pub cosigned_checkpoint_seq : ℕ

pub data Seen : Type 0 where
  attestation trust_statement sealed_block : Seen

pub data WitnessProblem : Type 0 where
  in_trust : ℕ × TrustProblem → WitnessProblem
  in_log : ℕ × LogProblem → WitnessProblem
  in_cosign : ℕ → WitnessProblem
  gone changed : Seen → ℕ → WitnessProblem
  cosign_gone : ℕ → WitnessProblem

pub record Checked : Type 0 where
  pub problems : List WitnessProblem
  pub summary : Summary
  pub snapshot : Snapshot
  pub trust : TrustState

-- `{key(x): value(x) for x in rows}`
unfoldable pub dict_of {ℓ κ ι} :
    {A : Type ℓ} {V : Type ι} {K : Type κ}
    → (Dict K V → A → Dict K V)
    → Dict K V
    → List A
    → Dict K V
dict_of put d [] = d
dict_of put d (x ∷ xs) = dict_of put (put d x) xs

abbrev pub put_attestation : Dict ℕ Text → Attestation → Dict ℕ Text
put_attestation d a = insert a.signer_seq a.attestation_hash d

abbrev pub put_statement : Dict ℕ Text → Statement → Dict ℕ Text
put_statement d s = insert s.stmt_seq s.statement_hash d

abbrev pub put_block : Dict ℕ Text → ℕ × Text → Dict ℕ Text
put_block d (height, hash) = insert height hash d

abbrev pub put_receipt : Dict Text (Option Text) → Text → Dict Text (Option Text)
put_receipt d r = insert r none d

-- One entry that was seen, against what is there now.
abbrev pub seen_problem : Seen → ℕ → Text → Option Text → List WitnessProblem
seen_problem label n was none = gone label n ∷ []
seen_problem label n was (some now) = if now == was then [] else changed label n ∷ []

unfoldable pub seen_loop : Seen → Dict ℕ Text → List (ℕ × Text) → List WitnessProblem
seen_loop label now [] = []
seen_loop label now ((n, was) ∷ more) =
    seen_problem label n was (lookup n now) ++ seen_loop label now more

abbrev pub by_number : ℕ × Text → ℕ × Text → Bool
by_number (n, _) (m, _) = leb n m

abbrev pub seen_problems : Seen → Dict ℕ Text → Dict ℕ Text → List WitnessProblem
seen_problems label was now = seen_loop label now (sort by_number was)

abbrev no_cosign : List ℕ → Bool
no_cosign [] = true
no_cosign (n ∷ ns) = false

abbrev pub extension_problems : Option Snapshot → Snapshot → List ℕ → List WitnessProblem
extension_problems none now bad = []
extension_problems (some seen) now bad =
    seen_problems attestation seen.attestations now.attestations
    ++ (seen_problems trust_statement seen.statements now.statements
        ++ (seen_problems sealed_block seen.blocks now.blocks
            ++ when
                (if ltb now.cosigned_checkpoint_seq seen.cosigned_checkpoint_seq
                  then no_cosign bad
                  else false)
                (cosign_gone seen.cosigned_checkpoint_seq)))

module _ (c : Crypto) where
  -- What the export holds now.
  abbrev pub snapshot_of : TenantData → Summary → Snapshot
  snapshot_of t s = record {
    attestations = dict_of put_attestation [] t.attestations;
    statements = dict_of put_statement [] t.statements;
    blocks = dict_of put_block [] t.blocks;
    cosigned_checkpoint_seq = s.cosigned_checkpoint_seq;
  }

  unfoldable pub check_tenant : Text → TenantData → Dict Text PublicKey → Option Snapshot → Checked
  check_tenant tenant t roots seen =
      let trust = evaluate_trust c tenant roots t.statements in
      let truth = dict_truth (dict_of put_block [] t.blocks) (dict_of put_receipt [] t.receipts) in
      let (log_problems, bad, summary) =
        evaluate_attestations c tenant trust truth t.attestations in
      let now = snapshot_of t summary in
      record {
        problems =
            map in_trust trust.problems
            ++ (map in_log log_problems ++ (map in_cosign bad ++ extension_problems seen now bad));
        summary = summary;
        snapshot = now;
        trust = trust;
      }

  pub data WitnessError : Type 0 where
    no_roots : WitnessError
    no_tenant : Text → WitnessError

  abbrev check_named :
      Dict Text TenantData
      → Dict Text PublicKey
      → Dict Text Snapshot
      → Text
      → Option TenantData
      → Result WitnessError Checked
  check_named tenants roots state name none = err (no_tenant name)
  check_named tenants roots state name (some t) = ok (check_tenant name t roots (lookup name state))

  unfoldable pub verify_names :
      Dict Text TenantData
      → Dict Text PublicKey
      → Dict Text Snapshot
      → Dict Text Checked
      → List Text
      → Result WitnessError (Dict Text Checked)
  verify_names tenants roots state results [] = ok results
  verify_names tenants roots state results (name ∷ names) =
      check_named tenants roots state name (lookup name tenants) >>= λ r.
      verify_names tenants roots state (insert name r results) names

  abbrev names_of : Option Text → Dict Text TenantData → List Text
  names_of (some (a ∷ name)) tenants = (a ∷ name) ∷ []
  names_of _ tenants = sort text_leb (map (λ p. p.0) tenants)

  unfoldable pub verify_export :
      Dict Text TenantData
      → Dict Text PublicKey
      → Dict Text Snapshot
      → Option Text
      → Result WitnessError (Dict Text Checked)
  verify_export tenants [] state tenant = err no_roots
  verify_export tenants (root ∷ roots) state tenant =
      verify_names tenants (root ∷ roots) state [] (names_of tenant tenants)

-- The state that the next run is given.
unfoldable pub write_state : Dict Text Snapshot → Dict Text Checked → Dict Text Snapshot
write_state state [] = state
write_state state ((name, r) ∷ results) = write_state (insert name r.snapshot state) results
