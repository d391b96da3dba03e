-- ===== src/Attest/Trust.antt =====
-- app/attest.py, `evaluate_trust`: the replay of the trust log, which says who may sign.
pub mod Accept
pub mod Roots
pub mod Chain
use persistence_memory.Prelude.{
  when, text_eq, nat_eq, ℕ, ◌+◌, ◌≡◌, Bool, true, false, not, ◌&&◌, ◌||◌, Option, none, some, List,
  [], ◌∷◌, ◌++◌, ltb, leb, ◌==◌, if◌then◌else◌, Text, Dict, lookup, insert, member, sort, Result,
  ok, err,
}
use persistence_memory.Attest.Wire.{
  Crypto, PublicKey, WireError, verify_sshsig, parse_public_key, ledger_namespace,
}
use persistence_memory.Attest.Messages.{AttestError, TrustKind, trust_message, statement_hash}
use persistence_memory.Replay.{genesis}

pub record Statement : Type 0 where
  pub stmt_seq : ℕ
  pub kind : TrustKind
  pub key_id : Text
  pub pubkey : Option Text
  pub arg : Option ℕ
  pub subject_hash : Option Text
  pub prev_hash : Text
  pub signed_by : Text
  pub signature : Text
  pub statement_hash : Text

pub record KeyAuth : Type 0 where
  pub key : PublicKey
  pub from_seq : ℕ
  pub stmt_seq : ℕ
  pub cutoff : Option ℕ

pub record Cosign : Type 0 where
  pub checkpoint_seq : ℕ
  pub checkpoint_hash : Text
  pub root_id : Text
  pub stmt_seq : ℕ

-- The texts of the problems of one statement.
pub data TrustProblem : Type 0 where
  wrong_seq broken_link bad_hash not_a_root other_signer : TrustProblem
  bad_message : AttestError → TrustProblem
  bad_signature : WireError → TrustProblem
  no_pubkey : TrustProblem
  bad_pubkey : WireError → TrustProblem
  other_fingerprint root_again key_again no_from_seq never_authorized no_cutoff : TrustProblem
  not_own_root no_target unknown_kind : TrustProblem

pub record TrustState : Type 0 where
  pub roots : Dict Text PublicKey
  pub keys : Dict Text KeyAuth
  pub cosigns : List Cosign
  pub voids : Dict ℕ Text
  pub problems : List (ℕ × TrustProblem)
  pub head_seq : ℕ
  pub head_hash : Text

-- `_apply_statement`: the problems, and the state.
abbrev pub Applied : Type 0
Applied = List TrustProblem × TrustState

abbrev pub refuse : TrustState → TrustProblem → Applied
refuse st p = (p ∷ [], st)

-- `arg is None or arg < 1`
abbrev pub positive : Option ℕ → Option ℕ
positive none = none
positive (some n) = if ltb n 1 then none else some n

abbrev pub lower_cutoff : Option ℕ → ℕ → ℕ
lower_cutoff none n = n
lower_cutoff (some m) n = if ltb n m then n else m

abbrev pub add_root : TrustState → Statement → PublicKey → Applied
add_root st s key =
    if member s.key_id st.roots
    then refuse st root_again
    else ([], record st { roots = insert s.key_id key st.roots })

abbrev pub fresh_auth : Statement → PublicKey → ℕ → KeyAuth
fresh_auth s key n = record { key = key; from_seq = n; stmt_seq = s.stmt_seq; cutoff = none }

abbrev pub revoked : KeyAuth → ℕ → KeyAuth
revoked auth n = record auth { cutoff = some (lower_cutoff auth.cutoff n) }

abbrev pub authorize : TrustState → Statement → PublicKey → Option ℕ → Applied
authorize st s key none = refuse st no_from_seq
authorize st s key (some from_seq) =
    ([], record st { keys = insert s.key_id (fresh_auth s key from_seq) st.keys })

abbrev pub add_key : TrustState → Statement → PublicKey → Applied
add_key st s key =
    if member s.key_id st.keys then refuse st key_again else authorize st s key (positive s.arg)

abbrev pub with_key :
    TrustState → Statement → (PublicKey → Applied) → Result WireError PublicKey → Applied
with_key st s f (err e) = refuse st (bad_pubkey e)
with_key st s f (ok key) = if key.key_id == s.key_id then f key else refuse st other_fingerprint

abbrev pub with_pubkey :
    Crypto → TrustState → Statement → (PublicKey → Applied) → Option Text → Applied
with_pubkey c st s f none = refuse st no_pubkey
with_pubkey c st s f (some []) = refuse st no_pubkey
with_pubkey c st s f (some (a ∷ text)) = with_key st s f (parse_public_key c (a ∷ text))

abbrev pub revoke_key : TrustState → Statement → Option KeyAuth → Option ℕ → Applied
revoke_key st s none arg = refuse st never_authorized
revoke_key st s (some auth) none = refuse st no_cutoff
revoke_key st s (some auth) (some n) =
    ([], record st { keys = insert s.key_id (revoked auth n) st.keys })

-- `arg is None or arg < 1 or not subject_hash`
abbrev pub target : Option ℕ → Option Text → Option (ℕ × Text)
target none hash = none
target (some n) none = none
target (some n) (some []) = none
target (some n) (some (a ∷ t)) = if ltb n 1 then none else some (n, a ∷ t)

abbrev pub void_at : TrustState → Option (ℕ × Text) → Applied
void_at st none = refuse st no_target
void_at st (some (n, hash)) = ([], record st { voids = insert n hash st.voids })

abbrev pub cosign_at : TrustState → Statement → Option (ℕ × Text) → Applied
cosign_at st s none = refuse st no_target
cosign_at st s (some (n, hash)) = (
  [],
  record st {
    cosigns =
        st.cosigns
        ++ record {
          checkpoint_seq = n;
          checkpoint_hash = hash;
          root_id = s.key_id;
          stmt_seq = s.stmt_seq;
        }
          ∷ [];
  },
)

abbrev pub by_kind : Crypto → TrustState → Statement → TrustKind → Applied
by_kind c st s TrustKind.root_add = with_pubkey c st s (add_root st s) s.pubkey
by_kind c st s TrustKind.key = with_pubkey c st s (add_key st s) s.pubkey
by_kind c st s TrustKind.revoke = revoke_key st s (lookup s.key_id st.keys) s.arg
by_kind c st s TrustKind.void =
    if s.signed_by == s.key_id
    then void_at st (target s.arg s.subject_hash)
    else refuse st not_own_root
by_kind c st s TrustKind.cosign =
    if s.signed_by == s.key_id
    then cosign_at st s (target s.arg s.subject_hash)
    else refuse st not_own_root
by_kind c st s (TrustKind.other t) = refuse st unknown_kind

unfoldable pub apply_statement : Crypto → TrustState → Statement → Applied
apply_statement c st s = by_kind c st s s.kind

module _ (c : Crypto) (tenant : Text) where
  abbrev pub message_of : Statement → Result AttestError Text
  message_of s = trust_message s.kind tenant s.key_id s.arg s.subject_hash s.stmt_seq s.prev_hash

  abbrev pub position_problems : ℕ → Text → Statement → List TrustProblem
  position_problems expected last s =
      when (not (s.stmt_seq == expected)) wrong_seq ++ when (not (s.prev_hash == last)) broken_link

  abbrev pub contents_problems : Statement → Result AttestError Text → List TrustProblem
  contents_problems s (err e) = bad_message e ∷ []
  contents_problems s (ok message) =
      when (not (statement_hash c.sha256 message s.signed_by s.signature == s.statement_hash))
        bad_hash

  abbrev pub signer_problems : Statement → Result WireError PublicKey → List TrustProblem
  signer_problems s (err e) = bad_signature e ∷ []
  signer_problems s (ok signer) = when (not (signer.key_id == s.signed_by)) other_signer

  abbrev pub signature_problems :
      Dict Text PublicKey → Statement → Result AttestError Text → List TrustProblem
  signature_problems roots s (err e) = []
  signature_problems roots s (ok message) =
      if member s.signed_by roots
      then signer_problems s (verify_sshsig c s.signature message ledger_namespace)
      else not_a_root ∷ []

  -- The signature is looked at only where nothing was wrong before, and the statement is applied
  -- only where nothing is wrong at all.
  abbrev pub if_none : List TrustProblem → List TrustProblem → List TrustProblem
  if_none [] later = later
  if_none (p ∷ ps) later = p ∷ ps

  unfoldable pub check_statement : TrustState → ℕ → Text → Statement → List TrustProblem
  check_statement st expected last s =
      if_none (position_problems expected last s ++ contents_problems s (message_of s))
        (signature_problems st.roots s (message_of s))

  abbrev pub apply_if_none : TrustState → Statement → List TrustProblem → Applied
  apply_if_none st s [] = apply_statement c st s
  apply_if_none st s (p ∷ ps) = (p ∷ ps, st)

  abbrev pub label : ℕ → List TrustProblem → List (ℕ × TrustProblem)
  label n [] = []
  label n (p ∷ ps) = (n, p) ∷ label n ps

  abbrev pub finish : Statement → Applied → TrustState
  finish s (bad, st) = record st {
    problems = st.problems ++ label s.stmt_seq bad;
    head_seq = s.stmt_seq;
    head_hash = s.statement_hash;
  }

  -- One round of the loop.
  unfoldable pub step : TrustState → ℕ → Text → Statement → TrustState
  step st expected last s = finish s (apply_if_none st s (check_statement st expected last s))

  unfoldable pub trust_loop : TrustState → ℕ → Text → List Statement → TrustState
  trust_loop st expected last [] = st
  trust_loop st expected last (s ∷ ss) =
      trust_loop (step st expected last s) (s.stmt_seq + 1) s.statement_hash ss

  abbrev pub initial : Dict Text PublicKey → TrustState
  initial pinned_roots = record {
    roots = pinned_roots;
    keys = [];
    cosigns = [];
    voids = [];
    problems = [];
    head_seq = 0;
    head_hash = genesis;
  }

  abbrev pub by_stmt_seq : Statement → Statement → Bool
  by_stmt_seq a b = leb a.stmt_seq b.stmt_seq

  unfoldable pub evaluate_trust : Dict Text PublicKey → List Statement → TrustState
  evaluate_trust pinned_roots statements =
      trust_loop (initial pinned_roots) 1 genesis (sort by_stmt_seq statements)
