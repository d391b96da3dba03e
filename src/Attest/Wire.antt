-- ===== src/Attest/Wire.antt =====
-- app/attest.py: the OpenSSH wire format, public keys and SSHSIG signatures. A cursor into a buffer
-- is what is left of the buffer behind it.
use mathlib.Core.Option
use persistence_memory.Hash.{Sha256}
use persistence_memory.Prelude.{
  is_space, strip, lstrip, split_on, text_eq, nat_eq, ℕ, ◌+◌, ◌*◌, ◌/◌, ◌%◌, ◌^◌, Bool, true, false,
  not, ◌||◌, Option, none, some, List, [], ◌∷◌, ◌++◌, ltb, ◌==◌, if◌then◌else◌, length, take, drop,
  Text, Bytes, codes, Result, ok, err, ◌>>=◌, ◌>>◌, raise_if, or_raise,
}

-- What the module takes from `base64`, `hashlib` and `cryptography`.
pub record Crypto : Type 0 where
  pub b64decode : Text → Option Bytes
  pub b64encode : Bytes → Text
  pub sha256 : Sha256
  pub sha512 : Bytes → Bytes
  -- `Ed25519PublicKey.from_public_bytes(raw).verify(signature, message)` raises nothing.
  pub ed25519 : Bytes → Bytes → Bytes → Bool

abbrev pub ledger_namespace : Text
ledger_namespace = codes "jarvis-ledger-v1"

pub data WireError : Type 0 where
  truncated key_unsupported key_malformed : WireError
  not_armored bad_base64 no_magic bad_version trailing_data bad_key not_ed25519 : WireError
  wrong_namespace unsupported_hash mismatch : WireError

-- `struct.pack(">I", n)`
unfoldable pub pack_u32 : ℕ → Bytes
pack_u32 n = n / 2 ^ 24 ∷ n / 2 ^ 16 % 256 ∷ n / 2 ^ 8 % 256 ∷ n % 256 ∷ []

unfoldable pub wire_string : Bytes → Bytes
wire_string d = pack_u32 (length d) ++ d

unfoldable pub read_u32 : Bytes → Result WireError (ℕ × Bytes)
read_u32 (a ∷ b ∷ c ∷ d ∷ rest) = ok (((a * 256 + b) * 256 + c) * 256 + d, rest)
read_u32 _ = err truncated

abbrev read_body : ℕ × Bytes → Result WireError (Bytes × Bytes)
read_body (n, rest) = if ltb (length rest) n then err truncated else ok (take n rest, drop n rest)

unfoldable pub read_string : Bytes → Result WireError (Bytes × Bytes)
read_string buf = do header ← read_u32 buf; read_body header

-- `.rstrip("=")`
abbrev strip_pad : Text → Text
strip_pad [] = []
strip_pad (c ∷ cs) = elim (strip_pad cs) [
  | [] ↦ if c == b'=' then [] else c ∷ []
  | d ∷ ds ↦ c ∷ d ∷ ds
]

pub record PublicKey : Type 0 where
  pub blob : Bytes
  pub raw : Bytes
  pub key_id : Text
  pub comment : Text

abbrev nonempty : Bytes → Bool
nonempty [] = false
nonempty (_ ∷ _) = true

module _ (c : Crypto) where
  unfoldable pub fingerprint : Bytes → Text
  fingerprint blob = codes "SHA256:" ++ strip_pad (c.b64encode (c.sha256.digest blob))

  unfoldable pub public_key_from_blob : Bytes → Text → Result WireError PublicKey
  public_key_from_blob blob comment = do
    kind_rest ← read_string blob
    raw_rest ← read_string kind_rest.1
    raise_if (not (kind_rest.0 == codes "ssh-ed25519")) key_unsupported
    raise_if (not (length raw_rest.0 == 32) || nonempty raw_rest.1) key_malformed
    ok (record { blob = blob; raw = raw_rest.0; key_id = fingerprint blob; comment = comment })

pub record ParsedSignature : Type 0 where
  pub key : PublicKey
  pub namespace : Text
  pub hash_algorithm : Text
  pub signature : Bytes

abbrev as_signature_error {ℓ} : {A : Type ℓ} → WireError → Result WireError A → Result WireError A
as_signature_error e (ok a) = ok a
as_signature_error e (err _) = err e

-- `blob.startswith(prefix)`, and what is left behind it.
abbrev after_prefix : Bytes → Bytes → Option Bytes
after_prefix [] buf = some buf
after_prefix (p ∷ ps) [] = none
after_prefix (p ∷ ps) (b ∷ bs) = if p == b then after_prefix ps bs else none

-- `.replace("\r\n", "\n").replace("\r", "\n")`
abbrev unix_lines : Text → Text
unix_lines [] = []
unix_lines (a ∷ []) = (if a == 13 then 10 else a) ∷ []
unix_lines (a ∷ b ∷ cs) =
    let rest = unix_lines (b ∷ cs) in
    if a == 13 then (if b == 10 then rest else 10 ∷ rest) else a ∷ rest

unfoldable pub normalize_signature : Text → Text
normalize_signature armored = strip (unix_lines armored)

-- The lines before the last one, joined, if the last one is the end of the armour.
abbrev joined_before_end : List Text → Option Text
joined_before_end [] = none
joined_before_end (line ∷ []) =
    if line == codes "-----END SSH SIGNATURE-----" then some [] else none
joined_before_end (line ∷ next ∷ lines) =
    Option.map (λ rest. line ++ rest) (joined_before_end (next ∷ lines))

-- At least three lines, the first and the last of them the armour.
abbrev armor_body : List Text → Option Text
armor_body (first ∷ a ∷ b ∷ lines) =
    if first == codes "-----BEGIN SSH SIGNATURE-----"
    then joined_before_end (a ∷ b ∷ lines)
    else none
armor_body _ = none

module _ (c : Crypto) where
  -- `parse_sshsig` from the decoded body on.
  unfoldable pub parse_blob : Bytes → Result WireError ParsedSignature
  parse_blob blob = do
    body ← or_raise (after_prefix (codes "SSHSIG") blob) no_magic
    version_rest ← read_u32 body
    raise_if (not (version_rest.0 == 1)) bad_version
    pub_rest ← read_string version_rest.1
    namespace_rest ← read_string pub_rest.1
    reserved_rest ← read_string namespace_rest.1
    algorithm_rest ← read_string reserved_rest.1
    sig_rest ← read_string algorithm_rest.1
    raise_if (nonempty sig_rest.1 || nonempty reserved_rest.0) trailing_data
    key ← as_signature_error bad_key (public_key_from_blob c pub_rest.0 [])
    type_rest ← read_string sig_rest.0
    raw_rest ← read_string type_rest.1
    raise_if
        (not (type_rest.0 == codes "ssh-ed25519")
          || (not (length raw_rest.0 == 64) || nonempty raw_rest.1))
        not_ed25519
    ok (record {
      key = key;
      namespace = namespace_rest.0;
      hash_algorithm = algorithm_rest.0;
      signature = raw_rest.0;
    })

  unfoldable pub parse_sshsig : Text → Result WireError ParsedSignature
  parse_sshsig armored = do
    body ← or_raise (armor_body (split_on 10 (normalize_signature armored))) not_armored
    blob ← or_raise (c.b64decode body) bad_base64
    parse_blob blob

  -- The bytes that are signed: SSHSIG, the namespace, nothing, the hash's name and the hash.
  abbrev pub signed_bytes : Text → Text → Bytes → Bytes
  signed_bytes namespace algorithm digest =
      codes "SSHSIG"
      ++ (wire_string namespace
          ++ (wire_string [] ++ (wire_string algorithm ++ wire_string digest)))

  unfoldable pub digest_for : Text → Bytes → Result WireError Bytes
  digest_for algorithm message =
      if algorithm == codes "sha512"
      then ok (c.sha512 message)
      else if algorithm == codes "sha256"
      then ok (c.sha256.digest message)
      else err unsupported_hash

  -- `verify_sshsig` where `cryptography` is installed.
  unfoldable pub verify_sshsig : Text → Bytes → Text → Result WireError PublicKey
  verify_sshsig armored message namespace = do
    parsed ← parse_sshsig armored
    raise_if (not (parsed.namespace == namespace)) wrong_namespace
    digest ← digest_for parsed.hash_algorithm message
    raise_if
        (not (
          c.ed25519 parsed.key.raw parsed.signature
            (signed_bytes parsed.namespace parsed.hash_algorithm digest)))
        mismatch
    ok parsed.key

-- One field up to white space, and what follows it.
abbrev field_rest : Text → Text × Text
field_rest [] = ([], [])
field_rest (c ∷ cs) = let (f, r) = field_rest cs in if is_space c then ([], c ∷ cs) else (c ∷ f, r)

module _ (c : Crypto) where
  abbrev with_comment : Text → Text × Text → Result WireError PublicKey
  with_comment kind (b64, comment) = do
    raise_if (not (kind == codes "ssh-ed25519")) key_unsupported
    blob ← or_raise (c.b64decode b64) key_malformed
    public_key_from_blob c blob (lstrip comment)

  abbrev two_fields : Text × Text → Result WireError PublicKey
  two_fields (kind, rest) =
      let behind = lstrip rest in
      if nonempty behind then with_comment kind (field_rest behind) else err key_malformed

  -- `ssh-ed25519 AAAA... [comment]`, by `split(None, 2)`
  unfoldable pub parse_public_key : Text → Result WireError PublicKey
  parse_public_key text = two_fields (field_rest (strip text))
