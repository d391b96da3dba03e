-- ===== src/Latest/Cursor.antt =====
-- The cursors of app/emr_latest.py: what they hold, how they are signed, and their round trip.
use persistence_memory.Prelude.{
  ℕ, zero, suc, ◌+◌, ◌≡◌, Bool, not, ◌&&◌, Option, none, some, List, [], ◌∷◌, ◌++◌, take, length,
  if◌then◌else◌, Text, Bytes, Without, text_eq, nat_eq, ◌==◌, ltb, strip, codes, Result, ok, err,
  ◌>>=◌, or_raise, split_on,
}
use persistence_memory.Hash.{Sha256, to_hex}
use persistence_memory.Latest.Rows.{Times, Key, LatestError, cursor_invalid, cursor_key_unavailable}

-- `json.dumps` and `json.loads` of a cursor's body, `base64.urlsafe_b64encode` without its padding,
-- and `hmac` with SHA-256. What is encoded reads back, and the base64 alphabet has no full stop.
pub record Codec : Type 0 where
  pub dumps : Text → Text → Text → Bytes
  pub loads : Bytes → Option (Text × Text × Text)
  pub loads-dumps : (c i s : Text) → loads (dumps c i s) ≡ some (c, i, s)
  pub b64 : Bytes → Text
  pub unb64 : Text → Option Bytes
  pub unb64-b64 : (b : Bytes) → unb64 (b64 b) ≡ some b
  pub b64-Without : (b : Bytes) → Without 46 (b64 b)
  pub hmac : Bytes → Bytes → Bytes
  pub scope_text : Text → Option Text → Bool → Bool → Bool → Text

-- The `limit` argument: none, a whole number that is not negative, or anything else.
pub data LimitArg : Type 0 where
  absent : LimitArg
  number : ℕ → LimitArg
  other : LimitArg

-- `LatestParams`
pub record Params : Type 0 where
  pub limit : LimitArg
  pub cursor : Option Text
  pub include_superseded : Bool
  pub include_archived : Bool
  pub include_twin : Bool
  pub type : Option Text

abbrev pub two_parts : List Text → Option (Text × Text)
two_parts (body ∷ tag ∷ []) = some (body, tag)
two_parts _ = none

module _ (h : Sha256) (codec : Codec) where
  -- `_hkdf_sha256`, its loop on fuel: a block has 32 bytes, so one round gives the 32 that are asked.
  unfoldable pub expand : ℕ → Bytes → Bytes → ℕ → ℕ → Bytes → Bytes → Bytes
  expand zero prk info size counter block okm = okm
  expand (suc fuel) prk info size counter block okm =
      let next : Bytes = codec.hmac prk (block ++ (info ++ counter ∷ [])) in
      let rest = expand fuel prk info size (counter + 1) next (okm ++ next) in
      if ltb (length okm) size then rest else okm

  zeros : ℕ → Bytes
  zeros zero = []
  zeros (suc n) = 0 ∷ zeros n

  unfoldable pub hkdf_sha256 : Bytes → Bytes → ℕ → Bytes
  unfolding zeros
  hkdf_sha256 secret info size =
      take size (expand (suc size) (codec.hmac (zeros 32) secret) info size 1 [] [])

  -- `cursor_key`: the explicit key, its file, or one derived from the API key.
  unfoldable pub cursor_key : Text → Text → Text → Result LatestError Bytes
  cursor_key explicit from_file api_key = by (strip explicit) (strip from_file) api_key
    where
      derived : Bytes → Bytes
      derived secret = hkdf_sha256 secret (codes "emr-latest-cursor-v1") 32

      by : Text → Text → Text → Result LatestError Bytes
      by (c ∷ cs) file key = ok (derived (c ∷ cs))
      by [] (c ∷ cs) key = ok (derived (c ∷ cs))
      by [] [] (c ∷ cs) = ok (derived (c ∷ cs))
      by [] [] [] = err cursor_key_unavailable

  -- `_scope`
  unfoldable pub scope : Text → Params → Text
  scope tenant p = take 24 (
      to_hex (
        h.digest
          (codec.scope_text tenant p.type p.include_superseded p.include_archived p.include_twin)))

  module _ (times : Times) where
    unfoldable pub sign : Bytes → Text → Text
    sign key body = body ++ 46 ∷ codec.b64 (codec.hmac key body)

    -- `encode_cursor`, of the instant that `norm_ts` writes.
    unfoldable pub encode_cursor : Bytes → Text → Params → Key → Text
    encode_cursor key tenant p (at, id) =
        sign key (codec.b64 (codec.dumps (times.norm_ts at) id (scope tenant p)))

    unfoldable pub read_body : Text → Params → Text × Text × Text → Result LatestError Key
    read_body tenant p (c, i, s) =
        if s == scope tenant p && not (i == [])
        then (or_raise (times.parse_utc c) cursor_invalid >>= λ at. ok (at, i))
        else err cursor_invalid

    unfoldable pub check_tag : Bytes → Text → Params → Text → Bytes → Result LatestError Key
    check_tag key tenant p body tag =
        if codec.hmac key body == tag
        then (or_raise (codec.unb64 body) cursor_invalid >>= λ raw.
            or_raise (codec.loads raw) cursor_invalid >>= λ fields. read_body tenant p fields)
        else err cursor_invalid

    -- `decode_cursor`
    unfoldable pub decode_cursor : Bytes → Text → Params → Text → Result LatestError Key
    decode_cursor key tenant p token =
        or_raise (two_parts (split_on 46 token)) cursor_invalid >>= λ parts.
        or_raise (codec.unb64 parts.1) cursor_invalid >>= λ tag. check_tag key tenant p parts.0 tag
