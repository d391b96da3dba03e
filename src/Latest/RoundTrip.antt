-- ===== src/Latest/RoundTrip.antt =====
-- A cursor reads back, under the key, the tenant and the filters that it was given out for.
use persistence_memory.Prelude.{
  ℕ, ◌≡◌, ◌≢◌, refl, false, some, [], ◌∷◌, ◌++◌, arith, text_eq, nat_eq, nat_beq_iff, ◌==◌, Text,
  Bytes, Without, beq_refl, split_on, ok,
}
use persistence_memory.Hash.{Sha256}
use persistence_memory.Latest.Rows.{Times}
use persistence_memory.Latest.Cursor.{
  Codec, Params, scope, sign, encode_cursor, read_body, check_tag, decode_cursor,
}

split_one : (c : ℕ) (t : Text) → Without c t → split_on c t ≡ t ∷ []
unfolding split_on
split_one c [] free = refl
split_one c (x ∷ xs) free = rw (split_one c xs free.1) (ground (arith, free.0, nat_beq_iff x c))

split_two : (c : ℕ) (a b : Text) → Without c a → Without c b → split_on c (a ++ c ∷ b) ≡ a ∷ b ∷ []
unfolding split_on
split_two c [] b free rest = rw (split_one c b rest) (ground (arith, nat_beq_iff c c))
split_two c (x ∷ xs) b free rest =
    rw (split_two c xs b free.1 rest) (ground (arith, free.0, nat_beq_iff x c))

-- A cursor that was encoded decodes to the instant and the id it stands for, so the next page begins
-- there. It is decoded with the key, the tenant and the filters it was encoded with; the id is not
-- empty, and the instant is one whose form of fixed width parses back.
pub decode-encode_cursor :
    (h : Sha256) (codec : Codec) (times : Times) (key : Bytes) (tenant : Text) (p : Params) (at : ℕ)
    (id : Text)
    → times.parse_utc (times.norm_ts at) ≡ some at
    → id ≢ []
    → decode_cursor h codec times key tenant p (encode_cursor h codec times key tenant p (at, id))
      ≡ ok (at, id)
unfolding decode_cursor encode_cursor sign check_tag read_body
decode-encode_cursor h codec times key tenant p at id parses named =
    rw
      (
        split_two 46 (codec.b64 body) (codec.b64 (codec.hmac key (codec.b64 body)))
            (codec.b64-Without body) (codec.b64-Without (codec.hmac key (codec.b64 body))),
        codec.unb64-b64,
        beq_refl (codec.hmac key (codec.b64 body)),
        codec.unb64-b64,
        codec.loads-dumps,
        beq_refl (scope h codec tenant p),
        named_test,
        parses,
      )
      refl
  where
    body : Bytes
    body = codec.dumps (times.norm_ts at) id (scope h codec tenant p)

    named_test : (id == []) ≡ false
    named_test = ground (arith, text_eq.equal_iff id [])
