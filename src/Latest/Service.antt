-- ===== src/Latest/Service.antt =====
-- `latest_memories` of app/emr_latest.py: one page of the newest records and the cursor of the next;
-- and a client that follows the cursors.
use persistence_memory.Prelude.{
  ℕ, zero, suc, ◌+◌, ◌&&◌, Option, none, some, List, [], ◌∷◌, ◌++◌, map, take, length, ltb, leb,
  if◌then◌else◌, Text, Bytes, text_eq, Result, ok, err, ◌>>=◌,
}
use persistence_memory.Hash.{Sha256, to_hex}
use persistence_memory.Models.{MemoryType, MemoryStatus, is_archived}
use persistence_memory.Store.{Store}
use persistence_memory.Latest.Rows.{
  Times, Key, LatestError, limit_out_of_range, tenant_unresolved, Row, key_of, Filters, list_latest,
}
use persistence_memory.Latest.Cursor.{
  Codec, LimitArg, absent, number, other, Params, encode_cursor, decode_cursor,
}

-- `parse_limit`
unfoldable pub parse_limit : LimitArg → Result LatestError ℕ
parse_limit absent = ok 10
parse_limit (number n) = if leb 1 n && leb n 50 then ok n else err limit_out_of_range
parse_limit other = err limit_out_of_range

pub data Lifecycle : Type 0 where
  active superseded archived : Lifecycle

abbrev pub if_superseded : Option Text → Lifecycle
if_superseded none = active
if_superseded (some []) = active
if_superseded (some (c ∷ cs)) = superseded

-- `_lifecycle`
unfoldable pub lifecycle : Row → Lifecycle
lifecycle r = if is_archived r.memory.status then archived else if_superseded r.superseded_by

abbrev pub or_none : Text → Option Text
or_none [] = none
or_none (c ∷ cs) = some (c ∷ cs)

abbrev pub nonempty : Option Text → Option Text
nonempty none = none
nonempty (some t) = or_none t

-- What a reply says of a record, but for its summary.
pub record Shaped : Type 0 where
  pub id : Text
  pub created_at : Text
  pub type : MemoryType
  pub status : MemoryStatus
  pub life : Lifecycle
  pub source_agent : Option Text
  pub evidence_refs : List Text
  pub supersedes : Option Text
  pub superseded_by : Option Text

pub record Reply : Type 0 where
  pub records : List Shaped
  pub next_cursor : Option Text
  pub tenant : Text
  pub result_digest : Text

abbrev pub filters_of : Params → Filters
filters_of p = record {
  memory_type = p.type;
  include_superseded = p.include_superseded;
  include_archived = p.include_archived;
  include_twin = p.include_twin;
  tokens = [];
}

-- `page[-1]`
abbrev pub last_row : List Row → Option Row
last_row [] = none
last_row (r ∷ []) = some r
last_row (r ∷ q ∷ rs) = last_row (q ∷ rs)

abbrev pub asked_tenant : Option Text → Result LatestError Text
asked_tenant none = err tenant_unresolved
asked_tenant (some []) = err tenant_unresolved
asked_tenant (some (c ∷ cs)) = ok (c ∷ cs)

module _ (h : Sha256) (codec : Codec) (times : Times) (digest_text : List Shaped → Bytes) where
  -- `_shape`
  unfoldable pub shape : Row → Shaped
  shape r = record {
    id = r.memory.id;
    created_at = times.norm_ts r.at;
    type = r.memory.type;
    status = r.memory.status;
    life = lifecycle r;
    source_agent = or_none r.memory.source_agent;
    evidence_refs = map (λ e. e.ref) r.memory.evidence;
    supersedes = nonempty r.memory.supersedes;
    superseded_by = r.superseded_by;
  }

  -- `decode_cursor(...) if params.cursor else None`
  unfoldable pub read_cursor : Bytes → Text → Params → Option Text → Result LatestError (Option Key)
  read_cursor key tenant p none = ok none
  read_cursor key tenant p (some []) = ok none
  read_cursor key tenant p (some (c ∷ cs)) =
      decode_cursor h codec times key tenant p (c ∷ cs) >>= λ after. ok (some after)

  abbrev pub cursor_behind : Bytes → Text → Params → Option Row → Option Text
  cursor_behind key tenant p none = none
  cursor_behind key tenant p (some r) = some (encode_cursor h codec times key tenant p (key_of r))

  unfoldable pub reply_of : Bytes → Text → Params → ℕ → List Row → Reply
  reply_of key tenant p limit rows =
      let page = take limit rows in
      let records = map shape page in
      record {
        records = records;
        next_cursor =
            if ltb limit (length rows) then cursor_behind key tenant p (last_row page) else none;
        tenant = tenant;
        result_digest = to_hex (h.digest (digest_text records));
      }

  -- `latest_memories`, with what `cursor_key` gives.
  unfoldable pub latest_memories :
      Result LatestError Bytes → Option Text → Params → Store → Result LatestError Reply
  latest_memories cursor_key asked p s = asked_tenant asked >>= λ tenant.
      parse_limit p.limit >>= λ limit. cursor_key >>= λ key.
      read_cursor key tenant p p.cursor >>= λ after.
      list_latest times (filters_of p) after (limit + 1) s >>= λ rows.
      ok (reply_of key tenant p limit rows)

  -- The records of at most `fuel` pages, each asked for with the cursor of the one before it.
  unfoldable pub follow :
      ℕ → Result LatestError Bytes → Option Text → Params → Store → Result LatestError (List Shaped)
  follow zero cursor_key asked p s = ok []
  follow (suc fuel) cursor_key asked p s = latest_memories cursor_key asked p s >>= λ reply.
      next reply.records reply.next_cursor
        (λ c. follow fuel cursor_key asked (record p { cursor = some c }) s)
    where
      next :
          List Shaped
          → Option Text
          → (Text → Result LatestError (List Shaped))
          → Result LatestError (List Shaped)
      next records none more = ok records
      next records (some c) more = more c >>= λ rest. ok (records ++ rest)
