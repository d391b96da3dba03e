-- ===== src/CallLog/Append.antt =====
-- Appending to the log (app/call_log.py): the outage state, the chain, the gap entry, and the
-- summaries of floods of denied calls and of reads.
use persistence_memory.Prelude.{
  ℕ, ◌+◌, Bool, true, false, Option, none, some, List, [], ◌∷◌, map, ◌++◌, Text, codes,
  if◌then◌else◌, nat_eq, text_eq, pair_eq, ◌==◌, take, show, text_leb, lookup, erase, sort,
}
use persistence_memory.Hash.{Sha256, to_hex}
use persistence_memory.CallLog.State.{
  Window, Fields, Entry, whole, broken, Head, Outage, Write, written, unopened, unwritten, torn,
  unsynced, short, World, Env, os_error, done, raised, Action, ◌>>=◌, return, modify,
}
use persistence_memory.CallLog.Files.{head_of, add_line, with_day, rotate_and_retain}

-- `canonical(...)` of an entry without its hash and of what `args_hash` is taken over.
pub record Json : Type 0 where
  pub entry_text : ℕ → Text → Text → Fields → Text
  pub outage_text : Text → ℕ → ℕ → Text
  pub suppressed_text : ℕ → Text

-- `sha256_hex`
unfoldable pub sha256_hex : Sha256 → Text → Text
sha256_hex h t = to_hex (h.digest t)

-- `entry_hash_of`
unfoldable pub entry_hash_of : Sha256 → Json → Entry → Text
entry_hash_of h json e = sha256_hex h (json.entry_text e.seq e.ts e.prev_hash e.fields)

abbrev pub earlier : Text → Text → Text
earlier a b = if text_leb a b then a else b

-- `_combine`
unfoldable pub combine : Option Outage → Option Outage → Option Outage
combine none none = none
combine (some f) none = some (record f { last_error = take 300 f.last_error })
combine none (some d) = some (record d { last_error = take 300 d.last_error })
combine (some f) (some d) = some (record {
  since = earlier f.since d.since;
  unlogged = f.unlogged + d.unlogged;
  refused = f.refused + d.refused;
  last_error = take 300 d.last_error;
})

-- `degraded`
unfoldable pub degraded : World → Option Outage
degraded w = combine w.file_state w.outage

-- `_clear_degraded`
unfoldable pub clear_degraded : Env → World → World
clear_degraded env w = record w {
  outage = none;
  file_state = if env.clearable then none else w.file_state;
}

-- The next attempt to write.
abbrev pub next_write : List Write → Write
next_write [] = written
next_write (o ∷ os) = o

abbrev pub later_writes : List Write → List Write
later_writes [] = []
later_writes (o ∷ os) = os

-- `os.open`, `os.write` and `os.fsync` of one line.
unfoldable pub write_line : Env → Entry → Write → Action Entry
write_line env e written w =
    (done e, record w { files = with_day env.today (add_line true (whole e)) w.files })
write_line env e short w =
    (done e, record w { files = with_day env.today (add_line false broken) w.files })
write_line env e unsynced w = (
  raised (os_error env.os_message),
  record w { files = with_day env.today (add_line true (whole e)) w.files },
)
write_line env e torn w = (
  raised (os_error env.os_message),
  record w { files = with_day env.today (add_line false broken) w.files },
)
write_line env e unwritten w =
    (raised (os_error env.os_message), record w { files = with_day env.today (λ f. f) w.files })
write_line env e unopened w = (raised (os_error env.os_message), w)

unfoldable pub take_write : Env → Entry → Action Entry
take_write env e w =
    write_line env e (next_write w.writes) (record w { writes = later_writes w.writes })

module _ (h : Sha256) (json : Json) (env : Env) where
  -- `_gap_entry`
  unfoldable pub gap_fields : Outage → Fields
  gap_fields s = record {
    transport = codes "http-api";
    client_name = none;
    client_version = none;
    tenant = codes "operator";
    tool = codes "(call-log)";
    route = none;
    method = none;
    target = none;
    args_sha256 = sha256_hex h (json.outage_text s.since s.unlogged s.refused);
    outcome = codes "gap";
    error_code =
        some (
          codes "UNLOGGED_CALLS:" ++ show s.unlogged ++ codes ";REFUSED_WRITES:" ++ show s.refused);
    status_code = none;
    result_digest = none;
    duration_ms = 0;
    window = some (record { window_start = s.since; window_end = env.ts; count = s.unlogged });
    refused = some s.refused;
  }

  -- The fields of a summary, of denied calls or of reads.
  unfoldable pub summary_fields : Text → Text → Text → Option Text → Text → Window → Fields
  summary_fields transport tenant tool method outcome s = record {
    transport = transport;
    client_name = none;
    client_version = none;
    tenant = tenant;
    tool = tool;
    route = none;
    method = method;
    target = none;
    args_sha256 = sha256_hex h (json.suppressed_text s.count);
    outcome = outcome;
    error_code = some (codes "SUPPRESSED:" ++ show s.count);
    status_code = none;
    result_digest = none;
    duration_ms = 0;
    window = some s;
    refused = none;
  }

  unfoldable pub next_entry : Fields → Head → Entry
  next_entry f head =
      let seq : ℕ = head.seq + 1 in
      let prev : Text = head.entry_hash in
      record {
        seq = seq;
        ts = env.ts;
        prev_hash = prev;
        fields = f;
        entry_hash = sha256_hex h (json.entry_text seq env.ts prev f);
      }

  -- `_append_locked`
  unfoldable pub append_locked : Fields → Head → Action Entry
  append_locked f head = rotate_and_retain env >>= λ _. take_write env (next_entry f head)

  abbrev pub close_denied : World → World
  close_denied w = record w { suppressed = none }

  unfoldable pub flush_denied : Option Window → Head → Action Head
  flush_denied none head = return head
  flush_denied (some s) head =
      append_locked
        (summary_fields (codes "http-api") (codes "operator") (codes "(denied calls)") none
          (codes "denied_suppressed") s)
        head
      >>= λ e. modify close_denied >>= λ _. return (head_of e)

  -- `_flush_suppressed_locked`
  unfoldable pub flush_suppressed : Head → Action Head
  flush_suppressed head w = flush_denied w.suppressed head w

  abbrev pub close_reads : Text × Text → World → World
  close_reads key w = record w { read_suppressed = erase key w.read_suppressed }

  unfoldable pub flush_read : Text × Text → Option Window → Head → Action Head
  flush_read key none head = return head
  flush_read (tenant, transport) (some s) head =
      append_locked
        (summary_fields transport tenant (codes "(read calls)") (some (codes "GET"))
          (codes "read_suppressed") s)
        head
      >>= λ e. modify (close_reads (tenant, transport)) >>= λ _. return (head_of e)

  unfoldable pub flush_keys : List (Text × Text) → Head → Action Head
  flush_keys [] head w = (done head, w)
  flush_keys (key ∷ keys) head w =
      (flush_read key (lookup key w.read_suppressed) head >>= flush_keys keys) w

  -- `_flush_reads_locked`
  unfoldable pub flush_reads : Head → Action Head
  flush_reads head w = flush_keys (sort pair_leb (map (λ p. p.0) w.read_suppressed)) head w
    where
      pair_leb : Text × Text → Text × Text → Bool
      pair_leb (a, b) (c, d) = if a == c then text_leb b d else text_leb a c

  abbrev pub clear : World → World
  clear w = clear_degraded env w

  -- Recovered: the gap is recorded before anything else.
  unfoldable pub record_gap : Option Outage → Head → Action Head
  record_gap none head = return head
  record_gap (some s) head =
      append_locked (gap_fields s) head >>= λ e. modify clear >>= λ _. return (head_of e)
