-- ===== src/CallLog/Record.antt =====
-- Admitting a call to the log, and the operations of `CallLog` that change it (app/call_log.py):
-- `append`, `record`, `preflight`, `flush` and `flush_for_shutdown`.
use persistence_memory.Prelude.{
  ℕ, ◌+◌, Bool, not, ◌&&◌, Option, none, some, [], ◌++◌, Text, codes, if◌then◌else◌, nat_eq,
  text_eq, pair_eq, ◌==◌, ltb, take, lookup, insert,
}
use persistence_memory.Hash.{Sha256}
use persistence_memory.CallLog.State.{
  Fields, Head, Outage, World, Env, LogError, call_log_error, os_error, Outcome, done, raised,
  Action, ◌>>=◌, return, modify, need,
}
use persistence_memory.CallLog.Files.{read_head}
use persistence_memory.CallLog.Append.{
  Json, combine, degraded, append_locked, flush_suppressed, flush_reads, record_gap,
}
use persistence_memory.CallLog.Calls.{
  or_default, is_read, is_write, counted, count_of, no_window, no_reads, pending, Reply, entry,
  suppressed,
}

module _ (h : Sha256) (json : Json) (env : Env) where
  unfoldable pub append_entry : Fields → Head → Action Reply
  append_entry f head = append_locked h json env f head >>= λ e. return (entry e)

  abbrev pub open_denied : World → World
  open_denied w = record w { denied_window = (env.minute, 0) }

  unfoldable pub turn_denied : Head → Action Head
  turn_denied head w =
      if w.denied_window.0 == env.minute
      then (done head, w)
      else (flush_suppressed h json env head >>= λ next. modify open_denied >>= λ _. return next) w

  abbrev pub count_denied : World → World
  count_denied w = record w { denied_window = (env.minute, w.denied_window.1 + 1) }

  abbrev pub suppress_denied : World → World
  suppress_denied w = record w { suppressed = some (counted env w.suppressed) }

  unfoldable pub denied_or_count : Fields → Head → Action Reply
  denied_or_count f head w =
      if ltb env.denied_cap w.denied_window.1
      then (done suppressed, suppress_denied w)
      else append_entry f head w

  -- A denied call: past the cap of its minute it is counted in the open summary.
  unfoldable pub admit_denied : Fields → Head → Action Reply
  admit_denied f head =
      turn_denied head >>= λ next. modify count_denied >>= λ _. denied_or_count f next

  abbrev pub open_reads : World → World
  open_reads w = record w { read_window = (env.minute, []) }

  unfoldable pub turn_reads : Head → Action Head
  turn_reads head w =
      if w.read_window.0 == env.minute
      then (done head, w)
      else (flush_reads h json env head >>= λ next. modify open_reads >>= λ _. return next) w

  abbrev pub tenant_of : Fields → Text
  tenant_of f = or_default f.tenant env.default_tenant

  abbrev pub key_of : Fields → Text × Text
  key_of f = (tenant_of f, or_default f.transport (codes "http-api"))

  abbrev pub count_read : Fields → World → World
  count_read f w = record w {
    read_window = (
      w.read_window.0,
      insert (tenant_of f) (count_of (tenant_of f) w.read_window.1 + 1) w.read_window.1,
    );
  }

  abbrev pub suppress_read : Fields → World → World
  suppress_read f w = record w {
    read_suppressed =
        insert (key_of f) (counted env (lookup (key_of f) w.read_suppressed)) w.read_suppressed;
  }

  unfoldable pub read_or_count : Fields → Head → Action Reply
  read_or_count f head w =
      if ltb env.read_cap (count_of (tenant_of f) w.read_window.1)
      then (done suppressed, suppress_read f w)
      else append_entry f head w

  -- A successful read: past its tenant's cap of the minute it is counted in the open summary.
  unfoldable pub admit_read : Fields → Head → Action Reply
  admit_read f head =
      turn_reads head >>= λ next. modify (count_read f) >>= λ _. read_or_count f next

  unfoldable pub admit_write : Fields → Head → Action Reply
  admit_write f head = flush_reads h json env head >>= λ next. append_entry f next

  unfoldable pub admit_other : Fields → Head → Action Reply
  admit_other f head =
      if is_read f
      then admit_read f head
      else if is_write f
      then admit_write f head
      else append_entry f head

  unfoldable pub admit : Fields → Head → Action Reply
  admit f head =
      if f.outcome == codes "denied"
      then admit_denied f head
      else flush_suppressed h json env head >>= λ next. admit_other f next

  -- `_locked`
  abbrev pub locked : {A : Type 0} → Action A → Action A
  locked m = need env.lockable (os_error env.os_message) >>= λ _. m

  unfoldable pub gap_first : Head → Action Head
  gap_first head w = record_gap h json env (degraded w) head w

  unfoldable pub append_checked : Fields → Action Reply
  append_checked f = locked (read_head >>= λ head. gap_first head >>= λ next. admit f next)

  -- `except OSError as exc: raise CallLogError(...)`
  abbrev pub as_log_error : {A : Type 0} → Text → Outcome A × World → Outcome A × World
  as_log_error prefix (raised (os_error m), w) = (raised (call_log_error (prefix ++ m)), w)
  as_log_error prefix r = r

  -- `append`
  unfoldable pub append : Fields → Action Reply
  append f w = as_log_error (codes "call log write failed: ") (append_checked f w)

  abbrev pub added : Text → ℕ → ℕ → Option Outage → Outage
  added error unlogged refused none = record {
    since = env.ts;
    unlogged = unlogged;
    refused = refused;
    last_error = take 300 error;
  }
  added error unlogged refused (some d) = record d {
    unlogged = d.unlogged + unlogged;
    refused = d.refused + refused;
    last_error = take 300 error;
  }

  -- `_mark_degraded`. What stays in `outage` is in memory alone, and gone when the process exits.
  unfoldable pub mark_degraded : Text → ℕ → ℕ → World → World
  mark_degraded error unlogged refused w =
      let delta = added error unlogged refused w.outage in
      if env.lockable && env.markable
      then record w { file_state = combine w.file_state (some delta); outage = none }
      else record w { outage = some delta }

  abbrev pub message : LogError → Text
  message (call_log_error m) = m
  message (os_error m) = m

  abbrev pub recorded : Outcome Reply × World → Option Reply × World
  recorded (done r, w) = (some r, w)
  recorded (raised e, w) = (none, mark_degraded (message e) 1 0 w)

  -- `record`: never raises.
  unfoldable pub record_call : Fields → World → Option Reply × World
  record_call f w = recorded (append f w)

  unfoldable pub gap_if_degraded : Head → Action (Unit {0})
  gap_if_degraded head w = (gap_first head >>= λ _. return tt) w

  unfoldable pub preflight_locked : Action (Unit {0})
  preflight_locked = locked (
      read_head >>= λ head.
      need env.dir_writable (call_log_error (codes "the call-log directory is not writable"))
      >>= λ _.
          need env.today_writable (call_log_error (codes "today's call-log file is not writable"))
          >>= λ _.
              need env.has_space (call_log_error (codes "the call-log volume is nearly full"))
              >>= λ _. gap_if_degraded head)

  -- `preflight`
  unfoldable pub preflight : Action (Unit {0})
  preflight w = as_log_error (codes "call log unavailable: ") (preflight_locked w)

  unfoldable pub flush_locked : Action Head
  flush_locked = locked (
      read_head >>= λ head.
      flush_suppressed h json env head >>= λ next. flush_reads h json env next)

  abbrev pub has_open : World → Bool
  has_open w = not (no_window w.suppressed && no_reads w.read_suppressed)

  abbrev pub flushed : Outcome Head × World → World
  flushed (done r, w) = w
  flushed (raised e, w) =
      if has_open w
      then mark_degraded (codes "could not write the open summaries: " ++ message e) 0 0 w
      else w

  -- `flush`: never raises.
  unfoldable pub flush : World → World
  flush w = flushed (flush_locked w)

  abbrev pub forget_open : World → World
  forget_open w = record w { suppressed = none; read_suppressed = [] }

  unfoldable pub shut_down : World → World
  shut_down w =
      if pending w == 0
      then w
      else forget_open (
          mark_degraded (codes "shutdown: the open denied/read summaries could not be written")
            (pending w) 0 w)

  -- `flush_for_shutdown`
  unfoldable pub flush_for_shutdown : World → World
  flush_for_shutdown w = shut_down (flush w)
