-- ===== src/Tests/Calls.antt =====
-- The call log at concrete calls: one that is torn, one that is denied past the cap, a shutdown.
use persistence_memory.Prelude.{
  ℕ, ◌+◌, ◌≤◌, ◌≡◌, refl, true, false, Option, none, some, List, [], ◌∷◌, ◌++◌, arith, Text, codes,
}
use persistence_memory.CallLog.State.{
  Fields, World, Env, Write, written, torn, unsynced, whole, broken,
}
use persistence_memory.CallLog.Append.{Json}
use persistence_memory.CallLog.Record.{record_call, flush_for_shutdown}
use persistence_memory.CallLog.Calls.{pending}
use persistence_memory.CallLog.Verify.{verify}
use persistence_memory.CallLog.Linked.{Linked}
use persistence_memory.CallLog.Walked.{OnlyLines}
use persistence_memory.CallLog.Runs.{
  Reachable, fresh, recorded, restarted, restart, verify-Reachable,
}
use persistence_memory.CallLog.Account.{Fits, Retains, accounted}
use persistence_memory.CallLog.NoneLost.{record_call-accounted}
use persistence_memory.CallLog.Shutdown.{on_disk, shutdown-accounted}
use persistence_memory.Tests.Toy.{toy}

abbrev json : Json
json = record {
  entry_text = λ seq ts prev f. seq ∷ ts ++ prev ++ f.tool;
  outage_text = λ since unlogged refused. unlogged ∷ refused ∷ since;
  suppressed_text = λ n. n ∷ [];
}

-- The caps are one call a minute.
abbrev on_day : ℕ → Env
on_day day = record {
  ts = codes "2026-01-20T00:00:00.000000Z";
  minute = codes "2026-01-20T00:00";
  today = day;
  cutoff = 10;
  denied_cap = 1;
  read_cap = 1;
  default_tenant = codes "operator";
  lockable = true;
  markable = true;
  clearable = true;
  removable = true;
  readable = λ day. true;
  dir_writable = true;
  today_writable = true;
  has_space = true;
  os_message = codes "no space left";
}

abbrev call : Text → Text → Option Text → Fields
call tool outcome method = record {
  transport = codes "http-api";
  client_name = none;
  client_version = none;
  tenant = codes "acme";
  tool = tool;
  route = none;
  method = method;
  target = none;
  args_sha256 = [];
  outcome = outcome;
  error_code = none;
  status_code = none;
  result_digest = none;
  duration_ms = 3;
  window = none;
  refused = none;
}

abbrev denied_call : Fields
denied_call = call (codes "emr_remember") (codes "denied") none

abbrev plain_call : Fields
plain_call = call (codes "emr_remember") (codes "ok") none

abbrev empty_log : List Write → World
empty_log writes = record {
  files = [];
  anchor = none;
  file_state = none;
  outage = none;
  suppressed = none;
  denied_window = ([], 0);
  read_suppressed = [];
  read_window = ([], []);
  writes = writes;
}

-- One day's file, whose last line is torn; a denied call past the cap, and an unlogged one.
abbrev busy_log : World
busy_log = record {
  files =
      record {
        day = 19;
        lines =
            whole
              (record { seq = 1; ts = []; prev_hash = []; fields = plain_call; entry_hash = [] })
            ∷ broken
            ∷ [];
        ended = false;
      }
      ∷ [];
  anchor = none;
  file_state = none;
  outage = some (record { since = codes "2026"; unlogged = 1; refused = 0; last_error = [] });
  suppressed = some (record { window_start = []; window_end = []; count = 1 });
  denied_window = (codes "2026-01-20T00:00", 1);
  read_suppressed = [];
  read_window = ([], []);
  writes = torn ∷ unsynced ∷ [];
}

-- Two calls, the second of which is torn, and another process on the next day.
abbrev torn_log : World
torn_log =
    (record_call toy json (on_day 20) plain_call
      (record_call toy json (on_day 20) plain_call (empty_log (written ∷ torn ∷ []))).1).1

torn_log-Reachable : Reachable toy json 20 (restart torn_log)
torn_log-Reachable = restarted torn_log (
    recorded (on_day 20) plain_call _ (omega arith) refl (
      recorded (on_day 20) plain_call (empty_log (written ∷ torn ∷ [])) (omega arith) refl
        (fresh (empty_log (written ∷ torn ∷ [])) refl refl (refl, (refl, tt)))))

verify-Reachable_example : OnlyLines (verify toy json (on_day 21) (restart torn_log)).0.problems
verify-Reachable_example =
    verify-Reachable toy json 20 (on_day 21) (restart torn_log) (omega arith) refl (λ day. refl)
      torn_log-Reachable

retains : Retains 15 (on_day 20)
retains = record { cut_before = omega arith; begins = omega arith }

busy_log-Fits : Fits 15 busy_log.files busy_log.writes
busy_log-Fits = record { no_short = (refl, (refl, tt)); not_before = (omega arith, tt) }

record_call-accounted_example :
    accounted busy_log + 1 ≤ accounted (record_call toy json (on_day 20) denied_call busy_log).1
record_call-accounted_example =
    record_call-accounted toy json (on_day 20) 15 retains denied_call busy_log refl busy_log-Fits

-- The same log without the outage that it has in memory.
abbrev marked : World
marked = record busy_log { outage = none }

shutdown-accounted_example :
    (pending (flush_for_shutdown toy json (on_day 20) marked) ≡ 0)
    × ((flush_for_shutdown toy json (on_day 20) marked).outage ≡ none)
    × (accounted marked ≤ on_disk (flush_for_shutdown toy json (on_day 20) marked))
shutdown-accounted_example =
    shutdown-accounted toy json (on_day 20) 15 retains marked refl refl refl busy_log-Fits

-- The log of before, once its directory works again.
abbrev mended : World
mended = record busy_log { writes = [] }
