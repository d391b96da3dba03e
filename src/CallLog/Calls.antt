-- ===== src/CallLog/Calls.antt =====
-- What the log looks at in a call, and how many calls the open summaries count (app/call_log.py).
use persistence_memory.Prelude.{
  ℕ, ◌+◌, Bool, true, false, not, ◌&&◌, ◌||◌, Option, none, some, List, [], ◌∷◌, Text, codes, Dict,
  if◌then◌else◌, nat_eq, text_eq, pair_eq, ◌==◌, lookup, contains,
}
use persistence_memory.CallLog.State.{Window, Fields, Entry, World, Env}

-- `str(fields.get(key) or default)`
abbrev pub or_default : Text → Text → Text
or_default t d = if t == [] then d else t

abbrev pub in_options : Text → Option Text → Bool
in_options t none = false
in_options t (some u) = u == t

-- `WRITE_TOOLS`
abbrev pub write_tools : List Text
write_tools = codes "emr_remember" ∷ codes "emr_upsert" ∷ []

abbrev pub memory_route : Text
memory_route = codes "/api/jarvis/memory"

-- `LEDGER_WRITE_ROUTES`
abbrev pub ledger_write_routes : List (Text × Text)
ledger_write_routes =
    (codes "POST", memory_route)
    ∷ (codes "POST", codes "/api/jarvis/memory/promote")
    ∷ (codes "POST", codes "/api/jarvis/memory/pipeline")
    ∷ (codes "PATCH", codes "/api/jarvis/memory/{id}")
    ∷ (codes "PUT", codes "/api/jarvis/memory/{id}")
    ∷ (codes "DELETE", codes "/api/jarvis/memory/{id}")
    ∷ []

-- `_is_rest_write`
unfoldable pub is_rest_write : Option Text → Option Text → Bool
is_rest_write (some method) (some route) = contains (method, route) ledger_write_routes
is_rest_write _ _ = false

-- A successful read of a record.
unfoldable pub is_read : Fields → Bool
is_read f =
    in_options (codes "GET") f.method
    && (not (f.transport == codes "http-tool") && f.outcome == codes "ok")

-- A successful write, which closes the open summaries of reads first.
unfoldable pub is_write : Fields → Bool
is_write f =
    f.outcome == codes "ok" && (contains f.tool write_tools || is_rest_write f.method f.route)

-- One more suppressed call: `s["count"] += 1`.
abbrev pub counted : Env → Option Window → Window
counted env none = record { window_start = env.ts; window_end = env.ts; count = 1 }
counted env (some s) = record s { window_end = env.ts; count = s.count + 1 }

pub data Reply : Type 0 where
  entry : Entry → Reply
  suppressed : Reply

abbrev pub count_of : Text → Dict Text ℕ → ℕ
count_of k d = elim (lookup k d) as (λ _. ℕ) [ none ↦ 0 | some n ↦ n ]

abbrev pub no_window : Option Window → Bool
no_window none = true
no_window (some s) = false

abbrev pub no_reads : Dict (Text × Text) Window → Bool
no_reads [] = true
no_reads (s ∷ ss) = false

abbrev pub window_count : Option Window → ℕ
window_count none = 0
window_count (some s) = s.count

abbrev pub reads_count : Dict (Text × Text) Window → ℕ
reads_count [] = 0
reads_count ((_, s) ∷ ss) = s.count + reads_count ss

-- How many calls stand only in the open summaries.
abbrev pub pending : World → ℕ
pending w = window_count w.suppressed + reads_count w.read_suppressed
