-- ===== src/CallLog/Runs.antt =====
-- Every log that its operations can leave behind: any order of calls, in any number of processes one
-- after another, with writes that fail at any point.
use persistence_memory.Prelude.{ℕ, ◌≤◌, ◌≡◌, true, none, [], ◌∷◌, List, All, All-map, arith}
use persistence_memory.Hash.{Sha256}
use persistence_memory.CallLog.State.{Fields, DayFile, World, Env}
use persistence_memory.CallLog.Append.{Json}
use persistence_memory.CallLog.Record.{record_call, preflight, flush, flush_for_shutdown}
use persistence_memory.CallLog.Verify.{verify}
use persistence_memory.CallLog.Chained.{NoShort, IsChained}
use persistence_memory.CallLog.Kept.{
  record_call-Kept, preflight-Kept, flush-Kept, flush_for_shutdown-Kept,
}
use persistence_memory.CallLog.Walked.{OnlyLines, verify_iff}

-- What another process begins with: nothing in memory.
unfoldable pub restart : World → World
restart w = record w {
  outage = none;
  suppressed = none;
  denied_window = ([], 0);
  read_suppressed = [];
  read_window = ([], []);
}

module _ (h : Sha256) (json : Json) where
  -- The logs that an empty directory can become, and the last day on which one was used. The clock
  -- does not go back over midnight, and files that retention deletes can be deleted.
  pub data Reachable : ℕ → World → Type 0 where
    fresh : (w : World) → w.files ≡ [] → w.anchor ≡ none → NoShort w.writes → Reachable 0 w
    recorded :
        (env : Env) (f : Fields) {d : ℕ} (w : World)
        → d ≤ env.today
        → env.removable ≡ true
        → Reachable d w
        → Reachable env.today (record_call h json env f w).1
    preflighted :
        (env : Env) {d : ℕ} (w : World)
        → d ≤ env.today
        → env.removable ≡ true
        → Reachable d w
        → Reachable env.today (preflight h json env w).1
    flushed :
        (env : Env) {d : ℕ} (w : World)
        → d ≤ env.today
        → env.removable ≡ true
        → Reachable d w
        → Reachable env.today (flush h json env w)
    shut_down :
        (env : Env) {d : ℕ} (w : World)
        → d ≤ env.today
        → env.removable ≡ true
        → Reachable d w
        → Reachable env.today (flush_for_shutdown h json env w)
    restarted : {d : ℕ} (w : World) → Reachable d w → Reachable d (restart w)

  later : (d e : ℕ) (w : World) → d ≤ e → IsChained h json d w → IsChained h json e w
  later d e w before c = record {
    in_order = c.in_order;
    not_after =
        All-map (λ f. f.day ≤ d) (λ f. f.day ≤ e) (λ f under. omega arith) w.files c.not_after;
    linked = c.linked;
    no_short = c.no_short;
  }

  Reachable-Chained : (d : ℕ) (w : World) → Reachable d w → IsChained h json d w
  unfolding restart
  Reachable-Chained _ _ (fresh w no_files no_anchor clean) = record {
    in_order = rw no_files tt;
    not_after = rw no_files tt;
    linked = rw no_files tt;
    no_short = clean;
  }
  Reachable-Chained _ _ (recorded env f {d} w after removes before) =
      record_call-Kept h json env removes f w
        (later d env.today w after (Reachable-Chained d w before))
  Reachable-Chained _ _ (preflighted env {d} w after removes before) =
      preflight-Kept h json env removes w (later d env.today w after (Reachable-Chained d w before))
  Reachable-Chained _ _ (flushed env {d} w after removes before) =
      flush-Kept h json env removes w (later d env.today w after (Reachable-Chained d w before))
  Reachable-Chained _ _ (shut_down env {d} w after removes before) =
      flush_for_shutdown-Kept h json env removes w
        (later d env.today w after (Reachable-Chained d w before))
  Reachable-Chained _ _ (restarted {d} w before) = Reachable-Chained d w before

  -- Whatever calls were recorded, refused or summarised in whatever order, across restarts, days and
  -- deletions of old files, and wherever writes raised: `verify` never reports an entry as edited,
  -- deleted, inserted or reordered, but at most lines that do not parse. The clock does not go back a
  -- day, old files can be deleted, `verify` can read every file, and `os.write` writes a whole line
  -- or raises.
  pub verify-Reachable :
      (d : ℕ) (env : Env) (w : World)
      → d ≤ env.today
      → env.removable ≡ true
      → ((day : ℕ) → env.readable day ≡ true)
      → Reachable d w
      → OnlyLines (verify h json env w).0.problems
  unfolding verify
  verify-Reachable d env w after removes reads reached =
      let now : World = flush h json env w in
      let kept : IsChained h json env.today now =
        flush-Kept h json env removes w
          (later d env.today w after (Reachable-Chained d w reached)) in
      (verify_iff h json env w).1 (every now.files, kept.linked)
    where
      every : (fs : List DayFile) → All (λ f. env.readable f.day ≡ true) fs
      every [] = tt
      every (f ∷ fs) = (reads f.day, every fs)
