-- ===== src/CallLog/Kept.antt =====
-- The chain through the operations of the log.
use persistence_memory.Prelude.{
  ℕ, ◌+◌, ◌≡◌, inl, inr, true, ◌&&◌, Text, text_eq, nat_eq, pair_eq, codes, ◌==◌, Bool-cases, ltb,
}
use persistence_memory.Hash.{Sha256}
use persistence_memory.CallLog.State.{
  Fields, Head, World, Env, call_log_error, os_error, Outcome, done, raised, ◌>>=◌, modify, return,
}
use persistence_memory.CallLog.Files.{head_of, read_head}
use persistence_memory.CallLog.Append.{Json, degraded, append_locked, flush_suppressed, flush_reads}
use persistence_memory.CallLog.Record.{
  append_entry, turn_denied, open_denied, count_denied, denied_or_count, admit_denied, open_reads,
  turn_reads, tenant_of, count_read, read_or_count, admit_read, admit_write, admit_other, admit,
  gap_first, append_checked, as_log_error, append, mark_degraded, recorded, record_call,
  preflight_locked, preflight, gap_if_degraded, flush_locked, flushed, has_open, flush, shut_down,
  flush_for_shutdown,
}
use persistence_memory.CallLog.Calls.{is_read, is_write, pending, count_of}
use persistence_memory.CallLog.Steps.{Ends, >>=-Ends, need-Ends}
use persistence_memory.CallLog.Flushed.{flush_suppressed-Leads, record_gap-Leads, flush_reads-Leads}
use persistence_memory.CallLog.Chained.{Kept, AtTip, append_locked-AtTip, read_head-AtTip}

module _ (h : Sha256) (json : Json) (env : Env) (removes : env.removable ≡ true) where
  abbrev At : Head → World → Type 0
  At = AtTip h json env removes

  abbrev Good : World → Type 0
  Good = Kept h json env removes

  append_entry-Keeps :
      (f : Fields) (head : Head) (w : World)
      → At head w
      → Ends (λ _. Good) Good (append_entry h json env f head w)
  unfolding append_entry
  append_entry-Keeps f head w at =
      >>=-Ends (λ e. At (head_of e)) (λ _. Good) Good (append_locked h json env f head)
        (λ e. return _) w (append_locked-AtTip h json env removes f head w at)
        (λ e now there. there.0)

  turn_denied-Leads :
      (head : Head) (w : World) → At head w → Ends At Good (turn_denied h json env head w)
  unfolding turn_denied
  turn_denied-Leads head w at = elim (Bool-cases (w.denied_window.0 == env.minute)) [
    | inl same ↦ rw same at
    | inr other ↦ rw other (
        >>=-Ends At At Good (flush_suppressed h json env head)
          (λ next. modify (open_denied h json env) >>= λ _. return next) w
          (flush_suppressed-Leads h json env removes head w at) (λ next now there. there))
  ]

  turn_reads-Leads :
      (head : Head) (w : World) → At head w → Ends At Good (turn_reads h json env head w)
  unfolding turn_reads
  turn_reads-Leads head w at = elim (Bool-cases (w.read_window.0 == env.minute)) [
    | inl same ↦ rw same at
    | inr other ↦ rw other (
        >>=-Ends At At Good (flush_reads h json env head)
          (λ next. modify (open_reads h json env) >>= λ _. return next) w
          (flush_reads-Leads h json env removes head w at) (λ next now there. there))
  ]

  admit_denied-Keeps :
      (f : Fields) (head : Head) (w : World)
      → At head w
      → Ends (λ _. Good) Good (admit_denied h json env f head w)
  unfolding admit_denied denied_or_count
  admit_denied-Keeps f head w at =
      >>=-Ends At (λ _. Good) Good (turn_denied h json env head)
        (λ next. modify (count_denied h json env) >>= λ _. denied_or_count h json env f next) w
        (turn_denied-Leads head w at)
        (λ next now there. elim (Bool-cases (ltb env.denied_cap (now.denied_window.1 + 1))) [
          | inl over ↦ rw over there.0
          | inr under ↦ rw under (append_entry-Keeps f next (count_denied h json env now) there)
        ])

  admit_read-Keeps :
      (f : Fields) (head : Head) (w : World)
      → At head w
      → Ends (λ _. Good) Good (admit_read h json env f head w)
  unfolding admit_read read_or_count
  admit_read-Keeps f head w at =
      >>=-Ends At (λ _. Good) Good (turn_reads h json env head)
        (λ next. modify (count_read h json env f) >>= λ _. read_or_count h json env f next) w
        (turn_reads-Leads head w at)
        (λ next now there.
          elim (Bool-cases (
            ltb env.read_cap
              (count_of (tenant_of h json env f) (count_read h json env f now).read_window.1))) [
                | inl over ↦ rw over there.0
                | inr under ↦
                    rw under (append_entry-Keeps f next (count_read h json env f now) there)
              ])

  admit_write-Keeps :
      (f : Fields) (head : Head) (w : World)
      → At head w
      → Ends (λ _. Good) Good (admit_write h json env f head w)
  unfolding admit_write
  admit_write-Keeps f head w at =
      >>=-Ends At (λ _. Good) Good (flush_reads h json env head) (append_entry h json env f) w
        (flush_reads-Leads h json env removes head w at) (append_entry-Keeps f)

  admit_other-Keeps :
      (f : Fields) (head : Head) (w : World)
      → At head w
      → Ends (λ _. Good) Good (admit_other h json env f head w)
  unfolding admit_other
  admit_other-Keeps f head w at = elim (Bool-cases (is_read f)) [
    | inl reads ↦ rw reads (admit_read-Keeps f head w at)
    | inr no_read ↦ rw no_read (elim (Bool-cases (is_write f)) [
      | inl writes ↦ rw writes (admit_write-Keeps f head w at)
      | inr neither ↦ rw neither (append_entry-Keeps f head w at)
    ])
  ]

  admit-Keeps :
      (f : Fields) (head : Head) (w : World)
      → At head w
      → Ends (λ _. Good) Good (admit h json env f head w)
  unfolding admit
  admit-Keeps f head w at = elim (Bool-cases (f.outcome == codes "denied")) [
    | inl denied ↦ rw denied (admit_denied-Keeps f head w at)
    | inr other ↦ rw other (
        >>=-Ends At (λ _. Good) Good (flush_suppressed h json env head) (admit_other h json env f) w
          (flush_suppressed-Leads h json env removes head w at) (admit_other-Keeps f))
  ]

  gap_first-Leads :
      (head : Head) (w : World) → At head w → Ends At Good (gap_first h json env head w)
  unfolding gap_first
  gap_first-Leads head w at = record_gap-Leads h json env removes (degraded w) head w at

  as_log_error-Keeps :
      {A : Type 0} (prefix : Text) (r : Outcome A × World)
      → Ends (λ _. Good) Good r
      → Good (as_log_error h json env prefix r).1
  as_log_error-Keeps prefix (done a, w) good = good
  as_log_error-Keeps prefix (raised (call_log_error m), w) good = good
  as_log_error-Keeps prefix (raised (os_error m), w) good = good

  append-Kept : (f : Fields) (w : World) → Good w → Good (append h json env f w).1
  unfolding append append_checked
  append-Kept f w good =
      as_log_error-Keeps (codes "call log write failed: ") (append_checked h json env f w) (
        need-Ends (λ _. Good) Good env.lockable _ _ w good
          (>>=-Ends At (λ _. Good) Good read_head
            (λ head. gap_first h json env head >>= λ next. admit h json env f next) w
            (read_head-AtTip h json env removes w good)
            (λ head now at.
              >>=-Ends At (λ _. Good) Good (gap_first h json env head) (admit h json env f) now
                (gap_first-Leads head now at) (admit-Keeps f))))

  mark_degraded-Kept :
      (error : Text) (n m : ℕ) (w : World) → Good w → Good (mark_degraded h json env error n m w)
  unfolding mark_degraded
  mark_degraded-Kept error n m w good = elim (Bool-cases (env.lockable && env.markable)) [
    | inl can ↦ rw can good
    | inr cannot ↦ rw cannot good
  ]

  pub record_call-Kept : (f : Fields) (w : World) → Good w → Good (record_call h json env f w).1
  unfolding record_call
  record_call-Kept f w good = by (append h json env f w) (append-Kept f w good)
    where
      by : (r : Outcome _ × World) → Good r.1 → Good (recorded h json env r).1
      by (done a, now) after = after
      by (raised e, now) after = mark_degraded-Kept _ 1 0 now after

  Leads-Keeps : (r : Outcome Head × World) → Ends At Good r → Ends (λ _. Good) Good r
  Leads-Keeps (done head, w) at = at.0
  Leads-Keeps (raised e, w) good = good

  gap_if_degraded-Keeps :
      (head : Head) (w : World)
      → At head w
      → Ends (λ _. Good) Good (gap_if_degraded h json env head w)
  unfolding gap_if_degraded
  gap_if_degraded-Keeps head w at =
      >>=-Ends At (λ _. Good) Good (gap_first h json env head) (λ _. return tt) w
        (gap_first-Leads head w at) (λ next now there. there.0)

  pub preflight-Kept : (w : World) → Good w → Good (preflight h json env w).1
  unfolding preflight preflight_locked
  preflight-Kept w good =
      as_log_error-Keeps (codes "call log unavailable: ") (preflight_locked h json env w) (
        need-Ends (λ _. Good) Good env.lockable _ _ w good
          (>>=-Ends At (λ _. Good) Good read_head _ w (read_head-AtTip h json env removes w good)
            (λ head now at.
              need-Ends (λ _. Good) Good env.dir_writable _ _ now at.0
                (need-Ends (λ _. Good) Good env.today_writable _ _ now at.0
                  (need-Ends (λ _. Good) Good env.has_space _ _ now at.0
                    (gap_if_degraded-Keeps head now at))))))

  pub flush-Kept : (w : World) → Good w → Good (flush h json env w)
  unfolding flush flush_locked
  flush-Kept w good = by (flush_locked h json env w) (
      need-Ends (λ _. Good) Good env.lockable _ _ w good
        (>>=-Ends At (λ _. Good) Good read_head _ w (read_head-AtTip h json env removes w good)
          (λ head now at.
            >>=-Ends At (λ _. Good) Good (flush_suppressed h json env head) (flush_reads h json env)
              now (flush_suppressed-Leads h json env removes head now at)
              (λ next later there.
                Leads-Keeps _ (flush_reads-Leads h json env removes next later there)))))
    where
      by : (r : Outcome Head × World) → Ends (λ _. Good) Good r → Good (flushed h json env r)
      by (done a, now) after = after
      by (raised e, now) after = elim (Bool-cases (has_open h json env now)) [
        | inl open_ ↦ rw open_ (mark_degraded-Kept _ 0 0 now after)
        | inr closed ↦ rw closed after
      ]

  pub flush_for_shutdown-Kept : (w : World) → Good w → Good (flush_for_shutdown h json env w)
  unfolding flush_for_shutdown shut_down
  flush_for_shutdown-Kept w good = by (flush h json env w) (flush-Kept w good)
    where
      by : (now : World) → Good now → Good (shut_down h json env now)
      by now after = elim (Bool-cases (pending now == 0)) [
        | inl empty ↦ rw empty after
        | inr open_ ↦ rw open_ (mark_degraded-Kept _ (pending now) 0 now after)
      ]
