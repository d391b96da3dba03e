-- ===== src/CallLog/NoneLost.antt =====
-- No call is dropped silently: each one that is recorded is accounted for, in an entry, in a summary
-- that is open or written, or in the outage state, whatever fails.
use persistence_memory.Prelude.{
  ℕ, ◌+◌, ◌≤◌, ◌≡◌, refl, inl, inr, ◌&&◌, Option, none, some, Text, text_eq, nat_eq, pair_eq, codes,
  Bool-cases, arith,
}
use persistence_memory.Hash.{Sha256}
use persistence_memory.CallLog.State.{
  Fields, Head, Outage, World, Env, os_error, Outcome, done, raised, ◌>>=◌,
}
use persistence_memory.CallLog.Files.{read_head}
use persistence_memory.CallLog.Append.{Json, flush_suppressed, flush_reads}
use persistence_memory.CallLog.Record.{
  append_checked, append, mark_degraded, added, recorded, record_call, flush_locked, flushed,
  has_open, flush,
}
use persistence_memory.CallLog.Calls.{pending}
use persistence_memory.CallLog.Steps.{Ends, >>=-Ends, need-Ends}
use persistence_memory.CallLog.Account.{unlogged_in, accounted, Fit, Retains}
use persistence_memory.CallLog.Accounted.{
  AtLeast, fewer, combine-unlogged, flush_suppressed-AtLeast, flush_reads-AtLeast,
}
use persistence_memory.CallLog.Counted.{Up, append_checked-Up, as_log_error-Up}

module _ (h : Sha256) (json : Json) (env : Env) (c : ℕ) (retains : Retains c env) where
  pub mark_degraded-AtLeast :
      (error : Text) (k refused n : ℕ) (w : World)
      → AtLeast c n w
      → AtLeast c (n + k) (mark_degraded h json env error k refused w)
  unfolding mark_degraded
  mark_degraded-AtLeast error k refused n w before =
      elim (Bool-cases (env.lockable && env.markable)) [
        | inl can ↦ rw can (record {
          fit = before.fit;
          holds = omega (
            arith,
            before.holds,
            more w.outage,
            combine-unlogged w.file_state (some (added h json env error k refused w.outage)),
          );
        })
        | inr cannot ↦
            rw cannot
              (record { fit = before.fit; holds = omega (arith, before.holds, more w.outage) })
      ]
    where
      more : (o : Option Outage) → (added h json env error k refused o).unlogged ≡ unlogged_in o + k
      more none = omega arith
      more (some d) = refl

  -- Recording a call makes the log account for one more call at least: as an entry, in an open
  -- summary, or as unlogged, on whichever call the recording fails. The call is one that is witnessed,
  -- not a summary; retention deletes nothing; and `os.write` writes a whole line or raises.
  pub record_call-accounted :
      (f : Fields) (w : World)
      → f.window ≡ none
      → Fit c w
      → accounted w + 1 ≤ accounted (record_call h json env f w).1
  unfolding record_call append
  record_call-accounted f w plain fit =
      (by (append h json env f w) (
        as_log_error-Up h json env c retains (codes "call log write failed: ")
          (append_checked h json env f w) (accounted w)
          (append_checked-Up h json env c retains f w (accounted w) plain
            (record { fit = fit; holds = omega arith })))).holds
    where
      by :
          (r : Outcome _ × World)
          → Up h json env c retains (accounted w) r
          → AtLeast c (accounted w + 1) (recorded h json env r).1
      by (done a, now) after = after
      by (raised e, now) after = mark_degraded-AtLeast _ 1 0 (accounted w) now after

  pub pending-mark_degraded :
      (error : Text) (k refused : ℕ) (w : World)
      → pending (mark_degraded h json env error k refused w) ≡ pending w
  unfolding mark_degraded
  pending-mark_degraded error k refused w = elim (Bool-cases (env.lockable && env.markable)) [
    | inl can ↦ rw can refl
    | inr cannot ↦ rw cannot refl
  ]

  pub flush-AtLeast : (w : World) (n : ℕ) → AtLeast c n w → AtLeast c n (flush h json env w)
  unfolding flush flush_locked read_head
  flush-AtLeast w n before = by (flush_locked h json env w) (
      need-Ends (λ _. AtLeast c n) (AtLeast c n) env.lockable (os_error env.os_message)
        (read_head >>= λ head.
          flush_suppressed h json env head >>= λ next. flush_reads h json env next)
        w before
        (>>=-Ends (λ _. AtLeast c n) (λ _. AtLeast c n) (AtLeast c n) read_head
          (λ head. flush_suppressed h json env head >>= λ next. flush_reads h json env next) w
          (any_head (read_head w).0)
          (λ head now at.
            >>=-Ends (λ _. AtLeast c n) (λ _. AtLeast c n) (AtLeast c n)
              (flush_suppressed h json env head) (flush_reads h json env) now
              (flush_suppressed-AtLeast h json env c retains head now n at)
              (λ next later after. flush_reads-AtLeast h json env c retains next later n after))))
    where
      any_head : (o : Outcome Head) → Ends (λ _. AtLeast c n) (AtLeast c n) (o, w)
      any_head (done head) = before
      any_head (raised e) = before

      by :
          (r : Outcome Head × World)
          → Ends (λ _. AtLeast c n) (AtLeast c n) r
          → AtLeast c n (flushed h json env r)
      by (done a, now) after = after
      by (raised e, now) after = elim (Bool-cases (has_open h json env now)) [
        | inl open_ ↦
            rw open_ (fewer c n (n + 0) _ (omega arith) (mark_degraded-AtLeast _ 0 0 n now after))
        | inr closed ↦ rw closed after
      ]
