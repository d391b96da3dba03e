-- ===== src/CallLog/Shutdown.antt =====
-- What a process leaves behind when it exits: `flush_for_shutdown` of app/call_log.py. What it has in
-- memory is gone then, so only the files and the DEGRADED file count.
use persistence_memory.Prelude.{
  ℕ, ◌+◌, ◌≤◌, ◌≡◌, refl, ◌∙◌, inl, inr, true, Option, none, some, List, [], ◌∷◌, Text, text_eq,
  nat_eq, pair_eq, ◌==◌, Bool-cases, lookup, arith,
}
use persistence_memory.Hash.{Sha256}
use persistence_memory.CallLog.State.{
  Window, Fields, Head, World, Env, os_error, Outcome, done, raised, continue, ◌>>=◌, modify,
  return,
}
use persistence_memory.CallLog.Files.{head_of, read_head}
use persistence_memory.CallLog.Append.{
  Json, append_locked, flush_denied, flush_suppressed, flush_read, flush_keys, flush_reads,
  close_denied, close_reads,
}
use persistence_memory.CallLog.Record.{
  mark_degraded, flush_locked, flushed, has_open, flush, shut_down, flush_for_shutdown,
}
use persistence_memory.CallLog.Calls.{pending}
use persistence_memory.CallLog.Steps.{Ends, >>=-Ends, need-Ends}
use persistence_memory.CallLog.Account.{
  calls_of, logged, unlogged_in, accounted, Fit, Retains, Writes, append_locked-Writes,
}
use persistence_memory.CallLog.Accounted.{AtLeast}
use persistence_memory.CallLog.NoneLost.{
  mark_degraded-AtLeast, pending-mark_degraded, flush-AtLeast,
}

-- The calls that the files and the DEGRADED file account for.
abbrev pub on_disk : World → ℕ
on_disk w = logged w.files + unlogged_in w.file_state

-- No outage is held in memory alone.
record Marked (c : ℕ) (w : World) : Type 0 where
  fit : Fit c w
  no_outage : w.outage ≡ none

module _ (h : Sha256) (json : Json) (env : Env) (c : ℕ) (retains : Retains c env) where
  append_then-Marked :
      (f : Fields) (head : Head) (change : World → World) (w : World)
      → ((now : World) → Marked c now → Marked c (change now))
      → Marked c w
      → Ends
          (λ _. Marked c)
          (Marked c)
          ((append_locked h json env f head >>= λ e. modify change >>= λ _. return (head_of e)) w)
  append_then-Marked f head change w keeps before =
      by (append_locked h json env f head w)
        (append_locked-Writes c env retains h json f head w before.fit)
    where
      by :
          (r : Outcome _ × World)
          → Writes c env retains (calls_of f.window) w r
          → Ends
              (λ _. Marked c)
              (Marked c)
              (continue (λ e. modify change >>= λ _. return (head_of e)) r)
      by (done e, now) r =
          keeps now (record { fit = r.fit; no_outage = r.same_outage ∙ before.no_outage })
      by (raised e, now) r = record { fit = r.fit; no_outage = r.same_outage ∙ before.no_outage }

  flush_suppressed-Marked :
      (head : Head) (w : World)
      → Marked c w
      → Ends (λ _. Marked c) (Marked c) (flush_suppressed h json env head w)
  unfolding flush_suppressed flush_denied
  flush_suppressed-Marked head w before = by w.suppressed
    where
      by : (o : Option Window) → Ends (λ _. Marked c) (Marked c) (flush_denied h json env o head w)
      by none = before
      by (some s) =
          append_then-Marked _ head (close_denied h json env) w
            (λ now m. record { fit = m.fit; no_outage = m.no_outage }) before

  flush_read-Marked :
      (key : Text × Text) (o : Option Window) (head : Head) (w : World)
      → Marked c w
      → Ends (λ _. Marked c) (Marked c) (flush_read h json env key o head w)
  unfolding flush_read
  flush_read-Marked key none head w before = before
  flush_read-Marked (tenant, transport) (some s) head w before =
      append_then-Marked _ head (close_reads h json env (tenant, transport)) w
        (λ now m. record { fit = m.fit; no_outage = m.no_outage }) before

  flush_keys-Marked :
      (keys : List (Text × Text)) (head : Head) (w : World)
      → Marked c w
      → Ends (λ _. Marked c) (Marked c) (flush_keys h json env keys head w)
  unfolding flush_keys
  flush_keys-Marked [] head w before = before
  flush_keys-Marked (key ∷ keys) head w before =
      >>=-Ends (λ _. Marked c) (λ _. Marked c) (Marked c)
        (flush_read h json env key (lookup key w.read_suppressed) head) (flush_keys h json env keys)
        w (flush_read-Marked key (lookup key w.read_suppressed) head w before)
        (flush_keys-Marked keys)

  flush_reads-Marked :
      (head : Head) (w : World)
      → Marked c w
      → Ends (λ _. Marked c) (Marked c) (flush_reads h json env head w)
  unfolding flush_reads
  flush_reads-Marked head w before = flush_keys-Marked _ head w before

  mark_degraded-marks :
      (error : Text) (k refused : ℕ) (w : World)
      → env.lockable ≡ true
      → env.markable ≡ true
      → (mark_degraded h json env error k refused w).outage ≡ none
  unfolding mark_degraded
  mark_degraded-marks error k refused w locks marks = rw (locks, marks) refl

  flush-marks :
      (w : World)
      → env.lockable ≡ true
      → env.markable ≡ true
      → Marked c w
      → (flush h json env w).outage ≡ none
  unfolding flush flush_locked read_head
  flush-marks w locks marks before = by (flush_locked h json env w) (
      need-Ends (λ _. Marked c) (Marked c) env.lockable (os_error env.os_message)
        (read_head >>= λ head.
          flush_suppressed h json env head >>= λ next. flush_reads h json env next)
        w before
        (>>=-Ends (λ _. Marked c) (λ _. Marked c) (Marked c) read_head
          (λ head. flush_suppressed h json env head >>= λ next. flush_reads h json env next) w
          (any_head (read_head w).0)
          (λ head now at.
            >>=-Ends (λ _. Marked c) (λ _. Marked c) (Marked c) (flush_suppressed h json env head)
              (flush_reads h json env) now (flush_suppressed-Marked head now at)
              flush_reads-Marked)))
    where
      any_head : (o : Outcome Head) → Ends (λ _. Marked c) (Marked c) (o, w)
      any_head (done head) = before
      any_head (raised e) = before

      by :
          (r : Outcome Head × World)
          → Ends (λ _. Marked c) (Marked c) r
          → (flushed h json env r).outage ≡ none
      by (done a, now) after = after.no_outage
      by (raised e, now) after = elim (Bool-cases (has_open h json env now)) [
        | inl open_ ↦ rw open_ (mark_degraded-marks _ 0 0 now locks marks)
        | inr closed ↦ rw closed after.no_outage
      ]

  -- After a shutdown nothing is left in memory, neither open summaries nor an outage, and the files
  -- and the DEGRADED file account for every call that the log accounted for before, whatever writes
  -- to the log fail. The lock can be taken and the DEGRADED file written, and no outage was held in
  -- memory before; retention deletes nothing, and `os.write` writes a whole line or raises.
  pub shutdown-accounted :
      (w : World)
      → env.lockable ≡ true
      → env.markable ≡ true
      → w.outage ≡ none
      → Fit c w
      → (pending (flush_for_shutdown h json env w) ≡ 0)
        × ((flush_for_shutdown h json env w).outage ≡ none)
        × (accounted w ≤ on_disk (flush_for_shutdown h json env w))
  unfolding flush_for_shutdown shut_down
  shutdown-accounted w locks marks calm fit =
      by (flush h json env w)
        (flush-AtLeast h json env c retains w (accounted w)
          (record { fit = fit; holds = omega arith }))
        (flush-marks w locks marks (record { fit = fit; no_outage = calm }))
    where
      only_disk : (now : World) → now.outage ≡ none → pending now ≡ 0 → accounted now ≡ on_disk now
      only_disk now quiet empty = rw (quiet, empty) (omega arith)

      counted_as_unlogged :
          (error : Text) (now : World)
          → AtLeast c (accounted w) now
          → accounted w ≤ on_disk (mark_degraded h json env error (pending now) 0 now)
      counted_as_unlogged error now after =
          let marked : World = mark_degraded h json env error (pending now) 0 now in
          let quiet : marked.outage ≡ none =
            mark_degraded-marks error (pending now) 0 now locks marks in
          let same : unlogged_in marked.outage ≡ 0 = rw quiet refl in
          omega (
            arith,
            (mark_degraded-AtLeast h json env c retains error (pending now) 0 (accounted w) now
                after).holds,
            pending-mark_degraded h json env c retains error (pending now) 0 now,
            same,
          )

      by :
          (now : World)
          → AtLeast c (accounted w) now
          → now.outage ≡ none
          → (pending (shut_down h json env now) ≡ 0)
            × ((shut_down h json env now).outage ≡ none)
            × (accounted w ≤ on_disk (shut_down h json env now))
      by now after quiet = elim (Bool-cases (pending now == 0)) [
        | inl none_left ↦
            let empty : pending now ≡ 0 = (nat_eq.equal_iff (pending now) 0).0 none_left in
            rw none_left (empty, quiet, omega (arith, after.holds, only_disk now quiet empty))
        | inr some_left ↦ rw some_left (
          refl,
          mark_degraded-marks _ (pending now) 0 now locks marks,
          counted_as_unlogged _ now after,
        )
      ]
