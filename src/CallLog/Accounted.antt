-- ===== src/CallLog/Accounted.antt =====
-- The calls accounted for never get fewer while summaries and gap entries are written.
use persistence_memory.Prelude.{
  ℕ, ◌+◌, ◌≤◌, ◌≡◌, refl, sym, ap, ◌∙◌, subst, inl, inr, Option, none, some, List, [], ◌∷◌, Text,
  text_eq, nat_eq, pair_eq, ◌==◌, Bool-cases, lookup, arith, erase,
}
use persistence_memory.Hash.{Sha256}
use persistence_memory.CallLog.State.{
  Window, Fields, Head, Outage, World, Env, Outcome, done, raised, continue, ◌>>=◌, modify, return,
}
use persistence_memory.CallLog.Files.{head_of}
use persistence_memory.CallLog.Append.{
  Json, combine, degraded, clear_degraded, append_locked, flush_denied, flush_suppressed,
  flush_read, flush_keys, flush_reads, record_gap, close_denied, close_reads, clear, gap_fields,
  summary_fields,
}
use persistence_memory.CallLog.Record.{
  append_entry, turn_denied, open_denied, open_reads, turn_reads,
}
use persistence_memory.CallLog.Calls.{entry, window_count, reads_count}
use persistence_memory.CallLog.Steps.{Ends, >>=-Ends}
use persistence_memory.CallLog.Account.{
  calls_of, unlogged_in, accounted, Fit, Retains, Wrote, Writes, append_locked-Writes,
  reads_count-erase,
}

pub combine-unlogged :
    (a b : Option Outage) → unlogged_in (combine a b) ≡ unlogged_in a + unlogged_in b
unfolding combine
combine-unlogged none none = omega arith
combine-unlogged none (some d) = omega arith
combine-unlogged (some f) none = omega arith
combine-unlogged (some f) (some d) = refl

-- At least `n` calls are accounted for.
pub record AtLeast (c n : ℕ) (w : World) : Type 0 where
  pub fit : Fit c w
  pub holds : n ≤ accounted w

-- What a write leaves as it was.
record SameParts (w now : World) : Type 0 where
  file_state_part : unlogged_in now.file_state ≡ unlogged_in w.file_state
  outage_part : unlogged_in now.outage ≡ unlogged_in w.outage
  suppressed_part : window_count now.suppressed ≡ window_count w.suppressed
  reads_part : reads_count now.read_suppressed ≡ reads_count w.read_suppressed

same_parts : (c n : ℕ) (w now : World) → Wrote c n w now → SameParts w now
same_parts c n w now r = record {
  file_state_part = ap unlogged_in r.same_file_state;
  outage_part = ap unlogged_in r.same_outage;
  suppressed_part = ap window_count r.same_suppressed;
  reads_part = ap reads_count r.same_reads;
}

kept : (c k : ℕ) (w now : World) (n : ℕ) → AtLeast c n w → Wrote c k w now → AtLeast c (n + k) now
kept c k w now n before r =
    let s : SameParts w now = same_parts c k w now r in
    record {
      fit = r.fit;
      holds = omega (
        arith, before.holds, r.more, s.file_state_part, s.outage_part, s.suppressed_part,
        s.reads_part,
      );
    }

pub fewer : (c n m : ℕ) (w : World) → n ≤ m → AtLeast c m w → AtLeast c n w
fewer c n m w less at = record { fit = at.fit; holds = omega (arith, less, at.holds) }

module _ (h : Sha256) (json : Json) (env : Env) (c : ℕ) (retains : Retains c env) where
  -- A line is written for `s`, which stood in memory, and then dropped from there.
  append_then :
      (f : Fields) (head : Head) (change : World → World) (w : World) (n : ℕ)
      → AtLeast c n w
      → ((now : World) → Wrote c (calls_of f.window) w now → AtLeast c n (change now))
      → Ends
          (λ _. AtLeast c n)
          (AtLeast c n)
          ((append_locked h json env f head >>= λ e. modify change >>= λ _. return (head_of e)) w)
  append_then f head change w n before moved =
      by (append_locked h json env f head w)
        (append_locked-Writes c env retains h json f head w before.fit)
    where
      by :
          (r : Outcome _ × World)
          → Writes c env retains (calls_of f.window) w r
          → Ends
              (λ _. AtLeast c n)
              (AtLeast c n)
              (continue (λ e. modify change >>= λ _. return (head_of e)) r)
      by (done e, now) w' = moved now w'
      by (raised e, now) w' = fewer c n (n + 0) now (omega arith) (kept c 0 w now n before w')

  pub flush_suppressed-AtLeast :
      (head : Head) (w : World) (n : ℕ)
      → AtLeast c n w
      → Ends (λ _. AtLeast c n) (AtLeast c n) (flush_suppressed h json env head w)
  unfolding flush_suppressed flush_denied summary_fields
  flush_suppressed-AtLeast head w n before = by w.suppressed refl
    where
      by :
          (o : Option Window)
          → w.suppressed ≡ o
          → Ends (λ _. AtLeast c n) (AtLeast c n) (flush_denied h json env o head w)
      by none there = before
      by (some s) there = append_then _ head (close_denied h json env) w n before (λ now r. record {
        fit = r.fit;
        holds =
            let p : SameParts w now = same_parts c s.count w now r in
            omega (
              arith,
              before.holds,
              r.more,
              p.file_state_part,
              p.outage_part,
              p.reads_part,
              ap window_count there,
            );
      })

  pub record_gap-AtLeast :
      (o : Option Outage) (head : Head) (w : World) (n : ℕ)
      → degraded w ≡ o
      → AtLeast c n w
      → Ends (λ _. AtLeast c n) (AtLeast c n) (record_gap h json env o head w)
  unfolding record_gap gap_fields clear_degraded degraded
  record_gap-AtLeast none head w n there before = before
  record_gap-AtLeast (some s) head w n there before =
      append_then _ head (clear h json env) w n before (λ now r. record {
        fit = r.fit;
        holds =
            let p : SameParts w now = same_parts c s.unlogged w now r in
            let total : s.unlogged ≡ unlogged_in w.file_state + unlogged_in w.outage =
              sym (ap unlogged_in there) ∙ combine-unlogged w.file_state w.outage in
            omega (arith, before.holds, r.more, p.suppressed_part, p.reads_part, total);
      })

  flush_read-AtLeast :
      (key : Text × Text) (o : Option Window) (head : Head) (w : World) (n : ℕ)
      → lookup key w.read_suppressed ≡ o
      → AtLeast c n w
      → Ends (λ _. AtLeast c n) (AtLeast c n) (flush_read h json env key o head w)
  unfolding flush_read summary_fields
  flush_read-AtLeast key none head w n there before = before
  flush_read-AtLeast (tenant, transport) (some s) head w n there before =
      append_then _ head (close_reads h json env (tenant, transport)) w n before (λ now r. record {
        fit = r.fit;
        holds =
            let p : SameParts w now = same_parts c s.count w now r in
            let gone : reads_count (erase (tenant, transport) now.read_suppressed) + s.count
                ≡ reads_count now.read_suppressed =
              reads_count-erase (tenant, transport) s now.read_suppressed
                (ap (lookup (tenant, transport)) r.same_reads ∙ there) in
            omega (
              arith, before.holds, r.more, p.file_state_part, p.outage_part, p.suppressed_part,
              p.reads_part, gone,
            );
      })

  flush_keys-AtLeast :
      (keys : List (Text × Text)) (head : Head) (w : World) (n : ℕ)
      → AtLeast c n w
      → Ends (λ _. AtLeast c n) (AtLeast c n) (flush_keys h json env keys head w)
  unfolding flush_keys
  flush_keys-AtLeast [] head w n before = before
  flush_keys-AtLeast (key ∷ keys) head w n before =
      >>=-Ends (λ _. AtLeast c n) (λ _. AtLeast c n) (AtLeast c n)
        (flush_read h json env key (lookup key w.read_suppressed) head) (flush_keys h json env keys)
        w (flush_read-AtLeast key (lookup key w.read_suppressed) head w n refl before)
        (λ next now after. flush_keys-AtLeast keys next now n after)

  pub flush_reads-AtLeast :
      (head : Head) (w : World) (n : ℕ)
      → AtLeast c n w
      → Ends (λ _. AtLeast c n) (AtLeast c n) (flush_reads h json env head w)
  unfolding flush_reads
  flush_reads-AtLeast head w n before = flush_keys-AtLeast _ head w n before

  -- One more call than before, or none if the log raises.
  abbrev pub Gains : {A : Type 0} → ℕ → Outcome A × World → Type 0
  Gains n = Ends (λ _. AtLeast c (n + 1)) (AtLeast c n)

  pub append_entry-Gains :
      (f : Fields) (head : Head) (w : World) (n : ℕ)
      → f.window ≡ none
      → AtLeast c n w
      → Gains n (append_entry h json env f head w)
  unfolding append_entry
  append_entry-Gains f head w n plain before =
      by (append_locked h json env f head w)
        (append_locked-Writes c env retains h json f head w before.fit)
    where
      by :
          (r : Outcome _ × World)
          → Writes c env retains (calls_of f.window) w r
          → Gains n (continue (λ e. return (entry e)) r)
      by (done e, now) r =
          subst (λ k. AtLeast c (n + k) now) (ap calls_of plain)
            (kept c (calls_of f.window) w now n before r)
      by (raised e, now) r = fewer c n (n + 0) now (omega arith) (kept c 0 w now n before r)

  pub turn_denied-AtLeast :
      (head : Head) (w : World) (n : ℕ)
      → AtLeast c n w
      → Ends (λ _. AtLeast c n) (AtLeast c n) (turn_denied h json env head w)
  unfolding turn_denied
  turn_denied-AtLeast head w n before = elim (Bool-cases (w.denied_window.0 == env.minute)) [
    | inl same ↦ rw same before
    | inr other ↦ rw other (
        >>=-Ends (λ _. AtLeast c n) (λ _. AtLeast c n) (AtLeast c n)
          (flush_suppressed h json env head)
          (λ next. modify (open_denied h json env) >>= λ _. return next) w
          (flush_suppressed-AtLeast head w n before)
          (λ next now after. record { fit = after.fit; holds = after.holds }))
  ]

  pub turn_reads-AtLeast :
      (head : Head) (w : World) (n : ℕ)
      → AtLeast c n w
      → Ends (λ _. AtLeast c n) (AtLeast c n) (turn_reads h json env head w)
  unfolding turn_reads
  turn_reads-AtLeast head w n before = elim (Bool-cases (w.read_window.0 == env.minute)) [
    | inl same ↦ rw same before
    | inr other ↦ rw other (
        >>=-Ends (λ _. AtLeast c n) (λ _. AtLeast c n) (AtLeast c n) (flush_reads h json env head)
          (λ next. modify (open_reads h json env) >>= λ _. return next) w
          (flush_reads-AtLeast head w n before)
          (λ next now after. record { fit = after.fit; holds = after.holds }))
  ]
