-- ===== src/CallLog/Counted.antt =====
-- A call that is admitted to the log is counted, as an entry or in an open summary.
use persistence_memory.Prelude.{
  ℕ, ◌+◌, ◌≡◌, refl, inl, inr, Option, none, some, Text, text_eq, nat_eq, pair_eq, codes, ◌==◌,
  Bool-cases, arith, ltb,
}
use persistence_memory.Hash.{Sha256}
use persistence_memory.CallLog.State.{
  Window, Fields, Head, World, Env, call_log_error, os_error, Outcome, done, raised, ◌>>=◌, modify,
}
use persistence_memory.CallLog.Files.{read_head}
use persistence_memory.CallLog.Append.{Json, degraded, flush_suppressed, flush_reads}
use persistence_memory.CallLog.Record.{
  append_entry, turn_denied, count_denied, denied_or_count, admit_denied, turn_reads, tenant_of,
  key_of, count_read, read_or_count, admit_read, admit_write, admit_other, admit, gap_first,
  append_checked, as_log_error,
}
use persistence_memory.CallLog.Calls.{is_read, is_write, count_of, window_count, counted}
use persistence_memory.CallLog.Steps.{Ends, >>=-Ends, need-Ends}
use persistence_memory.CallLog.Account.{Retains, reads_count-insert}
use persistence_memory.CallLog.Accounted.{
  AtLeast, Gains, flush_suppressed-AtLeast, record_gap-AtLeast, flush_reads-AtLeast,
  append_entry-Gains, turn_denied-AtLeast, turn_reads-AtLeast,
}

pub counted-count : (env : Env) (o : Option Window) → (counted env o).count ≡ window_count o + 1
counted-count env none = refl
counted-count env (some s) = refl

module _ (h : Sha256) (json : Json) (env : Env) (c : ℕ) (retains : Retains c env) where
  abbrev pub Up : {A : Type 0} → ℕ → Outcome A × World → Type 0
  Up = Gains h json env c retains

  admit_denied-Up :
      (f : Fields) (head : Head) (w : World) (n : ℕ)
      → f.window ≡ none
      → AtLeast c n w
      → Up n (admit_denied h json env f head w)
  unfolding admit_denied denied_or_count
  admit_denied-Up f head w n plain before =
      >>=-Ends (λ _. AtLeast c n) (λ _. AtLeast c (n + 1)) (AtLeast c n)
        (turn_denied h json env head)
        (λ next. modify (count_denied h json env) >>= λ _. denied_or_count h json env f next) w
        (turn_denied-AtLeast h json env c retains head w n before)
        (λ next now after. elim (Bool-cases (ltb env.denied_cap (now.denied_window.1 + 1))) [
          | inl over ↦ rw over (record {
            fit = after.fit;
            holds = omega (arith, after.holds, counted-count env now.suppressed);
          })
          | inr under ↦ rw under (
              append_entry-Gains h json env c retains f next (count_denied h json env now) n plain
                (record { fit = after.fit; holds = after.holds }))
        ])

  admit_read-Up :
      (f : Fields) (head : Head) (w : World) (n : ℕ)
      → f.window ≡ none
      → AtLeast c n w
      → Up n (admit_read h json env f head w)
  unfolding admit_read read_or_count
  admit_read-Up f head w n plain before =
      >>=-Ends (λ _. AtLeast c n) (λ _. AtLeast c (n + 1)) (AtLeast c n)
        (turn_reads h json env head)
        (λ next. modify (count_read h json env f) >>= λ _. read_or_count h json env f next) w
        (turn_reads-AtLeast h json env c retains head w n before)
        (λ next now after.
          elim (Bool-cases (
            ltb env.read_cap
              (count_of (tenant_of h json env f) (count_read h json env f now).read_window.1))) [
                | inl over ↦ rw over (record {
                  fit = after.fit;
                  holds = omega (
                    arith,
                    after.holds,
                    reads_count-insert env (key_of h json env f) now.read_suppressed,
                  );
                })
                | inr under ↦ rw under (
                    append_entry-Gains h json env c retains f next (count_read h json env f now) n
                      plain (record { fit = after.fit; holds = after.holds }))
              ])

  admit_other-Up :
      (f : Fields) (head : Head) (w : World) (n : ℕ)
      → f.window ≡ none
      → AtLeast c n w
      → Up n (admit_other h json env f head w)
  unfolding admit_other admit_write
  admit_other-Up f head w n plain before = elim (Bool-cases (is_read f)) [
    | inl reads ↦ rw reads (admit_read-Up f head w n plain before)
    | inr no_read ↦ rw no_read (elim (Bool-cases (is_write f)) [
      | inl writes ↦ rw writes (
          >>=-Ends (λ _. AtLeast c n) (λ _. AtLeast c (n + 1)) (AtLeast c n)
            (flush_reads h json env head) (append_entry h json env f) w
            (flush_reads-AtLeast h json env c retains head w n before)
            (λ next now after. append_entry-Gains h json env c retains f next now n plain after))
      | inr neither ↦ rw neither (append_entry-Gains h json env c retains f head w n plain before)
    ])
  ]

  admit-Up :
      (f : Fields) (head : Head) (w : World) (n : ℕ)
      → f.window ≡ none
      → AtLeast c n w
      → Up n (admit h json env f head w)
  unfolding admit
  admit-Up f head w n plain before = elim (Bool-cases (f.outcome == codes "denied")) [
    | inl denied ↦ rw denied (admit_denied-Up f head w n plain before)
    | inr other ↦ rw other (
        >>=-Ends (λ _. AtLeast c n) (λ _. AtLeast c (n + 1)) (AtLeast c n)
          (flush_suppressed h json env head) (admit_other h json env f) w
          (flush_suppressed-AtLeast h json env c retains head w n before)
          (λ next now after. admit_other-Up f next now n plain after))
  ]

  pub append_checked-Up :
      (f : Fields) (w : World) (n : ℕ)
      → f.window ≡ none
      → AtLeast c n w
      → Up n (append_checked h json env f w)
  unfolding append_checked read_head gap_first
  append_checked-Up f w n plain before =
      need-Ends (λ _. AtLeast c (n + 1)) (AtLeast c n) env.lockable (os_error env.os_message)
        (read_head >>= λ head. gap_first h json env head >>= λ next. admit h json env f next) w
        before
        (>>=-Ends (λ _. AtLeast c n) (λ _. AtLeast c (n + 1)) (AtLeast c n) read_head
          (λ head. gap_first h json env head >>= λ next. admit h json env f next) w
          (any_head (read_head w).0)
          (λ head now at.
            >>=-Ends (λ _. AtLeast c n) (λ _. AtLeast c (n + 1)) (AtLeast c n)
              (gap_first h json env head) (admit h json env f) now
              (record_gap-AtLeast h json env c retains (degraded now) head now n refl at)
              (λ next later after. admit-Up f next later n plain after)))
    where
      any_head : (o : Outcome Head) → Ends (λ _. AtLeast c n) (AtLeast c n) (o, w)
      any_head (done head) = before
      any_head (raised e) = before

  pub as_log_error-Up :
      {A : Type 0} (prefix : Text) (r : Outcome A × World) (n : ℕ)
      → Up n r
      → Up n (as_log_error h json env prefix r)
  as_log_error-Up prefix (done a, w) n up = up
  as_log_error-Up prefix (raised (call_log_error m), w) n up = up
  as_log_error-Up prefix (raised (os_error m), w) n up = up
