-- ===== src/CallLog/Ready.antt =====
-- What a call goes through in a log that works: nothing raises, and the outage state stays empty.
use persistence_memory.Prelude.{
  ◌+◌, ◌≤◌, ◌≡◌, refl, sym, ap, ◌∙◌, subst, arith, inl, inr, true, false, Option, none, some, List,
  [], ◌∷◌, Text, text_eq, nat_eq, pair_eq, codes, ◌==◌, Bool-cases, lookup, ltb,
}
use persistence_memory.Hash.{Sha256}
use persistence_memory.CallLog.State.{
  Window, Fields, Entry, DayFile, Head, Outage, Write, World, Env, Outcome, done, raised, ◌>>=◌,
  modify, return, whole,
}
use persistence_memory.CallLog.Files.{head_of, add_line, rotate_and_retain}
use persistence_memory.CallLog.Append.{
  Json, combine, degraded, clear_degraded, take_write, write_line, next_entry, append_locked,
  flush_denied, flush_suppressed, flush_read, flush_keys, flush_reads, record_gap, close_denied,
  close_reads, clear, gap_fields,
}
use persistence_memory.CallLog.Record.{
  append_entry, turn_denied, open_denied, count_denied, denied_or_count, admit_denied, open_reads,
  turn_reads, tenant_of, key_of, count_read, read_or_count, admit_read, admit_write, admit_other,
  admit, gap_first,
}
use persistence_memory.CallLog.Calls.{
  Reply, entry, suppressed, is_read, is_write, count_of, pending,
}
use persistence_memory.CallLog.Account.{reads_count-insert}
use persistence_memory.CallLog.Counted.{counted-count}
use persistence_memory.CallLog.Stands.{Stands, HasGap, HasGap-grows, with_day-new, with_day-old}
use persistence_memory.CallLog.Steps.{Ends, >>=-Ends}
use persistence_memory.CallLog.Days.{Adds, add_line-Adds, with_day-All, AllRecent, keep-old}

abbrev pub Never : World → Type 0
Never w = ⊥

combine-none : (a b : Option Outage) → combine a b ≡ none → (a ≡ none) × (b ≡ none)
unfolding combine
combine-none none none same = (refl, refl)
combine-none none (some d) same = absurd (cc)
combine-none (some f) none same = absurd (cc)
combine-none (some f) (some d) same = absurd (cc)

-- What became of the call: its entry stands in the log, or it is counted in an open summary.
abbrev pub Answered : Fields → Reply → World → Type 0
Answered f (entry e) w = Stands e w.files × (e.fields ≡ f)
Answered f suppressed w = 1 ≤ pending w

-- `o` is the outage that the log was in before.
module _ (h : Sha256) (json : Json) (env : Env) (recent_day : ltb env.today env.cutoff ≡ false)
    (o : Option Outage) where
  -- Writes succeed, and retention has nothing to delete.
  pub record Works (files : List DayFile) (writes : List Write) : Type 0 where
    pub no_faults : writes ≡ []
    pub no_old : AllRecent env.cutoff files

  pub record InOrderly (files : List DayFile) (writes : List Write)
      (file_state outage : Option Outage) : Type 0 where
    pub works : Works files writes
    pub no_file_state : file_state ≡ none
    pub no_outage : outage ≡ none
    pub gap : HasGap env o files

  abbrev pub Ready : World → Type 0
  Ready w = InOrderly w.files w.writes w.file_state w.outage

  rotate_nothing : (w : World) → Works w.files w.writes → rotate_and_retain env w ≡ (done tt, w)
  unfolding rotate_and_retain
  rotate_nothing w works = rw (keep-old env.cutoff w.files works.no_old) refl

  record Appended (w : World) (f : Fields) (e : Entry) (now : World) : Type 0 where
    stands : Stands e now.files
    has_fields : e.fields ≡ f
    grows : (x : Entry) → Stands x w.files → Stands x now.files
    still_works : Works now.files now.writes
    same_file_state : now.file_state ≡ w.file_state
    same_outage : now.outage ≡ w.outage

  append_locked-Appended :
      (f : Fields) (head : Head) (w : World)
      → Works w.files w.writes
      → Ends (Appended w f) Never (append_locked h json env f head w)
  unfolding append_locked take_write write_line
  append_locked-Appended f head w works =
      rw (rotate_nothing w works, works.no_faults)
        (record {
          stands =
              with_day-new env.today _ _ added (next_entry h json env f head) w.files (inl refl);
          has_fields = unfold next_entry in refl;
          grows = λ x. with_day-old env.today _ _ added x w.files;
          still_works = record {
            no_faults = refl;
            no_old =
                with_day-All env.today _ _ added (λ d. ltb d env.cutoff ≡ false) w.files recent_day
                  works.no_old;
          };
          same_file_state = refl;
          same_outage = refl;
        })
    where
      added :
          Adds
            (add_line true (whole (next_entry h json env f head)))
            (whole (next_entry h json env f head) ∷ [])
      added = add_line-Adds true (whole (next_entry h json env f head))

  Appended-Ready :
      (f : Fields) (e : Entry) (w now : World) → Ready w → Appended w f e now → Ready now
  Appended-Ready f e w now ready a = record {
    works = a.still_works;
    no_file_state = a.same_file_state ∙ ready.no_file_state;
    no_outage = a.same_outage ∙ ready.no_outage;
    gap = HasGap-grows env o w.files now.files a.grows ready.gap;
  }

  append_locked-Ready :
      (f : Fields) (head : Head) (w : World)
      → Ready w
      → Ends (λ _. Ready) Never (append_locked h json env f head w)
  append_locked-Ready f head w ready =
      by (append_locked h json env f head w) (append_locked-Appended f head w ready.works)
    where
      by : (r : Outcome Entry × World) → Ends (Appended w f) Never r → Ends (λ _. Ready) Never r
      by (done e, now) a = Appended-Ready f e w now ready a
      by (raised e, now) never = never

  -- The gap is recorded, and the outage state is gone.
  pub record_gap-Ready :
      (clears : env.clearable ≡ true) (head : Head) (w : World)
      → Works w.files w.writes
      → degraded w ≡ o
      → Ends (λ _. Ready) Never (gap_first h json env head w)
  unfolding gap_first record_gap clear_degraded degraded gap_fields
  record_gap-Ready clears head w works there = by (combine w.file_state w.outage) refl
    where
      by :
          (p : Option Outage)
          → combine w.file_state w.outage ≡ p
          → Ends (λ _. Ready) Never (record_gap h json env p head w)
      by none empty =
          let both : (w.file_state ≡ none) × (w.outage ≡ none) =
            combine-none w.file_state w.outage empty in
          record {
            works = works;
            no_file_state = both.0;
            no_outage = both.1;
            gap = subst (λ p. HasGap env p w.files) (sym empty ∙ there) tt;
          }
      by (some s) here =
          >>=-Ends (Appended w (gap_fields h json env s)) (λ _. Ready) Never
            (append_locked h json env (gap_fields h json env s) head)
            (λ e. modify (clear h json env) >>= λ _. return (head_of e)) w
            (append_locked-Appended (gap_fields h json env s) head w works)
            (λ e now a. record {
              works = a.still_works;
              no_file_state = rw clears refl;
              no_outage = refl;
              gap =
                  subst (λ p. HasGap env p now.files) (sym here ∙ there)
                    (
                      e,
                      a.stands,
                      ap (λ (x : Fields). x.outcome) a.has_fields,
                      ap (λ (x : Fields). x.window) a.has_fields,
                      ap (λ (x : Fields). x.refused) a.has_fields,
                    );
            })

  flush_suppressed-Ready :
      (head : Head) (w : World)
      → Ready w
      → Ends (λ _. Ready) Never (flush_suppressed h json env head w)
  unfolding flush_suppressed flush_denied
  flush_suppressed-Ready head w ready = by w.suppressed
    where
      by : (o : Option Window) → Ends (λ _. Ready) Never (flush_denied h json env o head w)
      by none = ready
      by (some s) =
          >>=-Ends (λ _. Ready) (λ _. Ready) Never (append_locked h json env _ head)
            (λ e. modify (close_denied h json env) >>= λ _. return (head_of e)) w
            (append_locked-Ready _ head w ready) (λ e now after. after)

  flush_read-Ready :
      (key : Text × Text) (o : Option Window) (head : Head) (w : World)
      → Ready w
      → Ends (λ _. Ready) Never (flush_read h json env key o head w)
  unfolding flush_read
  flush_read-Ready key none head w ready = ready
  flush_read-Ready (tenant, transport) (some s) head w ready =
      >>=-Ends (λ _. Ready) (λ _. Ready) Never (append_locked h json env _ head)
        (λ e. modify (close_reads h json env (tenant, transport)) >>= λ _. return (head_of e)) w
        (append_locked-Ready _ head w ready) (λ e now after. after)

  flush_keys-Ready :
      (keys : List (Text × Text)) (head : Head) (w : World)
      → Ready w
      → Ends (λ _. Ready) Never (flush_keys h json env keys head w)
  unfolding flush_keys
  flush_keys-Ready [] head w ready = ready
  flush_keys-Ready (key ∷ keys) head w ready =
      >>=-Ends (λ _. Ready) (λ _. Ready) Never
        (flush_read h json env key (lookup key w.read_suppressed) head) (flush_keys h json env keys)
        w (flush_read-Ready key (lookup key w.read_suppressed) head w ready) (flush_keys-Ready keys)

  flush_reads-Ready :
      (head : Head) (w : World) → Ready w → Ends (λ _. Ready) Never (flush_reads h json env head w)
  unfolding flush_reads
  flush_reads-Ready head w ready = flush_keys-Ready _ head w ready

  -- After a call that returned: the log is in order, and the call is answered for.
  abbrev pub Settled : Fields → Reply → World → Type 0
  Settled f r now = Ready now × Answered f r now

  append_entry-Ready :
      (f : Fields) (head : Head) (w : World)
      → Ready w
      → Ends (Settled f) Never (append_entry h json env f head w)
  unfolding append_entry
  append_entry-Ready f head w ready =
      >>=-Ends (Appended w f) (Settled f) Never (append_locked h json env f head)
        (λ e. return (entry e)) w (append_locked-Appended f head w ready.works)
        (λ e now a. (Appended-Ready f e w now ready a, (a.stands, a.has_fields)))

  admit_denied-Ready :
      (f : Fields) (head : Head) (w : World)
      → Ready w
      → Ends (Settled f) Never (admit_denied h json env f head w)
  unfolding admit_denied denied_or_count turn_denied
  admit_denied-Ready f head w ready =
      >>=-Ends (λ _. Ready) (Settled f) Never (turn_denied h json env head)
        (λ next. modify (count_denied h json env) >>= λ _. denied_or_count h json env f next) w
        (elim (Bool-cases (w.denied_window.0 == env.minute)) [
          | inl same ↦ rw same ready
          | inr other ↦ rw other (
              >>=-Ends (λ _. Ready) (λ _. Ready) Never (flush_suppressed h json env head)
                (λ next. modify (open_denied h json env) >>= λ _. return next) w
                (flush_suppressed-Ready head w ready) (λ next now after. after))
        ])
        (λ next now after. elim (Bool-cases (ltb env.denied_cap (now.denied_window.1 + 1))) [
          | inl over ↦ rw over (after, omega (arith, counted-count env now.suppressed))
          | inr under ↦ rw under (append_entry-Ready f next (count_denied h json env now) after)
        ])

  admit_read-Ready :
      (f : Fields) (head : Head) (w : World)
      → Ready w
      → Ends (Settled f) Never (admit_read h json env f head w)
  unfolding admit_read read_or_count turn_reads
  admit_read-Ready f head w ready =
      >>=-Ends (λ _. Ready) (Settled f) Never (turn_reads h json env head)
        (λ next. modify (count_read h json env f) >>= λ _. read_or_count h json env f next) w
        (elim (Bool-cases (w.read_window.0 == env.minute)) [
          | inl same ↦ rw same ready
          | inr other ↦ rw other (
              >>=-Ends (λ _. Ready) (λ _. Ready) Never (flush_reads h json env head)
                (λ next. modify (open_reads h json env) >>= λ _. return next) w
                (flush_reads-Ready head w ready) (λ next now after. after))
        ])
        (λ next now after.
          elim (Bool-cases (
            ltb env.read_cap
              (count_of (tenant_of h json env f) (count_read h json env f now).read_window.1))) [
                | inl over ↦ rw over (
                  after,
                  omega (arith, reads_count-insert env (key_of h json env f) now.read_suppressed),
                )
                | inr under ↦
                    rw under (append_entry-Ready f next (count_read h json env f now) after)
              ])

  pub admit-Ready :
      (f : Fields) (head : Head) (w : World)
      → Ready w
      → Ends (Settled f) Never (admit h json env f head w)
  unfolding admit admit_other admit_write
  admit-Ready f head w ready = elim (Bool-cases (f.outcome == codes "denied")) [
    | inl denied ↦ rw denied (admit_denied-Ready f head w ready)
    | inr other ↦ rw other (
        >>=-Ends (λ _. Ready) (Settled f) Never (flush_suppressed h json env head)
          (admit_other h json env f) w (flush_suppressed-Ready head w ready)
          (λ next now after. elim (Bool-cases (is_read f)) [
            | inl reads ↦ rw reads (admit_read-Ready f next now after)
            | inr no_read ↦ rw no_read (elim (Bool-cases (is_write f)) [
              | inl writes ↦ rw writes (
                  >>=-Ends (λ _. Ready) (Settled f) Never (flush_reads h json env next)
                    (append_entry h json env f) now (flush_reads-Ready next now after)
                    (append_entry-Ready f))
              | inr neither ↦ rw neither (append_entry-Ready f next now after)
            ])
          ]))
  ]
