-- ===== src/CallLog/Account.antt =====
-- How many calls the log accounts for, and that a line that is written adds those it stands for.
use persistence_memory.Prelude.{
  ℕ, ◌+◌, ◌≤◌, ◌≡◌, refl, subst, inl, inr, true, false, Option, none, some, List, [], ◌∷◌, ◌++◌,
  arith, Text, text_eq, nat_eq, pair_eq, ◌==◌, ltb, Dict, lookup, insert, erase, All, All-map,
  Bool-cases,
}
use persistence_memory.Hash.{Sha256}
use persistence_memory.CallLog.State.{
  Window, Fields, Entry, Line, whole, broken, DayFile, Head, Outage, Write, written, unopened,
  unwritten, torn, unsynced, short, World, Env, Outcome, done,
}
use persistence_memory.CallLog.Files.{add_line, with_day, rotate_and_retain}
use persistence_memory.CallLog.Append.{
  Json, next_write, later_writes, write_line, take_write, next_entry, append_locked,
}
use persistence_memory.CallLog.Calls.{reads_count, counted, pending}
use persistence_memory.CallLog.Steps.{Ends}
use persistence_memory.CallLog.Days.{Adds, add_line-Adds, id-Adds, with_day-All, keep-old}
use persistence_memory.CallLog.Chained.{is_short, NoShort, next_write-NoShort, later_writes-NoShort}

-- How many calls an entry stands for: itself, or the number that a summary or a gap gives.
abbrev pub calls_of : Option Window → ℕ
calls_of none = 1
calls_of (some s) = s.count

abbrev pub calls_in : List Line → ℕ
calls_in [] = 0
calls_in (broken ∷ ls) = calls_in ls
calls_in (whole e ∷ ls) = calls_of e.fields.window + calls_in ls

abbrev pub logged : List DayFile → ℕ
logged [] = 0
logged (f ∷ fs) = calls_in f.lines + logged fs

abbrev pub unlogged_in : Option Outage → ℕ
unlogged_in none = 0
unlogged_in (some s) = s.unlogged

-- The calls accounted for: in the files, in the open summaries, and as unlogged.
abbrev pub accounted : World → ℕ
accounted w = logged w.files + (unlogged_in w.file_state + (unlogged_in w.outage + pending w))

calls_in-append : (xs ys : List Line) → calls_in (xs ++ ys) ≡ calls_in xs + calls_in ys
calls_in-append [] ys = omega arith
calls_in-append (broken ∷ xs) ys = calls_in-append xs ys
calls_in-append (whole e ∷ xs) ys = omega (arith, calls_in-append xs ys)

logged-with_day :
    (today : ℕ) (change : DayFile → DayFile) (new : List Line)
    → Adds change new
    → (fs : List DayFile) → logged (with_day today change fs) ≡ logged fs + calls_in new
unfolding with_day
logged-with_day today change new adds [] = rw (adds.added) (omega arith)
logged-with_day today change new adds (f ∷ fs) = elim (Bool-cases (f.day == today)) [
  | inl same ↦ rw same (rw (adds.added f) (omega (arith, calls_in-append f.lines new)))
  | inr other ↦ rw other (elim (Bool-cases (ltb today f.day)) [
    | inl before ↦ rw before (rw (adds.added) (omega arith))
    | inr behind ↦ rw behind (omega (arith, logged-with_day today change new adds fs))
  ])
]

-- No write ends after a part of a line without raising, and no file is before the day `c`.
pub record Fits (c : ℕ) (files : List DayFile) (writes : List Write) : Type 0 where
  pub no_short : NoShort writes
  pub not_before : All (λ f. c ≤ f.day) files

abbrev pub Fit : ℕ → World → Type 0
Fit c w = Fits c w.files w.writes

-- Retention deletes nothing from the day `c` on.
pub record Retains (c : ℕ) (env : Env) : Type 0 where
  pub cut_before : env.cutoff ≤ c
  pub begins : c ≤ env.today

-- `now` differs from `w` in its files, which account for `n` more calls.
pub record WroteFrom (c n before : ℕ) (file_state outage : Option Outage)
    (suppressed : Option Window) (reads : Dict (Text × Text) Window) (now : World) : Type 0 where
  pub fit : Fit c now
  pub more : before + n ≤ logged now.files
  pub same_file_state : now.file_state ≡ file_state
  pub same_outage : now.outage ≡ outage
  pub same_suppressed : now.suppressed ≡ suppressed
  pub same_reads : now.read_suppressed ≡ reads

abbrev pub Wrote : ℕ → ℕ → World → World → Type 0
Wrote c n w now =
    WroteFrom c n (logged w.files) w.file_state w.outage w.suppressed w.read_suppressed now

module _ (c : ℕ) (env : Env) (retains : Retains c env) where
  rotate_and_retain-nothing : (w : World) → Fit c w → rotate_and_retain env w ≡ (done tt, w)
  unfolding rotate_and_retain
  rotate_and_retain-nothing w fit =
      rw
        (keep-old env.cutoff w.files (
          All-map (λ f. c ≤ f.day) (λ f. ltb f.day env.cutoff ≡ false)
            (λ f from. ground (arith, retains.cut_before)) w.files fit.not_before))
        refl

  wrote :
      (change : DayFile → DayFile) (new : List Line)
      → Adds change new
      → (w : World) → Fit c w
      → Wrote c (calls_in new) w (record w { files = with_day env.today change w.files })
  wrote change new adds w fit = record {
    fit = record {
      no_short = fit.no_short;
      not_before =
          with_day-All env.today change new adds (λ d. c ≤ d) w.files retains.begins fit.not_before;
    };
    more = omega (arith, logged-with_day env.today change new adds w.files);
    same_file_state = refl;
    same_outage = refl;
    same_suppressed = refl;
    same_reads = refl;
  }

  nothing-Wrote : (w : World) → Fit c w → Wrote c 0 w w
  nothing-Wrote w fit = record {
    fit = fit;
    more = omega arith;
    same_file_state = refl;
    same_outage = refl;
    same_suppressed = refl;
    same_reads = refl;
  }

  at_least_none : (n : ℕ) (w now : World) → Wrote c n w now → Wrote c 0 w now
  at_least_none n w now r = record {
    fit = r.fit;
    more = omega (arith, r.more);
    same_file_state = r.same_file_state;
    same_outage = r.same_outage;
    same_suppressed = r.same_suppressed;
    same_reads = r.same_reads;
  }

  abbrev pub Writes : {A : Type 0} → ℕ → World → Outcome A × World → Type 0
  Writes n w = Ends (λ _. Wrote c n w) (Wrote c 0 w)

  write_line-Writes :
      (e : Entry) (w : World) (o : Write)
      → Fit c w
      → is_short o ≡ false
      → Writes (calls_of e.fields.window) w (write_line env e o w)
  unfolding write_line
  write_line-Writes e w o fit whole_or_none = by o whole_or_none
    where
      n : ℕ
      n = calls_of e.fields.window

      n_plus : n + 0 ≡ n
      n_plus = omega arith

      all :
          Wrote c
            (n + 0)
            w
            (record w { files = with_day env.today (add_line true (whole e)) w.files })
      all = wrote _ _ (add_line-Adds true (whole e)) w fit

      by : (p : Write) → is_short p ≡ false → Writes n w (write_line env e p w)
      by written ok_ =
          subst
            (λ k.
              Wrote c k w
                (record w { files = with_day env.today (add_line true (whole e)) w.files }))
            n_plus all
      by unopened ok_ = nothing-Wrote w fit
      by unwritten ok_ = wrote _ _ id-Adds w fit
      by torn ok_ = wrote _ _ (add_line-Adds false broken) w fit
      by unsynced ok_ =
          at_least_none (n + 0) w
            (record w { files = with_day env.today (add_line true (whole e)) w.files }) all
      by short ok_ = absurd (cc)

  -- A line that is written adds the calls that it stands for; a write that raises takes none away.
  pub append_locked-Writes :
      (h : Sha256) (json : Json) (f : Fields) (head : Head) (w : World)
      → Fit c w
      → Writes (calls_of f.window) w (append_locked h json env f head w)
  unfolding append_locked take_write next_entry
  append_locked-Writes h json f head w fit = rw (rotate_and_retain-nothing w fit) (
      write_line-Writes _ (record w { writes = later_writes w.writes }) (next_write w.writes)
        (record {
          no_short = later_writes-NoShort w.writes fit.no_short;
          not_before = fit.not_before;
        })
        (next_write-NoShort w.writes fit.no_short))

pub reads_count-erase :
    (k : Text × Text) (s : Window) (d : Dict (Text × Text) Window)
    → lookup k d ≡ some s
    → reads_count (erase k d) + s.count ≡ reads_count d
reads_count-erase k s [] found = absurd (cc)
reads_count-erase k s ((j, v) ∷ d) found = ground (arith, reads_count-erase k s d)

pub reads_count-insert :
    (env : Env) (k : Text × Text) (d : Dict (Text × Text) Window)
    → reads_count (insert k (counted env (lookup k d)) d) ≡ reads_count d + 1
reads_count-insert env k [] = refl
reads_count-insert env k ((j, v) ∷ d) = ground (arith, reads_count-insert env k d)
