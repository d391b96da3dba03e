-- ===== src/CallLog/Verify.antt =====
-- `verify` of app/call_log.py: it walks the chain across the files and reports what does not fit.
use persistence_memory.Prelude.{
  suc, map, codes, if◌then◌else◌, ℕ, ◌+◌, Bool, true, false, not, ◌&&◌, Option, none, some, List,
  [], ◌∷◌, ◌++◌, text_eq, nat_eq, ◌==◌, when,
}
use persistence_memory.Hash.{Sha256}
use persistence_memory.CallLog.State.{Entry, Line, whole, broken, DayFile, Head, Outage, World, Env}
use persistence_memory.CallLog.Files.{head_of, start}
use persistence_memory.CallLog.Append.{Json, entry_hash_of, degraded}
use persistence_memory.CallLog.Record.{flush}

pub data Flaw : Type 0 where
  torn_line not_an_entry unreadable : Flaw
  edited : ℕ → Flaw
  wrong_seq : ℕ → ℕ → Flaw
  unlinked : ℕ → Flaw

pub record Problem : Type 0 where
  pub day : ℕ
  pub line : Option ℕ
  pub flaw : Flaw

-- The problems met, the head, and how many entries there are.
pub record Walk : Type 0 where
  pub problems : List Problem
  pub head : Head
  pub entries : ℕ

pub record Report : Type 0 where
  pub is_ok : Bool
  pub problems : List Problem
  pub entries : ℕ
  pub head : Head
  pub anchor : Option Head
  pub outage : Option Outage
  pub gaps_recorded : ℕ
  pub days : List ℕ  -- `files`, by their days

-- The gap entries, which `verify` counts.
abbrev pub gaps_in : List Line → ℕ
gaps_in [] = 0
gaps_in (broken ∷ ls) = gaps_in ls
gaps_in (whole e ∷ ls) =
    let rest = gaps_in ls in if e.fields.outcome == codes "gap" then suc rest else rest

-- `entries_desc` passes over a file that it cannot read.
abbrev pub gaps_of : (ℕ → Bool) → List DayFile → ℕ
gaps_of readable [] = 0
gaps_of readable (f ∷ fs) = (if readable f.day then gaps_in f.lines else 0) + gaps_of readable fs

abbrev pub is_last : List Line → Bool
is_last [] = true
is_last (l ∷ ls) = false

abbrev pub bad_line : Bool → Flaw
bad_line true = torn_line
bad_line false = not_an_entry

abbrev pub nothing : List Problem → Bool
nothing [] = true
nothing (p ∷ ps) = false

module _ (h : Sha256) (json : Json) where
  -- What is wrong with one entry, given the head before it.
  unfoldable pub entry_problems : ℕ → ℕ → Head → Entry → List Problem
  entry_problems day n prev e =
      when (not (entry_hash_of h json e == e.entry_hash))
        (record { day = day; line = some n; flaw = edited e.seq })
      ++ (when (not (e.seq == prev.seq + 1))
            (record { day = day; line = some n; flaw = wrong_seq e.seq (prev.seq + 1) })
          ++ when (not (e.prev_hash == prev.entry_hash))
              (record { day = day; line = some n; flaw = unlinked e.seq }))

  -- `for n, line in enumerate(lines, start=1)`
  unfoldable pub walk_lines : ℕ → Bool → ℕ → List Line → Walk → Walk
  walk_lines day ended n [] w = w
  walk_lines day ended n (broken ∷ ls) w =
      let flaw = bad_line (not ended && is_last ls) in
      walk_lines day ended (n + 1) ls (record w {
        problems = w.problems ++ record { day = day; line = some n; flaw = flaw } ∷ [];
      })
  walk_lines day ended n (whole e ∷ ls) w = walk_lines day ended (n + 1) ls (record {
    problems = w.problems ++ entry_problems day n w.head e;
    head = head_of e;
    entries = w.entries + 1;
  })

  -- One file: a problem where it cannot be read, else its lines.
  unfoldable pub walk_file : Bool → DayFile → Walk → Walk
  walk_file false f w = record w {
    problems = w.problems ++ record { day = f.day; line = none; flaw = unreadable } ∷ [];
  }
  walk_file true f w = walk_lines f.day f.ended 1 f.lines w

  unfoldable pub walk_files : (ℕ → Bool) → List DayFile → Walk → Walk
  walk_files readable [] w = w
  walk_files readable (f ∷ fs) w = walk_files readable fs (walk_file (readable f.day) f w)

  -- The loop of `verify` over all the files, from the anchor.
  unfoldable pub walk : (ℕ → Bool) → World → Walk
  walk readable w =
      walk_files readable w.files (record { problems = []; head = start w.anchor; entries = 0 })

  abbrev pub report_of : (ℕ → Bool) → World → Walk → Report
  report_of readable w seen = record {
    is_ok = nothing seen.problems;
    problems = seen.problems;
    entries = seen.entries;
    head = seen.head;
    anchor = w.anchor;
    outage = degraded w;
    gaps_recorded = gaps_of readable w.files;
    days = map (λ f. f.day) w.files;
  }

  -- `verify`: the report, and the log after the flush it begins with.
  unfoldable pub verify : Env → World → Report × World
  verify env w =
      let now = flush h json env w in (report_of env.readable now (walk env.readable now), now)
