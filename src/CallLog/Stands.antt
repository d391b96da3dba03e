-- ===== src/CallLog/Stands.antt =====
-- An entry that stands in the files of the log (app/call_log.py), and what a line that is appended
-- leaves standing.
use persistence_memory.Prelude.{
  ℕ, ◌≡◌, sym, subst, ◌⊎◌, inl, inr, List, [], ◌∷◌, ◌++◌, nat_eq, ◌==◌, ltb, Bool-cases, Option,
  none, some, codes,
}
use persistence_memory.CallLog.State.{Entry, Line, whole, broken, DayFile, Outage, Env}
use persistence_memory.CallLog.Files.{with_day}
use persistence_memory.CallLog.Days.{Adds}

abbrev pub InLines : Entry → List Line → Type 0
InLines e [] = ⊥
InLines e (broken ∷ ls) = InLines e ls
InLines e (whole x ∷ ls) = (e ≡ x) ⊎ InLines e ls

-- The entry is a whole line of some file.
abbrev pub Stands : Entry → List DayFile → Type 0
Stands e [] = ⊥
Stands e (f ∷ fs) = InLines e f.lines ⊎ Stands e fs

InLines-left : (e : Entry) (xs ys : List Line) → InLines e xs → InLines e (xs ++ ys)
InLines-left e [] ys there = absurd there
InLines-left e (broken ∷ xs) ys there = InLines-left e xs ys there
InLines-left e (whole x ∷ xs) ys (inl same) = inl same
InLines-left e (whole x ∷ xs) ys (inr there) = inr (InLines-left e xs ys there)

InLines-right : (e : Entry) (xs ys : List Line) → InLines e ys → InLines e (xs ++ ys)
InLines-right e [] ys there = there
InLines-right e (broken ∷ xs) ys there = InLines-right e xs ys there
InLines-right e (whole x ∷ xs) ys there = inr (InLines-right e xs ys there)

module _ (today : ℕ) (change : DayFile → DayFile) (new : List Line) (adds : Adds change new)
    (e : Entry) where
  in_new : (f : DayFile) → InLines e new → InLines e (change f).lines
  in_new f there = subst (InLines e) (sym (adds.added f)) (InLines-right e f.lines new there)

  in_old : (f : DayFile) → InLines e f.lines → InLines e (change f).lines
  in_old f there = subst (InLines e) (sym (adds.added f)) (InLines-left e f.lines new there)

  -- What is appended stands in the log.
  pub with_day-new : (fs : List DayFile) → InLines e new → Stands e (with_day today change fs)
  unfolding with_day
  with_day-new [] there = inl (in_new _ there)
  with_day-new (f ∷ fs) there = elim (Bool-cases (f.day == today)) [
    | inl same ↦ rw same (inl (in_new f there))
    | inr other ↦ rw other (elim (Bool-cases (ltb today f.day)) [
      | inl before ↦ rw before (inl (in_new _ there))
      | inr behind ↦ rw behind (inr (with_day-new fs there))
    ])
  ]

  -- What stood in it still does.
  pub with_day-old : (fs : List DayFile) → Stands e fs → Stands e (with_day today change fs)
  unfolding with_day
  with_day-old [] there = absurd there
  with_day-old (f ∷ fs) there = elim (Bool-cases (f.day == today)) [
    | inl same ↦ rw same (first there)
    | inr other ↦ rw other (elim (Bool-cases (ltb today f.day)) [
      | inl before ↦ rw before (inr there)
      | inr behind ↦ rw behind (later there (with_day-old fs))
    ])
  ]
    where
      first : InLines e f.lines ⊎ Stands e fs → InLines e (change f).lines ⊎ Stands e fs
      first (inl here) = inl (in_old f here)
      first (inr behind) = inr behind

      later :
          InLines e f.lines ⊎ Stands e fs
          → (Stands e fs → Stands e (with_day today change fs))
          → InLines e f.lines ⊎ Stands e (with_day today change fs)
      later (inl here) keeps = inl here
      later (inr behind) keeps = inr (keeps behind)

-- The gap entry of an outage stands in the log: from when on, how many calls were not logged, and
-- how many writes were refused.
abbrev pub HasGap : Env → Option Outage → List DayFile → Type 0
HasGap env none fs = Unit
HasGap env (some s) fs =
    (e : Entry) × Stands e fs
    × (e.fields.outcome ≡ codes "gap")
    × (e.fields.window
        ≡ some (record { window_start = s.since; window_end = env.ts; count = s.unlogged }))
    × (e.fields.refused ≡ some s.refused)

pub HasGap-grows :
    (env : Env) (o : Option Outage) (fs gs : List DayFile)
    → ((e : Entry) → Stands e fs → Stands e gs)
    → HasGap env o fs
    → HasGap env o gs
HasGap-grows env none fs gs grows gap = tt
HasGap-grows env (some s) fs gs grows (e, stands, kind, window, refused) =
    (e, grows e stands, kind, window, refused)
