-- ===== src/CallLog/Days.antt =====
-- The daily files stand in the order of their days; what that gives for appending and retention.
use persistence_memory.Prelude.{
  ℕ, ◌≤◌, ◌<◌, ◌≡◌, refl, sym, ap, ◌∙◌, subst, inl, inr, Bool, false, List, [], ◌∷◌, ◌++◌, arith,
  nat_eq, nat_beq_iff, ◌==◌, ltb, ltb→lt, keep, All, Bool-cases,
}
use mathlib.Core.List.{append-nil, append_assoc}
use persistence_memory.CallLog.State.{Line, DayFile}
use persistence_memory.CallLog.Files.{add_line, put_line, torn_prefix, with_day, is_old, recent}

-- The lines of all the files.
abbrev pub lines_of : List DayFile → List Line
lines_of [] = []
lines_of (f ∷ fs) = f.lines ++ lines_of fs

abbrev pub InOrder : List DayFile → Type 0
InOrder [] = Unit
InOrder (f ∷ fs) = All (λ g. f.day < g.day) fs × InOrder fs

abbrev pub NotAfter : ℕ → List DayFile → Type 0
NotAfter today = All (λ f. f.day ≤ today)

-- A change of a file that keeps its day and adds lines at its end.
pub record Adds (f : DayFile → DayFile) (new : List Line) : Type 0 where
  pub same_day : (x : DayFile) → (f x).day ≡ x.day
  pub added : (x : DayFile) → (f x).lines ≡ x.lines ++ new

pub add_line-Adds : (complete : Bool) (l : Line) → Adds (add_line complete l) (l ∷ [])
unfolding add_line put_line torn_prefix
add_line-Adds complete l = record {
  same_day = λ x. ground (arith, Bool-cases x.ended);
  added = λ x. ground (arith, Bool-cases x.ended);
}

pub id-Adds : Adds (λ x. x) []
id-Adds = record { same_day = λ x. refl; added = λ x. sym (append-nil x.lines) }

none_after :
    (today : ℕ) (f : DayFile) (fs : List DayFile)
    → f.day ≡ today
    → All (λ g. f.day < g.day) fs
    → NotAfter today fs
    → fs ≡ []
none_after today f [] same later bound = refl
none_after today f (g ∷ gs) same later bound = absurd (omega (arith, later.0, bound.0))

module _ (today : ℕ) (change : DayFile → DayFile) (new : List Line) (adds : Adds change new) where
  pub lines_of-with_day :
      (fs : List DayFile)
      → InOrder fs
      → NotAfter today fs
      → lines_of (with_day today change fs) ≡ lines_of fs ++ new
  unfolding with_day
  lines_of-with_day [] order bound = rw (adds.added) (append-nil new)
  lines_of-with_day (f ∷ fs) order bound = elim (Bool-cases (f.day == today)) [
    | inl same ↦ rw same (
        rw (none_after today f fs ((nat_beq_iff f.day today).0 same) order.0 bound.1, adds.added f)
          (append-nil (f.lines ++ new) ∙ ap (λ r. r ++ new) (sym (append-nil f.lines))))
    | inr other ↦ rw other (elim (Bool-cases (ltb today f.day)) [
      | inl before ↦ absurd (omega (arith, ltb→lt today f.day before, bound.0))
      | inr behind ↦
          rw behind (
            rw (lines_of-with_day fs order.1 bound.1)
              (sym (append_assoc f.lines (lines_of fs) new)))
    ])
  ]

  pub with_day-All :
      (P : ℕ → Type 0) (fs : List DayFile)
      → P today
      → All (λ f. P f.day) fs
      → All (λ f. P f.day) (with_day today change fs)
  unfolding with_day
  with_day-All P [] here all = (subst P (sym (adds.same_day _)) here, tt)
  with_day-All P (f ∷ fs) here all = elim (Bool-cases (f.day == today)) [
    | inl same ↦ rw same (subst P (sym (adds.same_day f)) all.0, all.1)
    | inr other ↦ rw other (elim (Bool-cases (ltb today f.day)) [
      | inl before ↦ rw before (subst P (sym (adds.same_day _)) here, all)
      | inr behind ↦ rw behind (all.0, with_day-All P fs here all.1)
    ])
  ]

  pub with_day-InOrder :
      (fs : List DayFile) → InOrder fs → NotAfter today fs → InOrder (with_day today change fs)
  unfolding with_day
  with_day-InOrder [] order bound = (tt, tt)
  with_day-InOrder (f ∷ fs) order bound = elim (Bool-cases (f.day == today)) [
    | inl same ↦
        rw same (subst (λ d. All (λ g. d < g.day) fs) (sym (adds.same_day f)) order.0, order.1)
    | inr other ↦ rw other (elim (Bool-cases (ltb today f.day)) [
      | inl before ↦ absurd (omega (arith, ltb→lt today f.day before, bound.0))
      | inr behind ↦ rw behind (
        with_day-All (λ d. f.day < d) fs (ground (arith, nat_beq_iff f.day today)) order.0,
        with_day-InOrder fs order.1 bound.1,
      )
    ])
  ]

pub keep-All :
    {A : Type 0} (P : A → Type 0) (p : A → Bool) (xs : List A) → All P xs → All P (keep p xs)
keep-All P p [] all = tt
keep-All P p (x ∷ xs) all = elim (Bool-cases (p x)) [
  | inl yes_ ↦ rw yes_ (all.0, keep-All P p xs all.1)
  | inr no_ ↦ rw no_ (keep-All P p xs all.1)
]

pub keep-InOrder : (p : DayFile → Bool) (fs : List DayFile) → InOrder fs → InOrder (keep p fs)
keep-InOrder p [] order = tt
keep-InOrder p (f ∷ fs) order = elim (Bool-cases (p f)) [
  | inl yes_ ↦ rw yes_ (keep-All (λ g. f.day < g.day) p fs order.0, keep-InOrder p fs order.1)
  | inr no_ ↦ rw no_ (keep-InOrder p fs order.1)
]

module _ (cutoff : ℕ) where
  abbrev pub AllRecent : List DayFile → Type 0
  AllRecent = All (λ f. ltb f.day cutoff ≡ false)

  pub keep-recent : (fs : List DayFile) → AllRecent fs → keep (recent cutoff) fs ≡ fs
  keep-recent [] all = refl
  keep-recent (f ∷ fs) all = rw (all.0) (ap (λ r. f ∷ r) (keep-recent fs all.1))

  pub keep-old : (fs : List DayFile) → AllRecent fs → keep (is_old cutoff) fs ≡ []
  keep-old [] all = refl
  keep-old (f ∷ fs) all = rw (all.0) (keep-old fs all.1)

  later_recent :
      (f : DayFile) (fs : List DayFile)
      → ltb f.day cutoff ≡ false
      → All (λ g. f.day < g.day) fs
      → AllRecent fs
  later_recent f [] here later = tt
  later_recent f (g ∷ gs) here later = (ground (arith, later.0), later_recent f gs here later.1)

  -- The files to delete come before those that stay.
  pub old_then_recent :
      (fs : List DayFile)
      → InOrder fs
      → lines_of (keep (is_old cutoff) fs) ++ lines_of (keep (recent cutoff) fs) ≡ lines_of fs
  old_then_recent [] order = refl
  old_then_recent (f ∷ fs) order = elim (Bool-cases (ltb f.day cutoff)) [
    | inl old ↦
        rw old (append_assoc f.lines _ _ ∙ ap (λ r. f.lines ++ r) (old_then_recent fs order.1))
    | inr young ↦ rw young (
        let later : AllRecent fs = later_recent f fs young order.0 in
        rw (keep-old fs later, keep-recent fs later) refl)
  ]
