-- ===== src/CallLog/Walked.antt =====
-- What `verify` of the call log reports, against the chain it is meant to check.
use persistence_memory.Prelude.{
  ℕ, ◌+◌, ◌≡◌, ◌↔◌, refl, sym, subst, Bool, true, false, not, none, List, [], ◌∷◌, ◌++◌, text_eq,
  nat_eq, ◌==◌, All, when,
}
use persistence_memory.Hash.{Sha256}
use persistence_memory.CallLog.State.{Entry, Line, whole, broken, DayFile, Head, World, Env}
use persistence_memory.CallLog.Files.{head_of, start}
use persistence_memory.CallLog.Append.{Json, entry_hash_of}
use persistence_memory.CallLog.Record.{flush}
use persistence_memory.CallLog.Verify.{
  Flaw, torn_line, not_an_entry, Problem, Walk, unreadable, bad_line, entry_problems, walk_lines,
  walk_file, walk_files, walk, verify,
}
use persistence_memory.CallLog.Days.{lines_of}
use persistence_memory.CallLog.Linked.{chain_end, Follows, Linked, Linked-append, Linked-rest}

-- The flaws of lines that do not parse.
abbrev pub IsLineFlaw : Flaw → Type 0
IsLineFlaw torn_line = Unit
IsLineFlaw not_an_entry = Unit
IsLineFlaw _ = ⊥

-- Nothing but lines that do not parse is reported.
abbrev pub OnlyLines : List Problem → Type 0
OnlyLines = All (λ p. IsLineFlaw p.flaw)

OnlyLines-append : (xs ys : List Problem) → OnlyLines (xs ++ ys) ↔ (OnlyLines xs × OnlyLines ys)
OnlyLines-append [] ys = (λ all. (tt, all), λ both. both.1)
OnlyLines-append (x ∷ xs) ys = (
  λ all. ((all.0, ((OnlyLines-append xs ys).0 all.1).0), ((OnlyLines-append xs ys).0 all.1).1),
  λ both. (both.0.0, (OnlyLines-append xs ys).1 (both.0.1, both.1)),
)

OnlyLines-when :
    (b : Bool) (p : Problem) → (IsLineFlaw p.flaw → ⊥) → OnlyLines (when (not b) p) ↔ (b ≡ true)
OnlyLines-when true p never = (λ all. refl, λ same. tt)
OnlyLines-when false p never = (λ all. absurd (never all.0), λ same. absurd (cc))

bad_line-IsLineFlaw : (b : Bool) → IsLineFlaw (bad_line b)
bad_line-IsLineFlaw true = tt
bad_line-IsLineFlaw false = tt

module _ (h : Sha256) (json : Json) where
  -- One entry raises no problem exactly when it follows the head before it.
  entry_problems_iff :
      (day n : ℕ) (p : Head) (e : Entry)
      → OnlyLines (entry_problems h json day n p e) ↔ Follows h json p e
  unfolding entry_problems
  entry_problems_iff day n p e = (
    λ all.
        let (same, rest) = (OnlyLines-append _ _).0 all in
        let (seq, links) = (OnlyLines-append _ _).0 rest in
        record {
          next_seq =
              (nat_eq.equal_iff e.seq (p.seq + 1)).0
                ((OnlyLines-when (e.seq == (p.seq + 1)) _ (λ x. x)).0 seq);
          links =
              (text_eq.equal_iff e.prev_hash p.entry_hash).0
                ((OnlyLines-when (e.prev_hash == p.entry_hash) _ (λ x. x)).0 links);
          recomputes = sym (
              (text_eq.equal_iff (entry_hash_of h json e) e.entry_hash).0
                ((OnlyLines-when (entry_hash_of h json e == e.entry_hash) _ (λ x. x)).0 same));
        },
    λ f. (OnlyLines-append _ _).1 (
      (OnlyLines-when (entry_hash_of h json e == e.entry_hash) _ (λ x. x)).1
          ((text_eq.equal_iff (entry_hash_of h json e) e.entry_hash).1 (sym f.recomputes)),
      (OnlyLines-append _ _).1 (
        (OnlyLines-when (e.seq == (p.seq + 1)) _ (λ x. x)).1
            ((nat_eq.equal_iff e.seq (p.seq + 1)).1 f.next_seq),
        (OnlyLines-when (e.prev_hash == p.entry_hash) _ (λ x. x)).1
            ((text_eq.equal_iff e.prev_hash p.entry_hash).1 f.links),
      ),
    ),
  )

  walk_lines-head :
      (day : ℕ) (ended : Bool) (n : ℕ) (ls : List Line) (w : Walk)
      → (walk_lines h json day ended n ls w).head ≡ chain_end w.head ls
  unfolding walk_lines
  walk_lines-head day ended n [] w = refl
  walk_lines-head day ended n (broken ∷ ls) w = walk_lines-head day ended (n + 1) ls _
  walk_lines-head day ended n (whole e ∷ ls) w = walk_lines-head day ended (n + 1) ls _

  walk_lines_iff :
      (day : ℕ) (ended : Bool) (n : ℕ) (ls : List Line) (w : Walk)
      → OnlyLines (walk_lines h json day ended n ls w).problems
        ↔ (OnlyLines w.problems × Linked h json w.head ls)
  unfolding walk_lines
  walk_lines_iff day ended n [] w = (λ all. (all, tt), λ both. both.0)
  walk_lines_iff day ended n (broken ∷ ls) w = (
    λ all.
        let (before, linked) = (walk_lines_iff day ended (n + 1) ls _).0 all in
        (((OnlyLines-append _ _).0 before).0, linked),
    λ both.
        (walk_lines_iff day ended (n + 1) ls _).1
          ((OnlyLines-append _ _).1 (both.0, (bad_line-IsLineFlaw _, tt)), both.1),
  )
  walk_lines_iff day ended n (whole e ∷ ls) w = (
    λ all.
        let (before, linked) = (walk_lines_iff day ended (n + 1) ls _).0 all in
        let (old, here) = (OnlyLines-append _ _).0 before in
        (old, ((entry_problems_iff day n w.head e).0 here, linked)),
    λ both. (walk_lines_iff day ended (n + 1) ls _).1 (
      (OnlyLines-append _ _).1 (both.0, (entry_problems_iff day n w.head e).1 both.1.0),
      both.1.1,
    ),
  )

  -- A file that cannot be read is reported, and its entries are not walked.
  walk_file_iff :
      (b : Bool) (f : DayFile) (w : Walk)
      → OnlyLines (walk_file h json b f w).problems
        ↔ ((b ≡ true) × OnlyLines w.problems × Linked h json w.head f.lines)
  unfolding walk_file
  walk_file_iff false f w = (
    λ all. absurd (
        ((OnlyLines-append w.problems
            (record { day = f.day; line = none; flaw = unreadable } ∷ [])).0
          all).1.0),
    λ both. absurd (never both.0),
  )
    where
      never : false ≡ true → ⊥
      never e = cc
  walk_file_iff true f w = (
    λ all.
        let (old, linked) = (walk_lines_iff f.day f.ended 1 f.lines w).0 all in (refl, old, linked),
    λ (can, old, linked). (walk_lines_iff f.day f.ended 1 f.lines w).1 (old, linked),
  )

  walk_file-head :
      (b : Bool) (f : DayFile) (w : Walk)
      → b ≡ true
      → (walk_file h json b f w).head ≡ chain_end w.head f.lines
  unfolding walk_file
  walk_file-head false f w e = absurd (never e)
    where
      never : false ≡ true → ⊥
      never e = cc
  walk_file-head true f w e = walk_lines-head f.day f.ended 1 f.lines w

  Linked-prefix : (p : Head) (xs ys : List Line) → Linked h json p (xs ++ ys) → Linked h json p xs
  Linked-prefix p [] ys all = tt
  Linked-prefix p (broken ∷ xs) ys all = Linked-prefix p xs ys all
  Linked-prefix p (whole e ∷ xs) ys all = (all.0, Linked-prefix (head_of e) xs ys all.1)

  walk_files_iff :
      (readable : ℕ → Bool) (fs : List DayFile) (w : Walk)
      → OnlyLines (walk_files h json readable fs w).problems ↔ (
          OnlyLines w.problems
          × All (λ f. readable f.day ≡ true) fs
          × Linked h json w.head (lines_of fs))
  unfolding walk_files
  walk_files_iff readable [] w = (λ all. (all, tt, tt), λ both. both.0)
  walk_files_iff readable (f ∷ fs) w =
      let next : Walk = walk_file h json (readable f.day) f w in
      (
        λ all.
            let (before, rest, behind) = (walk_files_iff readable fs next).0 all in
            let (can, old, here) = (walk_file_iff (readable f.day) f w).0 before in
            (
              old,
              (can, rest),
              Linked-append h json w.head f.lines (lines_of fs) here (
                  subst (λ p. Linked h json p (lines_of fs))
                    (walk_file-head (readable f.day) f w can) behind),
            ),
        λ (old, all, linked). (walk_files_iff readable fs next).1 (
          (walk_file_iff (readable f.day) f w).1
              (all.0, old, Linked-prefix w.head f.lines (lines_of fs) linked),
          all.1,
          subst (λ p. Linked h json p (lines_of fs))
              (sym (walk_file-head (readable f.day) f w all.0))
              (Linked-rest h json w.head f.lines (lines_of fs) linked),
        ),
      )

  pub verify_iff :
      (env : Env) (w : World)
      → OnlyLines (verify h json env w).0.problems ↔ (
          All (λ f. env.readable f.day ≡ true) (verify h json env w).1.files
          × Linked h json
              (start (verify h json env w).1.anchor)
              (lines_of (verify h json env w).1.files))
  unfolding verify walk
  verify_iff env w =
      let now : World = flush h json env w in
      (
        λ all.
            let (_, can, chain) = (walk_files_iff env.readable now.files _).0 all in (can, chain),
        λ both. (walk_files_iff env.readable now.files _).1 (tt, both.0, both.1),
      )
