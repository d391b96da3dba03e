-- ===== src/Replay/Fold.antt =====
-- `fold_state` against an independent description: the newest entry of each record.
use persistence_memory.Prelude.{
  text_eq, nat_eq, Option-cases, ℕ, ◌≤◌, ◌<◌, ◌≡◌, refl, sym, ap, ◌∙◌, inl, inr, ◌&&◌, Option, none,
  some, List, [], ◌∷◌, arith, ltb, leb, Bool-cases, ◌==◌, text_beq_iff, if◌then◌else◌, All, Text,
  Dict, lookup, insert, lookup-insert, DistinctKeys, insert-DistinctKeys, sort,
}
use persistence_memory.Prelude.Sorting.{insert_sorted}
use persistence_memory.Replay.State.{
  Entry, Folded, by_seq, newest_loop, is_delete, live_loop, fold_state,
}

-- `e` against what is newest among the entries behind it: of two with one seq the later one counts.
abbrev pick : Text → ℕ → Entry → Option Entry → Option Entry
pick k at_seq e none = if e.memory_id == k && leb e.seq at_seq then some e else none
pick k at_seq e (some b) =
    if (e.memory_id == k && leb e.seq at_seq) && ltb b.seq e.seq then some e else some b

-- The newest entry of record `k` up to `at_seq`.
abbrev pub newest : Text → ℕ → List Entry → Option Entry
newest k at_seq [] = none
newest k at_seq (e ∷ es) = pick k at_seq e (newest k at_seq es)

pick_comm :
    (k : Text) (at_seq : ℕ) (a b : Entry) (o : Option Entry)
    → b.seq < a.seq
    → pick k at_seq a (pick k at_seq b o) ≡ pick k at_seq b (pick k at_seq a o)
pick_comm k at_seq a b none h = ground arith
pick_comm k at_seq a b (some c) h = ground arith

newest-insert_sorted :
    (k : Text) (at_seq : ℕ) (e : Entry) (es : List Entry)
    → newest k at_seq (insert_sorted by_seq e es) ≡ newest k at_seq (e ∷ es)
unfolding insert_sorted
newest-insert_sorted k at_seq e [] = refl
newest-insert_sorted k at_seq e (b ∷ es) = elim (Bool-cases (by_seq e b)) [
  | inl here ↦ rw here
  | inr later ↦ rw later (
      ap (pick k at_seq b) (newest-insert_sorted k at_seq e es)
      ∙ sym (pick_comm k at_seq e b (newest k at_seq es) (ground arith)))
]

newest-sort :
    (k : Text) (at_seq : ℕ) (es : List Entry)
    → newest k at_seq (sort by_seq es) ≡ newest k at_seq es
unfolding sort
newest-sort k at_seq [] = refl
newest-sort k at_seq (e ∷ es) =
    newest-insert_sorted k at_seq e (sort by_seq es)
    ∙ ap (pick k at_seq e) (newest-sort k at_seq es)

-- Sorted by seq.
abbrev Ascending : List Entry → Type 0
Ascending [] = Unit
Ascending (e ∷ es) = All (λ b. e.seq ≤ b.seq) es × Ascending es

insert_sorted-All :
    (n : ℕ) (e : Entry) (es : List Entry)
    → n ≤ e.seq
    → All (λ b. n ≤ b.seq) es
    → All (λ b. n ≤ b.seq) (insert_sorted by_seq e es)
unfolding insert_sorted
insert_sorted-All n e [] h all = (h, tt)
insert_sorted-All n e (b ∷ es) h all = elim (Bool-cases (by_seq e b)) [
  | inl here ↦ rw here (h, all)
  | inr later ↦ rw later (all.0, insert_sorted-All n e es h all.1)
]

All-weaken : (m n : ℕ) (es : List Entry) → m ≤ n → All (λ b. n ≤ b.seq) es → All (λ b. m ≤ b.seq) es
All-weaken m n [] h all = tt
All-weaken m n (b ∷ es) h all = (omega arith, All-weaken m n es h all.1)

insert_sorted-Ascending :
    (e : Entry) (es : List Entry) → Ascending es → Ascending (insert_sorted by_seq e es)
unfolding insert_sorted
insert_sorted-Ascending e [] h = (tt, tt)
insert_sorted-Ascending e (b ∷ es) h = elim (Bool-cases (by_seq e b)) [
  | inl here ↦ rw here (((ground arith), All-weaken e.seq b.seq es (ground arith) h.0), h)
  | inr later ↦
      rw later (insert_sorted-All b.seq e es (ground arith) h.0, insert_sorted-Ascending e es h.1)
]

sort-Ascending : (es : List Entry) → Ascending (sort by_seq es)
unfolding sort
sort-Ascending [] = tt
sort-Ascending (e ∷ es) = insert_sorted-Ascending e (sort by_seq es) (sort-Ascending es)

newest-bound :
    (k : Text) (at_seq n : ℕ) (es : List Entry) {b : Entry}
    → All (λ b. n ≤ b.seq) es
    → newest k at_seq es ≡ some b
    → n ≤ b.seq
newest-bound k at_seq n [] all h = cc
newest-bound k at_seq n (e ∷ es) all h = elim (Option-cases (newest k at_seq es)) [
  | inl nothing ↦ ground arith
  | inr (c, ec) ↦ ground (arith, newest-bound k at_seq n es all.1 ec)
]

abbrev or_else : Option Entry → Option Entry → Option Entry
or_else none o = o
or_else (some e) o = some e

-- A record exists unless its newest entry deletes it.
abbrev pub existing : Option Entry → Option Entry
existing none = none
existing (some e) = if is_delete e then none else some e

or_else-none : (o : Option Entry) → or_else (existing (or_else o none)) none ≡ existing o
or_else-none o = ground arith

-- On sorted entries the loop leaves the newest one at each key.
lookup-newest_loop :
    (k : Text) (at_seq : ℕ) (es : List Entry) (d : Dict Text Entry)
    → Ascending es
    → lookup k (newest_loop at_seq es d) ≡ or_else (newest k at_seq es) (lookup k d)
unfolding newest_loop
lookup-newest_loop k at_seq [] d h = refl
lookup-newest_loop k at_seq (e ∷ es) d h =
    lookup-newest_loop k at_seq es _ h.1 ∙ step (newest k at_seq es) refl
  where
    step :
        (o : Option Entry)
        → newest k at_seq es ≡ o
        → or_else o (lookup k (if leb e.seq at_seq then insert e.memory_id e d else d))
          ≡ or_else (pick k at_seq e o) (lookup k d)
    step none eo = ground (arith, lookup-insert e.memory_id k e d)
    step (some b) eo = ground (arith, newest-bound k at_seq e.seq es h.0 eo)

newest_loop-DistinctKeys :
    (at_seq : ℕ) (es : List Entry) (d : Dict Text Entry)
    → DistinctKeys d
    → DistinctKeys (newest_loop at_seq es d)
unfolding newest_loop
newest_loop-DistinctKeys at_seq [] d h = h
newest_loop-DistinctKeys at_seq (e ∷ es) d h =
    newest_loop-DistinctKeys at_seq es _ (ground (arith, insert-DistinctKeys e.memory_id e d h))

lookup-live_loop :
    (k : Text) (items : Dict Text Entry) (out : Folded)
    → DistinctKeys items
    → lookup k (live_loop items out).live ≡ or_else (existing (lookup k items)) (lookup k out.live)
unfolding live_loop
lookup-live_loop k [] out h = refl
lookup-live_loop k ((mid, e) ∷ items) out h =
    lookup-live_loop k items _ h.1
    ∙ ground (arith, lookup-insert mid k e out.live, text_beq_iff mid k)

-- Replay up to a seq leaves, for each record id, exactly its newest entry up to that seq, in
-- whatever order the entries are given, and nothing where that entry is a delete or none exists.
pub fold_state-newest :
    (entries : List Entry) (at_seq : ℕ) (k : Text)
    → lookup k (fold_state entries at_seq).live ≡ existing (newest k at_seq entries)
unfolding fold_state
fold_state-newest entries at_seq k =
    let items = newest_loop at_seq (sort by_seq entries) [] in
    lookup-live_loop k items _ (newest_loop-DistinctKeys at_seq (sort by_seq entries) [] tt)
    ∙ ap (λ o. or_else (existing o) none)
        (lookup-newest_loop k at_seq (sort by_seq entries) [] (sort-Ascending entries)
          ∙ ap (λ o. or_else o none) (newest-sort k at_seq entries))
    ∙ or_else-none (newest k at_seq entries)
