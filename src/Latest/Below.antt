-- ===== src/Latest/Below.antt =====
-- The rows of one page are what follows the cursor in the list of all rows.
use persistence_memory.Prelude.{
  ℕ, ◌≡◌, refl, sym, ap, ◌∙◌, subst, inl, inr, true, false, ◌&&◌, Option, none, some, List, [], ◌∷◌,
  ◌++◌, take, arith, Text, text_eq, nat_eq, nat_beq_iff, ◌==◌, text_leb, text_leb_total,
  text_leb_antisymm, text_leb_trans, Dict, values, keep, All, All-map, Bool-cases, Result, ok,
  >>=-eq-ok,
}
use persistence_memory.Prelude.Ranked.{
  StrictOrder, Apart, IsApart, Strict, keep-sort, keep-below, sort-Strict,
}
use persistence_memory.Models.{MemoryRecord}
use persistence_memory.Store.{Store}
use persistence_memory.Latest.Rows.{
  Times, Key, LatestError, key_lt, Row, key_of, row_lt, Filters, has_tokens, is_wanted, is_below,
  row_of, add_row, instant, successors_of, collect, newest_first, list_latest,
}

key_lt_asym : (a b : Key) → key_lt a b ≡ true → key_lt b a ≡ false
unfolding key_lt
key_lt_asym (a, i) (b, j) = ground (arith, nat_beq_iff a b, nat_beq_iff b a, text_leb_total j i)

text_lt_trans : (i j k : Text) → text_leb j i ≡ false → text_leb k j ≡ false → text_leb k i ≡ false
text_lt_trans i j k ij jk = elim (Bool-cases (text_leb k i)) [
  | inl ki ↦
      absurd (let kj : text_leb k j ≡ true = text_leb_trans k i j ki (text_leb_total j i ij) in cc)
  | inr no_ ↦ no_
]

key_lt_trans : (a b c : Key) → key_lt a b ≡ true → key_lt b c ≡ true → key_lt a c ≡ true
unfolding key_lt
key_lt_trans (a, i) (b, j) (c, k) ab bc =
    ground (arith, nat_beq_iff a b, nat_beq_iff b c, nat_beq_iff a c, text_lt_trans i j k)

pub row_order : StrictOrder row_lt
row_order = record {
  asym = λ a b. key_lt_asym (key_of a) (key_of b);
  trans = λ a b c. key_lt_trans (key_of a) (key_of b) (key_of c);
}

key_lt-IsApart : (a b : Key) → (a.1 == b.1) ≡ false → IsApart key_lt a b
unfolding key_lt
key_lt-IsApart (a, i) (b, j) other = ground (
  arith,
  nat_beq_iff a b,
  nat_beq_iff b a,
  text_leb_total j i,
  text_leb_antisymm i j,
  text_eq.equal_iff i j,
)

-- No two records have one id.
abbrev pub DistinctIds : List MemoryRecord → Type 0
DistinctIds [] = Unit
DistinctIds (m ∷ ms) = All (λ n. (m.id == n.id) ≡ false) ms × DistinctIds ms

ok-injective : {x y : List Row} → ◌≡◌ {A = Result LatestError (List Row)} (ok x) (ok y) → x ≡ y
ok-injective same = ground (arith, same)

-- What a chain that succeeds went through, when its first call does not raise.
module _ (times : Times) (f : Filters) (successors : Dict Text Key) where
  record Collected (after : Option Key) (m : MemoryRecord) (ms : List MemoryRecord)
      (rows : List Row) : Type 0 where
    at : ℕ
    others : List Row
    parsed : instant times m ≡ ok at
    behind : collect times f after successors ms ≡ ok others
    joined : rows ≡ add_row f after (row_of successors m at) others

  collected :
      (after : Option Key) (m : MemoryRecord) (ms : List MemoryRecord) (rows : List Row)
      → is_wanted f successors m ≡ true
      → collect times f after successors (m ∷ ms) ≡ ok rows
      → Collected after m ms rows
  unfolding collect
  collected after m ms rows wanted found =
      let (at, parsed, then_) = >>=-eq-ok (instant times m) _ (rw wanted at found) in
      let (others, behind, last) = >>=-eq-ok (collect times f after successors ms) _ then_ in
      record {
        at = at;
        others = others;
        parsed = parsed;
        behind = behind;
        joined = ground (arith, last);
      }

  passed_over :
      (after : Option Key) (m : MemoryRecord) (ms : List MemoryRecord)
      → is_wanted f successors m ≡ false
      → collect times f after successors (m ∷ ms) ≡ collect times f after successors ms
  unfolding collect
  passed_over after m ms unwanted = rw unwanted refl

  add_row-All :
      (P : Row → Type 0) (after : Option Key) (r : Row) (rows : List Row)
      → P r
      → All P rows
      → All P (add_row f after r rows)
  add_row-All P after r rows here all =
      elim (Bool-cases (is_below after r && has_tokens f.tokens r.memory)) [
        | inl goes ↦ rw goes (here, all)
        | inr stays ↦ rw stays all
      ]

  collect-All :
      (P : MemoryRecord → Type 0) (ms : List MemoryRecord) (rows : List Row)
      → All P ms
      → collect times f none successors ms ≡ ok rows
      → All (λ r. P r.memory) rows
  unfolding collect row_of
  collect-All P [] rows all found = subst (All (λ r. P r.memory)) (ok-injective found) tt
  collect-All P (m ∷ ms) rows all found = elim (Bool-cases (is_wanted f successors m)) [
    | inl wanted ↦
        let c : Collected none m ms rows = collected none m ms rows wanted found in
        subst (All (λ r. P r.memory)) (sym c.joined) (
          add_row-All (λ r. P r.memory) none (row_of successors m c.at) c.others all.0
            (collect-All P ms c.others all.1 c.behind))
    | inr unwanted ↦ collect-All P ms rows all.1 (sym (passed_over none m ms unwanted) ∙ found)
  ]

  -- Rows of records with different ids are ordered one way or the other.
  collect-Apart :
      (ms : List MemoryRecord) (rows : List Row)
      → DistinctIds ms
      → collect times f none successors ms ≡ ok rows
      → Apart row_lt rows
  unfolding collect row_of
  collect-Apart [] rows distinct found = subst (Apart row_lt) (ok-injective found) tt
  collect-Apart (m ∷ ms) rows distinct found = elim (Bool-cases (is_wanted f successors m)) [
    | inl wanted ↦
        let c : Collected none m ms rows = collected none m ms rows wanted found in
        let apart : All (IsApart row_lt (row_of successors m c.at)) c.others =
          All-map (λ r. (m.id == r.memory.id) ≡ false) (IsApart row_lt (row_of successors m c.at))
            (λ r other. key_lt-IsApart (c.at, m.id) (key_of r) other) c.others
            (collect-All (λ n. (m.id == n.id) ≡ false) ms c.others distinct.0 c.behind) in
        subst (Apart row_lt) (sym c.joined) (
          joined-Apart (row_of successors m c.at) c.others apart
            (collect-Apart ms c.others distinct.1 c.behind))
    | inr unwanted ↦ collect-Apart ms rows distinct.1 (sym (passed_over none m ms unwanted) ∙ found)
  ]
    where
      joined-Apart :
          (r : Row) (others : List Row)
          → All (IsApart row_lt r) others
          → Apart row_lt others
          → Apart row_lt (add_row f none r others)
      joined-Apart r others here all =
          elim (Bool-cases (is_below none r && has_tokens f.tokens r.memory)) [
            | inl goes ↦ rw goes (here, all)
            | inr stays ↦ rw stays all
          ]

  -- A cursor takes from the rows those that are below it.
  collect-below :
      (after : Key) (ms : List MemoryRecord) (rows : List Row)
      → collect times f none successors ms ≡ ok rows
      → collect times f (some after) successors ms ≡ ok (keep (is_below (some after)) rows)
  unfolding collect is_below
  collect-below after [] rows found =
      ap (λ r. ok (keep (is_below (some after)) r)) (ok-injective found)
  collect-below after (m ∷ ms) rows found = elim (Bool-cases (is_wanted f successors m)) [
    | inl wanted ↦
        let c : Collected none m ms rows = collected none m ms rows wanted found in
        rw (wanted, c.parsed, collect-below after ms c.others c.behind, c.joined)
          (ap ok (add_row-keep (row_of successors m c.at) c.others))
    | inr unwanted ↦
        passed_over (some after) m ms unwanted
        ∙ collect-below after ms rows (sym (passed_over none m ms unwanted) ∙ found)
  ]
    where
      add_row-keep :
          (r : Row) (others : List Row)
          → add_row f (some after) r (keep (is_below (some after)) others)
            ≡ keep (is_below (some after)) (add_row f none r others)
      add_row-keep r others = ground (arith, Bool-cases (has_tokens f.tokens r.memory))

-- All the rows that the filters let through, newest first.
pub record AllRows (times : Times) (f : Filters) (s : Store) (rows : List Row) : Type 0 where
  pub successors : Dict Text Key
  pub noted : successors_of times (values s.memories) [] ≡ ok successors
  pub found : List Row
  pub collected_all : collect times f none successors (values s.memories) ≡ ok found
  pub sorted_all : rows ≡ newest_first times found

module _ (times : Times) (f : Filters) (s : Store) (rows : List Row)
    (every : AllRows times f s rows) where
  pub list_latest-first : (n : ℕ) → list_latest times f none n s ≡ ok (take n rows)
  unfolding list_latest
  list_latest-first n = rw (every.noted, every.collected_all, every.sorted_all) refl

  -- With a cursor, the page begins with the row behind the one it names.
  pub list_latest-next :
      (front : List Row) (r : Row) (back : List Row) (n : ℕ)
      → DistinctIds (values s.memories)
      → rows ≡ front ++ r ∷ back
      → list_latest times f (some (key_of r)) n s ≡ ok (take n back)
  unfolding list_latest is_below
  list_latest-next front r back n distinct split =
      rw
        (
          every.noted,
          collect-below times f every.successors (key_of r) _ every.found every.collected_all,
        )
        (ap (λ page. ok (take n page))
          (sym (keep-sort row_lt row_order (λ z. row_lt z r) every.found apart)
            ∙ ap (keep (λ z. row_lt z r)) (sym every.sorted_all ∙ split)
            ∙ keep-below row_lt row_order front r back (
                subst (Strict row_lt) (sym every.sorted_all ∙ split)
                  (sort-Strict row_lt row_order every.found apart))))
    where
      apart : Apart row_lt every.found
      apart = collect-Apart times f every.successors _ every.found distinct every.collected_all
