-- ===== src/Search/Matching.antt =====
-- The candidates of a search: `list_latest` gives only records that have every word of the query.
use persistence_memory.Prelude.{
  ℕ, zero, suc, ◌≡◌, subst, In, contains, true, ◌==◌, Dict, values, sort-All, inl, inr, Option,
  List, [], ◌∷◌, take, arith, All, Text, text_eq, Bool-cases, Result, ok, >>=-eq-ok,
}
use persistence_memory.Store.{Store}
use persistence_memory.Latest.Rows.{
  Times, LatestError, Row, Key, Filters, list_latest, record_tokens, has_tokens, is_below,
  is_wanted, add_row, row_of, instant, successors_of, collect, newest_first,
}
use persistence_memory.Models.{MemoryRecord}

-- Every word of the query is a word of the record: of its subject, its content or its tags.
abbrev pub Matches : List Text → Row → Type 0
Matches words r = All (λ w. In w (record_tokens r.memory)) words

contains-In : (w : Text) (ts : List Text) → contains w ts ≡ true → In w ts
contains-In w [] there = absurd (cc)
contains-In w (t ∷ ts) there = elim (Bool-cases (w == t)) [
  | inl same ↦ inl ((text_eq.equal_iff w t).0 same)
  | inr other ↦ inr (contains-In w ts (ground (arith, other)))
]

has_tokens-Matches :
    (words : List Text) (r : Row) → has_tokens words r.memory ≡ true → Matches words r
unfolding has_tokens
has_tokens-Matches [] r all = tt
has_tokens-Matches (w ∷ ws) r all =
    (contains-In w (record_tokens r.memory) (ground arith), has_tokens-Matches ws r (ground arith))

module _ (P : Row → Type 0) where
  pub take-All : (n : ℕ) (rs : List Row) → All P rs → All P (take n rs)
  take-All zero rs all = tt
  take-All (suc n) [] all = tt
  take-All (suc n) (r ∷ rs) all = (all.0, take-All n rs all.1)

add_row-All :
    (f : Filters) (after : Option Key) (r : Row) (rows : List Row)
    → All (Matches f.tokens) rows
    → All (Matches f.tokens) (add_row f after r rows)
add_row-All f after r rows all = elim (Bool-cases (has_tokens f.tokens r.memory)) [
  | inr no_ ↦
      rw no_ (elim (Bool-cases (is_below after r)) [
        | inl below ↦ rw below all
        | inr above ↦ rw above all
      ])
  | inl has ↦ rw has (elim (Bool-cases (is_below after r)) [
    | inl below ↦ rw below (has_tokens-Matches f.tokens r has, all)
    | inr above ↦ rw above all
  ])
]

listed-injective : {x y : List Row} → ◌≡◌ {A = Result LatestError (List Row)} (ok x) (ok y) → x ≡ y
listed-injective e = ground (arith, e)

collect-Matches :
    (times : Times) (f : Filters) (after : Option Key) (successors : Dict Text Key)
    (ms : List MemoryRecord) {rows : List Row}
    → collect times f after successors ms ≡ ok rows
    → All (Matches f.tokens) rows
unfolding collect
collect-Matches times f after successors [] {rows} same =
    subst (All (Matches f.tokens)) (listed-injective same) tt
collect-Matches times f after successors (m ∷ ms) {rows} same =
    elim (Bool-cases (is_wanted f successors m)) [
      | inr no_ ↦ collect-Matches times f after successors ms (rw no_ at same)
      | inl wanted ↦
          let (at_, ea, r1) = >>=-eq-ok (instant times m) _ (rw wanted at same) in
          let (rest, er, r2) = >>=-eq-ok (collect times f after successors ms) _ r1 in
          subst (All (Matches f.tokens)) (listed-injective r2) (
            add_row-All f after (row_of successors m at_) rest
              (collect-Matches times f after successors ms er))
    ]

pub list_latest-Matches :
    (times : Times) (f : Filters) (after : Option Key) (limit : ℕ) (s : Store) {rows : List Row}
    → list_latest times f after limit s ≡ ok rows
    → All (Matches f.tokens) rows
unfolding list_latest
list_latest-Matches times f after limit s same =
    let (successors, es, r1) = >>=-eq-ok (successors_of times (values s.memories) []) _ same in
    let (rows, er, r2) = >>=-eq-ok (collect times f after successors (values s.memories)) _ r1 in
    subst (All (Matches f.tokens)) (listed-injective r2) (
      take-All (Matches f.tokens) limit (newest_first times rows) (
        sort-All _ (Matches f.tokens) rows
          (collect-Matches times f after successors (values s.memories) er)))
