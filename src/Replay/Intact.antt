-- ===== src/Replay/Intact.antt =====
-- What it means that the checks of the verifier find no problem.
use persistence_memory.Prelude.{
  append-nil_iff, when-nil_iff, not-eq_iff, ◌<◌, text_eq, nat_eq, ℕ, zero, suc, ◌≤◌, ◌≡◌, ◌↔◌, refl,
  sym, ap, ◌∙◌, true, false, Option, none, some, List, [], ◌∷◌, ◌++◌, map, arith, ltb, ◌==◌,
  if◌then◌else◌, contains, Text, Dict, lookup, insert, lookup-insert, take, cons-injective, subst,
}
use native.Mathlib.Decide.{ℕ_discrete}
use persistence_memory.Replay.State.{Entry}
use persistence_memory.Replay.Checks.{
  beyond_counter, repeated_seq, broken_link, missing_seq, seqs, repeats_ℕ, missing_below, check_seq,
  last_or_genesis, chain_loop, check_chain_link,
}

-- The row hash of the last of these entries that belongs to record `k`.
abbrev pub last_row_hash : Text → List Entry → Option Text
last_row_hash k [] = none
last_row_hash k (e ∷ es) = elim (last_row_hash k es) [
  | some r ↦ some r
  | none ↦ if e.memory_id == k then some e.row_hash else none
]

abbrev or_else : Option Text → Option Text → Option Text
or_else none o = o
or_else (some r) o = some r

or_else-none : (o : Option Text) → or_else o none ≡ o
or_else-none none = refl
or_else-none (some r) = refl

-- Every entry names as its previous hash what stands before it, given what `last` says.
abbrev LinkedFrom : Dict Text Text → List Entry → Type 0
LinkedFrom last es =
    (pre post : List Entry) (e : Entry)
    → es ≡ pre ++ e ∷ post
    → e.prev_hash
      ≡ last_or_genesis (or_else (last_row_hash e.memory_id pre) (lookup e.memory_id last))

last_row_hash-insert :
    (k : Text) (a : Entry) (pre : List Entry) (last : Dict Text Text)
    → or_else (last_row_hash k pre) (lookup k (insert a.memory_id a.row_hash last))
      ≡ or_else (last_row_hash k (a ∷ pre)) (lookup k last)
last_row_hash-insert k a pre last = ground (arith, lookup-insert a.memory_id k a.row_hash last)

module _ (a : Entry) (es : List Entry) (last : Dict Text Text) where
  abbrev after : Dict Text Text
  after = insert a.memory_id a.row_hash last

  abbrev expected : Text
  expected = last_or_genesis (lookup a.memory_id last)

  LinkedFrom-cons : a.prev_hash ≡ expected → LinkedFrom after es → LinkedFrom last (a ∷ es)
  LinkedFrom-cons first linked [] post e split =
      subst (λ (x : Entry). x.prev_hash ≡ last_or_genesis (lookup x.memory_id last))
        (cons-injective _ _ _ _ split).0 first
  LinkedFrom-cons first linked (b ∷ pre) post e split =
      let (same, tail) = cons-injective _ _ _ _ split in
      linked pre post e tail
      ∙ ap last_or_genesis (last_row_hash-insert e.memory_id a pre last)
      ∙ ap
          (λ (x : Entry).
            last_or_genesis
              (or_else (last_row_hash e.memory_id (x ∷ pre)) (lookup e.memory_id last)))
          same

  LinkedFrom-tail : LinkedFrom last (a ∷ es) → LinkedFrom after es
  LinkedFrom-tail linked pre post e split =
      linked (a ∷ pre) post e (ap (λ l. a ∷ l) split)
      ∙ sym (ap last_or_genesis (last_row_hash-insert e.memory_id a pre last))

not-nil : {B : Type 0} (e : Entry) (pre post : List Entry) → [] ≡ pre ++ e ∷ post → B
not-nil e [] post split = absurd (cc)
not-nil e (x ∷ pre) post split = absurd (cc)

chain_loop_iff :
    (last : Dict Text Text) (es : List Entry) → (chain_loop last es ≡ []) ↔ LinkedFrom last es
unfolding chain_loop
chain_loop_iff last [] = (λ _ pre post e split. not-nil e pre post split, λ _. refl)
chain_loop_iff last (a ∷ es) =
    let ih = chain_loop_iff (insert a.memory_id a.row_hash last) es in
    (
      λ none_found.
          let (first, rest) = (append-nil_iff _ _).0 none_found in
          LinkedFrom-cons a es last
            ((not-eq_iff _ _).0 ((when-nil_iff _ (broken_link a.seq)).0 first)) (ih.0 rest),
      λ linked. (append-nil_iff _ _).1 (
        (when-nil_iff _ (broken_link a.seq)).1 ((not-eq_iff _ _).1 (linked [] es a refl)),
        ih.1 (LinkedFrom-tail a es last linked),
      ),
    )

-- The check of the chain finds no problem exactly when every entry's previous hash is the row
-- hash of the entry of its record that comes last before it, or the genesis hash if none does.
pub check_chain_link_iff :
    (es : List Entry)
    → (check_chain_link es ≡ []) ↔ (
        (pre post : List Entry) (e : Entry)
        → es ≡ pre ++ e ∷ post
        → e.prev_hash ≡ last_or_genesis (last_row_hash e.memory_id pre))
unfolding check_chain_link
check_chain_link_iff es =
    let iff = chain_loop_iff [] es in
    (
      λ ok_chain pre post e split.
          iff.0 ok_chain pre post e split
          ∙ ap last_or_genesis (or_else-none (last_row_hash e.memory_id pre)),
      λ linked. iff.1 (λ pre post e split.
          linked pre post e split
          ∙ sym (ap last_or_genesis (or_else-none (last_row_hash e.memory_id pre)))),
    )

-- No number stands twice.
abbrev pub Distinct : List ℕ → Type 0
Distinct [] = Unit
Distinct (n ∷ ns) = (contains n ns ≡ false) × Distinct ns

repeats_ℕ_iff : (ns : List ℕ) → (repeats_ℕ ns ≡ false) ↔ Distinct ns
repeats_ℕ_iff [] = (λ _. tt, λ _. refl)
repeats_ℕ_iff (n ∷ ns) =
    let ih = repeats_ℕ_iff ns in (λ e. ground (arith, ih), λ d. ground (arith, ih))

missing_below_iff :
    (n : ℕ) (ns : List ℕ)
    → (missing_below n ns ≡ []) ↔ ((m : ℕ) → 0 < m → m ≤ n → contains m ns ≡ true)
unfolding missing_below
missing_below_iff zero ns = (λ _ m pos le. absurd (omega arith), λ _. refl)
missing_below_iff (suc n) ns =
    let ih = missing_below_iff n ns in
    (
      λ none_missing m pos le.
          let (below, last) =
            (append-nil_iff (missing_below n ns) (if contains (suc n) ns then [] else suc n ∷ [])).0
              none_missing in
          elim (ℕ_discrete m (suc n)) [
            | yes e ↦ rw e (ground (arith, last))
            | no ne ↦ ih.0 below m pos (omega arith)
          ],
      λ all_there. (append-nil_iff _ _).1 (
        ih.1 (λ m pos le. all_there m pos (omega arith)),
        rw (all_there (suc n) (omega arith) (omega arith)),
      ),
    )

take-nil {ℓ κ} :
    {A : Type ℓ} {B : Type κ} (n : ℕ) (f : A → B) (xs : List A)
    → (map f (take (suc n) xs) ≡ []) ↔ (xs ≡ [])
take-nil n f [] = (λ _. refl, λ _. refl)
take-nil n f (x ∷ xs) = (λ e. cc, λ e. cc)

ltb-false : (m n : ℕ) → ltb m n ≡ false → n ≤ m
ltb-false m n h = ground arith

-- The check of the seqs finds no problem exactly when the bound is within the counter, no seq
-- stands twice, and every seq from 1 to the bound is there: no entry was removed.
pub check_seq_iff :
    (at_seq counter : ℕ) (es : List Entry)
    → (check_seq at_seq counter es ≡ []) ↔ (
        (at_seq ≤ counter)
        × Distinct (seqs es)
        × ((m : ℕ) → 0 < m → m ≤ at_seq → contains m (seqs es) ≡ true))
unfolding check_seq
check_seq_iff at_seq counter es = (
  λ none_found.
      let (first, rest) = (append-nil_iff _ _).0 none_found in
      let (second, third) = (append-nil_iff _ _).0 rest in
      let within : ltb counter at_seq ≡ false = (when-nil_iff _ beyond_counter).0 first in
      (
        ltb-false counter at_seq within,
        (repeats_ℕ_iff (seqs es)).0 ((when-nil_iff _ repeated_seq).0 second),
        (missing_below_iff at_seq (seqs es)).0 ((take-nil 19 missing_seq _).0 third),
      ),
  λ (bound, distinct, complete). (append-nil_iff _ _).1 (
    (when-nil_iff _ beyond_counter).1 (ground arith),
    (append-nil_iff _ _).1 (
      (when-nil_iff _ repeated_seq).1 ((repeats_ℕ_iff (seqs es)).1 distinct),
      (take-nil 19 missing_seq _).1 ((missing_below_iff at_seq (seqs es)).1 complete),
    ),
  ),
)

-- When the check of the chain finds no problem, every entry's previous hash is the row hash of the
-- last entry of its record before it, or the genesis hash when its record has none before it.
pub chain-of-check_chain_link :
    (es pre post : List Entry) (e : Entry)
    → check_chain_link es ≡ []
    → es ≡ pre ++ e ∷ post
    → e.prev_hash ≡ last_or_genesis (last_row_hash e.memory_id pre)
chain-of-check_chain_link es pre post e none_found split =
    (check_chain_link_iff es).0 none_found pre post e split

-- When the check of the seqs finds no problem, the bound is within the counter, no seq stands
-- twice, and every seq from 1 to the bound is that of an entry: no entry below it was removed.
pub complete-of-check_seq :
    (at_seq counter : ℕ) (es : List Entry) (m : ℕ)
    → check_seq at_seq counter es ≡ []
    → 0 < m
    → m ≤ at_seq
    → (at_seq ≤ counter) × Distinct (seqs es) × (contains m (seqs es) ≡ true)
complete-of-check_seq at_seq counter es m none_found pos le =
    let (bound, distinct, complete) = (check_seq_iff at_seq counter es).0 none_found in
    (bound, distinct, complete m pos le)
