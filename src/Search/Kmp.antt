-- ===== src/Search/Kmp.antt =====
-- `_contains_run` of app/ledger_search.py: the table of failures, and the search.
use persistence_memory.Prelude.{
  ℕ, zero, suc, Bool, true, false, List, [], ◌∷◌, ◌++◌, length, if◌then◌else◌, Text, text_eq,
  nat_eq, ◌==◌, ltb,
}

-- `seq[k] == a`, for a `k` in range.
abbrev pub is_at : List Text → ℕ → Text → Bool
is_at [] k a = false
is_at (x ∷ xs) zero a = a == x
is_at (x ∷ xs) (suc k) a = is_at xs k a

-- `fail[k]`
abbrev pub nth : List ℕ → ℕ → ℕ
nth [] k = 0
nth (n ∷ ns) zero = n
nth (n ∷ ns) (suc k) = nth ns k

-- `while k and item != run[k]: k = fail[k - 1]`, on fuel: `k` gets smaller, so `k` is enough.
unfoldable pub fall : ℕ → List ℕ → List Text → Text → ℕ → ℕ
fall zero fail run a k = k
fall (suc fuel) fail run a zero = zero
fall (suc fuel) fail run a (suc k) =
    let rest = fall fuel fail run a (nth fail k) in if is_at run (suc k) a then suc k else rest

-- The rest of the loop's body: `if item == run[k]: k += 1`.
unfoldable pub advance : List ℕ → List Text → Text → ℕ → ℕ
advance fail run a k = let j = fall k fail run a k in if is_at run j a then suc j else j

-- The loop that fills the table. An entry that is not filled yet is never read.
unfoldable pub fill_table : List Text → List Text → ℕ → List ℕ → List ℕ
fill_table run [] k fail = fail
fill_table run (a ∷ rest) k fail =
    let next = advance fail run a k in fill_table run rest next (fail ++ next ∷ [])

-- The loop over `seq`.
unfoldable pub scan : List ℕ → List Text → List Text → ℕ → Bool
scan fail run [] k = false
scan fail run (a ∷ rest) k =
    let next = advance fail run a k in
    let found = scan fail run rest next in if next == length run then true else found

-- `_contains_run`
unfoldable pub contains_run : List Text → List Text → Bool
contains_run words [] = true
contains_run words (x ∷ xs) =
    if ltb (length words) (length (x ∷ xs))
    then false
    else scan (fill_table (x ∷ xs) xs 0 (0 ∷ [])) (x ∷ xs) words 0
