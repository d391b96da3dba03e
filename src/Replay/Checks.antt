-- ===== src/Replay/Checks.antt =====
-- The checks of the offline verifier (app/replay.py) on the entries that it has read.
use persistence_memory.Prelude.{
  when, sort, text_leb, text_eq, nat_eq, ℕ, zero, suc, Bool, false, not, ◌||◌, Option, none, some,
  List, [], ◌∷◌, ◌++◌, map, ltb, leb, ◌==◌, if◌then◌else◌, contains, Text, Dict, lookup, insert,
  member, Result, ok, err, ◌>>=◌, or_raise, take,
}
use persistence_memory.Hash.{Sha256}
use persistence_memory.Blocks.{ValueError}
use persistence_memory.Replay.State.{Entry, Folded, entry_row_hash, state_root}

-- What a problem says, with the subject that it names.
pub data Problem : Type 0 where
  beyond_counter repeated_seq : Problem
  missing_seq : ℕ → Problem
  altered_entry broken_link : ℕ → Problem
  wrong_root : Text → Problem
  not_live not_equal not_replayed : Text → Problem
  not_covered : Problem
  wrong_height wrong_block_hash : ℕ → Problem

abbrev pub seqs : List Entry → List ℕ
seqs = map (λ e. e.seq)

-- `len(set(seqs)) != len(seqs)`
abbrev pub repeats_ℕ : List ℕ → Bool
repeats_ℕ [] = false
repeats_ℕ (n ∷ ns) = contains n ns || repeats_ℕ ns

-- `sorted(set(range(1, at_seq + 1)) - set(seqs))`
unfoldable pub missing_below : ℕ → List ℕ → List ℕ
missing_below zero ns = []
missing_below (suc n) ns = missing_below n ns ++ (if contains (suc n) ns then [] else suc n ∷ [])

unfoldable pub check_seq : ℕ → ℕ → List Entry → List Problem
check_seq at_seq counter entries =
    when (ltb counter at_seq) beyond_counter
    ++ (when (repeats_ℕ (seqs entries)) repeated_seq
        ++ map missing_seq (take 20 (missing_below at_seq (seqs entries))))

unfoldable pub check_entry_hash : Sha256 → List Entry → List Problem
check_entry_hash h [] = []
check_entry_hash h (e ∷ es) =
    when
      (not (entry_row_hash h e.prev_hash e.op e.version e.before_text e.after_text == e.row_hash))
      (altered_entry e.seq)
    ++ check_entry_hash h es

abbrev zeros : ℕ → Text
zeros zero = []
zeros (suc n) = b'0' ∷ zeros n

-- `"0" * 64`
unfoldable pub genesis : Text
genesis = zeros 64

-- `last.get(e.memory_id, GENESIS)`
abbrev pub last_or_genesis : Option Text → Text
last_or_genesis none = genesis
last_or_genesis (some row_hash) = row_hash

unfoldable pub chain_loop : Dict Text Text → List Entry → List Problem
chain_loop last [] = []
chain_loop last (e ∷ es) =
    when (not (e.prev_hash == last_or_genesis (lookup e.memory_id last))) (broken_link e.seq)
    ++ chain_loop (insert e.memory_id e.row_hash last) es

unfoldable pub check_chain_link : List Entry → List Problem
check_chain_link = chain_loop []

abbrev pub heads : Dict Text Entry → List (Text × Text)
heads [] = []
heads ((mid, e) ∷ live) = (mid, e.row_hash) ∷ heads live

-- The root is kept in the context, so it comes back beside the problems.
unfoldable pub check_state_root :
    Sha256 → Folded → Option Text → Result ValueError (Text × List Problem)
check_state_root h folded none = do root ← state_root h (heads folded.live); ok (root, [])
check_state_root h folded (some expected) = do
  root ← state_root h (heads folded.live)
  ok (root, when (not (expected == root)) (wrong_root root))

abbrev same_text : Text → Option Text → Bool
same_text t none = false
same_text t (some u) = t == u

abbrev pub live_problem : Text → Entry → Option Text → List Problem
live_problem mid e none = not_live mid ∷ []
live_problem mid e (some t) = when (not (same_text t e.after_text)) (not_equal mid)

unfoldable pub live_match_replayed : Dict Text Entry → Dict Text Text → List Problem
live_match_replayed [] live = []
live_match_replayed ((mid, e) ∷ folded) live =
    live_problem mid e (lookup mid live) ++ live_match_replayed folded live

-- `set(live) - set(folded.live)`
unfoldable pub unreplayed : Dict Text Text → Dict Text Entry → List Text
unreplayed [] folded = []
unreplayed ((mid, t) ∷ live) folded = when (not (member mid folded)) mid ++ unreplayed live folded

-- `live` is the table of the database, id to text.
unfoldable pub check_live_match : ℕ → ℕ → Folded → Dict Text Text → List Problem
check_live_match at_seq counter folded live =
    if at_seq == counter
    then live_match_replayed folded.live live
      ++ map not_replayed (sort text_leb (unreplayed live folded.live))
    else []

-- A row of `blocks`, as far as the replay reads it.
pub record BlockRow : Type 0 where
  pub height : ℕ
  pub first_seq : ℕ
  pub last_seq : ℕ
  pub block_hash : Text

-- `WHERE first_seq <= at_seq AND last_seq >= at_seq`, the first row
unfoldable pub covering : ℕ → List BlockRow → Option BlockRow
covering at_seq [] = none
covering at_seq (b ∷ bs) =
    if leb b.first_seq at_seq
    then (if leb at_seq b.last_seq then some b else covering at_seq bs)
    else covering at_seq bs

abbrev differs_ℕ : Option ℕ → ℕ → Bool
differs_ℕ none n = false
differs_ℕ (some m) n = not (n == m)

abbrev differs : Option Text → Text → Bool
differs none t = false
differs (some u) t = not (t == u)

abbrev expected_problems : Option Text → Option ℕ → Option BlockRow → List Problem
expected_problems hash height none = not_covered ∷ []
expected_problems hash height (some b) =
    when (differs_ℕ height b.height) (wrong_height b.height)
    ++ when (differs hash b.block_hash) (wrong_block_hash b.height)

unfoldable pub check_expected_block : ℕ → Option Text → Option ℕ → List BlockRow → List Problem
check_expected_block at_seq none none rows = []
check_expected_block at_seq none (some n) rows =
    expected_problems none (some n) (covering at_seq rows)
check_expected_block at_seq (some t) height rows =
    expected_problems (some t) height (covering at_seq rows)

pub data ReplayError : Type 0 where
  bound_ambiguous block_not_found seq_out_of_range : ReplayError

-- `SELECT last_seq FROM blocks WHERE height = ...`
unfoldable pub last_seq_at : ℕ → List BlockRow → Option ℕ
last_seq_at n [] = none
last_seq_at n (b ∷ bs) = if b.height == n then some b.last_seq else last_seq_at n bs

abbrev pub or_zero : Option ℕ → ℕ
or_zero none = 0
or_zero (some n) = n

unfoldable pub resolve_at_seq :
    Option ℕ → List BlockRow → Option ℕ → Option ℕ → Result ReplayError ℕ
resolve_at_seq counter rows (some s) (some b) = err bound_ambiguous
resolve_at_seq counter rows none (some b) = or_raise (last_seq_at b rows) block_not_found
resolve_at_seq counter rows none none = ok (or_zero counter)
resolve_at_seq counter rows (some s) none =
    if ltb (or_zero counter) s then err seq_out_of_range else ok s
