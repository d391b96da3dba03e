-- ===== src/Latest/Rows.antt =====
-- `JarvisStore.list_latest` (app/store.py): the rows below a cursor, newest first, and the tokens of
-- a record (app/ledger_search.py).
use persistence_memory.Prelude.{
  ℕ, Bool, true, false, not, ◌&&◌, ◌||◌, Option, none, some, List, [], ◌∷◌, ◌++◌, take, contains,
  if◌then◌else◌, Text, codes, nat_eq, text_eq, ◌==◌, ltb, leb, text_leb, Dict, lookup, insert,
  values, sort, Result, ok, ◌>>=◌, or_raise, lower_char,
}
use persistence_memory.Models.{MemoryRecord, type_name, is_archived}
use persistence_memory.Store.{Store}

-- What app/ts.py takes from `datetime`: the instant of a timestamp, in microseconds, and its form
-- of fixed width. `none` is a text that `fromisoformat` refuses. `datetime` has no instant after the
-- year 9999, so a law of the two is asked only of instants that stand in records.
pub record Times : Type 0 where
  pub parse_utc : Text → Option ℕ
  pub norm_ts : ℕ → Text

-- `LatestError` by its reason, and a timestamp that does not parse.
pub data LatestError : Type 0 where
  limit_out_of_range cursor_invalid tenant_unresolved cursor_key_unavailable bad_timestamp :
      LatestError

-- `(parse_utc(m.created_at), m.id)`
abbrev pub Key : Type 0
Key = ℕ × Text

-- `a < b` of two keys.
unfoldable pub key_lt : Key → Key → Bool
key_lt (a, i) (b, j) = if a == b then not (text_leb j i) else ltb a b

pub record Row : Type 0 where
  pub at : ℕ
  pub memory : MemoryRecord
  pub superseded_by : Option Text

abbrev pub key_of : Row → Key
key_of r = (r.at, r.memory.id)

abbrev pub row_lt : Row → Row → Bool
row_lt a b = key_lt (key_of a) (key_of b)

-- The keyword arguments of `list_latest` but for the limit and the cursor.
pub record Filters : Type 0 where
  pub memory_type : Option Text
  pub include_superseded : Bool
  pub include_archived : Bool
  pub include_twin : Bool
  pub tokens : List Text

-- A character of a token; every byte of a character outside ASCII is one.
abbrev pub is_token_char : ℕ → Bool
is_token_char c = (leb 48 c && leb c 57) || ((leb 97 c && leb c 122) || leb 128 c)

abbrev pub close_word : Text → List Text → List Text
close_word [] words = words
close_word (c ∷ cs) words = (c ∷ cs) ∷ words

-- The word that is being read, and the words behind it.
unfoldable pub split_words : Text → Text × List Text
split_words [] = ([], [])
split_words (c ∷ cs) =
    let (word, words) = split_words cs in
    if is_token_char (lower_char c)
    then (lower_char c ∷ word, words)
    else ([], close_word word words)

-- `tokens`
unfoldable pub tokens : Text → List Text
tokens text = let (word, words) = split_words text in close_word word words

abbrev pub join : List Text → Text
join [] = []
join (t ∷ []) = t
join (t ∷ u ∷ ts) = t ++ (32 ∷ join (u ∷ ts))

abbrev pub or_empty : Option Text → Text
or_empty none = []
or_empty (some t) = t

-- `record_tokens`
unfoldable pub record_tokens : MemoryRecord → List Text
record_tokens m = tokens (join (or_empty m.subject ∷ m.content ∷ join m.tags ∷ []))

unfoldable pub has_tokens : List Text → MemoryRecord → Bool
has_tokens [] m = true
has_tokens (t ∷ ts) m = contains t (record_tokens m) && has_tokens ts m

abbrev pub newer_successor : Key → Option Key → Bool
newer_successor key none = true
newer_successor key (some old) = key_lt old key

abbrev pub add_successor : Text → Key → Dict Text Key → Dict Text Key
add_successor old key d = if newer_successor key (lookup old d) then insert old key d else d

abbrev pub of_type : Option Text → MemoryRecord → Bool
of_type none m = true
of_type (some []) m = true
of_type (some (c ∷ cs)) m = type_name m.type == c ∷ cs

abbrev pub no_successor : Option Key → Bool
no_successor none = true
no_successor (some key) = false

abbrev pub successor_id : Option Key → Option Text
successor_id none = none
successor_id (some (_, id)) = some id

-- The filters that do not look at the time.
unfoldable pub is_wanted : Filters → Dict Text Key → MemoryRecord → Bool
is_wanted f successors m =
    of_type f.memory_type m
    && ((f.include_twin || not (m.source_agent == codes "ai-twin"))
        && ((f.include_archived || not (is_archived m.status))
            && (f.include_superseded || no_successor (lookup m.id successors))))

-- `after is None or key < after`
unfoldable pub is_below : Option Key → Row → Bool
is_below none r = true
is_below (some after) r = key_lt (key_of r) after

unfoldable pub row_of : Dict Text Key → MemoryRecord → ℕ → Row
row_of successors m at = record {
  at = at;
  memory = m;
  superseded_by = successor_id (lookup m.id successors);
}

abbrev pub add_row : Filters → Option Key → Row → List Row → List Row
add_row f after r rows = if is_below after r && has_tokens f.tokens r.memory then r ∷ rows else rows

module _ (times : Times) where
  unfoldable pub instant : MemoryRecord → Result LatestError ℕ
  instant m = or_raise (times.parse_utc m.created_at) LatestError.bad_timestamp

  unfoldable pub note_successor :
      MemoryRecord → Option Text → Dict Text Key → Result LatestError (Dict Text Key)
  note_successor m none d = ok d
  note_successor m (some []) d = ok d
  note_successor m (some (c ∷ cs)) d = instant m >>= λ at. ok (add_successor (c ∷ cs) (at, m.id) d)

  -- The newest record that names each superseded one.
  unfoldable pub successors_of :
      List MemoryRecord → Dict Text Key → Result LatestError (Dict Text Key)
  successors_of [] d = ok d
  successors_of (m ∷ ms) d = note_successor m m.supersedes d >>= λ noted. successors_of ms noted

  unfoldable pub collect :
      Filters → Option Key → Dict Text Key → List MemoryRecord → Result LatestError (List Row)
  collect f after successors [] = ok []
  collect f after successors (m ∷ ms) =
      let rest = collect f after successors ms in
      if is_wanted f successors m
      then (instant m >>= λ at. rest >>= λ rows. ok (add_row f after (row_of successors m at) rows))
      else rest

  abbrev pub newest_first : List Row → List Row
  newest_first rows = sort (λ a b. not (row_lt a b)) rows

  -- `list_latest`
  unfoldable pub list_latest : Filters → Option Key → ℕ → Store → Result LatestError (List Row)
  list_latest f after limit s = successors_of (values s.memories) [] >>= λ successors.
      collect f after successors (values s.memories) >>= λ rows. ok (take limit (newest_first rows))
