-- ===== src/Search/Service.antt =====
-- `search_ledger` of app/ledger_search.py: the words of a query, the score of a record, and the
-- ranking of the candidates that `list_latest` gives.
use persistence_memory.Prelude.{
  ℕ, suc, ◌+◌, Bool, true, false, ◌&&◌, ◌||◌, Option, none, List, [], ◌∷◌, ◌++◌, map, take, length,
  min, contains, ltb, leb, if◌then◌else◌, Text, Bytes, text_eq, ◌==◌, strip, sort, Result, ok, err,
  ◌>>=◌, raise_if,
}
use persistence_memory.Models.{MemoryRecord}
use persistence_memory.Store.{Store}
use persistence_memory.Hash.{Sha256}
use persistence_memory.Latest.Rows.{
  Times, LatestError, Row, Filters, tokens, join, or_empty, list_latest,
}
use persistence_memory.Latest.Cursor.{Codec, LimitArg}
use persistence_memory.Latest.Service.{parse_limit, asked_tenant, Shaped, shape}
use persistence_memory.Search.Kmp.{contains_run}

-- `LatestError` of a search: those of the shared checks, or by its own reasons.
pub data SearchError : Type 0 where
  latest_error : LatestError → SearchError
  query_empty query_too_long : SearchError

abbrev pub as_search : {A : Type 0} → Result LatestError A → Result SearchError A
as_search (ok a) = ok a
as_search (err e) = err (latest_error e)

-- `len(text)`: the bytes that begin a character.
unfoldable pub char_count : Text → ℕ
char_count [] = 0
char_count (c ∷ cs) = let rest = char_count cs in if leb 128 c && leb c 191 then rest else suc rest

-- `if tok not in seen: seen.append(tok)`
unfoldable pub distinct : List Text → List Text → List Text
distinct seen [] = seen
distinct seen (t ∷ ts) = distinct (if contains t seen then seen else seen ++ t ∷ []) ts

abbrev pub is_empty : Text → Bool
is_empty [] = true
is_empty (c ∷ cs) = false

abbrev pub no_words : List Text → Bool
no_words [] = true
no_words (t ∷ ts) = false

-- `query_tokens`, of a query that is a text.
unfoldable pub query_tokens : Text → Result SearchError (List Text)
query_tokens query = raise_if (is_empty (strip query)) query_empty >>= λ _.
    raise_if (ltb 500 (char_count query)) query_too_long >>= λ _.
    raise_if (no_words (distinct [] (tokens query))) query_empty >>= λ _.
    raise_if (ltb 16 (length (distinct [] (tokens query)))) query_too_long >>= λ _.
    ok (distinct [] (tokens query))

-- `content.count(q)`
unfoldable pub count : Text → List Text → ℕ
count q [] = 0
count q (t ∷ ts) = let rest = count q ts in if t == q then suc rest else rest

abbrev pub points : Bool → ℕ → ℕ
points true n = n
points false n = 0

-- What one word of the query adds.
unfoldable pub word_score : MemoryRecord → Text → ℕ
word_score m q =
    points (contains q (tokens (or_empty m.subject))) 6
    + (points (contains q (tokens (join m.tags))) 4 + min 3 (count q (tokens m.content)))

unfoldable pub words_score : MemoryRecord → List Text → ℕ
words_score m [] = 0
words_score m (q ∷ qs) = word_score m q + words_score m qs

-- The bonus for the whole query, in its order.
unfoldable pub phrase_score : MemoryRecord → List Text → ℕ
phrase_score m phrase =
    points
      (ltb 1 (length phrase)
        && (contains_run (tokens (or_empty m.subject)) phrase
            || contains_run (tokens m.content) phrase))
      5

-- `score`
unfoldable pub score : MemoryRecord → List Text → List Text → ℕ
score m words phrase = words_score m words + phrase_score m phrase

pub record SearchParams : Type 0 where
  pub query : Text
  pub limit : LimitArg
  pub include_superseded : Bool
  pub include_archived : Bool
  pub include_twin : Bool
  pub type : Option Text

pub record Found : Type 0 where
  pub shaped : Shaped
  pub points_of : ℕ

pub record SearchReply : Type 0 where
  pub query : Text
  pub words : List Text
  pub records : List Found
  pub candidates_capped : Bool
  pub tenant : Text

-- `sorted(candidates, key=lambda pair: -score(...))`
unfoldable pub rank : (Row → ℕ) → List Row → List Row
rank points_of rows = sort (λ a b. leb (points_of b) (points_of a)) rows

abbrev pub search_filters : SearchParams → List Text → Filters
search_filters p words = record {
  memory_type = p.type;
  include_superseded = p.include_superseded;
  include_archived = p.include_archived;
  include_twin = p.include_twin;
  tokens = words;
}

module _ (h : Sha256) (codec : Codec) (times : Times) (digest_text : List Shaped → Bytes) where
  abbrev pub as_found : (Row → ℕ) → Row → Found
  as_found points_of r = record {
    shaped = shape h codec times digest_text r;
    points_of = points_of r;
  }

  abbrev pub score_of : SearchParams → List Text → Row → ℕ
  score_of p words r = score r.memory words (tokens p.query)

  unfoldable pub search_reply : SearchParams → Text → ℕ → List Text → List Row → SearchReply
  search_reply p tenant limit words candidates = record {
    query = p.query;
    words = words;
    records =
        map (as_found (score_of p words))
          (take limit (rank (score_of p words) (take 5000 candidates)));
    candidates_capped = ltb 5000 (length candidates);
    tenant = tenant;
  }

  -- `search_ledger`
  unfoldable pub search_ledger : Option Text → SearchParams → Store → Result SearchError SearchReply
  search_ledger asked p s = as_search (asked_tenant asked) >>= λ tenant.
      as_search (parse_limit p.limit) >>= λ limit. query_tokens p.query >>= λ words.
      as_search (list_latest times (search_filters p words) none 5001 s) >>= λ candidates.
      ok (search_reply p tenant limit words candidates)
