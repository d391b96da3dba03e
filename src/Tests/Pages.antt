-- ===== src/Tests/Pages.antt =====
-- Two records, listed a page of one at a time with toy cursors.
use persistence_memory.Prelude.{
  ℕ, ◌+◌, ◌-◌, ◌≡◌, refl, ap, false, Option, none, some, List, [], ◌∷◌, ◌++◌, map, take, drop,
  length, arith, Text, Bytes, Without, codes, text_eq, ok, sort,
}
use persistence_memory.Models.{MemoryRecord, fact, verified}
use persistence_memory.Store.{Store}
use persistence_memory.Latest.Rows.{
  Times, Row, successors_of, note_successor, collect, instant, is_wanted, is_below, has_tokens,
  row_of, key_lt,
}
use persistence_memory.Latest.Cursor.{Codec, Params, number, encode_cursor, decode_cursor}
use persistence_memory.Latest.RoundTrip.{decode-encode_cursor}
use persistence_memory.Latest.Service.{Shaped, parse_limit, filters_of, follow, shape}
use persistence_memory.Latest.Below.{AllRows}
use persistence_memory.Latest.Paged.{follow_lem}
use persistence_memory.Latest.Rows.{list_latest}
use persistence_memory.Search.Kmp.{contains_run}
use persistence_memory.Search.Found.{Occurs, contains_run_iff}
use persistence_memory.Search.Service.{
  SearchParams, SearchReply, search_reply, search_ledger, query_tokens, search_filters, char_count,
  distinct,
}
use persistence_memory.Search.Best.{Best, search_ledger-Best}
use persistence_memory.Prelude.{◌↔◌, true, sort, strip, rstrip, lstrip}
use persistence_memory.Latest.Rows.{tokens, split_words, record_tokens}
use persistence_memory.Tests.Toy.{toy}

take-append : (xs ys : Text) → take (length xs) (xs ++ ys) ≡ xs
take-append [] ys = refl
take-append (x ∷ xs) ys = ap (λ r. x ∷ r) (take-append xs ys)

drop-append : (xs ys : Text) → drop (length xs) (xs ++ ys) ≡ ys
drop-append [] ys = refl
drop-append (x ∷ xs) ys = drop-append xs ys

abbrev loads : Bytes → Option (Text × Text × Text)
loads (a ∷ b ∷ rest) = some (take a rest, take b (drop a rest), drop b (drop a rest))
loads _ = none

abbrev dumps : Text → Text → Text → Bytes
dumps c i s = length c ∷ length i ∷ c ++ (i ++ s)

loads-dumps_toy : (c i s : Text) → loads (dumps c i s) ≡ some (c, i, s)
loads-dumps_toy c i s = rw (take-append, drop-append, take-append, drop-append) refl

abbrev up : Bytes → Text
up = map (λ n. n + 47)

abbrev down : Text → Bytes
down = map (λ n. n - 47)

down-up : (b : Bytes) → down (up b) ≡ b
down-up [] = refl
down-up (n ∷ b) = rw (down-up b) (ap (λ m. m ∷ b) (omega arith))

up-Without : (b : Bytes) → Without 46 (up b)
up-Without [] = tt
up-Without (n ∷ b) = (λ same. omega arith, up-Without b)

abbrev codec : Codec
codec = record {
  dumps = dumps;
  loads = loads;
  loads-dumps = loads-dumps_toy;
  b64 = up;
  unb64 = λ t. some (down t);
  unb64-b64 = λ b. ap some (down-up b);
  b64-Without = up-Without;
  hmac = λ key m. key ++ m;
  scope_text = λ tenant type a b c. tenant;
}

abbrev parse : Text → Option ℕ
parse (n ∷ []) = some n
parse _ = none

abbrev times : Times
times = record { parse_utc = parse; norm_ts = λ n. n ∷ [] }

abbrev a_fact : Text → ℕ → MemoryRecord
a_fact id at = record {
  id = id;
  content = codes "x";
  created_at = at ∷ [];
  updated_at = at ∷ [];
  source_agent = codes "a";
  session_id = [];
  type = fact;
  confidence = 0;
  evidence = [];
  supersedes = none;
  status = verified;
  subject = none;
  tags = [];
  version = 1;
  content_sha256 = [];
}

abbrev two : Store
two = record {
  memories = (codes "m1", a_fact (codes "m1") 5) ∷ (codes "m2", a_fact (codes "m2") 7) ∷ [];
  disk = [];
}

abbrev one_a_page : Params
one_a_page = record {
  limit = number 1;
  cursor = none;
  include_superseded = false;
  include_archived = false;
  include_twin = false;
  type = none;
}

abbrev as_row : MemoryRecord → ℕ → Row
as_row m at = record { at = at; memory = m; superseded_by = none }

abbrev newest : List Row
newest = as_row (a_fact (codes "m2") 7) 7 ∷ as_row (a_fact (codes "m1") 5) 5 ∷ []

every : AllRows times (filters_of one_a_page) two newest
unfolding successors_of note_successor collect is_wanted instant is_below has_tokens row_of sort
    key_lt
every = record {
  successors = [];
  noted = refl;
  found = as_row (a_fact (codes "m1") 5) 5 ∷ as_row (a_fact (codes "m2") 7) 7 ∷ [];
  collected_all = refl;
  sorted_all = refl;
}

abbrev no_digest : List Shaped → Bytes
no_digest shaped = []

follow_lem_example :
    follow toy codec times no_digest 2 (ok (codes "k")) (some (codes "acme")) one_a_page two
    ≡ ok (map (shape toy codec times no_digest) newest)
unfolding parse_limit
follow_lem_example =
    follow_lem toy codec times no_digest (codes "k") (some (codes "acme")) (codes "acme") one_a_page
      1 two newest 2 refl refl (refl, (refl, tt)) every ((refl, tt), (tt, tt))
      (λ e. cc, (λ e. cc, tt)) (omega arith)

decode-encode_cursor_example :
    decode_cursor toy codec times
      (codes "k")
      (codes "acme")
      one_a_page
      (encode_cursor toy codec times (codes "k") (codes "acme") one_a_page (7, codes "m2"))
    ≡ ok (7, codes "m2")
decode-encode_cursor_example =
    decode-encode_cursor toy codec times (codes "k") (codes "acme") one_a_page 7 (codes "m2") refl
      (λ e. cc)

abbrev search_x : SearchParams
search_x = record {
  query = codes "x";
  limit = number 1;
  include_superseded = false;
  include_archived = false;
  include_twin = false;
  type = none;
}

abbrev reply : SearchReply
reply = search_reply toy codec times no_digest search_x (codes "acme") 1 (codes "x" ∷ []) newest

words_x : query_tokens (codes "x") ≡ ok (codes "x" ∷ [])
unfolding query_tokens strip rstrip lstrip char_count distinct tokens split_words
words_x = refl

listed_x : list_latest times (search_filters search_x (codes "x" ∷ [])) none 5001 two ≡ ok newest
unfolding list_latest successors_of note_successor collect is_wanted instant is_below has_tokens
    row_of sort key_lt record_tokens tokens split_words
listed_x = refl

found_x : search_ledger toy codec times no_digest (some (codes "acme")) search_x two ≡ ok reply
unfolding search_ledger parse_limit
found_x = rw (words_x, listed_x) refl

search_ledger-Best_example : Best toy codec times no_digest search_x two reply
search_ledger-Best_example =
    search_ledger-Best toy codec times no_digest (some (codes "acme")) search_x two reply found_x

contains_run_iff_example :
    (contains_run (codes "a" ∷ codes "b" ∷ codes "a" ∷ codes "c" ∷ []) (codes "a" ∷ codes "c" ∷ [])
      ≡ true)
    ↔ Occurs (codes "a" ∷ codes "c" ∷ []) (codes "a" ∷ codes "b" ∷ codes "a" ∷ codes "c" ∷ [])
contains_run_iff_example =
    contains_run_iff (codes "a" ∷ codes "b" ∷ codes "a" ∷ codes "c" ∷ [])
      (codes "a" ∷ codes "c" ∷ [])
