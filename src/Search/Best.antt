-- ===== src/Search/Best.antt =====
-- A search returns the best of its candidates.
use persistence_memory.Prelude.{
  ℕ, zero, suc, ◌≤◌, ◌≡◌, refl, sym, ap, ◌∙◌, subst, min, sort-All, inl, inr, Option, none, List,
  [], ◌∷◌, ◌++◌, map, take, drop, length, arith, All, All-map, length-take, take-append-drop, leb,
  leb→le, Text, Bytes, text_eq, Bool-cases, sort, sort-perm, Result, ok, err, >>=-eq-ok,
}
use mathlib.Core.List.{Perm}
use persistence_memory.Prelude.Sorting.{insert_sorted, insert_sorted-All}
use persistence_memory.Store.{Store}
use persistence_memory.Hash.{Sha256}
use persistence_memory.Latest.Rows.{Times, LatestError, Row, list_latest}
use persistence_memory.Latest.Cursor.{Codec}
use persistence_memory.Latest.Service.{parse_limit, asked_tenant, Shaped}
use persistence_memory.Search.Matching.{Matches, take-All, list_latest-Matches}
use persistence_memory.Search.Service.{
  SearchError, as_search, query_tokens, SearchParams, SearchReply, rank, search_filters, as_found,
  score_of, search_reply, search_ledger,
}

module _ (points_of : Row → ℕ) where
  -- Each row has at least the points of all that follow it.
  abbrev Descending : List Row → Type 0
  Descending [] = Unit
  Descending (r ∷ rs) = All (λ q. points_of q ≤ points_of r) rs × Descending rs

  insert_sorted-Descending :
      (r : Row) (rs : List Row)
      → Descending rs
      → Descending (insert_sorted (λ a b. leb (points_of b) (points_of a)) r rs)
  unfolding insert_sorted
  insert_sorted-Descending r [] below = (tt, tt)
  insert_sorted-Descending r (q ∷ rs) below = elim (Bool-cases (leb (points_of q) (points_of r))) [
    | inl first ↦ rw first (
        let under : points_of q ≤ points_of r = leb→le (points_of q) (points_of r) first in
        (
          (
            under,
            All-map (λ z. points_of z ≤ points_of q) (λ z. points_of z ≤ points_of r)
                (λ z zq. omega arith) rs below.0,
          ),
          below,
        ))
    | inr later ↦ rw later (
      insert_sorted-All (λ a b. leb (points_of b) (points_of a)) (λ z. points_of z ≤ points_of q) r
          rs (ground (arith, later)) below.0,
      insert_sorted-Descending r rs below.1,
    )
  ]

  pub length-rank : (rs : List Row) → length (rank points_of rs) ≡ length rs
  unfolding rank sort insert_sorted
  length-rank [] = refl
  length-rank (r ∷ rs) = insert_sorted-length r (rank points_of rs) ∙ ap suc (length-rank rs)
    where
      insert_sorted-length :
          (q : Row) (qs : List Row)
          → length (insert_sorted (λ a b. leb (points_of b) (points_of a)) q qs) ≡ suc (length qs)
      insert_sorted-length q [] = refl
      insert_sorted-length q (x ∷ qs) = ground (arith, insert_sorted-length q qs)

  rank-Descending : (rs : List Row) → Descending (rank points_of rs)
  unfolding rank sort
  rank-Descending [] = tt
  rank-Descending (r ∷ rs) = insert_sorted-Descending r _ (rank-Descending rs)

  -- No row of `others` has more points than one of `best`.
  abbrev pub Beats : List Row → List Row → Type 0
  Beats best others = All (λ r. All (λ q. points_of q ≤ points_of r) others) best

  take-Beats : (n : ℕ) (rs : List Row) → Descending rs → Beats (take n rs) (drop n rs)
  take-Beats zero rs below = tt
  take-Beats (suc n) [] below = tt
  take-Beats (suc n) (r ∷ rs) below = (drop-All n rs below.0, take-Beats n rs below.1)
    where
      drop-All :
          (k : ℕ) (qs : List Row)
          → All (λ q. points_of q ≤ points_of r) qs
          → All (λ q. points_of q ≤ points_of r) (drop k qs)
      drop-All zero qs all = all
      drop-All (suc k) [] all = tt
      drop-All (suc k) (q ∷ qs) all = drop-All k qs all.1

module _ (h : Sha256) (codec : Codec) (times : Times) (digest_text : List Shaped → Bytes) where
  -- What a search returns: of the first 5,000 candidates, the best.
  pub record Best (p : SearchParams) (s : Store) (reply : SearchReply) : Type 0 where
    pub limit : ℕ
    pub candidates : List Row
    pub listed : list_latest times (search_filters p reply.words) none 5001 s ≡ ok candidates
    pub best : List Row
    pub others : List Row
    pub all_there : Perm (best ++ others) (take 5000 candidates)
    pub asked : query_tokens p.query ≡ ok reply.words
    pub limited : parse_limit p.limit ≡ ok limit
    pub count : length best ≡ min limit (min 5000 (length candidates))
    pub matching : All (Matches reply.words) best
    pub beats : Beats (score_of h codec times digest_text p reply.words) best others
    pub shaped :
        reply.records
        ≡ map
            (as_found h codec times digest_text (score_of h codec times digest_text p reply.words))
            best

  ok-injective :
      {x y : SearchReply} → ◌≡◌ {A = Result SearchError SearchReply} (ok x) (ok y) → x ≡ y
  ok-injective same = ground (arith, same)

  as_search-ok : {A : Type 0} (r : Result LatestError A) (a : A) → as_search r ≡ ok a → r ≡ ok a
  as_search-ok (ok b) a same = ground (arith, same)
  as_search-ok (err e) a same = absurd (cc)

  -- Where a search returns a reply, its records are the best of the newest 5,000 candidates that the
  -- filters and the words of the query leave: as many as the limit, or all of them if they are fewer;
  -- each has every word of the query in its subject, content or tags; and none that is left out has
  -- a higher score than one that is returned.
  pub search_ledger-Best :
      (asked : Option Text) (p : SearchParams) (s : Store) (reply : SearchReply)
      → search_ledger h codec times digest_text asked p s ≡ ok reply
      → Best p s reply
  unfolding search_ledger search_reply rank
  search_ledger-Best asked p s reply done =
      let (tenant, a, r1) = >>=-eq-ok (as_search (asked_tenant asked)) _ done in
      let (limit, b, r2) = >>=-eq-ok (as_search (parse_limit p.limit)) _ r1 in
      let (words, c, r3) = >>=-eq-ok (query_tokens p.query) _ r2 in
      let (candidates, d, last) =
        >>=-eq-ok (as_search (list_latest times (search_filters p words) none 5001 s)) _ r3 in
      subst (Best p s) (ok-injective last) (
        best_of tenant limit words candidates (as_search-ok _ limit b) c
          (as_search-ok _ candidates d))
    where
      best_of :
          (tenant : Text) (limit : ℕ) (words : List Text) (candidates : List Row)
          → parse_limit p.limit ≡ ok limit
          → query_tokens p.query ≡ ok words
          → list_latest times (search_filters p words) none 5001 s ≡ ok candidates
          → Best p s (search_reply h codec times digest_text p tenant limit words candidates)
      best_of tenant limit words candidates limited asked_for listed =
          let points : Row → ℕ = score_of h codec times digest_text p words in
          let ranked : List Row = rank points (take 5000 candidates) in
          record {
            limit = limit;
            candidates = candidates;
            listed = listed;
            best = take limit ranked;
            others = drop limit ranked;
            all_there =
                subst (λ rs. Perm rs (take 5000 candidates)) (sym (take-append-drop limit ranked))
                  (sort-perm (λ a b. leb (points b) (points a)) (take 5000 candidates));
            asked = asked_for;
            limited = limited;
            count =
                length-take limit ranked
                ∙ ap (min limit)
                    (length-rank points (take 5000 candidates) ∙ length-take 5000 candidates);
            matching = take-All (Matches words) limit ranked (
                sort-All (λ a b. leb (points b) (points a)) (Matches words) (take 5000 candidates)
                  (take-All (Matches words) 5000 candidates
                    (list_latest-Matches times (search_filters p words) none 5001 s listed)));
            beats = take-Beats points limit ranked (rank-Descending points (take 5000 candidates));
            shaped = refl;
          }
