-- ===== src/Latest/Paged.antt =====
-- Following the cursors of `latest_memories` gives every record once.
use persistence_memory.Prelude.{
  ℕ, zero, suc, ◌+◌, ◌≤◌, ◌<◌, ◌≡◌, ◌≢◌, refl, sym, ap, ◌∙◌, subst, inl, inr, Option, none, some,
  List, [], ◌∷◌, ◌++◌, map, take, drop, length, arith, take-append-drop, length-take, length-drop,
  Text, Bytes, text_eq, ltb, values, All, Bool-cases, ok,
}
use mathlib.Core.List.{append_assoc, map-append}
use persistence_memory.Hash.{Sha256}
use persistence_memory.Store.{Store}
use persistence_memory.Latest.Rows.{Times, Key, Row, key_of}
use persistence_memory.Latest.Cursor.{
  Codec, LimitArg, absent, number, Params, encode_cursor, decode_cursor, sign, scope,
}
use persistence_memory.Latest.RoundTrip.{decode-encode_cursor}
use persistence_memory.Latest.Service.{
  Shaped, parse_limit, filters_of, last_row, shape, read_cursor, reply_of, latest_memories, follow,
  asked_tenant,
}
use persistence_memory.Latest.Below.{DistinctIds, AllRows, list_latest-first, list_latest-next}

record Last (xs : List Row) : Type 0 where
  row : Row
  init : List Row
  is_last : last_row xs ≡ some row
  splits : xs ≡ init ++ row ∷ []

Last-cons : (x : Row) (xs : List Row) → Last (x ∷ xs)
Last-cons x [] = record { row = x; init = []; is_last = refl; splits = refl }
Last-cons x (y ∷ ys) =
    let l : Last (y ∷ ys) = Last-cons y ys in
    record {
      row = l.row;
      init = x ∷ l.init;
      is_last = l.is_last;
      splits = ap (λ r. x ∷ r) l.splits;
    }

-- A page that is not the last one ends with a row, and what follows that row are the other pages.
record PageEnd (limit : ℕ) (front back : List Row) : Type 0 where
  row : Row
  init : List Row
  is_last : last_row (take limit back) ≡ some row
  splits : front ++ back ≡ (front ++ init) ++ row ∷ drop limit back

page_end :
    (limit : ℕ) (front back : List Row) → 1 ≤ limit → limit < length back → PageEnd limit front back
page_end zero front back some_ more = absurd (omega arith)
page_end (suc n) front [] some_ more = absurd (omega arith)
page_end (suc n) front (x ∷ xs) some_ more =
    let l : Last (x ∷ take n xs) = Last-cons x (take n xs) in
    record {
      row = l.row;
      init = l.init;
      is_last = l.is_last;
      splits =
          ap (λ r. front ++ r)
            (sym (take-append-drop (suc n) (x ∷ xs))
              ∙ ap (λ r. r ++ drop n xs) l.splits
              ∙ append_assoc l.init (l.row ∷ []) (drop n xs))
          ∙ sym (append_assoc front l.init (l.row ∷ drop n xs));
    }

-- The first rows of those that a page reads.
take-take : (n m : ℕ) (xs : List Row) → n ≤ m → take n (take m xs) ≡ take n xs
take-take zero m xs less = refl
take-take (suc n) zero xs less = absurd (omega arith)
take-take (suc n) (suc m) [] less = refl
take-take (suc n) (suc m) (x ∷ xs) less = ap (λ r. x ∷ r) (take-take n m xs (omega arith))

take-all : (n : ℕ) (xs : List Row) → length xs ≤ n → take n xs ≡ xs
take-all zero [] less = refl
take-all zero (x ∷ xs) less = absurd (omega arith)
take-all (suc n) [] less = refl
take-all (suc n) (x ∷ xs) less = ap (λ r. x ∷ r) (take-all n xs (omega arith))

All-at : (P : Row → Type 0) (xs : List Row) (r : Row) (ys : List Row) → All P (xs ++ r ∷ ys) → P r
All-at P [] r ys all = all.0
All-at P (x ∷ xs) r ys all = All-at P xs r ys all.1

append_dot : (t u : Text) → t ++ 46 ∷ u ≢ []
append_dot [] u same = absurd (cc)
append_dot (c ∷ cs) u same = absurd (cc)

module _ (h : Sha256) (codec : Codec) (times : Times) (digest_text : List Shaped → Bytes)
    (key : Bytes) (asked : Option Text) (tenant : Text) (p : Params) (limit : ℕ) (s : Store)
    (resolved : asked_tenant asked ≡ ok tenant) (limited : parse_limit p.limit ≡ ok limit)
    (rows : List Row) (parses : All (λ r. times.parse_utc (times.norm_ts r.at) ≡ some r.at) rows)
    (every : AllRows times (filters_of p) s rows) (distinct : DistinctIds (values s.memories))
    (named : All (λ r. r.memory.id ≢ []) rows) where
  abbrev cursor_of : Row → Text
  cursor_of r = encode_cursor h codec times key tenant p (key_of r)

  abbrev asking : Option Text → Params
  asking c = record p { cursor = c }

  -- The cursor stands behind the rows `front`.
  data Behind : Option Text → List Row → Type 0 where
    first : Behind none []
    next :
        (init : List Row) (r : Row)
        → r.memory.id ≢ []
        → times.parse_utc (times.norm_ts r.at) ≡ some r.at
        → Behind (some (cursor_of r)) (init ++ r ∷ [])

  same_cursor :
      (c : Option Text) (at : Key)
      → encode_cursor h codec times key tenant (asking c) at
        ≡ encode_cursor h codec times key tenant p at
  unfolding encode_cursor scope
  same_cursor c (at, id) = refl

  read_some :
      (q : Params) (t : Text) (at : Key)
      → t ≢ []
      → decode_cursor h codec times key tenant q t ≡ ok at
      → read_cursor h codec times digest_text key tenant q (some t) ≡ ok (some at)
  unfolding read_cursor
  read_some q [] at some_text decodes = absurd (some_text refl)
  read_some q (c ∷ cs) at some_text decodes = rw decodes refl

  cursor_text : (r : Row) → cursor_of r ≢ []
  unfolding encode_cursor sign
  cursor_text r = append_dot _ _

  -- What a page reads are the rows behind its cursor.
  page_rows :
      (c : Option Text) (front back : List Row)
      → Behind c front
      → rows ≡ front ++ back
      → latest_memories h codec times digest_text (ok key) asked (asking c) s
        ≡ ok
            (reply_of h codec times digest_text key tenant (asking c) limit (take (limit + 1) back))
  unfolding latest_memories read_cursor
  page_rows _ _ back first split =
      rw (resolved, limited, list_latest-first times (filters_of p) s rows every (limit + 1), split)
        refl
  page_rows _ _ back (next init r id_ parse_) split =
      rw
        (
          resolved,
          limited,
          read_some (asking (some (cursor_of r))) (cursor_of r) (key_of r) (cursor_text r) (
              ap (decode_cursor h codec times key tenant (asking (some (cursor_of r))))
                (sym (same_cursor (some (cursor_of r)) (key_of r)))
              ∙ decode-encode_cursor h codec times key tenant (asking (some (cursor_of r))) r.at
                  r.memory.id parse_ id_),
          list_latest-next times (filters_of p) s rows every init r back (limit + 1) distinct
              (split ∙ append_assoc init (r ∷ []) back),
        )
        refl

  at_least_one : 1 ≤ limit
  unfolding parse_limit
  at_least_one = by p.limit limited
    where
      by : (l : LimitArg) → parse_limit l ≡ ok limit → 1 ≤ limit
      by absent given = ground (arith, given)
      by (number n) given = ground (arith, given)
      by LimitArg.other given = absurd (cc)

  abbrev shaped : List Row → List Shaped
  shaped = map (shape h codec times digest_text)

  follow_from :
      (fuel : ℕ) (c : Option Text) (front back : List Row)
      → Behind c front
      → rows ≡ front ++ back
      → length back ≤ fuel
      → follow h codec times digest_text fuel (ok key) asked (asking c) s ≡ ok (shaped back)
  unfolding follow reply_of
  follow_from zero c front [] behind split enough = refl
  follow_from zero c front (x ∷ xs) behind split enough = absurd (omega arith)
  follow_from (suc fuel) c front back behind split enough =
      rw (page_rows c front back behind split, take-take limit (limit + 1) back (omega arith))
        (elim (Bool-cases (ltb limit (length (take (limit + 1) back)))) [
          | inl more ↦ rw more (
              let longer : limit < length back = ground (arith, length-take (limit + 1) back) in
              let e : PageEnd limit front back = page_end limit front back at_least_one longer in
              rw
                (
                  e.is_last,
                  same_cursor c (key_of e.row),
                  follow_from fuel (some (cursor_of e.row)) ((front ++ e.init) ++ e.row ∷ [])
                      (drop limit back)
                      (next (front ++ e.init) e.row
                        (All-at (λ r. r.memory.id ≢ []) (front ++ e.init) e.row (drop limit back)
                          (subst (All (λ r. r.memory.id ≢ [])) (split ∙ e.splits) named))
                        (All-at (λ r. times.parse_utc (times.norm_ts r.at) ≡ some r.at)
                          (front ++ e.init) e.row (drop limit back)
                          (subst (All (λ r. times.parse_utc (times.norm_ts r.at) ≡ some r.at))
                            (split ∙ e.splits) parses)))
                      (split
                        ∙ e.splits
                        ∙ sym (append_assoc (front ++ e.init) (e.row ∷ []) (drop limit back)))
                      (omega (arith, length-drop limit back, at_least_one)),
                )
                (ap ok (
                  sym (map-append _ (take limit back) (drop limit back))
                  ∙ ap shaped (take-append-drop limit back))))
          | inr last ↦ rw last (
              ap (λ r. ok (shaped r))
                (take-all limit back (ground (arith, length-take (limit + 1) back))))
        ])

-- A client that starts without a cursor and asks for each page with the cursor of the one before it
-- gets, in as many pages at most as there are records, every record that the filters let through
-- once, newest first. The tenant is resolved and the limit is accepted; there is a key to sign with;
-- every timestamp that is looked at parses, and the instant of each record reads back as it is
-- written; no two records have one id, and
-- none has an empty one.
pub follow_lem :
    (h : Sha256) (codec : Codec) (times : Times) (digest_text : List Shaped → Bytes) (key : Bytes)
    (asked : Option Text) (tenant : Text) (p : Params) (limit : ℕ) (s : Store) (rows : List Row)
    (fuel : ℕ)
    → asked_tenant asked ≡ ok tenant
    → parse_limit p.limit ≡ ok limit
    → All (λ r. times.parse_utc (times.norm_ts r.at) ≡ some r.at) rows
    → AllRows times (filters_of p) s rows
    → DistinctIds (values s.memories)
    → All (λ r. r.memory.id ≢ []) rows
    → length rows ≤ fuel
    → follow h codec times digest_text fuel (ok key) asked (record p { cursor = none }) s
      ≡ ok (map (shape h codec times digest_text) rows)
follow_lem h codec times digest_text key asked tenant p limit s rows fuel resolved limited parses
      every distinct named enough =
    follow_from h codec times digest_text key asked tenant p limit s resolved limited rows parses
      every distinct named fuel none [] rows first refl enough
