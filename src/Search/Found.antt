-- ===== src/Search/Found.antt =====
-- The search finds a phrase exactly where it stands in the words.
use persistence_memory.Prelude.{
  ℕ, zero, suc, ◌≤◌, ◌<◌, ◌≡◌, ◌↔◌, refl, sym, ap, ◌∙◌, subst, inl, inr, true, false, List, [], ◌∷◌,
  ◌++◌, arith, length, take, length-append, cons-injective, Text, text_eq, nat_eq, nat_beq_iff,
  ◌==◌, Bool-cases, ltb, ltb→lt,
}
use mathlib.Core.List.{append_assoc}
use persistence_memory.Search.Kmp.{nth, advance, fill_table, scan, contains_run}
use persistence_memory.Search.Longest.{
  EndsWith, Longest, IsTable, advance-Longest, length-EndsWith, short-EndsWith,
}

nth-append : (ns : List ℕ) (n i : ℕ) → i < length ns → nth (ns ++ n ∷ []) i ≡ nth ns i
nth-append [] n i less = absurd (omega arith)
nth-append (m ∷ ns) n zero less = refl
nth-append (m ∷ ns) n (suc i) less = nth-append ns n i (omega arith)

nth-last : (ns : List ℕ) (n : ℕ) → nth (ns ++ n ∷ []) (length ns) ≡ n
nth-last [] n = refl
nth-last (m ∷ ns) n = nth-last ns n

take_all : (xs : List Text) → take (length xs) xs ≡ xs
take_all [] = refl
take_all (x ∷ xs) = ap (λ r. x ∷ r) (take_all xs)

take_part : (done rest : List Text) → take (length done) (done ++ rest) ≡ done
take_part [] rest = refl
take_part (x ∷ done) rest = ap (λ r. x ∷ r) (take_part done rest)

-- The phrase stands somewhere in the words.
pub record Occurs (run words : List Text) : Type 0 where
  pub front : List Text
  pub back : List Text
  pub joins : front ++ (run ++ back) ≡ words

module _ (x : Text) (xs : List Text) where
  abbrev phrase : List Text
  phrase = x ∷ xs

  record Filled (fail : List ℕ) : Type 0 where
    table : IsTable x xs fail
    whole : length fail ≡ length phrase

  fill_table-Filled :
      (rest done : List Text) (k : ℕ) (fail : List ℕ)
      → xs ≡ done ++ rest
      → length fail ≡ suc (length done)
      → IsTable x xs fail
      → Longest phrase done k
      → Filled (fill_table phrase rest k fail)
  unfolding fill_table
  fill_table-Filled [] done k fail split size table l = record {
    table = table;
    whole = omega (arith, size, ap length split, length-append done []);
  }
  fill_table-Filled (a ∷ rest) done k fail split size table l =
      fill_table-Filled rest (done ++ a ∷ []) next (fail ++ next ∷ [])
        (split ∙ sym (append_assoc done (a ∷ []) rest))
        (omega (arith, size, length-append fail (next ∷ []), length-append done (a ∷ []))) grown
        longer
    where
      next : ℕ
      next = advance fail phrase a k

      longer : Longest phrase (done ++ a ∷ []) next
      longer =
          advance-Longest x xs fail done a k table
            (omega (arith, size, length-EndsWith phrase done k l.ends)) l

      reached : length fail ≡ length (done ++ a ∷ [])
      reached = omega (arith, size, length-append done (a ∷ []))

      here : take (length fail) xs ≡ done ++ a ∷ []
      here =
          ap (λ n. take n xs) reached
          ∙ ap (take (length (done ++ a ∷ []))) (split ∙ sym (append_assoc done (a ∷ []) rest))
          ∙ take_part (done ++ a ∷ []) rest

      grown : IsTable x xs (fail ++ next ∷ [])
      grown i less = elim (Bool-cases (ltb i (length fail))) [
        | inl old ↦
            let below : i < length fail = ltb→lt i (length fail) old in
            subst (Longest phrase (take i xs)) (sym (nth-append fail next i below)) (table i below)
        | inr no_ ↦
            let same : length fail ≡ i = ground (arith, length-append fail (next ∷ [])) in
            subst (λ n. Longest phrase (take n xs) (nth (fail ++ next ∷ []) n)) same
              (subst (Longest phrase (take (length fail) xs)) (sym (nth-last fail next))
                (subst (λ t. Longest phrase t next) (sym here) longer))
      ]

  -- A part of `rest` after which the words that were read end with the phrase.
  record Hit (read rest : List Text) : Type 0 where
    part : List Text
    behind : List Text
    splits : part ++ behind ≡ rest
    some_words : 1 ≤ length part
    ends : EndsWith phrase (read ++ part) (length phrase)

  module _ (fail : List ℕ) (filled : Filled fail) where
    step :
        (read : List Text) (a : Text) (k : ℕ)
        → k < length phrase
        → Longest phrase read k
        → Longest phrase (read ++ a ∷ []) (advance fail phrase a k)
    step read a k less l =
        advance-Longest x xs fail read a k filled.table (omega (arith, filled.whole)) l

    scan-Hit :
        (rest read : List Text) (k : ℕ)
        → k < length phrase
        → Longest phrase read k
        → scan fail phrase rest k ≡ true
        → Hit read rest
    unfolding scan
    scan-Hit [] read k less l found = absurd (cc)
    scan-Hit (a ∷ rest) read k less l found =
        let longer : Longest phrase (read ++ a ∷ []) (advance fail phrase a k) =
          step read a k less l in
        elim (Bool-cases (advance fail phrase a k == length phrase)) [
          | inl full ↦ record {
            part = a ∷ [];
            behind = rest;
            splits = refl;
            some_words = omega arith;
            ends = subst (EndsWith phrase (read ++ a ∷ [])) ((nat_beq_iff _ _).0 full) longer.ends;
          }
          | inr no_ ↦
              let hit : Hit (read ++ a ∷ []) rest =
                scan-Hit rest (read ++ a ∷ []) (advance fail phrase a k)
                  (ground (
                    arith,
                    longer.ends.in_range,
                    nat_beq_iff (advance fail phrase a k) (length phrase),
                  ))
                  longer (rw no_ at found) in
              record {
                part = a ∷ hit.part;
                behind = hit.behind;
                splits = ap (λ r. a ∷ r) hit.splits;
                some_words = omega arith;
                ends =
                    subst (λ t. EndsWith phrase t (length phrase))
                      (append_assoc read (a ∷ []) hit.part) hit.ends;
              }
        ]

    -- A hit that one more word does not complete lies behind it.
    shift :
        (read rest : List Text) (a : Text) (n : ℕ)
        → Longest phrase (read ++ a ∷ []) n
        → (n == length phrase) ≡ false
        → Hit read (a ∷ rest)
        → Hit (read ++ a ∷ []) rest
    shift read rest a n longer no_ hit = by hit.part hit.splits hit.some_words hit.ends
      where
        by :
            (part : List Text)
            → part ++ hit.behind ≡ a ∷ rest
            → 1 ≤ length part
            → EndsWith phrase (read ++ part) (length phrase)
            → Hit (read ++ a ∷ []) rest
        by [] splits some_ ends = absurd (omega arith)
        by (b ∷ []) splits some_ ends =
            let same : b ≡ a = (cons-injective b a _ _ splits).0 in
            let full : length phrase ≤ n =
              longer.most (length phrase)
                (subst (λ c. EndsWith phrase (read ++ c ∷ []) (length phrase)) same ends) in
            absurd (ground (arith, nat_beq_iff n (length phrase), longer.ends.in_range))
        by (b ∷ c ∷ part) splits some_ ends =
            let both : (b ≡ a) × (c ∷ part ++ hit.behind ≡ rest) = cons-injective b a _ _ splits in
            record {
              part = c ∷ part;
              behind = hit.behind;
              splits = both.1;
              some_words = omega arith;
              ends =
                  subst (λ t. EndsWith phrase t (length phrase))
                    (ap (λ d. read ++ d ∷ c ∷ part) both.0
                      ∙ sym (append_assoc read (a ∷ []) (c ∷ part)))
                    ends;
            }

    scan_of_Hit :
        (rest read : List Text) (k : ℕ)
        → k < length phrase
        → Longest phrase read k
        → Hit read rest
        → scan fail phrase rest k ≡ true
    unfolding scan
    scan_of_Hit [] read k less l hit =
        absurd
          (omega (arith, ap length hit.splits, hit.some_words, length-append hit.part hit.behind))
    scan_of_Hit (a ∷ rest) read k less l hit =
        let longer : Longest phrase (read ++ a ∷ []) (advance fail phrase a k) =
          step read a k less l in
        elim (Bool-cases (advance fail phrase a k == length phrase)) [
          | inl full ↦ rw full refl
          | inr no_ ↦ rw no_ (
              scan_of_Hit rest (read ++ a ∷ []) (advance fail phrase a k)
                (ground (
                  arith,
                  longer.ends.in_range,
                  nat_beq_iff (advance fail phrase a k) (length phrase),
                ))
                longer (shift read rest a _ longer no_ hit))
        ]

  Hit-Occurs : (words : List Text) → Hit [] words → Occurs phrase words
  Hit-Occurs words hit = record {
    front = hit.ends.front;
    back = hit.behind;
    joins =
        sym (append_assoc hit.ends.front phrase hit.behind)
        ∙ ap (λ r. (hit.ends.front ++ r) ++ hit.behind) (sym (take_all phrase))
        ∙ ap (λ r. r ++ hit.behind) hit.ends.joins
        ∙ hit.splits;
  }

  Occurs-Hit : (words : List Text) → Occurs phrase words → Hit [] words
  Occurs-Hit words o = record {
    part = o.front ++ phrase;
    behind = o.back;
    splits = append_assoc o.front phrase o.back ∙ o.joins;
    some_words = omega (arith, length-append o.front phrase);
    ends = record {
      front = o.front;
      joins = ap (λ r. o.front ++ r) (take_all phrase);
      in_range = omega arith;
    };
  }

  scan_iff :
      (words : List Text)
      → (scan (fill_table phrase xs 0 (0 ∷ [])) phrase words 0 ≡ true) ↔ Occurs phrase words
  scan_iff words = (
    λ found. Hit-Occurs words (scan-Hit _ filled words [] 0 (omega arith) empty found),
    λ o. scan_of_Hit _ filled words [] 0 (omega arith) empty (Occurs-Hit words o),
  )
    where
      empty : Longest phrase [] 0
      empty = record {
        ends = short-EndsWith phrase [];
        most = λ i e. length-EndsWith phrase [] i e;
      }

      one : IsTable x xs (0 ∷ [])
      one zero less = empty
      one (suc i) less = absurd (omega arith)

      filled : Filled (fill_table phrase xs 0 (0 ∷ []))
      filled = fill_table-Filled xs [] 0 (0 ∷ []) refl refl one empty

-- The search by the table of failures finds a phrase exactly when it stands in the words as a run of
-- consecutive ones; the empty phrase always does.
pub contains_run_iff : (words run : List Text) → (contains_run words run ≡ true) ↔ Occurs run words
unfolding contains_run
contains_run_iff words [] = (λ found. record { front = []; back = words; joins = refl }, λ o. refl)
contains_run_iff words (x ∷ xs) = elim (Bool-cases (ltb (length words) (length (x ∷ xs)))) [
  | inl shorter ↦ rw shorter (
    λ found. absurd (cc),
    λ o. absurd (
        omega (
          arith,
          ltb→lt (length words) (length (x ∷ xs)) shorter,
          ap length o.joins,
          length-append o.front ((x ∷ xs) ++ o.back),
          length-append (x ∷ xs) o.back,
        )),
  )
  | inr long ↦ rw long (scan_iff x xs words)
]
