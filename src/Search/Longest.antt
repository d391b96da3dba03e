-- ===== src/Search/Longest.antt =====
-- The longest prefix of a phrase with which a text ends, and how one more word changes it.
use persistence_memory.Prelude.{
  ℕ, zero, suc, ◌≤◌, ◌<◌, ◌≡◌, refl, sym, ap, ◌∙◌, subst, ◌⊎◌, inl, inr, true, false, List, [], ◌∷◌,
  ◌++◌, arith, length, take, length-append, length-take, cons-injective, Text, text_eq, nat_eq,
  Bool-cases, if◌then◌else◌, ltb, ltb→lt, nat_beq, nat_beq_iff,
}
use mathlib.Core.List.{append_assoc, append-nil}
use persistence_memory.Search.Kmp.{is_at, nth, fall, advance}

-- `text` ends with the first `k` words of `run`.
pub record EndsWith (run text : List Text) (k : ℕ) : Type 0 where
  pub front : List Text
  pub joins : front ++ take k run ≡ text
  pub in_range : k ≤ length run

snoc-injective :
    (xs ys : List Text) (a b : Text) → xs ++ a ∷ [] ≡ ys ++ b ∷ [] → (xs ≡ ys) × (a ≡ b)
snoc-injective [] [] a b same = ground (arith, same)
snoc-injective [] (y ∷ []) a b same = ground (arith, same)
snoc-injective [] (y ∷ z ∷ ys) a b same = ground (arith, same)
snoc-injective (x ∷ []) [] a b same = ground (arith, same)
snoc-injective (x ∷ z ∷ xs) [] a b same = ground (arith, same)
snoc-injective (x ∷ xs) (y ∷ ys) a b same = ground (arith, same, snoc-injective xs ys a b)

-- One more word of the phrase.
take-suc :
    (run : List Text) (k : ℕ) (a : Text)
    → is_at run k a ≡ true
    → take (suc k) run ≡ take k run ++ a ∷ []
take-suc [] k a here = absurd (cc)
take-suc (x ∷ xs) zero a here = ground (arith, text_eq.equal_iff a x)
take-suc (x ∷ xs) (suc k) a here = ap (λ r. x ∷ r) (take-suc xs k a here)

is_at-length : (run : List Text) (k : ℕ) (a : Text) → is_at run k a ≡ true → k < length run
is_at-length [] k a here = absurd (cc)
is_at-length (x ∷ xs) zero a here = omega arith
is_at-length (x ∷ xs) (suc k) a here = omega (arith, is_at-length xs k a here)

last_word : (run : List Text) (k : ℕ) → k < length run → (a : Text) × (is_at run k a ≡ true)
last_word [] k more = absurd (omega arith)
last_word (x ∷ xs) zero more = (x, ground (arith, text_eq.equal_iff x x))
last_word (x ∷ xs) (suc k) more = last_word xs k (omega arith)

pub more-EndsWith :
    (run text : List Text) (k : ℕ) (a : Text)
    → EndsWith run text k
    → is_at run k a ≡ true
    → EndsWith run (text ++ a ∷ []) (suc k)
more-EndsWith run text k a e here = record {
  front = e.front;
  joins =
      ap (λ r. e.front ++ r) (take-suc run k a here)
      ∙ sym (append_assoc e.front (take k run) (a ∷ []))
      ∙ ap (λ r. r ++ a ∷ []) e.joins;
  in_range = omega (arith, is_at-length run k a here);
}

record Shorter (run text : List Text) (k : ℕ) (a : Text) : Type 0 where
  ends : EndsWith run text k
  word : is_at run k a ≡ true

less-EndsWith :
    (run text : List Text) (k : ℕ) (a : Text)
    → EndsWith run (text ++ a ∷ []) (suc k)
    → Shorter run text k a
less-EndsWith run text k a e =
    let (b, here) = last_word run k (omega (arith, e.in_range)) in
    let (same, word) = snoc-injective (e.front ++ take k run) text b a (
      append_assoc e.front (take k run) (b ∷ [])
      ∙ ap (λ r. e.front ++ r) (sym (take-suc run k b here))
      ∙ e.joins) in
    record {
      ends = record { front = e.front; joins = same; in_range = omega (arith, e.in_range) };
      word = subst (λ c. is_at run k c ≡ true) word here;
    }

-- Of two ends of one text, the shorter is an end of the longer.
nested :
    (f g x y : List Text) → f ++ x ≡ g ++ y → length x ≤ length y → (d : List Text) × (d ++ x ≡ y)
nested f [] x y same less = (f, same)
nested [] (c ∷ g) x y same less = absurd (omega (arith, ap length same, length-append g y))
nested (b ∷ f) (c ∷ g) x y same less = nested f g x y (cons-injective b c _ _ same).1 less

pub short-EndsWith : (run text : List Text) → EndsWith run text 0
short-EndsWith run text = record { front = text; joins = append-nil text; in_range = omega arith }

pub length-EndsWith : (run text : List Text) (k : ℕ) → EndsWith run text k → k ≤ length text
length-EndsWith run text k e =
    omega
      (arith, e.in_range, ap length e.joins, length-append e.front (take k run), length-take k run)

-- `k` is the most words of `run` with which `text` ends.
pub record Longest (run text : List Text) (k : ℕ) : Type 0 where
  pub ends : EndsWith run text k
  pub most : (i : ℕ) → EndsWith run text i → i ≤ k

module _ (x : Text) (xs : List Text) where
  abbrev run : List Text
  run = x ∷ xs

  -- The table gives for each length of the phrase's beginning its longest border.
  abbrev pub IsTable : List ℕ → Type 0
  IsTable fail = (i : ℕ) → i < length fail → Longest run (take i xs) (nth fail i)

  -- An end of `text` that is shorter than another is an end of that other's, but for its first word.
  border :
      (text : List Text) (i k : ℕ)
      → EndsWith run text i
      → EndsWith run text (suc k)
      → i < suc k
      → EndsWith run (take k xs) i
  border text i k e long less = by (
      nested e.front long.front (take i run) (take (suc k) run) (e.joins ∙ sym long.joins)
        (omega (arith, length-take i run, length-take (suc k) run, e.in_range, long.in_range)))
    where
      by : (d : List Text) × (d ++ take i run ≡ x ∷ take k xs) → EndsWith run (take k xs) i
      by ([], same) = absurd (
          omega
            (arith, ap length same, length-take i run, length-take k xs, e.in_range, long.in_range))
      by (c ∷ d, same) = record {
        front = d;
        joins = (cons-injective c x _ _ same).1;
        in_range = e.in_range;
      }

  inner :
      (text : List Text) (i k : ℕ)
      → EndsWith run text (suc k)
      → EndsWith run (take k xs) i
      → EndsWith run text i
  inner text i k long e = record {
    front = long.front ++ x ∷ e.front;
    joins =
        append_assoc long.front (x ∷ e.front) (take i run)
        ∙ ap (λ r. long.front ++ x ∷ r) e.joins
        ∙ long.joins;
    in_range = e.in_range;
  }

  -- Where `fall` stops: an end of the text, behind which `a` goes on the phrase if it can, and no
  -- longer end goes on.
  record Stops (text : List Text) (a : Text) (j : ℕ) : Type 0 where
    ends : EndsWith run text j
    none_longer : (i : ℕ) → EndsWith run text i → j < i → is_at run i a ≡ false
    at_end : (j ≡ 0) ⊎ (is_at run j a ≡ true)

  fall-Stops :
      (fuel : ℕ) (fail : List ℕ) (text : List Text) (a : Text) (k : ℕ)
      → IsTable fail
      → k ≤ fuel
      → k ≤ length fail
      → EndsWith run text k
      → ((i : ℕ) → EndsWith run text i → k < i → is_at run i a ≡ false)
      → Stops text a (fall fuel fail run a k)
  unfolding fall
  fall-Stops zero fail text a k table enough known ends none_longer = record {
    ends = ends;
    none_longer = none_longer;
    at_end = inl (omega arith);
  }
  fall-Stops (suc fuel) fail text a zero table enough known ends none_longer = record {
    ends = ends;
    none_longer = none_longer;
    at_end = inl refl;
  }
  fall-Stops (suc fuel) fail text a (suc k) table enough known ends none_longer =
      elim (Bool-cases (is_at xs k a)) [
        | inl here ↦ rw here (record { ends = ends; none_longer = none_longer; at_end = inr here })
        | inr no_ ↦ rw no_ (
            let l : Longest run (take k xs) (nth fail k) = table k (omega arith) in
            let short : nth fail k ≤ k =
              omega
                (arith, length-EndsWith run (take k xs) (nth fail k) l.ends, length-take k xs) in
            fall-Stops fuel fail text a (nth fail k) table (omega (arith, short))
              (omega (arith, short)) (inner text (nth fail k) k ends l.ends)
              (λ i e more. between i e no_ l.most more))
      ]
    where
      between :
          (i : ℕ)
          → EndsWith run text i
          → is_at xs k a ≡ false
          → ((j : ℕ) → EndsWith run (take k xs) j → j ≤ nth fail k)
          → nth fail k < i
          → is_at run i a ≡ false
      between i e no_ most more = elim (Bool-cases (ltb i (suc k))) [
        | inl below ↦ absurd (
            let lt : i < suc k = ltb→lt i (suc k) below in
            omega (arith, more, most i (border text i k e ends lt)))
        | inr not_below ↦ elim (Bool-cases (nat_beq i (suc k))) [
          | inl same ↦ rw ((nat_beq_iff i (suc k)).0 same) no_
          | inr other ↦ none_longer i e (ground (arith, nat_beq_iff i (suc k)))
        ]
      ]

  -- One step of the search takes the longest end of a text to that of the text and one more word.
  pub advance-Longest :
      (fail : List ℕ) (text : List Text) (a : Text) (k : ℕ)
      → IsTable fail
      → k ≤ length fail
      → Longest run text k
      → Longest run (text ++ a ∷ []) (advance fail run a k)
  unfolding advance
  advance-Longest fail text a k table known l = by (fall k fail run a k) (
      fall-Stops k fail text a k table (omega arith) known l.ends
        (λ i e more. absurd (omega (arith, more, l.most i e))))
    where
      bounded : (j : ℕ) → Stops text a j → (i : ℕ) → Shorter run text i a → i ≤ j
      bounded j s i shorter = elim (Bool-cases (ltb j i)) [
        | inl more ↦ absurd (
            let never : is_at run i a ≡ false = s.none_longer i shorter.ends (ltb→lt j i more) in
            let here : is_at run i a ≡ true = shorter.word in cc)
        | inr no_ ↦ ground arith
      ]

      grown :
          (j : ℕ)
          → Stops text a j
          → is_at run j a ≡ true
          → (i : ℕ) → EndsWith run (text ++ a ∷ []) i
          → i ≤ suc j
      grown j s here zero e = omega arith
      grown j s here (suc i) e = omega (arith, bounded j s i (less-EndsWith run text i a e))

      reset :
          (j : ℕ)
          → Stops text a j
          → is_at run j a ≡ false
          → j ≡ 0
          → (i : ℕ) → EndsWith run (text ++ a ∷ []) i
          → i ≤ j
      reset j s no_ start zero e = omega arith
      reset j s no_ start (suc i) e =
          let shorter : Shorter run text i a = less-EndsWith run text i a e in
          let same : i ≡ j = omega (arith, bounded j s i shorter, start) in
          absurd (
            let here : is_at run j a ≡ true = subst (λ n. is_at run n a ≡ true) same shorter.word in
            cc)

      by :
          (j : ℕ)
          → Stops text a j
          → Longest run (text ++ a ∷ []) (if is_at run j a then suc j else j)
      by j s = elim (Bool-cases (is_at run j a)) [
        | inl here ↦
            rw here
              (record { ends = more-EndsWith run text j a s.ends here; most = grown j s here })
        | inr no_ ↦ rw no_ (
            let start : j ≡ 0 = elim s.at_end [ inl zero_ ↦ zero_ | inr here ↦ absurd (cc) ] in
            record {
              ends =
                  subst (EndsWith run (text ++ a ∷ [])) (sym start)
                    (short-EndsWith run (text ++ a ∷ []));
              most = reset j s no_ start;
            })
      ]
