-- ===== src/CallLog/Linked.antt =====
-- The chain of the entries, from the anchor to the last line that parses.
use persistence_memory.Prelude.{◌+◌, ◌≡◌, refl, ap, ◌∙◌, Option, none, some, List, [], ◌∷◌, ◌++◌}
use persistence_memory.Hash.{Sha256}
use persistence_memory.CallLog.State.{
  Entry, Line, whole, broken, DayFile, Head, Outcome, done, raised,
}
use persistence_memory.CallLog.Files.{
  head_of, or_earlier, last_valid, last_or_raise, last_line, or_before, newest_entry,
}
use persistence_memory.CallLog.Append.{Json, entry_hash_of}
use persistence_memory.CallLog.Days.{lines_of}

abbrev pub chain_end : Head → List Line → Head
chain_end p [] = p
chain_end p (broken ∷ ls) = chain_end p ls
chain_end p (whole e ∷ ls) = chain_end (head_of e) ls

pub chain_end-append :
    (p : Head) (xs ys : List Line) → chain_end p (xs ++ ys) ≡ chain_end (chain_end p xs) ys
chain_end-append p [] ys = refl
chain_end-append p (broken ∷ xs) ys = chain_end-append p xs ys
chain_end-append p (whole e ∷ xs) ys = chain_end-append (head_of e) xs ys

module _ (h : Sha256) (json : Json) where
  -- An entry that follows the head `p`.
  pub record Follows (p : Head) (e : Entry) : Type 0 where
    pub next_seq : e.seq ≡ p.seq + 1
    pub links : e.prev_hash ≡ p.entry_hash
    pub recomputes : e.entry_hash ≡ entry_hash_of h json e

  -- Every entry follows the one before it; lines that do not parse are passed over.
  abbrev pub Linked : Head → List Line → Type 0
  Linked p [] = Unit
  Linked p (broken ∷ ls) = Linked p ls
  Linked p (whole e ∷ ls) = Follows p e × Linked (head_of e) ls

  pub Linked-append :
      (p : Head) (xs ys : List Line)
      → Linked p xs
      → Linked (chain_end p xs) ys
      → Linked p (xs ++ ys)
  Linked-append p [] ys hx hy = hy
  Linked-append p (broken ∷ xs) ys hx hy = Linked-append p xs ys hx hy
  Linked-append p (whole e ∷ xs) ys hx hy = (hx.0, Linked-append (head_of e) xs ys hx.1 hy)

  pub Linked-rest :
      (p : Head) (xs ys : List Line) → Linked p (xs ++ ys) → Linked (chain_end p xs) ys
  Linked-rest p [] ys all = all
  Linked-rest p (broken ∷ xs) ys all = Linked-rest p xs ys all
  Linked-rest p (whole e ∷ xs) ys all = Linked-rest (head_of e) xs ys all.1

abbrev head_or : Head → Option Entry → Head
head_or p none = p
head_or p (some e) = head_of e

head_or-or_earlier :
    (p : Head) (e : Entry) (o : Option Entry) → head_or (head_of e) o ≡ head_or p (or_earlier o e)
head_or-or_earlier p e none = refl
head_or-or_earlier p e (some later) = refl

chain_end-last_valid : (p : Head) (ls : List Line) → chain_end p ls ≡ head_or p (last_valid ls)
chain_end-last_valid p [] = refl
chain_end-last_valid p (broken ∷ ls) = chain_end-last_valid p ls
chain_end-last_valid p (whole e ∷ ls) =
    chain_end-last_valid (head_of e) ls ∙ head_or-or_earlier p e (last_valid ls)

-- What `newest_entry` says about the lines of the files.
abbrev pub Newest : List Line → Outcome (Option Entry) → Type 0
Newest ls (raised e) = Unit
Newest ls (done none) = ls ≡ []
Newest ls (done (some e)) = (p : Head) → chain_end p ls ≡ head_of e

last_line-Newest : (f : DayFile) → Newest f.lines (last_line f)
unfolding last_line
last_line-Newest f = by f.lines (last_valid f.lines) (λ p. chain_end-last_valid p f.lines)
  where
    by :
        (ls : List Line) (o : Option Entry)
        → ((p : Head) → chain_end p ls ≡ head_or p o)
        → Newest ls (last_or_raise ls o)
    by ls (some e) ends = ends
    by [] none ends = refl
    by (l ∷ ls) none ends = tt

-- The newest entry is the end of the chain; there is none when there are no lines.
pub newest_entry-Newest : (fs : List DayFile) → Newest (lines_of fs) (newest_entry fs)
unfolding newest_entry
newest_entry-Newest [] = refl
newest_entry-Newest (f ∷ fs) =
    by (newest_entry fs) (last_line f) (newest_entry-Newest fs) (last_line-Newest f)
  where
    by :
        (later here : Outcome (Option Entry))
        → Newest (lines_of fs) later
        → Newest f.lines here
        → Newest (f.lines ++ lines_of fs) (or_before later here)
    by (raised e) here behind now = tt
    by (done (some e)) here behind now =
        λ p. chain_end-append p f.lines (lines_of fs) ∙ behind (chain_end p f.lines)
    by (done none) (raised e) behind now = tt
    by (done none) (done none) behind now = rw (now, behind) refl
    by (done none) (done (some e)) behind now = λ p.
        chain_end-append p f.lines (lines_of fs)
        ∙ ap (chain_end (chain_end p f.lines)) behind
        ∙ now p
