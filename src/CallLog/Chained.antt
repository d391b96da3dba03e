-- ===== src/CallLog/Chained.antt =====
-- Every operation of the log keeps the chain, whichever of its writes fail.
use persistence_memory.Prelude.{
  ℕ, ◌≤◌, ◌≡◌, refl, sym, ap, ◌∙◌, subst, inl, inr, Bool, true, false, ◌||◌, Option, none, some,
  List, [], ◌∷◌, ◌++◌, arith, text_eq, nat_eq, ◌==◌, Bool-cases, All, keep, leb, length,
}
use persistence_memory.Hash.{Sha256}
use persistence_memory.CallLog.State.{
  Fields, Entry, Line, whole, broken, DayFile, Head, Write, written, unopened, unwritten, torn,
  unsynced, short, World, Env, Outcome, done, raised,
}
use persistence_memory.CallLog.Files.{
  head_of, start, newest_entry, head_from, read_head, add_line, with_day, is_old, recent, drop_old,
  rotate_and_retain,
}
use persistence_memory.CallLog.Append.{
  Json, entry_hash_of, next_write, later_writes, write_line, take_write, next_entry, append_locked,
}
use persistence_memory.CallLog.Steps.{Ends, >>=-Ends}
use persistence_memory.CallLog.Days.{
  lines_of, InOrder, NotAfter, Adds, add_line-Adds, id-Adds, lines_of-with_day, with_day-All,
  with_day-InOrder, keep-All, keep-InOrder, old_then_recent,
}
use persistence_memory.CallLog.Linked.{
  chain_end, chain_end-append, Follows, Linked, Linked-append, Linked-rest, Newest,
  newest_entry-Newest,
}

abbrev pub is_short : Write → Bool
is_short short = true
is_short o = false

abbrev pub NoShort : List Write → Type 0
NoShort = All (λ o. is_short o ≡ false)

pub next_write-NoShort : (os : List Write) → NoShort os → is_short (next_write os) ≡ false
next_write-NoShort [] all = refl
next_write-NoShort (o ∷ os) all = all.0

pub later_writes-NoShort : (os : List Write) → NoShort os → NoShort (later_writes os)
later_writes-NoShort [] all = tt
later_writes-NoShort (o ∷ os) all = all.1

abbrev pub tip_of : Option Head → List DayFile → Head
tip_of anchor files = chain_end (start anchor) (lines_of files)

-- The head of the chain that the directory holds.
abbrev pub tip : World → Head
tip w = tip_of w.anchor w.files

module _ (h : Sha256) (json : Json) where
  pub record Chained (today : ℕ) (files : List DayFile) (anchor : Option Head) (writes : List Write)
      : Type 0 where
    pub in_order : InOrder files
    pub not_after : NotAfter today files
    pub linked : Linked h json (start anchor) (lines_of files)
    pub no_short : NoShort writes

  -- The files stand in order up to today, and their entries are one chain from the anchor.
  abbrev pub IsChained : ℕ → World → Type 0
  IsChained today w = Chained today w.files w.anchor w.writes

  record Grown (today : ℕ) (w : World) (files : List DayFile) (new : List Line) : Type 0 where
    is_chained : Chained today files w.anchor w.writes
    new_tip : tip_of w.anchor files ≡ chain_end (tip w) new

  grow :
      (today : ℕ) (change : DayFile → DayFile) (new : List Line)
      → Adds change new
      → (w : World) → IsChained today w
      → Linked h json (tip w) new
      → Grown today w (with_day today change w.files) new
  grow today change new adds w sound links =
      let lines : lines_of (with_day today change w.files) ≡ lines_of w.files ++ new =
        lines_of-with_day today change new adds w.files sound.in_order sound.not_after in
      record {
        is_chained = record {
          in_order = with_day-InOrder today change new adds w.files sound.in_order sound.not_after;
          not_after =
              with_day-All today change new adds (λ d. d ≤ today) w.files (omega arith)
                sound.not_after;
          linked =
              subst (Linked h json (start w.anchor)) (sym lines)
                (Linked-append h json (start w.anchor) (lines_of w.files) new sound.linked links);
          no_short = sound.no_short;
        };
        new_tip =
            ap (chain_end (start w.anchor)) lines
            ∙ chain_end-append (start w.anchor) (lines_of w.files) new;
      }

  module _ (env : Env) (removes : env.removable ≡ true) where
    abbrev pub Kept : World → Type 0
    Kept = IsChained env.today

    -- The chain holds, and `head` is its end.
    abbrev pub AtTip : Head → World → Type 0
    AtTip head w = Kept w × (head ≡ tip w)

    abbrev pub Leads : Outcome Head × World → Type 0
    Leads = Ends AtTip Kept

    abbrev pub Keeps : {A : Type 0} → Outcome A × World → Type 0
    Keeps = Ends (λ _. Kept) Kept

    next_entry-Follows :
        (f : Fields) (head : Head) → Follows h json head (next_entry h json env f head)
    unfolding next_entry entry_hash_of
    next_entry-Follows f head = record { next_seq = refl; links = refl; recomputes = refl }

    write_line-AtTip :
        (f : Fields) (head : Head) (w : World) (o : Write)
        → AtTip head w
        → is_short o ≡ false
        → Ends (λ e. AtTip (head_of e)) Kept (write_line env (next_entry h json env f head) o w)
    unfolding write_line
    write_line-AtTip f head w o (sound, here) whole_or_none = by o whole_or_none
      where
        e : Entry
        e = next_entry h json env f head

        after :
            Grown env.today w (with_day env.today (add_line true (whole e)) w.files) (whole e ∷ [])
        after =
            grow env.today _ _ (add_line-Adds true (whole e)) w sound
              (subst (λ p. Follows h json p e) here (next_entry-Follows f head), tt)

        by :
            (p : Write)
            → is_short p ≡ false
            → Ends (λ d. AtTip (head_of d)) Kept (write_line env e p w)
        by written ok_ = (after.is_chained, sym after.new_tip)
        by unopened ok_ = sound
        by unwritten ok_ = (grow env.today _ _ id-Adds w sound tt).is_chained
        by torn ok_ = (grow env.today _ _ (add_line-Adds false broken) w sound tt).is_chained
        by unsynced ok_ = after.is_chained
        by short ok_ = absurd (cc)

    take_write-AtTip :
        (f : Fields) (head : Head) (w : World)
        → AtTip head w
        → Ends (λ e. AtTip (head_of e)) Kept (take_write env (next_entry h json env f head) w)
    unfolding take_write
    take_write-AtTip f head w (sound, here) =
        write_line-AtTip f head (record w { writes = later_writes w.writes }) (next_write w.writes)
          (
            record {
              in_order = sound.in_order;
              not_after = sound.not_after;
              linked = sound.linked;
              no_short = later_writes-NoShort w.writes sound.no_short;
            },
            here,
          )
          (next_write-NoShort w.writes sound.no_short)

    -- Retention moves the anchor to the last deleted entry, so the chain goes on from it.
    rotate_and_retain-AtTip :
        (head : Head) (w : World)
        → AtTip head w
        → Ends (λ _. AtTip head) Kept (rotate_and_retain env w)
    unfolding rotate_and_retain drop_old start
    rotate_and_retain-AtTip head w (sound, here) =
        elim (Bool-cases (
          length (keep (is_old env.cutoff) w.files) == 0
          || leb (length w.files) (length (keep (is_old env.cutoff) w.files)))) [
            | inl stays ↦ rw stays (sound, here)
            | inr goes ↦ rw goes (dropped (newest_entry old) (newest_entry-Newest old))
          ]
      where
        old : List DayFile
        old = keep (is_old env.cutoff) w.files

        left : List DayFile
        left = keep (recent env.cutoff) w.files

        ends_old :
            (p : Head)
            → chain_end (start w.anchor) (lines_of old) ≡ p
            → tip w ≡ chain_end p (lines_of left)
        ends_old p ends =
            ap (chain_end (start w.anchor))
              (sym (old_then_recent env.cutoff w.files sound.in_order))
            ∙ chain_end-append (start w.anchor) (lines_of old) (lines_of left)
            ∙ ap (λ q. chain_end q (lines_of left)) ends

        cut :
            (anchor : Option Head)
            → chain_end (start w.anchor) (lines_of old) ≡ start anchor
            → Chained env.today left anchor w.writes × (head ≡ tip_of anchor left)
        cut anchor ends = (
          record {
            in_order = keep-InOrder (recent env.cutoff) w.files sound.in_order;
            not_after =
                keep-All (λ f. f.day ≤ env.today) (recent env.cutoff) w.files sound.not_after;
            linked =
                subst (λ p. Linked h json p (lines_of left)) ends
                  (Linked-rest h json (start w.anchor) (lines_of old) (lines_of left) (
                    subst (Linked h json (start w.anchor))
                      (sym (old_then_recent env.cutoff w.files sound.in_order)) sound.linked));
            no_short = sound.no_short;
          },
          here ∙ ends_old (start anchor) ends,
        )

        dropped :
            (o : Outcome (Option Entry))
            → Newest (lines_of old) o
            → Ends (λ _. AtTip head) Kept (drop_old env o w)
        dropped (raised e) newest = sound
        dropped (done none) newest =
            rw removes (cut w.anchor (ap (chain_end (start w.anchor)) newest))
        dropped (done (some e)) newest =
            rw removes (cut (some (head_of e)) (newest (start w.anchor)))

    pub append_locked-AtTip :
        (f : Fields) (head : Head) (w : World)
        → AtTip head w
        → Ends (λ e. AtTip (head_of e)) Kept (append_locked h json env f head w)
    unfolding append_locked
    append_locked-AtTip f head w at =
        >>=-Ends (λ _. AtTip head) (λ e. AtTip (head_of e)) Kept (rotate_and_retain env)
          (λ _. take_write env (next_entry h json env f head)) w (rotate_and_retain-AtTip head w at)
          (λ _. take_write-AtTip f head)

    -- `_head` is the end of the chain.
    pub read_head-AtTip : (w : World) → Kept w → Leads (read_head w)
    unfolding read_head
    read_head-AtTip w sound = by (newest_entry w.files) (newest_entry-Newest w.files)
      where
        by :
            (o : Outcome (Option Entry))
            → Newest (lines_of w.files) o
            → Leads (head_from w.anchor o, w)
        by (raised e) newest = sound
        by (done none) newest = (sound, sym (ap (chain_end (start w.anchor)) newest))
        by (done (some e)) newest = (sound, sym (newest (start w.anchor)))
