-- ===== src/CallLog/Files.antt =====
-- The files of the log (app/call_log.py): its head, appending a line, and retention.
use persistence_memory.Prelude.{
  ℕ, Bool, true, not, ◌||◌, Option, none, some, List, [], ◌∷◌, ◌++◌, codes, if◌then◌else◌, nat_eq,
  ◌==◌, ltb, leb, keep, length,
}
use persistence_memory.Replay.{genesis}
use persistence_memory.CallLog.State.{
  Entry, Line, whole, broken, DayFile, Head, World, Env, call_log_error, os_error, Outcome, done,
  raised, Action,
}

abbrev pub head_of : Entry → Head
head_of e = record { seq = e.seq; entry_hash = e.entry_hash }

-- `{"seq": 0, "entry_hash": GENESIS}`
unfoldable pub no_head : Head
no_head = record { seq = 0; entry_hash = genesis }

abbrev pub or_earlier : Option Entry → Entry → Option Entry
or_earlier none e = some e
or_earlier (some later) e = some later

-- The last line that parses.
abbrev pub last_valid : List Line → Option Entry
last_valid [] = none
last_valid (broken ∷ ls) = last_valid ls
last_valid (whole e ∷ ls) = or_earlier (last_valid ls) e

abbrev pub last_or_raise : List Line → Option Entry → Outcome (Option Entry)
last_or_raise ls (some e) = done (some e)
last_or_raise [] none = done none
last_or_raise (l ∷ ls) none =
    raised (call_log_error (codes "no valid entry in the tail; run verify"))

-- `_last_line`: a file that has lines, none of which parses, raises. The code reads the last 64 KB of
-- the file alone; here they are the whole file.
unfoldable pub last_line : DayFile → Outcome (Option Entry)
last_line f = last_or_raise f.lines (last_valid f.lines)

abbrev pub or_before : Outcome (Option Entry) → Outcome (Option Entry) → Outcome (Option Entry)
or_before (raised e) earlier = raised e
or_before (done (some e)) earlier = done (some e)
or_before (done none) earlier = earlier

-- `for p in reversed(files)`: the last entry of the newest file that has lines. Every file can be
-- read here; `_tail_lines` passes over one whose size cannot be had.
unfoldable pub newest_entry : List DayFile → Outcome (Option Entry)
newest_entry [] = done none
newest_entry (f ∷ fs) = or_before (newest_entry fs) (last_line f)

-- `anchor or GENESIS`
unfoldable pub start : Option Head → Head
start none = no_head
start (some anchor) = anchor

abbrev pub head_from : Option Head → Outcome (Option Entry) → Outcome Head
head_from anchor (raised e) = raised e
head_from anchor (done none) = done (start anchor)
head_from anchor (done (some e)) = done (head_of e)

-- `_head`
unfoldable pub read_head : Action Head
read_head w = (head_from w.anchor (newest_entry w.files), w)

-- The last line together with what is written behind it.
unfoldable pub break_last : List Line → List Line
break_last [] = []
break_last (l ∷ []) = broken ∷ []
break_last (l ∷ k ∷ ls) = l ∷ break_last (k ∷ ls)

-- `os.write(fd, torn_prefix + line)`: without a newline between them, the line and an unfinished
-- one before it are one line, which does not parse.
unfoldable pub put_line : Bool → Bool → Line → DayFile → DayFile
put_line prefix complete l f =
    if f.ended || prefix
    then record f { lines = f.lines ++ l ∷ []; ended = complete }
    else record f { lines = break_last f.lines; ended = complete }

-- `torn_prefix`: a crash left a partial line, so end it.
unfoldable pub torn_prefix : DayFile → Bool
torn_prefix f = not f.ended

unfoldable pub add_line : Bool → Line → DayFile → DayFile
add_line complete l f = put_line (torn_prefix f) complete l f

-- `path.open("ab")` of the file of `day`, which is made when it is missing, in the order of the days.
unfoldable pub with_day : ℕ → (DayFile → DayFile) → List DayFile → List DayFile
with_day day f [] = f (record { day = day; lines = []; ended = true }) ∷ []
with_day day f (file ∷ files) =
    let rest = with_day day f files in
    if file.day == day
    then f file ∷ files
    else if ltb day file.day
    then f (record { day = day; lines = []; ended = true }) ∷ file ∷ files
    else file ∷ rest

abbrev pub is_old : ℕ → DayFile → Bool
is_old cutoff f = ltb f.day cutoff

abbrev pub recent : ℕ → DayFile → Bool
recent cutoff f = not (is_old cutoff f)

abbrev pub anchor_at : Option Entry → World → World
anchor_at none w = w
anchor_at (some e) w = record w { anchor = some (head_of e) }

-- `_rotate_and_retain` once the last entry of the files to delete is known.
unfoldable pub drop_old : Env → Outcome (Option Entry) → Action (Unit {0})
drop_old env (raised e) w = (raised e, w)
drop_old env (done last) w =
    if env.removable
    then (done tt, record (anchor_at last w) { files = keep (recent env.cutoff) w.files })
    else (raised (os_error env.os_message), anchor_at last w)

-- `_rotate_and_retain`: whole files older than the window are deleted, never all of them.
unfoldable pub rotate_and_retain : Env → Action (Unit {0})
rotate_and_retain env w =
    let old = keep (is_old env.cutoff) w.files in
    if length old == 0 || leb (length w.files) (length old)
    then (done tt, w)
    else drop_old env (newest_entry old) w
