-- ===== src/Replay/Fields.antt =====
-- What a row hash of app/replay.py fixes of its entry, where _check_entry_hash finds no problem.
use persistence_memory.Prelude.{text_eq, nat_eq, ◌≡◌, ◌∷◌, ◌++◌, Text, Without}
use persistence_memory.Replay.State.{Entry, entry_text, or_empty}

-- The same previous hash, operation and version, and the same text of what stood before and what
-- stands after.
abbrev pub SameFields : Entry → Entry → Type 0
SameFields e f =
    (e.prev_hash ≡ f.prev_hash)
    × (e.op ≡ f.op)
    × (e.version ≡ f.version)
    × (or_empty e.before_text ++ b'|' ∷ or_empty e.after_text
        ≡ or_empty f.before_text ++ b'|' ∷ or_empty f.after_text)

-- What the row hash of an entry is taken over.
abbrev pub text_of : Entry → Text
text_of e = entry_text e.prev_hash e.op e.version e.before_text e.after_text

-- No separator stands in the previous hash or in the operation, as in those the code writes.
abbrev pub NoBar : Entry → Type 0
NoBar e = Without b'|' e.prev_hash × Without b'|' e.op
