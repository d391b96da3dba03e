-- ===== src/Lib.antt =====
-- The Continuity Ledger of this repository: records that agents write, a hash chain over their
-- history, blocks that seal it, and signatures that attest the blocks. This library models the
-- parts of app/ that decide what is stored, what a ledger's hashes bind, and what counts as
-- signed, and proves what they promise.
--
-- The parts, and the files that model them:
-- - app/blocks.py: Blocks/Hashing has _check_hex64, leaf_hash, node_hash, _mth, merkle_tree_hash,
--   merkle_root and block_hash under their names. Blocks/Split, Blocks/Tree and Blocks/Binding
--   hold the proofs.
-- - app/replay.py: Replay/State has the history entries, fold_state, state_root and
--   entry_row_hash; Replay/Checks has the checks _check_seq, _check_entry_hash, _check_chain_link,
--   _check_state_root, _check_live_match and _check_expected_block over rows that have been read,
--   and resolve_at_seq.
-- - app/pg_verify.py: PgVerify has _block_problems, the recomputation of the sealed blocks, over
--   the rows of the table and a function that gives the row hashes of a range of the history.
-- - app/attest.py: Attest/Wire has the OpenSSH formats and verify_sshsig; Attest/Messages the
--   texts that are signed and hashed; Attest/Trust has evaluate_trust and _apply_statement;
--   Attest/Log and Attest/Evaluate have _check_subject, evaluate_attestations and
--   attestation_level; Attest/Report has verify_tenant and signature_report over the rows that
--   have been read.
-- - app/models.py, app/evidence.py, app/clause_v.py, app/continuity.py: Models, Evidence, ClauseV
--   and Continuity.
-- - app/store.py: Store has create_memory, update_memory and delete_memory of JarvisStore, which
--   call check_links of Evidence, then the gate of ClauseV, then change the memory and save.
--   Store/Listing has list_memories and memory_matches_query, Store/Listing/Newest and
--   Store/Listing/Mentions what they list.
-- - app/witness.py: Witness has check_tenant, verify_export and the state that write_state keeps;
--   the check is evaluate_trust and evaluate_attestations of Attest on the exported rows.
-- - app/call_log.py: CallLog/State has the state of a CallLog, its directory and one process;
--   CallLog/Files _head, _last_line and _rotate_and_retain; CallLog/Append _append_locked, the gap
--   entry and the two flushes; CallLog/Calls and CallLog/Record append, record, preflight, flush
--   and flush_for_shutdown; CallLog/Verify verify. CallLog/Runs has the logs that these leave
--   behind, and CallLog/Shutdown what an exit leaves on the disk.
-- - list_latest of app/store.py and app/emr_latest.py: Latest/Rows, Latest/Cursor and
--   Latest/Service, which has latest_memories and a client that follows its cursors.
-- - app/ledger_search.py: Search/Kmp has _contains_run; Search/Service has query_tokens, score and
--   search_ledger, which reads its candidates by list_latest.
-- - app/identity.py and get_store of app/store.py: Tenancy has the principal and the tenant of a
--   request, and the store that serves it.
--
-- How the code is read. A text is the list of its UTF-8 bytes, numbers are natural numbers, a dict
-- is an association list in insertion order, and code that may raise returns a Result. A loop over
-- rows is a recursion on the list of rows, with the loop's variables as its state. The tree hash
-- _mth recurs on fuel, the number of hashes: both halves of a list are shorter than it. A message
-- that only a reader sees (the text of a problem, of a reason or of an exception) is a
-- constructor.
--
-- The call log is explicit state: an operation goes from a state to a value or an exception and a
-- state, and what it changed before it raised stays changed. How each write of a line ends is read
-- from a list in the state (all of it, none, a part of it, with or without an exception), so that
-- a theorem over all states is one over all failures. An operation holds the lock from its
-- beginning to its end and reads the clock once. The search for the last entry (_tail_lines) can
-- read every file of the log; that a stat or a read of one fails is not modelled there. verify has
-- a test of which files it can read, and reports the others. What a process holds in memory (an
-- outage that could not be marked, the open summaries) is gone when it exits. The loop of the
-- phrase search recurs on fuel, the length that matched so far: each round makes it smaller. The
-- loop of the key derivation has a round of fuel for each byte asked for. The client of
-- latest_memories has as fuel the number of pages it may ask for; as many as there are records are
-- enough.
--
-- What the code takes from elsewhere is a parameter: SHA-256 is a function to 32 bytes of which
-- nothing else is assumed, so that results about hashes say "or these collide", of two different
-- messages, one among those that the first computation hashes and one among those of the second;
-- base64, SHA-512 and the check of an Ed25519 signature are functions without laws; so are the
-- three regular expressions of the gate, the JSON texts of the call log, the resolver of evidence
-- objects, and, for the store, the clock, the fresh id and whether the file can be replaced. The
-- parsing of timestamps (app/ts.py, over datetime) is one too, of which nothing is asked about an
-- instant that stands in no record: datetime ends with the year 9999. That the JSON and the base64
-- of a cursor read back as they were written are laws of their parameter. Prelude holds what the
-- parts share: lists, texts, dicts, results and sorting. Tests holds runs on small inputs, with a
-- toy hash and toy signatures.
--
-- Digits are those of ASCII: str.isdigit, which the subject of a checkpoint is tested with, also
-- holds of other digits, of which int refuses some.
--
-- Not modelled: the pages of the call log (query and its snapshots) and the settings, names and
-- bytes of its files; the summary line of a record and the ledger head of a reply; SQL (the rows
-- that a query returns are arguments), HTTP, the environment beyond the settings named above, the
-- ssh-keygen fallback of verify_sshsig, threads (the store's lock makes an operation one step),
-- and the retrieval, evaluation and language-model parts of app/, which compute with floating-
-- point scores or call services.
pub mod Prelude
pub mod Hash
pub mod Blocks
pub mod Replay
pub mod PgVerify
pub mod Attest
pub mod Witness
pub mod Models
pub mod Evidence
pub mod ClauseV
pub mod Continuity
pub mod Store
pub mod Tenancy
pub mod CallLog
pub mod Latest
pub mod Search
pub mod Tests
