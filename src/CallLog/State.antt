-- ===== src/CallLog/State.antt =====
-- The state of a `CallLog` (app/call_log.py): the daily files, the anchor and the DEGRADED file of
-- its directory, what one process keeps in memory, and the calls that read or change it or raise.
use persistence_memory.Prelude.{ℕ, Bool, true, false, Option, List, Text, Dict}

-- A summary of suppressed calls: `window_start`, `window_end` and `count`.
pub record Window : Type 0 where
  pub window_start : Text
  pub window_end : Text
  pub count : ℕ

-- The fields of a call that its caller gives, and those of a summary or a gap. The client is always
-- self-reported, so `client_self_reported` is left out.
pub record Fields : Type 0 where
  pub transport : Text
  pub client_name : Option Text
  pub client_version : Option Text
  pub tenant : Text
  pub tool : Text
  pub route : Option Text
  pub method : Option Text
  pub target : Option Text
  pub args_sha256 : Text
  pub outcome : Text
  pub error_code : Option Text
  pub status_code : Option ℕ
  pub result_digest : Option Text
  pub duration_ms : ℕ
  pub window : Option Window
  pub refused : Option ℕ

pub record Entry : Type 0 where
  pub seq : ℕ
  pub ts : Text
  pub prev_hash : Text
  pub fields : Fields
  pub entry_hash : Text

-- A line of a file that is not blank: an entry, or text that does not parse as one.
pub data Line : Type 0 where
  whole : Entry → Line
  broken : Line

-- A daily file. `ended` says that its last line has its newline.
pub record DayFile : Type 0 where
  pub day : ℕ
  pub lines : List Line
  pub ended : Bool

-- `seq` and `entry_hash` of the last entry.
pub record Head : Type 0 where
  pub seq : ℕ
  pub entry_hash : Text

-- The outage state, in the DEGRADED file and in `_outage`.
pub record Outage : Type 0 where
  pub since : Text
  pub unlogged : ℕ
  pub refused : ℕ
  pub last_error : Text

-- How an attempt to write a line ends: all is written; the file does not open; it opens and
-- nothing is written; a part or all of the line is written and then a call raises; or `os.write`
-- returns after a part of the line.
pub data Write : Type 0 where
  written unopened unwritten torn unsynced short : Write

pub record World : Type 0 where
  pub files : List DayFile
  pub anchor : Option Head
  pub file_state : Option Outage
  pub outage : Option Outage
  pub suppressed : Option Window
  pub denied_window : Text × ℕ
  pub read_suppressed : Dict (Text × Text) Window
  pub read_window : Text × Dict Text ℕ
  pub writes : List Write  -- how the next writes end; `written` once the list is empty

-- What an operation reads from its surroundings: the clock, the settings, and whether the lock, the
-- DEGRADED file and the directory can be used.
pub record Env : Type 0 where
  pub ts : Text
  pub minute : Text
  pub today : ℕ
  pub cutoff : ℕ
  pub denied_cap : ℕ
  pub read_cap : ℕ
  pub default_tenant : Text
  pub lockable : Bool
  pub markable : Bool
  pub clearable : Bool
  pub removable : Bool
  pub dir_writable : Bool
  pub today_writable : Bool
  pub readable : ℕ → Bool  -- `verify` can read the file of a day
  pub has_space : Bool
  pub os_message : Text

-- `CallLogError` and `OSError`, with their messages.
pub data LogError : Type 0 where
  call_log_error : Text → LogError
  os_error : Text → LogError

-- A call returns or raises, and what it changed before stays changed.
pub data Outcome (A : Type 0) : Type 0 where
  done : A → Outcome A
  raised : LogError → Outcome A

abbrev pub Action : Type 0 → Type 0
Action A = World → Outcome A × World

abbrev pub continue : {A B : Type 0} → (A → Action B) → Outcome A × World → Outcome B × World
continue k (done a, w) = k a w
continue k (raised e, w) = (raised e, w)

infixl 5 ◌>>=◌ ◌>>◌
abbrev pub ◌>>=◌ : {A B : Type 0} → Action A → (A → Action B) → Action B
(m >>= k) w = continue k (m w)

abbrev pub ◌>>◌ : {A B : Type 0} → Action A → Action B → Action B
m >> k = m >>= λ _. k

abbrev pub return : {A : Type 0} → A → Action A
return a w = (done a, w)

abbrev pub raise : {A : Type 0} → LogError → Action A
raise e w = (raised e, w)

abbrev pub modify : (World → World) → Action (Unit {0})
modify f w = (done tt, f w)

-- `if not test: raise e`
abbrev pub need : Bool → LogError → Action (Unit {0})
need true e = return tt
need false e = raise e
