-- ===== src/Supervision.antt =====
-- automation/jobs/agent-supervision.py: the sessions that a tick sees, what it remembers of them, the
-- phase of a session, and the world that a tick reads and writes.
pub mod Acts
pub mod Parse
pub mod Lead
pub mod Transcript
pub mod Detect
pub mod Tick
pub mod Sources
pub mod Spec
pub mod Follows
pub mod Room
pub mod Refines
use Prim.Native.Nat.{ℕ, ◌-◌, ◌*◌}
use hngh.Prelude.{
  ℤ, Option, none, some, List, Bool, true, false, not, ◌&&◌, ◌==◌, ltb, if◌then◌else◌,
}
use hngh.Texts.{Text}
use hngh.ReportQueue.{Clock, World as Queue}

-- The constants; the times are in seconds.
abbrev pub stall_tool : ℕ
stall_tool = 20 * 60

abbrev pub stall_quiet : ℕ
stall_quiet = 15 * 60

abbrev pub max_tracked_age : ℕ
max_tracked_age = 21600

abbrev pub active_age : ℕ
active_age = 600

abbrev pub state_cap : ℕ
state_cap = 100

pub data Phase : Type 0 where
  evicted terminal discovering stalled writing verifying : Phase

-- `sup_state`
pub data Status : Type 0 where
  evicted terminal looping stalled slow_valid active : Status

-- A session as `bridge_sessions` and `omp_sessions` give it.
pub record Session : Type 0 where
  pub id : Text
  pub is_bridge : Bool
  pub path : Text
  pub objective : Text
  pub size : ℕ
  pub entries : ℕ
  pub toolcalls : ℕ
  pub last_tool : Option ℕ
  pub last_entry : ℕ
  pub nonterminal : Bool
  pub asks : Bool
  pub exited : Bool
  pub loop_sig : Option Text
  pub err_sig : Option Text

-- A session's entry in the state file: `none` and 0 for a key that is missing.
pub record Row : Type 0 where
  pub last_size : Option ℕ
  pub last_toolcalls : Option ℕ
  pub first_seen : Option ℕ
  pub last_phase : Option Phase
  pub misses : ℕ
  pub stuck_misses : ℕ
  pub sup_state : Option Status

-- A dictionary in its order; its ids are distinct.
abbrev pub Table : Type 0
Table = List (Text × Row)

-- A command run on the bridge store, or the move of its record.
pub data Command : Type 0 where
  close_run : (id : Text) → Command
  rotate : (subdir : Text) → Command
  run_start : (objective : Text) → Command

-- How a command ended: its code and its output, or the name of the exception.
pub data Ending : Type 0 where
  exit : (rc : ℤ) (output : Text) → Ending
  fault : (exception : Text) → Ending

-- A call of `crumbs.crumb`.
pub record Mark : Type 0 where
  pub job : Text
  pub event : Text
  pub detail : Text

-- agent-handoffs.md and beat-blockers.tsv (`none` where a file cannot be read), the world of
-- report_queue.py, the commands run, and the calls of the journal.
pub record World : Type 0 where
  pub handoffs : Option Text
  pub blockers : Option Text
  pub queue : Queue
  pub commands : List Command
  pub marks : List Mark

-- The state file (`none` where it cannot be read), and the world.
pub record Stored : Type 0 where
  pub file : Option Table
  pub world : World

-- The environment of a tick, which runs within one second.
pub record Env : Type 0 where
  pub now : ℕ
  pub clock : Clock
  pub can_save : Bool
  pub can_append : Bool
  pub can_block : Bool
  -- The lines of cadence-params.tsv; `none` where it cannot be read.
  pub params : Option (List Text)
  -- `time.strftime(format, time.gmtime(now))`, and `strptime` of nineteen characters.
  pub strftime : Text → ℕ → Text
  pub parse_iso : Text → Option ℕ
  -- `int(text)`, and the seconds in `float(text)` hours, rounded up; `none` is ValueError.
  pub int_of : Text → Option ℤ
  pub hours : Text → Option ℤ
  -- Whether a log is a file, and the lines of `classify_cause` on it; `none` is an exception.
  pub is_file : Text → Bool
  pub causes : Text → Option (List Text)
  -- How a command ends behind the commands before it; for the move only whether it faults.
  pub ends : List Command → Command → Ending
  -- The journal's export behind the calls of the tick; `none` where it fails.
  pub exported : List Mark → Option Text

-- `now - ts`, where it is not negative, else 0.
abbrev pub age : Env → ℕ → ℕ
age e ts = e.now - ts

-- The age of the last tool call, where there is one; a time of 0 counts as none.
unfoldable pub tool_age : Env → Session → Option ℕ
tool_age e s = elim s.last_tool [
  | none ↦ none
  | some ts ↦ if ts == 0 then none else some (age e ts)
]

-- Whether there is an age, and it is over the limit.
abbrev pub is_over : ℕ → Option ℕ → Bool
is_over limit none = false
is_over limit (some n) = ltb limit n

abbrev pub same_count : Option ℕ → ℕ → Bool
same_count none n = false
same_count (some m) n = m == n

abbrev pub or_zero : Option ℕ → ℕ
or_zero none = 0
or_zero (some n) = n

-- Unchanged for over a quarter of an hour, or for a time that is not known.
abbrev pub is_quiet : Option ℕ → Bool
is_quiet none = true
is_quiet (some n) = ltb stall_quiet n

-- `classify(...)`
unfoldable pub classify : Session → Row → Option ℕ → Option ℕ → Phase
classify s prev unchanged tool =
    if not s.nonterminal
    then terminal
    else if s.entries == 0
    then discovering
    else if is_over stall_tool tool
    then stalled
    else if same_count prev.last_size s.size && same_count prev.last_toolcalls s.toolcalls
    then (if is_quiet unchanged then stalled else verifying)
    else if ltb (or_zero prev.last_toolcalls) s.toolcalls && ltb (or_zero prev.last_size) s.size
    then writing
    else verifying

-- `awaiting_stall(asks, quiet_min, live)`
unfoldable pub awaiting_stall : Bool → ℕ → Bool → Bool
awaiting_stall asks quiet live = asks && not live && ltb stall_quiet quiet
