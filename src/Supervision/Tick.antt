-- ===== src/Supervision/Tick.antt =====
-- automation/jobs/agent-supervision.py: one tick over the sessions, from the state file to the state
-- file.
use Prim.Native.Nat.{ℕ, ◌+◌, ◌-◌, ◌/◌}
use hngh.Prelude.{
  Option, none, some, List, [], ◌∷◌, ◌++◌, Bool, true, false, not, ◌&&◌, ◌||◌, ◌==◌, leb, ltb, take,
  length, sorted, if◌then◌else◌,
}
use hngh.Texts.{Text, codes, is_empty, same_text, holds, Decimal.decimal}
use hngh.Supervision.{
  Phase, stalled, Status, looping, slow_valid, active, Session, Row, Table, World, Stored, Env, age,
  tool_age, is_over, same_count, classify, awaiting_stall, stall_tool, max_tracked_age, active_age,
  state_cap,
}
use hngh.Supervision.Acts.{report, week, steer_stalled, die_session, requeue}
use hngh.Supervision.Lead.{overnight_lead_checks}

abbrev pub no_row : Row
no_row = record {
  last_size = none;
  last_toolcalls = none;
  first_seen = none;
  last_phase = none;
  misses = 0;
  stuck_misses = 0;
  sup_state = none;
}

-- `state.get(id, {})`
unfoldable pub row_of : Table → Text → Row
unfolding same_text
row_of [] id = no_row
row_of ((k, r) ∷ t) id = let rest = row_of t id in if same_text k id then r else rest

-- `state[id] = row`
unfoldable pub set_row : Text → Row → Table → Table
unfolding same_text
set_row id row [] = (id, row) ∷ []
set_row id row ((k, r) ∷ t) =
    let rest = set_row id row t in if same_text k id then (k, row) ∷ t else (k, r) ∷ rest

-- Idle past the horizon: a transcript whose last tool call is older.
unfoldable pub is_evicted : Env → Session → Bool
unfolding tool_age
is_evicted e s = not s.is_bridge && is_over max_tracked_age (tool_age e s)

abbrev has_text : Option Text → Bool
has_text none = false
has_text (some t) = not (is_empty t)

-- A detection of the watchdog fired.
unfoldable pub is_stuck : Session → Bool
is_stuck s = has_text s.loop_sig || has_text s.err_sig

-- No evidence for over two ticks.
unfoldable pub is_silent : Env → Session → Bool
is_silent e s = ltb active_age (age e s.last_entry)

unfoldable pub is_flat : Env → Session → Bool
unfolding tool_age
is_flat e s = is_over stall_tool (tool_age e s)

-- Since when the counts have not changed, where they have not.
unfoldable pub unchanged : Env → Session → Row → Option ℕ
unchanged e s prev =
    if same_count prev.last_size s.size && same_count prev.last_toolcalls s.toolcalls
    then some (age e s.last_entry)
    else none

-- `phase`
unfoldable pub phase_of : Env → Session → Row → Phase
unfolding awaiting_stall classify unchanged tool_age
phase_of e s prev =
    if not s.is_bridge && awaiting_stall s.asks (age e s.last_entry) s.nonterminal
    then stalled
    else classify s prev (unchanged e s prev) (tool_age e s)

abbrev or_now : Env → Option ℕ → Option ℕ
or_now e none = some e.now
or_now e (some first) = some first

-- The row of a session behind a tick.
unfoldable pub new_row : Env → Session → Row → Phase → ℕ → ℕ → Status → Row
new_row e s prev phase misses stuck status = record {
  last_size = some s.size;
  last_toolcalls = some s.toolcalls;
  first_seen = or_now e prev.first_seen;
  last_phase = some phase;
  misses = misses;
  stuck_misses = stuck;
  sup_state = some status;
}

abbrev pub was_evicted : Option Phase → Bool
was_evicted (some Phase.evicted) = true
was_evicted _ = false

-- Whether the session was flagged.
abbrev pub was_flagged : Option Status → Bool
was_flagged (some Status.stalled) = true
was_flagged (some Status.slow_valid) = true
was_flagged (some Status.looping) = true
was_flagged _ = false

abbrev pub was_slow : Option Status → Bool
was_slow (some Status.slow_valid) = true
was_slow _ = false

-- `fmt_age`
abbrev pub minutes : Option ℕ → Text
minutes none = codes "n/a"
minutes (some n) = decimal (n / 60) ++ codes "m"

unfoldable pub report_evicted : Env → Session → World → World
unfolding report tool_age
report_evicted e s w =
    report e (codes "progress")
      (codes "agent-supervision: evicted-stale "
        ++ s.id
        ++ codes " (idle "
        ++ minutes (tool_age e s)
        ++ codes ")")
      (codes "supervision-evicted:" ++ s.id) week w

unfoldable pub report_slow : Env → Session → World → World
unfolding report tool_age
report_slow e s w =
    report e (codes "progress")
      (codes "agent-supervision: "
        ++ s.id
        ++ codes " slow-valid (last tool-call "
        ++ minutes (tool_age e s)
        ++ codes " ago) — re-queue at a cheaper tier if it persists")
      (codes "supervision:" ++ s.id ++ codes ":slow-valid") week w

unfoldable pub report_recovered : Env → Session → World → World
unfolding report
report_recovered e s w =
    report e (codes "progress") (codes "agent-supervision: " ++ s.id ++ codes " recovered")
      (codes "supervision:" ++ s.id ++ codes ":recovered") week w

abbrev repeat_loop : Option Text
repeat_loop = some (codes "repeat-loop")

-- The first stuck tick steers, each later one kills.
unfoldable pub on_stuck : Env → Session → ℕ → World → World
unfolding steer_stalled requeue die_session
on_stuck e s count w =
    if count == 1
    then requeue e s (steer_stalled e s repeat_loop w)
    else die_session e s repeat_loop w

-- The first miss steers, each later one kills.
unfoldable pub on_miss : Env → Session → ℕ → World → World
unfolding steer_stalled die_session
on_miss e s count w = if count == 1 then steer_stalled e s none w else die_session e s none w

-- The evidence machine: the row and the world behind it.
unfoldable pub watched : Env → Session → Row → World → Row × World
unfolding is_stuck is_silent is_flat phase_of new_row on_stuck on_miss report_slow report_recovered
watched e s prev w =
    let phase = phase_of e s prev in
    if is_stuck s
    then (
      new_row e s prev phase 0 (prev.stuck_misses + 1) looping,
      on_stuck e s (prev.stuck_misses + 1) w,
    )
    else if is_silent e s
    then (
      new_row e s prev phase (prev.misses + 1) 0 Status.stalled,
      on_miss e s (prev.misses + 1) w,
    )
    else if is_flat e s
    then (
      new_row e s prev phase 0 0 slow_valid,
      if was_slow prev.sup_state then w else report_slow e s w,
    )
    else (
      new_row e s prev phase 0 0 active,
      if was_flagged prev.sup_state then report_recovered e s w else w,
    )

-- What a tick does about a session whose row is `prev`.
unfoldable pub supervise : Env → Session → Row → World → Row × World
unfolding is_evicted new_row report_evicted watched
supervise e s prev w =
    if is_evicted e s
    then (
      new_row e s prev Phase.evicted 0 0 Status.evicted,
      if was_evicted prev.last_phase then w else report_evicted e s w,
    )
    else if s.exited
    then (new_row e s prev Phase.terminal 0 0 Status.terminal, w)
    else watched e s prev w

-- The loop over the sessions.
unfoldable pub sweep : Env → List Session → Table → World → Table × World
unfolding supervise row_of set_row
sweep e [] t w = (t, w)
sweep e (s ∷ sessions) t w =
    let (row, w') = supervise e s (row_of t s.id) w in sweep e sessions (set_row s.id row t) w'

-- `load_state()`
unfoldable pub load_state : Option Table → Table
load_state none = []
load_state (some t) = t

abbrev seen_first : Option ℕ → ℕ
seen_first none = 0
seen_first (some n) = n

abbrev older : Text × Row → Text × Row → Bool
older a b = leb (seen_first a.1.first_seen) (seen_first b.1.first_seen)

abbrev ids_of : Table → List Text
ids_of [] = []
ids_of ((k, r) ∷ t) = k ∷ ids_of t

unfoldable pub without_ids : List Text → Table → Table
unfolding holds
without_ids ids [] = []
without_ids ids ((k, r) ∷ t) =
    let rest = without_ids ids t in if holds ids k then rest else (k, r) ∷ rest

-- Over the cap the ids that were first seen longest ago are dropped.
unfoldable pub capped : Table → Table
unfolding without_ids
capped t =
    if ltb state_cap (length t)
    then without_ids (ids_of (take (length t - state_cap) (sorted older t))) t
    else t

-- `save_state(state)`
unfoldable pub save_state : Env → Table → Option Table → Option Table
unfolding capped
save_state e t file = if e.can_save then some (capped t) else file

-- Behind the checks, which may raise: the state is saved where they did not.
unfoldable pub finished : Env → Option Table → Table × World → Option World → Stored
unfolding save_state
finished e file (t, w) (some w') = record { file = save_state e t file; world = w' }
finished e file (t, w) none = record { file = file; world = w }

-- `tick()`, with the sessions that its sources give.
unfoldable pub tick : Env → List Session → Stored → Stored
unfolding load_state sweep finished overnight_lead_checks
tick e sessions st =
    let swept = sweep e sessions (load_state st.file) st.world in
    finished e st.file swept (overnight_lead_checks e swept.1)
