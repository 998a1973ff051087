-- ===== src/Supervision/Acts.antt =====
-- automation/jobs/agent-supervision.py: what a tick does about a session: rows, hand-offs, and the
-- replacement of a run of the bridge store.
use Prim.Native.Nat.{ℕ}
use hngh.Prelude.{
  ℤ, pos, negsuc, Option, none, some, List, [], ◌∷◌, ◌++◌, Bool, false, not, ◌&&◌, ◌==◌, take,
  if◌then◌else◌, suc,
}
use hngh.Texts.{Text, codes, is_empty, same_text, occurs, Decimal.decimal}
use hngh.ReportQueue.{Filing, report as file_report}
use hngh.QueuePointer.{strip}
use hngh.Scrub.{redact_home}
use hngh.Supervision.{
  Session, Command, close_run, rotate, run_start, Ending, exit, fault, World, Env,
}

abbrev pub week : ℕ
week = 604800

-- `report(kind, text, identity, window)`
unfoldable pub report : Env → Text → Text → Text → ℕ → World → World
unfolding file_report
report e kind content identity window w =
    let f : Filing = record {
      kind = kind;
      content = content;
      identity = some identity;
      window = some window;
      evidence = none;
    } in
    record w { queue = (file_report e.clock f none w.queue).1 }

abbrev pub or_nothing : Option Text → Text
or_nothing none = []
or_nothing (some t) = t

-- `append_handoff(line)`
unfoldable pub append_handoff : Env → Text → World → World
unfolding redact_home
append_handoff e line w =
    if e.can_append
    then record w { handoffs = some (or_nothing w.handoffs ++ redact_home line ++ b'\n' ∷ []) }
    else w

-- `ts_utc(now)`
abbrev pub stamp : Env → Text
stamp e = e.strftime (codes "%Y-%m-%dT%H:%M:%SZ") e.now

-- `out[-1]`
abbrev pub last_line : List Text → Option Text
last_line [] = none
last_line (line ∷ []) = some line
last_line (line ∷ next ∷ more) = last_line (next ∷ more)

-- The cause that the last line of the output names.
unfoldable pub named_cause : Option Text → Text
unfolding same_text
named_cause none = codes "unclassified"
named_cause (some line) =
    if not (is_empty line) && not (same_text line (codes "unknown"))
    then line
    else codes "unclassified"

abbrev pub cause_in : Option (List Text) → Text
cause_in none = codes "unclassified"
cause_in (some lines) = named_cause (last_line lines)

-- `classify_cause_py(log)`
unfoldable pub classify_cause : Env → Text → Text
unfolding named_cause
classify_cause e log =
    if not (is_empty log) && e.is_file log then cause_in (e.causes log) else codes "unclassified"

-- `a or b`
abbrev pub or_text : Option Text → Text → Text
or_text none b = b
or_text (some a) b = if is_empty a then b else a

-- `steer_reason(s)`
unfoldable pub steer_reason : Session → Text
steer_reason s = or_text s.loop_sig (or_text s.err_sig (codes "no transcript evidence this tick"))

abbrev pub suffix : Option Text → Text
suffix none = []
suffix (some cause) = if is_empty cause then [] else codes " cause=" ++ cause

abbrev pub stalled_identity : Session → Text
stalled_identity s = codes "supervision:" ++ s.id ++ codes ":stalled"

unfoldable pub steer_line : Env → Session → Option Text → Text
unfolding steer_reason
steer_line e s cause =
    codes "session-drop | "
    ++ stamp e
    ++ codes " | supervision|"
    ++ s.id
    ++ codes " | stalled: steer: "
    ++ steer_reason s
    ++ suffix cause

-- `steer_stalled(s, now, cause)`
unfoldable pub steer_stalled : Env → Session → Option Text → World → World
unfolding append_handoff steer_line steer_reason report
steer_stalled e s cause w =
    report e (codes "alert")
      (codes "agent-supervision: "
        ++ s.id
        ++ codes " stalled (missed tick 1) — steer: "
        ++ steer_reason s
        ++ suffix cause)
      (stalled_identity s) week (append_handoff e (steer_line e s cause) w)

abbrev signed : ℤ → Text
signed (pos n) = decimal n
signed (negsuc n) = b'-' ∷ decimal (suc n)

unfoldable pub ending_line : Text → Ending → Text
unfolding strip decimal
ending_line name (exit rc output) =
    name ++ codes ": rc=" ++ signed rc ++ codes " " ++ take 160 (strip output)
ending_line name (fault exception) = name ++ codes " fault: " ++ exception

abbrev pub succeeds : Ending → Bool
succeeds (exit (pos n) output) = n == 0
succeeds (exit (negsuc n) output) = false
succeeds (fault exception) = false

abbrev pub faults : Ending → Option Text
faults (exit rc output) = none
faults (fault exception) = some exception

abbrev ran : Command → World → World
ran c w = record w { commands = w.commands ++ c ∷ [] }

abbrev subdir_of : Env → Session → Text
subdir_of e s = e.strftime (codes "%Y%m%dT%H%M%SZ") e.now ++ b'-' ∷ s.id

-- The run is closed and its record moved: a new run is started.
unfoldable pub start_run : Env → Session → World → List Text × World
unfolding ending_line
start_run e s w =
    let c = run_start (or_text (some s.objective) (codes "re-provisioned after stall")) in
    (ending_line (codes "run-start") (e.ends w.commands c) ∷ [], ran c w)

-- The run is closed: its record is moved.
unfoldable pub rotate_record : Env → Session → World → List Text × World
unfolding start_run
rotate_record e s w =
    let c = rotate (subdir_of e s) in
    elim (faults (e.ends w.commands c)) [
      | some exception ↦ ((codes "record rotate fault: " ++ exception) ∷ [], ran c w)
      | none ↦ start_run e s (ran c w)
    ]

-- `replace_stalled_bridge_run(session)`
unfoldable pub replace_run : Env → Session → World → List Text × World
unfolding rotate_record ending_line
replace_run e s w =
    let c = close_run s.id in
    let ending = e.ends w.commands c in
    let line = ending_line (codes "close-run") ending in
    if succeeds ending
    then (line ∷ (rotate_record e s (ran c w)).0, (rotate_record e s (ran c w)).1)
    else (line ∷ [], ran c w)

-- `" | ".join(lines)`
unfoldable pub barred : List Text → Text
barred [] = []
barred (line ∷ []) = line
barred (line ∷ next ∷ more) = line ++ codes " | " ++ barred (next ∷ more)

-- Whether the session belongs to the orchestrator.
abbrev pub is_lead : Session → Bool
is_lead s = occurs (codes "overnight-lead") s.id

unfoldable pub death_line : Env → Session → Text → Text
unfolding occurs
death_line e s cause =
    (if is_lead s
      then codes "overnight-lead | " ++ stamp e ++ codes " | overnight-lead|"
      else codes "session-drop | " ++ stamp e ++ codes " | supervision|")
    ++ s.id
    ++ codes " | dead: stalled past 2 ticks cause="
    ++ cause

unfoldable pub death_text : Session → Text → Option (List Text) → Text
unfolding barred
death_text s cause (some lines) =
    codes "agent-supervision: "
    ++ s.id
    ++ codes " died after 2 missed ticks (stalled) cause="
    ++ cause
    ++ codes " ["
    ++ barred lines
    ++ codes "]"
death_text s cause none =
    codes "agent-supervision: "
    ++ s.id
    ++ codes
        " died after 2 missed ticks (stalled; advisory — omp transcripts are never killed) cause="
    ++ cause

-- Only a run of the bridge store is replaced; the lines are those of the replacement.
unfoldable pub replaced : Env → Session → World → Option (List Text) × World
unfolding replace_run
replaced e s w =
    if s.is_bridge then (some (replace_run e s w).0, (replace_run e s w).1) else (none, w)

abbrev pub cause_of : Env → Session → Option Text → Text
cause_of e s cause = or_text cause (classify_cause e s.path)

-- `die_session(s, now, cause)`
unfoldable pub die_session : Env → Session → Option Text → World → World
unfolding classify_cause replaced append_handoff death_line death_text report
die_session e s cause w =
    let c = cause_of e s cause in
    let (lines, w') = replaced e s w in
    report e (codes "alert") (death_text s c lines) (stalled_identity s) week
      (append_handoff e (death_line e s c) w')

-- The row and the journal's entry for a session that loops.
unfoldable pub requeue : Env → Session → World → World
unfolding report
requeue e s w =
    let w' =
      report e (codes "progress")
        (codes "agent-supervision: re-queue "
          ++ s.id
          ++ codes
              " cause=repeat-loop; rubric: interrupt-and-redirect (docs/records/2026-08-26-loop-recognition.md)")
        (codes "loop-requeue:" ++ s.id) 86400 w in
    record w' {
      marks =
          w'.marks
          ++ record {
            job = codes "supervision";
            event = codes "loop-requeue";
            detail = s.id ++ codes " cause=repeat-loop";
          }
            ∷ [];
    }
