-- ===== src/Supervision/Sources.antt =====
-- automation/jobs/agent-supervision.py: bridge_sessions and omp_sessions, and the tick over them.
use Prim.Native.Nat.{ℕ, ◌+◌}
use hngh.Prelude.{
  Option, none, some, List, [], ◌∷◌, ◌++◌, Bool, true, false, not, ◌&&◌, ◌||◌, ◌==◌, leb, ltb, take,
  sorted, if◌then◌else◌,
}
use hngh.Texts.{
  Text, codes, is_empty, same_text, behind_prefix, run_of, past_run, is_word_char, is_space,
}
use hngh.Supervision.{Session, Stored, Env, age, max_tracked_age}
use hngh.Supervision.Transcript.{Decoder, quoted, iso_ts}
use hngh.Supervision.Detect.{Stats, Scanned, raised, no_stats, stats, scan_transcript, lower}
use hngh.Supervision.Tick.{tick}

-- The lines of the bridge store's record, its size and the time of its last change.
pub record Store : Type 0 where
  pub path : Text
  pub lines : List Text
  pub size : ℕ
  pub modified : ℕ

-- A transcript that the search of the sources found: its path, the name of the file and its stem, six
-- digits of the path's hash, the time of its last change (`none` where it cannot be read), its size, and
-- its lines (`none` where they cannot be read).
pub record Transcript : Type 0 where
  pub path : Text
  pub name : Text
  pub stem : Text
  pub digest : Text
  pub modified : Option ℕ
  pub size : ℕ
  pub lines : Option (List Text)

-- What a tick finds: the record, where it is a file that can be read, and the transcripts in the order
-- of the search.
pub record Sources : Type 0 where
  pub store : Option Store
  pub transcripts : List Transcript

-- A run of the store as it is gathered; `none` for an objective that no line has.
pub record Run : Type 0 where
  pub objective : Option Text
  pub state : Text
  pub last_ts : Option ℕ

abbrev pub Runs : Type 0
Runs = List (Text × Run)

abbrev word_at : Option Text → Option Text → Option Text
word_at none rest = rest
word_at (some t) rest =
    let found = run_of is_word_char t in if is_empty found then rest else some found

-- The search for `:STATE :(\w+)`.
unfoldable pub state_in : Text → Option Text
unfolding behind_prefix run_of
state_in [] = none
state_in (c ∷ t) = word_at (behind_prefix (codes ":STATE :") (c ∷ t)) (state_in t)

abbrev open_at : Option Text → Option Text → Option Text
open_at none rest = rest
open_at (some t) rest =
    if is_empty (past_run (λ c. not (c == b'"')) t)
    then rest
    else some (run_of (λ c. not (c == b'"')) t)

-- The search for `:OBJECTIVE "([^"]*)"`.
unfoldable pub objective_in : Text → Option Text
unfolding behind_prefix run_of past_run
objective_in [] = none
objective_in (c ∷ t) = open_at (behind_prefix (codes ":OBJECTIVE \"") (c ∷ t)) (objective_in t)

-- The part up to the first `Z` behind its first character, of a text without spaces.
abbrev onto_zulu : ℕ → Option Text → Option Text
onto_zulu c none = none
onto_zulu c (some t) = some (c ∷ t)

unfoldable pub up_to_zulu : Text → Option Text
up_to_zulu [] = none
up_to_zulu (c ∷ t) =
    let rest = up_to_zulu t in if c == b'Z' then some (c ∷ []) else onto_zulu c rest

abbrev zulu : Text → Option Text
zulu [] = none
zulu (c ∷ t) = onto_zulu c (up_to_zulu t)

abbrev or_found : Option Text → Option Text → Option Text
or_found none rest = rest
or_found (some t) rest = some t

abbrev zulu_at : Option Text → Option Text
zulu_at none = none
zulu_at (some t) = zulu (run_of (λ c. not (is_space c)) t)

-- The search for `timestamp: (\S+?Z)`.
unfoldable pub stamp_in : Text → Option Text
unfolding behind_prefix run_of up_to_zulu
stamp_in [] = none
stamp_in (c ∷ t) = or_found (zulu_at (behind_prefix (codes "timestamp: ") (c ∷ t))) (stamp_in t)

abbrev or_old : Option Text → Option Text → Option Text
or_old none old = old
or_old (some t) old = some t

-- `runs[sid]` with what a line says.
unfoldable pub gather : Text → Option Text → Text → Option ℕ → Runs → Runs
unfolding same_text
gather sid objective state ts [] =
    (sid, record { objective = objective; state = state; last_ts = ts }) ∷ []
gather sid objective state ts ((k, run) ∷ runs) =
    let rest = gather sid objective state ts runs in
    if same_text k sid
    then (k, record { objective = or_old objective run.objective; state = state; last_ts = ts })
      ∷ runs
    else (k, run) ∷ rest

-- A line with an id and a state.
abbrev with_line : Env → Text → Option Text → Option Text → Runs → Runs
with_line e line (some sid) (some state) runs =
    gather sid (objective_in line) (lower state) (iso_ts e (stamp_in line)) runs
with_line e line _ _ runs = runs

unfoldable pub runs_of : Env → List Text → Runs → Runs
unfolding quoted state_in objective_in stamp_in gather lower
runs_of e [] runs = runs
runs_of e (line ∷ lines) runs =
    runs_of e lines (with_line e line (quoted (codes ":IDENTIFIER \"") line) (state_in line) runs)

unfoldable pub is_terminal : Text → Bool
unfolding same_text
is_terminal state =
    same_text state (codes "cancelled")
    || same_text state (codes "evacuated")
    || same_text state (codes "dead")
    || same_text state (codes "complete")

abbrev or_modified : Option ℕ → ℕ → ℕ
or_modified none modified = modified
or_modified (some ts) modified = if ts == 0 then modified else ts

abbrev or_blank : Option Text → Text
or_blank none = []
or_blank (some t) = t

abbrev run_session : Store → Text → Run → Session
run_session store sid run = record {
  id = sid;
  is_bridge = true;
  path = store.path;
  objective = or_blank run.objective;
  size = store.size;
  entries = 1;
  toolcalls = 0;
  last_tool = none;
  last_entry = or_modified run.last_ts store.modified;
  nonterminal = true;
  asks = false;
  exited = false;
  loop_sig = none;
  err_sig = none;
}

-- The runs that are not terminal.
unfoldable pub open_runs : Store → Runs → List Session
unfolding is_terminal
open_runs store [] = []
open_runs store ((sid, run) ∷ runs) =
    let rest = open_runs store runs in
    if is_terminal run.state then rest else run_session store sid run ∷ rest

-- `bridge_sessions()`
unfoldable pub bridge_sessions : Env → Option Store → List Session
unfolding runs_of open_runs
bridge_sessions e none = []
bridge_sessions e (some store) = open_runs store (runs_of e store.lines [])

-- A transcript with the time of its last change.
abbrev Candidate : Type 0
Candidate = Transcript × ℕ

-- The transcripts within the horizon; those of an advisor are left out.
abbrev within : Env → Transcript → Option ℕ → List Candidate → List Candidate
within e t none rest = rest
within e t (some modified) rest =
    if ltb (modified + max_tracked_age) e.now || ltb e.now modified
    then rest
    else (t, modified) ∷ rest

unfoldable pub candidates : Env → List Transcript → List Candidate
unfolding same_text
candidates e [] = []
candidates e (t ∷ ts) =
    let rest = candidates e ts in
    if same_text t.name (codes "__advisor.jsonl") then rest else within e t t.modified rest

abbrev newer : Candidate → Candidate → Bool
newer a b = leb b.1 a.1

abbrev live_age : ℕ
live_age = 300

abbrev omp_max : ℕ
omp_max = 32

abbrev transcript_session : Env → Candidate → Stats → Session
transcript_session e (t, modified) st = record {
  id = codes "omp-" ++ take 28 t.stem ++ b'-' ∷ t.digest;
  is_bridge = false;
  path = t.path;
  objective = [];
  size = t.size;
  entries = st.entries;
  toolcalls = st.toolcalls;
  last_tool = st.last_tool;
  last_entry = modified;
  nonterminal = ltb (age e modified) live_age && not st.exited;
  asks = st.asks;
  exited = st.exited;
  loop_sig = st.loop;
  err_sig = st.error;
}

abbrev onto_sessions : Session → Option (List Session) → Option (List Session)
onto_sessions s none = none
onto_sessions s (some sessions) = some (s ∷ sessions)

-- A transcript without stats is skipped; one whose scan raises ends the tick.
abbrev onto_scanned : Env → Candidate → Scanned → Option (List Session) → Option (List Session)
onto_scanned e c raised rest = none
onto_scanned e c no_stats rest = rest
onto_scanned e c (stats st) rest = onto_sessions (transcript_session e c st) rest

unfoldable pub scan_all : Env → Decoder → List Candidate → Option (List Session)
unfolding scan_transcript
scan_all e d [] = some []
scan_all e d (c ∷ cs) = onto_scanned e c (scan_transcript e d c.0.lines) (scan_all e d cs)

-- `omp_sessions(now)`; `none` where a scan raises.
unfoldable pub omp_sessions : Env → Decoder → List Transcript → Option (List Session)
unfolding candidates scan_all
omp_sessions e d transcripts = scan_all e d (take omp_max (sorted newer (candidates e transcripts)))

abbrev pub over_sessions : Env → List Session → Option (List Session) → Stored → Stored
over_sessions e bridge none st = st
over_sessions e bridge (some omp) st = tick e (bridge ++ omp) st

-- A run of the program without arguments: an exception out of the tick is swallowed.
unfoldable pub run_tick : Env → Decoder → Sources → Stored → Stored
unfolding bridge_sessions omp_sessions tick
run_tick e d src st =
    over_sessions e (bridge_sessions e src.store) (omp_sessions e d src.transcripts) st
