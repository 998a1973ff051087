-- ===== src/Supervision/Spec.antt =====
-- automation/jobs/agent-supervision.py: what the supervision promises, over whole histories instead of
-- counters. A session's history is the evidence of its ticks, newest first.
use Prim.Native.Nat.{ℕ, suc}
use hngh.Prelude.{Option, none, some, List, [], ◌∷◌, Bool, true, false, ◌||◌, ◌≡◌, if◌then◌else◌}
use hngh.Texts.{Text, codes, same_text, holds}
use hngh.Supervision.{Session, Row, World, Stored, Env}
use hngh.Supervision.Acts.{steer_stalled, die_session, requeue}
use hngh.Supervision.Lead.{overnight_lead_checks}
use hngh.Supervision.Tick.{
  is_evicted, is_stuck, is_silent, is_flat, report_evicted, report_slow, report_recovered,
  was_evicted, was_slow, was_flagged, tick,
}

-- What a tick sees of a session.
pub data Evidence : Type 0 where
  idle over stuck silent flat fresh : Evidence

abbrev pub History : Type 0
History = List Evidence

unfoldable pub evidence : Env → Session → Evidence
unfolding is_evicted is_stuck is_silent is_flat
evidence e s =
    if is_evicted e s
    then idle
    else if s.exited
    then over
    else if is_stuck s
    then stuck
    else if is_silent e s
    then silent
    else if is_flat e s
    then flat
    else fresh

abbrev pub same : Evidence → Evidence → Bool
same idle idle = true
same over over = true
same stuck stuck = true
same silent silent = true
same flat flat = true
same fresh fresh = true
same _ _ = false

-- Whether the newest evidence is this.
abbrev pub begins : Evidence → History → Bool
begins v [] = false
begins v (x ∷ h) = same v x

-- How many ticks in a row, up to the newest, had this evidence.
abbrev pub streak : Evidence → History → ℕ
streak v [] = 0
streak v (x ∷ h) = if same v x then suc (streak v h) else 0

abbrev looping : Option Text
looping = some (codes "repeat-loop")

-- What is done about a session whose history is the newest evidence behind an older history.
unfoldable pub respond : Env → Session → Evidence → History → World → World
respond e s idle h w = if begins idle h then w else report_evicted e s w
respond e s over h w = w
respond e s stuck h w =
    if begins stuck h then die_session e s looping w else requeue e s (steer_stalled e s looping w)
respond e s silent h w =
    if begins silent h then die_session e s none w else steer_stalled e s none w
respond e s flat h w = if begins flat h then w else report_slow e s w
respond e s fresh h w =
    if begins silent h || begins flat h || begins stuck h then report_recovered e s w else w

-- The history of every id.
abbrev pub Journal : Type 0
Journal = Text → History

abbrev pub nothing : Journal
nothing id = []

abbrev pub note : Text → Evidence → Journal → Journal
note k v j id = if same_text k id then v ∷ j k else j id

unfoldable pub responses : Env → List Session → Journal → World → Journal × World
unfolding evidence respond
responses e [] j w = (j, w)
responses e (s ∷ sessions) j w =
    let v = evidence e s in responses e sessions (note s.id v j) (respond e s v (j s.id) w)

abbrev pub concluded : Env → Journal → Journal × World → Option World → Journal × World
concluded e old (j, w) (some w') = (if e.can_save then j else old, w')
concluded e old (j, w) none = (old, w)

-- A tick: what could not be saved is forgotten.
unfoldable pub spec_tick : Env → List Session → Journal × World → Journal × World
unfolding responses
spec_tick e sessions (j, w) =
    let seen = responses e sessions j w in concluded e j seen (overnight_lead_checks e seen.1)

abbrev pub Turn : Type 0
Turn = Env × List Session

unfoldable pub ticks : List Turn → Stored → Stored
ticks [] st = st
ticks ((e, sessions) ∷ turns) st = ticks turns (tick e sessions st)

unfoldable pub spec_ticks : List Turn → Journal × World → Journal × World
unfolding spec_tick
spec_ticks [] jw = jw
spec_ticks ((e, sessions) ∷ turns) jw = spec_ticks turns (spec_tick e sessions jw)

-- A row counts what a history says.
pub record Counts (r : Row) (h : History) : Type 0 where
  pub misses : r.misses ≡ streak silent h
  pub stuck_misses : r.stuck_misses ≡ streak stuck h
  pub evicted : was_evicted r.last_phase ≡ begins idle h
  pub slow : was_slow r.sup_state ≡ begins flat h
  pub flagged : was_flagged r.sup_state ≡ (begins silent h || begins flat h || begins stuck h)

-- Every session's id is one of these.
abbrev pub AllOf : List Text → List Session → Type 0
AllOf ids [] = Unit
AllOf ids (s ∷ sessions) = (holds ids s.id ≡ true) × AllOf ids sessions

abbrev pub Within : List Text → List Turn → Type 0
Within ids [] = Unit
Within ids ((e, sessions) ∷ turns) = AllOf ids sessions × Within ids turns
