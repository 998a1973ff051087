-- ===== src/Supervision/Refines.antt =====
-- automation/jobs/agent-supervision.py: the runs of the program carry out what the histories say.
use Prim.Native.Nat.{◌≤◌}
use hngh.Prelude.{
  ◌≡◌, refl, sym, subst, ◌∙◌, Option, none, some, List, [], ◌∷◌, ◌++◌, if◌then◌else◌, if_ind,
  if_false, ltb, length, Bool-cases, inl, inr, arith,
}
use hngh.Texts.{Text}
use hngh.Supervision.{Session, Table, World, Stored, Env, state_cap}
use hngh.Supervision.Tick.{row_of, sweep, capped, load_state, save_state, finished, tick}
use hngh.Supervision.Lead.{overnight_lead_checks}
use hngh.Supervision.Spec.{
  Journal, nothing, responses, concluded, spec_tick, Turn, ticks, spec_ticks, Counts, AllOf, Within,
}
use hngh.Supervision.Follows.{Tracks, if_both, sweep-Tracks}
use hngh.Supervision.Room.{room, room-sweep, unseen-le}
use hngh.Supervision.Transcript.{Decoder}
use hngh.Supervision.Sources.{Sources, bridge_sessions, omp_sessions, over_sessions, run_tick}

capped-id : (t : Table) → length t ≤ state_cap → capped t ≡ t
unfolding capped
capped-id t h = if_false (ltb state_cap (length t)) _ t (ground arith)

-- A state file and a world that carry out what the histories and the world of the specification say.
abbrev CarriesOut : List Text → Stored → Journal × World → Type 0
CarriesOut ids st (j, w) =
    (st.world ≡ w) × Tracks (load_state st.file) j × (room (load_state st.file) ids ≤ state_cap)

save_state-load :
    (e : Env) (t : Table) (file : Option Table)
    → length t ≤ state_cap
    → load_state (save_state e t file) ≡ (if e.can_save then t else load_state file)
unfolding save_state load_state
save_state-load e t file h = elim (Bool-cases e.can_save) [
  | inl saved ↦ rw saved (capped-id t h)
  | inr lost ↦ rw lost refl
]

finished-CarriesOut :
    (ids : List Text) (e : Env) (file : Option Table) (old j : Journal) (t : Table) (w : World)
    (o : Option World)
    → Tracks (load_state file) old
    → room (load_state file) ids ≤ state_cap
    → Tracks t j
    → room t ids ≤ state_cap
    → CarriesOut ids (finished e file (t, w) o) (concluded e old (j, w) o)
unfolding finished
finished-CarriesOut ids e file old j t w none p q r s = (refl, p, q)
finished-CarriesOut ids e file old j t w (some w') p q r s =
    let kept = sym (save_state-load e t file (omega arith)) in
    (
      refl,
      subst (λ u. Tracks u (if e.can_save then j else old)) kept (if_both Tracks e.can_save r p),
      subst (λ u. room u ids ≤ state_cap) kept
          (if_ind (λ u. room u ids ≤ state_cap) e.can_save (λ _. s) (λ _. q)),
    )

tick-CarriesOut :
    (ids : List Text) (e : Env) (sessions : List Session) (st : Stored) (j : Journal) (w : World)
    → AllOf ids sessions
    → CarriesOut ids st (j, w)
    → CarriesOut ids (tick e sessions st) (spec_tick e sessions (j, w))
unfolding tick spec_tick
tick-CarriesOut ids e sessions st j w all_of (same_world, tracks, fits) =
    let t = load_state st.file in
    let swept = sweep e sessions t st.world in
    let seen = responses e sessions j st.world in
    let found = sweep-Tracks e sessions t j st.world tracks in
    let room_left = room-sweep e sessions t st.world ids all_of in
    subst (λ u. CarriesOut ids (tick e sessions st) (spec_tick e sessions (j, u))) same_world
      (subst
        (λ u.
          CarriesOut ids (tick e sessions st)
            (concluded e j (seen.0, u) (overnight_lead_checks e u)))
        found.0
        (finished-CarriesOut ids e st.file j seen.0 swept.0 swept.1
          (overnight_lead_checks e swept.1) tracks fits found.1 (omega (arith, room_left))))

ticks-CarriesOut :
    (ids : List Text) (turns : List Turn) (st : Stored) (jw : Journal × World)
    → Within ids turns
    → CarriesOut ids st jw
    → CarriesOut ids (ticks turns st) (spec_ticks turns jw)
unfolding ticks spec_ticks
ticks-CarriesOut ids [] st jw within c = c
ticks-CarriesOut ids ((e, sessions) ∷ turns) st (j, w) within c =
    ticks-CarriesOut ids turns (tick e sessions st) (spec_tick e sessions (j, w)) within.1
      (tick-CarriesOut ids e sessions st j w within.0 c)

abbrev pub start : World → Stored
start w = record { file = none; world = w }

-- A run of the program: its environment, what decodes, and what it finds.
abbrev pub Beat : Type 0
Beat = Env × Decoder × Sources

unfoldable pub runs : List Beat → Stored → Stored
unfolding run_tick
runs [] st = st
runs ((e, d, src) ∷ beats) st = runs beats (run_tick e d src st)

abbrev turn_before : Env → List Session → Option (List Session) → List Turn → List Turn
turn_before e bridge none turns = turns
turn_before e bridge (some omp) turns = (e, bridge ++ omp) ∷ turns

-- The ticks whose sources could be read, with the sessions found.
unfoldable pub turns_of : List Beat → List Turn
turns_of [] = []
turns_of ((e, d, src) ∷ beats) =
    turn_before e (bridge_sessions e src.store) (omp_sessions e d src.transcripts) (turns_of beats)

ticks-turn_before :
    (e : Env) (bridge : List Session) (omp : Option (List Session)) (turns : List Turn)
    (st : Stored)
    → ticks turns (over_sessions e bridge omp st) ≡ ticks (turn_before e bridge omp turns) st
unfolding ticks
ticks-turn_before e bridge none turns st = refl
ticks-turn_before e bridge (some omp) turns st = refl

runs-ticks : (beats : List Beat) (st : Stored) → runs beats st ≡ ticks (turns_of beats) st
unfolding runs turns_of ticks run_tick
runs-ticks [] st = refl
runs-ticks ((e, d, src) ∷ beats) st =
    runs-ticks beats (run_tick e d src st)
    ∙ ticks-turn_before e (bridge_sessions e src.store) (omp_sessions e d src.transcripts)
        (turns_of beats) st

-- Whatever runs of the program follow one another from no state file, where at most state_cap different
-- ids are seen: the world behind them is the one that the specification gives for the sessions found,
-- which knows no counters and answers each session by the history of its evidence (the first silent or
-- stuck tick of an unbroken row of such steers, each later one kills; going idle, slow or active again is
-- reported once); and the state file counts for every id what its history says. A run whose checks raise,
-- or whose state cannot be saved, leaves the histories as they were.
pub runs-refine :
    (ids : List Text) (beats : List Beat) (w : World)
    → length ids ≤ state_cap
    → Within ids (turns_of beats)
    → ((runs beats (start w)).world ≡ (spec_ticks (turns_of beats) (nothing, w)).1)
      × ((id : Text)
          → Counts
              (row_of (load_state (runs beats (start w)).file) id)
              ((spec_ticks (turns_of beats) (nothing, w)).0 id))
unfolding load_state row_of
runs-refine ids beats w few within =
    let done =
      ticks-CarriesOut ids (turns_of beats) (start w) (nothing, w) within
        (
          refl,
          λ id. record {
            misses = refl;
            stuck_misses = refl;
            evicted = refl;
            slow = refl;
            flagged = refl;
          },
          omega (arith, unseen-le [] ids),
        ) in
    rw (runs-ticks beats (start w)) (done.0, done.1)
