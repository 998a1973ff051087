-- ===== src/Supervision/Lead.antt =====
-- automation/jobs/agent-supervision.py: the checks of the virtual session overnight-lead.
use Prim.Native.Nat.{ℕ}
use hngh.Prelude.{
  pos, Option, none, some, List, [], ◌∷◌, ◌++◌, Bool, true, false, leb_ℤ, any, if◌then◌else◌,
}
use hngh.Texts.{Text, codes, same_text, split, collapse, Decimal.decimal}
use hngh.Candidate.{split_lines}
use hngh.QueuePointer.{strip}
use hngh.Supervision.{World, Env}
use hngh.Supervision.Acts.{report, week, stamp, or_nothing}
use hngh.Supervision.Parse.{
  get_param, parse_results, trailing_failures, parse_dead_rows, trailing_same_cause, beat_silence,
  cause_char,
}

-- Whether a row of the file is for the scope: `blocker_row(scope)`.
abbrev row_is_for : Text → List Text → Bool
row_is_for scope (blk ∷ s ∷ more) = same_text (strip s) scope
row_is_for scope _ = false

unfoldable pub has_blocker : World → Text → Bool
unfolding split same_text strip
has_blocker w scope =
    any (λ line. row_is_for scope (split b'\t' line)) (split b'\n' (or_nothing w.blockers))

unfoldable pub blocker_line : Env → Text → Text → Bool → Text
unfolding collapse
blocker_line e scope cause is_active =
    codes "blk-"
    ++ e.strftime (codes "%Y%m%d") e.now
    ++ codes "-"
    ++ collapse cause_char false scope
    ++ b'\t' ∷ scope
    ++ b'\t' ∷ cause
    ++ b'\t' ∷ stamp e
    ++ codes "\t1\t"
    ++ (if is_active then codes "active" else codes "parked")
    ++ b'\n' ∷ []

-- `append_blocker(scope, cause, active)`
unfoldable pub append_blocker : Env → Text → Text → Bool → World → World
unfolding blocker_line
append_blocker e scope cause is_active w =
    if e.can_block
    then record w {
      blockers = some (or_nothing w.blockers ++ blocker_line e scope cause is_active);
    }
    else w

-- A detection: its scope and cause, the attempts, whether it is written as active, and its identity.
pub record Detection : Type 0 where
  pub scope : Text
  pub cause : Text
  pub attempts : ℕ
  pub is_active : Bool
  pub identity : Text

abbrev lead : Text → Text
lead what = codes "supervision:overnight-lead:" ++ what

abbrev launch_stall : Detection
launch_stall = record {
  scope = codes "overnight";
  cause = codes "bad-execution";
  attempts = 1;
  is_active = false;
  identity = lead (codes "launch-stall");
}

abbrev same_cause : Text → Text → ℕ → Detection
same_cause slug cause n = record {
  scope = slug;
  cause = cause;
  attempts = n;
  is_active = true;
  identity = lead (codes "same-cause:" ++ cause);
}

abbrev silence : Detection
silence = record {
  scope = codes "overnight-silence";
  cause = codes "bad-execution";
  attempts = 1;
  is_active = false;
  identity = lead (codes "silence");
}

abbrev only_if : Bool → Detection → List Detection
only_if true d = d ∷ []
only_if false d = []

-- Behind the launch check: the deaths, whose limit is read only where there are any.
abbrev death_checks : Env → Option (Text × Text × ℕ) → Option (List Detection)
death_checks e none = some []
death_checks e (some (slug, cause, n)) =
    elim (e.int_of (get_param e (codes "blocker-escalate-n") (codes "3"))) [
      | none ↦ none
      | some limit ↦ some (only_if (leb_ℤ limit (pos n)) (same_cause slug cause n))
    ]

abbrev silence_checks : Env → List Text → Option (List Detection)
silence_checks e lines =
    elim (e.hours (get_param e (codes "beat-stall-silence-hours") (codes "12"))) [
      | none ↦ none
      | some seconds ↦ some (only_if (beat_silence e seconds lines) silence)
    ]

abbrev launch_checks : Env → List Text → Option (List Detection)
launch_checks e lines = elim (e.int_of (get_param e (codes "beat-stall-n") (codes "4"))) [
  | none ↦ none
  | some limit ↦
      some (only_if (leb_ℤ limit (pos (trailing_failures (parse_results lines)).0)) launch_stall)
]

abbrev joined : Option (List Detection) → Option (List Detection) → Option (List Detection)
joined none others = none
joined (some dets) none = none
joined (some dets) (some others) = some (dets ++ others)

-- The detections; `none` where a limit is no number, which raises.
unfoldable pub detections : Env → World → Option (List Detection)
unfolding split_lines trailing_same_cause parse_dead_rows parse_results trailing_failures get_param
    beat_silence
detections e w =
    let lines = split_lines (or_nothing (e.exported w.marks)) in
    let deaths = trailing_same_cause (parse_dead_rows (split_lines (or_nothing w.handoffs))) in
    joined (launch_checks e lines) (joined (death_checks e deaths) (silence_checks e lines))

-- A detection whose scope has no row yet gets one, and a report.
unfoldable pub block : Env → Detection → World → World
unfolding has_blocker append_blocker report
block e d w =
    if has_blocker w d.scope
    then w
    else report e (codes "alert")
        (codes "overnight-lead orchestrator stall: scope="
          ++ d.scope
          ++ codes " cause="
          ++ d.cause
          ++ codes " attempts="
          ++ decimal d.attempts
          ++ (if d.is_active then [] else codes " — parked"))
        d.identity week (append_blocker e d.scope d.cause d.is_active w)

unfoldable pub blocks : Env → List Detection → World → World
unfolding block
blocks e [] w = w
blocks e (d ∷ dets) w = blocks e dets (block e d w)

-- `overnight_lead_checks(now)`; `none` where it raises, before it has written anything.
unfoldable pub overnight_lead_checks : Env → World → Option World
unfolding detections blocks
overnight_lead_checks e w = elim (detections e w) [
  | none ↦ none
  | some dets ↦ some (blocks e dets w)
]
