-- ===== src/Acceptance/Run.antt =====
-- automation/scripts/accept-plans.py: main, over the plans directory, the report queue and the log.
use Prim.Native.Nat.{ℕ}
use hngh.Prelude.{
  Option, none, some, List, [], ◌∷◌, ◌++◌, Bool, true, false, not, ◌&&◌, ◌==◌, if◌then◌else◌, ℤ,
}
use hngh.Texts.{Text, codes, same_text}
use hngh.Texts.Decimal.{decimal}
use hngh.ReportQueue.{Clock, Filing}
use hngh.Router.{row}
use hngh.Acceptance.{
  Front, front_of, held_text, reproposed_text, first_unverified_step, has_principle,
}
use hngh.Acceptance.Designs.{missing_designs, is_vague}

-- A plan's slug, where its file is the slug and `.plan.md`, and its text.
abbrev pub Plan : Type 0
Plan = Text × Text

-- A command's exit code, and the end of its output.
abbrev pub Gate : Type 0
Gate = ℤ × Text

-- What a run reads from outside.
pub record Env : Type 0 where
  pub dry_run : Bool
  pub isolated : Bool
  -- `now_utc()`
  pub now : Text
  -- Whether a path exists in the kernel's directory.
  pub exists : Text → Bool
  -- What `git show` prints of the plan at HEAD, where it succeeds.
  pub at_head : Text → Option Text
  pub lock_free : Bool
  -- The gates that are run, and the gates that are rehearsed; `strip` of an output.
  pub kernel_gate : Gate
  pub automation_gate : Gate
  pub kernel_rehearsal : Gate
  pub automation_rehearsal : Gate
  pub strip : Text → Text
  pub clock : Clock

-- What a step of the run leaves: the plan's text, whether it is a candidate, the rows and the notes.
pub record Review : Type 0 where
  pub body : Text
  pub candidate : Bool
  pub rows : List Filing
  pub notes : List Text

-- A row of a run that is not dry.
unfoldable pub rows_of : Env → Text → Text → Text → ℕ → List Filing
rows_of e kind content ident window = if e.dry_run then [] else row kind content ident window ∷ []

-- A line of the log of a run that is not dry.
unfoldable pub note : Env → Text → List Text
note e line = if e.dry_run then [] else (e.now ++ codes " | " ++ line) ∷ []

-- The text that is written in a run that is not dry.
abbrev pub written : Env → Text → Text → Text
written e new old = if e.dry_run then old else new

abbrev pub head_status : Option Front → Option Text
head_status none = none
head_status (some f) = if same_text f.accepted (codes "-") then none else some f.status

abbrev pub shown_status : Option Text → Option Text
shown_status none = none
shown_status (some t) = head_status (front_of t)

-- `committed_plan_status(rel)`
unfoldable pub committed_plan_status : Env → Text → Option Text
committed_plan_status e slug = shown_status (e.at_head slug)

-- The names of the designs, with `, ` between them.
abbrev pub listed : List Text → Text
listed [] = []
listed (name ∷ []) = name
listed (name ∷ next ∷ names) = name ++ codes ", " ++ listed (next ∷ names)

unfoldable pub unchanged : Text → List Filing → List Text → Review
unchanged t rows notes = record { body = t; candidate = false; rows = rows; notes = notes }

-- A held plan: the designs that are missing still, or none.
unfoldable pub review_held : Env → Text → Text → Front → List Text → Review
review_held e slug t f (missing ∷ more) =
    unchanged t [] (note e (codes "still-held " ++ slug ++ codes " missing-design"))
review_held e slug t f [] = record {
  body = written e (reproposed_text f) t;
  candidate = false;
  rows =
      rows_of e (codes "progress")
        (codes "plan " ++ slug ++ codes ": design landed; plan re-proposed")
        (codes "design-hold:" ++ slug) 86400;
  notes = note e (codes "re-proposed " ++ slug ++ codes " design-landed");
}

-- A proposed plan with a principle: the designs that are missing.
unfoldable pub review_designs : Env → Text → Text → Front → List Text → Review
review_designs e slug t f [] = record {
  body = t;
  candidate = true;
  rows = [];
  notes =
      if is_vague t
      then note e
          (codes "warn " ++ slug ++ codes " vague-design-wording (no explicit path; not a hold)")
      else [];
}
review_designs e slug t f (missing ∷ more) = record {
  body = written e (held_text e.now f) t;
  candidate = false;
  rows =
      rows_of e (codes "alert")
        (codes "plan "
          ++ slug
          ++ codes " held (missing design): "
          ++ listed (missing ∷ more)
          ++ codes " — delve: produce or locate the design")
        (codes "design-hold:" ++ slug) 86400;
  notes = note e (codes "held " ++ slug ++ codes " missing-design:" ++ listed (missing ∷ more));
}

unfoldable pub review_proposed : Env → Text → Text → Front → Review
review_proposed e slug t f =
    if same_text f.risk (codes "critical")
    then unchanged t
        (rows_of e (codes "alert")
          (codes "critical-class plan "
            ++ slug
            ++ codes " parked for the operator (never machine-executed)")
          (codes "overnight:plan-critical:" ++ slug) 604800)
        (note e (codes "parked " ++ slug ++ codes " critical-class"))
    else if not (has_principle t)
    then unchanged t
        (rows_of e (codes "alert")
          (codes "plan "
            ++ slug
            ++ codes
                " not auto-accepted: no principle line (every plan names one closed principle + doc anchor before its steps)")
          (codes "overnight:plan-accept-blocked:" ++ slug) 86400)
        (note e (codes "blocked " ++ slug ++ codes " missing-principle"))
    else review_designs e slug t f (missing_designs e.exists t)

unfoldable pub review_status : Env → Text → Text → Front → Review
review_status e slug t f =
    if same_text f.status (codes "held")
    then review_held e slug t f (missing_designs e.exists t)
    else if same_text f.status (codes "proposed")
    then review_proposed e slug t f
    else unchanged t [] []

-- The identity guard: a plan that was accepted at HEAD is not to be proposed again.
unfoldable pub review_drift : Env → Text → Text → Front → Option Text → Review
review_drift e slug t f none = review_status e slug t f
review_drift e slug t f (some prev) =
    unchanged t
      (rows_of e (codes "alert")
        (codes "plan "
          ++ slug
          ++ codes " identity drift: git HEAD carries status="
          ++ prev
          ++ codes
              " with a real accepted timestamp but the working tree is proposed/unaccepted - plan-file clobber suspected; never overwrite an existing plan file, new plans get new slugs")
        (codes "plan-identity-drift:" ++ slug) 86400)
      (note e (codes "blocked " ++ slug ++ codes " plan-identity-drift"))

unfoldable pub review_front : Env → Text → Text → Option Front → Review
review_front e slug t none = unchanged t [] []
review_front e slug t (some f) =
    if same_text f.status (codes "proposed") && same_text f.accepted (codes "-")
    then review_drift e slug t f (committed_plan_status e slug)
    else review_status e slug t f

-- The first loop, for one plan.
unfoldable pub review : Env → Plan → Review
review e (slug, t) = review_front e slug t (front_of t)

-- A candidate whose open steps all have a verification.
unfoldable pub is_runnable : Env → Plan → Bool
is_runnable e (slug, t) = (review e (slug, t)).candidate && first_unverified_step t == 0

-- What the second loop says of one candidate.
unfoldable pub step_rows : Env → Plan → List Filing
step_rows e (slug, t) =
    let bad = first_unverified_step t in
    if (review e (slug, t)).candidate && not (bad == 0)
    then rows_of e (codes "alert")
        (codes "plan "
          ++ slug
          ++ codes " not auto-accepted: step "
          ++ decimal bad
          ++ codes " has no Verification line")
        (codes "overnight:plan-accept-blocked:" ++ slug) 86400
    else []

unfoldable pub step_notes : Env → Plan → List Text
step_notes e (slug, t) =
    let bad = first_unverified_step t in
    if (review e (slug, t)).candidate && not (bad == 0)
    then note e
        (codes "blocked " ++ slug ++ codes " step-" ++ decimal bad ++ codes "-no-verification")
    else []
