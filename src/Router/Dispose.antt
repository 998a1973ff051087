-- ===== src/Router/Dispose.antt =====
-- automation/scripts/plan-dispose.py: the terminal disposition of a plan.
use Prim.Native.Nat.{ℕ, zero, suc}
use hngh.Prelude.{Option, none, some, List, [], ◌∷◌, ◌++◌, false, not, ◌||◌, if◌then◌else◌}
use hngh.Texts.{
  Text, codes, is_empty, same_text, holds, before, behind, behind_prefix, past_run, is_space,
}
use hngh.Router.{Env, now_utc}
use hngh.Router.Plans.{own_status, replace_status}

-- `ACTIONS`
unfoldable pub status_for : Text → Option Text
unfolding same_text
status_for action =
    if same_text action (codes "park")
    then some (codes "parked")
    else if same_text action (codes "kill")
    then some (codes "killed")
    else if same_text action (codes "supersede")
    then some (codes "superseded")
    else none

abbrev pub causes : List Text
causes =
    codes "bad-execution"
    ∷ codes "missing-knowledge"
    ∷ codes "missing-design"
    ∷ codes "missing-authority"
    ∷ codes "obsolete"
    ∷ codes "unknown"
    ∷ []

abbrev pub disposed_status : List Text
disposed_status =
    codes "executed" ∷ codes "rejected" ∷ codes "parked" ∷ codes "killed" ∷ codes "superseded" ∷ []

-- A text with the header's comment in it: what stands before, the header, and what stands behind.
pub record Parts : Type 0 where
  pub front : Text
  pub header : Text
  pub rest : Text

-- The parts at a comment that is open and not yet closed.
abbrev pub closed_at : Text → Option Text → Option Parts
closed_at t none = none
closed_at t (some rest) = some (record { front = []; header = before (codes "-->") t; rest = rest })

-- Behind `plan:` there may be space, and the comment must close.
abbrev pub header_at : Option Text → Option Parts
header_at none = none
header_at (some t) = closed_at (past_run is_space t) (behind (codes "-->") (past_run is_space t))

abbrev pub opened_at : Option Text → Option Parts
opened_at none = none
opened_at (some t) = header_at (behind_prefix (codes "plan:") (past_run is_space t))

abbrev pub or_parts : ℕ → Option Parts → Option Parts → Option Parts
or_parts c none none = none
or_parts c none (some p) = some (record p { front = c ∷ p.front })
or_parts c (some p) _ = some p

-- `HEADER_RE.search(text)`
unfoldable pub header_of : Text → Option Parts
unfolding behind_prefix past_run before behind
header_of [] = none
header_of (c ∷ t) = or_parts c (opened_at (behind_prefix (codes "<!--") (c ∷ t))) (header_of t)

-- `text.replace("-->", "")`; `skip` counts the characters of a match that are still to be dropped.
unfoldable pub without_close : ℕ → Text → Text
unfolding behind_prefix
without_close skip [] = []
without_close (suc skip) (c ∷ t) = without_close skip t
without_close zero (c ∷ t) =
    let dropped = without_close 2 t in
    let kept = without_close 0 t in
    elim (behind_prefix (codes "-->") (c ∷ t)) [ some rest ↦ dropped | none ↦ c ∷ kept ]

-- What is appended to the header.
unfoldable pub disposition : Env → Text → Text → Text
disposition e cause reason =
    codes " cause="
    ++ cause
    ++ codes " disposed="
    ++ now_utc e
    ++ codes " reason="
    ++ without_close 0 reason

-- The header that is written.
unfoldable pub new_header : Env → Text → Text → Text → Text → Text
new_header e status cause reason header =
    replace_status status false header ++ disposition e cause reason

-- The new text, unless the status is missing or terminal.
unfoldable pub dispose_parts : Env → Text → Text → Text → Parts → Option Text → Option Text
dispose_parts e status cause reason p none = none
dispose_parts e status cause reason p (some old) =
    if holds disposed_status old
    then none
    else some (
        p.front
        ++ codes "<!-- plan: "
        ++ new_header e status cause reason p.header
        ++ codes " -->"
        ++ p.rest)

unfoldable pub dispose_found : Env → Text → Text → Text → Option Parts → Option Text
dispose_found e status cause reason none = none
dispose_found e status cause reason (some p) =
    dispose_parts e status cause reason p (own_status false p.header)

-- `dispose` on the text of a plan that is found: what is written, and `none` for a refusal.
unfoldable pub dispose : Env → Text → Text → Text → Text → Option Text
dispose e status cause reason t = dispose_found e status cause reason (header_of t)

-- The refusals of `main` before that.
unfoldable pub disposed_by : Env → Option Text → Text → Text → Text → Option Text
disposed_by e none cause reason t = none
disposed_by e (some status) cause reason t =
    if not (holds causes cause) || is_empty reason then none else dispose e status cause reason t

-- `main` with an action, a cause and a reason, for the text of a plan within the plans directory.
unfoldable pub dispose_main : Env → Text → Text → Text → Text → Option Text
dispose_main e action cause reason t = disposed_by e (status_for action) cause reason t
