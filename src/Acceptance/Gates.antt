-- ===== src/Acceptance/Gates.antt =====
-- automation/scripts/accept-plans.py: the gates, and main over the whole plans directory.
use Prim.Native.Nat.{suc}
use hngh.Prelude.{
  ◌==◌, Option, none, some, List, [], ◌∷◌, ◌++◌, Bool, false, not, if◌then◌else◌, map, select, ℤ,
  pos, negsuc,
}
use hngh.Texts.{Text, codes}
use hngh.Texts.Decimal.{decimal}
use hngh.ReportQueue.{Clock, Filing, World as Queue, report as file_report}
use hngh.Acceptance.{Front, front_of, accepted_text}
use hngh.Acceptance.Run.{
  Plan, Gate, Env, rows_of, note, written, review, is_runnable, step_rows, step_notes,
}

-- How the evaluation of the gates ends.
pub data Verdict : Type 0 where
  busy : Verdict
  kernel_red : ℤ → Text → Verdict
  automation_red : ℤ → Text → Verdict
  green : Verdict

abbrev pub is_zero : ℤ → Bool
is_zero (pos n) = n == 0
is_zero (negsuc n) = false

abbrev pub signed : ℤ → Text
signed (pos n) = decimal n
signed (negsuc n) = codes "-" ++ decimal (suc n)

abbrev pub kernel_of : Env → Gate
kernel_of e = if e.isolated then e.kernel_rehearsal else e.kernel_gate

abbrev pub automation_of : Env → Gate
automation_of e = if e.isolated then e.automation_rehearsal else e.automation_gate

-- The lock, and both gates under it; a red kernel gate decides.
unfoldable pub verdict : Env → Verdict
verdict e =
    if not e.lock_free
    then busy
    else if not (is_zero (kernel_of e).0)
    then kernel_red (kernel_of e).0 (kernel_of e).1
    else if not (is_zero (automation_of e).0)
    then automation_red (automation_of e).0 (automation_of e).1
    else green

abbrev pub acceptance : Env → Text → Option Front → Text
acceptance e t none = t
acceptance e t (some f) = written e (accepted_text e.now f) t

-- The text of a plan that can be accepted, behind the gates.
unfoldable pub gated_body : Env → Verdict → Text → Text
gated_body e green t = acceptance e t (front_of t)
gated_body e busy t = t
gated_body e (kernel_red rc out) t = t
gated_body e (automation_red rc out) t = t

-- The text of a plan behind the run.
unfoldable pub final_body : Env → Plan → Text
final_body e (slug, t) =
    if is_runnable e (slug, t) then gated_body e (verdict e) t else (review e (slug, t)).body

unfoldable pub accept_row : Env → Text → List Filing
accept_row e slug =
    rows_of e (codes "progress")
      (codes "plan "
        ++ slug
        ++ codes " auto-accepted (normal-risk, verification runnable, both gates green); accepted="
        ++ e.now)
      (codes "overnight:plan-accepted:" ++ slug) 86400

abbrev pub joined_rows : List (List Filing) → List Filing
joined_rows [] = []
joined_rows (rows ∷ more) = rows ++ joined_rows more

abbrev pub joined_notes : List (List Text) → List Text
joined_notes [] = []
joined_notes (notes ∷ more) = notes ++ joined_notes more

-- The rows about the gates.
unfoldable pub gate_rows : Env → Verdict → List Plan → List Filing
gate_rows e busy plans =
    rows_of e (codes "alert")
      (codes
        "plan acceptance deferred: gate lock busy (another gate evaluation compiles; isolated retry next tick)")
      (codes "overnight:plan-accept-gate:busy") 86400
gate_rows e (kernel_red rc out) plans =
    rows_of e (codes "alert")
      (codes "plan acceptance blocked: kernel make test FAILED (rc="
        ++ signed rc
        ++ codes ")\n"
        ++ e.strip out)
      (codes "overnight:plan-accept-gate:kernel") 86400
gate_rows e (automation_red rc out) plans =
    rows_of e (codes "alert")
      (codes "plan acceptance blocked: hngh-automation make test FAILED (rc="
        ++ signed rc
        ++ codes ")\n"
        ++ e.strip out)
      (codes "overnight:plan-accept-gate:automation") 86400
gate_rows e green plans = joined_rows (map (λ p. accept_row e p.0) plans)

unfoldable pub gate_note : Env → Verdict → Text → List Text
gate_note e busy slug = note e (codes "blocked " ++ slug ++ codes " gate-lock-busy")
gate_note e (kernel_red rc out) slug =
    note e (codes "blocked " ++ slug ++ codes " kernel-gate-red-rc" ++ signed rc)
gate_note e (automation_red rc out) slug =
    note e (codes "blocked " ++ slug ++ codes " automation-gate-red-rc" ++ signed rc)
gate_note e green slug = note e (codes "accepted " ++ slug ++ codes " " ++ e.now)

-- The gates are not evaluated when there is nothing to accept.
unfoldable pub end_rows : Env → List Plan → List Filing
end_rows e [] = []
end_rows e (p ∷ plans) = gate_rows e (verdict e) (p ∷ plans)

-- The rows of the run, in their order.
unfoldable pub run_rows : Env → List Plan → List Filing
run_rows e plans =
    joined_rows (map (λ p. (review e p).rows) plans)
    ++ joined_rows (map (step_rows e) plans)
    ++ end_rows e (select (is_runnable e) plans)

-- The lines of the log, in their order.
unfoldable pub run_notes : Env → List Plan → List Text
run_notes e plans =
    joined_notes (map (λ p. (review e p).notes) plans)
    ++ joined_notes (map (step_notes e) plans)
    ++ joined_notes (map (λ p. gate_note e (verdict e) p.0) (select (is_runnable e) plans))

-- The rows go to the report queue one by one.
unfoldable pub file_rows : Clock → List Filing → Queue → Queue
file_rows c [] q = q
file_rows c (f ∷ rows) q = file_rows c rows (file_report c f none q).1

-- The plans directory in its sorted order, the report queue and the log.
pub record World : Type 0 where
  pub plans : List Plan
  pub queue : Queue
  pub log : List Text

-- `main()`; its exit code is 0.
unfoldable pub main : Env → World → World
main e w = record {
  plans = map (λ p. (p.0, final_body e p)) w.plans;
  queue = file_rows e.clock (run_rows e w.plans) w.queue;
  log = w.log ++ run_notes e w.plans;
}
