-- ===== src/Router/Shapes.antt =====
-- automation/scripts/router-tick.py: the candidate that an identity is routed to.
use Prim.Native.Nat.{ℕ}
use hngh.Prelude.{
  Option, none, some, List, [], ◌∷◌, ◌++◌, Bool, false, not, ◌||◌, ◌==◌, any, if◌then◌else◌, select,
}
use hngh.Texts.{Text, codes, is_empty, occurs, collapse, is_lower, is_digit}
use hngh.Texts.Decimal.{decimal}
use hngh.FilingBudget.{lstrip_dash, rstrip_dash}
use hngh.Router.{Env, now_utc, today}
use hngh.Router.Identity.{lower}

-- The title of the step, and its verification.
abbrev pub Shape : Type 0
Shape = Text × Text

abbrev pub critical_keys : List Text
critical_keys = codes "remote-posture" ∷ codes "budget" ∷ []

-- `any(k in low for k in keys)`
unfoldable pub has_key : Text → List Text → Bool
unfolding occurs
has_key low keys = any (λ k. occurs k low) keys

-- `[a-z0-9._-]`
abbrev pub in_subject_id : ℕ → Bool
in_subject_id c = is_lower c || is_digit c || c == b'.' || c == b'_' || c == b'-'

-- `research_shape(identity)`
unfoldable pub research_shape : Env → Text → Shape
unfolding collapse lstrip_dash rstrip_dash lower today
research_shape e identity =
    let slug = rstrip_dash (lstrip_dash (collapse in_subject_id false (lower identity))) in
    let day = select (λ c. not (c == b'-')) (today e) in
    let sid = codes "fail-" ++ day ++ codes "-" ++ slug in
    (
      codes "Delve: open research subject "
          ++ sid
          ++ codes " for "
          ++ identity
          ++ codes "; record disposition; then fix or park",
      codes "research subject "
          ++ sid
          ++ codes
              " present in research-subjects.txt with a recorded disposition; alert fixed or parked",
    )

abbrev pub skew_shape : Shape
skew_shape = (
  codes "Whitelist check + handoff/commit of the stalled edit",
  codes "dirty-tree whitelist clean; stalled edit committed or handed off",
)

abbrev pub stall_shape : Shape
stall_shape = (
  codes
      "Stop the stalled session, write a handoff brief (last state + next action), start the replacement",
  codes
      "old session id gone from supervision state; handoff brief file exists; replacement session shows fresh tool activity",
)

abbrev pub store_shape : Shape
store_shape = (
  codes "Re-run the ceremony with a fresh per-run store (known recovery)",
  codes "ceremony completes rc=0 from a fresh /tmp/hngh-cer-* store",
)

abbrev pub review_shape : Shape
review_shape = (
  codes "Fix the review finding in docs/automation with a named verification",
  codes "the finding's own check passes; `make test` green",
)

abbrev pub readout_shape : Shape
readout_shape = (
  codes "Feed-regen re-read step (fix already landed as precedent)",
  codes "readout.json regenerates and parses",
)

abbrev pub gate_shape : Shape
gate_shape = (
  codes "Re-run the named gate, capture the failing check, fix or park",
  codes "both `make test` gates green; failing check captured",
)

-- `NORMAL_SHAPES` behind the first row.
abbrev pub other_shapes : List (List Text × Shape)
other_shapes =
    (codes "tree-skew" ∷ [], skew_shape)
    ∷ (codes "agent-stall" ∷ codes "loop-signal" ∷ codes ":stalled" ∷ [], stall_shape)
    ∷ (codes "ceremony-temp" ∷ codes "store" ∷ [], store_shape)
    ∷ (codes "review" ∷ [], review_shape)
    ∷ (codes "readout" ∷ [], readout_shape)
    ∷ []

-- The shape of the first row with a key in the text.
unfoldable pub first_shape : Shape → Text → List (List Text × Shape) → Shape
unfolding has_key
first_shape default low [] = default
first_shape default low ((keys, shape) ∷ rows) =
    let rest = first_shape default low rows in if has_key low keys then shape else rest

-- The shape of a text that is not critical.
unfoldable pub normal_shape : Shape → Text → Shape
unfolding has_key first_shape
normal_shape research low =
    if has_key low (codes "gate" ∷ [])
    then (if has_key low (codes "tree-skew" ∷ []) then gate_shape else research)
    else first_shape research low other_shapes

-- `shape_for(identity)`; `none` parks.
unfoldable pub shape_for : Env → Text → Option Shape
unfolding has_key normal_shape research_shape lower
shape_for e identity =
    if has_key (lower identity) critical_keys
    then none
    else some (normal_shape (research_shape e identity) (lower identity))

-- `candidate_text(identity, text, shape, date, attempt, expires)`
unfoldable pub candidate_text : Env → Text → Text → Shape → Text → ℕ → Text → Text
unfolding now_utc decimal
candidate_text e identity text (title, verify) date attempt expires =
    codes "<!-- plan: status=proposed risk=normal accepted=- routed-from="
    ++ identity
    ++ codes " -->\n"
    ++ codes "<!-- attempt: "
    ++ decimal attempt
    ++ codes " -->\n<!-- expires: "
    ++ expires
    ++ codes
        " -->\nprinciple: routed candidates keep alert lineage machine-visible (docs/project/plans/README.md)\n# "
    ++ date
    ++ codes " — routed candidate\n\nRouted by scripts/router-tick.py from alert identity `"
    ++ identity
    ++ codes "`\nat "
    ++ now_utc e
    ++ codes ". Alert text: "
    ++ (if is_empty text then identity else text)
    ++ codes "\n\n## Steps\n\n- [ ] "
    ++ title
    ++ codes "\n      Verification: "
    ++ verify
    ++ codes "\n"
