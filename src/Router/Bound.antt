-- ===== src/Router/Bound.antt =====
-- automation/scripts/router-tick.py: chain_live_count and chain_expired_close.
use Prim.Native.Nat.{ℕ}
use hngh.Prelude.{
  Option, none, some, List, [], ◌∷◌, ◌++◌, Bool, true, false, not, ◌&&◌, ltb, leb_ℤ, ℤ, pos,
  if◌then◌else◌, length, select,
}
use hngh.Texts.{
  Text, codes, same_text, holds, occurs, behind, behind_prefix, run_of, past_run, is_empty,
  is_digit, is_space, first_part,
}
use hngh.Texts.Decimal.{number}
use hngh.Router.{Env, Plan}
use hngh.Router.Identity.{subject_of, routed_name}
use hngh.Router.Plans.{status_of, replace_status, head_of, step_states}
use hngh.Router.Chains.{status_in}

-- Whether a plan with this status binds the bound.
unfoldable pub binds : Text → Option Text → Bool
unfolding same_text holds step_states occurs
binds body none = true
binds body (some status) =
    if holds (codes "executed" ∷ codes "rejected" ∷ []) status
    then false
    else if same_text status (codes "accepted")
    then not (ltb 0 (step_states body).0)
    else if same_text status (codes "expired")
    then not (occurs (codes "cause: route-expiry") (head_of body))
    else true

-- A plan that `chain_live_count` counts.
unfoldable pub is_counted : Text → Plan → Bool
unfolding routed_name status_of binds
is_counted subject p = routed_name subject p.name && binds p.body (status_of (head_of p.body))

-- `chain_live_count(identity)`
unfoldable pub chain_live_count : Text → List Plan → ℕ
unfolding is_counted subject_of
chain_live_count identity plans = length (select (is_counted (subject_of identity)) plans)

abbrev pub value_behind : (ℕ → Bool) → Option Text → Option Text
value_behind p none = none
value_behind p (some t) =
    let value = run_of p (past_run is_space t) in if is_empty value then none else some value

abbrev pub or_later : Option Text → Option Text → Option Text
or_later none other = other
or_later (some found) other = some found

-- `re.search(mark + "\s*(...+)", text)` for the characters that pass the test.
unfoldable pub stamp_of : Text → (ℕ → Bool) → Text → Option Text
unfolding behind_prefix run_of past_run
stamp_of mark p [] = none
stamp_of mark p (c ∷ t) = or_later (value_behind p (behind_prefix mark (c ∷ t))) (stamp_of mark p t)

abbrev pub at_least_one : Option Text → Bool
at_least_one none = false
at_least_one (some digits) = ltb 0 (number 0 digits)

abbrev pub before_now : Env → Option ℤ → Bool
before_now e none = false
before_now e (some t) = not (leb_ℤ (pos e.now) t)

abbrev pub lapsed : Env → Option Text → Bool
lapsed e none = false
lapsed e (some stamp) = before_now e (e.parse_iso stamp)

-- A plan that `chain_expired_close` retires.
unfoldable pub is_lapsed : Env → Text → Plan → Bool
unfolding routed_name status_of stamp_of number holds
is_lapsed e subject p =
    routed_name subject p.name
    && not (
        status_in (codes "executed" ∷ codes "rejected" ∷ codes "expired" ∷ codes "accepted" ∷ [])
          (status_of (head_of p.body)))
    && at_least_one (stamp_of (codes "attempt:") is_digit (head_of p.body))
    && lapsed e (stamp_of (codes "expires:") (λ c. not (is_space c)) (head_of p.body))

-- The rest of the text with the line break before it, where there is one.
abbrev pub with_break : Option Text → Text
with_break none = []
with_break (some rest) = b'\n' ∷ rest

abbrev pub rest_line : Option Text → Text
rest_line none = []
rest_line (some rest) = rest

-- The first line and what is behind it, with the cause between them.
abbrev pub with_cause : Text → Option Text → Text
with_cause head rest =
    if occurs (codes "route-expiry") head
    then head ++ with_break rest
    else head ++ codes "\n<!-- cause: route-expiry -->\n" ++ rest_line rest

-- The text that `chain_expired_close` writes.
unfoldable pub closed_text : Text → Text
unfolding first_part replace_status occurs behind
closed_text t =
    with_cause (replace_status (codes "expired") false (first_part b'\n' t)) (behind (codes "\n") t)

unfoldable pub close_plan : Env → Text → Plan → Plan
unfolding is_lapsed closed_text
close_plan e subject p = if is_lapsed e subject p then record p { body = closed_text p.body } else p

unfoldable pub close_each : Env → Text → List Plan → List Plan
unfolding close_plan
close_each e subject [] = []
close_each e subject (p ∷ plans) = close_plan e subject p ∷ close_each e subject plans

-- `chain_expired_close(identity)`: the count, and the plans behind it.
unfoldable pub chain_expired_close : Env → Text → List Plan → ℕ × List Plan
unfolding is_lapsed close_each subject_of
chain_expired_close e identity plans = (
  length (select (is_lapsed e (subject_of identity)) plans),
  close_each e (subject_of identity) plans,
)
