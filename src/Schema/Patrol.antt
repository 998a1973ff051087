-- ===== src/Schema/Patrol.antt =====
-- automation/jobs/viz_schema.py: `_validate_patrol`.
use hngh.Prelude.{
  ℕ, zero, String, Option, none, some, List, [], ◌∷◌, ◌++◌, Bool, true, false, not, contains, ℤ,
  pos, ◌+ℤ◌, ltb_ℤ,
}
use hngh.Schema.Json.{
  Json, null, boolean, integer, real, text, array, object, Dict, items, get, Kind, str_kind,
  int_kind, list_kind,
}
use hngh.Schema.Entry.{
  Issue, Place, envelope, entry, inner, err, issue_if, scalar_extra, check_entry, each, over,
}
use hngh.Schema.Families.{texts}

abbrev pub result_texts : List String
result_texts = "id" ∷ "surface" ∷ "check" ∷ "tier" ∷ "finding_class" ∷ []

abbrev pub result_fields : List String
result_fields = result_texts ++ "passes" ∷ "fails" ∷ []

abbrev pub result_types : List (String × Kind)
result_types = texts result_texts ++ ("passes", list_kind) ∷ ("fails", list_kind) ∷ []

-- `tier not in ("30m", "day", None)`
unfoldable pub is_tier : Json → Bool
is_tier null = true
is_tier (text s) = contains ("30m" ∷ "day" ∷ []) s
is_tier _ = false

unfoldable pub tier_issues : Dict → List Issue
unfolding get is_tier issue_if
tier_issues d = elim (get d "tier") [
  | none ↦ []
  | some v ↦ issue_if (not (is_tier v)) (err "wrong-type" envelope "tier")
]

-- An int that is no bool.
unfoldable pub count_at : Dict → String → Option ℤ
unfolding get
count_at d key = elim (get d key) [
  | none ↦ none
  | some v ↦ elim v [ integer n ↦ some n | _ ↦ none ]
]

-- `pass_count + fail_count < patrol_count`, where all three are ints.
unfoldable pub count_issues : Dict → List Issue
unfolding count_at issue_if
count_issues d = elim (count_at d "patrol_count") [
  | none ↦ []
  | some total ↦ elim (count_at d "pass_count") [
    | none ↦ []
    | some passed ↦ elim (count_at d "fail_count") [
      | none ↦ []
      | some lost ↦
          issue_if (ltb_ℤ (passed +ℤ lost) total) (err "count-invariant-violated" envelope "")
    ]
  ]
]

-- An entry whose fields are texts, with nothing checked behind them.
unfoldable pub plain_entry : Place → List String → List (String × Kind) → Json → List Issue
unfolding check_entry scalar_extra
plain_entry place names types = check_entry place names types (scalar_extra place names)

abbrev pub pass_fields : List String
pass_fields = "name" ∷ "detail" ∷ []

abbrev pub fail_fields : List String
fail_fields = "artifact" ∷ "cause" ∷ "detail" ∷ []

unfoldable pub result_issues : ℕ → Json → List Issue
unfolding check_entry scalar_extra plain_entry over each
result_issues i =
    let place = entry "results" i in
    check_entry place result_fields result_types (λ d.
      scalar_extra place result_fields d
      ++ (over d "passes"
            (each (λ j. plain_entry (inner place "passes" j) pass_fields (texts pass_fields)) 0)
          ++ over d "fails"
              (each (λ j. plain_entry (inner place "fails" j) fail_fields (texts fail_fields)) 0)))

abbrev pub round_fields : List String
round_fields = "id" ∷ "surface" ∷ "artifact" ∷ "cause" ∷ []

abbrev pub alert_fields : List String
alert_fields = "identity" ∷ "window" ∷ "text" ∷ "evidence" ∷ []

abbrev pub alert_types : List (String × Kind)
alert_types =
    ("identity", str_kind) ∷ ("window", int_kind) ∷ ("text", str_kind) ∷ ("evidence", str_kind) ∷ []

unfoldable pub subject_issues : ℕ → Json → List Issue
subject_issues i (text s) = []
subject_issues i (object fs) = []
subject_issues i _ = err "wrong-type" (entry "queued_subjects" i) "" ∷ []

-- `enumerate(payload.get("queued_subjects") or [])`: a text and an object give texts, and a number or
-- `true` raises TypeError, which is `none`.
unfoldable pub queued_issues : Option Json → Option (List Issue)
unfolding each subject_issues
queued_issues (some (array vs)) = some (each subject_issues 0 (items vs))
queued_issues (some (boolean true)) = none
queued_issues (some (integer (pos zero))) = some []
queued_issues (some (integer n)) = none
queued_issues (some (real false digits)) = none
queued_issues _ = some []

-- The checks up to the queued subjects.
unfoldable pub patrol_issues : Dict → List Issue
unfolding tier_issues count_issues over each result_issues plain_entry
patrol_issues d =
    tier_issues d
    ++ (count_issues d
        ++ (over d "results" (each result_issues 0)
            ++ (over d "rounds"
                  (each (λ i. plain_entry (entry "rounds" i) round_fields (texts round_fields)) 0)
                ++ over d "alerts"
                    (each (λ i. plain_entry (entry "alerts" i) alert_fields alert_types) 0))))

-- Issues, and more behind them unless finding those raises.
unfoldable pub then_issues : List Issue → Option (List Issue) → Option (List Issue)
then_issues found none = none
then_issues found (some more) = some (found ++ more)

-- `_validate_patrol`
unfoldable pub validate_patrol : Dict → Option (List Issue)
unfolding patrol_issues queued_issues then_issues
validate_patrol d = then_issues (patrol_issues d) (queued_issues (get d "queued_subjects"))
