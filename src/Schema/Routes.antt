-- ===== src/Schema/Routes.antt =====
-- automation/jobs/viz_schema.py: `_validate_routes`.
use hngh.Prelude.{ℕ, String, none, some, List, [], ◌∷◌, ◌++◌, Bool, false, not, ◌&&◌}
use hngh.Schema.Json.{
  Json, boolean, object, Dict, fields, get, Kind, str_kind, bool_kind, list_kind, dict_kind,
  is_instance, is_word,
}
use hngh.Schema.Entry.{
  Issue, Place, entry, inner, terminus, err, issue_if, missing, wrong_types, scalar_extra,
  check_entry, each, each_seen, duplicate, is_unknown, over,
}
use hngh.Schema.Families.{texts}

abbrev pub route_statuses : List String
route_statuses = "planned" ∷ "expanding" ∷ "contracting" ∷ "crystallized" ∷ "reviewed" ∷ []

abbrev pub route_actions : List String
route_actions = "adopted" ∷ "parked" ∷ "killed" ∷ "open" ∷ []

abbrev pub route_fields : List String
route_fields = "id" ∷ "title" ∷ "status" ∷ "segments" ∷ "terminus" ∷ "harvested" ∷ []

abbrev pub route_types : List (String × Kind)
route_types =
    ("id", str_kind)
    ∷ ("title", str_kind)
    ∷ ("status", str_kind)
    ∷ ("segments", list_kind)
    ∷ ("terminus", dict_kind)
    ∷ ("harvested", bool_kind)
    ∷ []

abbrev pub terminus_fields : List String
terminus_fields = "action" ∷ "date" ∷ []

unfoldable pub segment_issues : Place → ℕ → Json → List Issue
unfolding is_instance issue_if
segment_issues place j v =
    issue_if (not (is_instance str_kind v)) (err "wrong-type" (inner place "segments" j) "")

-- `d.get(key) in words`; an absent key is not.
unfoldable pub is_among : Dict → String → List String → Bool
unfolding get is_word
is_among d key words = elim (get d key) [ none ↦ false | some v ↦ is_word words v ]

-- `rt.get("harvested") is True`
unfoldable pub is_harvested : Dict → Bool
unfolding get
is_harvested d = elim (get d "harvested") [
  | none ↦ false
  | some v ↦ elim v [ boolean b ↦ b | _ ↦ false ]
]

unfoldable pub action_issues : Place → Bool → Dict → List Issue
unfolding missing wrong_types is_among issue_if
action_issues place harvested t =
    missing place terminus_fields t
    ++ (wrong_types place (texts terminus_fields) t
        ++ (issue_if (not (is_among t "action" route_actions))
              (err "unknown-terminus-action" place "action")
            ++ issue_if (harvested && not (is_among t "action" ("adopted" ∷ [])))
                (err "harvest-requires-adopted" place "action")))

unfoldable pub terminus_issues : Place → Dict → List Issue
unfolding get action_issues is_harvested
terminus_issues place d = elim (get d "terminus") [
  | none ↦ []
  | some v ↦ elim v [
    | object fs ↦ action_issues (terminus place) (is_harvested d) (fields fs)
    | _ ↦ []
  ]
]

unfoldable pub route_issues : List String → ℕ → Json → List Issue
unfolding check_entry scalar_extra duplicate is_unknown issue_if over each segment_issues
    terminus_issues
route_issues seen i =
    let place = entry "routes" i in
    check_entry place route_fields route_types (λ d.
      scalar_extra place route_fields d
      ++ (duplicate "id" "duplicate-route-id" seen place d
          ++ (issue_if (is_unknown d "status" route_statuses)
                (err "unknown-status-value" place "status")
              ++ (over d "segments" (each (segment_issues place) 0) ++ terminus_issues place d))))

-- `_validate_routes`
unfoldable pub validate_routes : Dict → List Issue
unfolding over each_seen route_issues
validate_routes d = over d "routes" (each_seen "id" route_issues [] 0)
