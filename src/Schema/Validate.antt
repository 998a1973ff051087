-- ===== src/Schema/Validate.antt =====
-- automation/jobs/viz_schema.py: `validate_payload` and `validate`.
use hngh.Prelude.{
  String, Option, none, some, List, [], ◌∷◌, ◌++◌, map, Bool, true, false, not, str_eq, select,
  contains, sorted, text_le, all, if◌then◌else◌,
}
use hngh.Schema.Json.{
  Json, boolean, text, object, Dict, fields, get, Kind, str_kind, int_kind, bool_kind, list_kind,
  is_instance,
}
use hngh.Schema.Entry.{error, warning, Issue, envelope, err, issue_if, missing}
use hngh.Schema.Families.{validate_graph, validate_history}
use hngh.Schema.Patrol.{validate_patrol, then_issues}
use hngh.Schema.Routes.{validate_routes}

pub data Family : Type 0 where
  graph patrol history routes : Family

-- The tag of a family.
abbrev pub tag : Family → String
tag graph = "graph/1"
tag patrol = "patrol/1"
tag history = "history/1"
tag routes = "routes/1"

-- `tag in SUPPORTED`
unfoldable pub family_of : String → Option Family
family_of s =
    if str_eq s "graph/1"
    then some graph
    else if str_eq s "patrol/1"
    then some patrol
    else if str_eq s "history/1"
    then some history
    else if str_eq s "routes/1"
    then some routes
    else none

-- The keys of an envelope, all required.
abbrev pub envelope_fields : Family → List String
envelope_fields graph = "schema" ∷ "generated_at" ∷ "nodes" ∷ "edges" ∷ []
envelope_fields patrol =
    "schema" ∷ "run_ts" ∷ "date" ∷ "tier" ∷ "patrol_count" ∷ "pass_count" ∷ "fail_count"
    ∷ "quip_present" ∷ "results" ∷ "rounds" ∷ "queued_subjects" ∷ "alerts" ∷ []
envelope_fields history = "schema" ∷ "entries" ∷ []
envelope_fields routes = "schema" ∷ "generated" ∷ "routes" ∷ []

abbrev pub types : List (String × Kind)
types =
    ("generated_at", str_kind)
    ∷ ("generated", str_kind)
    ∷ ("run_ts", str_kind)
    ∷ ("date", str_kind)
    ∷ ("quip_present", bool_kind)
    ∷ ("patrol_count", int_kind)
    ∷ ("pass_count", int_kind)
    ∷ ("fail_count", int_kind)
    ∷ ("nodes", list_kind)
    ∷ ("edges", list_kind)
    ∷ ("entries", list_kind)
    ∷ ("routes", list_kind)
    ∷ ("results", list_kind)
    ∷ ("rounds", list_kind)
    ∷ ("queued_subjects", list_kind)
    ∷ ("alerts", list_kind)
    ∷ []

-- `isinstance(value, want)`, where a bool is no int.
unfoldable pub is_strictly : Kind → Json → Bool
unfolding is_instance
is_strictly int_kind (boolean b) = false
is_strictly want v = is_instance want v

unfoldable pub is_mistyped : Dict → String × Kind → Bool
unfolding get is_strictly
is_mistyped d (f, want) = elim (get d f) [ none ↦ false | some v ↦ not (is_strictly want v) ]

-- `payload["schema"] != tag`
unfoldable pub schema_issues : Family → Dict → List Issue
unfolding get issue_if
schema_issues f d = elim (get d "schema") [
  | none ↦ err "missing-schema-field" envelope "schema" ∷ []
  | some v ↦ elim v [
    | text s ↦ issue_if (not (str_eq s (tag f))) (err "schema-version-mismatch" envelope "schema")
    | _ ↦ err "schema-version-mismatch" envelope "schema" ∷ []
  ]
]

-- The checks of an envelope, before those of its family.
unfoldable pub envelope_issues : Family → Dict → List Issue
unfolding schema_issues missing is_mistyped sorted
envelope_issues f d =
    schema_issues f d
    ++ (map (err "unknown-envelope-key" envelope)
          (select (λ k. not (contains (envelope_fields f) k)) (sorted text_le (map (λ kv. kv.0) d)))
        ++ (missing envelope (envelope_fields f) d
            ++ map (λ t. err "wrong-type" envelope t.0) (select (is_mistyped d) types)))

module _ (same_json : Json → Json → Bool) where
  -- The validator of a family; `none` where it raises.
  unfoldable pub validator : Family → Dict → Option (List Issue)
  unfolding validate_graph validate_patrol validate_history validate_routes
  validator graph d = some (validate_graph same_json d)
  validator patrol d = validate_patrol d
  validator history d = some (validate_history d)
  validator routes d = some (validate_routes d)

  unfoldable pub family_issues : Family → Dict → Option (List Issue)
  unfolding envelope_issues validator then_issues
  family_issues f d = then_issues (envelope_issues f d) (validator f d)

  unfoldable pub tag_issues : String → Dict → Option (List Issue)
  unfolding family_of family_issues
  tag_issues s d = elim (family_of s) [
    | none ↦ some (err "unknown-schema-version" envelope s ∷ [])
    | some f ↦ family_issues f d
  ]

  -- `validate_payload(payload, tag)`
  unfoldable pub validate_payload : Option String → Json → Option (List Issue)
  unfolding tag_issues get
  validate_payload (some s) (object fs) = tag_issues s (fields fs)
  validate_payload none (object fs) = elim (get (fields fs) "schema") [
    | none ↦ some (err "missing-schema-field" envelope "schema" ∷ [])
    | some v ↦ elim v [
      | text s ↦ tag_issues s (fields fs)
      | _ ↦ some (err "schema-not-string" envelope "schema" ∷ [])
    ]
  ]
  validate_payload _ _ = some (err "envelope-not-object" envelope "" ∷ [])

-- The issue lets the payload pass.
unfoldable pub is_mild : Issue → Bool
is_mild i = elim i.severity [ error ↦ false | warning ↦ true ]

-- `errors` is empty.
unfoldable pub accepts : List Issue → Bool
unfolding is_mild
accepts issues = all is_mild issues

-- The result and the warnings; `none` where the validator raises.
unfoldable pub verdict : Option (List Issue) → Option (Bool × List Issue)
unfolding accepts is_mild
verdict none = none
verdict (some issues) = some (accepts issues, select is_mild issues)

-- `validate(payload_text, tag)`, from what `json.loads` returns on; `none` is its ValueError.
unfoldable pub validate_decoded :
    (Json → Json → Bool) → Option String → Option Json → Option (Bool × List Issue)
unfolding validate_payload verdict
validate_decoded same_json want none = some (false, [])
validate_decoded same_json want (some payload) = verdict (validate_payload same_json want payload)

unfoldable pub validate :
    (Json → Json → Bool)
    → (String → Option Json)
    → String
    → Option String
    → Option (Bool × List Issue)
unfolding validate_decoded
validate same_json loads payload_text want = validate_decoded same_json want (loads payload_text)
