-- ===== src/Schema/Families.antt =====
-- automation/jobs/viz_schema.py: the validators of the four payload families.
use hngh.Prelude.{
  ℕ, String, Option, none, some, List, [], ◌∷◌, ◌++◌, map, Bool, false, not, ◌||◌, str_eq, contains,
  sorted, text_le, if◌then◌else◌,
}
use hngh.Schema.Json.{
  Json, null, text, Dict, get, Kind, str_kind, list_kind, dict_kind, is_instance,
}
use hngh.Schema.Entry.{
  Issue, Place, entry, err, warn, issue_if, scalar_extra, check_entry, each, each_seen, all_seen,
  duplicate, is_unknown, list_at, over,
}

abbrev pub node_kinds : List String
node_kinds =
    "kernel" ∷ "leg" ∷ "service" ∷ "package" ∷ "seam" ∷ "spawn-path" ∷ "patrol" ∷ "surface" ∷ "cap"
    ∷ "guard" ∷ "research-line" ∷ "jcode-session" ∷ "swarm" ∷ []

abbrev pub node_states : List String
node_states = "healthy" ∷ "stale" ∷ "alerting" ∷ "neutral" ∷ []

abbrev pub rel_values : List String
rel_values =
    "chain-admits" ∷ "bounded-by" ∷ "runs" ∷ "watched-by" ∷ "ghost-row-guard" ∷ "credential-seam"
    ∷ "fail-soft-guard" ∷ "launches-through" ∷ "drives-leg" ∷ "watches" ∷ "research-beat" ∷ "spawns"
    ∷ "coordinates" ∷ "hosts" ∷ "works-on" ∷ []

-- Every field is a text.
abbrev pub texts : List String → List (String × Kind)
texts = map (λ f. (f, str_kind))

abbrev pub node_fields : List String
node_fields = "id" ∷ "kind" ∷ "label" ∷ "state" ∷ "detail" ∷ []

abbrev pub edge_fields : List String
edge_fields = "src" ∷ "dst" ∷ "rel" ∷ []

-- The checks of a node behind those of its fields.
unfoldable pub node_checks : List String → Place → Dict → List Issue
unfolding scalar_extra duplicate is_unknown issue_if
node_checks seen place d =
    scalar_extra place node_fields d
    ++ (duplicate "id" "duplicate-node-id" seen place d
        ++ (issue_if (is_unknown d "kind" node_kinds) (warn "unknown-kind-value" place "kind")
            ++ issue_if (is_unknown d "state" node_states)
                (warn "unknown-state-value" place "state")))

unfoldable pub node_issues : List String → ℕ → Json → List Issue
unfolding check_entry node_checks
node_issues seen i =
    let place = entry "nodes" i in
    check_entry place node_fields (texts node_fields) (node_checks seen place)

-- Python's `==` on values that are not both texts.
module _ (same_json : Json → Json → Bool) where
  unfoldable pub same : Json → Json → Bool
  same (text a) (text b) = str_eq a b
  same v w = same_json v w

  -- `src is not None and src == dst`
  unfoldable pub is_loop : Option Json → Option Json → Bool
  unfolding same
  is_loop none dst = false
  is_loop (some null) dst = false
  is_loop (some src) none = false
  is_loop (some src) (some dst) = same src dst

  unfoldable pub dangling : List String → Place → String → Option Json → List Issue
  unfolding issue_if
  dangling seen place endpoint (some (text id)) =
      issue_if (not (contains seen id)) (err "dangling-edge-endpoint" place endpoint)
  dangling seen place endpoint _ = []

  -- The checks of an edge behind those of its fields.
  unfoldable pub edge_checks : List String → Place → Dict → List Issue
  unfolding scalar_extra is_loop dangling is_unknown issue_if
  edge_checks seen place d =
      scalar_extra place edge_fields d
      ++ (issue_if (is_loop (get d "src") (get d "dst")) (err "self-loop-edge" place "src")
          ++ (dangling seen place "src" (get d "src")
              ++ (dangling seen place "dst" (get d "dst")
                  ++ issue_if (is_unknown d "rel" rel_values)
                      (warn "unknown-rel-value" place "rel"))))

  unfoldable pub edge_issues : List String → ℕ → Json → List Issue
  unfolding check_entry edge_checks
  edge_issues seen i =
      let place = entry "edges" i in
      check_entry place edge_fields (texts edge_fields) (edge_checks seen place)

  -- The ids of the nodes, where there is a list of nodes.
  unfoldable pub node_ids : Option (List Json) → List String
  unfolding all_seen
  node_ids none = []
  node_ids (some vs) = all_seen "id" [] vs

  -- `_validate_graph`
  unfoldable pub validate_graph : Dict → List Issue
  unfolding over each_seen each node_issues edge_issues node_ids
  validate_graph d =
      over d "nodes" (each_seen "id" node_issues [] 0)
      ++ over d "edges" (each (edge_issues (node_ids (list_at d "nodes"))) 0)

abbrev pub history_fields : List String
history_fields = "key" ∷ "ts" ∷ "summary" ∷ []

-- Unknown keys of a history entry, in the order of the keys: objects and arrays are errors.
unfoldable pub history_extra : Place → List (String × Json) → List Issue
history_extra place [] = []
history_extra place ((key, v) ∷ rest) =
    let later = history_extra place rest in
    if contains history_fields key
    then later
    else if is_instance dict_kind v || is_instance list_kind v
    then err "unknown-key-nested-payload" place key ∷ later
    else warn "unknown-extra-key" place key ∷ later

unfoldable pub history_issues : List String → ℕ → Json → List Issue
unfolding check_entry history_extra duplicate sorted
history_issues seen i =
    let place = entry "entries" i in
    check_entry place history_fields (texts history_fields) (λ d.
      history_extra place (sorted (λ a b. text_le a.0 b.0) d)
      ++ duplicate "key" "duplicate-entry-key" seen place d)

-- `_validate_history`
unfoldable pub validate_history : Dict → List Issue
unfolding over each_seen history_issues
validate_history d = over d "entries" (each_seen "key" history_issues [] 0)
