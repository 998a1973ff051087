-- ===== src/Tests/Payloads.antt =====
-- The payload validator on small payloads.
use hngh.Prelude.{String, Option, none, some, [], ◌∷◌, ◌≡◌, refl, Bool, false, pos}
use hngh.Schema.Json.{
  Json, null, integer, text, array, object, Items, nil, cons, Fields, end, field, has_key,
}
use hngh.Schema.Entry.{entry, warn, err, list_at}
use hngh.Schema.Validate.{validate, validate_payload}
use hngh.Schema.Accepts.{IsGraph, validate-IsGraph}

abbrev never : Json → Json → Bool
never v w = false

abbrev node : String → Fields → Json
node id more = object (
    field "id" (text id) (
      field "kind" (text "leg")
        (field "label" (text "l") (field "state" (text "stale") (field "detail" (text "") more)))))

abbrev edge : String → String → Json
edge src dst =
    object (field "src" (text src) (field "dst" (text dst) (field "rel" (text "runs") end)))

abbrev graph_of : Items → Items → Json
graph_of nodes edges = object (
    field "schema" (text "graph/1") (
      field "generated_at" (text "t")
        (field "nodes" (array nodes) (field "edges" (array edges) end))))

abbrev nodes : Items
nodes = cons (node "a" (field "extra" (integer (pos 1)) end)) (cons (node "b" end) nil)

abbrev drawn : Json
drawn = graph_of nodes (cons (edge "a" "b") nil)

-- What `json.loads` gives for the one text that is looked at.
abbrev loads : String → Option Json
loads s = some drawn

graph_runs :
    (validate_payload never (some "graph/1") drawn
      ≡ some (warn "unknown-extra-key" (entry "nodes" 0) "extra" ∷ []))
    × (validate_payload never none (graph_of nodes (cons (edge "a" "a") nil))
        ≡ some (
            warn "unknown-extra-key" (entry "nodes" 0) "extra"
            ∷ err "self-loop-edge" (entry "edges" 0) "src"
            ∷ []))
    × (validate_payload never none (graph_of nil (cons (edge "a" "b") nil))
        ≡ some (
            err "dangling-edge-endpoint" (entry "edges" 0) "src"
            ∷ err "dangling-edge-endpoint" (entry "edges" 0) "dst"
            ∷ []))
unfolding validate_payload has_key list_at
graph_runs = (refl, refl, refl)

-- A null under an unknown key is an error in a graph, and a warning in a history.
null_runs :
    (validate_payload never none (graph_of (cons (node "a" (field "extra" null end)) nil) nil)
      ≡ some (err "unknown-key-nested-payload" (entry "nodes" 0) "extra" ∷ []))
    × (validate_payload never none (
          object (
            field "schema" (text "history/1") (
              field "entries"
                (array (
                  cons
                    (object (
                      field "key" (text "k") (
                        field "ts"
                          (text "t")
                          (field "summary" (text "s") (field "extra" null end)))))
                    nil))
                end)))
        ≡ some (warn "unknown-extra-key" (entry "entries" 0) "extra" ∷ []))
unfolding validate_payload has_key list_at
null_runs = (refl, refl)

validate-IsGraph_example : (payload : Json) × (loads "{}" ≡ some payload) × IsGraph payload
unfolding validate has_key list_at
validate-IsGraph_example =
    validate-IsGraph never loads "{}" (warn "unknown-extra-key" (entry "nodes" 0) "extra" ∷ []) refl
