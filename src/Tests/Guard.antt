-- ===== src/Tests/Guard.antt =====
-- Swarm sessions before the guard.
use hngh.Prelude.{
  String, pos, Option, none, some, List, [], ◌∷◌, true, false, ◌≡◌, refl, ◌↔◌, str_eq, eq_iff,
  length, ◌≤◌, suc, arith,
}
use hngh.Schema.Json.{Json, text, array, object, Items, nil, cons, end, field}
use hngh.Ng.Guard.{
  Keys, Graph, Rows, ids, node_list, by_id, edges_of, statuses, graph_depth, cycle_depth, accepts,
}
use hngh.Ng.Guard.Among.{Among}
use hngh.Ng.Guard.Chains.{Chain}
use hngh.Ng.Guard.Accepts.{accepts_iff}

abbrev text_key : Json → Option String
text_key (text t) = some t
text_key v = none

abbrev keys : Keys
keys = record { Key = String; key_of = text_key; same = str_eq; can_tally = λ vs. true }

abbrev node : String → Items → Json
node id parents_of = object (field "id" (text id) (field "blocked_by" (array parents_of) end))

abbrev session : Items → Json
session nodes = object (field "plan" (object (field "items" (array nodes) end)) end)

abbrev first : Json
first = node "a" nil

abbrev second : Json
second = node "b" (cons (text "a") nil)

abbrev chained : Json
chained = session (cons first (cons second nil))

abbrev circular : Json
circular = session (cons (node "a" (cons (text "b") nil)) (cons second nil))

caps_run :
    (accepts keys (pos 64) (pos 8) (some chained) ≡ true)
    × (accepts keys (pos 64) (pos 1) (some chained) ≡ false)
    × (accepts keys (pos 1) (pos 8) (some chained) ≡ false)
    × (accepts keys (pos 64) (pos 8) (some circular) ≡ false)
    × (accepts keys (pos 64) (pos 8) none ≡ false)
unfolding accepts graph_depth cycle_depth
caps_run = (refl, refl, refl, refl, refl)

abbrev vs : List Json
vs = first ∷ second ∷ []

abbrev rows : Rows keys
rows = ("a", first) ∷ ("b", second) ∷ []

abbrev graph : Graph String
graph = ("a", []) ∷ ("b", "a" ∷ []) ∷ []

accepts_iff_example : (accepts keys (pos 64) (pos 8) (some chained) ≡ true) ↔ (
    (length vs ≤ 64)
    × (keys.can_tally (statuses keys vs) ≡ true)
    × ¬ Among (λ k. Chain str_eq graph k (suc 8)) (ids str_eq graph))
unfolding node_list by_id edges_of cycle_depth
accepts_iff_example =
    accepts_iff keys eq_iff 64 8 chained vs rows graph refl refl refl refl (omega arith)
      (omega arith)
