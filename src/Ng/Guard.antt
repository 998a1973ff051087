-- ===== src/Ng/Guard.antt =====
-- automation/ng/jcode_guard.py: the node cap and the depth cap of a swarm session.
pub mod Among
pub mod Chains
pub mod Accepts
use Prim.Native.Nat.{ℕ, zero, suc, ◌+◌, max}
use Prim.Native.String as Str
use hngh.Prelude.{
  String, ℤ, pos, Option, none, some, List, [], ◌∷◌, Bool, true, false, ◌&&◌, ◌||◌, str_eq, any,
  map, length, select, ltb_ℤ, if◌then◌else◌,
}
use hngh.Schema.Json.{
  Json, null, boolean, integer, real, text, array, object, Items, nil, cons, Fields, end, field,
  Dict, items, fields, get,
}
use hngh.Supervision.Transcript.{is_true}

-- The keys of the host's dictionaries: the key of a value (`none` where it cannot be one, which
-- raises), when two are the same, and whether a list of statuses can be counted and sorted.
pub record Keys : Type 1 where
  pub Key : Type 0
  pub key_of : Json → Option Key
  pub same : Key → Key → Bool
  pub can_tally : List (Option Json) → Bool

-- The list that a field holds, or the values of its dictionary.
abbrev listed : Option Json → Option (List Json)
listed (some (array vs)) = some (items vs)
listed (some (object fs)) = some (map (λ (e : String × Json). e.1) (fields fs))
listed _ = none

abbrev or_else : Option (List Json) → Option (List Json) → Option (List Json)
or_else none rest = rest
or_else (some vs) rest = some vs

abbrev only_object : Json → Option (List Json) → Option (List Json)
only_object (object fs) found = found
only_object v found = none

-- `_items(doc)`, and `_items` of the dictionary under `plan`
unfoldable mutual
  unfolding get

  pub node_list : Json → Option (List Json)
  node_list (array vs) = some (items vs)
  node_list (object fs) =
      or_else (listed (get (fields fs) "items"))
        (or_else (listed (get (fields fs) "nodes")) (plan_list fs))
  node_list v = none

  pub plan_list : Fields → Option (List Json)
  plan_list end = none
  plan_list (field k v fs) =
      let found = only_object v (node_list v) in
      let rest = plan_list fs in if str_eq k "plan" then found else rest

abbrev pub dict_of : Json → Option Dict
dict_of (object fs) = some (fields fs)
dict_of v = none

-- `node.get(key)`, where it is true.
abbrev pub truly : Option Json → Option Json
truly none = none
truly (some v) = if is_true v then some v else none

unfoldable pub field_at : String → Json → Option Json
unfolding get
field_at key v = elim (dict_of v) [ none ↦ none | some d ↦ truly (get d key) ]

-- The dependency graph: the ids in the order of their first nodes, each with the ids it is blocked by.
abbrev pub Graph : Type 0 → Type 0
Graph K = List (K × List K)

module _ {K : Type 0} (same : K → K → Bool) where
  unfoldable pub lookup {ℓ} : {A : Type ℓ} → K → List (K × A) → Option A
  lookup k [] = none
  lookup k ((j, a) ∷ m) = let rest = lookup k m in if same j k then some a else rest

  unfoldable pub insert {ℓ} : {A : Type ℓ} → K → A → List (K × A) → List (K × A)
  insert k a [] = (k, a) ∷ []
  insert k a ((j, b) ∷ m) =
      let rest = insert k a m in if same j k then (j, a) ∷ m else (j, b) ∷ rest

  abbrev pub is_in : List K → K → Bool
  is_in ks k = any (λ j. same j k) ks

  abbrev pub ids : Graph K → List K
  ids [] = []
  ids ((k, ps) ∷ g) = k ∷ ids g

  abbrev pub or_none : Option (List K) → List K
  or_none none = []
  or_none (some ps) = ps

  -- The ids that a node is blocked by and that are nodes.
  unfoldable pub parents : Graph K → K → List K
  unfolding lookup
  parents g k = select (is_in (ids g)) (or_none (lookup k g))

  abbrev pub Memo : Type 0
  Memo = List (K × ℕ)

  -- `[dep(p, seen) for p in ps]`, and the greatest of it, with the memo that each call leaves.
  unfoldable pub deepest : (K → Memo → Option (ℕ × Memo)) → List K → Memo → Option (ℕ × Memo)
  deepest dep [] memo = some (0, memo)
  deepest dep (p ∷ ps) memo = elim (dep p memo) [
    | none ↦ none
    | some (d, memo') ↦ elim (deepest dep ps memo') [
      | none ↦ none
      | some (m, memo'') ↦ some (max d m, memo'')
    ]
  ]

  abbrev pub remember : K → Option (ℕ × Memo) → Option (ℕ × Memo)
  remember k none = none
  remember k (some (m, memo)) = some (suc m, insert k (suc m) memo)

-- `1 << 30`
unfoldable pub cycle_depth : ℕ
cycle_depth = 1073741824

module _ {K : Type 0} (same : K → K → Bool) where
  -- `dep(nid, seen)`; `none` where the fuel runs out.
  unfoldable pub dep : ℕ → Graph K → List K → K → Memo same → Option (ℕ × Memo same)
  unfolding deepest lookup insert parents
  dep zero g seen k memo = none
  dep (suc fuel) g seen k memo =
      if is_in same seen k then some (cycle_depth, memo) else elim (lookup same k memo) [
        | some d ↦ some (d, memo)
        | none ↦
            remember same k
              (deepest same (λ p m. dep fuel g (k ∷ seen) p m) (parents same g k) memo)
      ]

  -- The greatest depth of a node, at least 1.
  unfoldable pub graph_depth : Graph K → Option ℕ
  unfolding deepest dep
  graph_depth g = elim (deepest same (λ k m. dep (suc (length g)) g [] k m) (ids same g) []) [
    | none ↦ none
    | some (d, memo) ↦ some (max 1 d)
  ]

module _ (h : Keys) where
  open h use {Key, key_of, same, can_tally}

  abbrev onto_keys : Option Key → Option (List Key) → Option (List Key)
  onto_keys (some k) (some ks) = some (k ∷ ks)
  onto_keys _ _ = none

  unfoldable pub keys_of : List Json → Option (List Key)
  keys_of [] = some []
  keys_of (v ∷ vs) = onto_keys (key_of v) (keys_of vs)

  -- What a loop over the value yields.
  abbrev letters : String → List Json
  letters String.[] = []
  letters (String.◌∷◌ c s) = text (String.◌∷◌ c String.[]) ∷ letters s

  abbrev yields : Option Json → Option (List Json)
  yields none = some []
  yields (some (array vs)) = some (items vs)
  yields (some (object fs)) = some (map (λ (e : String × Json). text e.0) (fields fs))
  yields (some (text t)) = some (letters t)
  yields (some v) = none

  abbrev then_keys : Option (List Json) → Option (List Key)
  then_keys none = none
  then_keys (some vs) = keys_of vs

  -- A node with its id onto the graph; a later node of an id replaces an earlier one.
  abbrev pub Rows : Type 0
  Rows = List (Key × Json)

  abbrev with_id : Json → Option Json → Option Rows → Option Rows
  with_id v none rows = rows
  with_id v (some i) none = none
  with_id v (some i) (some rows) = elim (key_of i) [
    | none ↦ none
    | some k ↦ some (insert same k v rows)
  ]

  -- `by_id`
  unfoldable pub by_id : List Json → Rows → Option Rows
  unfolding field_at insert
  by_id [] rows = some rows
  by_id (v ∷ vs) rows = elim (with_id v (field_at "id" v) (some rows)) [
    | none ↦ none
    | some rows' ↦ by_id vs rows'
  ]

  abbrev onto_graph : Key → Option (List Key) → Option (Graph Key) → Option (Graph Key)
  onto_graph k (some ps) (some g) = some ((k, ps) ∷ g)
  onto_graph k _ _ = none

  -- The nodes with what they are blocked by.
  unfoldable pub edges_of : Rows → Option (Graph Key)
  unfolding field_at keys_of
  edges_of [] = some []
  edges_of ((k, v) ∷ rows) =
      onto_graph k (then_keys (yields (field_at "blocked_by" v))) (edges_of rows)

  abbrev pub has_edge : Json → Bool
  has_edge v = elim (field_at "blocked_by" v) [ none ↦ false | some w ↦ true ]

  abbrev graph_in : Option Rows → Option (Graph Key)
  graph_in none = none
  graph_in (some rows) = edges_of rows

  -- What `_depth` returns, where it does not raise.
  pub data Depth : Type 0 where
    raises : Depth
    unbounded : Depth
    deep : ℕ → Depth

  abbrev pub depth_in : Option (Graph Key) → Depth
  depth_in none = raises
  depth_in (some g) = elim (graph_depth same g) [ none ↦ raises | some d ↦ deep d ]

  -- `_depth(items)`: without edges there is nothing to bound.
  unfoldable pub depth : List Json → Depth
  unfolding by_id edges_of graph_depth field_at
  depth vs = elim (by_id vs []) [
    | none ↦ raises
    | some rows ↦ if any has_edge vs then depth_in (edges_of rows) else unbounded
  ]

  unfoldable pub statuses : List Json → List (Option Json)
  unfolding get
  statuses [] = []
  statuses (object fs ∷ vs) =
      elim (get (fields fs) "status") [ none ↦ some (text "?") | some s ↦ some s ] ∷ statuses vs
  statuses (v ∷ vs) = some (text "?") ∷ statuses vs

  abbrev pub within : ℤ → Depth → Bool
  within cap raises = false
  within cap unbounded = true
  within cap (deep d) = if ltb_ℤ cap (pos d) then false else true

  abbrev pub in_bounds : ℤ → ℤ → Option (List Json) → Bool
  in_bounds node_cap depth_cap none = false
  in_bounds node_cap depth_cap (some vs) =
      if ltb_ℤ node_cap (pos (length vs))
      then false
      else within depth_cap (depth vs) && can_tally (statuses vs)

  -- `main(argv)`, of the decoded session (`none` where it cannot be read): whether the exit code is 0.
  unfoldable pub accepts : ℤ → ℤ → Option Json → Bool
  unfolding node_list depth statuses
  accepts node_cap depth_cap none = false
  accepts node_cap depth_cap (some doc) = in_bounds node_cap depth_cap (node_list doc)
