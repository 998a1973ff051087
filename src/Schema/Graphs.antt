-- ===== src/Schema/Graphs.antt =====
-- automation/jobs/viz_schema.py: what an accepted graph is, and that the graphs' validator sees to it.
use hngh.Prelude.{
  ℕ, ◌+◌, ◌≡◌, sym, ap, ◌∙◌, String, Option, some, List, [], ◌∷◌, true, false, All, contains,
  str_eq, ◌⊎◌, inl, inr, eq_iff, Bool-cases,
}
use hngh.Schema.Json.{Json, text, object, Fields, fields, get}
use hngh.Schema.Entry.{
  Place, entry, scalar_extra, each_seen, all_seen, remember, duplicate, remembered, seen_before,
}
use hngh.Schema.Families.{node_fields, node_issues, node_checks}
use hngh.Schema.Validate.{accepts}
use hngh.Schema.Accepted.{TextAt, both, accepts-issue_if, check_entry-TextAt}

-- An object with five texts.
pub record IsNode (v : Json) : Type 0 where
  pub body : Fields
  pub is_object : v ≡ object body
  pub texts_at : All (TextAt (fields body)) node_fields

-- The value is an object whose id is this text.
abbrev pub HasId : Json → String → Type 0
HasId v id = (body : Fields) × (v ≡ object body) × (get (fields body) "id" ≡ some (text id))

-- Some node has the id.
abbrev pub Names : List Json → String → Type 0
Names [] id = ⊥
Names (v ∷ vs) id = HasId v id ⊎ Names vs id

-- Each node is well formed, and has an id that no earlier node and none of `seen` has.
abbrev pub AreNodes : List String → List Json → Type 0
AreNodes seen [] = Unit
AreNodes seen (v ∷ vs) =
    IsNode v × ((id : String) × HasId v id × (contains seen id ≡ false) × AreNodes (id ∷ seen) vs)

-- An object with a source and another destination, both ids of nodes, and a relation.
pub record IsEdge (nodes : List Json) (v : Json) : Type 0 where
  pub body : Fields
  pub is_object : v ≡ object body
  pub src : String
  pub dst : String
  pub src_at : get (fields body) "src" ≡ some (text src)
  pub dst_at : get (fields body) "dst" ≡ some (text dst)
  pub rel_at : TextAt (fields body) "rel"
  pub src_node : Names nodes src
  pub dst_node : Names nodes dst
  pub no_loop : str_eq src dst ≡ false

-- What `seen` remembers of an object with the id.
remember-HasId :
    (seen : List String) (v : Json) (id : String) → HasId v id → remember "id" seen v ≡ id ∷ seen
unfolding remember
remember-HasId seen v id (body, is_object, at) =
    ap (remember "id" seen) is_object ∙ ap (remembered seen) at

unseen :
    (seen : List String) (place : Place) (o : Option Json) (id : String)
    → o ≡ some (text id)
    → accepts (seen_before "duplicate-node-id" seen place o) ≡ true
    → contains seen id ≡ false
unfolding seen_before
unseen seen place o id at h =
    accepts-issue_if (contains seen id) "duplicate-node-id" id place (rw at at h)

node_issues-IsNode :
    (seen : List String) (i : ℕ) (v : Json)
    → accepts (node_issues seen i v) ≡ true
    → IsNode v × ((id : String) × HasId v id × (contains seen id ≡ false))
unfolding node_issues node_checks
node_issues-IsNode seen i v h =
    let place = entry "nodes" i in
    let (body, is_object, texts_at, behind) =
      check_entry-TextAt place node_fields (node_checks seen place) v h in
    let d = fields body in
    let inside = both (scalar_extra place node_fields d) _ behind in
    let fresh = both (duplicate "id" "duplicate-node-id" seen place d) _ inside.1 in
    let (id, at) = texts_at.0 in
    (
      record { body = body; is_object = is_object; texts_at = texts_at },
      (id, (body, is_object, at), unfold duplicate in unseen seen place (get d "id") id at fresh.0),
    )

pub each_seen-AreNodes :
    (seen : List String) (i : ℕ) (vs : List Json)
    → accepts (each_seen "id" node_issues seen i vs) ≡ true
    → AreNodes seen vs
unfolding each_seen
each_seen-AreNodes seen i [] h = tt
each_seen-AreNodes seen i (v ∷ vs) h =
    let now = both (node_issues seen i v) _ h in
    let (node, (id, has_id, fresh)) = node_issues-IsNode seen i v now.0 in
    (
      node,
      (
        id,
        has_id,
        fresh,
        each_seen-AreNodes (id ∷ seen) (i + 1) vs (rw (remember-HasId seen v id has_id) at now.1),
      ),
    )

-- What the loop has seen is an id of a node.
pub all_seen-Names :
    (seen : List String) (vs : List Json) (id : String)
    → AreNodes seen vs
    → contains (all_seen "id" seen vs) id ≡ true
    → (contains seen id ≡ true) ⊎ Names vs id
unfolding all_seen
all_seen-Names seen [] id h k = inl k
all_seen-Names seen (v ∷ vs) id (node, (own, has_id, fresh, rest)) k =
    elim (all_seen-Names (own ∷ seen) vs id rest (rw (remember-HasId seen v own has_id) at k)) [
      | inr named ↦ inr (inr named)
      | inl found ↦ elim (Bool-cases (str_eq id own)) [
        | inl same_id ↦ inr (
            inl (
              has_id.0,
              has_id.1,
              has_id.2 ∙ ap (λ s. some (text s)) (sym ((eq_iff id own).0 same_id)),
            ))
        | inr other ↦ inl (rw other at found)
      ]
    ]
