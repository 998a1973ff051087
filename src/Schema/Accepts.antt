-- ===== src/Schema/Accepts.antt =====
-- automation/jobs/viz_schema.py: `validate` on graphs, from the text of a payload on.
use hngh.Prelude.{
  ◌≡◌, refl, sym, ap, ◌∙◌, String, Option, none, some, List, [], ◌∷◌, ◌++◌, map, Bool, true, false,
  not, All, contains, str_eq, any, any-sorted, sorted, text_le, arith, eq_iff,
}
use hngh.Schema.Json.{
  Json, text, array, object, Fields, Dict, items, fields, get, has_key, list_kind,
}
use hngh.Schema.Entry.{Issue, envelope, err, issue_if, missing, each_seen, list_at, over, if_list}
use hngh.Schema.Families.{node_issues, node_ids, validate_graph}
use hngh.Schema.Validate.{
  accepts, graph, types, is_mistyped, is_strictly, envelope_fields, schema_issues, envelope_issues,
  family_issues, validator, family_of, tag_issues, validate_payload, validate, validate_decoded,
  verdict,
}
use hngh.Schema.Accepted.{both, accepts-issue_if, accepts-errors}
use hngh.Schema.Graphs.{IsEdge, AreNodes, each_seen-AreNodes}
use hngh.Schema.Sound.{each-IsEdge}

-- A payload that the dashboard can draw: an object of the schema's four keys, where the nodes are
-- well formed with distinct ids, and each edge joins two of them.
pub record IsGraph (payload : Json) : Type 0 where
  pub body : Fields
  pub is_object : payload ≡ object body
  pub schema_at : get (fields body) "schema" ≡ some (text "graph/1")
  pub nodes : List Json
  pub edges : List Json
  pub nodes_at : list_at (fields body) "nodes" ≡ some nodes
  pub edges_at : list_at (fields body) "edges" ≡ some edges
  pub all_nodes : AreNodes [] nodes
  pub all_edges : All (IsEdge nodes) edges
  pub closed : All (λ kv. contains (envelope_fields graph) kv.0 ≡ true) (fields body)

none_of : {A : Type 0} (p : A → Bool) (xs : List A) → any p xs ≡ false → All (λ x. p x ≡ false) xs
none_of p [] h = tt
none_of p (x ∷ xs) h = (ground arith, none_of p xs (ground arith))

known_keys :
    (d : Dict)
    → any (λ k. not (contains (envelope_fields graph) k)) (map (λ kv. kv.0) d) ≡ false
    → All (λ kv. contains (envelope_fields graph) kv.0 ≡ true) d
known_keys [] h = tt
known_keys ((k, v) ∷ d) h = (ground arith, known_keys d (ground arith))

list_field :
    (d : Dict) (f : String)
    → not (has_key d f) ≡ false
    → is_mistyped d (f, list_kind) ≡ false
    → (vs : List Json) × (list_at d f ≡ some vs)
unfolding has_key is_mistyped list_at
list_field d f h k = list_value (get d f) h k
  where
    list_value :
        (o : Option Json)
        → not (elim o [ none ↦ false | some v ↦ true ]) ≡ false
        → elim o [ none ↦ false | some v ↦ not (is_strictly list_kind v) ] ≡ false
        → (vs : List Json) × (elim o [
          | none ↦ none
          | some v ↦ elim v [ array ws ↦ some (items ws) | _ ↦ none ]
        ]
            ≡ some vs)
    list_value none h k = absurd (ground arith)
    list_value (some (array vs)) h k = (items vs, refl)
    list_value (some Json.null) h k = absurd (ground arith)
    list_value (some (Json.boolean b)) h k = absurd (ground arith)
    list_value (some (Json.integer n)) h k = absurd (ground arith)
    list_value (some (Json.real z r)) h k = absurd (ground arith)
    list_value (some (text s)) h k = absurd (ground arith)
    list_value (some (object fs)) h k = absurd (ground arith)

schema_text :
    (d : Dict) → accepts (schema_issues graph d) ≡ true → get d "schema" ≡ some (text "graph/1")
unfolding schema_issues
schema_text d h = tagged (get d "schema") h
  where
    tagged :
        (o : Option Json)
        → accepts (elim o [
          | none ↦ err "missing-schema-field" envelope "schema" ∷ []
          | some v ↦ elim v [
            | text s ↦
                issue_if
                  (not (str_eq s "graph/1"))
                  (err "schema-version-mismatch" envelope "schema")
            | _ ↦ err "schema-version-mismatch" envelope "schema" ∷ []
          ]
        ])
          ≡ true
        → o ≡ some (text "graph/1")
    tagged none h = absurd (unfold accepts in ground arith)
    tagged (some (text s)) h =
        let k =
          accepts-issue_if (not (str_eq s "graph/1")) "schema-version-mismatch" "schema" envelope
            h in
        ap (λ t. some (text t)) ((eq_iff s "graph/1").0 (ground arith))
    tagged (some Json.null) h = absurd (unfold accepts in ground arith)
    tagged (some (Json.boolean b)) h = absurd (unfold accepts in ground arith)
    tagged (some (Json.integer n)) h = absurd (unfold accepts in ground arith)
    tagged (some (Json.real z r)) h = absurd (unfold accepts in ground arith)
    tagged (some (array vs)) h = absurd (unfold accepts in ground arith)
    tagged (some (object fs)) h = absurd (unfold accepts in ground arith)

refused :
    (issues : List Issue)
    → some (err "envelope-not-object" envelope "" ∷ []) ≡ some issues
    → accepts issues ≡ true
    → ⊥
unfolding accepts
refused issues e h = cc

module _ (same_json : Json → Json → Bool) where
  body-IsGraph :
      (body : Fields)
      → accepts (envelope_issues graph (fields body) ++ validate_graph same_json (fields body))
        ≡ true
      → IsGraph (object body)
  unfolding envelope_issues validate_graph missing over if_list node_ids
  body-IsGraph body h =
      let d = fields body in
      let parts = both (envelope_issues graph d) (validate_graph same_json d) h in
      let tagged = both (schema_issues graph d) _ parts.0 in
      let known = both _ _ tagged.1 in
      let present = both (missing envelope (envelope_fields graph) d) _ known.1 in
      let unknown =
        accepts-errors "unknown-envelope-key" envelope (λ k. k)
          (λ k. not (contains (envelope_fields graph) k)) (sorted text_le (map (λ kv. kv.0) d))
          known.0 in
      let there =
        none_of (λ f. not (has_key d f)) (envelope_fields graph)
          (accepts-errors "missing-required-field" envelope (λ f. f) (λ f. not (has_key d f))
            (envelope_fields graph) present.0) in
      let typed =
        none_of (is_mistyped d) types
          (accepts-errors "wrong-type" envelope (λ t. t.0) (is_mistyped d) types present.1) in
      let (nodes, nodes_at) = list_field d "nodes" there.1.1.0 typed.1.1.1.1.1.1.1.1.0 in
      let (edges, edges_at) = list_field d "edges" there.1.1.1.0 typed.1.1.1.1.1.1.1.1.1.0 in
      let lists = both (over d "nodes" (each_seen "id" node_issues [] 0)) _ parts.1 in
      let ns = each_seen-AreNodes [] 0 nodes (rw nodes_at at lists.0) in
      record {
        body = body;
        is_object = refl;
        schema_at = schema_text d tagged.0;
        nodes = nodes;
        edges = edges;
        nodes_at = nodes_at;
        edges_at = edges_at;
        all_nodes = ns;
        all_edges = each-IsEdge same_json nodes 0 edges ns (rw (nodes_at, edges_at) at lists.1);
        closed = known_keys d (
            sym (
              any-sorted text_le (λ k. not (contains (envelope_fields graph) k))
                (map (λ kv. kv.0) d))
            ∙ unknown);
      }

  family-IsGraph :
      (body : Fields) (issues : List Issue)
      → family_issues same_json graph (fields body) ≡ some issues
      → accepts issues ≡ true
      → IsGraph (object body)
  unfolding family_issues validator
  family-IsGraph body issues e h = body-IsGraph body (rw (some_injective e) h)
    where
      some_injective : {xs ys : List Issue} → some xs ≡ some ys → xs ≡ ys
      some_injective e = cc

  payload-IsGraph :
      (payload : Json) (issues : List Issue)
      → validate_payload same_json (some "graph/1") payload ≡ some issues
      → accepts issues ≡ true
      → IsGraph payload
  unfolding validate_payload tag_issues family_of
  payload-IsGraph (object body) issues e h = family-IsGraph body issues e h
  payload-IsGraph Json.null issues e h = absurd (refused issues e h)
  payload-IsGraph (Json.boolean b) issues e h = absurd (refused issues e h)
  payload-IsGraph (Json.integer n) issues e h = absurd (refused issues e h)
  payload-IsGraph (Json.real z r) issues e h = absurd (refused issues e h)
  payload-IsGraph (text s) issues e h = absurd (refused issues e h)
  payload-IsGraph (array vs) issues e h = absurd (refused issues e h)

  -- A text that `validate` accepts as a graph decodes to one: an object of the schema's keys and no
  -- other, whose nodes have all their fields as texts and ids of their own, and whose edges each join
  -- the ids of two different nodes.
  pub validate-IsGraph :
      (loads : String → Option Json) (payload_text : String) (warnings : List Issue)
      → validate same_json loads payload_text (some "graph/1") ≡ some (true, warnings)
      → (payload : Json) × (loads payload_text ≡ some payload) × IsGraph payload
  unfolding validate
  validate-IsGraph loads payload_text warnings h = decoded (loads payload_text) h
    where
      judged :
          (payload : Json) (o : Option (List Issue))
          → validate_payload same_json (some "graph/1") payload ≡ o
          → verdict o ≡ some (true, warnings)
          → IsGraph payload
      judged payload none e h = absurd (unfold verdict in cc)
      judged payload (some issues) e h = payload-IsGraph payload issues e (unfold verdict in cc)

      decoded :
          (o : Option Json)
          → validate_decoded same_json (some "graph/1") o ≡ some (true, warnings)
          → (payload : Json) × (o ≡ some payload) × IsGraph payload
      decoded none h = absurd (unfold validate_decoded in cc)
      decoded (some payload) h =
          (payload, refl, judged payload _ refl (unfold validate_decoded in h))
