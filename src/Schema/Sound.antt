-- ===== src/Schema/Sound.antt =====
-- automation/jobs/viz_schema.py: `validate` of a graph sees to the whole graph.
use hngh.Prelude.{
  ℕ, ◌+◌, ◌≡◌, String, Option, some, List, [], ◌∷◌, Bool, true, false, not, All, contains, str_eq,
  arith, inl, inr,
}
use hngh.Schema.Json.{Json, text, fields, get}
use hngh.Schema.Entry.{Place, entry, err, issue_if, scalar_extra, each, all_seen}
use hngh.Schema.Families.{edge_fields, is_loop, dangling, edge_checks, edge_issues}
use hngh.Schema.Validate.{accepts}
use hngh.Schema.Accepted.{both, accepts-issue_if, check_entry-TextAt}
use hngh.Schema.Graphs.{IsEdge, Names, AreNodes, all_seen-Names}

module _ (same_json : Json → Json → Bool) where
  no_loop :
      (place : Place) (o p : Option Json) (src dst : String)
      → o ≡ some (text src)
      → p ≡ some (text dst)
      → accepts (issue_if (is_loop same_json o p) (err "self-loop-edge" place "src")) ≡ true
      → str_eq src dst ≡ false
  unfolding is_loop
  no_loop place o p src dst at at' h =
      accepts-issue_if (str_eq src dst) "self-loop-edge" "src" place (rw (at, at') at h)

  anchored :
      (seen : List String) (place : Place) (endpoint : String) (o : Option Json) (id : String)
      → o ≡ some (text id)
      → accepts (dangling same_json seen place endpoint o) ≡ true
      → contains seen id ≡ true
  unfolding dangling
  anchored seen place endpoint o id at h =
      let known =
        accepts-issue_if (not (contains seen id)) "dangling-edge-endpoint" endpoint place
          (rw at at h) in
      ground arith

  edge_issues-IsEdge :
      (nodes : List Json) (i : ℕ) (v : Json)
      → AreNodes [] nodes
      → accepts (edge_issues same_json (all_seen "id" [] nodes) i v) ≡ true
      → IsEdge nodes v
  unfolding edge_issues edge_checks
  edge_issues-IsEdge nodes i v ns h =
      let place = entry "edges" i in
      let seen = all_seen "id" [] nodes in
      let (body, is_object, texts_at, behind) =
        check_entry-TextAt place edge_fields (edge_checks same_json seen place) v h in
      let d = fields body in
      let (src, src_at) = texts_at.0 in
      let (dst, dst_at) = texts_at.1.0 in
      let inside = both (scalar_extra place edge_fields d) _ behind in
      let loops =
        both
          (issue_if (is_loop same_json (get d "src") (get d "dst"))
            (err "self-loop-edge" place "src"))
          _ inside.1 in
      let from = both (dangling same_json seen place "src" (get d "src")) _ loops.1 in
      let onto = both (dangling same_json seen place "dst" (get d "dst")) _ from.1 in
      record {
        body = body;
        is_object = is_object;
        src = src;
        dst = dst;
        src_at = src_at;
        dst_at = dst_at;
        rel_at = texts_at.1.1.0;
        src_node = named nodes src ns (anchored seen place "src" (get d "src") src src_at from.0);
        dst_node = named nodes dst ns (anchored seen place "dst" (get d "dst") dst dst_at onto.0);
        no_loop = no_loop place (get d "src") (get d "dst") src dst src_at dst_at loops.0;
      }
    where
      named :
          (nodes : List Json) (id : String)
          → AreNodes [] nodes
          → contains (all_seen "id" [] nodes) id ≡ true
          → Names nodes id
      named nodes id ns k = elim (all_seen-Names [] nodes id ns k) [
        | inl none_seen ↦ absurd cc
        | inr found ↦ found
      ]

  pub each-IsEdge :
      (nodes : List Json) (i : ℕ) (vs : List Json)
      → AreNodes [] nodes
      → accepts (each (edge_issues same_json (all_seen "id" [] nodes)) i vs) ≡ true
      → All (IsEdge nodes) vs
  unfolding each
  each-IsEdge nodes i [] ns h = tt
  each-IsEdge nodes i (v ∷ vs) ns h =
      let now = both (edge_issues same_json (all_seen "id" [] nodes) i v) _ h in
      (edge_issues-IsEdge nodes i v ns now.0, each-IsEdge nodes (i + 1) vs ns now.1)
