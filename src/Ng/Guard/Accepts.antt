-- ===== src/Ng/Guard/Accepts.antt =====
-- automation/ng/jcode_guard.py: which sessions the guard accepts.
use Prim.Native.Nat.{ℕ, suc, ◌≤◌, ◌<◌}
use hngh.Prelude.{
  ◌≡◌, refl, ◌↔◌, inl, inr, pos, some, List, [], true, ◌&&◌, any, length, sym, ◌∙◌, Bool-cases,
  leb→le, leb, arith,
}
use hngh.Schema.Json.{Json}
use hngh.Ng.Guard.{
  Keys, Graph, ids, cycle_depth, graph_depth, node_list, by_id, edges_of, has_edge, statuses, depth,
  accepts, Rows, deep, depth_in, in_bounds,
}
use hngh.Ng.Guard.Among.{Among}
use hngh.Ng.Guard.Chains.{Chain, graph_depth-exact}

module _ (h : Keys) where
  depth-deep :
      (vs : List Json) (rows : Rows h) (g : Graph h.Key) (d : ℕ)
      → by_id h vs [] ≡ some rows
      → edges_of h rows ≡ some g
      → any (has_edge h) vs ≡ true
      → graph_depth h.same g ≡ some d
      → depth h vs ≡ deep d
  unfolding depth
  depth-deep vs rows g d e e' some_edge found =
      rw (e, depth) (rw some_edge (rw e' (rw (found, depth_in) refl)))

  in_bounds-deep :
      (node_cap cap d : ℕ) (vs : List Json)
      → depth h vs ≡ deep d
      → in_bounds h (pos node_cap) (pos cap) (some vs)
        ≡ (leb (length vs) node_cap && leb d cap && h.can_tally (statuses h vs))
  in_bounds-deep node_cap cap d vs e = rw e (ground arith)

  all_pass :
      (node_cap cap d : ℕ) (vs : List Json)
      → length vs ≤ node_cap
      → d ≤ cap
      → h.can_tally (statuses h vs) ≡ true
      → (leb (length vs) node_cap && leb d cap && h.can_tally (statuses h vs)) ≡ true
  all_pass node_cap cap d vs p q r = ground arith

  not_over : {P : Type 0} (cap d : ℕ) → (cap < d → P) → ¬ P → d ≤ cap
  not_over cap d f no_p = elim (Bool-cases (leb d cap)) [
    | inl le ↦ leb→le d cap le
    | inr gt ↦ absurd (no_p (f (ground arith)))
  ]

  -- Where a session has a list of nodes, and some node is blocked, and the ids can be keys of a dictionary
  -- that compares them by an equality: the guard accepts it exactly when it has at most as many nodes as
  -- the node cap, its statuses can be counted and sorted, and no chain of nodes, each blocked by the next,
  -- is longer than the depth cap; since a chain may come back to a node, there is then no cycle. The
  -- depth cap is at least 1 and below 2^30.
  pub accepts_iff :
      (laws : (a b : h.Key) → (h.same a b ≡ true) ↔ (a ≡ b)) (node_cap cap : ℕ) (doc : Json)
      (vs : List Json) (rows : Rows h) (g : Graph h.Key)
      → node_list doc ≡ some vs
      → by_id h vs [] ≡ some rows
      → edges_of h rows ≡ some g
      → any (has_edge h) vs ≡ true
      → 1 ≤ cap
      → cap < cycle_depth
      → (accepts h (pos node_cap) (pos cap) (some doc) ≡ true) ↔ (
          (length vs ≤ node_cap)
          × (h.can_tally (statuses h vs) ≡ true)
          × ¬ Among (λ k. Chain h.same g k (suc cap)) (ids h.same g))
  unfolding accepts
  accepts_iff laws node_cap cap doc vs rows g listed keyed edges some_edge pos_cap small =
      let (d, found, deep_long, long_deep) = graph_depth-exact h.same laws g cap pos_cap small in
      let reached = depth-deep vs rows g d keyed edges some_edge found in
      let bounds = in_bounds-deep node_cap cap d vs reached in
      (
        λ accepted.
            let ok : in_bounds h (pos node_cap) (pos cap) (some vs) ≡ true =
              rw listed at accepted in
            let tests = sym bounds ∙ ok in
            (
              ground (arith, tests),
              ground (arith, tests),
              λ long. ground (arith, tests, long_deep long),
            ),
        λ (few, tally, short).
            rw listed
              (bounds ∙ all_pass node_cap cap d vs few (not_over cap d deep_long short) tally),
      )
