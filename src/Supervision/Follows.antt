-- ===== src/Supervision/Follows.antt =====
-- automation/jobs/agent-supervision.py: the loop over the sessions acts by their histories.
use Prim.Native.Nat.{ℕ, ◌+◌}
use hngh.Prelude.{
  ◌≡◌, refl, sym, ap, subst, Option, some, List, [], ◌∷◌, Bool, true, false, not, ◌&&◌, ◌==◌,
  if◌then◌else◌, if_ind, arith,
}
use hngh.Texts.{Text, same_text, same_text_iff}
use hngh.Supervision.{
  stalled, Session, Row, Table, World, Env, age, tool_age, classify, awaiting_stall,
}
use hngh.Supervision.Tick.{
  row_of, set_row, is_evicted, is_stuck, is_silent, is_flat, phase_of, new_row, unchanged,
  was_evicted, report_evicted, report_slow, report_recovered, on_stuck, on_miss, watched, supervise,
  sweep,
}
use hngh.Supervision.Spec.{
  Evidence, idle, over, stuck, silent, flat, fresh, History, evidence, begins, streak, respond,
  Journal, note, responses, Counts,
}

streak-begins :
    (v : Evidence) (h : History) → begins v h ≡ (if streak v h == 0 then false else true)
streak-begins v [] = refl
streak-begins v (x ∷ h) = ground arith

classify-watched :
    (s : Session) (r : Row) (a b : Option ℕ) → was_evicted (some (classify s r a b)) ≡ false
unfolding classify
classify-watched s r a b = ground arith

phase_of-watched : (e : Env) (s : Session) (r : Row) → was_evicted (some (phase_of e s r)) ≡ false
unfolding phase_of
phase_of-watched e s r =
    if_ind (λ p. was_evicted (some p) ≡ false)
      (not s.is_bridge && awaiting_stall s.asks (age e s.last_entry) s.nonterminal) {x = stalled}
      {y = classify s r (unchanged e s r) (tool_age e s)} (λ _. refl)
      (λ _. classify-watched s r (unchanged e s r) (tool_age e s))

-- The same five tests choose a result and a kind of evidence.
choose_ind {ℓ κ} :
    {A : Type ℓ} (P : A → Evidence → Type κ) (a b c d f : Bool) {p q r t u v : A}
    → P p idle
    → P q over
    → P r stuck
    → P t silent
    → P u flat
    → P v fresh
    → P (if a then p else if b then q else if c then r else if d then t else if f then u else v) (
        if a
        then idle
        else if b
        then over
        else if c
        then stuck
        else if d
        then silent
        else if f
        then flat
        else fresh)
choose_ind P true b c d f hp hq hr ht hu hv = hp
choose_ind P false true c d f hp hq hr ht hu hv = hq
choose_ind P false false true d f hp hq hr ht hu hv = hr
choose_ind P false false false true f hp hq hr ht hu hv = ht
choose_ind P false false false false true hp hq hr ht hu hv = hu
choose_ind P false false false false false hp hq hr ht hu hv = hv

module _ (e : Env) (s : Session) (prev : Row) (h : History) (w : World) (c : Counts prev h) where
  on_stuck-respond : on_stuck e s (prev.stuck_misses + 1) w ≡ respond e s stuck h w
  unfolding on_stuck respond
  on_stuck-respond = ground (arith, streak-begins stuck h, c.stuck_misses)

  on_miss-respond : on_miss e s (prev.misses + 1) w ≡ respond e s silent h w
  unfolding on_miss respond
  on_miss-respond = ground (arith, streak-begins silent h, c.misses)

  abbrev Follows : Row × World → Evidence → Type 0
  Follows (r, w') v = (w' ≡ respond e s v h w) × Counts r (v ∷ h)

  -- What a tick does about a session is the response to its history, and the row counts on.
  supervise-Follows : Follows (supervise e s prev w) (evidence e s)
  unfolding supervise watched new_row evidence respond
  supervise-Follows =
      choose_ind Follows (is_evicted e s) s.exited (is_stuck s) (is_silent e s) (is_flat e s)
        (
          ap (λ b. if b then w else report_evicted e s w) c.evicted,
          record {
            misses = refl;
            stuck_misses = refl;
            evicted = refl;
            slow = refl;
            flagged = refl;
          },
        )
        (
          refl,
          record {
            misses = refl;
            stuck_misses = refl;
            evicted = refl;
            slow = refl;
            flagged = refl;
          },
        )
        (on_stuck-respond, ground (arith, c.stuck_misses, phase_of-watched e s prev))
        (on_miss-respond, ground (arith, c.misses, phase_of-watched e s prev))
        (
          ap (λ b. if b then w else report_slow e s w) c.slow,
          ground (arith, phase_of-watched e s prev),
        )
        (
          ap (λ b. if b then report_recovered e s w else w) c.flagged,
          ground (arith, phase_of-watched e s prev),
        )

-- A row for every id that counts its history.
abbrev pub Tracks : Table → Journal → Type 0
Tracks t j = (id : Text) → Counts (row_of t id) (j id)

row_of-set_row :
    (k id : Text) (r : Row) (t : Table)
    → row_of (set_row k r t) id ≡ (if same_text k id then r else row_of t id)
unfolding row_of set_row
row_of-set_row k id r [] = refl
row_of-set_row k id r ((i, q) ∷ t) =
    ground
      (arith, same_text_iff i k, same_text_iff i id, same_text_iff k id, row_of-set_row k id r t)

pub if_both {ℓ κ μ} :
    {A : Type ℓ} {B : Type κ} (P : A → B → Type μ) (b : Bool) {x x' : A} {y y' : B}
    → P x y
    → P x' y'
    → P (if b then x else x') (if b then y else y')
if_both P true p q = p
if_both P false p q = q

set_row-Tracks :
    (k : Text) (r : Row) (v : Evidence) (t : Table) (j : Journal)
    → Counts r (v ∷ j k)
    → Tracks t j
    → Tracks (set_row k r t) (note k v j)
set_row-Tracks k r v t j c tracks id =
    subst (λ q. Counts q (note k v j id)) (sym (row_of-set_row k id r t))
      (if_both Counts (same_text k id) c (tracks id))

-- The loop over the sessions acts by their histories.
pub sweep-Tracks :
    (e : Env) (sessions : List Session) (t : Table) (j : Journal) (w : World)
    → Tracks t j
    → ((sweep e sessions t w).1 ≡ (responses e sessions j w).1)
      × Tracks (sweep e sessions t w).0 (responses e sessions j w).0
unfolding sweep responses
sweep-Tracks e [] t j w tracks = (refl, tracks)
sweep-Tracks e (s ∷ sessions) t j w tracks =
    let found = supervise-Follows e s (row_of t s.id) (j s.id) w (tracks s.id) in
    let v = evidence e s in
    let t' = set_row s.id (supervise e s (row_of t s.id) w).0 t in
    subst
      (λ u.
        ((sweep e sessions t' (supervise e s (row_of t s.id) w).1).1
          ≡ (responses e sessions (note s.id v j) u).1)
        × Tracks (sweep e sessions t' (supervise e s (row_of t s.id) w).1).0
            (responses e sessions (note s.id v j) u).0)
      found.0
      (sweep-Tracks e sessions t' (note s.id v j) (supervise e s (row_of t s.id) w).1
        (set_row-Tracks s.id (supervise e s (row_of t s.id) w).0 v t j found.1 tracks))
