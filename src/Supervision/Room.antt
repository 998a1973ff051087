-- ===== src/Supervision/Room.antt =====
-- automation/jobs/agent-supervision.py: the state file never holds more ids than were seen.
use Prim.Native.Nat.{ℕ, suc, ◌+◌, ◌≤◌, ◌<◌}
use hngh.Prelude.{
  ◌≡◌, refl, sym, List, [], ◌∷◌, Bool, true, false, not, ◌||◌, if◌then◌else◌, length,
  length-select-le, select, Bool-cases, inl, inr, arith,
}
use hngh.Texts.{Text, same_text, same_text_iff, same_text_refl, holds}
use hngh.Supervision.{Session, Row, Table, World, Env}
use hngh.Supervision.Tick.{row_of, set_row, supervise, sweep}
use hngh.Supervision.Spec.{AllOf}

-- The ids of a table, and those that it has not.
abbrev pub has_row : Table → Text → Bool
has_row [] id = false
has_row ((k, r) ∷ t) id = same_text k id || has_row t id

abbrev pub unseen : Table → List Text → List Text
unseen t ids = select (λ id. not (has_row t id)) ids

has_row-set_row :
    (k id : Text) (r : Row) (t : Table)
    → has_row (set_row k r t) id ≡ (same_text k id || has_row t id)
unfolding set_row
has_row-set_row k id r [] = refl
has_row-set_row k id r ((i, q) ∷ t) =
    ground
      (arith, same_text_iff i k, same_text_iff i id, same_text_iff k id, has_row-set_row k id r t)

length-set_row :
    (k : Text) (r : Row) (t : Table)
    → length (set_row k r t) ≡ (if has_row t k then length t else suc (length t))
unfolding set_row
length-set_row k r [] = refl
length-set_row k r ((i, q) ∷ t) = ground (arith, length-set_row k r t)

unseen-set_row-le :
    (k : Text) (r : Row) (t : Table) (ids : List Text)
    → length (unseen (set_row k r t) ids) ≤ length (unseen t ids)
unseen-set_row-le k r t [] = omega arith
unseen-set_row-le k r t (id ∷ ids) =
    ground (arith, has_row-set_row k id r t, unseen-set_row-le k r t ids)

unseen-set_row-lt :
    (k : Text) (r : Row) (t : Table) (ids : List Text)
    → has_row t k ≡ false
    → holds ids k ≡ true
    → length (unseen (set_row k r t) ids) < length (unseen t ids)
unfolding holds
unseen-set_row-lt k r t [] new h = absurd cc
unseen-set_row-lt k r t (id ∷ ids) new h = elim (Bool-cases (same_text k id)) [
  | inl e ↦
      rw (sym ((same_text_iff k id).0 e))
        (ground (arith, has_row-set_row k k r t, same_text_refl k, unseen-set_row-le k r t ids))
  | inr e ↦ ground (arith, has_row-set_row k id r t, unseen-set_row-lt k r t ids new (rw e at h))
]

-- How much room a table takes, and may still take.
abbrev pub room : Table → List Text → ℕ
room t ids = length t + length (unseen t ids)

room-set_row :
    (k : Text) (r : Row) (t : Table) (ids : List Text)
    → holds ids k ≡ true
    → room (set_row k r t) ids ≤ room t ids
room-set_row k r t ids h = elim (Bool-cases (has_row t k)) [
  | inl old ↦ omega (arith, rw old at (length-set_row k r t), unseen-set_row-le k r t ids)
  | inr new ↦ omega (arith, rw new at (length-set_row k r t), unseen-set_row-lt k r t ids new h)
]

pub room-sweep :
    (e : Env) (sessions : List Session) (t : Table) (w : World) (ids : List Text)
    → AllOf ids sessions
    → room (sweep e sessions t w).0 ids ≤ room t ids
unfolding sweep
room-sweep e [] t w ids all_of = omega arith
room-sweep e (s ∷ sessions) t w ids all_of =
    let (r, w') = supervise e s (row_of t s.id) w in
    omega (
      arith,
      room-sweep e sessions (set_row s.id r t) w' ids all_of.1,
      room-set_row s.id r t ids all_of.0,
    )

pub unseen-le : (t : Table) (ids : List Text) → length (unseen t ids) ≤ length ids
unseen-le t ids = length-select-le (λ id. not (has_row t id)) ids
