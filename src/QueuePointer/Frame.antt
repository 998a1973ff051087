-- ===== src/QueuePointer/Frame.antt =====
-- scripts/queue_pointer.py: what a demotion rewrites, and when.
use Prim.Native.Nat.{ℕ, ◌+◌, ◌<◌}
use hngh.Prelude.{
  ◌≡◌, refl, sym, ap, subst, ◌∙◌, inl, inr, Option, none, some, [], ◌∷◌, ◌++◌, append_assoc, Bool,
  true, false, ◌&&◌, ◌||◌, ◌==◌, leb, if_ind, if_true, if_false, Bool-cases, arith,
}
use hngh.Texts.{Text, codes, is_empty, starts, behind_prefix, is_space}
use hngh.Candidate.{split_lines}
use hngh.QueuePointer.{
  Env, Block, Pointer, Reading, Demotion, extended, past_breaks, cut_body, block_of, block_behind,
  or_block, find_block, pointer, next_queued_id, demote_block, demote_pointer, demote_read,
  demote_and_advance,
}
use hngh.Router.Status.{behind_prefix-some}

abbrev Splits : Text → Option (Text × Text) → Type 0
Splits t none = Unit
Splits t (some (space, rest)) = t ≡ space ++ rest

extended-Splits :
    (c : ℕ) (t : Text) (o : Option (Text × Text)) → Splits t o → Splits (c ∷ t) (extended c t o)
extended-Splits c t (some (space, rest)) h = ap (λ u. c ∷ u) h
extended-Splits c t none h = if_ind (Splits (c ∷ t)) (c == b'\n') (λ _. refl) (λ _. tt)

past_breaks-Splits : (t : Text) → Splits t (past_breaks t)
unfolding past_breaks
past_breaks-Splits [] = tt
past_breaks-Splits (c ∷ t) =
    if_ind (Splits (c ∷ t)) (is_space c)
      (λ _. extended-Splits c t (past_breaks t) (past_breaks-Splits t)) (λ _. tt)

abbrev Joins : Text → Text × Text → Type 0
Joins t (body, rest) = t ≡ body ++ rest

cut_body-Joins : (fresh : Bool) (t : Text) → Joins t (cut_body fresh t)
unfolding cut_body
cut_body-Joins fresh [] = refl
cut_body-Joins fresh (c ∷ t) =
    if_ind (Joins (c ∷ t)) (fresh && starts (codes "## ") (c ∷ t)) (λ _. refl)
      (λ _. ap (λ u. c ∷ u) (cut_body-Joins (c == b'\n') t))

-- The block stands in the text.
abbrev pub StandsIn : Text → Option Block → Type 0
StandsIn t none = Unit
StandsIn t (some b) = t ≡ b.front ++ (b.body ++ b.rest)

block_of-StandsIn :
    (t : Text) (o : Option (Text × Text))
    → Splits t o
    → StandsIn (codes "## Next" ++ t) (block_of o)
block_of-StandsIn t none h = tt
block_of-StandsIn t (some (space, rest)) h =
    ap (λ u. codes "## Next" ++ u) (h ∙ ap (λ u. space ++ u) (cut_body-Joins true rest))
    ∙ sym (append_assoc (codes "## Next") space _)

block_behind-StandsIn :
    (t : Text) (o : Option Text)
    → behind_prefix (codes "## Next") t ≡ o
    → StandsIn t (block_behind o)
block_behind-StandsIn t none h = tt
block_behind-StandsIn t (some u) h =
    subst (λ v. StandsIn v (block_behind (some u)))
      (sym (behind_prefix-some (codes "## Next") t u h))
      (block_of-StandsIn u (past_breaks u) (past_breaks-Splits u))

or_block-StandsIn :
    (c : ℕ) (t : Text) (o p : Option Block)
    → StandsIn (c ∷ t) o
    → StandsIn t p
    → StandsIn (c ∷ t) (or_block c o p)
or_block-StandsIn c t (some b) p h k = h
or_block-StandsIn c t none none h k = tt
or_block-StandsIn c t none (some b) h k = ap (λ u. c ∷ u) k

find_block-StandsIn : (t : Text) → StandsIn t (find_block t)
unfolding find_block
find_block-StandsIn [] = tt
find_block-StandsIn (c ∷ t) =
    or_block-StandsIn c t (block_behind (behind_prefix (codes "## Next") (c ∷ t))) (find_block t)
      (block_behind-StandsIn (c ∷ t) _ refl) (find_block-StandsIn t)

-- The text is the same but for one block.
abbrev pub SameButFor : Block → Text → Text → Type 0
SameButFor b t u =
    (t ≡ b.front ++ (b.body ++ b.rest)) × ((body : Text) × (u ≡ b.front ++ (body ++ b.rest)))

module _ (e : Env) (t : Text) (d : Demotion) where
  abbrev pub Rewrites : Type 0
  Rewrites = (b : Block) × (find_block t ≡ some b) × SameButFor b t d.text

  demote_block-Rewrites :
      (p : Pointer) (day : ℕ) (o : Option Block)
      → find_block t ≡ o
      → demote_block e t p day o ≡ some d
      → Rewrites × (d.new_id ≡ next_queued_id (split_lines t))
  unfolding demote_block
  demote_block-Rewrites p day none at h = absurd cc
  demote_block-Rewrites p day (some b) at h = (
    (
      b,
      at,
      (
        subst (StandsIn t) at (find_block-StandsIn t),
        (_, ap (λ (x : Demotion). x.text) (sym (from_some h))),
      ),
    ),
    ap (λ (x : Demotion). x.new_id) (sym (from_some h)),
  )
    where
      from_some : {x y : Demotion} → some x ≡ some y → x ≡ y
      from_some k = cc k

  -- The pointer that was read is past its days.
  abbrev pub Stalled : Type 0
  Stalled =
      (p : Pointer) × (day : ℕ) × (pointer e t ≡ some (some p))
      × (p.set_day ≡ some day)
      × (is_empty p.id ≡ false)
      × (day + p.ttl < e.today)

  demote_pointer-Stalled :
      (p : Pointer) (o : Option ℕ)
      → pointer e t ≡ some (some p)
      → p.set_day ≡ o
      → demote_pointer e t p o ≡ some d
      → Stalled × Rewrites × (d.new_id ≡ next_queued_id (split_lines t))
  unfolding demote_pointer
  demote_pointer-Stalled p none read at h = absurd cc
  demote_pointer-Stalled p (some day) read at h =
      elim (Bool-cases (is_empty p.id || leb e.today (day + p.ttl))) [
        | inl fine ↦ absurd (cc (sym (if_true _ _ _ fine) ∙ h))
        | inr stalled ↦
            let (named_one, late) = neither (is_empty p.id) e.today (day + p.ttl) stalled in
            let (rewrites, next) =
              demote_block-Rewrites p day (find_block t) refl (sym (if_false _ _ _ stalled) ∙ h) in
            ((p, day, read, at, named_one, late), rewrites, next)
      ]
    where
      neither : (a : Bool) (m n : ℕ) → (a || leb m n) ≡ false → (a ≡ false) × (n < m)
      neither a m n k = ground arith

  demote_read-Stalled :
      (r : Reading)
      → pointer e t ≡ r
      → demote_read e t r ≡ some (some d)
      → Stalled × Rewrites × (d.new_id ≡ next_queued_id (split_lines t))
  unfolding demote_read
  demote_read-Stalled none read h = absurd cc
  demote_read-Stalled (some none) read h = absurd cc
  demote_read-Stalled (some (some p)) read h = demote_pointer-Stalled p p.set_day read refl (cc h)

-- A demotion happens only where the pointer has an id and a day, and today is past that day and its days
-- to live; it leaves everything in the queue's text but the block under the heading, and the id that it
-- advances to is that of the first queued row of the text.
pub demote_and_advance-Stalled :
    (e : Env) (t : Text) (d : Demotion)
    → demote_and_advance e t ≡ some (some d)
    → Stalled e t d × Rewrites e t d × (d.new_id ≡ next_queued_id (split_lines t))
unfolding demote_and_advance
demote_and_advance-Stalled e t d h = demote_read-Stalled e t d (pointer e t) refl h
