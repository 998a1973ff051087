-- ===== src/Ng/Tiering.antt =====
-- automation/ng/tiering.py: the tier of a bead, the order of beads and of model legs.
pub mod Order
use hngh.Prelude.{
  ℕ, String, Option, none, some, List, [], ◌∷◌, ℤ, pos, ◌+ℤ◌, leb_ℤ, ltb_ℤ, ltb, leb, ◌==◌, Bool,
  true, false, ◌&&◌, ◌||◌, not, any, if◌then◌else◌, str_eq, sorted, insert, Python,
}
use hngh.Ng.Contract.{Tier, t1, t2, t3}
use Prim.Native.String.{◌++◌}

-- The value of a bead's "tier" key.
pub data Explicit : Type 0 where
  absent : Explicit
  tier_value : Tier → Explicit
  text : String → Explicit

-- A bead's mapping. A number that `float` refuses, or a missing one, is `none`; the numbers are in
-- hundredths, as the cadence rounds them.
pub record Bead : Type 0 where
  pub tier : Explicit
  pub title : String
  pub body : String
  pub age_days : Option ℤ
  pub attempts : Option ℤ

abbrev pub keywords : List String
keywords = "gate" ∷ "kernel" ∷ "cert" ∷ "scrub" ∷ []

unfoldable pub rank : Tier → ℕ
rank t1 = 0
rank t2 = 1
rank t3 = 2

-- `_num(value)`
unfoldable pub num : Option ℤ → ℤ
num none = pos 0
num (some z) = z

-- `contract.Tier(text)`; `none` is ValueError
unfoldable pub tier_of : String → Option Tier
tier_of s =
    if str_eq s "T1"
    then some t1
    else if str_eq s "T2"
    then some t2
    else if str_eq s "T3"
    then some t3
    else none

module _ (py : Python) where
  -- Keywords, then staleness: the part of `tier_for` behind the explicit tier.
  unfoldable pub tier_by_text : Bead → Tier
  unfolding num
  tier_by_text b =
      let content = py.lower (b.title ++ "\n" ++ b.body) in
      if any (λ k. py.within k content) keywords
      then t1
      else if leb_ℤ (pos 700) (num b.age_days) && leb_ℤ (pos 200) (num b.attempts)
      then t1
      else t2

  unfoldable pub tier_in : Explicit → Bead → Tier
  unfolding tier_by_text tier_of
  tier_in absent b = tier_by_text b
  tier_in (tier_value t) b = t
  tier_in (text s) b = elim (tier_of (py.upper (py.strip s))) [ some t ↦ t | none ↦ tier_by_text b ]

  unfoldable pub tier_for : Bead → Tier
  unfolding tier_in
  tier_for b = tier_in b.tier b

  -- The key of `order`, compared as a pair: the rank, then the age downwards.
  unfoldable pub bead_le : Bead → Bead → Bool
  unfolding tier_for rank num
  bead_le a b =
      let ra = rank (tier_for a) in
      let rb = rank (tier_for b) in
      ltb ra rb || (ra == rb && leb_ℤ (num b.age_days) (num a.age_days))

  unfoldable pub order : List Bead → List Bead
  unfolding sorted bead_le
  order = sorted bead_le

-- A model leg.
pub record Leg : Type 0 where
  pub kind : String
  pub prepaid : Bool
  pub url : String
  pub blocked : Bool

-- The key of `leg_order`: unblocked legs first, then pre-paid ones.
unfoldable pub leg_le : Leg → Leg → Bool
leg_le a b =
    (not a.blocked && b.blocked) || ((not a.blocked || b.blocked) && (a.prepaid || not b.prepaid))

unfoldable pub leg_order : List Leg → List Leg
unfolding sorted leg_le
leg_order = sorted leg_le
