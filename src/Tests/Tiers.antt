-- ===== src/Tests/Tiers.antt =====
-- Tiers of a few beads.
use hngh.Prelude.{
  String, none, some, List, [], ◌∷◌, ◌≡◌, refl, pos, Perm, select, Python, str_eq, ◌⊎◌, ◌&&◌,
}
use hngh.Ng.Contract.{t3}
use hngh.Ng.Tiering.{Bead, Explicit, absent, text, tier_value, tier_of, tier_for, order}
use hngh.Ng.Tiering.Order.{Ordered, at, order-Ordered, tier_for-t3}

abbrev host : Python
host = record {
  lower = λ s. s;
  upper = λ s. s;
  strip = λ s. s;
  within = λ k s. str_eq s "gate review\n" && str_eq k "gate";
  split = λ s sep. s ∷ [];
  partition = λ s sep. (s, "");
  int_of = λ s. none;
}

abbrev bead : Explicit → String → Bead
bead tier title = record {
  tier = tier;
  title = title;
  body = "";
  age_days = some (pos 100);
  attempts = none;
}

abbrev beads : List Bead
beads = bead absent "docs tidy" ∷ bead (text "T3") "gate review" ∷ bead absent "gate review" ∷ []

order_run :
    order host beads
    ≡ bead absent "gate review" ∷ bead absent "docs tidy" ∷ bead (text "T3") "gate review" ∷ []
unfolding order
order_run = refl

order-Ordered_example :
    Perm (order host beads) beads
    × Ordered host (order host beads)
    × (select (at host 1 (pos 100)) (order host beads) ≡ select (at host 1 (pos 100)) beads)
order-Ordered_example = order-Ordered host beads 1 (pos 100)

tier_for-t3_example :
    (text "T3" ≡ tier_value t3)
    ⊎ ((s : String) × (text "T3" ≡ text s) × (tier_of (host.upper (host.strip s)) ≡ some t3))
unfolding tier_for
tier_for-t3_example = tier_for-t3 host (bead (text "T3") "gate review") refl
