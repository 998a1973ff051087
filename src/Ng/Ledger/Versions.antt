-- ===== src/Ng/Ledger/Versions.antt =====
-- The versions of the ledger's events: every append takes the next one.
use hngh.Prelude.{
  ℕ, ◌+◌, ◌≤◌, ◌<◌, ◌≡◌, refl, ap, String, Option, none, some, List, [], ◌∷◌, ◌++◌, arith,
}
use hngh.Ng.Contract.{Event}
use hngh.Ng.Ledger.{Ledger, version, append, decoded}

module _ {P : Type 0} where
  -- The events carry rising versions, all above `low` and at most `high`.
  abbrev pub Rising : ℕ → ℕ → List (Option (Event P)) → Type 0
  Rising low high [] = low ≤ high
  Rising low high (none ∷ rest) = Rising low high rest
  Rising low high (some ev ∷ rest) = (low < ev.state_version) × Rising ev.state_version high rest

  abbrev pub IsOrdered : Ledger P → Type 0
  IsOrdered l = Rising 0 (version l) l.events

  Rising-append :
      (low high : ℕ) (es : List (Option (Event P))) (ev : Event P)
      → Rising low high es
      → high < ev.state_version
      → Rising low ev.state_version (es ++ some ev ∷ [])
  Rising-append low high [] ev r h = (omega arith, omega arith)
  Rising-append low high (none ∷ es) ev r h = Rising-append low high es ev r h
  Rising-append low high (some e ∷ es) ev r h =
      (r.0, Rising-append e.state_version high es ev r.1 h)

  -- An append takes the version after the last one, whatever the version file held, adds exactly its
  -- event behind the others, and keeps the versions of a ledger rising.
  pub append-IsOrdered :
      (kind : String) (payload : P) (refs : List String) (l : Ledger P)
      → IsOrdered l
      → IsOrdered (append kind payload refs l).1
        × (version (append kind payload refs l).1 ≡ version l + 1)
        × ((append kind payload refs l).0.state_version ≡ version l + 1)
        × ((append kind payload refs l).1.events
            ≡ l.events ++ some (append kind payload refs l).0 ∷ [])
  unfolding append version
  append-IsOrdered kind payload refs l h =
      (Rising-append 0 (version l) l.events _ h (omega arith), refl, refl, refl)

  pub decoded-append :
      (xs ys : List (Option (Event P))) → decoded (xs ++ ys) ≡ decoded xs ++ decoded ys
  unfolding decoded
  decoded-append [] ys = refl
  decoded-append (none ∷ xs) ys = decoded-append xs ys
  decoded-append (some e ∷ xs) ys = ap (◌∷◌ e) (decoded-append xs ys)
