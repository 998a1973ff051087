-- ===== src/Ng/Ledger.antt =====
-- automation/ng/state_emitter.py: the judgment-event ledger and its single writer.
pub mod Versions
use hngh.Prelude.{
  ℕ, zero, suc, ◌+◌, ◌-◌, ◌==◌, String, Option, none, some, List, [], ◌∷◌, ◌++◌, length, drop,
  if◌then◌else◌,
}
use hngh.Ng.Contract.{Event}

-- The ledger's two files. A version file that is missing or holds no number is `none`; a line of the
-- events file that does not decode to an event is `none`.
pub record Ledger (P : Type 0) : Type 0 where
  pub version_file : Option ℕ
  pub events : List (Option (Event P))

module _ {P : Type 0} where
  -- `_version(d)`
  unfoldable pub version : Ledger P → ℕ
  version l = elim l.version_file [ none ↦ 0 | some v ↦ v ]

  -- `append(kind, payload, refs)`: the event, and the ledger behind it.
  unfoldable pub append : String → P → List String → Ledger P → Event P × Ledger P
  unfolding version
  append kind payload refs l =
      let v = version l + 1 in
      let ev : Event P = record {
        kind = kind;
        state_version = v;
        payload = payload;
        refs = refs;
      } in
      (ev, record l { version_file = some v; events = l.events ++ some ev ∷ [] })

  -- `lines[-n:]`, which is every line at 0.
  unfoldable pub last_lines : ℕ → List (Option (Event P)) → List (Option (Event P))
  last_lines n lines = if n == 0 then lines else drop (length lines - n) lines

  unfoldable pub decoded : List (Option (Event P)) → List (Event P)
  decoded [] = []
  decoded (none ∷ rest) = decoded rest
  decoded (some ev ∷ rest) = ev ∷ decoded rest

  unfoldable pub read_events : ℕ → Ledger P → List (Event P)
  unfolding last_lines decoded
  read_events n l = decoded (last_lines n l.events)
