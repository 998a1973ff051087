-- ===== src/Ng/Cadence/Config.antt =====
-- automation/ng/cadence.py: what a beat reads from the environment and the parameter table.
pub mod Legs
use hngh.Prelude.{
  ℕ, ◌*◌, max, String, Option, none, some, List, [], ◌∷◌, map, Bool, true, false, not, pos_part,
  length, leb, if◌then◌else◌, str_eq, Python, ◌≡◌,
}
use hngh.Ng.Tiering.{Leg, leg_order}

-- The environment of one beat. The day is the UTC date at its start.
pub record Config : Type 0 where
  pub py : Python
  pub today : String
  -- HNGH_JEV_DAILY_INPUT_TOKEN_CAP, HNGH_ATTEMPT_CAP, HNGH_DISPATCH_DAY_CAP and HNGH_JEV_LEGS
  pub token_cap_env : Option String
  pub attempt_cap_env : Option String
  pub dispatch_cap_env : Option String
  pub legs_env : Option String
  -- the lines of cadence-params.tsv; `none` where the file cannot be read
  pub params : Option (List String)

abbrev pub token_cap_default : ℕ
token_cap_default = 125000000

abbrev pub dispatch_cap_default : ℕ
dispatch_cap_default = 4

-- `max(low, int(raw))`, and the default where `int` raises ValueError.
unfoldable pub int_at_least : Python → ℕ → ℕ → String → ℕ
int_at_least py low default raw = elim (py.int_of raw) [
  | none ↦ default
  | some z ↦ max low (pos_part z)
]

unfoldable pub token_cap : Config → ℕ
unfolding int_at_least
token_cap c = elim c.token_cap_env [
  | none ↦ token_cap_default
  | some raw ↦ int_at_least c.py 1 token_cap_default raw
]

unfoldable pub attempt_cap : Config → ℕ
unfolding int_at_least
attempt_cap c = elim c.attempt_cap_env [ none ↦ 3 | some raw ↦ int_at_least c.py 1 3 raw ]

-- The first row of the table whose first column is `key`, and its second column.
unfoldable pub param_in : Python → String → List String → Option String
param_in py key [] = none
param_in py key (line ∷ lines) =
    let rest = param_in py key lines in
    elim (py.split line "\t") [
      | [] ↦ rest
      | k ∷ cols ↦ elim cols [
        | [] ↦ rest
        | v ∷ more ↦ if str_eq (py.strip k) key then some (py.strip v) else rest
      ]
    ]

unfoldable pub param : Config → String → Option String
unfolding param_in
param c key = elim c.params [ none ↦ none | some lines ↦ param_in c.py key lines ]

-- `os.environ.get(name) or fallback`: an empty text counts as absent.
unfoldable pub or_else : Option String → Option String → Option String
or_else none fallback = fallback
or_else (some v) fallback = if str_eq v "" then fallback else some v

unfoldable pub dispatch_cap : Config → ℕ
unfolding param or_else int_at_least
dispatch_cap c = elim (or_else c.dispatch_cap_env (param c "dispatch-day-max")) [
  | none ↦ dispatch_cap_default
  | some raw ↦ int_at_least c.py 0 dispatch_cap_default raw
]

-- One "kind=url" part of HNGH_JEV_LEGS.
unfoldable pub leg_of : Python → String → Leg
leg_of py part =
    let (raw_kind, raw_url) = py.partition part "=" in
    let low = py.lower (py.strip raw_kind) in
    let kind = if str_eq low "" then "cash" else low in
    let url = py.strip raw_url in
    record { kind = kind; prepaid = str_eq kind "prepaid"; url = url; blocked = str_eq url "" }

unfoldable pub legs : Config → Option (List Leg)
unfolding leg_of
legs c = elim c.legs_env [
  | none ↦ none
  | some raw ↦ if str_eq raw "" then none else some (map (leg_of c.py) (c.py.split raw ","))
]

-- `leg["url"] or None`
unfoldable pub url_of : Leg → Option String
url_of l = if str_eq l.url "" then none else some l.url

unfoldable pub first_usable : List Leg → Option Leg
first_usable [] = none
first_usable (l ∷ ls) = if not l.blocked then some l else first_usable ls

-- The url to ask, and whether legs are configured at all.
unfoldable pub leg_url : Config → Option String × Bool
unfolding legs first_usable url_of
leg_url c = elim (legs c) [
  | none ↦ (none, false)
  | some ls ↦ elim (first_usable (leg_order ls)) [ none ↦ (none, true) | some l ↦ (url_of l, true) ]
]
