-- ===== src/Router/Params.antt =====
-- automation/scripts/router-tick.py: ttl_s, dedup_window_s, escalate_n and router_reroute_max.
use Prim.Native.Nat.{ℕ, ◌+◌, max}
use hngh.Prelude.{Option, none, some, List, [], ◌∷◌, if◌then◌else◌, ℤ, pos_part, neg_part}
use hngh.Texts.{Text, codes, is_empty, same_text, starts, split}
use hngh.Router.{Env}

-- The value in a row of the table for this key.
unfoldable pub value_of : Text → List Text → Option Text
unfolding same_text
value_of key (k ∷ value ∷ more) = if same_text k key then some value else none
value_of key _ = none

-- The value where one is found, else the other.
abbrev pub or_value : Option Text → Option Text → Option Text
or_value none other = other
or_value (some value) other = some value

-- The first row of the table for this key; comment rows are skipped.
unfoldable pub table_value : Text → List Text → Option Text
unfolding value_of starts split
table_value key [] = none
table_value key (line ∷ lines) =
    let rest = table_value key lines in
    if starts (codes "#") line then rest else or_value (value_of key (split b'\t' line)) rest

abbrev pub in_table : Text → Option (List Text) → Option Text
in_table key none = none
in_table key (some lines) = table_value key lines

-- The environment's value unless it is empty, else the table's.
unfoldable pub param : Env → Option Text → Text → Option Text
unfolding table_value
param e none key = in_table key e.params
param e (some value) key = if is_empty value then in_table key e.params else some value

-- A value that is missing or does not convert gives the default.
abbrev pub converted : (Text → Option ℤ) → Option Text → Option ℤ
converted convert none = none
converted convert (some value) = convert value

abbrev pub at_least : ℕ → ℕ → Option ℤ → ℕ
at_least lowest default none = default
at_least lowest default (some z) = max lowest (pos_part z)

-- `ttl_s()`
unfoldable pub ttl_s : Env → ℕ
unfolding param
ttl_s e =
    at_least 0 86400 (converted e.hours (param e e.ttl_hours (codes "routed-candidate-ttl-hours")))

abbrev pub magnitude : ℕ → Option ℤ → ℕ
magnitude default none = default
magnitude default (some z) = pos_part z + neg_part z

-- `dedup_window_s()`
unfoldable pub dedup_window_s : Env → ℕ
dedup_window_s e = magnitude 43200 (converted e.hours e.dedup_hours)

-- `escalate_n()`
unfoldable pub escalate_n : Env → ℕ
unfolding param
escalate_n e = at_least 1 3 (converted e.truncated (param e e.escalate (codes "router-escalate-n")))

-- `router_reroute_max()`
unfoldable pub router_reroute_max : Env → ℕ
unfolding param
router_reroute_max e =
    at_least 1 3 (converted e.truncated (param e e.reroute_max (codes "router-reroute-max")))
