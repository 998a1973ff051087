-- ===== src/Schema/Entry.antt =====
-- automation/jobs/viz_schema.py: issues, `_check_entry_fields` and `_warn_scalar_extra`.
use hngh.Prelude.{
  ℕ, ◌+◌, String, Option, none, some, List, [], ◌∷◌, ◌++◌, map, Bool, true, false, not, select,
  contains, sorted, text_le, if◌then◌else◌,
}
use hngh.Schema.Json.{
  Json, text, object, array, Dict, items, fields, get, has_key, Kind, is_instance, is_scalar,
}

pub data Severity : Type 0 where
  error warning : Severity

-- Where an issue stands: `nodes[3]`, `results[0].passes[1]`, `routes[2].terminus`.
pub data Place : Type 0 where
  envelope : Place
  entry : (list : String) (index : ℕ) → Place
  inner : (of : Place) (list : String) (index : ℕ) → Place
  terminus : Place → Place

-- An issue: the severity, the code, and what its detail names.
pub record Issue : Type 0 where
  pub severity : Severity
  pub code : String
  pub place : Place
  pub about : String

abbrev pub err : String → Place → String → Issue
err code place about = record { severity = error; code = code; place = place; about = about }

abbrev pub warn : String → Place → String → Issue
warn code place about = record { severity = warning; code = code; place = place; about = about }

-- One issue under a test.
unfoldable pub issue_if : Bool → Issue → List Issue
issue_if b i = if b then i ∷ [] else []

unfoldable pub missing : Place → List String → Dict → List Issue
missing place required d =
    map (err "missing-required-field" place) (select (λ f. not (has_key d f)) required)

-- The field is there, and its value has another type.
unfoldable pub is_wrong : Dict → String × Kind → Bool
unfolding get is_instance
is_wrong d (f, want) = elim (get d f) [ none ↦ false | some v ↦ not (is_instance want v) ]

unfoldable pub wrong_types : Place → List (String × Kind) → Dict → List Issue
unfolding is_wrong
wrong_types place types d = map (λ t. err "wrong-type" place t.0) (select (is_wrong d) types)

-- `_warn_scalar_extra`: unknown scalars warn, then anything else is an error.
unfoldable pub scalar_extra : Place → List String → Dict → List Issue
unfolding is_scalar sorted
scalar_extra place allowed d =
    let extra = select (λ kv. not (contains allowed kv.0)) (sorted (λ a b. text_le a.0 b.0) d) in
    map (λ kv. warn "unknown-extra-key" place kv.0) (select (λ kv. is_scalar kv.1) extra)
    ++ map (λ kv. err "unknown-key-nested-payload" place kv.0)
        (select (λ kv. not (is_scalar kv.1)) extra)

-- `_check_entry_fields`, and the checks behind it where the entry is an object.
unfoldable pub check_entry :
    Place → List String → List (String × Kind) → (Dict → List Issue) → Json → List Issue
unfolding missing wrong_types
check_entry place required types behind (object fs) =
    missing place required (fields fs)
    ++ (wrong_types place types (fields fs) ++ behind (fields fs))
check_entry place required types behind _ = err "entry-not-object" place "" ∷ []

-- `for i, entry in enumerate(entries)`
unfoldable pub each : (ℕ → Json → List Issue) → ℕ → List Json → List Issue
each check i [] = []
each check i (v ∷ vs) = check i v ++ each check (i + 1) vs

-- `seen.add(id)`, where the value is a text.
unfoldable pub remembered : List String → Option Json → List String
remembered seen (some (text id)) = id ∷ seen
remembered seen _ = seen

unfoldable pub remember : String → List String → Json → List String
unfolding remembered
remember key seen (object fs) = remembered seen (get (fields fs) key)
remember key seen _ = seen

-- The loop over entries with a set of the keys seen so far.
unfoldable pub each_seen :
    String → (List String → ℕ → Json → List Issue) → List String → ℕ → List Json → List Issue
unfolding remember
each_seen key check seen i [] = []
each_seen key check seen i (v ∷ vs) =
    check seen i v ++ each_seen key check (remember key seen v) (i + 1) vs

-- The set behind the loop.
unfoldable pub all_seen : String → List String → List Json → List String
unfolding remember
all_seen key seen [] = seen
all_seen key seen (v ∷ vs) = all_seen key (remember key seen v) vs

-- A value that was seen before.
unfoldable pub seen_before : String → List String → Place → Option Json → List Issue
unfolding issue_if
seen_before code seen place (some (text id)) = issue_if (contains seen id) (err code place id)
seen_before code seen place _ = []

unfoldable pub duplicate : String → String → List String → Place → Dict → List Issue
unfolding seen_before
duplicate key code seen place d = seen_before code seen place (get d key)

-- The value of a key is there and is none of these words.
unfoldable pub is_unknown : Dict → String → List String → Bool
unfolding get
is_unknown d key words = elim (get d key) [
  | none ↦ false
  | some v ↦ elim v [ text s ↦ not (contains words s) | _ ↦ true ]
]

-- The list under a key, where it is one.
unfoldable pub list_at : Dict → String → Option (List Json)
unfolding get
list_at d key = elim (get d key) [
  | none ↦ none
  | some v ↦ elim v [ array vs ↦ some (items vs) | _ ↦ none ]
]

-- The checks of a list; nothing is checked where there is none.
unfoldable pub if_list : (List Json → List Issue) → Option (List Json) → List Issue
if_list check none = []
if_list check (some vs) = check vs

unfoldable pub over : Dict → String → (List Json → List Issue) → List Issue
unfolding if_list
over d key check = if_list check (list_at d key)
