-- ===== src/Ng/Cadence/State.antt =====
-- automation/ng/cadence.py: the state file of the beat, and what is derived from a bead's event.
pub mod Counters
use hngh.Prelude.{
  ℕ, ◌+◌, ◌/◌, max, String, Option, none, some, List, [], ◌∷◌, Bool, true, false, ℤ, pos, pos_part,
  leb, if◌then◌else◌, str_eq,
}
use hngh.Ng.Contract.{Question}
use hngh.Ng.Cadence.Config.{Config, dispatch_cap}

-- The payload of a bead's event; an absent key is `none`.
pub record BeadPayload : Type 0 where
  pub id : String
  pub title : String
  pub status : String
  pub age_days : ℤ
  pub tier_hint : Option String
  pub tier : Option String
  pub attempts : Option ℕ

-- A triage event. `marked` is the "_attempts" key that a beat writes into the mapping.
pub record BeadEvent : Type 0 where
  pub state_version : ℕ
  pub payload : BeadPayload
  pub marked : Option ℕ

-- A parked triage entry.
pub record Entry : Type 0 where
  pub event : BeadEvent
  pub attempts : ℕ

-- A row of the state file with a day and a count. A day that is absent or no text, and a count that
-- is absent or that `int` refuses, are `none`.
pub record DayRow : Type 0 where
  pub date : Option String
  pub count : Option ℤ

-- The state file. A key that is absent, or whose value has another type, is `none`.
pub record State : Type 0 where
  pub budget : Option DayRow
  pub dispatch : Option DayRow
  pub deferred : Option (List Entry)
  pub exhausted : Option (List String)

abbrev pub empty_state : State
empty_state = record { budget = none; dispatch = none; deferred = none; exhausted = none }

-- `_state(d)`: a file that is missing or does not decode to an object reads as empty.
unfoldable pub state_of : Option State → State
state_of none = empty_state
state_of (some st) = st

-- `row.get("date") == today`
unfoldable pub is_today : Config → DayRow → Bool
is_today c row = elim row.date [ none ↦ false | some day ↦ str_eq day c.today ]

-- `max(0, int(count))`, and 0 where there is none.
unfoldable pub count_of : DayRow → ℕ
count_of row = elim row.count [ none ↦ 0 | some z ↦ pos_part z ]

-- The count of a row for today.
unfoldable pub day_count : Config → Option DayRow → ℕ
unfolding is_today count_of
day_count c none = 0
day_count c (some row) = if is_today c row then count_of row else 0

-- `_budget(d)`: the input tokens spent today.
unfoldable pub budget : Config → Option State → ℕ
unfolding day_count state_of
budget c file = day_count c (state_of file).budget

unfoldable pub save_budget : Config → ℕ → Option State → Option State
unfolding state_of
save_budget c tokens file = some (record (state_of file) {
  budget = some (record { date = some c.today; count = some (pos tokens) });
})

-- `_dispatch_admit(d)`: whether one more dispatch is under the ceiling, and the file behind it.
unfoldable pub dispatch_admit : Config → Option State → Bool × Option State
unfolding day_count state_of
dispatch_admit c file =
    let count = day_count c (state_of file).dispatch in
    if leb (dispatch_cap c) count then (false, file) else (
      true,
      some (record (state_of file) {
        dispatch = some (record { date = some c.today; count = some (pos (count + 1)) });
      }),
    )

unfoldable pub or_empty {ℓ} : {A : Type ℓ} → Option (List A) → List A
or_empty none = []
or_empty (some xs) = xs

unfoldable pub deferred : Option State → List Entry
unfolding state_of or_empty
deferred file = or_empty (state_of file).deferred

unfoldable pub save_deferred : List Entry → Option State → Option State
unfolding state_of
save_deferred entries file = some (record (state_of file) { deferred = some entries })

unfoldable pub exhausted : Option State → List String
unfolding state_of or_empty
exhausted file = or_empty (state_of file).exhausted

-- `pay.get("tier_hint", pay.get("tier", ""))`
unfoldable pub tier_text : BeadPayload → String
tier_text p = elim p.tier_hint [ some t ↦ t | none ↦ elim p.tier [ some t ↦ t | none ↦ "" ] ]

-- The slots of a triage question.
pub record Slots : Type 0 where
  pub id : String
  pub title : String
  pub tier_hint : String
  pub age_days : ℤ
  pub attempts : ℕ

abbrev pub labels : List String
labels = "file" ∷ "retry" ∷ "escalate" ∷ "close" ∷ []

-- `ev.get("_attempts", pay.get("attempts", 0))`
unfoldable pub attempts_of : BeadEvent → ℕ
attempts_of ev = elim ev.marked [
  | some n ↦ n
  | none ↦ elim ev.payload.attempts [ some n ↦ n | none ↦ 0 ]
]

unfoldable pub question : BeadEvent → Question Slots
unfolding tier_text attempts_of
question ev = record {
  head = "triage";
  slots = record {
    id = ev.payload.id;
    title = ev.payload.title;
    tier_hint = tier_text ev.payload;
    age_days = ev.payload.age_days;
    attempts = attempts_of ev;
  };
  labels = labels;
  state_version = ev.state_version;
}

-- `_project(ev)`: a quarter of the length of the event's JSON text, which `dumped` gives; `none`
-- where it cannot be written.
unfoldable pub project : (BeadEvent → Option ℕ) → BeadEvent → ℕ
project dumped ev = elim (dumped ev) [ none ↦ 1 | some n ↦ max 1 (n / 4) ]
