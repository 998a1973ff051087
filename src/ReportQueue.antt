-- ===== src/ReportQueue.antt =====
-- automation/lib/report_queue.py: report rows, and the terminal silence of an identity.
pub mod Silence
pub mod Alerts
use hngh.Prelude.{ℕ, Option, none, some, List, [], ◌∷◌, ◌++◌, Bool, true, false, if◌then◌else◌}
use hngh.Texts.{Text, codes, is_empty, same_text, occurs, later}

-- What the state file holds for one identity.
pub record Entry : Type 0 where
  pub expires : Text
  pub escalated : Bool

abbrev pub Identities : Type 0
Identities = List (Text × Entry)

-- One call of the kernel's report-queue command.
pub record Filing : Type 0 where
  pub kind : Text
  pub content : Text
  pub identity : Option Text
  pub window : Option ℕ
  pub evidence : Option Text

-- What a call reads from outside: the time and the time seven days on, as ISO texts; whether the state
-- file can be written, and whether the command lands a filing.
pub record Clock : Type 0 where
  pub now : Text
  pub week_on : Text
  pub can_write : Bool
  pub lands : Filing → Bool

-- The state file (`none` where it cannot be read), and the filings handed to the command.
pub record World : Type 0 where
  pub file : Option Identities
  pub filings : List Filing

-- `_load_state()`
unfoldable pub load_state : World → Identities
load_state w = elim w.file [ none ↦ [] | some state ↦ state ]

-- `_save_state(state)`: a file that cannot be written stays as it is.
unfoldable pub save_state : Clock → Identities → World → World
save_state c state w = if c.can_write then record w { file = some state } else w

-- `state.get(identity)`
unfoldable pub find : Identities → Text → Option Entry
find [] identity = none
find ((k, e) ∷ state) identity =
    let rest = find state identity in if same_text k identity then some e else rest

-- `state[identity] = entry`
unfoldable pub store : Text → Entry → Identities → Identities
store identity entry [] = (identity, entry) ∷ []
store identity entry ((k, e) ∷ state) =
    let rest = store identity entry state in
    if same_text k identity then (k, entry) ∷ state else (k, e) ∷ rest

-- `silence_identity(identity)`
unfoldable pub silence_identity : Clock → Text → World → Bool × World
unfolding load_state save_state store
silence_identity c identity w = if is_empty identity then (false, w) else (
  true,
  save_state c (store identity (record { expires = c.now; escalated = true }) (load_state w)) w,
)

-- `_file(kind, text, ...)`
unfoldable pub file_row : Clock → Filing → World → Bool × World
file_row c f w = (c.lands f, record w { filings = w.filings ++ f ∷ [] })

-- The operator's one alert for an identity past its expiry.
unfoldable pub expiry_alert : Text → Entry → Filing
expiry_alert identity entry = record {
  kind = codes "alert";
  content =
      codes "identity expired: "
      ++ identity
      ++ codes " cannot close within its window (expires="
      ++ entry.expires
      ++ codes
          "); auto-parked after one operator escalation -- close the condition or re-arm by clearing its identity state";
  identity = some (codes "expired:" ++ identity);
  window = none;
  evidence = none;
}

-- The text with the expiry in it.
unfoldable pub stamped : Clock → Entry → Text → Text
stamped c entry content =
    let mark = codes "expires=" ++ entry.expires in
    if occurs mark content then content else content ++ codes " " ++ mark

-- A filing under an identity with this entry in the state.
unfoldable pub report_entry : Clock → Filing → Text → Identities → Entry → World → Bool × World
unfolding later store save_state file_row expiry_alert stamped
report_entry c f identity state entry w =
    if later c.now entry.expires
    then (if entry.escalated then (false, w) else (
      false,
      (file_row c (expiry_alert identity entry)
          (save_state c (store identity (record entry { escalated = true }) state) w)).1,
    ))
    else file_row c (record f { content = stamped c entry f.content }) w

-- A new identity expires as the caller says, or in seven days.
unfoldable pub new_entry : Clock → Option Text → Entry
new_entry c none = record { expires = c.week_on; escalated = false }
new_entry c (some e) = record { expires = if is_empty e then c.week_on else e; escalated = false }

-- A filing under an identity whose entry is looked up.
unfoldable pub report_identity :
    Clock → Filing → Text → Option Text → Identities → Option Entry → World → Bool × World
unfolding report_entry store save_state new_entry
report_identity c f identity expires state (some entry) w = report_entry c f identity state entry w
report_identity c f identity expires state none w =
    let entry = new_entry c expires in
    let state' = store identity entry state in
    report_entry c f identity state' entry (save_state c state' w)

-- A filing under the identity that is given.
unfoldable pub report_as : Clock → Filing → Option Text → World → Option Text → Bool × World
unfolding report_identity file_row find load_state
report_as c f expires w none = file_row c f w
report_as c f expires w (some identity) =
    report_identity c f identity expires (load_state w) (find (load_state w) identity) w

-- `report(kind, text, identity, window, evidence, expires)`
unfoldable pub report : Clock → Filing → Option Text → World → Bool × World
unfolding report_as
report c f expires w = report_as c f expires w f.identity
