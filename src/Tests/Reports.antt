-- ===== src/Tests/Reports.antt =====
-- Report rows under one identity, before and behind its expiry.
use hngh.Prelude.{◌+◌, String, none, some, List, [], ◌∷◌, true, false, ◌≡◌, refl, if◌then◌else◌}
use hngh.Texts.{codes, later, occurs, same_text}
use hngh.ReportQueue.{
  Entry, Filing, Clock, World, load_state, find, report, expiry_alert, silence_identity, file_row,
  stamped,
}
use hngh.ReportQueue.Alerts.{alerts, unescalated, reports-escalate_once}
use hngh.ReportQueue.Silence.{Call, reports, reports-stay_silent, silence_identity-report}

abbrev at : String → Clock
at now = record {
  now = codes now;
  week_on = codes "2026-10-08";
  can_write = true;
  lands = λ f. true;
}

abbrev filing : Filing
filing = record {
  kind = codes "alert";
  content = codes "disk full";
  identity = some (codes "disk");
  window = none;
  evidence = none;
}

abbrev fresh : Entry
fresh = record { expires = codes "2026-10-08"; escalated = false }

abbrev spent : Entry
spent = record { expires = codes "2026-10-08"; escalated = true }

abbrev empty : World
empty = record { file = none; filings = [] }

abbrev open_world : World
open_world = record { file = some (((codes "disk"), fresh) ∷ []); filings = [] }

abbrev parked_world : World
parked_world = record {
  file = some (((codes "cpu"), fresh) ∷ ((codes "disk"), spent) ∷ []);
  filings = [];
}

-- A row within its week, the alert behind it, and silence from then on.
report_runs :
    (report (at "2026-10-01") filing none empty ≡ (
      true,
      record {
        file = some (((codes "disk"), fresh) ∷ []);
        filings = record filing { content = codes "disk full expires=2026-10-08" } ∷ [];
      },
    ))
    × (report (at "2026-10-09") filing none open_world ≡ (
      false,
      record {
        file = some (((codes "disk"), spent) ∷ []);
        filings = expiry_alert (codes "disk") fresh ∷ [];
      },
    ))
    × (report (at "2026-10-09") filing none parked_world ≡ (false, parked_world))
unfolding report occurs same_text
report_runs = (refl, refl, refl)

abbrev calls : List Call
calls =
    (at "2026-10-09", record filing { identity = some (codes "cpu") }, none)
    ∷ (at "2026-10-10", filing, none)
    ∷ []

reports-stay_silent_example :
    report (at "2026-10-11") filing none (reports calls parked_world)
    ≡ (false, reports calls parked_world)
unfolding report occurs same_text
reports-stay_silent_example =
    reports-stay_silent (codes "disk") spent calls parked_world (at "2026-10-11") filing none refl
      refl refl refl

-- Three filings behind the expiry, two of them under the identity, of which one becomes an alert.
abbrev late_calls : List Call
late_calls = (at "2026-10-09", filing, none) ∷ calls

reports-escalate_once_example :
    alerts (codes "disk") (reports late_calls open_world).filings
      + unescalated (codes "disk") (reports late_calls open_world)
    ≡ 1
unfolding report occurs same_text load_state find
reports-escalate_once_example = reports-escalate_once (codes "disk") late_calls open_world refl

silence_identity-report_example :
    let after = (silence_identity (at "2026-10-01") (codes "disk") empty).1 in
    report (at "2026-10-01") filing none after ≡ (
      if later (codes "2026-10-01") (codes "2026-10-01")
      then (false, after)
      else file_row
          (at "2026-10-01")
          (record filing {
            content =
                stamped
                  (at "2026-10-01")
                  (record { expires = codes "2026-10-01"; escalated = true })
                  (codes "disk full");
          })
          after)
silence_identity-report_example =
    silence_identity-report (codes "disk") empty (at "2026-10-01") (at "2026-10-01") filing none
      refl refl refl
