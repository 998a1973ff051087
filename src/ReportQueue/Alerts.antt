-- ===== src/ReportQueue/Alerts.antt =====
-- automation/lib/report_queue.py: the alerts to the operator over a sequence of calls.
use hngh.Prelude.{
  ℕ, ◌+◌, ◌≡◌, refl, ap, subst, ◌∙◌, Option, none, some, List, [], ◌∷◌, ◌++◌, Bool, true, false,
  not, ◌&&◌, all, if◌then◌else◌, arith, Bool-cases, inl, inr,
}
use hngh.Texts.{Text, codes, same_text, same_text_iff, later}
use hngh.ReportQueue.{
  Entry, Identities, Filing, Clock, World, load_state, save_state, find, store, file_row,
  expiry_alert, new_entry, report_entry, report_identity, report_as, report,
}
use hngh.ReportQueue.Silence.{find-store, find-store_other, Call, reports}

-- The filing carries the identity of the alert for this one.
abbrev is_alert_as : Text → Option Text → Bool
is_alert_as identity none = false
is_alert_as identity (some j) = same_text j (codes "expired:" ++ identity)

abbrev pub is_alert : Text → Filing → Bool
is_alert identity f = is_alert_as identity f.identity

-- The number of alerts for the identity among the filings.
abbrev pub alerts : Text → List Filing → ℕ
alerts identity [] = 0
alerts identity (f ∷ fs) = (if is_alert identity f then 1 else 0) + alerts identity fs

-- 1 while the identity is not escalated, also while it is unknown.
abbrev open_entry : Option Entry → ℕ
open_entry none = 1
open_entry (some e) = if e.escalated then 0 else 1

abbrev pub unescalated : Text → World → ℕ
unescalated identity w = open_entry (find (load_state w) identity)

abbrev total : Text → World → ℕ
total identity w = alerts identity w.filings + unescalated identity w

alerts-append :
    (identity : Text) (fs : List Filing) (f : Filing)
    → alerts identity (fs ++ f ∷ []) ≡ alerts identity fs + (if is_alert identity f then 1 else 0)
alerts-append identity [] f = ground arith
alerts-append identity (g ∷ fs) f = ground (arith, alerts-append identity fs f)

expiry_alert-is_alert :
    (identity j : Text) (x : Entry) → is_alert identity (expiry_alert j x) ≡ same_text j identity
unfolding expiry_alert same_text
expiry_alert-is_alert identity j x = refl

module _ (identity : Text) (c : Clock) (writable : c.can_write ≡ true) where
  load-save : (s : Identities) (w : World) → load_state (save_state c s w) ≡ s
  unfolding save_state load_state
  load-save s w = rw writable refl

  total-save :
      (s : Identities) (w : World)
      → total identity (save_state c s w) ≡ alerts identity w.filings + open_entry (find s identity)
  unfolding save_state load_state
  total-save s w = rw writable refl

  total-file_row :
      (f : Filing) (w : World)
      → total identity (file_row c f w).1
        ≡ total identity w + (if is_alert identity f then 1 else 0)
  unfolding file_row load_state
  total-file_row f w = ground (arith, alerts-append identity w.filings f)

  -- What an escalation changes in the state, against the alert that it files.
  open_entry-store :
      (j : Text) (s : Identities) (x : Entry)
      → find s j ≡ some x
      → x.escalated ≡ false
      → open_entry (find (store j (record x { escalated = true }) s) identity)
          + (if same_text j identity then 1 else 0)
        ≡ open_entry (find s identity)
  open_entry-store j s x held first = elim (Bool-cases (same_text j identity)) [
    | inl same ↦
        let eq = (same_text_iff j identity).0 same in
        let held' : find s identity ≡ some x = subst (λ i. find s i ≡ some x) eq held in
        rw (same, eq, held', find-store identity (record x { escalated = true }) s, first) refl
    | inr apart ↦
        rw (apart, find-store_other j identity (record x { escalated = true }) s apart)
          (omega arith)
  ]

  total-escalate :
      (j : Text) (s : Identities) (x : Entry) (w : World)
      → load_state w ≡ s
      → find s j ≡ some x
      → x.escalated ≡ false
      → total identity
          (file_row c
            (expiry_alert j x)
            (save_state c (store j (record x { escalated = true }) s) w)).1
        ≡ total identity w
  total-escalate j s x w at held first =
      total-file_row (expiry_alert j x) _
      ∙ rw
          (
            total-save (store j (record x { escalated = true }) s) w,
            expiry_alert-is_alert identity j x,
            at,
          )
          (omega (arith, open_entry-store j s x held first))

  total-report_entry :
      (f : Filing) (j : Text) (s : Identities) (x : Entry) (w : World)
      → is_alert identity f ≡ false
      → load_state w ≡ s
      → find s j ≡ some x
      → total identity (report_entry c f j s x w).1 ≡ total identity w
  unfolding report_entry
  total-report_entry f j s x w plain at held = elim (Bool-cases (later c.now x.expires)) [
    | inr within ↦ rw within (total-file_row _ w ∙ rw plain (omega arith))
    | inl lapsed ↦ elim (Bool-cases x.escalated) [
      | inl silent ↦ rw (lapsed, silent) refl
      | inr first ↦ rw (lapsed, first) (total-escalate j s x w at held first)
    ]
  ]

  -- A new identity is not escalated.
  open_entry-new :
      (j : Text) (s : Identities) (x : Entry)
      → find s j ≡ none
      → x.escalated ≡ false
      → open_entry (find (store j x s) identity) ≡ open_entry (find s identity)
  open_entry-new j s x absent first = elim (Bool-cases (same_text j identity)) [
    | inl same ↦
        let eq = (same_text_iff j identity).0 same in
        let absent' : find s identity ≡ none = subst (λ i. find s i ≡ none) eq absent in
        rw (eq, absent', find-store identity x s, first) refl
    | inr apart ↦ ap open_entry (find-store_other j identity x s apart)
  ]

  new_entry-first : (expires : Option Text) → (new_entry c expires).escalated ≡ false
  unfolding new_entry
  new_entry-first none = refl
  new_entry-first (some e) = refl

  total-report_identity :
      (f : Filing) (j : Text) (expires : Option Text) (o : Option Entry) (w : World)
      → is_alert identity f ≡ false
      → find (load_state w) j ≡ o
      → total identity (report_identity c f j expires (load_state w) o w).1 ≡ total identity w
  unfolding report_identity
  total-report_identity f j expires (some x) w plain held =
      total-report_entry f j (load_state w) x w plain refl held
  total-report_identity f j expires none w plain absent =
      let x = new_entry c expires in
      let s = store j x (load_state w) in
      total-report_entry f j s x (save_state c s w) plain (load-save s w)
        (find-store j x (load_state w))
      ∙ total-save s w
      ∙ ap (λ n. alerts identity w.filings + n)
          (open_entry-new j (load_state w) x absent (new_entry-first expires))

  total-report_as :
      (f : Filing) (expires : Option Text) (w : World) (o : Option Text)
      → is_alert identity f ≡ false
      → total identity (report_as c f expires w o).1 ≡ total identity w
  unfolding report_as
  total-report_as f expires w none plain = total-file_row f w ∙ rw plain (omega arith)
  total-report_as f expires w (some j) plain =
      total-report_identity f j expires (find (load_state w) j) w plain refl

-- The state file can be written, and the filing is none of the identity's alerts.
abbrev pub is_plain : Text → Call → Bool
is_plain identity (c, f, expires) = c.can_write && not (is_alert identity f)

is_plain-parts :
    (identity : Text) (c : Clock) (f : Filing) (rest : Bool)
    → ((c.can_write && not (is_alert identity f)) && rest) ≡ true
    → (c.can_write ≡ true) × (is_alert identity f ≡ false) × (rest ≡ true)
is_plain-parts identity c f rest h = ground arith

-- Over calls in which the state file can be written and none of which files under the name of the
-- identity's alert, the number of alerts for the identity that are handed to the command, and 1 while
-- the identity is not escalated, keep their sum: each escalation files one alert, and nothing else does.
pub reports-escalate_once :
    (identity : Text) (calls : List Call) (w : World)
    → all (is_plain identity) calls ≡ true
    → alerts identity (reports calls w).filings + unescalated identity (reports calls w)
      ≡ alerts identity w.filings + unescalated identity w
reports-escalate_once identity [] w h = refl
reports-escalate_once identity ((c, f, expires) ∷ calls) w h =
    let parts = is_plain-parts identity c f (all (is_plain identity) calls) h in
    reports-escalate_once identity calls _ parts.2
    ∙ (unfold report in total-report_as identity c parts.0 f expires w f.identity parts.1)
