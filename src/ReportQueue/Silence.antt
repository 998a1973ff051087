-- ===== src/ReportQueue/Silence.antt =====
-- automation/lib/report_queue.py: escalated identities over a sequence of calls.
use hngh.Prelude.{
  ◌≡◌, refl, ◌∙◌, Option, none, some, List, [], ◌∷◌, Bool, true, false, if◌then◌else◌, arith,
  Bool-cases, inl, inr, if_ind,
}
use hngh.Texts.{Text, is_empty, same_text, same_text_iff, later}
use hngh.ReportQueue.{
  Entry, Identities, Filing, Clock, World, load_state, save_state, find, store, file_row, stamped,
  new_entry, report_entry, report_identity, report_as, report, silence_identity,
}

-- The state file has this entry for the identity.
abbrev pub Held : Text → Entry → World → Type 0
Held identity e w = find (load_state w) identity ≡ some e

pub find-store :
    (identity : Text) (e : Entry) (s : Identities) → find (store identity e s) identity ≡ some e
unfolding find store
find-store identity e [] = ground (arith, same_text_iff identity identity)
find-store identity e ((k, x) ∷ s) =
    ground
      (arith, find-store identity e s, same_text_iff k identity, same_text_iff identity identity)

pub find-store_other :
    (j identity : Text) (e : Entry) (s : Identities)
    → same_text j identity ≡ false
    → find (store j e s) identity ≡ find s identity
unfolding find store
find-store_other j identity e [] h = ground arith
find-store_other j identity e ((k, x) ∷ s) h = ground (
  arith,
  find-store_other j identity e s h,
  same_text_iff k j,
  same_text_iff k identity,
  same_text_iff j identity,
)

module _ (identity : Text) (e : Entry) where
  Held-save :
      (c : Clock) (s : Identities) (w : World)
      → find s identity ≡ some e
      → Held identity e w
      → Held identity e (save_state c s w)
  unfolding save_state load_state
  Held-save c s w h k = if_ind (Held identity e) c.can_write (λ _. h) (λ _. k)

  Held-file_row :
      (c : Clock) (f : Filing) (w : World) → Held identity e w → Held identity e (file_row c f w).1
  unfolding file_row load_state
  Held-file_row c f w h = h

  abbrev Keeps : Bool × World → Type 0
  Keeps r = Held identity e r.1

  Held-other :
      (c : Clock) (f : Filing) (j : Text) (s : Identities) (x : Entry) (w : World)
      → same_text j identity ≡ false
      → find s identity ≡ some e
      → Held identity e w
      → Held identity e (report_entry c f j s x w).1
  unfolding report_entry
  Held-other c f j s x w apart h k =
      if_ind Keeps (later c.now x.expires)
        (λ _.
          if_ind Keeps x.escalated (λ _. k)
            (λ _.
              Held-file_row c _ _
                (Held-save c (store j _ s) w (find-store_other j identity _ s apart ∙ h) k)))
        (λ _. Held-file_row c _ _ k)

  Held-own :
      (c : Clock) (f : Filing) (s : Identities) (w : World)
      → e.escalated ≡ true
      → Held identity e w
      → Held identity e (report_entry c f identity s e w).1
  unfolding report_entry
  Held-own c f s w done k =
      if_ind Keeps (later c.now e.expires)
        (λ _. if_ind Keeps e.escalated (λ _. k) (λ open_still. absurd cc))
        (λ _. Held-file_row c _ _ k)

  Held-report_identity :
      (c : Clock) (f : Filing) (j : Text) (expires : Option Text) (o : Option Entry) (w : World)
      → e.escalated ≡ true
      → find (load_state w) j ≡ o
      → Held identity e w
      → Held identity e (report_identity c f j expires (load_state w) o w).1
  unfolding report_identity
  Held-report_identity c f j expires (some x) w done at k =
      elim (Bool-cases (same_text j identity)) [
        | inr apart ↦ Held-other c f j (load_state w) x w apart k k
        | inl same ↦
            let own : x ≡ e = same_entry x at same in
            rw (own, (same_text_iff j identity).0 same) (Held-own c f (load_state w) w done k)
      ]
    where
      same_entry :
          (x : Entry) → find (load_state w) j ≡ some x → same_text j identity ≡ true → x ≡ e
      same_entry x at same = cc (rw ((same_text_iff j identity).0 same) at at)
  Held-report_identity c f j expires none w done at k = elim (Bool-cases (same_text j identity)) [
    | inl same ↦ absurd (cc (rw ((same_text_iff j identity).0 same) at at))
    | inr apart ↦
        let seen = find-store_other j identity (new_entry c expires) (load_state w) apart ∙ k in
        Held-other c f j _ (new_entry c expires) _ apart seen (Held-save c _ w seen k)
  ]

  pub Held-report :
      (c : Clock) (f : Filing) (expires : Option Text) (w : World) (o : Option Text)
      → e.escalated ≡ true
      → Held identity e w
      → Held identity e (report_as c f expires w o).1
  unfolding report_as
  Held-report c f expires w none done k = Held-file_row c f w k
  Held-report c f expires w (some j) done k =
      Held-report_identity c f j expires (find (load_state w) j) w done refl k

-- One call of `report`: the clock, the filing, and the expiry that the caller gives.
abbrev pub Call : Type 0
Call = Clock × Filing × Option Text

-- A sequence of calls.
abbrev pub reports : List Call → World → World
reports [] w = w
reports ((c, f, expires) ∷ calls) w = reports calls (report c f expires w).1

pub reports-Held :
    (identity : Text) (e : Entry) (calls : List Call) (w : World)
    → e.escalated ≡ true
    → Held identity e w
    → Held identity e (reports calls w)
reports-Held identity e [] w done k = k
reports-Held identity e ((c, f, expires) ∷ calls) w done k =
    reports-Held identity e calls _ done
      (unfold report in Held-report identity e c f expires w f.identity done k)

-- Once an identity is escalated, whatever is filed in between and under which identities, a filing
-- under it behind its expiry is swallowed: `report` returns False, hands nothing to the command and
-- leaves the state file.
pub reports-stay_silent :
    (identity : Text) (e : Entry) (calls : List Call) (w : World) (c : Clock) (f : Filing)
    (expires : Option Text)
    → Held identity e w
    → e.escalated ≡ true
    → f.identity ≡ some identity
    → later c.now e.expires ≡ true
    → report c f expires (reports calls w) ≡ (false, reports calls w)
unfolding report report_as report_identity report_entry
reports-stay_silent identity e calls w c f expires k done named lapsed =
    rw (named, reports-Held identity e calls w done k, lapsed, done) refl

-- Behind `silence_identity`, in a state file that can be written, a filing under the identity is
-- swallowed when the clock reads later than then, and is filed as ever within the same second.
pub silence_identity-report :
    (identity : Text) (w : World) (c c' : Clock) (f : Filing) (expires : Option Text)
    → is_empty identity ≡ false
    → c.can_write ≡ true
    → f.identity ≡ some identity
    → let after = (silence_identity c identity w).1 in
      let entry : Entry = record { expires = c.now; escalated = true } in
      report c' f expires after ≡ (
        if later c'.now c.now
        then (false, after)
        else file_row c' (record f { content = stamped c' entry f.content }) after)
unfolding silence_identity report report_as report_identity report_entry save_state load_state
silence_identity-report identity w c c' f expires nonempty writable named =
    rw
      (
        nonempty,
        writable,
        named,
        find-store identity (record { expires = c.now; escalated = true }) (load_state w),
      )
      refl

-- The identity is silent behind `silence_identity`.
pub silence_identity-Held :
    (identity : Text) (w : World) (c : Clock)
    → is_empty identity ≡ false
    → c.can_write ≡ true
    → Held identity (record { expires = c.now; escalated = true }) (silence_identity c identity w).1
unfolding silence_identity save_state load_state
silence_identity-Held identity w c nonempty writable =
    rw (nonempty, writable)
      (find-store identity (record { expires = c.now; escalated = true }) (load_state w))
