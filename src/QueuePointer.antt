-- ===== src/QueuePointer.antt =====
-- scripts/queue_pointer.py: the stalled pointer of the queue, demoted and advanced.
pub mod Frame
use Prim.Native.Nat.{ℕ, ◌+◌, ◌-◌}
use hngh.Prelude.{
  Option, none, some, List, [], ◌∷◌, ◌++◌, Bool, true, false, not, ◌&&◌, ◌||◌, ◌==◌, leb, all,
  if◌then◌else◌,
}
use hngh.Texts.{
  Text, codes, is_empty, same_text, starts, behind_prefix, run_of, past_run, split, is_digit,
  is_space, Decimal.decimal, Decimal.number,
}
use hngh.Candidate.{is_break, split_lines}

-- Today as a number of days, and the ISO form of a day; `date.fromisoformat`, with `none` for ValueError.
pub record Env : Type 0 where
  pub today : ℕ
  pub iso : ℕ → Text
  pub parse_date : Text → Option ℕ

-- The text before the block under the heading, the block, and the text behind it.
pub record Block : Type 0 where
  pub front : Text
  pub body : Text
  pub rest : Text

abbrev pub extended : ℕ → List ℕ → Option (Text × Text) → Option (Text × Text)
extended c t (some (space, rest)) = some (c ∷ space, rest)
extended c t none = if c == b'\n' then some (c ∷ [], t) else none

-- `\s*\n`: the space at the start up to its last line break, and what is behind it.
unfoldable pub past_breaks : Text → Option (Text × Text)
past_breaks [] = none
past_breaks (c ∷ t) = let found = extended c t (past_breaks t) in if is_space c then found else none

abbrev pub onto : ℕ → Text × Text → Text × Text
onto c (body, rest) = (c ∷ body, rest)

-- The lines up to the next heading, and what is behind them; `fresh` says that a line starts.
unfoldable pub cut_body : Bool → Text → Text × Text
cut_body fresh [] = ([], [])
cut_body fresh (c ∷ t) =
    let more = onto c (cut_body (c == b'\n') t) in
    if fresh && starts (codes "## ") (c ∷ t) then ([], c ∷ t) else more

abbrev pub block_of : Option (Text × Text) → Option Block
block_of none = none
block_of (some (space, t)) = some (record {
  front = codes "## Next" ++ space;
  body = (cut_body true t).0;
  rest = (cut_body true t).1;
})

abbrev pub block_behind : Option Text → Option Block
block_behind none = none
block_behind (some t) = block_of (past_breaks t)

abbrev pub or_block : ℕ → Option Block → Option Block → Option Block
or_block c (some b) _ = some b
or_block c none none = none
or_block c none (some b) = some (record b { front = c ∷ b.front })

-- `NEXT_RE.search(text)`
unfoldable pub find_block : Text → Option Block
find_block [] = none
find_block (c ∷ t) =
    or_block c (block_behind (behind_prefix (codes "## Next") (c ∷ t))) (find_block t)

abbrev pub date_at : Text → Option Text
date_at (a ∷ b ∷ c ∷ d ∷ e ∷ f ∷ g ∷ h ∷ i ∷ j ∷ t) =
    if all is_digit (a ∷ b ∷ c ∷ d ∷ f ∷ g ∷ i ∷ j ∷ []) && e == b'-' && h == b'-'
    then some (a ∷ b ∷ c ∷ d ∷ e ∷ f ∷ g ∷ h ∷ i ∷ j ∷ [])
    else none
date_at _ = none

abbrev pub stamp_behind : Option Text → Option Text
stamp_behind none = none
stamp_behind (some t) = date_at t

abbrev pub or_stamp : Option Text → Option Text → Option Text
or_stamp none other = other
or_stamp (some found) other = some found

-- `SET_RE.search(rest)`
unfoldable pub set_stamp : Text → Option Text
set_stamp [] = none
set_stamp (c ∷ t) = or_stamp (stamp_behind (behind_prefix (codes "set=") (c ∷ t))) (set_stamp t)

abbrev pub digits_behind : Option Text → Option Text
digits_behind none = none
digits_behind (some t) = if is_empty (run_of is_digit t) then none else some (run_of is_digit t)

-- `TTL_RE.search(rest)`
unfoldable pub ttl_stamp : Text → Option Text
ttl_stamp [] = none
ttl_stamp (c ∷ t) = or_stamp (digits_behind (behind_prefix (codes "ttl=") (c ∷ t))) (ttl_stamp t)

abbrev pub ttl_of : Option Text → ℕ
ttl_of none = 7
ttl_of (some digits) = number 0 digits

unfoldable pub rstrip : Text → Text
rstrip [] = []
rstrip (c ∷ t) = let rest = rstrip t in if is_empty rest && is_space c then [] else c ∷ rest

-- `text.strip()`
unfoldable pub strip : Text → Text
strip t = rstrip (past_run is_space t)

-- The pointer: its id, the day it was set, and its days to live.
pub record Pointer : Type 0 where
  pub id : Text
  pub set_day : Option ℕ
  pub ttl : ℕ

-- What reading gives: `none` where it raises ValueError, `some none` where there is no pointer.
abbrev pub Reading : Type 0
Reading = Option (Option Pointer)

abbrev pub dated : Text → ℕ → Option ℕ → Reading
dated id ttl none = none
dated id ttl (some day) = some (some (record { id = id; set_day = some day; ttl = ttl }))

abbrev pub with_stamp : Env → Text → ℕ → Option Text → Reading
with_stamp e id ttl none = some (some (record { id = id; set_day = none; ttl = ttl }))
with_stamp e id ttl (some stamp) = dated id ttl (e.parse_date stamp)

abbrev pub bold_rest : Text → Option Text → Option (Text × Text)
bold_rest id none = none
bold_rest id (some rest) = if is_empty id then none else some (id, rest)

abbrev pub bold_behind : Option Text → Option (Text × Text)
bold_behind none = none
bold_behind (some t) =
    bold_rest (run_of (λ c. not (c == b'*')) t)
      (behind_prefix (codes "**") (past_run (λ c. not (c == b'*')) t))

-- The id and the rest of a line with a bold bullet.
unfoldable pub bold : Text → Option (Text × Text)
bold line = bold_behind (behind_prefix (codes "- **") line)

abbrev pub or_next : Env → Option (Text × Text) → Reading → Reading
or_next e none next = next
or_next e (some (id, rest)) next =
    with_stamp e (strip id) (ttl_of (ttl_stamp rest)) (set_stamp rest)

unfoldable pub pointer_in : Env → List Text → Reading
pointer_in e [] = some none
pointer_in e (line ∷ lines) = or_next e (bold line) (pointer_in e lines)

abbrev pub pointer_of : Env → Option Block → Reading
pointer_of e none = some none
pointer_of e (some b) = pointer_in e (split_lines b.body)

-- `pointer(text)`
unfoldable pub pointer : Env → Text → Reading
pointer e t = pointer_of e (find_block t)

abbrev pub onto_line : ℕ → List Text → List Text
onto_line c [] = (c ∷ []) ∷ []
onto_line c (line ∷ lines) = (c ∷ line) ∷ lines

-- `text.splitlines(keepends=True)`
unfoldable pub kept_lines : Text → List Text
kept_lines [] = []
kept_lines (c ∷ t) =
    let rest = kept_lines t in if is_break c then (c ∷ []) ∷ rest else onto_line c rest

abbrev pub flat : List Text → Text
flat [] = []
flat (line ∷ lines) = line ++ flat lines

-- The lines behind the bullet that is dropped.
unfoldable pub past_bullet : List Text → Text
past_bullet [] = []
past_bullet (line ∷ lines) =
    let rest = past_bullet lines in
    if is_empty (strip line)
    then flat lines
    else if starts (codes "  ") line
    then rest
    else line ++ flat lines

-- The lines without the first bold bullet.
unfoldable pub without_bullet : List Text → Text
without_bullet [] = []
without_bullet (line ∷ lines) =
    let rest = without_bullet lines in
    if starts (codes "- **") line then past_bullet lines else line ++ rest

abbrev pub queued_id : List Text → Option Text
queued_id (id ∷ state ∷ c ∷ d ∷ []) =
    if same_text state (codes "queued") then some (strip id) else none
queued_id _ = none

-- `_next_queued_id(text)`
unfoldable pub next_queued_id : List Text → Option Text
next_queued_id [] = none
next_queued_id (line ∷ lines) = or_stamp (queued_id (split b'\t' line)) (next_queued_id lines)

abbrev pub named : Option Text → Text
named none = []
named (some id) = id

-- What a demotion leaves: the text, the old id, the new one, and the age.
pub record Demotion : Type 0 where
  pub text : Text
  pub old_id : Text
  pub new_id : Option Text
  pub age : ℕ

unfoldable pub cause_line : Env → Text → ℕ → Text
cause_line e old_id day =
    codes "- "
    ++ old_id
    ++ codes " — re-queued "
    ++ e.iso e.today
    ++ codes " with cause: ttl-expired (set "
    ++ e.iso day
    ++ codes ", "
    ++ decimal (e.today - day)
    ++ codes " days)"

-- The new block: the next queued id ahead, where there is one.
unfoldable pub new_block : Env → Text → ℕ → ℕ → Text → Text → Text
new_block e old_id day ttl new_id rest =
    if is_empty new_id
    then cause_line e old_id day ++ codes "; queue empty past it\n" ++ rest
    else codes "- **"
      ++ new_id
      ++ codes "** — next queued set="
      ++ e.iso e.today
      ++ codes " ttl="
      ++ decimal ttl
      ++ codes " (advanced from "
      ++ old_id
      ++ codes ": cause=ttl-expired)\n"
      ++ cause_line e old_id day
      ++ codes "\n"
      ++ rest

-- The demotion of a pointer that is past its days, in the block where it stands.
unfoldable pub demote_block : Env → Text → Pointer → ℕ → Option Block → Option Demotion
demote_block e t p day none = none
demote_block e t p day (some b) =
    let new_id = next_queued_id (split_lines t) in
    some (record {
      text =
          b.front
          ++ (new_block e p.id day p.ttl (named new_id) (without_bullet (kept_lines b.body))
              ++ b.rest);
      old_id = p.id;
      new_id = new_id;
      age = e.today - day;
    })

unfoldable pub demote_pointer : Env → Text → Pointer → Option ℕ → Option Demotion
demote_pointer e t p none = none
demote_pointer e t p (some day) =
    if is_empty p.id || leb e.today (day + p.ttl)
    then none
    else demote_block e t p day (find_block t)

unfoldable pub demote_read : Env → Text → Reading → Option (Option Demotion)
demote_read e t none = none
demote_read e t (some none) = some none
demote_read e t (some (some p)) = some (demote_pointer e t p p.set_day)

-- `demote_and_advance(text)`: `none` where it raises, `some none` where nothing is stalled.
unfoldable pub demote_and_advance : Env → Text → Option (Option Demotion)
demote_and_advance e t = demote_read e t (pointer e t)

-- The queue's text, and the ids and ages that were notified.
pub record World : Type 0 where
  pub queue : Text
  pub notified : List (Text × ℕ)

abbrev pub ensured : World → Option (Option Demotion) → World
ensured w none = w
ensured w (some none) = w
ensured w (some (some d)) = record {
  queue = d.text;
  notified = w.notified ++ (d.old_id, d.age) ∷ [];
}

-- `ensure_current()`
unfoldable pub ensure_current : Env → World → World
ensure_current e w = ensured w (demote_and_advance e w.queue)
