-- ===== src/Tests/Queue.antt =====
-- A queue whose pointer has stalled.
use hngh.Prelude.{none, some, [], ◌≡◌, refl}
use hngh.Texts.{Text, codes}
use hngh.Candidate.{split_lines}
use hngh.QueuePointer.{Env, Demotion, next_queued_id, demote_and_advance, ensure_current}
use hngh.QueuePointer.Frame.{Stalled, Rewrites, demote_and_advance-Stalled}

-- Day 20; every stamp reads as day 10.
abbrev env : Env
env = record { today = 20; iso = λ day. codes "D"; parse_date = λ t. some 10 }

abbrev queue : Text
queue =
    codes
      "# Queue\n\n## Next\n\n- **a** — next queued set=2026-09-10 ttl=7\n  more\n- kept\n\n## Rows\na\tqueued\t1\tx\nb\tqueued\t2\ty\n"

abbrev demotion : Demotion
demotion = record {
  text =
      codes
        "# Queue\n\n## Next\n\n- **a** — next queued set=D ttl=7 (advanced from a: cause=ttl-expired)\n- a — re-queued D with cause: ttl-expired (set D, 10 days)\n- kept\n\n## Rows\na\tqueued\t1\tx\nb\tqueued\t2\ty\n";
  old_id = codes "a";
  new_id = some (codes "a");
  age = 10;
}

-- The pointer is advanced to the row that it stood on; a pointer within its days stays.
queue_runs :
    (demote_and_advance env queue ≡ some (some demotion))
    × (demote_and_advance (record env { today = 17 }) queue ≡ some none)
    × (demote_and_advance (record env { parse_date = λ t. none }) queue ≡ none)
    × (ensure_current (record env { today = 17 }) (record { queue = queue; notified = [] })
        ≡ record { queue = queue; notified = [] })
unfolding hngh.Texts.same_text hngh.Texts.behind_prefix hngh.Texts.starts hngh.Texts.run_of
    hngh.Texts.past_run hngh.Texts.first_part hngh.Texts.more_parts hngh.Texts.split
    hngh.Texts.Decimal.decimal hngh.Texts.Decimal.number hngh.QueuePointer.past_breaks
    hngh.QueuePointer.cut_body hngh.QueuePointer.find_block hngh.QueuePointer.set_stamp
    hngh.QueuePointer.ttl_stamp hngh.QueuePointer.rstrip hngh.QueuePointer.strip
    hngh.QueuePointer.bold hngh.QueuePointer.pointer_in hngh.QueuePointer.pointer
    hngh.QueuePointer.kept_lines hngh.QueuePointer.past_bullet hngh.QueuePointer.without_bullet
    hngh.QueuePointer.next_queued_id hngh.QueuePointer.cause_line hngh.QueuePointer.new_block
    hngh.QueuePointer.demote_block hngh.QueuePointer.demote_pointer hngh.QueuePointer.demote_read
    hngh.QueuePointer.demote_and_advance hngh.QueuePointer.ensure_current hngh.Candidate.split_lines
queue_runs = (refl, refl, refl, refl)

demote_and_advance-Stalled_example :
    Stalled env queue demotion
    × Rewrites env queue demotion
    × (demotion.new_id ≡ next_queued_id (split_lines queue))
unfolding hngh.Texts.same_text hngh.Texts.behind_prefix hngh.Texts.starts hngh.Texts.run_of
    hngh.Texts.past_run hngh.Texts.first_part hngh.Texts.more_parts hngh.Texts.split
    hngh.Texts.Decimal.decimal hngh.Texts.Decimal.number hngh.QueuePointer.past_breaks
    hngh.QueuePointer.cut_body hngh.QueuePointer.find_block hngh.QueuePointer.set_stamp
    hngh.QueuePointer.ttl_stamp hngh.QueuePointer.rstrip hngh.QueuePointer.strip
    hngh.QueuePointer.bold hngh.QueuePointer.pointer_in hngh.QueuePointer.pointer
    hngh.QueuePointer.kept_lines hngh.QueuePointer.past_bullet hngh.QueuePointer.without_bullet
    hngh.QueuePointer.next_queued_id hngh.QueuePointer.cause_line hngh.QueuePointer.new_block
    hngh.QueuePointer.demote_block hngh.QueuePointer.demote_pointer hngh.QueuePointer.demote_read
    hngh.QueuePointer.demote_and_advance hngh.QueuePointer.ensure_current hngh.Candidate.split_lines
demote_and_advance-Stalled_example = demote_and_advance-Stalled env queue demotion refl
