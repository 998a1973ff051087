-- ===== src/Tests/Acceptance.antt =====
-- Plans before and behind the acceptance run; one is the router's own candidate.
use hngh.Prelude.{none, some, List, [], ◌∷◌, ◌++◌, true, false, ◌≡◌, refl, ◌↔◌, inr, pos}
use hngh.Texts.{Text, codes, split}
use hngh.Acceptance.{
  Front, front_of, accepted_text, first_unverified, first_unverified_step, has_principle,
}
use hngh.Acceptance.Designs.{missing_designs}
use hngh.Acceptance.Run.{Env}
use hngh.Acceptance.Gates.{final_body}
use hngh.Acceptance.Justified.{Warranted, final_body-Justified}
use hngh.Acceptance.Verified.{Runnable, first_unverified_iff-Runnable}
use hngh.Acceptance.Accepted.{IsAccepted, final_body-IsAccepted}

abbrev env : Env
env = record {
  dry_run = false;
  isolated = false;
  now = codes "2026-10-02T00:00:00Z";
  exists = λ path. false;
  at_head = λ slug. none;
  lock_free = true;
  kernel_gate = (pos 0, []);
  automation_gate = (pos 0, []);
  kernel_rehearsal = (pos 1, []);
  automation_rehearsal = (pos 1, []);
  strip = λ t. t;
  clock = record {
    now = codes "2026-10-02";
    week_on = codes "2026-10-09";
    can_write = true;
    lands = λ f. true;
  };
}

abbrev comment : Text
comment = codes "<!-- plan: status=proposed risk=normal accepted=- routed-from=gate -->"

abbrev below : Text
below = codes "\nprinciple: lineage\n# plan\n\n## Steps\n\n- [ ] run\n      Verification: green\n"

abbrev front : Front
front = record {
  above = [];
  comment = comment;
  below = below;
  status = codes "proposed";
  risk = codes "normal";
  accepted = codes "-";
}

abbrev plan : Text
plan = comment ++ below

acceptance_runs :
    (front_of plan ≡ some front)
    × (accepted_text env.now front
        ≡ codes
            "<!-- plan: status=accepted risk=normal accepted=2026-10-02T00:00:00Z routed-from=gate -->"
          ++ below)
    × (missing_designs env.exists
          (codes "see docs/design/b.md, docs/design/a/x.md and docs/design/b.mdx")
        ≡ codes "docs/design/a/x.md" ∷ codes "docs/design/b.md" ∷ [])
    × (first_unverified_step (
          codes
            "## Steps\n- [x] a\n- [ ] b\n  Verification: c\n- [ ] d\n## More\n  Verification: e\n")
        ≡ 3)
unfolding hngh.Texts.same_text hngh.Texts.holds hngh.Texts.later hngh.Texts.behind_prefix
    hngh.Texts.starts hngh.Texts.occurs hngh.Texts.before hngh.Texts.behind hngh.Texts.run_of
    hngh.Texts.past_run hngh.Texts.first_part hngh.Texts.more_parts hngh.Texts.split
    hngh.Acceptance.without_dashes hngh.Acceptance.front_at hngh.Acceptance.front_of
    hngh.Acceptance.replace_first hngh.Acceptance.accepted_text hngh.Acceptance.until_heading
    hngh.Acceptance.steps_lines hngh.Acceptance.is_verification hngh.Acceptance.is_verified
    hngh.Acceptance.first_unverified hngh.Acceptance.first_unverified_step
    hngh.Acceptance.has_principle hngh.Acceptance.Designs.md_end hngh.Acceptance.Designs.design_refs
    hngh.Acceptance.Designs.insert_once hngh.Acceptance.Designs.sorted_set
    hngh.Acceptance.Designs.missing_designs
acceptance_runs = (refl, refl, refl, refl)

final_body-Justified_example : Warranted env (codes "p") plan (final_body env (codes "p", plan))
final_body-Justified_example = final_body-Justified env (codes "p") plan

abbrev steps : List Text
steps = codes "- [ ] run" ∷ codes "      Verification: green" ∷ []

first_unverified_iff-Runnable_example : (first_unverified 1 steps ≡ 0) ↔ Runnable steps
first_unverified_iff-Runnable_example = first_unverified_iff-Runnable steps

final_body-IsAccepted_example : IsAccepted env.now front plan (final_body env (codes "p", plan))
unfolding hngh.Texts.same_text hngh.Texts.holds hngh.Texts.later hngh.Texts.behind_prefix
    hngh.Texts.starts hngh.Texts.occurs hngh.Texts.before hngh.Texts.behind hngh.Texts.run_of
    hngh.Texts.past_run hngh.Texts.first_part hngh.Texts.more_parts hngh.Texts.split
    hngh.Acceptance.without_dashes hngh.Acceptance.front_at
    hngh.Acceptance.Run.committed_plan_status hngh.Acceptance.front_of hngh.Acceptance.replace_first
    hngh.Acceptance.accepted_text hngh.Acceptance.until_heading hngh.Acceptance.steps_lines
    hngh.Acceptance.is_verification hngh.Acceptance.is_verified hngh.Acceptance.first_unverified
    hngh.Acceptance.first_unverified_step hngh.Acceptance.has_principle
    hngh.Acceptance.Designs.md_end hngh.Acceptance.Designs.design_refs
    hngh.Acceptance.Designs.insert_once hngh.Acceptance.Designs.sorted_set
    hngh.Acceptance.Designs.missing_designs
final_body-IsAccepted_example =
    final_body-IsAccepted env (codes "p") plan front refl (refl, refl, refl, inr refl) refl refl
      (refl, refl, refl) refl
