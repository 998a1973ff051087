-- ===== src/Tests/Supervision.antt =====
-- Runs of the supervision over one silent transcript and over a run of the bridge store, and scans.
use hngh.Prelude.{
  String, ◌+ℤ◌, if◌then◌else◌, ℕ, pos, none, some, List, [], ◌∷◌, true, false, ◌≡◌, refl, sorted,
  arith,
}
use hngh.Texts.{Text, codes, same_text, holds, Decimal.decimal}
use hngh.Schema.Json.{Json, text, array, object, Items, nil, cons, end, field}
use hngh.ReportQueue.{report}
use hngh.QueuePointer.{rstrip}
use hngh.Supervision.{close_run, rotate, run_start, exit, World, Env}
use hngh.Supervision.Parse.{trailing_same_cause, parse_dead_rows, trailing_failures}
use hngh.Supervision.Tick.{row_of, load_state}
use hngh.Supervision.Transcript.{Decoder}
use hngh.Supervision.Detect.{scan_transcript, stats, no_stats}
use hngh.Supervision.Sources.{bridge_sessions, omp_sessions, Transcript, Sources, run_tick}
use hngh.Supervision.Spec.{spec_ticks, nothing, Counts}
use hngh.Supervision.Refines.{Beat, runs, turns_of, start, runs-refine}

abbrev at : ℕ → Env
at now = record {
  now = now;
  clock = record {
    now = codes "2026-10-01";
    week_on = codes "2026-10-08";
    can_write = true;
    lands = λ f. true;
  };
  can_save = true;
  can_append = true;
  can_block = true;
  params = none;
  strftime = λ format ts. decimal ts;
  parse_iso = λ t. none;
  int_of = λ t. some (pos 3);
  hours = λ t. some (pos 43200);
  is_file = λ t. false;
  causes = λ t. none;
  ends = λ before c. exit (pos 0) [];
  exported = λ marks. none;
}

abbrev decoder : Decoder
decoder = record {
  loads = λ t. none;
  dumps = λ v. [];
  shown = λ v. [];
  same_value = λ a b. false;
  minutes = λ t. some (pos 120);
}

abbrev quiet : Transcript
quiet = record {
  path = codes "/s/a.jsonl";
  name = codes "a.jsonl";
  stem = codes "a";
  digest = codes "0f";
  modified = some 1000;
  size = 5;
  lines = some (codes "{}" ∷ []);
}

abbrev found : Sources
found = record { store = none; transcripts = quiet ∷ [] }

abbrev beats : List Beat
beats = (at 2000, decoder, found) ∷ (at 2300, decoder, found) ∷ []

abbrev blank : World
blank = record {
  handoffs = none;
  blockers = none;
  queue = record { file = none; filings = [] };
  commands = [];
  marks = [];
}

abbrev handoffs_of : World → Text
handoffs_of w = elim w.handoffs [ none ↦ [] | some t ↦ t ]

-- The first silent tick steers, the second kills.
silent_runs :
    handoffs_of (runs beats (start blank)).world
    ≡ codes
        "session-drop | 2000 | supervision|omp-a-0f | stalled: steer: no transcript evidence this tick\nsession-drop | 2300 | supervision|omp-a-0f | dead: stalled past 2 ticks cause=unclassified\n"
unfolding runs run_tick decimal report sorted
silent_runs = refl

-- A transcript of three equal calls, and one that ends in an error and an old question.
abbrev call_line : Text
call_line = codes "\"role\":\"assistant\" \"type\":\"toolCall\" \"timestamp\":\"2026\""

abbrev error_line : Text
error_line = codes "\"role\":\"toolResult\" \"timestamp\":\"2026\""

abbrev ask_line : Text
ask_line = codes "\"role\":\"assistant\" \"type\":\"text\" Shall I go on?"

abbrev message : String → Items → Json
message role parts =
    object
      (field "message" (object (field "role" (text role) (field "parts" (array parts) end))) end)

abbrev tool_call : Json
tool_call = object (field "type" (text "toolCall") (field "name" (text "ls") end))

abbrev decoding : Decoder
decoding = record decoder {
  loads = λ t.
      if same_text t call_line
      then some (message "assistant" (cons tool_call nil))
      else if same_text t error_line
      then some
          (message "toolResult" (cons (object (field "text" (text "Fatal: no\nend ") end)) nil))
      else none;
}

abbrev dated : Env
dated = record (at 2000) { parse_iso = λ t. some 1900 }

abbrev later_dated : Env
later_dated = record (at 2100) { parse_iso = λ t. some 1900 }

transcripts_scanned :
    (scan_transcript dated decoding (some (call_line ∷ call_line ∷ call_line ∷ []))
      ≡ stats (record {
        entries = 3;
        toolcalls = 3;
        last_tool = some 1900;
        asks = false;
        exited = false;
        loop = some (codes "identical tool call x3: ls");
        error = none;
      }))
    × (scan_transcript later_dated decoding (some (ask_line ∷ error_line ∷ []))
        ≡ stats (record {
          entries = 2;
          toolcalls = 0;
          last_tool = none;
          asks = true;
          exited = false;
          loop = none;
          error = some (codes "hard error result, no corrective step: Fatal: no end");
        }))
    × (scan_transcript dated decoding (some []) ≡ no_stats)
unfolding scan_transcript same_text decimal rstrip ◌+ℤ◌
transcripts_scanned = (refl, refl, refl)

-- A run of the store whose record is old: the second silent tick closes it, moves the record and starts a
-- new run.
abbrev stale_store : Sources
stale_store = record {
  store = some (record {
    path = codes "/b/record.lisp";
    lines = codes "(:IDENTIFIER \"run-1\" :STATE :CREATED :OBJECTIVE \"mend\")" ∷ [];
    size = 9;
    modified = 1000;
  });
  transcripts = [];
}

stalled_run_replaced :
    (runs
      ((at 2000, decoder, stale_store) ∷ (at 2300, decoder, stale_store) ∷ [])
      (start blank)).world.commands
    ≡ close_run (codes "run-1") ∷ rotate (codes "2300-run-1") ∷ run_start (codes "mend") ∷ []
unfolding runs run_tick decimal report sorted
stalled_run_replaced = refl

-- Every tick behind the second writes one more death of the same session.
deaths_repeat :
    trailing_same_cause (
      parse_dead_rows (
        codes
          "overnight-lead | t1 | overnight-lead|omp-overnight-lead-1 | dead: stalled past 2 ticks cause=unclassified"
        ∷ codes
            "overnight-lead | t2 | overnight-lead|omp-overnight-lead-1 | dead: stalled past 2 ticks cause=unclassified"
        ∷ codes
            "overnight-lead | t3 | overnight-lead|omp-overnight-lead-1 | dead: stalled past 2 ticks cause=unclassified"
        ∷ []))
    ≡ some (codes "overnight-lead", codes "unclassified", 3)
unfolding trailing_same_cause parse_dead_rows rstrip
deaths_repeat = refl

failures_counted :
    (trailing_failures
      ((codes "ok" ∷ []) ∷ (codes "failed" ∷ codes "failed" ∷ []) ∷ (codes "failed" ∷ []) ∷ [])).0
    ≡ 3
unfolding trailing_failures
failures_counted = refl

runs-refine_example :
    ((runs beats (start blank)).world ≡ (spec_ticks (turns_of beats) (nothing, blank)).1)
    × ((id : Text)
        → Counts
            (row_of (load_state (runs beats (start blank)).file) id)
            ((spec_ticks (turns_of beats) (nothing, blank)).0 id))
unfolding turns_of bridge_sessions omp_sessions sorted holds
runs-refine_example =
    runs-refine (codes "omp-a-0f" ∷ []) beats blank (omega arith) ((refl, tt), ((refl, tt), tt))
