-- ===== src/Lib.antt =====
-- Verification of hngh's automation: the triage beat and its judgment seam, the filing of alerts
-- and work, the validation of the dashboard's payloads, and the lint of the kernel's sources.
--
-- The automation works a backlog of beads. Once per beat, automation/ng/cadence.py polls the open
-- beads, asks a judgment model about a bounded number of them, and turns each answer into one event
-- of the judgment ledger; what is not settled is parked in a state file for the next beat. The model
-- is reached through automation/ng/jev.py, which the cadence takes as an interface (`Jev`). The
-- ledger is automation/ng/state_emitter.py, the types that the parts exchange are
-- automation/ng/contract.py, and the order of beads and of model legs is automation/ng/tiering.py.
-- The ledger is audited by automation/ng/watch.py, and automation/ng/jcode_guard.py bounds the sessions
-- of a swarm. What the automation shows on its dashboard passes
-- automation/jobs/viz_schema.py, which accepts or rejects a payload. Alerts are filed by
-- automation/lib/report_queue.py, which falls silent about an identity that cannot be closed, and
-- work by automation/lib/filing_budget.py, once per cause and day. An alert becomes work through
-- automation/scripts/router-tick.py, which drafts one plan candidate for an identity, suppresses the
-- repeats of it, expires what nobody accepts, and parks an identity whose plans go unworked; it files
-- its rows through the report queue and asks the filing budget. A proposed plan becomes an accepted one
-- through automation/scripts/accept-plans.py, once it meets the contract and the gates pass. The
-- sessions that do the work are watched by automation/jobs/agent-supervision.py, which steers one that
-- goes silent or loops, gives it up when that goes on, and files its rows through the report queue.
-- Apart from these stand scripts/lint-parens.py, which checks and repairs the parentheses of the
-- kernel's sources;
-- scripts/verify-candidate.py, which prints the evidence for a candidate of files, or refuses it; and
-- scripts/queue_pointer.py, which moves the pointer of the work queue when it has stalled.
--
-- Files:
--   Prelude          shared names, Boolean tests, list and integer functions, sorting, and the
--                    text functions of the host language (`Python`)
--   Ng/Contract      contract.py: Verdict, Tier, Event, Question, Answer
--   Ng/Ledger        state_emitter.py: _version, append, read_events
--   Ng/Tiering       tiering.py: tier_for, order, leg_order
--   Ng/Jev           jev.py: _allowed_base, _match, _usage_tokens, _typed_batch, ask, ask_batch
--   Ng/Watch         watch.py: audit, stale_verdict, unread_burst
--   Ng/Guard         jcode_guard.py: _items, _depth, main
--   Ng/Cadence       cadence.py: Config (the environment, _legs, _leg_url), State (the state file,
--                    _budget, _dispatch_admit, _question), Handle (_emit, _handle), Beat (_beat)
--   Schema           jobs/viz_schema.py: Json (decoded payloads), Entry (issues and the checks of an
--                    entry), Families (graph, history), Patrol, Routes, Validate (the envelope)
--   ReportQueue      lib/report_queue.py: silence_identity, _file, report
--   FilingBudget     lib/filing_budget.py: norm_slug, allow, is_disposition_text
--   Texts            texts as lists of code points, and the string functions that the scripts share;
--                    Decimal (`%d` and `int`)
--   Scrub            lib/scrub.py: redact_home
--   Router           scripts/router-tick.py: the world of a call, Params (the values that are set), Identity
--                    (the grammar of identities and names, with lib/scrub.py), Plans (what a plan's text
--                    says), Dispose (scripts/plan-dispose.py), Chains (expire_stale_candidates,
--                    live_duplicate, dedup_count_today), Bound (chain_live_count, chain_expired_close),
--                    Shapes (shape_for, candidate_text), Repeat and Route (route), Main (refire, main)
--   Acceptance       scripts/accept-plans.py: the header and the steps of a plan, Designs (missing_designs,
--                    DESIGN_VAGUE), Run (the review of each plan in main), Gates (the gates, main)
--   Candidate        the repository's scripts/verify-candidate.py: the manifest and the marker of a test,
--                    Content (the checks of the texts), Evidence (main)
--   QueuePointer     the repository's scripts/queue_pointer.py: pointer, demote_and_advance, ensure_current
--   Supervision      jobs/agent-supervision.py: the state and classify, Acts (steer_stalled, die_session,
--                    replace_stalled_bridge_run), Parse and Lead (overnight_lead_checks), Transcript and
--                    Detect (scan_transcript), Tick (tick, load_state, save_state), Sources (bridge_sessions,
--                    omp_sessions); Spec is the abstract supervisor over histories of evidence
--   Parens           lint-parens.py: scan, fix_text, check
--   Tests            runs on small inputs
--
-- Conventions. A file is a value, `none` where it is missing or does not decode; a step takes the
-- files and returns them. A beat has one UTC day. Numbers that the source rounds to hundredths are
-- integers of hundredths; the fraction 0.8 of the cap is taken as 4/5. Functions of the host's
-- texts (`lower`, `strip`, `split`, `int`, `isalnum`) and the length of an event's JSON text are
-- parameters. The bd poll and the judgment model are inputs of a beat, with a call that raises as
-- `none`. Refusals that the cadence reports by other programs are recorded, not sent.
-- A payload is decoded JSON; `json.loads` is a parameter, and so is the equality of two values that
-- are not both texts. An issue carries its severity, code, place and the key that it names.
-- The scanner is one loop over the characters with a mode for each inner loop of the source. Every
-- loop of the development is structural but two. The router's loop over suffixes runs on as much fuel
-- as there are plans; that is enough, since each suffix that is passed over is the name of a plan. The
-- guard's search runs on one step more than there are nodes; that is enough, since it never goes on from
-- a node that it has met on its way.
-- The router's texts are lists of code points with the character classes of ASCII; its calls of
-- `float`, `int`, `strftime` and `strptime` are parameters, a call runs within one second, its files can
-- be read and written, and the regular expressions of the source are written out as functions.
-- The supervision's texts and clock are of the same kind: times are whole seconds, limits in minutes
-- are multiplied out.
--
-- Not modelled: time stamps, printing, argument parsing, the self-tests, and the parts of the
-- automation that only move data between files, processes and the network.
pub mod Prelude
pub mod Acceptance
pub mod Candidate
pub mod FilingBudget
pub mod Ng
pub mod Parens
pub mod QueuePointer
pub mod ReportQueue
pub mod Router
pub mod Schema
pub mod Scrub
pub mod Supervision
pub mod Texts
pub mod Tests
