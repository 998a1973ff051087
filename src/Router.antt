-- ===== src/Router.antt =====
-- automation/scripts/router-tick.py: one alert occurrence, routed to a plan candidate.
-- What a call reads and writes; the journal is automation/lib/crumbs.py and lib/crumbs-db.py.
pub mod Params
pub mod Identity
pub mod Plans
pub mod Dispose
pub mod Chains
pub mod Bound
pub mod Shapes
pub mod Repeat
pub mod Route
pub mod Main
pub mod Free
pub mod Filed
pub mod Kept
pub mod Grown
pub mod Bounded
pub mod Parked
pub mod Spending
pub mod Daily
pub mod Dry
pub mod Undrafted
pub mod Status
pub mod Disposed
use Prim.Native.Nat.{ℕ, suc, ◌+◌}
use hngh.Prelude.{
  ◌==◌, not, Option, none, some, List, [], ◌∷◌, ◌++◌, Bool, true, false, if◌then◌else◌, ℤ, length,
  take,
}
use hngh.Texts.{Text, codes, is_space, run_of, Decimal.decimal}
use hngh.FilingBudget.{Host, Counter}
use hngh.ReportQueue.{Clock, World as Queue, Filing, report as file_report, silence_identity}

-- A file of the plans directory: its text, and the second in which it was last modified.
pub record Plan : Type 0 where
  pub name : Text
  pub body : Text
  pub modified : ℕ

-- A row of the journal.
pub record Crumb : Type 0 where
  pub ts : Text
  pub job : Text
  pub event : Text
  pub detail : Text
  pub writer : Text

-- The plans directory in the order of its listing, the journal, the counter of filing_budget.py and
-- the world of report_queue.py.
pub record World : Type 0 where
  pub plans : List Plan
  pub crumbs : List Crumb
  pub budget : Counter
  pub queue : Queue

-- The environment of a call, which runs within one second: `none` for a variable that is not set.
pub record Env : Type 0 where
  pub dry_run : Bool
  pub now : ℕ
  pub ttl_hours : Option Text
  pub dedup_hours : Option Text
  pub escalate : Option Text
  pub reroute_max : Option Text
  pub pathy : Option Text
  -- The rows of cadence-params.tsv; `none` where it cannot be read.
  pub params : Option (List Text)
  -- The name of the running program.
  pub program : Text
  -- Whether the plans directory is the one of plan-dispose.py, or within it.
  pub shared_dir : Bool
  -- `strftime("%Y-%m-%dT%H:%M:%SZ")` of a second in UTC, and `strptime` of it; `none` is ValueError.
  pub iso : ℕ → Text
  pub parse_iso : Text → Option ℤ
  -- `float(text) * 3600.0` and `int(float(text))`; `none` is ValueError.
  pub hours : Text → Option ℤ
  pub truncated : Text → Option ℤ
  pub host : Host
  pub clock : Clock

-- `now_utc()`
unfoldable pub now_utc : Env → Text
now_utc e = e.iso e.now

-- `now_utc()[:10]`
unfoldable pub today : Env → Text
unfolding now_utc
today e = take 10 (now_utc e)

-- A word, and the words behind it: `text.split()`, where `in_word` says that the last character
-- belongs to a word that has begun.
unfoldable pub words : Bool → Text → List Text
unfolding run_of
words in_word [] = []
words in_word (c ∷ t) =
    let inside = words true t in
    let outside = words false t in
    if is_space c
    then outside
    else if in_word
    then inside
    else (c ∷ run_of (λ d. not (is_space d)) t) ∷ inside

-- `" ".join(words)`
unfoldable pub joined : ℕ → List Text → Text
joined separator [] = []
joined separator (word ∷ []) = word
joined separator (word ∷ next ∷ more) = word ++ separator ∷ joined separator (next ∷ more)

-- `text.replace(old, new)` for single characters.
unfoldable pub replaced : ℕ → ℕ → Text → Text
replaced old new [] = []
replaced old new (c ∷ t) = (if c == old then new else c) ∷ replaced old new t

-- `crumbs.scrub(detail)`: a broken bar (166) for a bar, and single spaces.
unfoldable pub scrub : Text → Text
unfolding joined words replaced
scrub detail = joined b' ' (words false (replaced b'|' 166 detail))

-- `crumbs.crumb` of fields without bars and line breaks; rows are never deleted, so that the next row
-- id is one more than their number.
unfoldable pub crumb : Env → Text → Text → Text → List Crumb → List Crumb
unfolding now_utc
crumb e job event detail rows =
    rows
    ++ record {
      ts = now_utc e;
      job = job;
      event = event;
      detail = detail;
      writer = e.program ++ b'@' ∷ decimal (suc (length rows));
    }
      ∷ []

-- `breadcrumb("router", event, detail)`
unfoldable pub breadcrumb : Env → Text → Text → World → World
unfolding crumb scrub
breadcrumb e event detail w =
    if e.dry_run
    then w
    else record w { crumbs = crumb e (codes "router") event (scrub detail) w.crumbs }

abbrev pub row : Text → Text → Text → ℕ → Filing
row kind content ident window = record {
  kind = kind;
  content = content;
  identity = some ident;
  window = some window;
  evidence = none;
}

-- `report(kind, text, ident, window)`
unfoldable pub report : Env → Text → Text → Text → ℕ → World → World
unfolding file_report
report e kind content ident window w =
    if e.dry_run
    then w
    else record w { queue = (file_report e.clock (row kind content ident window) none w.queue).1 }

-- `report_queue.silence_identity(identity)`
unfoldable pub silence : Env → Text → World → World
unfolding silence_identity
silence e identity w = record w { queue = (silence_identity e.clock identity w.queue).1 }
