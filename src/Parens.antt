-- ===== src/Parens.antt =====
-- scripts/lint-parens.py: the balance of parentheses in Common Lisp sources, and its repair.
pub mod Balance
pub mod Check
use hngh.Prelude.{
  ℕ, zero, suc, ◌+◌, ◌-◌, List, [], ◌∷◌, ◌++◌, Option, none, some, Bool, true, false, not, ◌&&◌,
  ◌||◌, ◌==◌, if◌then◌else◌, all, any, select, replicate, length,
}

-- A text is its list of code points.
abbrev pub Text : Type 0
Text = List ℕ

-- The loop of `scan` that the index stands in, and what is still to be skipped there.
pub data Mode : Type 0 where
  -- the outer loop
  code : Mode
  -- behind `;`, up to the newline
  comment : Mode
  -- in a string, and at the character behind its backslash
  string string_skip : Mode
  -- in a block comment of this level, and at the second character of a `#|` or `|#` that leads to it
  block block_skip : ℕ → Mode
  -- at the backslash of `#\`, at the character behind it, and in a character's name
  char_slash char_start char_name : Mode

pub data Problem : Type 0 where
  unclosed_block : (line : ℕ) → Problem
  stray : (line : ℕ) → Problem
  unclosed_form : (depth line : ℕ) → Problem

pub record Scan : Type 0 where
  pub depth : ℕ
  -- the lines of the open forms, the last opened first
  pub openings : List ℕ
  pub problems : List Problem
  pub strays : List ℕ
  pub line : ℕ
  pub index : ℕ

-- `text.startswith` of one character behind the index.
abbrev pub begins : Text → ℕ → Bool
begins [] d = false
begins (c ∷ rest) d = c == d

-- The mode behind one character of the outer loop, where `rest` follows it.
unfoldable pub enter : ℕ → Text → Mode
enter c rest =
    if c == b';'
    then comment
    else if c == b'"'
    then string
    else if c == b'#' && begins rest b'|'
    then block_skip 1
    else if c == b'#' && begins rest b'\\'
    then char_slash
    else code

-- The next mode at a character. A comment ends before its newline, and a character's name before the
-- first character that is not alphanumeric: those are read by the outer loop.
unfoldable pub advance : (ℕ → Bool) → Mode → ℕ → Text → Mode
unfolding enter
advance alnum code c rest = enter c rest
advance alnum comment c rest = if c == b'\n' then enter c rest else comment
advance alnum string c rest = if c == b'\\' then string_skip else if c == b'"' then code else string
advance alnum string_skip c rest = string
advance alnum (block n) c rest =
    if c == b'#' && begins rest b'|'
    then block_skip (n + 1)
    else if c == b'|' && begins rest b'#'
    then block_skip (n - 1)
    else block n
advance alnum (block_skip n) c rest = if n == 0 then code else block n
advance alnum char_slash c rest = char_start
advance alnum char_start c rest = if alnum c then char_name else code
advance alnum char_name c rest = if alnum c then char_name else enter c rest

-- Whether the outer loop reads the character.
unfoldable pub reads : (ℕ → Bool) → Mode → ℕ → Bool
reads alnum code c = true
reads alnum comment c = c == b'\n'
reads alnum char_name c = not (alnum c)
reads alnum _ c = false

-- Whether a newline at the character is counted.
unfoldable pub counts : (ℕ → Bool) → Mode → ℕ → Bool
unfolding reads
counts alnum string c = true
counts alnum (block n) c = true
counts alnum m c = reads alnum m c

-- `openings.pop()`
unfoldable pub pop : List ℕ → List ℕ
pop [] = []
pop (x ∷ xs) = xs

-- What the outer loop does at a parenthesis.
unfoldable pub paren : ℕ → Scan → Scan
unfolding pop
paren c s =
    if c == b'('
    then record s { depth = s.depth + 1; openings = s.line ∷ s.openings }
    else if c == b')'
    then elim s.depth [
      | suc d ↦ record s { depth = d; openings = pop s.openings }
      | zero ↦ record s {
        problems = s.problems ++ stray s.line ∷ [];
        strays = s.strays ++ s.index ∷ [];
      }
    ]
    else s

unfoldable pub visit : (ℕ → Bool) → Mode → ℕ → Scan → Scan
unfolding paren reads counts
visit alnum m c s =
    let s1 = if reads alnum m c then paren c s else s in
    record s1 {
      line = if counts alnum m c && c == b'\n' then s1.line + 1 else s1.line;
      index = s1.index + 1;
    }

unfoldable pub at_end : Mode → Scan → Scan
at_end (block n) s = record s { problems = s.problems ++ unclosed_block s.line ∷ [] }
at_end _ s = s

unfoldable pub loop : (ℕ → Bool) → Mode → Scan → Text → Scan
unfolding advance visit at_end
loop alnum m s [] = at_end m s
loop alnum m s (c ∷ rest) = loop alnum (advance alnum m c rest) (visit alnum m c s) rest

-- `openings[0]`: the line of the form opened first.
unfoldable pub oldest : List ℕ → ℕ
oldest [] = 0
oldest (line ∷ []) = line
oldest (line ∷ l ∷ ls) = oldest (l ∷ ls)

-- The unclosed form, reported behind the loop.
unfoldable pub report : Scan → Scan
unfolding oldest
report s = elim s.depth [
  | zero ↦ s
  | suc d ↦ record s { problems = s.problems ++ unclosed_form (suc d) (oldest s.openings) ∷ [] }
]

-- The mechanical repairs: the closers to append, and the indices to remove.
pub record Fix : Type 0 where
  pub append : Option ℕ
  pub remove : Option (List ℕ)

abbrev pub no_fix : Fix
no_fix = record { append = none; remove = none }

-- The problem is one of the two provable classes.
abbrev pub is_mechanical : Problem → Bool
is_mechanical (unclosed_block _) = false
is_mechanical _ = true

abbrev pub is_empty {ℓ} : {A : Type ℓ} → List A → Bool
is_empty [] = true
is_empty (x ∷ xs) = false

unfoldable pub fix_of : Scan → Fix
fix_of s =
    if not (is_empty s.problems) && all is_mechanical s.problems
    then record {
      append = if s.depth == 0 then none else some s.depth;
      remove = if is_empty s.strays then none else some s.strays;
    }
    else no_fix

abbrev pub initial : Scan
initial = record { depth = 0; openings = []; problems = []; strays = []; line = 1; index = 0 }

module _ (alnum : ℕ → Bool) where
  unfoldable pub scanned : Text → Scan
  unfolding loop report
  scanned text = report (loop alnum code initial text)

  -- `scan(text)`
  unfoldable pub scan : Text → List Problem × Fix
  unfolding scanned fix_of
  scan text = ((scanned text).problems, fix_of (scanned text))

-- `text.rstrip("\n")` and the newlines that it drops.
unfoldable pub stripped : Text → Text
stripped [] = []
stripped (c ∷ rest) =
    let body = stripped rest in if is_empty body && c == b'\n' then [] else c ∷ body

unfoldable pub trailing : Text → Text
unfolding stripped
trailing [] = []
trailing (c ∷ rest) =
    let newlines = trailing rest in
    if is_empty (stripped rest) && c == b'\n' then c ∷ newlines else newlines

unfoldable pub append_closers : Option ℕ → Text → Text
unfolding stripped trailing
append_closers none text = text
append_closers (some n) text = stripped text ++ (replicate n b')' ++ trailing text)

-- The characters whose index, counted from `i`, is not listed.
unfoldable pub without : List ℕ → ℕ → Text → Text
without indices i [] = []
without indices i (c ∷ rest) =
    let kept = without indices (i + 1) rest in if any (◌==◌ i) indices then kept else c ∷ kept

unfoldable pub remove_at : Option (List ℕ) → Text → Text
unfolding without
remove_at none text = text
remove_at (some indices) text = without indices 0 text

-- `fix_text(text, fix)`
unfoldable pub fix_text : Text → Fix → Text
unfolding append_closers remove_at
fix_text text fix = remove_at fix.remove (append_closers fix.append text)

-- `if fix:`
abbrev pub is_fix : Fix → Bool
is_fix fix = elim fix.append [
  | some n ↦ true
  | none ↦ elim fix.remove [ some l ↦ true | none ↦ false ]
]

-- `check(path, fix_mode)`: the result, and the file behind it. A file that cannot be read is `none`.
module _ (alnum : ℕ → Bool) where
  unfoldable pub check_text : Bool → Text → Bool × Text
  unfolding scan fix_text
  check_text fix_mode text =
      let (problems, fix) = scan alnum text in
      let repaired = fix_text text fix in
      if fix_mode
      then (if is_fix fix
          then (if not (is_empty (scan alnum repaired).0) then (false, text) else (true, repaired))
          else (is_empty problems, text))
      else (is_empty problems, text)

  unfoldable pub check : Bool → Option Text → Bool × Option Text
  unfolding check_text
  check fix_mode none = (false, none)
  check fix_mode (some text) =
      let (result, after) = check_text fix_mode text in (result, some after)
