-- ===== src/Prelude/Host.antt =====
-- What the sources use of Python's own library on texts and numbers. These functions are no part
-- of the repository: they are a parameter of the definitions that call them.
use package.hngh.Prelude.Int.{ℤ}
use mathlib.Core.List.{List}
use mathlib.Core.Option.{Option}
use Prim.Native.String.{String}
use mathlib.Core.Bool.{Bool}

pub record Python : Type 0 where
  -- `text.lower()`, `text.upper()` and `text.strip()`
  pub lower : String → String
  pub upper : String → String
  pub strip : String → String
  -- `needle in text`
  pub within : String → String → Bool
  -- `text.split(sep)`
  pub split : String → String → List String
  -- `text.partition(sep)`, without the separator
  pub partition : String → String → String × String
  -- `int(text)`; `none` is ValueError
  pub int_of : String → Option ℤ
