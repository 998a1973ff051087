-- ===== src/Ng/Contract.antt =====
-- automation/ng/contract.py: the types that the kernels of the beat loop exchange.
use hngh.Prelude.{ℕ, String, Option, List, ℤ}

-- The closed label set of judgments, a `str` enumeration.
pub data Verdict : Type 0 where
  done uncertain escalate : Verdict

-- `verdict.value`
abbrev pub value : Verdict → String
value done = "done"
value uncertain = "uncertain"
value escalate = "escalate"

pub data Tier : Type 0 where
  t1 t2 t3 : Tier

-- A typed state delta. The time stamp `created_at` is left out.
pub record Event (P : Type 0) : Type 0 where
  pub kind : String
  pub state_version : ℕ
  pub payload : P
  pub refs : List String

-- A bounded question with its slots and its closed label set.
pub record Question (S : Type 0) : Type 0 where
  pub head : String
  pub slots : S
  pub labels : List String
  pub state_version : ℕ

-- A verdict, bound to the snapshot that it judged.
pub record Answer : Type 0 where
  pub verdict : Verdict
  pub label : Option String
  pub evidence : List String
  pub state_version : ℕ
  pub input_tokens : ℤ
