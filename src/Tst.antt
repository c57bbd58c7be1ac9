-- ===== src/Tst.antt =====
-- src/t_tst_l.c, src/t_tst_cse.c and src/t_tst_l.h: test suites. A suite is a table of test cases and of
-- functions to call around them; what those functions of the user do is data here.
pub mod Cases
pub mod Errors
pub mod Counts
pub mod Sync
pub mod Turn
pub mod Finished
pub mod Async
pub mod Silent
pub mod Report
pub mod Indented
mod Tests
use lua_t.Prelude.{ℕ, Bool, List, Option, Bytes}

-- The values of `testtype`.
pub data Testtype : Type 0 where
  standard callback coroutine : Testtype

-- The fields of a case that a run can set, absent where they are nil.
pub record Fields : Type 0 where
  pub description : Option Bytes
  pub pass : Option Bool
  pub skip : Option Bytes
  pub todo : Option Bytes
  pub message : Option Bytes
  pub location : Option Bytes
  pub traceback : Option Bytes

-- A value that a function raises: a string, a table with these fields, or anything else.
pub data Raised : Type 0 where
  string : Bytes → Raised
  table : Fields → Raised
  other : Raised

-- What a test does to its case while it runs.
pub data Note : Type 0 where
  todo : Bytes → Note
  describe : Bytes → Note

-- A test function: its notes, for a callback test whether it calls `done` before it ends, and what it
-- raises at the end, if anything.
pub record Function : Type 0 where
  pub notes : List Note
  pub calls_done : Bool
  pub raises : Option Raised

-- `T.Test.Case`
pub record Case : Type 0 where
  pub testtype : Testtype
  pub function : Function
  pub description : Bytes
  pub pass : Option Bool
  pub skip : Option Bytes
  pub todo : Option Bytes
  pub message : Option Bytes
  pub location : Option Bytes
  pub traceback : Option Bytes
  pub execution_time : Option ℕ

-- A function around the cases: whether it calls what it is given, and whether it raises an error.
pub record Hook : Type 0 where
  pub calls_done : Bool
  pub raises : Bool

-- What `t_tst_getMetrics` pushes.
pub record Metrics : Type 0 where
  pub verdict : Bool
  pub pass : ℕ
  pub skip : ℕ
  pub todo : ℕ

-- What is printed: a case that is done, or the report of the whole suite.
pub data Line : Type 0 where
  executed : Bytes → Line
  report : Metrics → Line

-- `T.Test`
pub record Suite : Type 0 where
  pub cases : List Case
  pub before_all : Option Hook
  pub after_all : Option Hook
  pub before_each : Option Hook
  pub after_each : Option Hook
  pub before_each_cb : Option Hook
  pub after_each_cb : Option Hook
  pub printed : List Line
