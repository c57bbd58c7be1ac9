-- ===== src/Loop.antt =====
-- src/t_ael_l.c and src/t_ael_l.h: the event loop's state, without the descriptors' platform state.
pub mod Tasks
pub mod Handles
pub mod Run
pub mod Clean
pub mod Epoll
mod Tests
use lua_t.Prelude.{ℕ, zero, suc, Option, none, some, Bool, true, false, ltb, ◌==◌, if◌then◌else◌}
use lua_t.Prelude.Int.{ℤ, pos, negsuc}

-- `struct t_ael_tsk` with the user value that links to the next task.
pub record Task : Type 0 where
  pub tout : ℤ
  pub nxt : Option ℕ

-- `struct t_ael`, the head of its task list, and the tasks by number.
pub record Loop : Type 0 where
  pub run : Bool
  pub fd_count : ℕ
  pub tout : ℤ
  pub hed : Option ℕ
  pub task : ℕ → Task

-- `T_AEL_NOTIMEOUT`
abbrev pub no_timeout : ℤ
no_timeout = negsuc 0

-- `t_ael_create_ud`, for the tasks that there are.
abbrev pub create : (ℕ → Task) → Loop
create ts = record { run = false; fd_count = 0; tout = no_timeout; hed = none; task = ts }

-- `lt_ael_stop`
abbrev pub stop : Loop → Loop
stop l = record l { run = false }
