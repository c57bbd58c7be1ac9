-- ===== src/Loop/Tasks.antt =====
-- src/t_ael_tsk.c: the loop's tasks, a linked list in the order of their timeouts. A walk down the list
-- has fuel; it is `none` when the fuel is used up.
pub mod Chains
pub mod Insert
pub mod Adjust
pub mod Execute
pub mod Order
pub mod Process
pub mod Remove
use lua_t.Prelude.{
  ℕ, zero, suc, ◌+◌, Bool, true, false, List, [], ◌∷◌, Option, none, some, ltb, ◌==◌, if◌then◌else◌,
}
use lua_t.Prelude.Int.{ℤ, pos, negsuc, ltb_ℤ}
use lua_t.Prelude.Word.{sub64}
use lua_t.Loop.{Task, Loop, no_timeout}

abbrev pub update : (ℕ → Task) → ℕ → Task → (ℕ → Task)
update ts i t k = if i == k then t else ts k

-- `lua_setiuservalue( L, …, T_AEL_TSK_NXTIDX )`
abbrev pub set_nxt : (ℕ → Task) → ℕ → Option ℕ → (ℕ → Task)
set_nxt ts i v = update ts i (record (ts i) { nxt = v })

abbrev pub set_tout : (ℕ → Task) → ℕ → ℤ → (ℕ → Task)
set_tout ts i z = update ts i (record (ts i) { tout = z })

-- The loop of `t_ael_tsk_insert`: the task behind which to link, and the one that follows.
unfoldable pub insert_walk : ℕ → (ℕ → Task) → ℤ → ℕ → Option (ℕ × Option ℕ)
insert_walk zero ts t prv = none
insert_walk (suc fuel) ts t prv = elim (ts prv).nxt [
  | none ↦ some (prv, none)
  | some n ↦
      let rest = insert_walk fuel ts t n in if ltb_ℤ (ts n).tout t then rest else some (prv, some n)
]

-- `t_ael_tsk_insert`
unfoldable pub insert : ℕ → Loop → ℕ → Option Loop
insert fuel l ins = elim l.hed [
  | none ↦ some (record l { hed = some ins; tout = (l.task ins).tout })
  | some h ↦
      if ltb_ℤ (l.task h).tout (l.task ins).tout
      then (elim (insert_walk fuel l.task (l.task ins).tout h) [
        | none ↦ none
        | some (prv, n) ↦ some (record l { task = set_nxt (set_nxt l.task ins n) prv (some ins) })
      ])
      else some (record l {
        hed = some ins;
        tout = (l.task ins).tout;
        task = set_nxt l.task ins (some h);
      })
]

-- The loop of `t_ael_tsk_remove`.
unfoldable pub remove_walk : ℕ → (ℕ → Task) → ℕ → ℕ → Option (ℕ → Task)
remove_walk zero ts c prv = none
remove_walk (suc fuel) ts c prv = elim (ts prv).nxt [
  | none ↦ some ts
  | some n ↦
      let rest = remove_walk fuel ts c n in
      if c == n then some (set_nxt ts prv (ts n).nxt) else rest
]

-- `t_ael_tsk_remove`
unfoldable pub remove : ℕ → Loop → ℕ → Option Loop
remove fuel l c = elim l.hed [
  | none ↦ some (record l { task = set_nxt l.task c none })
  | some h ↦
      if c == h
      then some (record l {
        tout = elim (l.task h).nxt [ none ↦ no_timeout | some n ↦ (l.task n).tout ];
        hed = (l.task h).nxt;
        task = set_nxt l.task c none;
      })
      else (elim (remove_walk fuel l.task c h) [
        | none ↦ none
        | some ts ↦ some (record l { task = set_nxt ts c none })
      ])
]

-- What `t_ael_tsk_adjust` leaves of a timeout.
abbrev pub reduced : ℤ → ℤ → ℤ
reduced tout t_adj = if ltb_ℤ (pos 0) (sub64 tout t_adj) then sub64 tout t_adj else pos 0

-- `t_ael_tsk_adjust`
unfoldable pub adjust : ℕ → (ℕ → Task) → ℤ → Option ℕ → Option (ℕ → Task)
adjust zero ts t_adj h = none
adjust (suc fuel) ts t_adj none = some ts
adjust (suc fuel) ts t_adj (some i) =
    adjust fuel (set_tout ts i (reduced (ts i).tout t_adj)) t_adj (ts i).nxt

-- `t_ael_tsk_execute`: the task's function, a parameter, may change the loop; it returns the
-- milliseconds until it is due again, 0 if it returns no integer.
unfoldable pub execute : (Loop → ℕ → Loop × ℤ) → ℕ → Loop → ℕ → Option Loop
execute call fuel l tsk =
    let (l₁, ms) = call l tsk in
    elim (remove fuel l₁ tsk) [
      | none ↦ none
      | some l₂ ↦
          if ltb_ℤ ms (pos 1)
          then some l₂
          else insert fuel (record l₂ { task = set_tout l₂.task tsk ms }) tsk
    ]

-- The loop of `t_ael_tsk_process`; `rounds` is the fuel of this loop, `fuel` that of the walks.
unfoldable pub run_due : (Loop → ℕ → Loop × ℤ) → ℕ → ℕ → Loop → Option Loop
run_due call fuel zero l = none
run_due call fuel (suc rounds) l = elim l.hed [
  | none ↦ some l
  | some h ↦
      if ltb_ℤ (l.task h).tout (pos 1)
      then (elim (execute call fuel l h) [ none ↦ none | some l' ↦ run_due call fuel rounds l' ])
      else some l
]

-- `t_ael_tsk_process`, `et` milliseconds later.
unfoldable pub process : (Loop → ℕ → Loop × ℤ) → ℕ → ℕ → Loop → ℤ → Option Loop
process call fuel rounds l et = elim (adjust fuel l.task et l.hed) [
  | none ↦ none
  | some ts ↦ run_due call fuel rounds (record l { task = ts })
]
