-- ===== src/Loop/Handles.antt =====
-- src/t_ael_l.c, src/t_ael_dnd.c and src/p_ael_sel.c: the descriptors that a loop observes, with
-- `select` as the platform's call.
pub mod Count
use lua_t.Prelude.{
  ℕ, zero, suc, ◌+◌, ◌-◌, Bool, true, false, not, ◌&&◌, ◌||◌, List, [], ◌∷◌, Option, none, some,
  ltb, leb, ◌==◌, if◌then◌else◌, ◌++◌,
}
use lua_t.Prelude.Int.{ℤ, pos, negsuc, ltb_ℤ, ◌+ℤ◌, ◌-ℤ◌}
use lua_t.Prelude.Result.{Result, ok, argument, fault, ◌>>=◌, ◌>>◌, argcheck}

-- `enum t_ael_msk`, by its two bits.
pub record Mask : Type 0 where
  pub rd : Bool
  pub wr : Bool

abbrev pub or_mask : Mask → Mask → Mask
or_mask a b = record { rd = a.rd || b.rd; wr = a.wr || b.wr }

-- `a & (~b)`
abbrev pub and_not : Mask → Mask → Mask
and_not a b = record { rd = a.rd && not b.rd; wr = a.wr && not b.wr }

abbrev pub is_no : Mask → Bool
is_no a = not (a.rd || a.wr)

-- `struct t_ael_dnd` with its user values: the two functions with their arguments, and the handle.
pub record Node : Type 0 where
  pub msk : Mask
  pub frd : Option ℕ
  pub fwr : Option ℕ
  pub hdl : ℕ

-- `struct p_ael_ste`
pub record Select : Type 0 where
  pub rfds : ℕ → Bool
  pub wfds : ℕ → Bool
  pub fd_max : ℤ
  pub fd_set : ℕ → Bool

-- The part of the loop that is about descriptors: the table of nodes, `fdCount`, and the state.
pub record Observed : Type 0 where
  pub nodes : ℕ → Option Node
  pub fd_count : ℤ
  pub ste : Select

abbrev pub put {ℓ} : {A : Type ℓ} → (ℕ → A) → ℕ → A → ℕ → A
put f i a k = if i == k then a else f k

-- `FD_SETSIZE`
abbrev pub fd_setsize : ℕ
fd_setsize = 1024

-- `p_ael_addhandle_impl`: a descriptor beyond the sets is written outside them.
unfoldable pub addhandle_impl : Select → ℕ → Mask → Result Select
addhandle_impl s fd addmsk =
    if ltb fd fd_setsize
    then ok (record {
      rfds = if addmsk.rd then put s.rfds fd true else s.rfds;
      wfds = if addmsk.wr then put s.wfds fd true else s.wfds;
      fd_max = if ltb_ℤ s.fd_max (pos fd) then pos fd else s.fd_max;
      fd_set = put s.fd_set fd true;
    })
    else fault

-- The loop that looks for the next lower descriptor, from `n - 1` downwards.
unfoldable pub highest : (ℕ → Bool) → ℕ → ℤ
highest set zero = negsuc 0
highest set (suc n) = let rest = highest set n in if set n then pos n else rest

-- `p_ael_removehandle_impl`
unfoldable pub removehandle_impl : Select → Node → ℕ → Mask → Result Select
removehandle_impl s dnd fd delmsk =
    if ltb fd fd_setsize
    then (let set = if is_no (and_not dnd.msk delmsk) then put s.fd_set fd false else s.fd_set in
        ok (record {
          rfds = if delmsk.rd then put s.rfds fd false else s.rfds;
          wfds = if delmsk.wr then put s.wfds fd false else s.wfds;
          fd_max =
              if is_no (and_not dnd.msk delmsk)
                && (not (ltb_ℤ (pos fd) s.fd_max) && not (ltb_ℤ s.fd_max (pos fd)))
              then highest set fd
              else s.fd_max;
          fd_set = set;
        }))
    else fault

-- `t_ael_dnd_create_ud`
abbrev pub create_node : Node
create_node = record { msk = record { rd = false; wr = false }; frd = none; fwr = none; hdl = 0 }

abbrev pub node_or_new : Option Node → Node
node_or_new none = create_node
node_or_new (some dnd) = dnd

-- `lt_ael_addhandle`, behind the checks of its arguments: the handle `hdl` has the descriptor `fd`,
-- `fnc` is the table of the function and its arguments.
unfoldable pub addhandle : Observed → ℕ → ℕ → Mask → ℕ → Result Observed
unfolding ◌+ℤ◌
addhandle o hdl fd msk fnc = do
  let dnd = node_or_new (o.nodes fd)
  ste ← addhandle_impl o.ste fd msk
  ok (record {
    nodes = put o.nodes fd (
        some (record {
          msk = or_mask dnd.msk msk;
          frd = if msk.rd then some fnc else dnd.frd;
          fwr = if msk.rd then dnd.fwr else some fnc;
          hdl = hdl;
        }));
    fd_count = elim (o.nodes fd) [ none ↦ o.fd_count +ℤ pos 1 | some d ↦ o.fd_count ];
    ste = ste;
  })

-- `lt_ael_removehandle`, behind the checks of its arguments. When a direction is left, the code sets a
-- user value of the nil on top of the stack, which is no userdata. `none` is the `false` that it
-- returns for a descriptor that is not observed.
unfoldable pub removehandle : Observed → ℕ → Mask → Result (Option Observed)
unfolding ◌-ℤ◌
removehandle o fd msk = elim (o.nodes fd) [
  | none ↦ ok none
  | some dnd ↦ do
    ste ← removehandle_impl o.ste dnd fd msk
    (if is_no (and_not dnd.msk msk)
        then ok (
            some
              (record { nodes = put o.nodes fd none; fd_count = o.fd_count -ℤ pos 1; ste = ste }))
        else fault)
]

-- `t_ael_dnd_execute`: the functions that are called.
abbrev pub execute : Node → Mask → List (Option ℕ)
execute dnd msk =
    if msk.rd && dnd.msk.rd then dnd.frd ∷ [] else if msk.wr && dnd.msk.wr then dnd.fwr ∷ [] else []

-- The directions of a node that `select` reports.
abbrev pub ready : Node → (ℕ → Bool) → (ℕ → Bool) → ℕ → Mask
ready dnd rfds_w wfds_w i = record { rd = dnd.msk.rd && rfds_w i; wr = dnd.msk.wr && wfds_w i }

-- The loop of `p_ael_poll_impl` from descriptor `i` on, `n` descriptors up to `fdMax`, `r` still to be
-- found: the functions that are called, for functions that leave the loop alone.
unfoldable pub poll : (ℕ → Option Node) → (ℕ → Bool) → (ℕ → Bool) → ℕ → ℕ → ℕ → List (Option ℕ)
poll nodes rfds_w wfds_w zero i r = []
poll nodes rfds_w wfds_w (suc n) i zero = []
poll nodes rfds_w wfds_w (suc n) i (suc r) = elim (nodes i) [
  | none ↦ poll nodes rfds_w wfds_w n (suc i) (suc r)
  | some dnd ↦ elim (is_no (ready dnd rfds_w wfds_w i)) [
    | true ↦ poll nodes rfds_w wfds_w n (suc i) (suc r)
    | false ↦ execute dnd (ready dnd rfds_w wfds_w i) ++ poll nodes rfds_w wfds_w n (suc i) r
  ]
]
