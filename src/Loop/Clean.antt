-- ===== src/Loop/Clean.antt =====
-- src/t_ael_l.c: everything is removed from the loop.
use lua_t.Prelude.{
  ℕ, ◌<◌, ◌≡◌, refl, sym, ◌∙◌, ap, Bool, true, false, List, [], ◌∷◌, Option, none, some,
  if◌then◌else◌, arith, Option-cases, inl, inr,
}
use lua_t.Prelude.Int.{pos, negsuc, ◌-ℤ◌}
use lua_t.Prelude.Result.{Result, ok, argument, error, fault, ◌>>=◌}
use lua_t.Loop.{Loop, no_timeout}
use lua_t.Loop.Tasks.Remove.{erase}
use lua_t.Loop.Handles.{
  Mask, Node, Select, Observed, put, and_not, is_no, removehandle_impl, removehandle,
}
use lua_t.Loop.Handles.Count.{IsObserving, removehandle-IsObserving}

-- `T_AEL_RW`
abbrev pub all_directions : Mask
all_directions = record { rd = true; wr = true }

-- The loop without a descriptor, and with another state.
abbrev pub dropped : Observed → ℕ → Select → Observed
dropped o fd ste = record { nodes = put o.nodes fd none; fd_count = o.fd_count -ℤ pos 1; ste = ste }

-- A round of the loop over the table of nodes.
unfoldable pub drop_node : Observed → ℕ → Node → Result Observed
unfolding ◌-ℤ◌
drop_node o fd dnd = do ste ← removehandle_impl o.ste dnd fd all_directions; ok (dropped o fd ste)

-- The loop, over the descriptors in the order in which Lua goes through them.
abbrev pub drop_nodes : List ℕ → Observed → Result Observed
drop_nodes [] o = ok o
drop_nodes (fd ∷ fds) o = elim (o.nodes fd) [
  | none ↦ error
  | some dnd ↦ drop_node o fd dnd >>= λ o'. drop_nodes fds o'
]

-- `lt_ael_clean`. The count of descriptors is the one beside the table of nodes.
unfoldable pub clean : List ℕ → Loop → Observed → Result (Loop × Observed)
unfolding drop_node
clean fds l o = do o' ← drop_nodes fds o; ok (record l { hed = none; tout = no_timeout }, o')

-- In both cases the state is changed, and then the node is dropped.
some_of : (a b : Observed) → Path (Result (Option Observed)) (ok (some a)) (ok (some b)) → a ≡ b
some_of a b h =
    ap
      (λ r. elim r as (λ _. Observed) [
        | ok q ↦ elim q as (λ _. Observed) [ none ↦ a | some x ↦ x ]
        | argument i ↦ a
        | error ↦ a
        | fault ↦ a
      ])
      h

removed_by :
    (r : Result Select) (all : Bool) (mk : Select → Observed) (o' : Observed)
    → all ≡ true
    → (r >>= λ ste. if all then ok (some (mk ste)) else fault) ≡ ok (some o')
    → (r >>= λ ste. ok (mk ste)) ≡ ok o'
removed_by (ok ste) true mk o' e h = ap ok (some_of (mk ste) o' h)
removed_by (ok ste) false mk o' e h = ground (arith, e)
removed_by (argument i) all mk o' e h = ground (arith, h)
removed_by error all mk o' e h = ground (arith, h)
removed_by fault all mk o' e h = ground (arith, h)

is_no_all : (m : Mask) → is_no (and_not m all_directions) ≡ true
is_no_all m = ground arith

removehandle_at :
    (o : Observed) (fd : ℕ) (dnd : Node)
    → o.nodes fd ≡ some dnd
    → removehandle o fd all_directions ≡ (
        removehandle_impl o.ste dnd fd all_directions >>= λ ste.
        if is_no (and_not dnd.msk all_directions) then ok (some (dropped o fd ste)) else fault)
unfolding removehandle
removehandle_at o fd dnd n = ground (arith, n)

drop_node-removehandle :
    (o o' : Observed) (fd : ℕ) (dnd : Node)
    → o.nodes fd ≡ some dnd
    → removehandle o fd all_directions ≡ ok (some o')
    → drop_node o fd dnd ≡ ok o'
unfolding drop_node
drop_node-removehandle o o' fd dnd n h =
    removed_by (removehandle_impl o.ste dnd fd all_directions)
      (is_no (and_not dnd.msk all_directions)) (dropped o fd) o' (is_no_all dnd.msk)
      (sym (removehandle_at o fd dnd n) ∙ h)

abbrev pub AllFit : List ℕ → Type 0
AllFit [] = Unit
AllFit (fd ∷ fds) = (fd < 1024) × AllFit fds

erase_first : (fd : ℕ) (fds : List ℕ) → erase fd (fd ∷ fds) ≡ fds
erase_first fd fds = ground arith

drop_nodes-next :
    (o o' : Observed) (fd : ℕ) (fds : List ℕ) (dnd : Node)
    → o.nodes fd ≡ some dnd
    → drop_node o fd dnd ≡ ok o'
    → drop_nodes (fd ∷ fds) o ≡ drop_nodes fds o'
drop_nodes-next o o' fd fds dnd n e = ground (arith, n, e)

drop_nodes-IsObserving :
    (fds : List ℕ) (o : Observed)
    → IsObserving o fds
    → AllFit fds
    → (o' : Observed) × (drop_nodes fds o ≡ ok o') × IsObserving o' []
drop_nodes-IsObserving [] o v f = (o, refl, v)
drop_nodes-IsObserving (fd ∷ fds) o v f = elim (Option-cases (o.nodes fd)) [
  | inl n ↦ ground (arith, n, v.members fd)
  | inr (dnd, n) ↦
      let (o₁, e, w) =
        removehandle-IsObserving o (fd ∷ fds) fd dnd all_directions v f.0 n (is_no_all dnd.msk) in
      let w' : IsObserving o₁ fds = rw (erase_first fd fds) at w in
      let (o₂, e', w₂) = drop_nodes-IsObserving fds o₁ w' f.1 in
      (o₂, drop_nodes-next o o₁ fd fds dnd n (drop_node-removehandle o o₁ fd dnd n e) ∙ e', w₂)
]

-- Cleaning a loop whose count and sets agree with its nodes succeeds, in whichever order the nodes come: there
-- is no task and no timeout, no descriptor is observed or counted, and the sets are empty. The condition:
-- the descriptors fit into the sets.
pub clean-IsObserving :
    (fds : List ℕ) (l : Loop) (o : Observed)
    → IsObserving o fds
    → AllFit fds
    → (o' : Observed) × (clean fds l o ≡ ok (record l { hed = none; tout = negsuc 0 }, o'))
      × IsObserving o' []
unfolding clean
clean-IsObserving fds l o v f =
    let (o', e, w) = drop_nodes-IsObserving fds o v f in
    (o', ap (λ r. r >>= λ o'. ok (record l { hed = none; tout = no_timeout }, o')) e, w)
