-- ===== src/Loop/Epoll.antt =====
-- src/p_ael_epl.c: descriptors are observed with `epoll`.
use lua_t.Prelude.{ℕ, ◌≡◌, Bool, ◌||◌, List, [], ◌∷◌, ◌++◌, Option, none, some, if◌then◌else◌, ◌==◌}
use lua_t.Prelude.Result.{Result, ok, error, ◌>>=◌}
use lua_t.Loop.Handles.{Mask, or_mask, and_not, is_no, Node, execute}

-- `EPOLL_CTL_ADD`, `EPOLL_CTL_MOD` and `EPOLL_CTL_DEL`
pub data Op : Type 0 where
  add mod_events del : Op

-- The bits of the events that the code looks at: `EPOLLIN`, `EPOLLOUT`, `EPOLLERR` and `EPOLLHUP`.
pub record Events : Type 0 where
  pub in_ready : Bool
  pub out_ready : Bool
  pub err : Bool
  pub hup : Bool

-- The directions of an event.
abbrev pub directions : Events → Mask
directions e = record { rd = e.in_ready; wr = e.out_ready || e.err || e.hup }

-- A round of `p_ael_poll_impl`: the functions that are called for an event. A descriptor without a node is
-- an error.
abbrev pub called : (ℕ → Option Node) → ℕ × Events → Result (List (Option ℕ))
called nodes e =
    if is_no (directions e.1)
    then ok []
    else elim (nodes e.0) [ none ↦ error | some dnd ↦ ok (execute dnd (directions e.1)) ]

-- The rounds of `p_ael_poll_impl` over the events that `epoll_wait` reports, for functions that leave the
-- loop alone.
unfoldable pub dispatch : (ℕ → Option Node) → List (ℕ × Events) → Result (List (Option ℕ))
dispatch nodes [] = ok []
dispatch nodes (e ∷ es) = do fs ← called nodes e; rest ← dispatch nodes es; ok (fs ++ rest)

-- The kernel's side: `epoll_ctl`, which may fail, and what is observed of a descriptor.
module _ {S : Type 0} (ctl : S → Op → ℕ → Mask → Option S) (watched : S → ℕ → Option Mask) where
  abbrev pub checked : Option S → Result S
  checked none = error
  checked (some s) = ok s

  -- `p_ael_addhandle_impl`
  unfoldable pub addhandle_impl : S → Node → ℕ → Mask → Result S
  addhandle_impl s dnd fd addmsk =
      checked (ctl s (if is_no dnd.msk then add else mod_events) fd (or_mask addmsk dnd.msk))

  -- `p_ael_removehandle_impl`
  unfoldable pub removehandle_impl : S → Node → ℕ → Mask → Result S
  removehandle_impl s dnd fd delmsk = checked (
      ctl s (if is_no (and_not dnd.msk delmsk) then del else mod_events) fd
        (and_not dnd.msk delmsk))

  -- What the kernel observes after a call that has not failed.
  abbrev pub Sets : S → S → ℕ → Option Mask → Type 0
  Sets s s' fd m = (k : ℕ) → watched s' k ≡ (if fd == k then m else watched s k)

  -- What the manual of `epoll_ctl` says: a descriptor that is not observed can be added, and one that is can be
  -- changed or removed; no other is touched.
  pub record Manual : Type 0 where
    pub adds :
        (s : S) (fd : ℕ) (m : Mask)
        → watched s fd ≡ none
        → (s' : S) × (ctl s add fd m ≡ some s') × Sets s s' fd (some m)
    pub changes :
        (s : S) (fd : ℕ) (m m₀ : Mask)
        → watched s fd ≡ some m₀
        → (s' : S) × (ctl s mod_events fd m ≡ some s') × Sets s s' fd (some m)
    pub removes :
        (s : S) (fd : ℕ) (m m₀ : Mask)
        → watched s fd ≡ some m₀
        → (s' : S) × (ctl s del fd m ≡ some s') × Sets s s' fd none

  -- What is to be observed for a mask.
  abbrev pub watch_of : Mask → Option Mask
  watch_of m = if is_no m then none else some m

  -- The kernel observes what the nodes say.
  abbrev pub IsWatching : S → (ℕ → Mask) → Type 0
  IsWatching s masks = (k : ℕ) → watched s k ≡ watch_of (masks k)
