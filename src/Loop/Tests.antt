-- ===== src/Loop/Tests.antt =====
-- The loop's theorems at a loop with three tasks, of which one is due.
use lua_t.Prelude.{
  ℕ, refl, ◌≡◌, some, none, true, false, List, [], ◌∷◌, Option, if◌then◌else◌, ◌==◌, ◌||◌, arith,
}
use lua_t.Prelude.Int.{ℤ, pos, negsuc, ◌-ℤ◌}
use lua_t.Prelude.Result.{ok, fault}
use lua_t.Loop.{Task, Loop}
use lua_t.Loop.Tasks.{insert, remove, process}
use lua_t.Loop.Tasks.Chains.{Chain, Timed}
use lua_t.Loop.Tasks.Insert.{touts, insert_before, insert-Chain}
use lua_t.Loop.Tasks.Remove.{erase, remove-Chain}
use lua_t.Loop.Tasks.Order.{Above}
use lua_t.Loop.Tasks.Execute.{quiet, IsLinked}
use lua_t.Loop.Tasks.Process.{process-IsLinked, process-stale}
use lua_t.Loop.Run.{addtask, canceltask, create_task, addtask-IsLinked, canceltask-IsLinked}
use lua_t.Loop.Handles.{Mask, Node, Observed, put, addhandle, removehandle}
use lua_t.Loop.Clean.{clean, clean-IsObserving}
use lua_t.Loop.Epoll.{Op, add, mod_events, del, dispatch}
use lua_t.Loop.Handles.Count.{
  IsObserving, addhandle-IsObserving, removehandle-IsObserving, removehandle_partly,
}

-- Task 5 is due in 3 milliseconds, task 2 in 10, task 9 in 20; no other is in the list.
abbrev tasks : ℕ → Task
tasks n =
    if n == 5
    then record { tout = pos 3; nxt = some 2 }
    else if n == 2
    then record { tout = pos 10; nxt = some 9 }
    else if n == 9
    then record { tout = pos 20; nxt = none }
    else record { tout = pos 7; nxt = none }

abbrev three : Loop
three = record { run = true; fd_count = 0; tout = pos 3; hed = some 5; task = tasks }

abbrev ids : List ℕ
ids = 5 ∷ 2 ∷ 9 ∷ []

three-IsLinked : IsLinked three ids
three-IsLinked = record {
  chain = (refl, (refl, (refl, refl)));
  distinct = ground arith;
  sorted = ground arith;
}

insert-Chain_example :
    (l' : Loop) × (insert 3 three 4 ≡ some l')
    × Chain l'.task l'.hed (5 ∷ 4 ∷ 2 ∷ 9 ∷ [])
    × ((k : ℕ) → (l'.task k).tout ≡ (tasks k).tout)
    × Timed l' (5 ∷ 4 ∷ 2 ∷ 9 ∷ [])
insert-Chain_example =
    insert-Chain 3 three 4 ids (omega arith) three-IsLinked.chain three-IsLinked.distinct refl refl
      refl

remove-Chain_run :
    (l' : Loop) × (remove 3 three 2 ≡ some l')
    × Chain l'.task l'.hed (5 ∷ 9 ∷ [])
    × ((l'.task 2).nxt ≡ none)
    × ((k : ℕ) → (l'.task k).tout ≡ (tasks k).tout)
    × Timed l' (5 ∷ 9 ∷ [])
remove-Chain_run =
    remove-Chain 3 three 2 ids (omega arith) three-IsLinked.chain three-IsLinked.distinct refl

-- Each function asks to be called again in 8 milliseconds.
abbrev in_eight : Loop → ℕ → ℤ
in_eight l k = pos 8

process-IsLinked_example :
    (l' : Loop) × (js : List ℕ) × (process (quiet in_eight) 4 4 three (pos 12) ≡ some l')
    × IsLinked l' js
    × Above (touts l'.task) (pos 1) js
process-IsLinked_example =
    process-IsLinked in_eight 4 4 three (pos 12) ids three-IsLinked (omega arith) (omega arith)
      (λ k. ground arith) (omega arith, omega arith)

process-stale_example :
    (l' : Loop) × (process (quiet in_eight) 4 1 three (pos 2) ≡ some l')
    × (l'.hed ≡ some 5)
    × (l'.tout ≡ pos 3)
    × ((l'.task 5).tout ≡ pos 3 -ℤ pos 2)
process-stale_example =
    process-stale (quiet in_eight) 4 0 three (pos 2) 5 (2 ∷ 9 ∷ []) three-IsLinked.chain
      three-IsLinked.distinct refl (omega arith) (omega arith, omega arith)
      (omega arith, omega arith) refl refl

addtask-IsLinked_example :
    (l' : Loop) × (addtask 3 three 4 (pos 15) ≡ some l')
    × IsLinked l' (insert_before (touts (create_task tasks 4 (pos 15))) (pos 15) 4 ids)
    × Timed l' (insert_before (touts (create_task tasks 4 (pos 15))) (pos 15) 4 ids)
addtask-IsLinked_example =
    addtask-IsLinked 3 three 4 (pos 15) ids three-IsLinked refl refl (omega arith)

canceltask-IsLinked_example :
    (l' : Loop) × (canceltask 3 three 5 ≡ some l')
    × IsLinked l' (erase 5 ids)
    × Timed l' (erase 5 ids)
canceltask-IsLinked_example = canceltask-IsLinked 3 three 5 ids three-IsLinked refl (omega arith)

abbrev reading : Mask
reading = record { rd = true; wr = false }

abbrev both : Mask
both = record { rd = true; wr = true }

-- Descriptors 4, for reading, and 6, for both.
abbrev four : Node
four = record { msk = reading; frd = some 1; fwr = none; hdl = 11 }

abbrev six : Node
six = record { msk = both; frd = some 2; fwr = some 3; hdl = 12 }

abbrev nodes : ℕ → Option Node
nodes n = if n == 4 then some four else if n == 6 then some six else none

abbrev two : Observed
two = record {
  nodes = nodes;
  fd_count = pos 2;
  ste = record {
    rfds = λ n. n == 4 || n == 6;
    wfds = λ n. n == 6;
    fd_max = pos 6;
    fd_set = λ n. n == 4 || n == 6;
  };
}

two-IsObserving : IsObserving two (4 ∷ 6 ∷ [])
two-IsObserving = record {
  distinct = ground arith;
  counted = refl;
  members = λ k. ground arith;
  flags = λ k. ground arith;
  reads = λ k. ground arith;
  writes = λ k. ground arith;
  top = λ k e. ground (arith, e);
}

addhandle-IsObserving_example :
    (o' : Observed) × (addhandle two 13 9 reading 5 ≡ ok o') × IsObserving o' (9 ∷ 4 ∷ 6 ∷ [])
addhandle-IsObserving_example =
    addhandle-IsObserving two (4 ∷ 6 ∷ []) 13 9 reading 5 two-IsObserving (omega arith)

removehandle-IsObserving_example :
    (o' : Observed) × (removehandle two 6 both ≡ ok (some o')) × IsObserving o' (4 ∷ [])
removehandle-IsObserving_example =
    removehandle-IsObserving two (4 ∷ 6 ∷ []) 6 six both two-IsObserving (omega arith) refl refl

removehandle_partly_run : removehandle two 6 reading ≡ fault
removehandle_partly_run = removehandle_partly two 6 six reading refl refl

clean-IsObserving_example :
    (o' : Observed) × (clean (4 ∷ 6 ∷ []) three two
      ≡ ok (record three { hed = none; tout = negsuc 0 }, o'))
    × IsObserving o' []
clean-IsObserving_example =
    clean-IsObserving (4 ∷ 6 ∷ []) three two two-IsObserving (omega arith, (omega arith, tt))

-- A hang-up of a descriptor that is observed for reading calls no function; readiness to read calls its own.
hung_up :
    dispatch nodes (
      (4, record { in_ready = false; out_ready = false; err = false; hup = true })
      ∷ (4, record { in_ready = true; out_ready = false; err = false; hup = false })
      ∷ [])
    ≡ ok (some 1 ∷ [])
unfolding dispatch
hung_up = refl

-- A kernel whose state is what it observes.
abbrev answer : Option Mask → Op → (ℕ → Option Mask) → ℕ → Mask → Option (ℕ → Option Mask)
answer none add s fd m = some (put s fd (some m))
answer (some old) add s fd m = none
answer none mod_events s fd m = none
answer (some old) mod_events s fd m = some (put s fd (some m))
answer none del s fd m = none
answer (some old) del s fd m = some (put s fd none)

abbrev ctl : (ℕ → Option Mask) → Op → ℕ → Mask → Option (ℕ → Option Mask)
ctl s op fd m = answer (s fd) op s fd m

abbrev watched : (ℕ → Option Mask) → ℕ → Option Mask
watched s = s

-- The kernel observes descriptor 4 for reading and no other.
abbrev only_four : ℕ → Option Mask
only_four n = if n == 4 then some reading else none

abbrev masks : ℕ → Mask
masks n = if n == 4 then reading else record { rd = false; wr = false }
