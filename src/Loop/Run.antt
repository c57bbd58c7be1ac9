-- ===== src/Loop/Run.antt =====
-- src/t_ael_l.c: tasks are added and cancelled, and the loop runs until nothing is left to wait for.
use lua_t.Prelude.{
  ℕ, zero, suc, ◌<◌, ◌≡◌, refl, sym, ◌∙◌, ap, Bool, true, false, ◌&&◌, List, [], ◌∷◌, Option, none,
  some, ltb, ◌==◌, if◌then◌else◌, arith, length,
}
use lua_t.Prelude.Int.{ℤ, pos, negsuc}
use lua_t.Loop.{Task, Loop}
use lua_t.Loop.Tasks.{update, insert, remove, process}
use lua_t.Loop.Tasks.Chains.{mem, Timed, Chain-frame, mem-apart}
use lua_t.Loop.Tasks.Insert.{touts, insert_before, insert-Chain}
use lua_t.Loop.Tasks.Order.{
  Sorted, insert_before-Sorted, insert_before-Distinct, Sorted-local, erase-Sorted,
}
use lua_t.Loop.Tasks.Execute.{IsLinked}
use lua_t.Loop.Tasks.Remove.{erase, remove-Chain, erase-Distinct}

-- `t_ael_tsk_create_ud`: the new task is `k`.
abbrev pub create_task : (ℕ → Task) → ℕ → ℤ → (ℕ → Task)
create_task ts k ms = update ts k (record { tout = ms; nxt = none })

-- `lt_ael_addtask`
unfoldable pub addtask : ℕ → Loop → ℕ → ℤ → Option Loop
addtask fuel l k ms = insert fuel (record l { task = create_task l.task k ms }) k

-- `lt_ael_canceltask`
unfoldable pub canceltask : ℕ → Loop → ℕ → Option Loop
canceltask fuel l k = remove fuel l k

abbrev is_no_timeout : ℤ → Bool
is_no_timeout (pos n) = false
is_no_timeout (negsuc n) = n == 0

-- The end of a round of `lt_ael_run`.
abbrev pub finish : Loop → Loop
finish l = record l { run = if is_no_timeout l.tout && ltb l.fd_count 1 then false else l.run }

-- The loop of `lt_ael_run`, with fuel for its rounds. `poll` is the platform's: it waits, runs the
-- functions of the descriptors that are ready, and returns the loop with the milliseconds that have gone
-- by, or fails. The result's first part is whether the loop came to its end without a failure.
unfoldable pub run_rounds :
    (Loop → ℕ → Loop × ℤ) → (Loop → Option (Loop × ℤ)) → ℕ → ℕ → ℕ → Loop → Option (Bool × Loop)
run_rounds call poll fuel rounds zero l = none
run_rounds call poll fuel rounds (suc n) l =
    if l.run
    then (elim (poll l) [
      | none ↦ some (false, l)
      | some (l₁, ms) ↦ elim (process call fuel rounds l₁ ms) [
        | none ↦ none
        | some l₂ ↦ run_rounds call poll fuel rounds n (finish l₂)
      ]
    ])
    else some (true, l)

-- `lt_ael_run`
unfoldable pub run :
    (Loop → ℕ → Loop × ℤ) → (Loop → Option (Loop × ℤ)) → ℕ → ℕ → ℕ → Loop → Option (Bool × Loop)
run call poll fuel rounds n l = run_rounds call poll fuel rounds n (record l { run = true })

created-other : (ts : ℕ → Task) (k j : ℕ) (ms : ℤ) → (k == j) ≡ false → create_task ts k ms j ≡ ts j
created-other ts k j ms e = rw e refl

created :
    (ts : ℕ → Task) (k : ℕ) (ms : ℤ) → create_task ts k ms k ≡ record { tout = ms; nxt = none }
created ts k ms = ground arith

created-Timed :
    (l : Loop) (k : ℕ) (ms : ℤ) (is : List ℕ)
    → mem k is ≡ false
    → Timed l is
    → Timed (record l { task = create_task l.task k ms }) is
created-Timed l k ms [] m t = t
created-Timed l k ms (i ∷ is) m t =
    t ∙ sym (ap (λ t. t.tout) (created-other l.task k i ms (ground (arith, m))))

-- Adding a task that is not in a linked loop with the head's timeout succeeds with fuel for the list: the links run through the
-- tasks with the new one before the first that is not due earlier, again in order, and the loop has
-- the timeout of the head.
pub addtask-IsLinked :
    (fuel : ℕ) (l : Loop) (k : ℕ) (ms : ℤ) (is : List ℕ)
    → IsLinked l is
    → Timed l is
    → mem k is ≡ false
    → length is < suc fuel
    → (l' : Loop) × (addtask fuel l k ms ≡ some l')
      × IsLinked l' (insert_before (touts (create_task l.task k ms)) ms k is)
      × Timed l' (insert_before (touts (create_task l.task k ms)) ms k is)
unfolding addtask
addtask-IsLinked fuel l k ms is v t m f =
    let l₁ : Loop = record l { task = create_task l.task k ms } in
    let other : (j : ℕ) → mem j is ≡ true → l₁.task j ≡ l.task j =
      λ j q. created-other l.task k j ms (mem-apart k j is m q) in
    let new : l₁.task k ≡ record { tout = ms; nxt = none } = created l.task k ms in
    let (l₂, w, ch, same, timed) =
      insert-Chain fuel l₁ k is f (Chain-frame l.task l₁.task l.hed is other v.chain) v.distinct m
        (ap (λ t. t.nxt) new) (created-Timed l k ms is m t) in
    let z = touts l₁.task in
    let due : (l₁.task k).tout ≡ ms = ap (λ t. t.tout) new in
    let js = insert_before z (l₁.task k).tout k is in
    let sorted : Sorted z js =
      insert_before-Sorted z k is
        (Sorted-local (touts l.task) z is (λ j q. ap (λ t. t.tout) (other j q)) v.sorted) in
    let linked : IsLinked l₂ js = record {
      chain = ch;
      distinct = insert_before-Distinct z (l₁.task k).tout k is v.distinct m;
      sorted = Sorted-local z (touts l₂.task) js (λ j q. same j) sorted;
    } in
    (l₂, w, rw due at linked, rw due at timed)

-- Cancelling in a linked loop with the head's timeout succeeds with fuel for the list: the links run through the other tasks, in order, and
-- the loop has the timeout of the head.
pub canceltask-IsLinked :
    (fuel : ℕ) (l : Loop) (k : ℕ) (is : List ℕ)
    → IsLinked l is
    → Timed l is
    → length is < suc fuel
    → (l' : Loop) × (canceltask fuel l k ≡ some l')
      × IsLinked l' (erase k is)
      × Timed l' (erase k is)
unfolding canceltask
canceltask-IsLinked fuel l k is v t f =
    let (l', w, ch, nil, same, timed) = remove-Chain fuel l k is f v.chain v.distinct t in
    (
      l',
      w,
      record {
        chain = ch;
        distinct = erase-Distinct k is v.distinct;
        sorted =
            Sorted-local (touts l.task) (touts l'.task) (erase k is) (λ j q. same j)
              (erase-Sorted (touts l.task) k is v.sorted);
      },
      timed,
    )
