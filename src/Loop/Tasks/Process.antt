-- ===== src/Loop/Tasks/Process.antt =====
-- `t_ael_tsk_process` runs the tasks that are due, and comes to an end.
use lua_t.Prelude.{
  ℕ, zero, suc, ◌<◌, ◌≤◌, ◌≡◌, refl, ◌∙◌, true, false, List, [], ◌∷◌, some, arith, Bool-cases, inl,
  inr, length,
}
use lua_t.Prelude.Int.{ℤ, pos, ltb_ℤ, ◌-ℤ◌, -ℤ_parts}
use lua_t.Loop.Tasks.Adjust.{adjust_lem, Chain-nxt, IsModest, reduced-Sorted, reduced_left}
use lua_t.Loop.{Task, Loop}
use lua_t.Loop.Tasks.{execute, run_due, process, adjust}
use lua_t.Loop.Tasks.Chains.{Chain, Distinct, Timed}
use lua_t.Loop.Tasks.Insert.{touts}
use lua_t.Loop.Tasks.Order.{Above, count_due}
use lua_t.Loop.Tasks.Execute.{quiet, IsLinked, execute_lem}

Above-sorted : (z : ℕ → ℤ) (a b : ℤ) (is : List ℕ) → ltb_ℤ b a ≡ false → Above z b is → Above z a is
Above-sorted z a b [] h u = u
Above-sorted z a b (i ∷ is) h (u, us) = (ground (arith, h, u), Above-sorted z a b is h us)

run_due_step :
    (call : Loop → ℕ → Loop × ℤ) (fuel rounds : ℕ) (l l' : Loop) (h : ℕ)
    → l.hed ≡ some h
    → ltb_ℤ (l.task h).tout (pos 1) ≡ true
    → execute call fuel l h ≡ some l'
    → run_due call fuel (suc rounds) l ≡ run_due call fuel rounds l'
unfolding run_due
run_due_step call fuel rounds l l' h e b w = ground (arith, e, b, w)

run_due_stop :
    (call : Loop → ℕ → Loop × ℤ) (fuel rounds : ℕ) (l : Loop) (h : ℕ)
    → l.hed ≡ some h
    → ltb_ℤ (l.task h).tout (pos 1) ≡ false
    → run_due call fuel (suc rounds) l ≡ some l
unfolding run_due
run_due_stop call fuel rounds l h e b = ground (arith, e, b)

run_due_lem :
    (ms : Loop → ℕ → ℤ) (fuel rounds : ℕ) (l : Loop) (is : List ℕ)
    → IsLinked l is
    → length is ≤ fuel
    → count_due (touts l.task) is < rounds
    → (l' : Loop) × (js : List ℕ) × (run_due (quiet ms) fuel rounds l ≡ some l')
      × IsLinked l' js
      × Above (touts l'.task) (pos 1) js
unfolding run_due
run_due_lem ms fuel zero l is v f r = absurd (omega (arith, r))
run_due_lem ms fuel (suc rounds) l [] v f r = (l, [], rw v.chain refl, v, v.sorted)
run_due_lem ms fuel (suc rounds) l (h ∷ is) v f r =
    elim (Bool-cases (ltb_ℤ (l.task h).tout (pos 1))) [
      | inl b ↦
          let (l₁, js, w, v₁, t, len, due) = execute_lem ms fuel l h is v (omega (arith, f)) in
          let fewer : count_due (touts l₁.task) js < rounds = ground (arith, due, b, r) in
          let (l₂, ks, w₂, v₂, a) =
            run_due_lem ms fuel rounds l₁ js v₁ (omega (arith, f, len)) fewer in
          (l₂, ks, run_due_step (quiet ms) fuel rounds l l₁ h v.chain.0 b w ∙ w₂, v₂, a)
      | inr b ↦ (
        l,
        h ∷ is,
        run_due_stop (quiet ms) fuel rounds l h v.chain.0 b,
        v,
        (b, Above-sorted (touts l.task) (pos 1) (l.task h).tout is b v.sorted.0),
      )
    ]

process_step :
    (call : Loop → ℕ → Loop × ℤ) (fuel rounds : ℕ) (l : Loop) (et : ℤ) (us : ℕ → Task)
    → adjust fuel l.task et l.hed ≡ some us
    → process call fuel rounds l et ≡ run_due call fuel rounds (record l { task = us })
unfolding process
process_step call fuel rounds l et us w = ground (arith, w)

due_at_most : (z : ℕ → ℤ) (is : List ℕ) → count_due z is ≤ length is
due_at_most z [] = omega arith
due_at_most z (i ∷ is) = ground (arith, due_at_most z is)

-- In a linked loop, with `et` milliseconds gone, the tasks' functions leaving the loop alone, and fuel for the list's
-- length, processing comes to an end: the links again run through distinct tasks in the order of
-- their timeouts, and no task that is due is left. The timeouts and `et` are below 2^62.
pub process-IsLinked :
    (ms : Loop → ℕ → ℤ) (fuel rounds : ℕ) (l : Loop) (et : ℤ) (is : List ℕ)
    → IsLinked l is
    → length is < fuel
    → length is < rounds
    → ((k : ℕ) → IsModest (l.task k).tout)
    → IsModest et
    → (l' : Loop) × (js : List ℕ) × (process (quiet ms) fuel rounds l et ≡ some l')
      × IsLinked l' js
      × Above (touts l'.task) (pos 1) js
process-IsLinked ms fuel rounds l et is v f r m n =
    let (us, w, links, members, others) = adjust_lem fuel l.task et l.hed is f v.chain v.distinct in
    let v' : IsLinked (record l { task = us }) is = record {
      chain = Chain-nxt l.task us l.hed is links v.chain;
      distinct = v.distinct;
      sorted = reduced-Sorted (touts l.task) (touts us) et is members m n v.sorted;
    } in
    let (l', js, w', v'', a) =
      run_due_lem ms fuel rounds (record l { task = us }) is v' (omega (arith, f))
        (omega (arith, r, due_at_most (touts us) is)) in
    (l', js, process_step (quiet ms) fuel rounds l et us w ∙ w', v'', a)

-- If the head, whose timeout the loop has, is not due after `et` milliseconds, processing with fuel for
-- the list ends, and the loop keeps the timeout that it had, though the
-- head's own is shorter by `et`. Both are below 2^62, and `et` is positive.
pub process-stale :
    (call : Loop → ℕ → Loop × ℤ) (fuel rounds : ℕ) (l : Loop) (et : ℤ) (h : ℕ) (is : List ℕ)
    → Chain l.task l.hed (h ∷ is)
    → Distinct (h ∷ is)
    → Timed l (h ∷ is)
    → suc (length is) < fuel
    → IsModest (l.task h).tout
    → IsModest et
    → ltb_ℤ (pos 0) et ≡ true
    → ltb_ℤ et (l.task h).tout ≡ true
    → (l' : Loop) × (process call fuel (suc rounds) l et ≡ some l')
      × (l'.hed ≡ some h)
      × (l'.tout ≡ (l.task h).tout)
      × ((l'.task h).tout ≡ (l.task h).tout -ℤ et)
process-stale call fuel rounds l et h is c d t f m n p q =
    let (us, w, links, members, others) = adjust_lem fuel l.task et l.hed (h ∷ is) f c d in
    let left : (us h).tout ≡ (l.task h).tout -ℤ et =
      members h (ground arith) ∙ reduced_left (l.task h).tout et m n q in
    let later : ltb_ℤ (us h).tout (pos 1) ≡ false =
      rw left (ground (arith, q, -ℤ_parts (l.task h).tout et)) in
    (
      record l { task = us },
      process_step call fuel (suc rounds) l et us w
          ∙ run_due_stop call fuel rounds (record l { task = us }) h c.0 later,
      c.0,
      t,
      left,
    )
