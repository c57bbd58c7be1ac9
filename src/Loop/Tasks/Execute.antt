-- ===== src/Loop/Tasks/Execute.antt =====
-- Running one due task.
use lua_t.Prelude.{
  ℕ, suc, ◌<◌, ◌≤◌, ◌≡◌, refl, sym, ◌∙◌, ap, true, false, List, [], ◌∷◌, some, ◌==◌, arith,
  Bool-cases, inl, inr, length,
}
use lua_t.Prelude.Int.{ℤ, pos, ltb_ℤ}
use lua_t.Loop.{Loop}
use lua_t.Loop.Tasks.{set_tout, remove, execute}
use lua_t.Loop.Tasks.Chains.{Chain, mem, Distinct, Timed, Chain-frame, mem-apart}
use lua_t.Loop.Tasks.Insert.{touts, insert_before, insert-Chain}
use lua_t.Loop.Tasks.Order.{
  Sorted, count_due, insert_before-Sorted, insert_before-Distinct, count_due-insert_before,
  length-insert_before, Sorted-local, count_due-local,
}
use lua_t.Loop.Tasks.Remove.{remove_head}

-- Task functions that leave the loop alone; what they return may depend on it.
abbrev pub quiet : (Loop → ℕ → ℤ) → Loop → ℕ → Loop × ℤ
quiet ms l i = (l, ms l i)

-- The loop's links run through the distinct tasks `is` in the order of their timeouts.
pub record IsLinked (l : Loop) (is : List ℕ) : Type 0 where
  pub chain : Chain l.task l.hed is
  pub distinct : Distinct is
  pub sorted : Sorted (touts l.task) is

retimed : Loop → ℕ → ℤ → Loop
retimed l i z = record l { task = set_tout l.task i z }

retimed-other : (l : Loop) (i k : ℕ) (z : ℤ) → (i == k) ≡ false → (retimed l i z).task k ≡ l.task k
unfolding retimed
retimed-other l i k z e = rw e refl

retimed-same : (l : Loop) (i : ℕ) (z : ℤ) → ((retimed l i z).task i).tout ≡ z
unfolding retimed
retimed-same l i z = ground arith

retimed-nxt : (l : Loop) (i k : ℕ) (z : ℤ) → ((retimed l i z).task k).nxt ≡ (l.task k).nxt
unfolding retimed
retimed-nxt l i k z = elim (Bool-cases (i == k)) [ inl b ↦ ground (arith, b) | inr b ↦ rw b refl ]

retimed-Timed :
    (l : Loop) (i : ℕ) (z : ℤ) (is : List ℕ)
    → mem i is ≡ false
    → Timed l is
    → Timed (retimed l i z) is
unfolding retimed
retimed-Timed l i z [] m t = t
retimed-Timed l i z (j ∷ is) m t =
    t ∙ sym (ap (λ t. t.tout) (retimed-other l i j z (ground (arith, m))))

pub execute_lem :
    (ms : Loop → ℕ → ℤ) (fuel : ℕ) (l : Loop) (h : ℕ) (is : List ℕ)
    → IsLinked l (h ∷ is)
    → length is < suc fuel
    → (l' : Loop) × (js : List ℕ) × (execute (quiet ms) fuel l h ≡ some l')
      × IsLinked l' js
      × Timed l' js
      × (length js ≤ suc (length is))
      × (count_due (touts l'.task) js ≡ count_due (touts l.task) is)
unfolding execute remove retimed
execute_lem ms fuel l h is v f =
    let (m, d) = v.distinct in
    let (l₂, w, ch, nil, same, timed) = remove_head fuel l h is v.chain v.distinct in
    let sorted₂ : Sorted (touts l₂.task) is =
      Sorted-local (touts l.task) (touts l₂.task) is (λ k q. same k) v.sorted.1 in
    let count₂ : count_due (touts l₂.task) is ≡ count_due (touts l.task) is =
      count_due-local (touts l.task) (touts l₂.task) is (λ k q. same k) in
    elim (Bool-cases (ltb_ℤ (ms l h) (pos 1))) [
      | inl b ↦ (
        l₂,
        is,
        rw w (rw b refl),
        record { chain = ch; distinct = d; sorted = sorted₂ },
        timed,
        omega arith,
        count₂,
      )
      | inr b ↦
          let l₃ = retimed l₂ h (ms l h) in
          let other : (k : ℕ) → mem k is ≡ true → l₃.task k ≡ l₂.task k =
            λ k q. retimed-other l₂ h k (ms l h) (mem-apart h k is m q) in
          let ch₃ : Chain l₃.task l₃.hed is = Chain-frame l₂.task l₃.task l₂.hed is other ch in
          let (l₄, w₄, ch₄, same₄, timed₄) =
            insert-Chain fuel l₃ h is f ch₃ d m (retimed-nxt l₂ h h (ms l h) ∙ nil)
              (retimed-Timed l₂ h (ms l h) is m timed) in
          let js = insert_before (touts l₃.task) (l₃.task h).tout h is in
          let sorted₃ : Sorted (touts l₃.task) is =
            Sorted-local (touts l₂.task) (touts l₃.task) is (λ k q. ap (λ t. t.tout) (other k q))
              sorted₂ in
          (
            l₄,
            js,
            rw w (rw b w₄),
            record {
              chain = ch₄;
              distinct = insert_before-Distinct (touts l₃.task) (l₃.task h).tout h is d m;
              sorted =
                  Sorted-local (touts l₃.task) (touts l₄.task) js (λ k q. same₄ k)
                    (insert_before-Sorted (touts l₃.task) h is sorted₃);
            },
            timed₄,
            omega (arith, length-insert_before (touts l₃.task) (l₃.task h).tout h is),
            count_due-local (touts l₃.task) (touts l₄.task) js (λ k q. same₄ k)
                ∙ count_due-insert_before (touts l₃.task) (l₃.task h).tout h is
                    (rw (retimed-same l₂ h (ms l h)) b)
                ∙ count_due-local (touts l₂.task) (touts l₃.task) is
                    (λ k q. ap (λ t. t.tout) (other k q))
                ∙ count₂,
          )
    ]
