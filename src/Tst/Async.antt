-- ===== src/Tst/Async.antt =====
-- src/t_tst_cse.c: cases that end by a callback. Their closure is called again with the next state, and
-- each state that has nothing to wait for falls through to the next one.
use lua_t.Prelude.{
  ℕ, ◌-◌, ◌≡◌, refl, ap, ◌∙◌, Bool, true, false, List, [], ◌∷◌, Option, none, some, ◌==◌,
  if◌then◌else◌, length, get_elem?, get_elem?-set_self, take, codes, Bytes, arith,
}
use lua_t.Prelude.Result.{Result, ok, error, fault, ◌>>=◌}
use lua_t.Tst.{Raised, string, Fields, Case, Hook, Suite}
use lua_t.Tst.Cases.{traceback_of, copy_fields, take_notes}
use lua_t.Tst.Silent.{get_elem?_under}
use lua_t.Tst.Sync.{call_envelope, done, Debug, put, call}
use lua_t.Tst.Turn.{Willing, call_envelope-Willing}

-- What the stack holds in the state `T_TST_CSE_AFE`.
pub data Slot : Type 0 where
  case suite pass : Slot

-- `lua_pop`
abbrev pop : ℕ → List Slot → List Slot
pop n stack = take (length stack - n) stack

-- `pass` is set unless it is there.
abbrev pub pass_default : Case → Case
pass_default c = elim c.pass [ none ↦ record c { pass = some true } | some b ↦ c ]

-- The call of a `beforeEach_cb` or `afterEach_cb`: what it raises is not caught.
abbrev pub call_hook : Option Hook → (Suite → Result Suite) → Suite → Result Suite
call_hook hook next ste = call_envelope hook next ste

-- What Lua raises where a field of no value is looked up by a C function: a message without a position.
abbrev pub nil_error : Raised
nil_error = string (codes "attempt to index a nil value")

-- How a state ends: with the suite, and what has been raised while it stood so.
abbrev pub Ending : Type 0
Ending = Suite × Option Raised

-- An error that is not caught.
abbrev pub raise_out : Ending → Result Suite
raise_out (ste, none) = ok ste
raise_out (ste, some raised) = error

-- What ends the function: the error that `done` has raised, or its own.
abbrev pub first_raised : Option Raised → Option Raised → Option Raised
first_raised none own = own
first_raised (some raised) own = some raised

module _ (debug : Debug) where
  -- `T_TST_CSE_AFE`. The field is looked up in the slot 2 of the stack, counted from 1, after two pops; an
  -- index above the top stands for no value, and looking up a field of that raises an error.
  unfoldable pub after : ℕ → Suite → Result Ending
  after i ste = elim (get_elem? ste.cases i) [
    | none ↦ fault
    | some c ↦
        let ste' = put debug i ste (pass_default c) in
        let stack = pop 2 (case ∷ suite ∷ pass ∷ []) in
        elim (get_elem? stack 1) [
          | none ↦ ok (ste', some nil_error)
          | some slot ↦ do ste'' ← call_hook ste'.after_each_cb (done i) ste'; ok (ste'', none)
        ]
  ]

  -- The end of the function: an error is written to the case, which goes on to the next state. What that
  -- raises is not caught any more.
  unfoldable pub end_function : ℕ → Suite → Option Raised → Result Suite
  end_function i ste none = ok ste
  end_function i ste (some raised) = do
    fields ← traceback_of (debug.place i) (debug.trace i) raised
    elim (get_elem? ste.cases i) [
      | none ↦ fault
      | some c ↦ do ending ← after i (put debug i ste (copy_fields fields c)); raise_out ending
    ]

  -- `T_TST_CSE_EXC`. A call of `done` comes before the end of the function, inside of `lua_pcall`: what it
  -- raises ends the function.
  unfoldable pub execute : ℕ → Suite → Result Suite
  execute i ste = elim (get_elem? ste.cases i) [
    | none ↦ fault
    | some c ↦
        let ste' = put debug i ste (take_notes c c.function.notes) in
        if c.function.calls_done
        then (do
          ending ← after i ste'
          end_function i ending.0 (first_raised ending.1 c.function.raises))
        else end_function i ste' c.function.raises
  ]

  -- `t_tst_cse_runAsync`, by its third upvalue, the state: `T_TST_CSE_BFE` is 0, `T_TST_CSE_DNE` is 3.
  unfoldable pub run_async : ℕ → ℕ → Suite → Result Suite
  run_async state i ste =
      if state == 0
      then call_hook ste.before_each_cb (execute i) ste
      else if state == 1
      then execute i ste
      else if state == 2
      then (do ending ← after i ste; raise_out ending)
      else if state == 3
      then done i ste
      else error

  -- The case has its pass, and the error is there.
  after_at :
      (i : ℕ) (ste : Suite) (c : Case)
      → get_elem? ste.cases i ≡ some c
      → after i ste ≡ ok (put debug i ste (pass_default c), some nil_error)
  unfolding after
  after_at i ste c g = ground (arith, g)

  -- A case that is put where one is is there.
  put_at :
      (i : ℕ) (ste : Suite) (c c' : Case)
      → get_elem? ste.cases i ≡ some c
      → get_elem? (put debug i ste c').cases i ≡ some c'
  put_at i ste c c' g = get_elem?-set_self ste.cases i c' (get_elem?_under ste.cases i c g)

  end_function-error :
      (i : ℕ) (ste : Suite) (c : Case) (raised : Raised) (f : Fields)
      → get_elem? ste.cases i ≡ some c
      → traceback_of (debug.place i) (debug.trace i) raised ≡ ok f
      → end_function i ste (some raised) ≡ error
  unfolding end_function
  end_function-error i ste c raised f g t =
      let ste' = put debug i ste (copy_fields f c) in
      rw t (
        rw g (
          ap (λ r. r >>= raise_out)
            (after_at i ste' (copy_fields f c) (put_at i ste c (copy_fields f c) g))))

  nil_error-fields :
      (place trace : Bytes) → (f : Fields) × (traceback_of place trace nil_error ≡ ok f)
  unfolding traceback_of
  nil_error-fields place trace = (_, refl)

  -- Whether a test function that waits for nothing comes to an end: it calls `done`, or raises something
  -- that `t_tst_cse_traceback` makes fields of.
  abbrev pub Ends : ℕ → Bool → Option Raised → Type 0
  Ends i true raises = Unit
  Ends i false none = ⊥
  Ends i false (some raised) =
      (f : Fields) × (traceback_of (debug.place i) (debug.trace i) raised ≡ ok f)

  ends_lem :
      (i : ℕ) (ste : Suite) (c : Case) (calls : Bool) (raises : Option Raised)
      → get_elem? ste.cases i ≡ some c
      → Ends i calls raises
      → (if calls
          then (do ending ← after i ste; end_function i ending.0 (first_raised ending.1 raises))
          else end_function i ste raises)
        ≡ error
  ends_lem i ste c true raises g e =
      let (f, t) = nil_error-fields (debug.place i) (debug.trace i) in
      ap (λ r. r >>= λ ending. end_function i ending.0 (first_raised ending.1 raises))
        (after_at i ste c g)
      ∙ end_function-error i (put debug i ste (pass_default c)) (pass_default c) nil_error f
          (put_at i ste c (pass_default c) g) t
  ends_lem i ste c false none g e = absurd e
  ends_lem i ste c false (some raised) g (f, t) = end_function-error i ste c raised f g t

  execute_at :
      (i : ℕ) (ste : Suite) (c : Case)
      → get_elem? ste.cases i ≡ some c
      → execute i ste ≡ (
          let ste' = put debug i ste (take_notes c c.function.notes) in
          if c.function.calls_done
          then (do
            ending ← after i ste'
            end_function i ending.0 (first_raised ending.1 c.function.raises))
          else end_function i ste' c.function.raises)
  unfolding execute
  execute_at i ste c g = ground (arith, g)

  execute-Ends :
      (i : ℕ) (ste : Suite) (c : Case)
      → get_elem? ste.cases i ≡ some c
      → Ends i c.function.calls_done c.function.raises
      → execute i ste ≡ error
  execute-Ends i ste c g e =
      let c' = take_notes c c.function.notes in
      execute_at i ste c g
      ∙ ends_lem i (put debug i ste c') c' c.function.calls_done c.function.raises
          (put_at i ste c c' g) e

  -- A callback case whose test function calls `done`, or raises something that is written to the case, ends in
  -- an error that leaves `t_tst_cse_runAsync`, and so does a call of `done` behind the function, in state 2.
  -- The condition: the function before each case, if there is one, goes on with what it is given.
  pub run_async-Ends :
      (i : ℕ) (ste : Suite) (c : Case)
      → get_elem? ste.cases i ≡ some c
      → Willing ste.before_each_cb
      → Ends i c.function.calls_done c.function.raises
      → (run_async 0 i ste ≡ error) × (run_async 2 i ste ≡ error)
  unfolding run_async
  run_async-Ends i ste c g w e = (
    call_envelope-Willing ste.before_each_cb (execute i) ste w ∙ execute-Ends i ste c g e,
    ap (λ r. r >>= raise_out) (after_at i ste c g),
  )

-- `lt_tst__call`, with the two ways to run a case.
abbrev pub call_suite : Debug → Suite → Result Suite
call_suite debug ste = call debug (run_async debug 0) ste
