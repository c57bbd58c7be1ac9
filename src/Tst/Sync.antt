-- ===== src/Tst/Sync.antt =====
-- src/t_tst_cse.c and src/t_tst_l.h: cases that run at once, and the call of a suite.
use lua_t.Prelude.{
  ℕ, zero, suc, Bool, true, false, [], ◌∷◌, ◌++◌, map, Option, none, some, Bytes, ◌==◌,
  if◌then◌else◌, length, get_elem?, set,
}
use lua_t.Prelude.Result.{Result, ok, error, fault, ◌>>=◌}
use lua_t.Tst.{Raised, Case, Hook, Suite, Testtype, executed, report, callback}
use lua_t.Tst.Cases.{prune, traceback_of, copy_fields, take_notes, get_description}
use lua_t.Tst.Counts.{get_metrics, count}

-- `t_tst_callFinalize`
abbrev pub finalize : Suite → Result Suite
finalize ste = ok (record ste { printed = ste.printed ++ (report (get_metrics ste.cases) ∷ []) })

-- `t_tst_callEnvelope`. A function that raises an error ends the call; one that does not call what it
-- is given leaves the suite.
unfoldable pub call_envelope : Option Hook → (Suite → Result Suite) → Suite → Result Suite
call_envelope none done ste = done ste
call_envelope (some hook) done ste = do
  ste' ← if hook.calls_done then done ste else ok ste
  if hook.raises then error else ok ste'

-- The call of `beforeEach` or `afterEach`.
abbrev pub call_each : Option Hook → Suite → Result Suite
call_each none ste = ok ste
call_each (some hook) ste = if hook.raises then error else ok ste

abbrev pub has_run : Case → Bool
has_run c = elim c.pass [ none ↦ false | some b ↦ true ]

-- `t_tst_done`, of the suite's case at an index.
unfoldable pub done : ℕ → Suite → Result Suite
unfolding call_envelope
done i ste = elim (get_elem? ste.cases i) [
  | none ↦ fault
  | some c ↦
      let ste' = record ste { printed = ste.printed ++ (executed (get_description c) ∷ []) } in
      if length ste.cases == count has_run ste.cases
      then call_envelope ste.after_all finalize ste'
      else ok ste'
]

-- `t_tst_cse_isType`, of `callback`
abbrev pub is_callback : Testtype → Bool
is_callback callback = true
is_callback _ = false

-- What `luaL_where` and `luaL_traceback` say while a case at an index runs.
pub record Debug : Type 0 where
  pub place : ℕ → Bytes
  pub trace : ℕ → Bytes

module _ (debug : Debug) where
  -- The end of a case, by what its function raises.
  abbrev pub record_end : ℕ → Case → Option Raised → Result Case
  record_end i c none = ok (record c { pass = some true })
  record_end i c (some raised) = do
    fields ← traceback_of (debug.place i) (debug.trace i) raised
    ok (copy_fields fields c)

  -- The call of the function of a case.
  unfoldable pub run_function : ℕ → Case → Result Case
  run_function i c = record_end i (take_notes c c.function.notes) c.function.raises

  abbrev pub put : ℕ → Suite → Case → Suite
  put i ste c = record ste { cases = set ste.cases i c }

  -- `t_tst_cse_runSync`
  unfoldable pub run_sync : ℕ → Suite → Result Suite
  unfolding run_function done
  run_sync i ste = elim (get_elem? ste.cases i) [
    | none ↦ fault
    | some c ↦ (do
      ste' ← call_each ste.before_each ste
      c' ← run_function i c
      ste'' ← call_each ste.after_each (put i ste' c')
      done i ste'')
  ]

  module _ (run_async : ℕ → Suite → Result Suite) where
    -- `lt_tst_cse__call`
    unfoldable pub call_case : ℕ → Suite → Result Suite
    unfolding run_sync
    call_case i ste = elim (get_elem? ste.cases i) [
      | none ↦ fault
      | some c ↦ if is_callback c.testtype then run_async i ste else run_sync i ste
    ]

    -- `t_tst_callLoopCases`, with as many rounds left as cases.
    unfoldable pub loop_cases : ℕ → ℕ → Suite → Result Suite
    loop_cases zero i ste = ok ste
    loop_cases (suc rounds) i ste = call_case i ste >>= loop_cases rounds (suc i)

    -- `lt_tst__call`
    unfoldable pub call : Suite → Result Suite
    call ste =
        let pruned = record ste { cases = map prune ste.cases } in
        call_envelope pruned.before_all (loop_cases (length pruned.cases) 0) pruned
