-- ===== src/Tst/Turn.antt =====
-- The turn of one case that runs at once: it leaves the case as passed or failed, and ends in `done`.
use lua_t.Prelude.{
  cstring, begins_with, ℕ, ◌+◌, ◌≡◌, refl, ap, ◌∙◌, Bool, true, false, List, [], ◌∷◌, ◌++◌, Option,
  none, some, Bytes, ◌==◌, if◌then◌else◌, length, length-append, get_elem?, set, arith,
}
use lua_t.Prelude.Result.{Result, ok, argument, error, fault, ◌>>=◌}
use lua_t.Tst.{Fields, Raised, string, table, other, Case, Hook, Suite, Line, executed, report}
use lua_t.Tst.Cases.{traceback_of, copy_fields, take_notes, get_description, IsName, skip_indicator}
use lua_t.Tst.Errors.{located, traceback-located}
use lua_t.Tst.Counts.{get_metrics, count}
use lua_t.Tst.Sync.{
  finalize, call_envelope, call_each, has_run, done, Debug, record_end, run_function, put, run_sync,
  is_callback,
}

-- What a test raises says whether the test has passed: an error with its position, or a table with `pass`.
abbrev pub Settled : Option Raised → Type 0
Settled none = Unit
Settled (some (string s)) =
    (file line msg : Bytes) × IsName file × IsName line × (s ≡ located file line msg)
Settled (some (table f)) = (b : Bool) × (f.pass ≡ some b)
Settled (some other) = ⊥

-- A function around all cases that goes on with them, and one around each that raises nothing.
abbrev pub Willing : Option Hook → Type 0
Willing none = Unit
Willing (some h) = (h.calls_done ≡ true) × (h.raises ≡ false)

abbrev pub Quiet : Option Hook → Type 0
Quiet none = Unit
Quiet (some h) = h.raises ≡ false

abbrev pub AllRun : List Case → Type 0
AllRun [] = Unit
AllRun (c ∷ cs) = (has_run c ≡ true) × AllRun cs

abbrev pub AllSettled : List Case → Type 0
AllSettled [] = Unit
AllSettled (c ∷ cs) = (is_callback c.testtype ≡ false) × Settled c.function.raises × AllSettled cs

-- A case in the middle.
pub get_elem?-middle :
    (ds : List Case) (c : Case) (cs : List Case) → get_elem? (ds ++ (c ∷ cs)) (length ds) ≡ some c
get_elem?-middle [] c cs = refl
get_elem?-middle (d ∷ ds) c cs = get_elem?-middle ds c cs

set-middle :
    (ds : List Case) (c c' : Case) (cs : List Case)
    → set (ds ++ (c ∷ cs)) (length ds) c' ≡ ds ++ (c' ∷ cs)
set-middle [] c c' cs = refl
set-middle (d ∷ ds) c c' cs = ap (◌∷◌ d) (set-middle ds c c' cs)

-- A suite with other cases and another output.
abbrev pub at : Suite → List Case → List Line → Suite
at ste cases out = record ste { cases = cases; printed = out }

bind_ok : (r : Result Suite) → (r >>= λ ste. ok ste) ≡ r
bind_ok (ok ste) = refl
bind_ok (argument i) = refl
bind_ok error = refl
bind_ok fault = refl

pub call_envelope-Willing :
    (hook : Option Hook) (next : Suite → Result Suite) (ste : Suite)
    → Willing hook
    → call_envelope hook next ste ≡ next ste
unfolding call_envelope
call_envelope-Willing none next ste w = refl
call_envelope-Willing (some h) next ste w = rw (w.0, w.1) (bind_ok (next ste))

pub call_each-Quiet : (hook : Option Hook) (ste : Suite) → Quiet hook → call_each hook ste ≡ ok ste
call_each-Quiet none ste q = refl
call_each-Quiet (some h) ste q = rw q refl

table_lem :
    (place trace : Bytes) (f : Fields)
    → traceback_of place trace (table f) ≡ ok (record f { traceback = some trace })
unfolding traceback_of
table_lem place trace f = refl

has_run-choose :
    (b : Bool) (f g : Fields) (c : Case)
    → has_run (copy_fields f c) ≡ true
    → has_run (copy_fields g c) ≡ true
    → has_run (copy_fields (if b then f else g) c) ≡ true
has_run-choose true f g c p q = p
has_run-choose false f g c p q = q

module _ (debug : Debug) where
  -- A settled function leaves its case as passed or failed.
  record_end-Settled :
      (i : ℕ) (c : Case) (raised : Option Raised)
      → Settled raised
      → (c' : Case) × (record_end debug i c raised ≡ ok c') × (has_run c' ≡ true)
  record_end-Settled i c none s = (_, refl, refl)
  record_end-Settled i c (some (string t)) (file, line, msg, p, q, e) =
      let fields =
        ap (λ t. traceback_of (debug.place i) (debug.trace i) (string t)) e
        ∙ traceback-located (debug.place i) (debug.trace i) file line msg p q in
      (
        _,
        ap (λ r. r >>= λ fields. ok (copy_fields fields c)) fields,
        has_run-choose (begins_with (cstring msg) skip_indicator) _ _ c refl refl,
      )
  record_end-Settled i c (some (table f)) (b, e) = (
    copy_fields (record f { traceback = some (debug.trace i) }) c,
    ap (λ r. r >>= λ fields. ok (copy_fields fields c))
        (table_lem (debug.place i) (debug.trace i) f),
    rw e refl,
  )
  record_end-Settled i c (some other) s = absurd s

  pub run_sync_at :
      (i : ℕ) (ste : Suite) (c c' : Case)
      → get_elem? ste.cases i ≡ some c
      → call_each ste.before_each ste ≡ ok ste
      → run_function debug i c ≡ ok c'
      → call_each ste.after_each (put debug i ste c') ≡ ok (put debug i ste c')
      → run_sync debug i ste ≡ done i (put debug i ste c')
  unfolding run_sync
  run_sync_at i ste c c' g b r a = ground (arith, g, b, r, a)

  -- The case in the middle runs, and its turn ends in `done`.
  pub run_sync-Settled :
      (ste : Suite) (out : List Line) (ds : List Case) (c : Case) (cs : List Case)
      → Quiet ste.before_each
      → Quiet ste.after_each
      → Settled c.function.raises
      → (c' : Case) × (has_run c' ≡ true)
        × (run_sync debug (length ds) (at ste (ds ++ (c ∷ cs)) out)
            ≡ done (length ds) (at ste (ds ++ (c' ∷ cs)) out))
  unfolding run_function
  run_sync-Settled ste out ds c cs qb qa s =
      let (c', e, h) =
        record_end-Settled (length ds) (take_notes c c.function.notes) c.function.raises s in
      let ste' = at ste (ds ++ (c ∷ cs)) out in
      (
        c',
        h,
        run_sync_at (length ds) ste' c c' (get_elem?-middle ds c cs)
              (call_each-Quiet ste.before_each ste' qb) e
              (call_each-Quiet ste.after_each (put debug (length ds) ste' c') qa)
            ∙ ap (λ cs. done (length ds) (at ste cs out)) (set-middle ds c c' cs),
      )

-- The line that `done` prints.
abbrev pub line_of : Case → Line
line_of c = executed (get_description c)

pub done_at :
    (i : ℕ) (ste : Suite) (c : Case)
    → get_elem? ste.cases i ≡ some c
    → done i ste ≡ (
        if length ste.cases == count has_run ste.cases
        then call_envelope ste.after_all finalize
            (at ste ste.cases (ste.printed ++ (line_of c ∷ [])))
        else ok (at ste ste.cases (ste.printed ++ (line_of c ∷ []))))
unfolding done
done_at i ste c g = ground (arith, g)

count_AllRun :
    (ds cs : List Case) → AllRun ds → count has_run (ds ++ cs) ≡ length ds + count has_run cs
count_AllRun [] cs a = omega arith
count_AllRun (d ∷ ds) cs a = ground (arith, a.0, count_AllRun ds cs a.1)

abbrev pub AllPruned : List Case → Type 0
AllPruned [] = Unit
AllPruned (c ∷ cs) = (has_run c ≡ false) × AllPruned cs

count_AllPruned : (cs : List Case) → AllPruned cs → count has_run cs ≡ 0
count_AllPruned [] a = refl
count_AllPruned (c ∷ cs) a = ground (arith, a.0, count_AllPruned cs a.1)

-- With a case to come, `done` prints the case only; at the last one it also ends the suite.
pub done_more :
    (ste : Suite) (out : List Line) (ds : List Case) (c d : Case) (cs : List Case)
    → AllRun ds
    → has_run c ≡ true
    → AllPruned (d ∷ cs)
    → done (length ds) (at ste (ds ++ (c ∷ d ∷ cs)) out)
      ≡ ok (at ste (ds ++ (c ∷ d ∷ cs)) (out ++ (line_of c ∷ [])))
done_more ste out ds c d cs a h p =
    done_at (length ds) (at ste (ds ++ (c ∷ d ∷ cs)) out) c (get_elem?-middle ds c (d ∷ cs))
    ∙ ground (
      arith,
      count_AllRun ds (c ∷ d ∷ cs) a,
      length-append ds (c ∷ d ∷ cs),
      h,
      p.0,
      count_AllPruned cs p.1,
    )

pub done_last :
    (ste : Suite) (out : List Line) (ds : List Case) (c : Case)
    → AllRun ds
    → has_run c ≡ true
    → Willing ste.after_all
    → done (length ds) (at ste (ds ++ (c ∷ [])) out)
      ≡ ok (
          at ste
            (ds ++ (c ∷ []))
            ((out ++ (line_of c ∷ [])) ++ (report (get_metrics (ds ++ (c ∷ []))) ∷ [])))
done_last ste out ds c a h w =
    done_at (length ds) (at ste (ds ++ (c ∷ [])) out) c (get_elem?-middle ds c [])
    ∙ ground (arith, count_AllRun ds (c ∷ []) a, length-append ds (c ∷ []), h)
    ∙ call_envelope-Willing ste.after_all finalize _ w
