-- ===== src/Tst/Tests.antt =====
-- The theorems of the test suites at a suite of two cases, one of which fails.
use lua_t.Prelude.{
  ℕ, ◌≡◌, refl, ◌↔◌, true, false, List, [], ◌∷◌, Option, none, some, Bytes, codes, length,
}
use lua_t.Prelude.Result.{ok, error}
use lua_t.Tst.{Raised, string, Function, Case, Hook, Suite, describe, todo}
use lua_t.Tst.Cases.{create, traceback_of, skip_error, IsName, prune}
use lua_t.Tst.Errors.{located, failed, skipped, traceback-located, traceback-skip_error}
use lua_t.Tst.Counts.{get_metrics, count, masked, missed, verdict-count, newindex, function}
use lua_t.Tst.Sync.{Debug, call, run_sync, call_envelope, loop_cases, call_case}
use lua_t.Tst.Turn.{AllRun, at, line_of}
use lua_t.Tst.Finished.{ended, call-AllRun}
use lua_t.Tst.Async.{run_async, run_async-Ends, call_suite, execute, after, end_function}
use lua_t.Tst.Silent.{run_sync_silent}
use lua_t.Tst.Report.{Source, tap_diagnostic}
use lua_t.Tst.Indented.{indented, tap_diagnostic-indented}

abbrev debug : Debug
debug = record { place = λ i. codes "[C]:"; trace = λ i. codes "stack traceback:\n\t[C]" }

-- A test that ends well, one that fails in line 3, one that raises an error without a position, and one
-- that calls `done`.
abbrev good : Function
good = record { notes = describe (codes "Adds up") ∷ []; calls_done = false; raises = none }

abbrev bad : Function
bad = record {
  notes = todo (codes "later") ∷ [];
  calls_done = false;
  raises = some (string (codes "a.lua:3: no"));
}

abbrev bare : Function
bare = record { notes = []; calls_done = false; raises = some (string (codes "no")) }

abbrev waits : Function
waits = record { notes = []; calls_done = true; raises = none }

abbrev first : Case
first = create (codes "test_sum") good

abbrev second : Case
second = create (codes "test_No") bad

abbrev hook : Option Hook
hook = some (record { calls_done = true; raises = false })

abbrev suite : List Case → Suite
suite cases = record {
  cases = cases;
  before_all = hook;
  after_all = none;
  before_each = hook;
  after_each = none;
  before_each_cb = none;
  after_each_cb = none;
  printed = [];
}

file-IsName : IsName (codes "a.lua")
file-IsName = (refl, refl, (refl, refl, (refl, refl, (refl, refl, (refl, refl, tt)))))

line-IsName : IsName (codes "3")
line-IsName = (refl, refl, tt)

call-AllRun_example :
    (es : List Case) × AllRun es
    × (length es ≡ 2)
    × (call debug (run_async debug 0) (suite (first ∷ second ∷ []))
        ≡ ok (at (suite (first ∷ second ∷ [])) es (ended [] [] es)))
unfolding create
call-AllRun_example =
    call-AllRun debug (run_async debug 0) (suite (first ∷ second ∷ [])) first (second ∷ []) refl
      (refl, tt, (refl, (codes "a.lua", codes "3", codes "no", file-IsName, line-IsName, refl), tt))
      ((refl, refl), refl, tt, tt)

traceback-located_example :
    traceback_of [] [] (string (located (codes "a.lua") (codes "3") (codes "no")))
    ≡ ok (failed (codes "a.lua:3") [] (codes "no"))
traceback-located_example =
    traceback-located [] [] (codes "a.lua") (codes "3") (codes "no") file-IsName line-IsName

traceback-skip_error_example :
    (raised : Raised) × (skip_error (codes "a.lua") (codes "3") (codes "50%%") ≡ some raised)
    × (traceback_of [] [] raised ≡ ok (skipped (codes "50%")))
traceback-skip_error_example =
    traceback-skip_error [] [] (codes "a.lua") (codes "3") (codes "50%%") (codes "50%") file-IsName
      line-IsName refl

verdict-count_example :
    ((get_metrics (first ∷ second ∷ [])).verdict ≡ true)
    ↔ (count masked (first ∷ second ∷ []) ≡ count missed (first ∷ second ∷ []))
verdict-count_example = verdict-count (first ∷ second ∷ [])

run_async-Ends_example :
    (run_async debug 0 1 (suite (first ∷ create (codes "test_cb_x") waits ∷ [])) ≡ error)
    × (run_async debug 2 1 (suite (first ∷ create (codes "test_cb_x") waits ∷ [])) ≡ error)
unfolding create
run_async-Ends_example =
    run_async-Ends debug 1 (suite (first ∷ create (codes "test_cb_x") waits ∷ []))
      (create (codes "test_cb_x") waits) refl tt tt

run_sync_silent_example :
    (c' : Case) × (c'.pass ≡ none)
    × (c'.message ≡ some (codes "no"))
    × (run_sync debug 1 (suite (first ∷ create (codes "test_x") bare ∷ []))
        ≡ ok (
            at
              (suite (first ∷ create (codes "test_x") bare ∷ []))
              (first ∷ c' ∷ [])
              (line_of c' ∷ [])))
unfolding create
run_sync_silent_example =
    run_sync_silent debug 1 (suite (first ∷ create (codes "test_x") bare ∷ []))
      (create (codes "test_x") bare) (codes "no") refl refl refl (refl, (refl, tt)) (refl, tt)

-- One digit for every number.
abbrev digit : ℕ → Bytes
digit n = codes "7"

abbrev source : Source
source = record {
  lines = codes "function()\n" ∷ codes "end\n" ∷ [];
  linedefined = 1;
  lastlinedefined = 2;
}

tap_diagnostic-indented_example : indented true (tap_diagnostic digit source second) ≡ true
tap_diagnostic-indented_example =
    tap_diagnostic-indented digit (λ n. refl) source second
      ((codes "function()", b'\n', refl, refl), ((codes "end", b'\n', refl, refl), tt))

-- A suite that is filled by assignments has its cases in that order.
filled :
    newindex (suite []) (codes "TEST_sum") (function good)
    ≡ ok (suite (create (codes "TEST_sum") good ∷ []))
unfolding newindex
filled = refl

-- A callback case stops the whole suite.
stopped : call_suite debug (suite (create (codes "test_cb_x") waits ∷ [])) ≡ error
unfolding call call_envelope loop_cases call_case prune create run_async execute after end_function
    traceback_of
stopped = refl
