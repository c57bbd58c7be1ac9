-- ===== src/Tst/Silent.antt =====
-- A case whose error says nothing on whether it has passed keeps its suite from coming to an end.
use lua_t.Prelude.{
  ℕ, zero, suc, ◌<◌, ◌≤◌, ◌≡◌, refl, ap, ◌∙◌, false, List, [], ◌∷◌, ◌++◌, none, some, Bytes, length,
  get_elem?, get_elem?-set_self, set, arith,
}
use lua_t.Prelude.Result.{ok, ◌>>=◌}
use lua_t.Tst.{Case, Suite, string, Note, todo, describe}
use lua_t.Tst.Cases.{Plain, take_notes, note, copy_fields}
use lua_t.Tst.Errors.{traceback_no_colon, failed}
use lua_t.Tst.Counts.{count}
use lua_t.Tst.Sync.{has_run, Debug, run_sync, run_function, record_end, put}
use lua_t.Tst.Turn.{Quiet, at, line_of, call_each-Quiet, run_sync_at, done_at}

count_le : (cs : List Case) → count has_run cs ≤ length cs
count_le [] = omega arith
count_le (c ∷ cs) = ground (arith, count_le cs)

count_lt :
    (cs : List Case) (i : ℕ) (c : Case)
    → get_elem? cs i ≡ some c
    → has_run c ≡ false
    → count has_run cs < length cs
count_lt [] i c g h = ground (arith, g)
count_lt (d ∷ cs) zero c g h = ground (arith, g, h, count_le cs)
count_lt (d ∷ cs) (suc i) c g h = ground (arith, count_lt cs i c g h)

pub get_elem?_under : (cs : List Case) (i : ℕ) (c : Case) → get_elem? cs i ≡ some c → i < length cs
get_elem?_under [] i c g = ground (arith, g)
get_elem?_under (d ∷ cs) zero c g = omega arith
get_elem?_under (d ∷ cs) (suc i) c g = omega (arith, get_elem?_under cs i c g)

pass-take_notes : (c : Case) (ns : List Note) → (take_notes c ns).pass ≡ c.pass
pass-take_notes c [] = refl
pass-take_notes c (todo r ∷ ns) = pass-take_notes (note c (todo r)) ns
pass-take_notes c (describe r ∷ ns) = pass-take_notes (note c (describe r)) ns

has_run-none : (c : Case) → c.pass ≡ none → has_run c ≡ false
has_run-none c e = rw e refl

run_function-Plain :
    (debug : Debug) (i : ℕ) (c : Case) (msg : Bytes)
    → c.function.raises ≡ some (string msg)
    → Plain msg
    → (c' : Case) × (run_function debug i c ≡ ok c') × (c'.pass ≡ c.pass) × (c'.message ≡ some msg)
unfolding run_function
run_function-Plain debug i c msg r p =
    let c₁ = take_notes c c.function.notes in
    (
      copy_fields (record (failed (debug.place i) (debug.trace i) msg) { pass = none }) c₁,
      ap (record_end debug i c₁) r
          ∙ ap (λ f. f >>= λ fields. ok (copy_fields fields c₁))
              (traceback_no_colon (debug.place i) (debug.trace i) msg p),
      pass-take_notes c c.function.notes,
      refl,
    )

-- A case that has not run, and whose function raises an error without a colon, prints its line, keeps the
-- message and has still not run, and no report follows, whatever the other cases are. The conditions:
-- the functions before and after each case raise nothing.
pub run_sync_silent :
    (debug : Debug) (i : ℕ) (ste : Suite) (c : Case) (msg : Bytes)
    → get_elem? ste.cases i ≡ some c
    → c.pass ≡ none
    → c.function.raises ≡ some (string msg)
    → Plain msg
    → Quiet ste.before_each × Quiet ste.after_each
    → (c' : Case) × (c'.pass ≡ none)
      × (c'.message ≡ some msg)
      × (run_sync debug i ste ≡ ok (at ste (set ste.cases i c') (ste.printed ++ (line_of c' ∷ []))))
run_sync_silent debug i ste c msg g n r p (qb, qa) =
    let (c', e, pass, message) = run_function-Plain debug i c msg r p in
    let cs = set ste.cases i c' in
    let g' = get_elem?-set_self ste.cases i c' (get_elem?_under ste.cases i c g) in
    let ste' = put debug i ste c' in
    let lt = count_lt cs i c' g' (has_run-none c' (pass ∙ n)) in
    (
      c',
      pass ∙ n,
      message,
      run_sync_at debug i ste c c' g (call_each-Quiet ste.before_each ste qb) e
            (call_each-Quiet ste.after_each ste' qa)
          ∙ done_at i ste' c' g'
          ∙ ground (arith, lt),
    )
