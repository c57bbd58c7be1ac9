-- ===== src/Tst/Counts.antt =====
-- src/t_tst_l.c: a suite is filled with cases, and its cases are counted.
use lua_t.Prelude.{
  ℕ, ◌+◌, ◌≡◌, ◌↔◌, Bool, true, not, ◌&&◌, ◌||◌, List, [], ◌∷◌, ◌++◌, Bytes, codes, ◌==◌, ==_iff,
  if◌then◌else◌, length, arith,
}
use lua_t.Prelude.Result.{Result, ok, error}
use lua_t.Tst.{Function, Case, Metrics, Suite}
use lua_t.Tst.Cases.{create, begins_as, has_pass, has_text}

-- A value that is assigned: a function that is a test, or no function.
pub data Value : Type 0 where
  function : Function → Value
  plain : Value

-- `lt_tst__newindex`, for the name of a test. The case stands at the end of the sequence.
unfoldable pub add_test : Suite → Bytes → Value → Result Suite
add_test ste name (function f) = ok (record ste { cases = ste.cases ++ (create name f ∷ []) })
add_test ste name plain = error

-- Whether a name is that of a test.
abbrev pub is_test : Bytes → Bool
is_test name = begins_as name (codes "test_")

-- `lt_tst__newindex`; another name than that of a test leaves the sequence of cases.
unfoldable pub newindex : Suite → Bytes → Value → Result Suite
unfolding add_test
newindex ste name value = if is_test name then add_test ste name value else ok ste

abbrev pub count : (Case → Bool) → List Case → ℕ
count test [] = 0
count test (c ∷ cs) = (if test c then 1 else 0) + count test cs

abbrev pub passed : Case → Bool
passed c = has_pass c.pass

abbrev pub is_todo : Case → Bool
is_todo c = has_text c.todo

-- `t_tst_getMetrics`
unfoldable pub get_metrics : List Case → Metrics
get_metrics cases =
    let pass = count passed cases in
    let todo = count is_todo cases in
    record {
      verdict = length cases == (pass + todo);
      pass = pass;
      skip = count (λ c. has_text c.skip) cases;
      todo = todo;
    }

abbrev pub masked : Case → Bool
masked c = passed c && is_todo c

abbrev pub missed : Case → Bool
missed c = not (passed c || is_todo c)

count_balance :
    (cases : List Case)
    → count passed cases + count is_todo cases + count missed cases
      ≡ length cases + count masked cases
count_balance [] = omega arith
count_balance (c ∷ cs) = ground (arith, count_balance cs)

-- A suite has the verdict OK if and only if it has as many cases that passed although they are marked
-- as to do, as it has cases that neither passed nor are marked.
pub verdict-count :
    (cases : List Case)
    → ((get_metrics cases).verdict ≡ true) ↔ (count masked cases ≡ count missed cases)
unfolding get_metrics
verdict-count cases =
    let b = count_balance cases in
    let (f, g) = ==_iff (length cases) (count passed cases + count is_todo cases) in
    (λ h. omega (arith, b, f h), λ h. g (omega (arith, b, h)))
