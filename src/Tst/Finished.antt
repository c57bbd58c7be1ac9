-- ===== src/Tst/Finished.antt =====
-- A suite of cases that run at once comes to its end: every case has run, and there is one report.
use lua_t.Prelude.{
  ℕ, suc, ◌≡◌, refl, ap, sym, ◌∙◌, true, false, List, [], ◌∷◌, ◌++◌, map, length, length-map,
  length-append, arith, append_assoc,
}
use lua_t.Prelude.Result.{Result, ok, ◌>>=◌}
use lua_t.Tst.{Case, Suite, Line, report}
use lua_t.Tst.Cases.{prune}
use lua_t.Tst.Counts.{get_metrics}
use lua_t.Tst.Sync.{has_run, done, Debug, run_sync, call_case, loop_cases, call, is_callback}
use lua_t.Tst.Turn.{
  Willing, Quiet, AllRun, AllSettled, AllPruned, at, line_of, call_envelope-Willing,
  run_sync-Settled, done_more, done_last, get_elem?-middle,
}

-- What a suite that has ended prints, behind what was there.
abbrev pub ended : List Line → List Case → List Case → List Line
ended out ds cs = out ++ (map line_of cs ++ (report (get_metrics (ds ++ cs)) ∷ []))

AllRun-append : (ds : List Case) (c : Case) → AllRun ds → has_run c ≡ true → AllRun (ds ++ (c ∷ []))
AllRun-append [] c a h = (h, tt)
AllRun-append (d ∷ ds) c a h = (a.0, AllRun-append ds c a.1 h)

module _ (debug : Debug) (run_async : ℕ → Suite → Result Suite) where
  call_case-sync :
      (ste : Suite) (out : List Line) (ds : List Case) (c : Case) (cs : List Case)
      → is_callback c.testtype ≡ false
      → call_case debug run_async (length ds) (at ste (ds ++ (c ∷ cs)) out)
        ≡ run_sync debug (length ds) (at ste (ds ++ (c ∷ cs)) out)
  unfolding call_case
  call_case-sync ste out ds c cs s = ground (arith, get_elem?-middle ds c cs, s)

  module _ (ste : Suite) (qb : Quiet ste.before_each) (qa : Quiet ste.after_each)
      (w : Willing ste.after_all) where
    -- The rounds for the cases that are left.
    loop_cases-AllRun :
        (out : List Line) (ds : List Case) (c : Case) (cs : List Case)
        → AllRun ds
        → AllPruned cs
        → AllSettled (c ∷ cs)
        → (es : List Case) × AllRun es
          × (length es ≡ suc (length cs))
          × (loop_cases debug run_async (suc (length cs)) (length ds) (at ste (ds ++ (c ∷ cs)) out)
              ≡ ok (at ste (ds ++ es) (ended out ds es)))
    unfolding loop_cases
    loop_cases-AllRun out ds c [] a p (sy, s, _) =
        let (c', h, e) = run_sync-Settled debug ste out ds c [] qb qa s in
        (
          c' ∷ [],
          (h, tt),
          refl,
          ap (λ r. r >>= λ ste. ok ste)
                (call_case-sync ste out ds c [] sy ∙ e ∙ done_last ste out ds c' a h w)
              ∙ ap (λ out. ok (at ste (ds ++ (c' ∷ [])) out))
                  (append_assoc out (line_of c' ∷ []) _),
        )
    loop_cases-AllRun out ds c (d ∷ cs) a p (sy, s, rest) =
        let (c', h, e) = run_sync-Settled debug ste out ds c (d ∷ cs) qb qa s in
        let (es, all, n, e') =
          loop_cases-AllRun (out ++ (line_of c' ∷ [])) (ds ++ (c' ∷ [])) d cs
            (AllRun-append ds c' a h) p.1 rest in
        let index : length (ds ++ (c' ∷ [])) ≡ suc (length ds) =
          ground (arith, length-append ds (c' ∷ [])) in
        let out' = out ++ (line_of c' ∷ []) in
        let step = loop_cases debug run_async (suc (length cs)) in
        (
          c' ∷ es,
          (h, all),
          ap suc n,
          ap (λ r. r >>= loop_cases debug run_async (suc (length cs)) (suc (length ds)))
                (call_case-sync ste out ds c (d ∷ cs) sy ∙ e ∙ done_more ste out ds c' d cs a h p)
              ∙ sym (ap (λ i. step i (at ste (ds ++ (c' ∷ d ∷ cs)) out')) index)
              ∙ sym (
                  ap (λ xs. step (length (ds ++ (c' ∷ []))) (at ste xs out'))
                    (append_assoc ds (c' ∷ []) (d ∷ cs)))
              ∙ e'
              ∙ ap
                  (λ xs.
                    ok (at ste xs (out' ++ (map line_of es ++ (report (get_metrics xs) ∷ [])))))
                  (append_assoc ds (c' ∷ []) es)
              ∙ ap (λ out. ok (at ste (ds ++ (c' ∷ es)) out))
                  (append_assoc out (line_of c' ∷ []) _),
        )

AllPruned-prune : (cs : List Case) → AllPruned (map prune cs)
unfolding prune
AllPruned-prune [] = tt
AllPruned-prune (c ∷ cs) = (refl, AllPruned-prune cs)

AllSettled-prune : (cs : List Case) → AllSettled cs → AllSettled (map prune cs)
unfolding prune
AllSettled-prune [] a = tt
AllSettled-prune (c ∷ cs) (sy, s, a) = (sy, s, AllSettled-prune cs a)

-- The call of a suite with a case at least comes to its end: it has the same number of cases, each has run,
-- and it has printed each of them, in order, and then one report on them. The conditions: no case is a
-- callback, what each raises, if anything, is an error with its position or a table with `pass`; the
-- functions around each case raise nothing, and those around all of them also go on with what they are given.
pub call-AllRun :
    (debug : Debug) (run_async : ℕ → Suite → Result Suite) (ste : Suite) (c : Case) (cs : List Case)
    → ste.cases ≡ c ∷ cs
    → AllSettled (c ∷ cs)
    → Willing ste.before_all × Quiet ste.before_each × Quiet ste.after_each × Willing ste.after_all
    → (es : List Case) × AllRun es
      × (length es ≡ suc (length cs))
      × (call debug run_async ste ≡ ok (at ste es (ended ste.printed [] es)))
unfolding call
call-AllRun debug run_async ste c cs e s (wb, qb, qa, wa) =
    let p = AllPruned-prune (c ∷ cs) in
    let (es, a, n, done) =
      loop_cases-AllRun debug run_async ste qb qa wa ste.printed [] (prune c) (map prune cs) tt p.1
        (AllSettled-prune (c ∷ cs) s) in
    let start = loop_cases debug run_async in
    (
      es,
      a,
      n ∙ ap suc (length-map cs prune),
      call_envelope-Willing ste.before_all _ _ wb
          ∙ ap (λ cs. start (length (map prune cs)) 0 (at ste (map prune cs) ste.printed)) e
          ∙ done,
    )
