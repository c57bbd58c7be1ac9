-- ===== src/Tst/Report.antt =====
-- src/t_tst_l.c and src/t_tst_cse.c: the report on a suite, in the lines of the Test Anything Protocol.
use lua_t.Prelude.{
  ℕ, suc, ◌+◌, Bool, true, false, not, List, [], ◌∷◌, ◌++◌, Option, none, some, Bytes, codes, ◌==◌,
  ◌&&◌, ltb, if◌then◌else◌, length,
}
use lua_t.Tst.{Testtype, standard, callback, coroutine, Case, Suite}
use lua_t.Tst.Cases.{get_description, has_text}

-- Where a function stands: the lines of its file, each with its line break, and its first and last line.
pub record Source : Type 0 where
  pub lines : List Bytes
  pub linedefined : ℕ
  pub lastlinedefined : ℕ

-- All but the last byte.
abbrev pub init : Bytes → Bytes
init [] = []
init (c ∷ []) = []
init (c ∷ d ∷ s) = c ∷ init (d ∷ s)

-- `luaL_gsub`, of a line break by a line break and four spaces.
abbrev pub indent : Bytes → Bytes
indent [] = []
indent (c ∷ s) = if c == b'\n' then codes "\n    " ++ indent s else c ∷ indent s

abbrev bool_text : Bool → Bytes
bool_text true = codes "True"
bool_text false = codes "False"

-- `t_tst_cse_pushTapDetail`, for a field that is a string.
unfoldable pub push_tap_detail : Bytes → Option Bytes → Bytes
push_tap_detail m none = []
push_tap_detail m (some text) = indent (codes "\n" ++ (m ++ (codes ": " ++ text)))

abbrev pub bool_field : Option Bool → Option Bytes
bool_field none = none
bool_field (some b) = some (bool_text b)

abbrev pub testtype_text : Testtype → Bytes
testtype_text standard = codes "standard"
testtype_text callback = codes "callback"
testtype_text coroutine = codes "coroutine"

-- `lua_concat`
abbrev pub concat : List Bytes → Bytes
concat [] = []
concat (s ∷ ss) = s ++ concat ss

-- What `%d` makes of a number.
module _ (decimal : ℕ → Bytes) where
  -- The loop of `t_tst_cse_getFuncSource`, where `r` lines are read.
  abbrev pub read_source : List Bytes → ℕ → ℕ → ℕ → Bytes
  read_source [] r first last = []
  read_source (line ∷ lines) r first last =
      let rest = read_source lines (suc r) first last in
      if ltb r last
      then (if ltb (suc r) first
          then rest
          else init (codes "\n        " ++ (decimal (r + 1) ++ (codes ": " ++ line))) ++ rest)
      else []

  -- `t_tst_cse_getFuncSource`, where the source file can be opened: a null pointer of `fopen` is used unchecked.
  unfoldable pub get_func_source : Source → Bytes
  get_func_source s = codes "\n    source:" ++ read_source s.lines 0 s.linedefined s.lastlinedefined

  -- What `t_tst_cse_addTapDiagnostic` puts on the stack.
  abbrev pub tap_pieces : Source → Case → List Bytes
  tap_pieces s c =
      codes "\n    ---"
      ∷ push_tap_detail (codes "description") (some c.description)
      ∷ push_tap_detail (codes "testtype") (some (testtype_text c.testtype))
      ∷ push_tap_detail (codes "pass") (bool_field c.pass)
      ∷ push_tap_detail (codes "skip") c.skip
      ∷ push_tap_detail (codes "todo") c.todo
      ∷ push_tap_detail (codes "message") c.message
      ∷ push_tap_detail (codes "location") c.location
      ∷ push_tap_detail (codes "traceback") c.traceback
      ∷ get_func_source s
      ∷ codes "\n    ...\n"
      ∷ []

  -- `t_tst_cse_addTapDiagnostic`
  unfoldable pub tap_diagnostic : Source → Case → Bytes
  tap_diagnostic s c = concat (tap_pieces s c)

  -- `lt_tst_cse__tostring`
  unfoldable pub case_tostring : Source → Case → Bytes
  case_tostring s c = get_description c ++ (codes "\n" ++ tap_diagnostic s c)

  module _ (source : Case → Source) where
    -- The line of a case that has run, with what follows it.
    abbrev pub run_line : ℕ → Case → Bool → Bytes
    run_line i c pass =
        (if pass then codes "ok" else codes "not ok")
        ++ (codes " "
            ++ (decimal (i + 1)
                ++ (codes " - "
                    ++ (get_description c
                        ++ (if not pass && not (has_text c.todo)
                            then tap_diagnostic (source c) c
                            else [])))))

    -- The lines of one case.
    abbrev pub case_lines : ℕ → Case → Bytes
    case_lines i c =
        (elim c.pass [
          | none ↦ codes "not run - " ++ get_description c
          | some pass ↦ run_line i c pass
        ])
        ++ codes "\n"

    abbrev pub all_lines : ℕ → List Case → Bytes
    all_lines i [] = []
    all_lines i (c ∷ cs) = case_lines i c ++ all_lines (suc i) cs

    -- `lt_tst__tostring`. The first line is put out with the first case.
    unfoldable pub tostring : Suite → Bytes
    tostring ste = elim ste.cases [
      | [] ↦ []
      | c ∷ cs ↦
          codes "1.." ++ (decimal (length ste.cases) ++ (codes "\n" ++ all_lines 0 ste.cases))
    ]
