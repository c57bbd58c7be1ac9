-- ===== src/Tst/Cases.antt =====
-- src/t_tst_cse.c: a test case is created, marked, pruned, and given what an error says.
use lua_t.Prelude.{
  cstring, begins_with, ℕ, ◌+◌, ◌-◌, ◌≡◌, refl, Bool, true, false, List, [], ◌∷◌, ◌++◌, Option,
  none, some, Bytes, codes, ltb, ◌==◌, ◌&&◌, if◌then◌else◌, length, take, drop, arith,
}
use lua_t.Prelude.Result.{Result, ok, fault}
use lua_t.Tst.{
  Testtype, standard, callback, coroutine, Fields, Raised, string, table, other, Note, todo,
  describe, Function, Case,
}

-- ASCII, without case.
abbrev lower : ℕ → ℕ
lower c = if ltb 64 c && ltb c 91 then c + 32 else c

-- `0 == strncasecmp( name, prefix, length of prefix )`
abbrev pub begins_as : Bytes → Bytes → Bool
begins_as name [] = true
begins_as [] (p ∷ prefix) = false
begins_as (c ∷ name) (p ∷ prefix) = (lower c == lower p) && begins_as name prefix

abbrev pub testtype_of : Bytes → Testtype
testtype_of name =
    if begins_as name (codes "test_cb_")
    then callback
    else if begins_as name (codes "test_cr_")
    then coroutine
    else standard

-- `t_tst_cse_create`, of a string and a function.
unfoldable pub create : Bytes → Function → Case
create name function = record {
  testtype = testtype_of name;
  function = function;
  description = name;
  pass = none;
  skip = none;
  todo = none;
  message = none;
  location = none;
  traceback = none;
  execution_time = none;
}

-- `t_tst_cse_prune`
unfoldable pub prune : Case → Case
prune c = record c {
  pass = none;
  skip = none;
  todo = none;
  message = none;
  location = none;
  traceback = none;
  execution_time = none;
}

-- `T_TST_CSE_SKIPINDICATOR`
abbrev pub skip_indicator : Bytes
skip_indicator = codes "<test_case_skip_indicator>:"

-- `strchr( text, ':' )`, moved on by one: the text behind the first colon, if there is one in front of the first
-- zero byte.
abbrev pub behind_colon : Bytes → Option Bytes
behind_colon [] = none
behind_colon (c ∷ s) =
    let rest = behind_colon s in if c == b':' then some s else if c == 0 then none else rest

abbrev pub no_fields : Fields
no_fields = record {
  description = none;
  pass = none;
  skip = none;
  todo = none;
  message = none;
  location = none;
  traceback = none;
}

-- The string error with a position in front: `after` is what follows its second colon, where the
-- pointer is moved over the colon and one more byte, and must not be behind the end. What is copied from there
-- ends at a zero byte.
abbrev pub split_error : Bytes → Bytes → Bytes → Result Fields
split_error trace loc [] = fault
split_error trace loc (space ∷ msg) =
    if begins_with (cstring msg) skip_indicator
    then ok (record no_fields {
      skip = some (drop (length skip_indicator) (cstring msg));
      pass = some true;
    })
    else ok (record no_fields {
      pass = some false;
      message = some (cstring msg);
      location = some (take (length loc - length msg - 2) loc);
      traceback = some trace;
    })

abbrev pub located_error : Bytes → Bytes → Option Bytes → Result Fields
located_error trace loc none = fault
located_error trace loc (some after) = split_error trace loc after

-- What is left of the string behind its first colon.
abbrev pub string_error : Bytes → Bytes → Bytes → Option Bytes → Result Fields
string_error place trace loc none =
    ok (record no_fields { message = some loc; location = some place; traceback = some trace })
string_error place trace loc (some line) = located_error trace loc (behind_colon line)

-- `t_tst_cse_traceback`, then what is read from its result as a table of fields. `place` is what
-- `luaL_where` says, and `trace` what `luaL_traceback` says. A value that is neither string nor table is
-- handed on, and is no table to go through.
unfoldable pub traceback_of : Bytes → Bytes → Raised → Result Fields
traceback_of place trace (string loc) = string_error place trace loc (behind_colon loc)
traceback_of place trace (table fields) = ok (record fields { traceback = some trace })
traceback_of place trace other = fault

abbrev or_keep {ℓ} : {A : Type ℓ} → Option A → Option A → Option A
or_keep none old = old
or_keep (some a) old = some a

abbrev pub or_default {ℓ} : {A : Type ℓ} → Option A → A → A
or_default none old = old
or_default (some a) old = a

-- The loop that copies the elements of the error to the case.
abbrev pub copy_fields : Fields → Case → Case
copy_fields f c = record c {
  description = or_default f.description c.description;
  pass = or_keep f.pass c.pass;
  skip = or_keep f.skip c.skip;
  todo = or_keep f.todo c.todo;
  message = or_keep f.message c.message;
  location = or_keep f.location c.location;
  traceback = or_keep f.traceback c.traceback;
}

-- `lt_tst_cse_Todo` and `lt_tst_cse_Describe`, called by the test of the case.
abbrev pub note : Case → Note → Case
note c (todo reason) = record c { todo = some reason }
note c (describe text) = record c { description = text }

abbrev pub take_notes : Case → List Note → Case
take_notes c [] = c
take_notes c (n ∷ ns) = take_notes (note c n) ns

abbrev pub prefix_with : ℕ → Option Bytes → Option Bytes
prefix_with c none = none
prefix_with c (some s) = some (c ∷ s)

-- The text that `luaL_error` makes of a format string with nothing behind it, where the flag says that a
-- per cent sign came before: two of them stand for one, and any other use is not allowed, as an
-- argument is read that is not there. The format ends at a zero byte.
abbrev pub format : Bool → Bytes → Option Bytes
format false [] = some []
format true [] = none
format false (c ∷ s) =
    if c == 0 then some [] else if c == b'%' then format true s else prefix_with c (format false s)
format true (c ∷ s) = if c == b'%' then prefix_with c (format false s) else none

abbrev raise_located : Bytes → Bytes → Option Bytes → Option Raised
raise_located file line none = none
raise_located file line (some msg) =
    some (string (file ++ (b':' ∷ (line ++ (b':' ∷ (b' ' ∷ msg))))))

-- `lt_tst_cse_Skip`, called at a position: what it raises.
unfoldable pub skip_error : Bytes → Bytes → Bytes → Option Raised
skip_error file line reason = raise_located file line (format false (skip_indicator ++ reason))

-- `t_tst_cse_hasField`, for a field that is no boolean.
abbrev pub has_text : Option Bytes → Bool
has_text none = false
has_text (some text) = true

-- The same for `pass`.
abbrev pub has_pass : Option Bool → Bool
has_pass none = false
has_pass (some b) = b

abbrev pub mark : Bytes → Option Bytes → Bytes
mark text none = []
mark text (some reason) = text ++ reason

-- `t_tst_cse_getDescription`
unfoldable pub get_description : Case → Bytes
get_description c =
    c.description ++ (mark (codes " # SKIP: ") c.skip ++ mark (codes " # TODO: ") c.todo)

-- A text without a colon, and one that is without zero bytes as well.
abbrev pub Plain : Bytes → Type 0
Plain [] = Unit
Plain (c ∷ s) = ((c == b':') ≡ false) × Plain s

abbrev pub IsName : Bytes → Type 0
IsName [] = Unit
IsName (c ∷ s) = ((c == b':') ≡ false) × ((c == 0) ≡ false) × IsName s

pub behind_colon-append :
    (file rest : Bytes) → IsName file → behind_colon (file ++ (b':' ∷ rest)) ≡ some rest
behind_colon-append [] rest p = refl
behind_colon-append (c ∷ file) rest p = ground (arith, p.0, p.1, behind_colon-append file rest p.2)

pub behind_colon-Plain : (s : Bytes) → Plain s → behind_colon s ≡ none
behind_colon-Plain [] p = refl
behind_colon-Plain (c ∷ s) p = ground (arith, p.0, behind_colon-Plain s p.1)
