-- ===== src/Csv.antt =====
-- src/t_csv_l.c and src/t_csv_l.h: the parser of one CSV record, a finite state machine that walks
-- a C string with pointers. A pointer is an index into the line; a read outside the line and its
-- terminating zero is a fault, the `none` of these functions, and so is an overflow of the count.
pub mod Split
pub mod Safe
pub mod Render
mod Pieces
mod Items
pub mod RoundTrip
mod Tests
use lua_t.Prelude.{
  cstring, ℕ, zero, suc, ◌+◌, ◌-◌, Bool, true, false, ◌&&◌, List, [], ◌∷◌, ◌++◌, Option, none, some,
  Bytes, leb, ltb, ◌==◌, if◌then◌else◌, length, get_or, slice, drop,
}

-- `enum t_csv_ste`
pub data State : Type 0 where
  fldbeg datqte datnkd empty qte1st qte2nd qteone qtetwo recdne : State

-- What is put into the result table: nil or a string.
pub data Field : Type 0 where
  nil : Field
  text : Bytes → Field

-- `struct t_csv_row`; `cnt` is an `int`, from 0 on, and `out` holds what was stored in the result table, each with its index.
pub record Row : Type 0 where
  pub ste : State
  pub dlm : ℕ
  pub qte : ℕ
  pub esc : ℕ
  pub dbl : Bool
  pub run : ℕ
  pub beg : ℕ
  pub len : ℕ
  pub fld : ℕ
  pub hdb : Bool
  pub hec : Bool
  pub cnt : ℕ
  pub out : List (ℕ × Field)

-- `row->ste < T_CSV_RECDNE` fails.
abbrev pub is_done : State → Bool
is_done recdne = true
is_done _ = false

abbrev pub is_fldbeg : State → Bool
is_fldbeg fldbeg = true
is_fldbeg _ = false

infixl 5 ◌>>=◌
abbrev pub ◌>>=◌ {ℓ κ} : {A : Type ℓ} {B : Type κ} → Option A → (A → Option B) → Option B
none >>= f = none
some a >>= f = f a

-- One read of the line; index `length line` is the terminating zero.
abbrev pub read : Bytes → ℕ → Option ℕ
read line i = if leb i (length line) then some (get_or line i 0) else none

-- `while ('\r' == beg[len-1] && len > 0) len--;` The test reads `beg[-1]` when `len` is 0.
unfoldable pub strip : Bytes → ℕ → ℕ → Option ℕ
strip line beg zero = if beg == 0 then none else some 0
strip line beg (suc n) = do
  c ← read line (beg + n)
  if c == b'\r' then strip line beg n else some (suc n)

-- The first number behind an `int`.
abbrev pub int_end : ℕ
int_end = 2147483648

-- `lua_rawseti( L, -2, ++(row->cnt) ); row->ste = ste;`
abbrev pub store_field : Row → State → ℕ → Field → Row
store_field row ste len f = record row {
  ste = ste;
  len = len;
  cnt = row.cnt + 1;
  out = row.out ++ ((row.cnt + 1, f) ∷ []);
}

-- The start of a field: `row->beg = row->fld = row->run; row->hdb = row->hec = row->len = 0;`
abbrev pub reset_field : Row → Row
reset_field row = record row { beg = row.run; fld = row.run; hdb = false; hec = false; len = 0 }

-- `row->len = (' ' == *(row->run)) ? row->len : row->run - row->beg`
abbrev pub progress : ℕ → Row → Row
progress c row = record row { len = if c == b' ' then row.len else row.run - row.beg }

-- `luaL_gsub( L, s, p, r )` is the Lua library's: it is a parameter.
module _ (gsub : Bytes → Bytes → Bytes → Bytes) (line : Bytes) where
  -- `lua_pushlstring`, behind `luaL_gsub` if the field has doubled quotes.
  unfoldable pub field_text : Row → ℕ → Option Field
  field_text row len =
      if leb (row.beg + len) (length line)
      then (if row.hdb
          then some (text (gsub (slice line row.beg len) (row.qte ∷ row.qte ∷ []) (row.qte ∷ [])))
          else some (text (slice line row.beg len)))
      else none

  -- What `t_csv_pushfield` puts into the table.
  unfoldable pub push_value : Row → State → Option Row
  push_value row ste =
      if row.len == 0 && is_fldbeg row.ste then some (store_field row ste row.len nil) else do
        len ← strip line row.beg row.len
        f ← field_text row len
        some (store_field row ste len f)

  -- `t_csv_pushfield`: `row->cnt` is an `int`, and `++(row->cnt)` is not defined behind 2^31 - 1.
  unfoldable pub pushfield : Row → State → Option Row
  unfolding push_value
  pushfield row ste = if ltb (row.cnt + 1) int_end then push_value row ste else none

  abbrev pub step_datnkd : ℕ → Row → Option Row
  step_datnkd c row = do
    r ←
        if row.dlm == c
        then pushfield (record row { len = row.len + 1 }) fldbeg
        else if b'\n' == c
        then pushfield (record row { len = row.len + 1 }) recdne
        else some row
    some (progress c r)

  abbrev pub step_qteone : ℕ → Row → Option Row
  step_qteone c row =
      if row.dlm == c
      then pushfield row fldbeg
      else if b'\n' == c
      then pushfield row recdne
      else if row.qte == c
      then some (record row { ste = qtetwo })
      else some (progress c row)

  -- The new field's values are reset before the tests.
  abbrev pub step_fldbeg : ℕ → Row → Option Row
  step_fldbeg c row =
      let r = reset_field row in
      if row.qte == c
      then some (record r { ste = qte1st })
      else if b' ' == c
      then some r
      else if row.dlm == c
      then pushfield r fldbeg
      else if b'\n' == c
      then pushfield r recdne
      else some (record r { ste = datnkd })

  abbrev pub step_qte2nd : ℕ → Row → Option Row
  step_qte2nd c row =
      if row.dlm == c
      then pushfield row fldbeg
      else if b'\n' == c
      then pushfield row recdne
      else if row.qte == c
      then some (record row { ste = qtetwo })
      else some row

  -- The switch of `t_csv_parse`, at the character under the runner.
  unfoldable pub step_in : State → ℕ → Row → Option Row
  step_in datnkd c row = step_datnkd c row
  step_in datqte c row =
      some (record row { len = row.run - row.beg; ste = if row.qte == c then qteone else row.ste })
  step_in qteone c row = step_qteone c row
  step_in qtetwo c row = some (record row {
    hdb = true;
    ste = if row.qte == c then qteone else datqte;
    len = row.run - row.beg;
  })
  step_in fldbeg c row = step_fldbeg c row
  step_in qte1st c row =
      some (record row { beg = row.run; ste = if row.qte == c then qte2nd else datqte })
  step_in qte2nd c row = step_qte2nd c row
  step_in empty c row = some row
  step_in recdne c row = some row

  -- `t_csv_parse`: the list is what the runner has before it, up to the terminating zero.
  unfoldable pub parse : Row → Bytes → Option Row
  parse row [] = if is_done row.ste then some row else step_in row.ste 0 row
  parse row (c ∷ cs) = elim (is_done row.ste) [
    | true ↦ some row
    | false ↦ do
      r ← step_in row.ste c row
      if c == 0 then some r else parse (record r { run = r.run + 1 }) cs
  ]

abbrev pub first_row : ℕ → ℕ → ℕ → Bool → ℕ → Row
first_row dlm qte esc dbl cnt = record {
  ste = fldbeg;
  dlm = dlm;
  qte = qte;
  esc = esc;
  dbl = dbl;
  run = 0;
  beg = 0;
  len = 0;
  fld = 0;
  hdb = false;
  hec = false;
  cnt = cnt;
  out = [];
}

-- What `lt_csv_ParseLine` returns, and what it stored in the table.
pub record Parsed : Type 0 where
  pub complete : Bool
  pub tail : Bytes
  pub count : ℕ
  pub fields : List (ℕ × Field)

abbrev pub parsed_of : Bytes → Row → Parsed
parsed_of lne row = record {
  complete = is_done row.ste;
  tail = cstring (drop row.fld lne);
  count = row.cnt;
  fields = row.out;
}

-- `lt_csv_ParseLine`: of each text argument the first byte counts. The count to begin with is one from 0 on
-- that fits an `int`; `luaL_optinteger` is cut to one without a check.
unfoldable pub parse_line :
    (Bytes → Bytes → Bytes → Bytes) → Bytes → Bytes → Bytes → Bool → Bytes → ℕ → Option Parsed
parse_line gsub dlm qte esc dbl lne cnt = do
  row ← parse gsub lne (first_row (get_or dlm 0 0) (get_or qte 0 0) (get_or esc 0 0) dbl cnt) lne
  some (parsed_of lne row)
