-- ===== src/Http/Url.antt =====
-- src/t_htp_req.c: the URL of a request and its query.
pub mod Render
use lua_t.Prelude.{
  ℕ, zero, suc, ◌+◌, ◌-◌, true, false, List, [], ◌∷◌, ◌++◌, Option, none, some, Bytes, ◌==◌,
  if◌then◌else◌, slice,
}
use lua_t.Prelude.Result.{Result, ok, fault, ◌>>=◌}
use lua_t.Http.{eat_lws}

-- The pointers of `t_htp_req_parseUrl`, as positions behind `u`, and what it has on the stack: keys
-- without a value, and the table of the query, with its assignments in order.
pub record Scan : Type 0 where
  pub path : Option Bytes
  pub q : Option ℕ
  pub v : ℕ
  pub keys : List Bytes
  pub query : List (Bytes × Bytes)

-- What is set in the request, and where the version begins.
pub record Url : Type 0 where
  pub path : Option Bytes
  pub url : Bytes
  pub query : Option (List (Bytes × Bytes))
  pub rest : Bytes

-- `lua_rawset` with the table at -3: there has to be one key on it.
abbrev pub assign : Scan → Bytes → Result Scan
assign st value = elim st.keys [
  | k ∷ [] ↦ ok (record st { keys = []; query = st.query ++ (k, value) ∷ [] })
  | _ ↦ fault
]

-- A character other than the space, at position `i`.
unfoldable pub step : Bytes → ℕ → ℕ → Scan → Result Scan
step s i c st =
    if c == b'?'
    then ok (record st { path = some (slice s 0 i); q = some (suc i) })
    else if c == b'='
    then (elim st.q [
      | none ↦ fault
      | some q ↦ ok (record st { keys = slice s q (i - q) ∷ st.keys; v = suc i })
    ])
    else if c == b'&'
    then (do st' ← assign st (slice s st.v (i - st.v)); ok (record st' { q = some (suc i) }))
    else ok st

-- The space behind the URL.
unfoldable pub finish : Bytes → Bytes → ℕ → Scan → Result Url
finish s rest i st = elim st.q [
  | none ↦ ok (record { path = some (slice s 0 i); url = slice s 0 i; query = none; rest = rest })
  | some q ↦ do
    st' ← assign st (slice s st.v (i - st.v))
    ok (record { path = st'.path; url = slice s 0 i; query = some st'.query; rest = rest })
]

-- The loop, from position `i` on; `none` if there is not enough data.
abbrev pub scan : Bytes → Bytes → ℕ → Scan → Result (Option Url)
scan s [] i st = ok none
scan s (c ∷ r) i st = elim (c == b' ') [
  | true ↦ do url ← finish s (c ∷ r) i st; ok (some url)
  | false ↦ do st' ← step s i c st; scan s r (suc i) st'
]

-- `t_htp_req_parseUrl`
unfoldable pub parse_url : Bytes → Result (Option Url)
parse_url data_in =
    let s = eat_lws data_in in
    scan s s 0 (record { path = none; q = none; v = 0; keys = []; query = [] })
