-- ===== src/Http/Headers.antt =====
-- src/t_htp_req.c: the headers of a request. A pointer into the data is the text from there on, and the
-- difference of two pointers is that of their lengths.
pub mod Lines
pub mod Parts
pub mod Block
use lua_t.Prelude.{
  ℕ, ◌+◌, ◌-◌, ◌*◌, Bool, true, false, ◌&&◌, ◌||◌, List, [], ◌∷◌, ◌++◌, map, Option, none, some,
  Bytes, codes, ltb, ◌==◌, if◌then◌else◌, length, get_or, take, drop,
}
use lua_t.Prelude.Int.{ℤ}
use lua_t.Prelude.Word.{signed64, size_of, char_of, add_size, sub_size}
use lua_t.Http.{eat_lws}
use lua_t.Prelude.Result.{Result, ok, fault, ◌>>=◌}

-- `tolower`, of ASCII
abbrev pub lower : ℕ → ℕ
lower c = if ltb 64 c && ltb c 91 then c + 32 else c

-- What the headers set in the request, and the table of headers: its assignments to names, in order, and
-- the one to index 0.
pub record Head : Type 0 where
  pub expect : Bool
  pub content_length : Option ℤ
  pub keep_alive : Option Bool
  pub tls : Bool
  pub upgrade : Bool
  pub headers : List (Bytes × Bytes)
  pub line : Option Bytes

-- The loop over the digits of a length, in a `size_t`.
abbrev pub digits : ℕ → Bytes → ℕ
digits cl [] = cl
digits cl (c ∷ v) = digits (add_size (cl * 10) (sub_size (size_of (char_of c)) b'0')) v

-- The switch on the first letter of a connection's value; without a case the assignment finds neither key
-- nor value on the stack, nor a table.
abbrev pub connection : Head → ℕ → Result Head
connection h c =
    if c == b'c'
    then ok (record h { keep_alive = some false })
    else if c == b'k'
    then ok (record h { keep_alive = some true })
    else if c == b't'
    then ok (record h { tls = true })
    else if c == b'u'
    then ok (record h { upgrade = true })
    else fault

-- The switch of `t_htp_req_handleHeader`: the first letter of the key, its length, and the value.
unfoldable pub relevant : Head → ℕ → ℕ → Bytes → Bytes → Result Head
relevant h c lk v value =
    if c == b'e'
    then ok (record h { expect = true })
    else if c == b'c'
    then (if lk == 14
        then ok (record h { content_length = some (signed64 (digits 0 value)) })
        else if lk == 10
        then connection h (lower (get_or v 0 0))
        else ok h)
    else ok h

-- What is stored, by the lengths of key and value.
unfoldable pub handle_parts : Head → Bytes → Bytes → ℕ → ℕ → Result Head
unfolding relevant
handle_parts h k v lk lv = do
  h' ← relevant h (lower (get_or k 0 0)) lk v (take lv v)
  ok (record h' { headers = h'.headers ++ ((map lower (take lk k), take lv v) ∷ []) })

-- `t_htp_req_handleHeader`
unfoldable pub handle_header : Head → Bytes → Bytes → Bytes → Bytes → Result Head
unfolding handle_parts
handle_header h k c v e =
    handle_parts h k v (length k - length c)
      (if get_or e 0 0 == b'\r' then length v - length e - 2 else length v - length e - 1)

-- `enum t_htp_rs`, and the white space in front of a value, which `eat_lws` runs over.
pub data Mode : Type 0 where
  ky space vl : Mode

-- The pointers of the loop.
pub record Reader : Type 0 where
  pub k : Bytes
  pub c : Bytes
  pub v : Bytes
  pub mode : Mode
  pub head : Head

-- `enum t_htp_req_state`
pub data Stage : Type 0 where
  zero method uri version headers body done : Stage

abbrev pub same : Bytes → Bytes → Bool
same [] [] = true
same (a ∷ s) (b ∷ t) = (a == b) && same s t
same s t = false

-- `lua_rawget` of "content-length" in the table of headers: its values are strings, never integers.
abbrev pub has_key : List (Bytes × Bytes) → Bytes → Bool
has_key [] key = false
has_key (h ∷ hs) key = let rest = has_key hs key in if same h.0 key then true else rest

-- A round goes on, or it is the last, with the state of the request and the data behind the headers.
pub data Round : Type 0 where
  next : Reader → Round
  stop : Head → Stage → Bytes → Round

-- What the end of a line does with the line.
abbrev pub end_line : Reader → Bytes → Result Head
end_line st e = elim st.mode [
  | ky ↦ ok (record st.head { line = some (take (length st.k - length e - 1) st.k) })
  | _ ↦ handle_header st.head st.k st.c st.v e
]

abbrev pub stage_of : Head → Stage
stage_of h = if has_key h.headers (codes "content-length") then body else done

-- The end of a line, with the next character and what follows it. Three characters behind the line
-- break may be behind the terminator of the data, where the length of the rest is no `size_t`.
abbrev pub line_break : Reader → Bytes → ℕ → Bytes → Result Round
line_break st e y r = end_line st e >>= λ h.
    if y == b'\n'
    then ok (stop h (stage_of h) (y ∷ r))
    else if y == b'\r'
    then (elim r [ [] ↦ fault | z ∷ rest ↦ ok (stop h (stage_of h) rest) ])
    else ok (next (record st { k = y ∷ r; mode = ky; head = h }))

abbrev pub is_lws : ℕ → Bool
is_lws c = c == b' ' || c == b'\r' || c == b'\n'

-- A round of the loop at `x`, which has `y` and `r` behind it.
unfoldable pub round : Reader → ℕ → ℕ → Bytes → Result Round
unfolding handle_header
round st x y r = elim st.mode [
  | space ↦ if is_lws x then ok (next st) else ok (next (record st { v = x ∷ y ∷ r; mode = vl }))
  | ky ↦
      if x == b'\n'
      then (if y == b' ' then ok (next st) else line_break st (x ∷ y ∷ r) y r)
      else if x == b':'
      then ok (next (record st { c = x ∷ y ∷ r; mode = space }))
      else ok (next st)
  | vl ↦
      if x == b'\n'
      then (if y == b' ' then ok (next st) else line_break st (x ∷ y ∷ r) y r)
      else ok (next st)
]

-- The loop, with what it has set; `none` if there is not enough data. The last character is not looked at.
abbrev pub read_headers : Bytes → Reader → Result (Head × Option (Stage × Bytes))
read_headers [] st = ok (st.head, none)
read_headers (x ∷ []) st = ok (st.head, none)
read_headers (x ∷ y ∷ r) st = round st x y r >>= λ q. elim q [
  | next st' ↦ read_headers (y ∷ r) st'
  | stop h stage rest ↦ ok (h, some (stage, rest))
]

-- `t_htp_req_parseHeaders`
unfoldable pub parse_headers : Head → Bytes → Result (Head × Option (Stage × Bytes))
parse_headers h data_in =
    let r = eat_lws data_in in read_headers r (record { k = r; c = r; v = r; mode = ky; head = h })
