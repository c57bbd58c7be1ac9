-- ===== src/Buffer/Access.antt =====
-- src/t_buf_l.c and the element access of src/t_buf_seg.c: what a Lua program does with the bytes of a
-- buffer, a segment or a string.
pub mod Hex
pub mod Range
pub mod Memory
pub mod Write
pub mod Newindex
use lua_t.Prelude.{
  ℕ, zero, suc, ◌+◌, ◌-◌, ◌*◌, ◌/◌, ◌%◌, Bool, true, false, not, ◌&&◌, ◌||◌, List, [], ◌∷◌, ◌++◌,
  Option, none, some, Bytes, ltb, leb, ◌==◌, if◌then◌else◌, length, codes, get_or, drop, replicate,
}
use lua_t.Prelude.Int.{ℤ, pos, negsuc, ◌+ℤ◌, ◌-ℤ◌, ltb_ℤ, pos_part}
use lua_t.Prelude.Word.{
  size_of, signed64, wrap64, add64, sub64, add_size, sub_size, int_of, int_of_integer, char_of,
  byte_of,
}
use lua_t.Buffer.{
  Buffer, Store, Handle, buf, seg, Result, ok, argument, fault, ◌>>=◌, ◌>>◌, argcheck, update, at,
  View, tolstring, checklstring, load, load_place, store_place,
}
use lua_t.Buffer.Segments
use lua_t.Buffer.Segments.{leb_ℤ}

abbrev pub or_default : Option ℤ → ℤ → ℤ
or_default none d = d
or_default (some z) d = z

-- `t_buf_create_ud`, in slot `k`.
abbrev pub create : Store → ℕ → ℕ → Store
create s k n = record s { bufs = update s.bufs k (record { len = n; b = replicate n 0 }) }

-- How many bytes the constructor copies.
abbrev pub copied : ℤ → ℕ → ℕ
copied sz i_sz =
    if ltb_ℤ (pos i_sz) sz then i_sz else if pos_part sz == 0 then i_sz else pos_part sz

-- `lt_buf__Call`: a source, a size, or both; the new buffer is `k`.
unfoldable pub call : Store → ℕ → Handle → Option ℤ → Result Store
unfolding tolstring load_place store_place load
call s k src none = elim (tolstring s src) [
  | none ↦ ok (create s k 0)
  | some v ↦ do
    bytes ← load_place s v.place 0 v.len
    store_place (create s k v.len) (at k 0) 0 bytes
]
call s k src (some sz) = do
  argcheck (ltb_ℤ (pos 0) sz) 0
  elim (tolstring s src) [
    | none ↦ ok (create s k (pos_part sz))
    | some v ↦ do
      bytes ← load_place s v.place 0 (copied sz v.len)
      store_place (create s k (pos_part sz)) (at k 0) 0 bytes
  ]

-- `lt_buf_clear`
unfoldable pub clear : Store → Handle → Result Store
unfolding checklstring store_place
clear s h = do v ← checklstring s h 1; store_place s v.place 0 (replicate v.len 0)

-- `lua_posrelate`
abbrev pub posrelate : ℤ → ℤ → ℤ
posrelate p len = if leb_ℤ (pos 0) p then p else add64 (add64 len p) (pos 1)

-- The range that `lt_buf_read` reads, from the two arguments and the length: each step is one of its
-- lines.
abbrev pub flip_negative : ℤ → ℤ → ℤ × ℤ
flip_negative start len =
    if ltb_ℤ len (pos 0)
    then (add64 (sub64 start (sub64 (pos 0) len)) (pos 1), sub64 (pos 0) len)
    else (start, len)

abbrev pub cut_front : ℤ × ℤ → ℤ × ℤ
cut_front (start, len) =
    if ltb_ℤ start (pos 1) then (pos 1, sub64 (add64 len start) (pos 1)) else (start, len)

abbrev pub cut_back : ℤ → ℤ × ℤ → ℤ × ℤ
cut_back blen (start, len) =
    if ltb_ℤ blen (add64 start len) then (start, add64 (sub64 blen start) (pos 1)) else (start, len)

unfoldable pub read_range : ℕ → Option ℤ → Option ℤ → ℤ × ℤ
unfolding ◌+ℤ◌ ◌-ℤ◌
read_range blen start? len? =
    let start = posrelate (or_default start? (pos 1)) (pos blen) in
    let len = or_default len? (add64 (sub64 (pos blen) start) (pos 1)) in
    cut_back (pos blen) (cut_front (flip_negative start len))

-- `lt_buf_read`
unfoldable pub read : Store → Handle → Option ℤ → Option ℤ → Result Bytes
unfolding checklstring load_place load
read s h start? len? = do
  v ← checklstring s h 1
  let (start, len) = read_range v.len start? len?
  if ltb_ℤ (pos 0) len then load_place s v.place (pos_part start - 1) (pos_part len) else ok []

-- `lt_buf_write`: the text is a Lua string, which ends with a zero behind its bytes.
unfoldable pub write : Store → Handle → Bytes → Option ℤ → Option ℤ → Result Store
unfolding checklstring store_place load
write s h t idx? len? = do
  v ← checklstring s h 1
  let idx = or_default idx? (pos 1)
  argcheck v.writable 1
  let sLen = size_of (or_default len? (pos (length t)))
  argcheck (leb_ℤ (pos 1) idx && leb (size_of idx) v.len) 2
  argcheck (leb 1 sLen && leb (sub_size (add_size (size_of idx) sLen) 1) v.len) 3
  bytes ← load (t ++ 0 ∷ []) 0 sLen
  store_place s v.place (pos_part idx - 1) bytes

-- `0 == strncmp( a, b, n )`: the comparison ends at a zero.
unfoldable pub strncmp_eq : ℕ → Bytes → Bytes → Bool
strncmp_eq zero a b = true
strncmp_eq (suc n) a b =
    let c = get_or a 0 0 in
    let d = get_or b 0 0 in
    let rest = strncmp_eq n (drop 1 a) (drop 1 b) in
    if not (c == d) then false else if c == 0 then true else rest

-- `lt_buf__eq`
unfoldable pub eq : Store → Handle → Handle → Result Bool
unfolding checklstring load_place load
eq s g h = do
  v ← checklstring s g 1
  w ← checklstring s h 2
  a ← load_place s v.place 0 v.len
  b ← load_place s w.place 0 w.len
  ok (if not (v.len == w.len) then false else strncmp_eq v.len a b)

-- `lt_buf__add`, of two buffers into the new buffer `k`.
unfoldable pub add : Store → ℕ → ℕ → ℕ → Result Store
unfolding load store_place
add s k i j = do
  let a = s.bufs i
  let b = s.bufs j
  x ← load a.b 0 a.len
  y ← load b.b 0 b.len
  s' ← store_place (create s k (a.len + b.len)) (at k 0) 0 x
  store_place s' (at k 0) a.len y

-- `lt_buf__len`
unfoldable pub len : Store → Handle → Result ℕ
unfolding checklstring
len s h = do v ← checklstring s h 1; ok v.len

-- The integer case of `lt_buf__index`; `none` is nil.
unfoldable pub index : Store → ℕ → ℤ → Result (Option ℤ)
unfolding load
index s i z =
    let b = s.bufs i in
    let idx = int_of_integer z in
    if ltb_ℤ idx (pos 1) || ltb_ℤ (int_of b.len) idx
    then ok none
    else (do c ← load b.b (pos_part idx - 1) 1; ok (some (char_of (get_or c 0 0))))

-- `lt_buf__newindex`
unfoldable pub newindex : Store → ℕ → ℤ → ℤ → Result Store
unfolding store_place
newindex s i zi zv = do
  let idx = int_of_integer zi
  let val = int_of_integer zv
  argcheck (leb_ℤ (pos 0) val && leb_ℤ idx (pos 255)) 3
  argcheck (ltb_ℤ (pos 0) idx && leb_ℤ idx (int_of (s.bufs i).len)) 2
  store_place s (at i (pos_part idx)) 0 (byte_of val ∷ [])
