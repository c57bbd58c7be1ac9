-- ===== src/Buffer/Segments/Fields.antt =====
-- src/t_buf_seg.c: the fields of a segment, and its bytes by index.
use lua_t.Prelude.{
  ℕ, ◌-◌, Bool, true, false, ◌&&◌, ◌||◌, [], ◌∷◌, Bytes, ◌==◌, if◌then◌else◌, get_or, codes,
}
use lua_t.Prelude.Int.{ℤ, pos, ltb_ℤ, pos_part}
use lua_t.Prelude.Word.{
  size_of, signed64, add_size, sub_size, int_of, int_of_integer, char_of, byte_of,
}
use lua_t.Buffer.{Store, Result, ok, argument, ◌>>=◌, ◌>>◌, argcheck, at, load_place, store_place}
use lua_t.Buffer.Segments.{leb_ℤ, set}

-- What indexing a segment gives; `method` is what its metatable has.
pub data Value : Type 0 where
  nil : Value
  integer : ℤ → Value
  buffer : ℕ → Value
  method : Bytes → Value

-- `0 == strncmp( key, p, length p )`: the key begins with `p`, which has no zero.
abbrev pub begins : Bytes → Bytes → Bool
begins [] key = true
begins (c ∷ p) [] = false
begins (c ∷ p) (d ∷ key) = if c == d then begins p key else false

-- `lt_buf_seg__index`, for an integer.
unfoldable pub index : Store → ℕ → ℤ → Result Value
index s j z =
    let g = s.segs j in
    let idx = int_of_integer z in
    if ltb_ℤ idx (pos 1) || ltb_ℤ (int_of g.len) idx then ok nil else (do
      c ← load_place s (at g.buffer (g.idx - 1)) (pos_part idx - 1) 1
      ok (integer (char_of (get_or c 0 0))))

-- `lt_buf_seg__index`, for a name.
unfoldable pub index_field : Store → ℕ → Bytes → Value
index_field s j key =
    let g = s.segs j in
    if begins (codes "buffer") key
    then buffer g.buffer
    else if begins (codes "start") key
    then integer (signed64 g.idx)
    else if begins (codes "size") key
    then integer (signed64 g.len)
    else if begins (codes "last") key
    then integer (signed64 (sub_size (add_size g.idx g.len) 1))
    else method key

-- `lt_buf_seg__newindex`, for an integer.
unfoldable pub newindex : Store → ℕ → ℤ → ℤ → Result Store
newindex s j zi val = do
  let g = s.segs j
  let idx = int_of_integer zi
  argcheck (ltb_ℤ (pos 0) idx && leb_ℤ idx (int_of g.len)) 2
  argcheck (leb_ℤ (pos 0) val && leb_ℤ val (pos 255)) 3
  store_place s (at g.buffer (g.idx - 1)) (pos_part idx - 1) (byte_of val ∷ [])

-- `lt_buf_seg__newindex`, for a name.
unfoldable pub newindex_field : Store → ℕ → Bytes → ℤ → Result Store
unfolding set
newindex_field s j key val =
    let g = s.segs j in
    if begins (codes "start") key
    then set s j val (signed64 (sub_size (add_size g.len g.idx) (size_of val)))
    else if begins (codes "size") key
    then set s j (signed64 g.idx) val
    else if begins (codes "last") key
    then set s j (signed64 g.idx) (signed64 (sub_size (size_of val) g.idx))
    else argument 2
