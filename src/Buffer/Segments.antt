-- ===== src/Buffer/Segments.antt =====
-- src/t_buf_seg.c
pub mod Fields
pub mod Range
use lua_t.Prelude.{
  ℕ, zero, suc, ◌+◌, ◌-◌, ◌*◌, Bool, true, false, ◌&&◌, List, [], ◌∷◌, Option, none, some, Bytes,
  ltb, leb, ◌==◌, if◌then◌else◌, length, codes,
}
use lua_t.Prelude.Int.{ℤ, pos, negsuc, ◌+ℤ◌, ◌-ℤ◌, ltb_ℤ}
use lua_t.Prelude.Word.{size_of, signed64, add64, sub64, add_size, sub_size, int_of}
use lua_t.Buffer.{
  Buffer, Segment, Store, Result, ok, argument, fault, ◌>>=◌, ◌>>◌, argcheck, update,
}

abbrev pub leb_ℤ : ℤ → ℤ → Bool
leb_ℤ a b = if ltb_ℤ b a then false else true

-- `t_buf_seg_set`, for the segment `j` and its buffer.
unfoldable pub set : Store → ℕ → ℤ → ℤ → Result Store
unfolding ◌+ℤ◌ ◌-ℤ◌
set s j idx len = do
  let blen = (s.bufs (s.segs j).buffer).len
  argcheck (leb_ℤ (pos 1) idx && leb (size_of idx) blen) 1
  argcheck (leb_ℤ (pos 0) len && leb (size_of (idx +ℤ len -ℤ pos 1)) blen) 2
  ok (record s {
    segs =
        update s.segs j
          (record { idx = size_of idx; len = size_of len; buffer = (s.segs j).buffer });
  })

-- `lt_buf_seg__Call`: segment `j` is the new userdata, `i` the buffer; the index and the length
-- may be left out.
unfoldable pub call : Store → ℕ → ℕ → Option ℤ → Option ℤ → Result Store
unfolding set
call s j i idx? len? =
    let idx : ℤ = elim idx? [ none ↦ pos 1 | some idx ↦ idx ] in
    let len : ℤ = elim len? [
      | none ↦ add64 (sub64 (int_of (s.bufs i).len) idx) (pos 1)
      | some len ↦ len
    ] in
    set (record s { segs = update s.segs j (record { idx = 0; len = 0; buffer = i }) }) j idx len

-- `lt_buf_seg_shift`: the sum is one of `size_t`.
unfoldable pub shift : Store → ℕ → ℤ → Result Store
unfolding set
shift s j val =
    let g = s.segs j in set s j (signed64 (add_size g.idx (size_of val))) (signed64 g.len)

-- `lt_buf_seg_next`: the segment behind the current one, as long as that or as the buffer allows.
unfoldable pub next : Store → ℕ → Result (Bool × Store)
unfolding set
next s j =
    let g = s.segs j in
    let blen = (s.bufs g.buffer).len in
    if ltb blen (add_size g.idx g.len) then ok (false, s) else (do
      let room =
          if ltb blen (add_size g.idx (2 * g.len))
          then add_size (sub_size (sub_size blen g.idx) g.len) 1
          else g.len
      s' ← set s j (signed64 (add_size g.idx g.len)) (signed64 room)
      ok (true, s'))
