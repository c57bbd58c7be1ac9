-- ===== src/Buffer/Segments/Range.antt =====
-- Where a segment may be moved to.
use lua_t.Prelude.{
  ℕ, ◌+◌, ◌-◌, ◌*◌, ◌^◌, ◌≤◌, ◌<◌, ◌≡◌, true, false, ltb, ◌==◌, if◌then◌else◌, arith, min,
  Bool-cases, inl, inr,
}
use lua_t.Prelude.Int.{ℤ, pos, negsuc, ◌+ℤ◌, ltb_ℤ, pos_part, neg_part}
use lua_t.Prelude.Word.{size_of, signed64, add_size, sub_size}
use lua_t.Buffer.{Buffer, Segment, Store, ok, argument, update, IsValid, IsSmall}
use lua_t.Buffer.Segments.{set, shift, next}

abbrev pub owner : Store → ℕ → Buffer
owner s j = s.bufs (s.segs j).buffer

-- The store in which segment `j` begins at `i` and has `l` bytes.
abbrev pub moved : Store → ℕ → ℕ → ℕ → Store
moved s j i l = record s {
  segs = update s.segs j (record { idx = i; len = l; buffer = (s.segs j).buffer });
}

-- A `lua_Integer`
abbrev pub IsInteger : ℤ → Type 0
IsInteger z = (pos_part z < 2 ^ 63) × (neg_part z ≤ 2 ^ 63)

-- With small buffers and any two integers, `t_buf_seg_set` accepts a segment that begins at a byte of the buffer and ends in it, blames the
-- first argument for any other start, and the second for any other length.
pub set_lem :
    (s : Store) (j : ℕ) (idx len : ℤ)
    → IsSmall s
    → IsInteger idx
    → IsInteger len
    → set s j idx len ≡ (
        if ltb_ℤ idx (pos 1)
        then argument 1
        else if ltb (owner s j).len (pos_part idx)
        then argument 1
        else if ltb_ℤ len (pos 0)
        then argument 2
        else if ltb ((owner s j).len + 1) (pos_part idx + pos_part len)
        then argument 2
        else ok (moved s j (pos_part idx) (pos_part len)))
unfolding set
set_lem s j (pos i) (pos l) h hi hl = ground (arith, h (s.segs j).buffer)
set_lem s j (pos i) (negsuc l) h hi hl = ground (arith, h (s.segs j).buffer)
set_lem s j (negsuc i) len h hi hl = ground (arith, h (s.segs j).buffer)

-- Segment `g` lies in a buffer of `n` bytes.
abbrev Inside : Segment → ℕ → Type 0
Inside g n = (1 ≤ g.idx) × (g.idx ≤ n) × (g.idx + g.len ≤ n + 1)

update-Inside :
    (segs : ℕ → Segment) (bufs : ℕ → Buffer) (j : ℕ) (g : Segment)
    → ((k : ℕ) → Inside (segs k) (bufs (segs k).buffer).len)
    → Inside g (bufs g.buffer).len
    → (k : ℕ) → Inside (update segs j g k) (bufs (update segs j g k).buffer).len
update-Inside segs bufs j g h hg k = elim (Bool-cases (j == k)) [
  | inl e ↦ rw e hg
  | inr e ↦ rw e (h k)
]

moved-IsValid :
    (s : Store) (j i l : ℕ)
    → IsValid s
    → Inside (record { idx = i; len = l; buffer = (s.segs j).buffer }) (owner s j).len
    → IsValid (moved s j i l)
moved-IsValid s j i l v h = record {
  recorded = v.recorded;
  inside =
      update-Inside s.segs s.bufs j (record { idx = i; len = l; buffer = (s.segs j).buffer })
        v.inside h;
}

-- With small buffers, what `t_buf_seg_set` lets through of two integers keeps a valid store valid, and
-- moves the segment to them.
pub set-IsValid :
    (s : Store) (j : ℕ) (idx len : ℤ) {s' : Store}
    → IsSmall s
    → IsInteger idx
    → IsInteger len
    → IsValid s
    → set s j idx len ≡ ok s'
    → IsValid s' × (s' ≡ moved s j (pos_part idx) (pos_part len))
set-IsValid s j idx len {s'} h hi hl v e =
    let (here, same) = accepted in (rw same (moved-IsValid s j _ _ v here), same)
  where
    accepted :
        Inside
          (record { idx = pos_part idx; len = pos_part len; buffer = (s.segs j).buffer })
          (owner s j).len
        × (s' ≡ moved s j (pos_part idx) (pos_part len))
    accepted = ground (arith, set_lem s j idx len h hi hl)

-- In a valid store of small buffers `seg:shift( n )` moves a segment as a whole: where it succeeds, the start has moved by n, the length
-- has not changed, and the segment still lies in its buffer; else the error names an argument.
pub shift_lem :
    (s : Store) (j : ℕ) (val : ℤ)
    → IsSmall s
    → IsValid s
    → IsInteger val
    → let i = pos (s.segs j).idx +ℤ val in
      shift s j val ≡ (
        if ltb_ℤ i (pos 1)
        then argument 1
        else if ltb (owner s j).len (pos_part i)
        then argument 1
        else if ltb ((owner s j).len + 1) (pos_part i + (s.segs j).len)
        then argument 2
        else ok (moved s j (pos_part i) (s.segs j).len))
unfolding shift ◌+ℤ◌
shift_lem s j val h v hv =
    let g = s.segs j in
    ground (
      arith,
      h g.buffer,
      v.inside j,
      set_lem s j (signed64 (add_size g.idx (size_of val))) (signed64 g.len) h,
    )

-- In a valid store of small buffers `seg:next( )` moves a segment right behind itself: it keeps its length, or ends with the buffer
-- where less is left; it answers false, and moves nothing, if no byte is left.
pub next_lem :
    (s : Store) (j : ℕ)
    → IsSmall s
    → IsValid s
    → let g = s.segs j in
      let n = (owner s j).len in
      next s j ≡ (
        if ltb n (g.idx + g.len)
        then ok (false, s)
        else ok (true, moved s j (g.idx + g.len) (min g.len (n + 1 - (g.idx + g.len)))))
unfolding next
next_lem s j h v =
    let g = s.segs j in
    let n = (owner s j).len in
    let i : signed64 (add_size g.idx g.len) ≡ pos (g.idx + g.len) =
      ground (arith, h g.buffer, v.inside j) in
    let l : (g.idx + g.len ≤ n)
        → signed64 (
            if ltb n (add_size g.idx (2 * g.len))
            then add_size (sub_size (sub_size n g.idx) g.len) 1
            else g.len)
          ≡ pos (min g.len (n + 1 - (g.idx + g.len))) =
      λ k. ground (arith, h g.buffer, v.inside j) in
    elim (Bool-cases (ltb n (g.idx + g.len))) [
      | inl e ↦ ground (arith, h g.buffer, v.inside j)
      | inr e ↦ ground (
        arith,
        h g.buffer,
        v.inside j,
        i,
        l,
        set_lem s j (pos (g.idx + g.len)) (pos (min g.len (n + 1 - (g.idx + g.len)))) h,
      )
    ]
