-- ===== src/Buffer.antt =====
-- src/t_buf.h, src/t_buf.c, src/t_buf_l.c, src/t_buf_seg.c: byte buffers, and the segments that
-- point into them. Buffers and segments are Lua userdata: several handles may name one of them, and
-- a segment keeps a reference to its buffer. So they stand in a store, and a handle is an index.
pub mod Segments
pub mod Access
mod Tests
use lua_t.Prelude.{
  ℕ, zero, suc, ◌+◌, ◌-◌, ◌<◌, ◌≤◌, ◌≡◌, Bool, true, false, List, [], ◌∷◌, ◌++◌, Option, none, some,
  Bytes, ltb, leb, ◌==◌, if◌then◌else◌, length, take, drop, slice, replicate,
}
pub use lua_t.Prelude.Result.{Result, ok, argument, fault, ◌>>=◌, ◌>>◌, argcheck}

-- `struct t_buf`: `b` are the allocated bytes, `len` the length that the struct records.
pub record Buffer : Type 0 where
  pub len : ℕ
  pub b : Bytes

-- `struct t_buf_seg`, with its uservalue, the buffer.
pub record Segment : Type 0 where
  pub idx : ℕ
  pub len : ℕ
  pub buffer : ℕ

pub record Store : Type 0 where
  pub bufs : ℕ → Buffer
  pub segs : ℕ → Segment

-- What a Lua argument may be.
pub data Handle : Type 0 where
  buf : ℕ → Handle
  seg : ℕ → Handle
  str : Bytes → Handle
  other : Handle

-- Where a `char*` points: into a buffer, or to a Lua string.
pub data Place : Type 0 where
  at : ℕ → ℕ → Place
  text : Bytes → Place

-- What `t_buf_tolstring` hands out.
pub record View : Type 0 where
  pub place : Place
  pub len : ℕ
  pub writable : Bool

abbrev pub update {ℓ} : {A : Type ℓ} → (ℕ → A) → ℕ → A → ℕ → A
update f i a j = if i == j then a else f j

-- `t_buf_tolstring`; `none` is NULL.
unfoldable pub tolstring : Store → Handle → Option View
tolstring s (buf i) = some (record { place = at i 0; len = (s.bufs i).len; writable = true })
tolstring s (seg j) = some (record {
  place = at (s.segs j).buffer ((s.segs j).idx - 1);
  len = (s.segs j).len;
  writable = true;
})
tolstring s (str t) = some (record { place = text t; len = length t; writable = false })
tolstring s other = none

-- `t_buf_checklstring`: an error unless the argument is one of the three.
unfoldable pub checklstring : Store → Handle → ℕ → Result View
unfolding tolstring
checklstring s h pos = elim (tolstring s h) [ none ↦ argument pos | some v ↦ ok v ]

-- Reading and writing `n` bytes from byte `off` of an object on.
unfoldable pub load : Bytes → ℕ → ℕ → Result Bytes
load b off n = if leb (off + n) (length b) then ok (slice b off n) else fault

unfoldable pub load_place : Store → Place → ℕ → ℕ → Result Bytes
load_place s (at i off) from n = load (s.bufs i).b (off + from) n
load_place s (text t) from n = load t from n

-- The bytes of `b` with those from `off` on replaced by `new`.
abbrev pub splice : Bytes → ℕ → Bytes → Bytes
splice b off new = take off b ++ (new ++ drop (off + length new) b)

-- Writing to the memory of a Lua string does not happen in this code; here it is a fault.
unfoldable pub store_place : Store → Place → ℕ → Bytes → Result Store
store_place s (at i off) from new =
    let b = s.bufs i in
    if leb (off + from + length new) (length b.b)
    then ok (record s { bufs = update s.bufs i (record b { b = splice b.b (off + from) new }) })
    else fault
store_place s (text t) from new = fault

-- A buffer records the length that it has, and a segment lies in its buffer.
pub record IsValid (s : Store) : Type 0 where
  pub recorded : (i : ℕ) → (s.bufs i).len ≡ length (s.bufs i).b
  pub inside :
      (j : ℕ)
      → let g = s.segs j in
        (1 ≤ g.idx) × (g.idx ≤ (s.bufs g.buffer).len) × (g.idx + g.len ≤ (s.bufs g.buffer).len + 1)

-- Buffers stay below this length, so that no sum of positions in them wraps.
abbrev pub IsSmall : Store → Type 0
IsSmall s = (i : ℕ) → (s.bufs i).len < 0x4000_0000
