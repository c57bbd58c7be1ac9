-- ===== src/Buffer/Access/Memory.antt =====
-- Loading and storing bytes of a valid store.
use lua_t.Prelude.{
  ℕ, ◌+◌, ◌-◌, ◌≤◌, ◌<◌, ◌≡◌, refl, sym, ◌∙◌, true, ◌++◌, Bytes, ◌==◌, arith, length, take, drop,
  slice, slice-append, length-append, Bool-cases, inl, inr, length-take, length-drop,
}
use mathlib.Core.Option.{some}
use lua_t.Buffer.{
  Store, Handle, buf, seg, str, other, ok, at, tolstring, load, load_place, store_place, splice,
  update, IsValid, IsSmall,
}

pub length-splice :
    (b : Bytes) (off : ℕ) (new : Bytes)
    → off + length new ≤ length b
    → length (splice b off new) ≡ length b
length-splice b off new h = omega (
  arith,
  length-append (take off b) (new ++ drop (off + length new) b),
  length-append new (drop (off + length new) b),
  length-take off b,
  length-drop (off + length new) b,
)

pub slice-splice :
    (b : Bytes) (off : ℕ) (new : Bytes)
    → off + length new ≤ length b
    → slice (splice b off new) off (length new) ≡ new
slice-splice b off new h =
    let e : length (take off b) ≡ off = omega (arith, length-take off b) in
    rw e at (slice-append (take off b) new (drop (off + length new) b))

-- The store after a write to buffer `i`.
abbrev pub written : Store → ℕ → ℕ → Bytes → Store
written s i off new = record s {
  bufs = update s.bufs i (record (s.bufs i) { b = splice (s.bufs i).b off new });
}

pub store_place-at :
    (s : Store) (i off from : ℕ) (new : Bytes)
    → off + from + length new ≤ length (s.bufs i).b
    → store_place s (at i off) from new ≡ ok (written s i (off + from) new)
unfolding store_place
store_place-at s i off from new h = ground arith

len-written :
    (s : Store) (i off : ℕ) (new : Bytes) (k : ℕ)
    → ((written s i off new).bufs k).len ≡ (s.bufs k).len
len-written s i off new k = elim (Bool-cases (i == k)) [ inl e ↦ ground arith | inr e ↦ rw e ]

pub written-IsValid :
    (s : Store) (i off : ℕ) (new : Bytes)
    → off + length new ≤ length (s.bufs i).b
    → IsValid s
    → IsValid (written s i off new)
written-IsValid s i off new h v = record {
  recorded = λ k. elim (Bool-cases (i == k)) [
    | inl e ↦ rw e (v.recorded i ∙ sym (length-splice (s.bufs i).b off new h))
    | inr e ↦ rw e (v.recorded k)
  ];
  inside = λ j. rw (len-written s i off new (s.segs j).buffer) (v.inside j);
}

pub load-written :
    (s : Store) (i off : ℕ) (new : Bytes)
    → off + length new ≤ length (s.bufs i).b
    → load_place (written s i off new) (at i off) 0 (length new) ≡ ok new
unfolding load_place load
load-written s i off new h =
    ground (arith, slice-splice (s.bufs i).b off new h, length-splice (s.bufs i).b off new h)

-- The part of a buffer that a buffer or segment stands for: which, from where, how long.
abbrev pub region : Store → Handle → ℕ × ℕ × ℕ
region s (buf i) = (i, 0, (s.bufs i).len)
region s (seg j) = ((s.segs j).buffer, (s.segs j).idx - 1, (s.segs j).len)
region s h = (0, 0, 0)

abbrev pub IsTarget : Handle → Type 0
IsTarget (buf i) = Unit {0}
IsTarget (seg j) = Unit {0}
IsTarget h = ⊥

pub tolstring-region :
    (s : Store) (h : Handle)
    → IsTarget h
    → let (i, off, n) = region s h in
      tolstring s h ≡ some (record { place = at i off; len = n; writable = true })
unfolding tolstring
tolstring-region s (buf i) t = refl
tolstring-region s (seg j) t = refl
tolstring-region s (str x) t = absurd t
tolstring-region s other t = absurd t

-- It lies in the buffer's memory.
pub region_inside :
    (s : Store) (h : Handle)
    → IsTarget h
    → IsValid s
    → let (i, off, n) = region s h in off + n ≤ length (s.bufs i).b
region_inside s (buf i) t v = omega (arith, v.recorded i)
region_inside s (seg j) t v = omega (arith, v.recorded (s.segs j).buffer, v.inside j)
region_inside s (str x) t v = absurd t
region_inside s other t v = absurd t

pub region_small :
    (s : Store) (h : Handle) → IsTarget h → IsValid s → IsSmall s → (region s h).2 < 0x4000_0001
region_small s (buf i) t v m = omega (arith, m i)
region_small s (seg j) t v m = omega (arith, m (s.segs j).buffer, v.inside j)
region_small s (str x) t v m = absurd t
region_small s other t v m = absurd t

pub region-written :
    (s : Store) (h : Handle) (i off : ℕ) (new : Bytes)
    → IsTarget h
    → region (written s i off new) h ≡ region s h
region-written s (buf k) i off new t = ground (arith, len-written s i off new k)
region-written s (seg j) i off new t = refl
region-written s (str x) i off new t = refl
region-written s other i off new t = refl
