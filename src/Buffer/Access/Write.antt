-- ===== src/Buffer/Access/Write.antt =====
-- `buf:write( text, index, length )` and reading it back; what goes wrong with other arguments.
use lua_t.Prelude.{
  ℕ, ◌+◌, ◌-◌, ◌^◌, ◌≤◌, ◌<◌, ◌≡◌, sym, ◌∙◌, ap, true, false, [], ◌∷◌, ◌++◌, Option, none, some,
  Bytes, arith, length, slice, slice-append, length-append, Bool-cases, inl, inr,
}
use lua_t.Prelude.Int.{ℤ, pos, ◌+ℤ◌, ◌-ℤ◌, pos_part, ltb_ℤ}
use lua_t.Prelude.Word.{add64, sub64}
use lua_t.Buffer.Segments.{leb_ℤ}
use lua_t.Buffer.{Store, Handle, ok, at, checklstring, load, IsValid, IsSmall}
use lua_t.Buffer.Access.Memory.{
  written, store_place-at, written-IsValid, load-written, region, IsTarget, tolstring-region,
  region_inside, region-written, region_small,
}
use lua_t.Buffer.Access.Range.{IsModest, read_range_bounds}
use lua_t.Buffer.Access.{write, read, read_range, cut_back, cut_front, flip_negative, posrelate}

checklstring-region :
    (s : Store) (h : Handle) (p : ℕ)
    → IsTarget h
    → let (i, off, n) = region s h in
      checklstring s h p ≡ ok (record { place = at i off; len = n; writable = true })
unfolding checklstring
checklstring-region s h p t = rw (tolstring-region s h t, checklstring)

load_inside : (b : Bytes) (off n : ℕ) → off + n ≤ length b → load b off n ≡ ok (slice b off n)
unfolding load
load_inside b off n h = ground arith

load_string : (t : Bytes) → load (t ++ 0 ∷ []) 0 (length t) ≡ ok t
unfolding load
load_string t = ground (arith, slice-append [] t (0 ∷ []), length-append t (0 ∷ []))

write-written :
    (s : Store) (h : Handle) (t : Bytes) (i : ℕ)
    → IsTarget h
    → IsValid s
    → IsSmall s
    → let (b, off, n) = region s h in
      1 ≤ i
      → 0 < length t
      → i + length t ≤ n + 1
      → write s h t (some (pos i)) none ≡ ok (written s b (off + (i - 1)) t)
unfolding write
write-written s h t i g v m h₁ h₂ h₃ = ground (
  arith,
  checklstring-region s h 1 g,
  load_string t,
  region_inside s h g v,
  region_small s h g v m,
  store_place-at s (region s h).0 (region s h).1 (i - 1) t,
)

add64_pos : (i l : ℕ) → i + l < 2 ^ 63 → add64 (pos i) (pos l) ≡ pos (i + l)
unfolding ◌+ℤ◌
add64_pos i l h = ground arith

sub64_pos : (n i : ℕ) → i ≤ n → n < 2 ^ 63 → sub64 (pos n) (pos i) ≡ pos (n - i)
unfolding ◌-ℤ◌
sub64_pos n i h m = ground arith

cut_back_inside :
    (n i l : ℕ)
    → 1 ≤ i
    → 0 < l
    → i + l ≤ n + 1
    → n < 0x4000_0001
    → cut_back (pos n) (pos i, pos l) ≡ (pos i, pos l)
cut_back_inside n i l h₁ h₂ h₃ m = elim (Bool-cases (ltb_ℤ (pos n) (add64 (pos i) (pos l)))) [
  | inl e ↦
      let full : l ≡ n - i + 1 = ground (arith, add64_pos i l) in
      rw (e, sub64_pos n i (omega arith) (omega arith), add64_pos (n - i) 1 (omega arith))
        (ap (λ k. (pos i, pos k)) (sym full))
  | inr e ↦ rw e
]

posrelate-pos : (i n : ℕ) → posrelate (pos i) (pos n) ≡ pos i
posrelate-pos i n = let e : leb_ℤ (pos 0) (pos i) ≡ true = ground arith in rw e

flip_negative-pos : (i l : ℕ) → flip_negative (pos i) (pos l) ≡ (pos i, pos l)
flip_negative-pos i l = let e : ltb_ℤ (pos l) (pos 0) ≡ false = ground arith in rw e

cut_front-pos : (i l : ℕ) → 1 ≤ i → cut_front (pos i, pos l) ≡ (pos i, pos l)
cut_front-pos i l h = let e : ltb_ℤ (pos i) (pos 1) ≡ false = ground arith in rw e

read_range_inside :
    (n i l : ℕ)
    → 1 ≤ i
    → 0 < l
    → i + l ≤ n + 1
    → n < 0x4000_0001
    → read_range n (some (pos i)) (some (pos l)) ≡ (pos i, pos l)
unfolding read_range
read_range_inside n i l h₁ h₂ h₃ m =
    ap (λ x. cut_back (pos n) (cut_front (flip_negative x (pos l)))) (posrelate-pos i n)
    ∙ ap (λ p. cut_back (pos n) (cut_front p)) (flip_negative-pos i l)
    ∙ ap (λ p. cut_back (pos n) p) (cut_front-pos i l h₁)
    ∙ cut_back_inside n i l h₁ h₂ h₃ m

-- In a valid store of small buffers, a text of one byte or more that fits in behind index i of a buffer
-- or a segment is written there, the store stays valid, and the text is read back from there.
pub read-write :
    (s : Store) (h : Handle) (t : Bytes) (i : ℕ)
    → IsTarget h
    → IsValid s
    → IsSmall s
    → 1 ≤ i
    → 0 < length t
    → i + length t ≤ (region s h).2 + 1
    → (s' : Store) × (write s h t (some (pos i)) none ≡ ok s')
      × IsValid s'
      × (read s' h (some (pos i)) (some (pos (length t))) ≡ ok t)
unfolding read
read-write s h t i g v m h₁ h₂ h₃ =
    let b = (region s h).0 in
    let off = (region s h).1 + (i - 1) in
    let fits : off + length t ≤ length (s.bufs b).b = omega (arith, region_inside s h g v) in
    let s' = written s b off t in
    (
      s',
      write-written s h t i g v m h₁ h₂ h₃,
      written-IsValid s b off t fits v,
      let view : checklstring s' h 1
              ≡ ok (record { place = at b (region s h).1; len = (region s h).2; writable = true }) =
            rw (region-written s h b off t g) at (checklstring-region s' h 1 g) in
          rw view (
            ground (
              arith,
              read_range_inside (region s h).2 i (length t) h₁ h₂ h₃ (region_small s h g v m),
              load-written s b off t fits,
            )),
    )

-- In a valid store of small buffers, reading from a buffer or a segment gives a part of what it
-- covers: some n bytes from byte i of the region on, with i + n at most its length, whatever the start
-- and the length are below 2^58.
pub read_inside :
    (s : Store) (h : Handle) (start? len? : Option ℤ)
    → IsTarget h
    → IsValid s
    → IsSmall s
    → IsModest start?
    → IsModest len?
    → (i n : ℕ) × (i + n ≤ (region s h).2)
      × (read s h start? len? ≡ ok (slice (s.bufs (region s h).0).b ((region s h).1 + i) n))
unfolding read
read_inside s h start? len? g v m hs hl =
    let (i, l) = read_range (region s h).2 start? len? in
    rw (checklstring-region s h 1 g) (elim (Bool-cases (ltb_ℤ (pos 0) l)) [
      | inl e ↦
          let (h₁, h₂) =
            read_range_bounds (region s h).2 start? len? (omega (arith, region_small s h g v m)) hs
              hl e in
          let off = (region s h).1 + (pos_part i - 1) in
          (
            pos_part i - 1,
            pos_part l,
            omega (arith, h₁, h₂),
            rw e (
                load_inside (s.bufs (region s h).0).b off (pos_part l)
                  (omega (arith, region_inside s h g v, h₂))),
          )
      | inr e ↦ (0, 0, omega arith, rw e (λ _. ok []))
    ])
