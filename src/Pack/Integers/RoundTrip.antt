-- ===== src/Pack/Integers/RoundTrip.antt =====
-- What is stored is read back.
use lua_t.Prelude.{
  ℕ, zero, suc, ◌+◌, ◌-◌, ◌*◌, ◌/◌, ◌%◌, ◌^◌, ◌<◌, ◌≤◌, ◌≡◌, refl, sym, ◌∙◌, ap, arith, Bool, true,
  false, not, ◌&&◌, leb, ltb, if◌then◌else◌, Bool-cases, ◌⊎◌, inl, inr, Bytes, length, slice, take,
  length-take,
}
use lua_t.Prelude.Int.{ℤ}
use lua_t.Prelude.Result.{Result, ok, argument, ◌>>◌, argcheck}
use lua_t.Pack.{Atom, is_signed, is_big, object, integer_of, store_bytes, copy_bytes}
use lua_t.Pack.Integers.{
  is_bitwise, is_negative, push, pattern_of, width, set_bits, set_int, get_int,
}
use lua_t.Pack.Integers.Binary.{digit}
use lua_t.Pack.Integers.Bits.{bit, IsBytes, set_bits_lem}
use lua_t.Pack.Integers.Read.{load_lem, get_int_bits}
use lua_t.Pack.Integers.Sign.{fits, IsInteger, pattern-lt, push-pattern, width-fits}
use lua_t.Pack.Integers.Aligned.{
  stored, store_bytes_lem, length-stored, slice-stored, stored-kept, integer_of-take,
  length-copy_bytes, copy_bytes-copy_bytes,
}

-- What the memory holds once the checks have passed.
write : Bytes → ℕ → Atom → ℕ → ℕ → Result Bytes
write b at p ofs val =
    if is_bitwise p ofs
    then set_bits p.s b at ofs val
    else store_bytes b at (copy_bytes (take (p.s / 8) (object 8 val)) (is_big p.m))

one_less : (c : Bool) (n : ℕ) → (if c then n - 1 else n) ≤ n
one_less true n = omega arith
one_less false n = omega arith

guarded : (c : Bool) (r : Result Bytes) → (argcheck c 2 >> r) ≡ (if c then r else argument 2)
guarded true r = refl
guarded false r = refl

length-object : (n v : ℕ) → length (object n v) ≡ n
length-object zero v = refl
length-object (suc n) v = ap suc (length-object n (v / 256))

length-taken : (k n v : ℕ) → k ≤ n → length (take k (object n v)) ≡ k
length-taken k n v h = omega (arith, h, length-take k (object n v), length-object n v)

whole_bytes : (s val : ℕ) → s % 8 ≡ 0 → val < 2 ^ s → val < 2 ^ (8 * (s / 8))
whole_bytes s val e h = let f : 8 * (s / 8) ≡ s = omega (arith, e) in rw f h

aligned : (p : Atom) (ofs : ℕ) → is_bitwise p ofs ≡ false → (ofs ≡ 0) × (p.s % 8 ≡ 0)
aligned p ofs h = ground (arith, h)

-- Bytes that are copied into the buffer, and out of it the same way.
module _ (p : Atom) (b src : Bytes) (at ofs : ℕ) (bitwise : is_bitwise p ofs ≡ false)
    (size : length src ≡ p.s / 8) (high : p.s < 64) (inside : at + p.s / 8 ≤ length b) where
  copied : Bytes
  copied = copy_bytes src (is_big p.m)

  length-copied : length copied ≡ p.s / 8
  unfolding copied
  length-copied = length-copy_bytes src (is_big p.m) ∙ size

  room : at + length copied ≤ length b
  room = omega (arith, inside, length-copied)

  copy-copied : copy_bytes copied (is_big p.m) ≡ src
  unfolding copied
  copy-copied = copy_bytes-copy_bytes src (is_big p.m)

  store_bytes-copied : store_bytes b at (copy_bytes src (is_big p.m)) ≡ ok (stored b at copied room)
  unfolding copied
  store_bytes-copied = store_bytes_lem b at copied room

  get_int-stored : get_int (stored b at copied room) at p ofs ≡ ok (push p (integer_of src))
  unfolding get_int
  get_int-stored =
      let test : leb (p.s / 8) 8 ≡ true = ground (arith, high) in
      rw
        (
          bitwise,
          load_lem (stored b at copied room) at (p.s / 8)
              (omega (arith, inside, length-stored b at copied room)),
          test,
        )
        (ap (λ v. ok (push p (integer_of (copy_bytes v (is_big p.m)))))
            (ap (slice (stored b at copied room) at) (sym length-copied)
              ∙ slice-stored b at copied room)
          ∙ ap (λ v. ok (push p (integer_of v))) copy-copied)

  bits_kept :
      (k : ℕ) → (k < 8 * at) ⊎ (8 * (at + p.s / 8) ≤ k) → bit (stored b at copied room) k ≡ bit b k
  bits_kept k h =
      ap (λ c. digit c (7 - k % 8))
        (stored-kept b at copied room (k / 8) (elim h [
          | inl x ↦ inl (omega (arith, x))
          | inr x ↦ inr (omega (arith, x, length-copied))
        ]))

write-aligned :
    (b : Bytes) (at : ℕ) (p : Atom) (ofs val : ℕ)
    → is_bitwise p ofs ≡ false
    → write b at p ofs val
      ≡ store_bytes b at (copy_bytes (take (p.s / 8) (object 8 val)) (is_big p.m))
unfolding write
write-aligned b at p ofs val e = rw e refl

module _ (p : Atom) (low : 1 ≤ p.s) (high : p.s < 64) where
  width-le : (i : ℤ) → width p i ≤ p.s
  width-le i = one_less (is_signed p.m && ltb p.s 64 && not (is_negative p i)) p.s

  set_int-write :
      (b : Bytes) (at ofs : ℕ) (i : ℤ)
      → IsInteger i
      → set_int b at p ofs i ≡ (if fits p i then write b at p ofs (pattern_of p i) else argument 2)
  unfolding set_int write
  set_int-write b at ofs i h =
      let w : ltb (width p i) 64 ≡ true = ground (arith, width-le i, high) in
      rw (w, width-fits p low high i h) (guarded (fits p i) _)

  -- The bits of a value: where the packer lies in the buffer, how many and which.
  written :
      (b : Bytes) (at ofs val : ℕ)
      → IsBytes b
      → p.s + ofs ≤ 64
      → 8 * at + ofs + p.s ≤ 8 * length b
      → val < 2 ^ p.s
      → (c : Bytes) × (write b at p ofs val ≡ ok c)
        × (get_int c at p ofs ≡ ok (push p val))
        × (length c ≡ length b)
        × ((k : ℕ) → (k < 8 * at + ofs) ⊎ (8 * at + ofs + p.s ≤ k) → bit c k ≡ bit b k)
  unfolding write
  written b at ofs val bytes small inside h = elim (Bool-cases (is_bitwise p ofs)) [
    | inl e ↦
        let (c, set, len, cbytes, digits, kept) = set_bits_lem p.s b at ofs val bytes inside in
        (
          c,
          rw e set,
          get_int_bits c at ofs val p cbytes e low small (omega (arith, inside, len)) h digits,
          len,
          kept,
        )
    | inr e ↦
        let even : (ofs ≡ 0) × (p.s % 8 ≡ 0) = aligned p ofs e in
        let src : Bytes = take (p.s / 8) (object 8 val) in
        let n : length src ≡ p.s / 8 = length-taken (p.s / 8) 8 val (omega (arith, high)) in
        let value : integer_of src ≡ val =
          integer_of-take (p.s / 8) 8 val (omega (arith, high)) (whole_bytes p.s val even.1 h) in
        let fit : at + p.s / 8 ≤ length b = omega (arith, inside, even) in
        let r = room p b src at ofs e n high fit in
        (
          stored b at (copied p b src at ofs e n high fit) r,
          write-aligned b at p ofs val e ∙ store_bytes-copied p b src at ofs e n high fit,
          get_int-stored p b src at ofs e n high fit ∙ ap (λ v. ok (push p v)) value,
          length-stored b at _ r,
          λ k x. bits_kept p b src at ofs e n high fit k (elim x [
            | inl y ↦ inl (omega (arith, y, even))
            | inr y ↦ inr (omega (arith, y, even))
          ]),
        )
  ]

-- An integer that fits the packer is stored, whatever the order of bytes and wherever it begins,
-- and read back from there; the length of the buffer and each bit outside are as before. The
-- conditions: the buffer holds bytes, the packer has from 1 to 63 bits, which end within 64 bits of
-- the byte where they begin, and they lie in the buffer.
pub get_int-set_int :
    (p : Atom) (b : Bytes) (at ofs : ℕ) (i : ℤ)
    → 1 ≤ p.s
    → p.s < 64
    → p.s + ofs ≤ 64
    → 8 * at + ofs + p.s ≤ 8 * length b
    → IsBytes b
    → IsInteger i
    → fits p i ≡ true
    → (c : Bytes) × (set_int b at p ofs i ≡ ok c)
      × (get_int c at p ofs ≡ ok i)
      × (length c ≡ length b)
      × ((k : ℕ) → (k < 8 * at + ofs) ⊎ (8 * at + ofs + p.s ≤ k) → bit c k ≡ bit b k)
get_int-set_int p b at ofs i low high small inside bytes h f =
    let (c, set, get, len, kept) =
      written p low high b at ofs (pattern_of p i) bytes small inside
        (pattern-lt p low high i h f) in
    (
      c,
      set_int-write p low high b at ofs i h ∙ rw f set,
      get ∙ ap ok (push-pattern p low high i h f),
      len,
      kept,
    )

-- An integer that does not fit a packer of 1 to 63 bits is refused: the error is raised for the
-- second argument, and nothing is written.
pub set_int_refused :
    (p : Atom) (b : Bytes) (at ofs : ℕ) (i : ℤ)
    → 1 ≤ p.s
    → p.s < 64
    → IsInteger i
    → fits p i ≡ false
    → set_int b at p ofs i ≡ argument 2
set_int_refused p b at ofs i low high h f = set_int-write p low high b at ofs i h ∙ rw f refl
