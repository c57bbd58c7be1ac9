-- ===== src/Pack/Integers/Undefined.antt =====
-- Where the integers of src/t_pck__readwrite.c fail.
use lua_t.Prelude.{
  ℕ, ◌+◌, ◌-◌, ◌/◌, ◌<◌, ◌≤◌, ◌≡◌, refl, ap, ◌∙◌, arith, true, false, ltb, Bool-cases, inl, inr,
  Bytes, length,
}
use lua_t.Prelude.Int.{ℤ}
use lua_t.Prelude.Result.{fault}
use lua_t.Pack.{Atom, is_signed}
use lua_t.Pack.Integers.{is_bitwise, width, set_int, get_int}
use lua_t.Pack.Integers.Read.{load_lem}

width-full : (p : Atom) (i : ℤ) → ltb p.s 64 ≡ false → width p i ≡ p.s
width-full p i h = elim (Bool-cases (is_signed p.m)) [ inl e ↦ rw (e, h) refl | inr e ↦ rw e refl ]

-- Storing any integer with a packer of 64 bits shifts by 64 bits, which is undefined.
pub set_int_64 :
    (b : Bytes) (at : ℕ) (p : Atom) (ofs : ℕ) (i : ℤ) → p.s ≡ 64 → set_int b at p ofs i ≡ fault
unfolding set_int
set_int_64 b at p ofs i h =
    let full : ltb p.s 64 ≡ false = ground (arith, h) in
    let w : width p i ≡ p.s = width-full p i full in
    let wide : ltb (width p i) 64 ≡ false = ap (λ n. ltb n 64) w ∙ full in rw wide refl

-- Bits that end beyond 64 bits behind the byte where they begin are read by copying nine bytes into a
-- value of eight. The conditions: the packer has up to 64 bits, and the bytes lie in the buffer.
get_int_nine :
    (b : Bytes) (at : ℕ) (p : Atom) (ofs : ℕ)
    → p.s ≤ 64
    → ofs < 8
    → 64 < p.s + ofs
    → at + 9 ≤ length b
    → get_int b at p ofs ≡ fault
unfolding get_int
get_int_nine b at p ofs s o h inside =
    let bitwise : is_bitwise p ofs ≡ true = ground (arith, s, h) in
    let n : (p.s + ofs - 1) / 8 + 1 ≡ 9 = omega (arith, s, o, h) in
    rw (bitwise, n, load_lem b at 9 inside) refl
