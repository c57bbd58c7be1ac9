-- ===== src/Pack/Integers.antt =====
-- src/t_pck__readwrite.c: integers of any number of bits up to 64.
pub mod Aligned
pub mod Binary
pub mod Bits
pub mod Read
pub mod RoundTrip
pub mod Sign
pub mod Undefined
use Prim.Native.Nat.{bit_and, bit_or, bit_xor}
use lua_t.Prelude.{
  ℕ, zero, suc, ◌+◌, ◌-◌, ◌*◌, ◌/◌, ◌%◌, ◌^◌, Bool, true, false, not, ◌&&◌, ◌||◌, Bytes, ltb, leb,
  ◌==◌, if◌then◌else◌, set, take,
}
use lua_t.Prelude.Int.{ℤ, pos, ltb_ℤ}
use lua_t.Prelude.Word.{size_of, signed64}
use lua_t.Prelude.Result.{Result, ok, fault, ◌>>=◌, ◌>>◌, argcheck}
use lua_t.Pack.{
  int, Atom, is_signed, is_big, object, integer_of, load, byte, store_bytes, copy_bytes,
}

-- Not on the borders of bytes.
abbrev pub is_bitwise : Atom → ℕ → Bool
is_bitwise p ofs = not (ofs == 0) || not (p.s % 8 == 0)

-- `lua_pushinteger`, behind the extension of the sign.
abbrev pub push : Atom → ℕ → ℤ
push p val =
    let msk = 2 ^ (p.s - 1) in
    signed64 (if is_signed p.m then (bit_xor val msk + 2 ^ 64 - msk) % 2 ^ 64 else val)

-- `t_pck_getIntValue`: `val` has eight bytes; more are written behind it.
unfoldable pub get_int : Bytes → ℕ → Atom → ℕ → Result ℤ
get_int b at p ofs =
    if is_bitwise p ofs
    then (do
      let bytes = (p.s + ofs - 1) / 8 + 1
      src ← load b at bytes
      val ← (if leb bytes 8 then ok (integer_of (copy_bytes src true)) else fault)
      let l_shft = 64 - bytes * 8 + ofs
      ok (push p (val * 2 ^ l_shft % 2 ^ 64 / 2 ^ (64 - p.s))))
    else (do
      src ← load b at (p.s / 8)
      val ← (if leb (p.s / 8) 8 then ok (integer_of (copy_bytes src (is_big p.m))) else fault)
      ok (push p val))

-- `T_PCK_BIT_SET`
abbrev pub bit_set : ℕ → ℕ → Bool → ℕ
bit_set c n v = if v then bit_or c (2 ^ (8 - n - 1)) else bit_and c (255 - 2 ^ (8 - n - 1))

-- The loop that sets the bits, with `n` of them to go.
abbrev pub set_bits : ℕ → Bytes → ℕ → ℕ → ℕ → Result Bytes
set_bits zero b at ofs val = ok b
set_bits (suc n) b at ofs val = do
  c ← byte b (at + ofs / 8)
  set_bits n (set b (at + ofs / 8) (bit_set c (ofs % 8) (val / 2 ^ n % 2 == 1))) at (suc ofs) val

-- The bits that `t_pck_setIntValue` stores, and how many there may be.
abbrev pub is_negative : Atom → ℤ → Bool
is_negative p i = is_signed p.m && ltb p.s 64 && ltb_ℤ i (pos 0)

abbrev pub pattern_of : Atom → ℤ → ℕ
pattern_of p i =
    let msk = 2 ^ (p.s - 1) in
    if is_negative p i then bit_xor ((size_of i + msk) % 2 ^ 64) msk else size_of i

abbrev pub width : Atom → ℤ → ℕ
width p i = if is_signed p.m && ltb p.s 64 && not (is_negative p i) then p.s - 1 else p.s

-- `t_pck_setIntValue`: a shift by 64 bits is undefined.
unfoldable pub set_int : Bytes → ℕ → Atom → ℕ → ℤ → Result Bytes
set_int b at p ofs i = do
  val ← (if ltb (width p i) 64 then ok (pattern_of p i) else fault)
  argcheck (val / 2 ^ width p i == 0) 2
  if is_bitwise p ofs
      then set_bits p.s b at ofs val
      else store_bytes b at (copy_bytes (take (p.s / 8) (object 8 val)) (is_big p.m))
