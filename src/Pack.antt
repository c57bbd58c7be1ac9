-- ===== src/Pack.antt =====
-- src/t_pck_l.h: packers, which describe how values stand in a buffer.
pub mod Integers
pub mod Atoms
pub mod Trees
pub mod Format
pub mod Methods
mod Tests
use lua_t.Prelude.{
  ℕ, zero, suc, ◌+◌, ◌-◌, ◌*◌, ◌/◌, ◌%◌, Bool, not, List, [], ◌∷◌, ◌++◌, none, some, Bytes, leb,
  ◌==◌, if◌then◌else◌, length, get_elem?, get_or, take, drop, slice,
}
use lua_t.Prelude.Result.{Result, ok, fault, ◌>>=◌}

-- The atomic ones of `enum t_pck_t`.
pub data Kind : Type 0 where
  bool : Kind
  int : Kind
  float : Kind
  raw : Kind

-- `struct t_pck`, for an atomic packer: `s` is its size in bits, `m` its modifier.
pub record Atom : Type 0 where
  pub t : Kind
  pub s : ℕ
  pub m : ℕ

-- `T_PCK_ISSIGNED`
abbrev pub is_signed : ℕ → Bool
is_signed m = m % 2 == 1

-- `T_PCK_ISBIG`
abbrev pub is_big : ℕ → Bool
is_big m = m / 2 % 2 == 0

-- The memory of an unsigned integer of `n` bytes, on a little-endian machine.
abbrev pub object : ℕ → ℕ → Bytes
object zero v = []
object (suc n) v = v % 256 ∷ object n (v / 256)

-- The integer that stands in such a memory.
abbrev pub integer_of : Bytes → ℕ
integer_of [] = 0
integer_of (c ∷ b) = c + 256 * integer_of b

-- `n` bytes of `b`, from index `at` on.
abbrev pub load : Bytes → ℕ → ℕ → Result Bytes
load b at n = if leb (at + n) (length b) then ok (slice b at n) else fault

abbrev pub byte : Bytes → ℕ → Result ℕ
byte b i = elim (get_elem? b i) [ none ↦ fault | some c ↦ ok c ]

-- `src` in the place of the bytes of `b` from index `at` on.
abbrev pub store_bytes : Bytes → ℕ → Bytes → Result Bytes
store_bytes b at src =
    if leb (at + length src) (length b)
    then ok (take at b ++ (src ++ drop (at + length src) b))
    else fault

-- The two loops of `t_pck_copyBytes` on a little-endian machine, with `sz` bytes to go.
abbrev pub copy_down : ℕ → Bytes → Bytes
copy_down zero src = []
copy_down (suc sz) src = get_or src sz 0 ∷ copy_down sz src

abbrev pub copy_up : ℕ → ℕ → Bytes → Bytes
copy_up len zero src = []
copy_up len (suc sz) src = get_or src (len - 1 - sz) 0 ∷ copy_up len sz src

-- `t_pck_copyBytes`: what `dst` holds afterwards.
unfoldable pub copy_bytes : Bytes → Bool → Bytes
copy_bytes src is_little =
    if is_little then copy_down (length src) src else copy_up (length src) (length src) src
