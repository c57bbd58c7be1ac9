-- ===== src/Pack/Atoms.antt =====
-- src/t_pck__readwrite.c: reading and writing of a single value.
pub mod Floats
pub mod Values
use lua_t.Prelude.{
  ℕ, ◌-◌, ◌/◌, ◌%◌, ◌^◌, Bool, false, Option, none, some, Bytes, leb, ◌==◌, if◌then◌else◌, length,
  set,
}
use lua_t.Prelude.Result.{Result, ok, error, ◌>>=◌, ◌>>◌, argcheck}
use lua_t.Pack.{Atom, bool, int, float, raw, load, byte, store_bytes, copy_bytes}
use lua_t.Pack.Integers.{get_int, set_int, bit_set}
use lua_t.Pack.Atoms.Values.{Value, boolean, integer, number, string, Lua}

-- `t_pck_read`: `at` is the byte where it begins, `ofs` the bit there.
unfoldable pub read : {Num : Type 0} → Lua Num → Bytes → ℕ → Atom → ℕ → Result (Value Num)
read lua b at p ofs = elim p.t [
  | bool ↦ do c ← byte b at; ok (boolean (c / 2 ^ (8 - ofs - 1) % 2 == 1))
  | int ↦ do i ← get_int b at p ofs; ok (integer i)
  | float ↦ do
    argcheck (ofs == 0) 1
    u ← load b at (p.s / 8)
    ok (number (lua.number_of (copy_bytes u (p.m == 0))))
  | raw ↦ do argcheck (ofs == 0) 1; s ← load b at (p.s / 8); ok (string s)
]

-- What an argument is converted to, or the error that is raised where it cannot be.
abbrev pub check {ℓ} : {A : Type ℓ} → Option A → Result A
check none = error
check (some a) = ok a

abbrev pub boolean_of : {Num : Type 0} → Value Num → Option Bool
boolean_of (boolean x) = some x
boolean_of v = none

-- `t_pck_write`: what the buffer holds afterwards.
unfoldable pub write : {Num : Type 0} → Lua Num → Bytes → ℕ → Atom → ℕ → Value Num → Result Bytes
write lua b at p ofs v = elim p.t [
  | bool ↦ do x ← check (boolean_of v); c ← byte b at; ok (set b at (bit_set c ofs x))
  | int ↦ do i ← check (lua.checkinteger v); set_int b at p ofs i
  | float ↦ do
    x ← check (lua.checknumber v)
    store_bytes b at (copy_bytes (lua.object_of (p.s / 8) x) false)
  | raw ↦ do
    s ← check (lua.checklstring v)
    if leb (length s) (p.s / 8) then store_bytes b at s else error
]
