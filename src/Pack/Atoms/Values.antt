-- ===== src/Pack/Atoms/Values.antt =====
-- Values of Lua, and what the Lua library and the machine's floating point make of them.
use lua_t.Prelude.{ℕ, Bool, Option, Bytes}
use lua_t.Prelude.Int.{ℤ}

mutual
  -- `table` is a sequence, `ordered` an ordered hash table.
  pub data Value (Num : Type 0) : Type 0 where
    boolean : Bool → Value Num
    integer : ℤ → Value Num
    number : Num → Value Num
    string : Bytes → Value Num
    table : Values Num → Value Num
    ordered : Entries Num → Value Num

  pub data Values (Num : Type 0) : Type 0 where
    nil : Values Num
    cons : Value Num → Values Num → Values Num

  pub data Entries (Num : Type 0) : Type 0 where
    end : Entries Num
    entry : Bytes → Value Num → Entries Num → Entries Num

-- `number_of` is the number that stands in the memory of a `float` or a `double`, `object_of n` the
-- memory of the one of `n` bytes that it is converted to; the rest are the functions `luaL_check…`.
pub record Lua (Num : Type 0) : Type 0 where
  pub number_of : Bytes → Num
  pub object_of : ℕ → Num → Bytes
  pub checkinteger : Value Num → Option ℤ
  pub checknumber : Value Num → Option Num
  pub checklstring : Value Num → Option Bytes
