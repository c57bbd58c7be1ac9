-- ===== src/Pack/Atoms/Floats.antt =====
-- Floating point numbers in a buffer.
use lua_t.Prelude.{
  ℕ, ◌+◌, ◌/◌, ◌≤◌, ◌≡◌, refl, sym, ◌∙◌, ap, arith, some, ◌==◌, Bytes, length, slice,
}
use lua_t.Prelude.Result.{ok}
use lua_t.Pack.{float, copy_bytes}
use lua_t.Pack.Integers.Read.{load_lem}
use lua_t.Pack.Integers.Aligned.{
  stored, store_bytes_lem, length-stored, slice-stored, copy_bytes-in_order,
}
use lua_t.Pack.Atoms.{read, write}
use lua_t.Pack.Atoms.Values.{Value, number, Lua}

-- The number that is read where a number was written: with a little-endian packer its memory is read
-- as it is, with a big-endian one the other way round, since writing takes no notice of the order.
-- The conditions: the value is a number, its memory has as many bytes as the packer, and they lie in the buffer.
pub read-write-number :
    {Num : Type 0} (lua : Lua Num) (b : Bytes) (at s m : ℕ) (v : Value Num) (x : Num)
    → lua.checknumber v ≡ some x
    → length (lua.object_of (s / 8) x) ≡ s / 8
    → at + s / 8 ≤ length b
    → (c : Bytes) × (write lua b at (record { t = float; s = s; m = m }) 0 v ≡ ok c)
      × (read lua c at (record { t = float; s = s; m = m }) 0
          ≡ ok (number (lua.number_of (copy_bytes (lua.object_of (s / 8) x) (m == 0)))))
unfolding read write
read-write-number lua b at s m v x checked size room =
    let o : Bytes = lua.object_of (s / 8) x in
    let fit : at + length o ≤ length b = omega (arith, size, room) in
    let c : Bytes = stored b at o fit in
    let whole : slice c at (s / 8) ≡ o = ap (slice c at) (sym size) ∙ slice-stored b at o fit in
    (
      c,
      rw (checked, copy_bytes-in_order o) (store_bytes_lem b at o fit),
      rw (load_lem c at (s / 8) (omega (arith, room, length-stored b at o fit)), whole) refl,
    )
