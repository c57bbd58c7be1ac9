-- ===== src/Prelude/Word.antt =====
-- C's integer types, as `size_t` (64 bits), `lua_Integer` (64 bits), `int` (32 bits) and a signed
-- `char`: an unsigned value is a number below its modulus, a signed one an integer. A conversion
-- keeps the bit pattern; overflow of a signed sum is taken to wrap, as on two's complement machines.
use lua_t.Prelude.{ℕ, ◌+◌, ◌-◌, ◌%◌, ◌^◌, ltb, if◌then◌else◌}
use lua_t.Prelude.Int.{ℤ, pos, negsuc, ◌+ℤ◌, ◌-ℤ◌}

-- `(size_t) z`
abbrev pub size_of : ℤ → ℕ
size_of (pos n) = n % 2 ^ 64
size_of (negsuc n) = 2 ^ 64 - 1 - n % 2 ^ 64

-- The `lua_Integer` of a 64-bit pattern.
abbrev pub signed64 : ℕ → ℤ
signed64 w = if ltb w (2 ^ 63) then pos w else negsuc (2 ^ 64 - w - 1)

-- An exact result, kept in 64 bits.
abbrev pub wrap64 : ℤ → ℤ
wrap64 z = signed64 (size_of z)

-- Sum and difference of two `lua_Integer`s.
abbrev pub add64 : ℤ → ℤ → ℤ
add64 a b = wrap64 (a +ℤ b)

abbrev pub sub64 : ℤ → ℤ → ℤ
sub64 a b = wrap64 (a -ℤ b)

-- Sum of two `size_t`s.
abbrev pub add_size : ℕ → ℕ → ℕ
add_size a b = (a + b) % 2 ^ 64

abbrev pub sub_size : ℕ → ℕ → ℕ
sub_size a b = (a + 2 ^ 64 - b) % 2 ^ 64

-- `(int) n`
abbrev pub int_of : ℕ → ℤ
int_of n = if ltb (n % 2 ^ 32) (2 ^ 31) then pos (n % 2 ^ 32) else negsuc (2 ^ 32 - n % 2 ^ 32 - 1)

-- `int i = z`, for a `lua_Integer` z.
abbrev pub int_of_integer : ℤ → ℤ
int_of_integer z = int_of (size_of z)

-- The value of a `char` that holds the byte `c`.
abbrev pub char_of : ℕ → ℤ
char_of c = if ltb c 128 then pos c else negsuc (255 - c)

-- The byte that is stored for `z`.
abbrev pub byte_of : ℤ → ℕ
byte_of z = size_of z % 256
