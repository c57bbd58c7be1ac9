-- ===== src/Buffer/Access/Hex.antt =====
-- src/t_buf_l.c: a buffer as text.
use lua_t.Prelude.{
  ℕ, zero, suc, ◌/◌, ◌%◌, ◌^◌, [], ◌∷◌, ◌++◌, Bytes, if◌then◌else◌, ◌==◌, codes, get_or,
}

-- `hexChars[ n ]`
abbrev pub hex_char : ℕ → ℕ
hex_char n = get_or (codes "0123456789ABCDEF") n 0

-- `lt_buf_toHexString`: two digits for a byte, and a space between two bytes.
unfoldable pub to_hex : Bytes → Bytes
to_hex [] = []
to_hex (c ∷ []) = hex_char (c / 16 % 16) ∷ hex_char (c % 16) ∷ []
to_hex (c ∷ d ∷ cs) = hex_char (c / 16 % 16) ∷ hex_char (c % 16) ∷ b' ' ∷ to_hex (d ∷ cs)

-- The inner loop of `lt_buf_toBinString`: the digits of the bits below `x`.
abbrev pub bits : ℕ → ℕ → Bytes
bits zero c = []
bits (suc x) c = (if c / 2 ^ x % 2 == 1 then b'1' else b'0') ∷ bits x c

-- `lt_buf_toBinString`: eight digits and a space for each byte.
unfoldable pub to_bin : Bytes → Bytes
to_bin [] = []
to_bin (c ∷ cs) = bits 8 c ++ b' ' ∷ to_bin cs
