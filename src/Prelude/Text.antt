-- ===== src/Prelude/Text.antt =====
-- Byte strings: a Lua string, a C string and a buffer are lists of numbers below 256.
use Prim.Native.Nat.{ℕ}
use Prim.Native.Char.{code}
use Prim.Native.String.{String}
use mathlib.Core.List.{List, [], ◌∷◌, ◌++◌}
use mathlib.Core.Path.{◌≡◌, refl, ap}
use mathlib.Core.Bool.{Bool, true, false, ◌&&◌}
use lua_t.Prelude.Tests.{◌==◌, if◌then◌else◌}
use lua_t.Prelude.Lists.{length, take, drop}

abbrev pub Bytes : Type 0
Bytes = List ℕ

-- The code points of a text: its bytes, if it is ASCII.
abbrev pub codes : String → Bytes
codes String.[] = []
codes (String.◌∷◌ c s) = code c ∷ codes s

-- `n` bytes from index `i` on.
abbrev pub slice : Bytes → ℕ → ℕ → Bytes
slice s i n = take n (drop i s)

pub take-length-append : (b c : Bytes) → take (length b) (b ++ c) ≡ b
take-length-append [] c = refl
take-length-append (x ∷ b) c = ap (◌∷◌ x) (take-length-append b c)

-- The middle of three parts, by its position and length.
pub slice-append : (a b c : Bytes) → slice (a ++ (b ++ c)) (length a) (length b) ≡ b
slice-append [] b c = take-length-append b c
slice-append (x ∷ a) b c = slice-append a b c

-- `0 == strncmp( prefix, text, length of prefix )`
abbrev pub begins_with : Bytes → Bytes → Bool
begins_with s [] = true
begins_with [] (p ∷ prefix) = false
begins_with (c ∷ s) (p ∷ prefix) = (c == p) && begins_with s prefix

-- The bytes up to the first zero: what a C function sees of a text, and what `lua_pushstring` copies.
abbrev pub cstring : Bytes → Bytes
cstring [] = []
cstring (c ∷ cs) = let rest = cstring cs in if c == 0 then [] else c ∷ rest
