-- ===== src/Pack/Format.antt =====
-- src/t_pck__format.c: format strings, which name atomic packers by letters. A `short` has two bytes, an
-- `int` and a `float` four, the other types eight.
pub mod Valid
use lua_t.Prelude.{
  ℕ, zero, suc, ◌+◌, ◌-◌, ◌*◌, ◌^◌, Bool, true, false, ◌&&◌, ◌||◌, List, [], ◌∷◌, Option, none,
  some, Bytes, ltb, leb, ◌==◌, if◌then◌else◌, length,
}
use lua_t.Prelude.Result.{Result, ok, error, ◌>>=◌}
use lua_t.Pack.{Atom, Kind, bool, int, float, raw}
use lua_t.Pack.Trees.{Packer, atomic}

-- `T_PCK_ISDIGIT`
abbrev pub is_digit : ℕ → Bool
is_digit c = leb b'0' c && leb c b'9'

-- `MAXSIZE`
abbrev pub maxsize : ℕ
maxsize = 2 ^ 31 - 1

-- The loop of `t_pck_parseSize`.
abbrev pub parse_digits : Bytes → ℕ → ℕ × Bytes
parse_digits [] a = (a, [])
parse_digits (c ∷ fmt) a =
    let rest = parse_digits fmt (a * 10 + (c - b'0')) in
    if is_digit c && ltb a 268435454 then rest else (a, c ∷ fmt)

-- `t_pck_parseSize`: the size, and what is left of the format.
abbrev pub parse_size : Bytes → ℕ → ℕ × Bytes
parse_size [] dft = (dft, [])
parse_size (c ∷ fmt) dft = if is_digit c then parse_digits (c ∷ fmt) 0 else (dft, c ∷ fmt)

-- `t_pck_getSizeFromFormat`
abbrev pub get_size_from_format : Bytes → ℕ → ℕ → Result (ℕ × Bytes)
get_size_from_format fmt dft max =
    let sz = parse_size fmt dft in if ltb max sz.0 || sz.0 == 0 then error else ok sz

-- The macro `C`: a packer of a kind, size and modifier, and what is left of the format.
abbrev pub create : Kind → Bool → Bool → ℕ × Bytes → Atom × Bytes
create t ltl sgn sz =
    (record { t = t; s = sz.0; m = (if ltl then 2 else 0) + (if sgn then 1 else 0) }, sz.1)

-- As many bytes as the format says.
abbrev pub create_bytes : Kind → Bool → Bool → ℕ × Bytes → Atom × Bytes
create_bytes t ltl sgn sz = create t ltl sgn (sz.0 * 8, sz.1)

-- The letters that stand for a packer.
unfoldable pub option : ℕ → Bytes → Bool → Result (Atom × Bytes)
option c f ltl =
    if c == b'b'
    then ok (create int ltl true (8, f))
    else if c == b'B'
    then ok (create int ltl false (8, f))
    else if c == b'h'
    then ok (create int ltl true (16, f))
    else if c == b'H'
    then ok (create int ltl false (16, f))
    else if c == b'l' || c == b'j'
    then ok (create int ltl true (64, f))
    else if c == b'L' || c == b'J' || c == b'T'
    then ok (create int ltl false (64, f))
    else if c == b'i'
    then (do sz ← get_size_from_format f 4 8; ok (create_bytes int ltl true sz))
    else if c == b'I'
    then (do sz ← get_size_from_format f 4 8; ok (create_bytes int ltl false sz))
    else if c == b'f'
    then ok (create float ltl false (32, f))
    else if c == b'd' || c == b'n'
    then ok (create float ltl false (64, f))
    else if c == b'c'
    then (do sz ← get_size_from_format f 1 maxsize; ok (create_bytes raw false false sz))
    else if c == b'v'
    then ok (create bool false false (1, f))
    else if c == b'r'
    then (do sz ← get_size_from_format f 1 64; ok (create int false true sz))
    else if c == b'R'
    then (do sz ← get_size_from_format f 1 64; ok (create int false false sz))
    else error

-- The endianness behind a modifier or space; `none` for any other letter.
unfoldable pub modifier : ℕ → ℕ → Option ℕ
modifier c e =
    if c == b'<' then some 1 else if c == b'>' then some 0 else if c == b' ' then some e else none

-- What `t_pck_parseFmt` comes to: a packer, the rest of the format, and the endianness.
pub record Parsed : Type 0 where
  pub packer : Atom
  pub rest : Bytes
  pub e : ℕ

-- `t_pck_parseFmt`; `none` is NULL.
unfoldable pub parse_fmt : Bytes → ℕ → Result (Option Parsed)
parse_fmt [] e = ok none
parse_fmt (c ∷ f) e = elim (modifier c e) [
  | some e' ↦ parse_fmt f e'
  | none ↦
      if c == 0
      then ok none
      else (do p ← option c f (e == 1); ok (some (record { packer = p.0; rest = p.1; e = e })))
]

-- The loop of `t_pck_getPacker`, with fuel for its rounds: the packers that it creates. Each is left on the stack
-- of Lua, which has room for all of them here; the code does not ask for it.
unfoldable pub packers : ℕ → Bytes → ℕ → Option (Result (List Atom))
packers zero fmt e = none
packers (suc fuel) fmt e = elim (parse_fmt fmt e) [
  | ok (some p) ↦ elim (packers fuel p.rest p.e) [
    | none ↦ none
    | some r ↦ some (do ps ← r; ok (p.packer ∷ ps))
  ]
  | ok none ↦ some (ok [])
  | _ ↦ some error
]

-- `t_pck_getPacker`, for a format string in the default endianness: `seq_create` makes one of several.
unfoldable pub get_packer : (List Atom → Packer) → Bytes → ℕ → Option (Result Packer)
get_packer seq_create fmt e = elim (packers (suc (length fmt)) fmt e) [
  | none ↦ none
  | some r ↦ some (do
    ps ← r
    elim ps [ [] ↦ error | p ∷ [] ↦ ok (atomic p) | p ∷ q ∷ qs ↦ ok (seq_create (p ∷ q ∷ qs)) ])
]
