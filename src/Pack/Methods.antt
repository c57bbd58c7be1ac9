-- ===== src/Pack/Methods.antt =====
-- src/t_pck_l.c: methods of packers, and the table that a struct is made from.
use lua_t.Prelude.{
  ℕ, suc, ◌/◌, Bool, true, false, ◌||◌, List, [], ◌∷◌, ◌++◌, Bytes, ◌==◌, if◌then◌else◌, get_or,
}
use lua_t.Prelude.Result.{Result, ok, argument, error, ◌>>◌, argcheck}
use lua_t.Pack.Trees.{
  Packer, atomic, function, array, sequence, struct, Packers, none_left, element, Fields, no_field,
  field, get_size,
}

-- `lt_pck_GetSize`: the size in bytes and in bits.
unfoldable pub size : Packer → ℕ × ℕ
size p = (get_size p / 8, get_size p)

-- `lt_pck_SetDefaultEndian` on a little-endian machine: 1 for little, 0 for big. An empty string begins
-- with its terminator.
unfoldable pub set_default_endian : Bytes → Result ℕ
set_default_endian s =
    let c = get_or s 0 0 in
    let endian = if c == b'n' then b'l' else c in
    do argcheck (endian == b'l' || endian == b'b') 1; ok (if endian == b'l' then 1 else 0)

abbrev count : Packers → ℕ
count none_left = 0
count (element p ps) = suc (count ps)

abbrev count_fields : Fields → ℕ
count_fields no_field = 0
count_fields (field k p fs) = suc (count_fields fs)

-- `lt_pck__len`
unfoldable pub len : Packer → Result ℕ
len (atomic p) = argument 1
len function = ok 0
len (array n p) = ok n
len (sequence ps) = ok (count ps)
len (struct fs) = ok (count_fields fs)

-- An argument of `t_pck_readArguments`: a table, with what `lua_next` finds first in it, if anything.
pub data Arg : Type 0 where
  pair : Bytes → Packer → Arg
  empty : Arg
  other : Arg

-- Whether the table has the key already.
unfoldable pub has_key : Bytes → List (Bytes × Packer) → Bool
has_key k [] = false
has_key k (p ∷ ps) = let rest = has_key k ps in if equal k p.0 then true else rest
  where
    equal : Bytes → Bytes → Bool
    equal [] [] = true
    equal [] (y ∷ ys) = false
    equal (x ∷ xs) [] = false
    equal (x ∷ xs) (y ∷ ys) = let rest = equal xs ys in if x == y then rest else false

-- The loop of `t_pck_readArguments`: the keys with their packers, in order; `i` arguments are done.
unfoldable pub read_arguments :
    ℕ → List Arg → List (Bytes × Packer) → Result (List (Bytes × Packer))
read_arguments i [] table = ok table
read_arguments i (pair k p ∷ args) table = elim (has_key k table) [
  | true ↦ error
  | false ↦ read_arguments (suc i) args (table ++ (k, p) ∷ [])
]
read_arguments i (empty ∷ args) table = error
read_arguments i (other ∷ args) table = argument (suc i)
