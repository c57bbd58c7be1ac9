-- ===== src/Pack/Tests.antt =====
-- Runs of the packers, and the theorems at inputs.
use lua_t.Prelude.{
  ℕ, zero, suc, ◌+◌, ◌*◌, ◌<◌, ◌≤◌, ◌≡◌, ◌⊎◌, refl, arith, true, false, List, [], ◌∷◌, none, some,
  Bytes, codes, ◌==◌, length,
}
use lua_t.Prelude.Int.{pos, negsuc}
use lua_t.Prelude.Result.{Result, ok, argument, fault, error}
use lua_t.Pack.{Atom, int, float, raw, bool, copy_bytes}
use lua_t.Pack.Integers.{get_int, set_int}
use lua_t.Pack.Integers.Bits.{bit, IsBytes}
use lua_t.Pack.Integers.RoundTrip.{get_int-set_int, set_int_refused}
use lua_t.Pack.Integers.Undefined.{set_int_64}
use lua_t.Pack.Atoms.{read, write}
use lua_t.Pack.Atoms.Floats.{read-write-number}
use lua_t.Pack.Atoms.Values.{
  Value, boolean, integer, number, string, table, ordered, nil, cons, Lua, end, entry,
}
use lua_t.Pack.Trees.{
  Packer, function, atomic, array, sequence, struct, none_left, element, no_field, field, get_size,
  callread, call, value,
}
use lua_t.Pack.Trees.Shape.{bits, HasShape}
use lua_t.Pack.Trees.Calls.{call-HasShape, call_behind}
use lua_t.Pack.Methods.{size, set_default_endian, len, read_arguments, has_key}
use lua_t.Pack.Format.{parse_fmt, packers, modifier, option}
use lua_t.Pack.Format.Valid.{packers-AllValid, AllValid, Holds}

-- Eleven bits with a sign, behind the first three.
abbrev eleven : Atom
eleven = record { t = int; s = 11; m = 1 }

abbrev zeros : Bytes
zeros = 0 ∷ 0 ∷ 0 ∷ []

zeros-IsBytes : IsBytes zeros
zeros-IsBytes zero = omega arith
zeros-IsBytes (suc zero) = omega arith
zeros-IsBytes (suc (suc zero)) = omega arith
zeros-IsBytes (suc (suc (suc i))) = omega arith

stores : set_int zeros 0 eleven 3 (negsuc 4) ≡ ok (31 ∷ 0xEC ∷ 0 ∷ [])
unfolding set_int
stores = refl

reads : get_int (31 ∷ 0xEC ∷ 0 ∷ []) 0 eleven 3 ≡ ok (negsuc 4)
unfolding get_int copy_bytes
reads = refl

little_endian :
    set_int zeros 1 (record { t = int; s = 16; m = 2 }) 0 (pos 258) ≡ ok (0 ∷ 2 ∷ 1 ∷ [])
unfolding set_int copy_bytes
little_endian = refl

big_endian : set_int zeros 1 (record { t = int; s = 16; m = 0 }) 0 (pos 258) ≡ ok (0 ∷ 1 ∷ 2 ∷ [])
unfolding set_int copy_bytes
big_endian = refl

formats :
    packers 8 (codes ">I2 <r5v") 1
    ≡ some (
        ok (
          record { t = int; s = 16; m = 0 }
          ∷ record { t = int; s = 5; m = 1 }
          ∷ record { t = bool; s = 1; m = 0 }
          ∷ []))
unfolding packers parse_fmt modifier option
formats = refl

size_out_of_limits : packers 4 (codes "i9") 1 ≡ some error
unfolding packers parse_fmt modifier option
size_out_of_limits = refl

-- The numbers of this machine are their bytes, and nothing is converted.
abbrev plain : Lua Bytes
plain = record {
  number_of = λ b. b;
  object_of = λ n x. x;
  checkinteger = λ v. elim v [ integer i ↦ some i | _ ↦ none ];
  checknumber = λ v. elim v [ number x ↦ some x | _ ↦ none ];
  checklstring = λ v. elim v [ string s ↦ some s | _ ↦ none ];
}

-- Two bytes, and a struct of a bit and seven bits.
abbrev pair : Packer
pair = sequence (
    element (array 2 (atomic (record { t = int; s = 8; m = 0 }))) (
      element
        (struct (
          field (codes "flag") (atomic (record { t = bool; s = 1; m = 0 }))
            (field (codes "rest") (atomic (record { t = int; s = 7; m = 0 })) no_field)))
        none_left))

reads_pair :
    callread plain pair (7 ∷ 8 ∷ 0x85 ∷ []) 0
    ≡ ok (
      table (
          cons (table (cons (integer (pos 7)) (cons (integer (pos 8)) nil))) (
            cons
              (ordered
                (entry (codes "flag") (boolean true) (entry (codes "rest") (integer (pos 5)) end)))
              nil)),
      24,
    )
unfolding callread read get_int copy_bytes
reads_pair = refl

get_int-set_int_example :
    (c : Bytes) × (set_int zeros 0 eleven 3 (negsuc 4) ≡ ok c)
    × (get_int c 0 eleven 3 ≡ ok (negsuc 4))
    × (length c ≡ length zeros)
    × ((k : ℕ) → (k < 8 * 0 + 3) ⊎ (8 * 0 + 3 + 11 ≤ k) → bit c k ≡ bit zeros k)
get_int-set_int_example =
    get_int-set_int eleven zeros 0 3 (negsuc 4) (omega arith) (omega arith) (omega arith)
      (omega arith) zeros-IsBytes (omega arith, omega arith) refl

set_int_refused_run : set_int zeros 0 eleven 3 (pos 1024) ≡ argument 2
set_int_refused_run =
    set_int_refused eleven zeros 0 3 (pos 1024) (omega arith) (omega arith)
      (omega arith, omega arith) refl

set_int_64_run : set_int zeros 0 (record { t = int; s = 64; m = 2 }) 0 (pos 1) ≡ fault
set_int_64_run = set_int_64 zeros 0 (record { t = int; s = 64; m = 2 }) 0 (pos 1) refl

read-write-number_run :
    (c : Bytes) × (write plain
        (0 ∷ 0 ∷ 0 ∷ 0 ∷ [])
        0
        (record { t = float; s = 32; m = 0 })
        0
        (number (1 ∷ 2 ∷ 3 ∷ 4 ∷ []))
      ≡ ok c)
    × (read plain c 0 (record { t = float; s = 32; m = 0 }) 0
        ≡ ok (number (copy_bytes (1 ∷ 2 ∷ 3 ∷ 4 ∷ []) (0 == 0))))
read-write-number_run =
    read-write-number plain (0 ∷ 0 ∷ 0 ∷ 0 ∷ []) 0 32 0 (number (1 ∷ 2 ∷ 3 ∷ 4 ∷ []))
      (1 ∷ 2 ∷ 3 ∷ 4 ∷ []) refl refl (omega arith)

call-HasShape_example :
    (v : Value Bytes) × (call plain pair 0 (7 ∷ 8 ∷ 0x85 ∷ []) false none ≡ ok (value v))
    × HasShape pair v
unfolding lua_t.Pack.Trees.Calls.Solid lua_t.Pack.Trees.Shape.Readable bits
call-HasShape_example =
    call-HasShape plain pair 0 (7 ∷ 8 ∷ 0x85 ∷ []) false
      (omega arith, tt, (omega arith, (omega arith, tt, (omega arith, tt, tt)), tt))
      ((λ k h. (omega arith, omega (arith, h))), ((refl, ((omega arith, omega arith), tt)), tt))
      (omega arith) (omega arith)

call_behind_run :
    call plain (atomic (record { t = int; s = 8; m = 0 })) (8 * length zeros) zeros false none
    ≡ fault
call_behind_run = call_behind plain 0 zeros false (omega arith)

packers-AllValid_example :
    (r : Result (List Atom)) × (packers (suc (length (codes "i4 >r3"))) (codes "i4 >r3") 1 ≡ some r)
    × Holds AllValid r
packers-AllValid_example = packers-AllValid (codes "i4 >r3") 1

sizes : size pair ≡ (3, 24)
unfolding size get_size
sizes = refl

native_endian : set_default_endian (codes "native") ≡ ok 1
unfolding set_default_endian
native_endian = refl

no_endian : set_default_endian (codes "middle") ≡ argument 1
unfolding set_default_endian
no_endian = refl

two_elements : len pair ≡ ok 2
unfolding len
two_elements = refl

key_twice :
    read_arguments 0
      (lua_t.Pack.Methods.pair (codes "a") function
        ∷ lua_t.Pack.Methods.pair (codes "a") function
        ∷ [])
      []
    ≡ error
unfolding read_arguments has_key
key_twice = refl
