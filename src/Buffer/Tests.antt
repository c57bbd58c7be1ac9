-- ===== src/Buffer/Tests.antt =====
-- The theorems on buffers at a store with one buffer and one segment of it.
use lua_t.Prelude.{
  ℕ, zero, suc, ◌+◌, ◌-◌, ◌<◌, ◌≤◌, refl, ◌≡◌, List, [], ◌∷◌, some, none, Bool, true, false, List,
  [], ◌∷◌, Option, Bytes, codes, length, slice, arith,
}
use lua_t.Prelude.Int.{ℤ, pos, negsuc}
use lua_t.Buffer.{Store, seg, ok, argument, IsValid, IsSmall}
use lua_t.Buffer.Segments.{set, shift, next}
use lua_t.Buffer.Segments.Range.{moved, set_lem, set-IsValid, shift_lem, next_lem}
use lua_t.Buffer.Access.{read, write, newindex}
use lua_t.Buffer.Access.Newindex.{newindex_behind}
use lua_t.Buffer.Access.Memory.{written}
use lua_t.Buffer.Access.Write.{read-write, read_inside}

-- Every slot holds the same ten bytes, every segment begins at the third and is four bytes long.
abbrev ten : Store
ten = record {
  bufs = λ i. record { len = 10; b = codes "0123456789" };
  segs = λ j. record { idx = 3; len = 4; buffer = 0 };
}

ten-IsValid : IsValid ten
ten-IsValid = record { recorded = λ i. refl; inside = λ j. omega arith }

ten-IsSmall : IsSmall ten
ten-IsSmall = λ i. omega arith

set_lem_example : set ten 1 (pos 9) (pos 3) ≡ argument 2
set_lem_example = set_lem ten 1 (pos 9) (pos 3) ten-IsSmall (omega arith) (omega arith)

shift_lem_run : shift ten 1 (pos 2) ≡ ok (moved ten 1 5 4)
unfolding lua_t.Prelude.Int.◌+ℤ◌
shift_lem_run = shift_lem ten 1 (pos 2) ten-IsSmall ten-IsValid (omega arith)

next_lem_run : next ten 1 ≡ ok (true, moved ten 1 7 4)
next_lem_run = next_lem ten 1 ten-IsSmall ten-IsValid

nine_two : set ten 1 (pos 9) (pos 2) ≡ ok (moved ten 1 9 2)
unfolding set
nine_two = refl

set-IsValid_run : IsValid (moved ten 1 9 2) × (moved ten 1 9 2 ≡ moved ten 1 9 2)
set-IsValid_run =
    set-IsValid ten 1 (pos 9) (pos 2) ten-IsSmall (omega arith) (omega arith) ten-IsValid nine_two

read-write_example :
    (s' : Store) × (write ten (seg 1) (codes "xy") (some (pos 3)) none ≡ ok s')
    × IsValid s'
    × (read s' (seg 1) (some (pos 3)) (some (pos 2)) ≡ ok (codes "xy"))
read-write_example =
    read-write ten (seg 1) (codes "xy") 3 tt ten-IsValid ten-IsSmall (omega arith) (omega arith)
      (omega arith)

read_inside_example :
    (i n : ℕ) × (i + n ≤ 4)
    × (read ten (seg 1) (some (negsuc 7)) (some (pos 90))
        ≡ ok (slice (codes "0123456789") (2 + i) n))
read_inside_example =
    read_inside ten (seg 1) (some (negsuc 7)) (some (pos 90)) tt ten-IsValid ten-IsSmall
      (omega arith) (omega arith)

newindex_behind_run : newindex ten 0 (pos 4) (pos 65) ≡ ok (written ten 0 4 (65 ∷ []))
newindex_behind_run =
    newindex_behind ten 0 4 65 ten-IsValid ten-IsSmall (omega arith) (omega arith) (omega arith)
      (omega arith)
