-- ===== src/Numarray/Tests.antt =====
-- Runs of the arrays, and the theorems at inputs.
use lua_t.Prelude.{
  ℕ, ◌<◌, ◌+◌, ◌-◌, ◌^◌, ◌/◌, ◌≡◌, ◌↔◌, refl, arith, [], ◌∷◌, some, ltb, ◌==◌, true, false,
  if◌then◌else◌,
}
use lua_t.Prelude.Int.{pos, negsuc}
use lua_t.Prelude.Word.{int_of_integer}
use lua_t.Prelude.Result.{ok, argument}
use lua_t.Numarray.{
  Numarray, integer, other, call, index, getelem, iter, pairs_from, reverse, eq, len,
}
use lua_t.Numarray.Reverse.{AllInt, reverse_values, reverse-reverse}
use lua_t.Numarray.Iterate.{entries, pairs_from-entries, eq_iff}

-- The array 7, -2, 9.
abbrev three : Numarray
three = record { len = 3; v = λ k. if k == 0 then pos 7 else if k == 1 then negsuc 1 else pos 9 }

-- The array 2 ^ 32 + 1, 5.
abbrev wide : Numarray
wide = record { len = 2; v = λ k. if k == 0 then pos (2 ^ 32 + 1) else pos 5 }

reads : index three (pos 2) ≡ ok (negsuc 1)
unfolding index getelem
reads = refl

out_of_range : index three (pos 4) ≡ argument 2
unfolding index getelem
out_of_range = refl

below_range : index three (negsuc 0) ≡ argument 2
unfolding index getelem
below_range = refl

second_not_integer : call (integer (pos 1) ∷ other ∷ []) ≡ argument 2
unfolding call
second_not_integer = refl

size_negative : call (integer (negsuc 3) ∷ []) ≡ argument 1
unfolding call
size_negative = refl

reversed : (reverse three).v 0 ≡ pos 9
unfolding reverse
reversed = refl

cut_to_int : (reverse wide).v 1 ≡ pos 1
unfolding reverse
cut_to_int = refl

goes_through : pairs_from 4 three 0 ≡ some ((1, pos 7) ∷ (2, negsuc 1) ∷ (3, pos 9) ∷ [])
unfolding pairs_from iter
goes_through = refl

differ : eq three wide ≡ false
unfolding eq
differ = refl

length_three : len three ≡ pos 3
length_three = refl

reverse_values_example :
    ((reverse wide).len ≡ 2)
    × ((k : ℕ)
        → k < 2
        → (reverse wide).v k ≡ (
            if ltb k (2 / 2)
            then wide.v (2 - 1 - k)
            else if ltb (2 - 1 - 2 / 2) k
            then int_of_integer (wide.v (2 - 1 - k))
            else wide.v k))
reverse_values_example = reverse_values wide

three-AllInt : AllInt three
three-AllInt k h = ground arith

reverse-reverse_example :
    ((reverse three).v 0 ≡ pos 9)
    × ((reverse (reverse three)).v 0 ≡ pos 7)
    × ((reverse (reverse three)).len ≡ 3)
reverse-reverse_example = reverse-reverse three 0 three-AllInt (omega arith)

pairs_from-entries_example : pairs_from 4 three 0 ≡ some (entries 3 0 three.v)
pairs_from-entries_example = pairs_from-entries three 3 0 (omega arith) (omega arith)

eq_iff_example :
    (eq three wide ≡ true) ↔ ((three.len ≡ wide.len) × ((k : ℕ) → k < 3 → three.v k ≡ wide.v k))
eq_iff_example = eq_iff three wide
