-- ===== src/Numarray.antt =====
-- src/t_nry_l.c and src/t_nry_l.h: arrays of integers.
pub mod Reverse
pub mod Construct
pub mod Iterate
mod Tests
use lua_t.Prelude.{
  ℕ, zero, suc, ◌+◌, ◌-◌, ◌/◌, ◌*◌, Bool, true, false, ◌&&◌, List, [], ◌∷◌, Option, none, some, ltb,
  leb, ◌==◌, if◌then◌else◌, length,
}
use lua_t.Prelude.Int.{ℤ, pos, ltb_ℤ, eqb_ℤ, pos_part}
use lua_t.Prelude.Word.{size_of, add_size, int_of, int_of_integer}
use lua_t.Prelude.Result.{Result, ok, argument, ◌>>=◌, ◌>>◌, argcheck}

-- `struct t_nry`: of `v` only the first `len` are the array's.
pub record Numarray : Type 0 where
  pub len : ℕ
  pub v : ℕ → ℤ

-- An argument of the constructor.
pub data Arg : Type 0 where
  integer : ℤ → Arg
  array : Numarray → Arg
  other : Arg

abbrev pub store : (ℕ → ℤ) → ℕ → ℤ → (ℕ → ℤ)
store v i x k = if i == k then x else v k

-- `t_nry_create_ud`
abbrev pub create : ℕ → Numarray
create n = record { len = n; v = λ i. pos 0 }

-- The loop that copies an array.
abbrev pub copy : ℕ → ℕ → (ℕ → ℤ) → (ℕ → ℤ) → (ℕ → ℤ)
copy zero i from to = to
copy (suc n) i from to = copy n (suc i) from (store to i (from i))

-- The loop that takes each argument as a value; argument `i + 1` is the first.
abbrev pub fill : List Arg → ℕ → (ℕ → ℤ) → Result (ℕ → ℤ)
fill [] i to = ok to
fill (integer z ∷ args) i to = fill args (suc i) (store to i z)
fill (array a ∷ args) i to = argument (suc i)
fill (other ∷ args) i to = argument (suc i)

-- `lt_nry__Call`
unfoldable pub call : List Arg → Result Numarray
call [] = argument 1
call (integer sz ∷ []) = do argcheck (ltb_ℤ (pos 0) sz) 1; ok (create (size_of sz))
call (array a ∷ []) = ok (record (create a.len) { v = copy a.len 0 a.v (λ i. pos 0) })
call (other ∷ []) = argument 1
call (x ∷ y ∷ args) = do
  v ← fill (x ∷ y ∷ args) 0 (λ i. pos 0)
  ok (record { len = length (x ∷ y ∷ args); v = v })

-- `t_nry_getelem`: the index of the element.
unfoldable pub getelem : Numarray → ℤ → Result ℕ
getelem a z = do argcheck (leb 1 (size_of z) && leb (size_of z) a.len) 2; ok (size_of z - 1)

-- `lt_nry__index`, for a number.
unfoldable pub index : Numarray → ℤ → Result ℤ
index a z = do i ← getelem a z; ok (a.v i)

-- `lt_nry__newindex`
unfoldable pub newindex : Numarray → ℤ → ℤ → Result Numarray
newindex a z x = do i ← getelem a z; ok (record a { v = store a.v i x })

-- `t_nry_iter`: the next index, and the value there.
unfoldable pub iter : Numarray → ℤ → ℕ × Option ℤ
iter a z =
    let i = add_size (size_of z) 1 in if ltb a.len i then (i, none) else (i, some (a.v (i - 1)))

-- A `for` loop over `lt_nry__pairs`, with fuel for its rounds: what it is given.
unfoldable pub pairs_from : ℕ → Numarray → ℕ → Option (List (ℕ × ℤ))
pairs_from zero a i = none
pairs_from (suc fuel) a i =
    let rest = pairs_from fuel a (iter a (pos i)).0 in
    elim (iter a (pos i)).1 [
      | none ↦ some []
      | some x ↦ elim rest [ none ↦ none | some l ↦ some (((iter a (pos i)).0, x) ∷ l) ]
    ]

-- The loop of `lt_nry_reverse`, `k` rounds from `n` on: the value in between is an `int`.
abbrev pub reverse_loop : ℕ → ℕ → ℕ → (ℕ → ℤ) → (ℕ → ℤ)
reverse_loop len zero n v = v
reverse_loop len (suc k) n v =
    reverse_loop len k (suc n)
      (store (store v n (v (len - n - 1))) (len - n - 1) (int_of_integer (v n)))

-- `lt_nry_reverse`
unfoldable pub reverse : Numarray → Numarray
reverse a = record a { v = reverse_loop a.len (a.len / 2) 0 a.v }

-- The loop of `lt_nry__eq`, from `i` on.
abbrev pub eq_loop : ℕ → ℕ → (ℕ → ℤ) → (ℕ → ℤ) → Bool
eq_loop zero i v w = true
eq_loop (suc n) i v w =
    let rest = eq_loop n (suc i) v w in if eqb_ℤ (v i) (w i) then rest else false

-- `lt_nry__eq`, for two arrays; for one and the same the loop gives true, too.
unfoldable pub eq : Numarray → Numarray → Bool
eq a b = if a.len == b.len then eq_loop a.len 0 a.v b.v else false

-- `lt_nry__len`
abbrev pub len : Numarray → ℤ
len a = int_of a.len
