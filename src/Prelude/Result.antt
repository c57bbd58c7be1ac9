-- ===== src/Prelude/Result.antt =====
-- What a function that Lua calls comes to.
use mathlib.Core.Bool.{Bool, true, false}
use Prim.Native.Nat.{ℕ}

-- `argument i`: the Lua error raised for argument i. `error`: a Lua error that names no argument from
-- 1 on. `fault`: memory outside an object is touched, or the behaviour is undefined.
pub data Result {ℓ} (A : Type ℓ) : Type ℓ where
  ok : A → Result A
  argument : ℕ → Result A
  error : Result A
  fault : Result A

-- `luaL_argcheck`
abbrev pub argcheck : Bool → ℕ → Result (Unit {0})
argcheck false i = argument i
argcheck true i = ok tt

infixl 5 ◌>>=◌ ◌>>◌
abbrev pub ◌>>=◌ {ℓ κ} : {A : Type ℓ} {B : Type κ} (m : Result A) → (A → Result B) → Result B
fault >>= next = fault
argument i >>= next = argument i
error >>= next = error
ok a >>= next = next a

abbrev pub ◌>>◌ {κ} : {B : Type κ} (check : Result (Unit {0})) → Result B → Result B
check >> rest = check >>= λ tested. rest
