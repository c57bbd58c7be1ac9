-- ===== src/Pack/Trees.antt =====
-- src/t_pck_l.c: packers that are made of packers.
pub mod Reads
pub mod Shape
pub mod Calls
use lua_t.Prelude.{
  ℕ, zero, suc, ◌+◌, ◌*◌, ◌/◌, ◌%◌, ◌^◌, Bool, Option, none, some, Bytes, leb, ◌==◌, if◌then◌else◌,
  length,
}
use lua_t.Prelude.Word.{add_size}
use lua_t.Prelude.Result.{Result, ok, error, ◌>>=◌, ◌>>◌, argcheck}
use lua_t.Pack.{Atom}
use lua_t.Pack.Atoms.{read, write}
use lua_t.Pack.Atoms.Values.{Value, table, ordered, Values, nil, cons, Entries, end, entry, Lua}

-- `struct t_pck`, with what its reference leads to.
mutual
  pub data Packer : Type 0 where
    atomic : Atom → Packer
    function : Packer
    array : ℕ → Packer → Packer
    sequence : Packers → Packer
    struct : Fields → Packer

  pub data Packers : Type 0 where
    none_left : Packers
    element : Packer → Packers → Packers

  pub data Fields : Type 0 where
    no_field : Fields
    field : Bytes → Packer → Fields → Fields

-- `t_pck_getSize`, and its loop with the sum so far.
unfoldable mutual
  pub get_size : Packer → ℕ
  get_size (atomic p) = p.s
  get_size function = 0
  get_size (array n p) = if n == 0 then n else n * get_size p % 2 ^ 64
  get_size (sequence ps) = get_size_all ps 0
  get_size (struct fs) = get_size_fields fs 0

  pub get_size_all : Packers → ℕ → ℕ
  get_size_all none_left s = s
  get_size_all (element p ps) s =
      let rest = get_size_all ps (add_size s (get_size p)) in if get_size p == 0 then 0 else rest

  pub get_size_fields : Fields → ℕ → ℕ
  get_size_fields no_field s = s
  get_size_fields (field k p fs) s =
      let rest = get_size_fields fs (add_size s (get_size p)) in if get_size p == 0 then 0 else rest

-- What a call comes to: a value that is read, or a buffer that is written.
pub data Outcome (Num : Type 0) : Type 0 where
  value : Value Num → Outcome Num
  buffer : Bytes → Outcome Num

module _ {Num : Type 0} where
  -- The loop over an array: `next` reads an element at an offset.
  abbrev pub read_array : ℕ → (ℕ → Result (Value Num × ℕ)) → ℕ → Result (Values Num × ℕ)
  read_array zero next ofs = ok (nil, ofs)
  read_array (suc n) next ofs = do
    v ← next ofs
    vs ← read_array n next v.1
    ok (cons v.0 vs.0, vs.1)

  -- `t_pck__callread`: the value, and the offset behind it.
  unfoldable mutual
    pub callread : Lua Num → Packer → Bytes → ℕ → Result (Value Num × ℕ)
    callread lua (atomic p) b ofs = do
      v ← read lua b (ofs / 8) p (ofs % 8)
      ok (v, add_size ofs p.s)
    callread lua function b ofs = error
    callread lua (array n p) b ofs = do
      vs ← read_array n (callread lua p b) ofs
      ok (table vs.0, vs.1)
    callread lua (sequence ps) b ofs = do vs ← callread_all lua ps b ofs; ok (table vs.0, vs.1)
    callread lua (struct fs) b ofs = do vs ← callread_fields lua fs b ofs; ok (ordered vs.0, vs.1)

    pub callread_all : Lua Num → Packers → Bytes → ℕ → Result (Values Num × ℕ)
    callread_all lua none_left b ofs = ok (nil, ofs)
    callread_all lua (element p ps) b ofs = do
      v ← callread lua p b ofs
      vs ← callread_all lua ps b v.1
      ok (cons v.0 vs.0, vs.1)

    pub callread_fields : Lua Num → Fields → Bytes → ℕ → Result (Entries Num × ℕ)
    callread_fields lua no_field b ofs = ok (end, ofs)
    callread_fields lua (field k p fs) b ofs = do
      v ← callread lua p b ofs
      vs ← callread_fields lua fs b v.1
      ok (entry k v.0 vs.0, vs.1)

  -- `lt_pck_idx__call` on a buffer or string: `ofs` is what `t_pck_idx_getOffset` finds; without a
  -- value it reads.
  unfoldable pub call :
      Lua Num → Packer → ℕ → Bytes → Bool → Option (Value Num) → Result (Outcome Num)
  call lua p ofs b canwrite v = do
    argcheck (leb (add_size ofs (get_size p)) (length b * 8 + 8)) 2
    elim v [
      | none ↦ do r ← callread lua p b ofs; ok (value r.0)
      | some x ↦ do
        argcheck canwrite 2
        elim p [ atomic a ↦ do c ← write lua b (ofs / 8) a (ofs % 8) x; ok (buffer c) | _ ↦ error ]
    ]
