-- ===== src/Pack/Trees/Shape.antt =====
-- How many bits a packer takes, where it can lie, and the values that it reads.
use lua_t.Prelude.{ℕ, zero, suc, ◌+◌, ◌*◌, ◌/◌, ◌%◌, ◌<◌, ◌≤◌, ◌≡◌, Bool, Bytes, length}
use lua_t.Prelude.Int.{ℤ}
use lua_t.Pack.{Atom, bool, int, float, raw}
use lua_t.Pack.Atoms.Values.{
  Value, boolean, integer, number, string, table, ordered, Values, nil, cons, Entries, end, entry,
}
use lua_t.Pack.Trees.{
  Packer, atomic, function, array, sequence, struct, Packers, none_left, element, Fields, no_field,
  field,
}

-- An atomic packer that can begin at bit `ofs`.
abbrev pub CanBegin : Atom → ℕ → Type 0
CanBegin p ofs = elim p.t [
  | bool ↦ p.s ≡ 1
  | int ↦ (1 ≤ p.s) × (p.s + ofs % 8 ≤ 64)
  | float ↦ (ofs % 8 ≡ 0) × (p.s % 8 ≡ 0)
  | raw ↦ (ofs % 8 ≡ 0) × (p.s % 8 ≡ 0)
]

-- How many bits a packer takes, without a bound.
unfoldable mutual
  pub bits : Packer → ℕ
  bits (atomic p) = p.s
  bits function = 0
  bits (array n p) = n * bits p
  bits (sequence ps) = bits_all ps
  bits (struct fs) = bits_fields fs

  pub bits_all : Packers → ℕ
  bits_all none_left = 0
  bits_all (element p ps) = bits p + bits_all ps

  pub bits_fields : Fields → ℕ
  bits_fields no_field = 0
  bits_fields (field k p fs) = bits p + bits_fields fs

-- Each atomic packer in it can begin where it lies, and there is no function.
unfoldable mutual
  pub Readable : Packer → ℕ → Type 0
  Readable (atomic p) ofs = CanBegin p ofs
  Readable function ofs = ⊥
  Readable (array n p) ofs = (k : ℕ) → k < n → Readable p (ofs + k * bits p)
  Readable (sequence ps) ofs = ReadableAll ps ofs
  Readable (struct fs) ofs = ReadableFields fs ofs

  pub ReadableAll : Packers → ℕ → Type 0
  ReadableAll none_left ofs = Unit
  ReadableAll (element p ps) ofs = Readable p ofs × ReadableAll ps (ofs + bits p)

  pub ReadableFields : Fields → ℕ → Type 0
  ReadableFields no_field ofs = Unit
  ReadableFields (field k p fs) ofs = Readable p ofs × ReadableFields fs (ofs + bits p)

module _ {Num : Type 0} where
  -- A value of the type that the kind names; a string of the packer's bytes.
  abbrev pub AtomShape : Atom → Value Num → Type 0
  AtomShape p v = elim p.t [
    | bool ↦ (x : Bool) × (v ≡ boolean x)
    | int ↦ (i : ℤ) × (v ≡ integer i)
    | float ↦ (x : Num) × (v ≡ number x)
    | raw ↦ (s : Bytes) × (v ≡ string s) × (length s ≡ p.s / 8)
  ]

  abbrev pub ArrayShape : (Value Num → Type 0) → ℕ → Values Num → Type 0
  ArrayShape each zero nil = Unit
  ArrayShape each zero (cons v vs) = ⊥
  ArrayShape each (suc n) nil = ⊥
  ArrayShape each (suc n) (cons v vs) = each v × ArrayShape each n vs

  -- The value is built as the packer is.
  unfoldable mutual
    pub HasShape : Packer → Value Num → Type 0
    HasShape (atomic p) v = AtomShape p v
    HasShape function v = ⊥
    HasShape (array n p) v = (vs : Values Num) × (v ≡ table vs) × ArrayShape (HasShape p) n vs
    HasShape (sequence ps) v = (vs : Values Num) × (v ≡ table vs) × HasShapeAll ps vs
    HasShape (struct fs) v = (es : Entries Num) × (v ≡ ordered es) × HasShapeFields fs es

    pub HasShapeAll : Packers → Values Num → Type 0
    HasShapeAll none_left nil = Unit
    HasShapeAll none_left (cons v vs) = ⊥
    HasShapeAll (element p ps) nil = ⊥
    HasShapeAll (element p ps) (cons v vs) = HasShape p v × HasShapeAll ps vs

    pub HasShapeFields : Fields → Entries Num → Type 0
    HasShapeFields no_field end = Unit
    HasShapeFields no_field (entry k v es) = ⊥
    HasShapeFields (field k p fs) end = ⊥
    HasShapeFields (field k p fs) (entry l v es) = (k ≡ l) × HasShape p v × HasShapeFields fs es
