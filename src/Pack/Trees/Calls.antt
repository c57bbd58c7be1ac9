-- ===== src/Pack/Trees/Calls.antt =====
-- The size of packers, and calls of them on buffers.
use native.Mathlib.Nat.{mul-le-mul_right}
use lua_t.Prelude.{
  ℕ, ◌+◌, ◌*◌, ◌/◌, ◌%◌, ◌^◌, ◌<◌, ◌≤◌, ◌≡◌, refl, sym, ◌∙◌, ap, arith, Bool, true, false, Option,
  none, Bytes, leb, ◌==◌, ==_iff, Bool-cases, inl, inr, length,
}
use lua_t.Prelude.Word.{add_size}
use lua_t.Prelude.Result.{ok, argument, fault}
use lua_t.Pack.{int}
use lua_t.Pack.Integers.{get_int}
use lua_t.Pack.Atoms.{read}
use lua_t.Pack.Atoms.Values.{Value, Lua}
use lua_t.Pack.Trees.{
  Packer, atomic, function, array, sequence, struct, Packers, none_left, element, Fields, no_field,
  field, get_size, get_size_all, get_size_fields, callread, value, call,
}
use lua_t.Pack.Trees.Shape.{bits, bits_all, bits_fields, Readable, HasShape}
use lua_t.Pack.Trees.Reads.{callread_lem}

-- Each part of a sequence or struct takes a bit at least.
unfoldable mutual
  pub Solid : Packer → Type 0
  Solid (atomic p) = Unit
  Solid function = Unit
  Solid (array n p) = Solid p
  Solid (sequence ps) = SolidAll ps
  Solid (struct fs) = SolidFields fs

  pub SolidAll : Packers → Type 0
  SolidAll none_left = Unit
  SolidAll (element p ps) = (0 < bits p) × Solid p × SolidAll ps

  pub SolidFields : Fields → Type 0
  SolidFields no_field = Unit
  SolidFields (field k p fs) = (0 < bits p) × Solid p × SolidFields fs

mutual
  unfolding get_size bits Solid

  get_size-bits : (p : Packer) → Solid p → bits p < 2 ^ 64 → get_size p ≡ bits p
  get_size-bits (atomic p) h small = refl
  get_size-bits function h small = refl
  get_size-bits (array n p) h small = elim (Bool-cases (n == 0)) [
    | inl e ↦
        let none_at_all : n ≡ 0 = (==_iff n 0).0 e in
        rw e (none_at_all ∙ sym (ap (λ m. m * bits p) none_at_all ∙ omega arith))
    | inr e ↦
        let least : 1 * bits p ≤ n * bits p =
          mul-le-mul_right {m = 1} {n = n} (bits p) (ground (arith, e)) in
        let one : get_size p ≡ bits p = get_size-bits p h (omega (arith, small, least)) in
        rw (e, one) (omega (arith, small))
  ]
  get_size-bits (sequence ps) h small =
      get_size_all-bits ps 0 h (omega (arith, small)) ∙ omega arith
  get_size-bits (struct fs) h small =
      get_size_fields-bits fs 0 h (omega (arith, small)) ∙ omega arith

  get_size_all-bits :
      (ps : Packers) (s : ℕ)
      → SolidAll ps
      → s + bits_all ps < 2 ^ 64
      → get_size_all ps s ≡ s + bits_all ps
  get_size_all-bits none_left s h small = omega arith
  get_size_all-bits (element p ps) s h small =
      let here : get_size p ≡ bits p = get_size-bits p h.1 (omega (arith, small)) in
      let some_bits : (bits p == 0) ≡ false = ground (arith, h.0) in
      let sum : add_size s (bits p) ≡ s + bits p = omega (arith, small) in
      rw (here, some_bits, sum)
        (get_size_all-bits ps (s + bits p) h.2 (omega (arith, small)) ∙ omega arith)

  get_size_fields-bits :
      (fs : Fields) (s : ℕ)
      → SolidFields fs
      → s + bits_fields fs < 2 ^ 64
      → get_size_fields fs s ≡ s + bits_fields fs
  get_size_fields-bits no_field s h small = omega arith
  get_size_fields-bits (field k p fs) s h small =
      let here : get_size p ≡ bits p = get_size-bits p h.1 (omega (arith, small)) in
      let some_bits : (bits p == 0) ≡ false = ground (arith, h.0) in
      let sum : add_size s (bits p) ≡ s + bits p = omega (arith, small) in
      rw (here, some_bits, sum)
        (get_size_fields-bits fs (s + bits p) h.2 (omega (arith, small)) ∙ omega arith)

module _ {Num : Type 0} (lua : Lua Num) where
  -- A packer that lies in the buffer or string is read to a value that is built as the packer is.
  -- The conditions: each part of a sequence or struct takes a bit at least, each atomic packer can
  -- begin where it lies, there is no function, and offsets stay below 2 ^ 64.
  pub call-HasShape :
      (p : Packer) (ofs : ℕ) (b : Bytes) (canwrite : Bool)
      → Solid p
      → Readable p ofs
      → ofs + bits p ≤ 8 * length b
      → 8 * length b < 2 ^ 64
      → (v : Value Num) × (call lua p ofs b canwrite none ≡ ok (value v)) × HasShape p v
  unfolding call
  call-HasShape p ofs b canwrite solid readable inside small =
      let (v, e, shape) = callread_lem lua b p ofs readable inside small in
      let size : add_size ofs (get_size p) ≡ ofs + bits p =
        ap (add_size ofs) (get_size-bits p solid (omega (arith, inside, small)))
        ∙ omega (arith, inside, small) in
      let room : leb (ofs + bits p) (length b * 8 + 8) ≡ true = ground (arith, inside) in
      (v, rw (size, room, e) refl, shape)

  -- A packer that ends more than a byte behind the buffer or string is refused, read or written:
  -- the error is raised for the second argument. The condition on its parts is as above.
  call_refused :
      (p : Packer) (ofs : ℕ) (b : Bytes) (canwrite : Bool) (x : Option (Value Num))
      → Solid p
      → 8 * length b + 8 < ofs + bits p
      → ofs + bits p < 2 ^ 64
      → call lua p ofs b canwrite x ≡ argument 2
  unfolding call
  call_refused p ofs b canwrite x solid behind small =
      let size : add_size ofs (get_size p) ≡ ofs + bits p =
        ap (add_size ofs) (get_size-bits p solid (omega (arith, small))) ∙ omega (arith, small) in
      let room : leb (ofs + bits p) (length b * 8 + 8) ≡ false = ground (arith, behind) in
      rw (size, room) refl

  -- An integer packer of one byte right behind the end of a buffer or string is let through, and a
  -- byte outside is read. The condition: the length in bits stays below 2 ^ 64.
  pub call_behind :
      (m : ℕ) (b : Bytes) (canwrite : Bool)
      → 8 * length b + 8 < 2 ^ 64
      → call lua (atomic (record { t = int; s = 8; m = m })) (8 * length b) b canwrite none ≡ fault
  unfolding call callread read get_int get_size
  call_behind m b canwrite small =
      let size : add_size (8 * length b) 8 ≡ 8 * length b + 8 = omega (arith, small) in
      let room : leb (8 * length b + 8) (length b * 8 + 8) ≡ true = ground arith in
      let bit : 8 * length b % 8 ≡ 0 = omega arith in
      let at : 8 * length b / 8 ≡ length b = omega arith in
      let outside : leb (length b + 1) (length b) ≡ false = ground arith in
      rw (size, room, bit, at, outside) refl
