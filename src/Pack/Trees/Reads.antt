-- ===== src/Pack/Trees/Reads.antt =====
-- Reading of whole packers.
use native.Mathlib.Nat.{mul-le-mul_right}
use lua_t.Prelude.{
  ℕ, zero, suc, ◌+◌, ◌-◌, ◌*◌, ◌/◌, ◌%◌, ◌^◌, ◌<◌, ◌≤◌, ◌≡◌, refl, sym, ◌∙◌, ap, arith, Bool, true,
  Bytes, leb, ◌==◌, Bool-cases, inl, inr, length, get_or, slice,
}
use lua_t.Prelude.Int.{ℤ}
use lua_t.Prelude.Word.{add_size}
use lua_t.Prelude.Result.{Result, ok}
use lua_t.Pack.{Atom, Kind, bool, int, float, raw, is_big, copy_bytes, integer_of}
use lua_t.Pack.Integers.{is_bitwise, push, get_int}
use lua_t.Pack.Integers.Bits.{byte_lem}
use lua_t.Pack.Integers.Read.{load_lem, length-slice}
use lua_t.Pack.Atoms.{read}
use lua_t.Pack.Atoms.Values.{
  Value, boolean, integer, number, string, table, ordered, Values, nil, cons, Entries, end, entry,
  Lua,
}
use lua_t.Pack.Trees.{
  Packer, atomic, function, array, sequence, struct, Packers, none_left, element, Fields, no_field,
  field, read_array, callread, callread_all, callread_fields,
}
use lua_t.Pack.Trees.Shape.{
  CanBegin, bits, bits_all, bits_fields, Readable, ReadableAll, ReadableFields, AtomShape,
  ArrayShape, HasShape, HasShapeAll, HasShapeFields,
}

get_int_ok :
    (b : Bytes) (at : ℕ) (p : Atom) (ofs : ℕ)
    → 1 ≤ p.s
    → p.s + ofs ≤ 64
    → 8 * at + ofs + p.s ≤ 8 * length b
    → (i : ℤ) × (get_int b at p ofs ≡ ok i)
unfolding get_int
get_int_ok b at p ofs low small inside = elim (Bool-cases (is_bitwise p ofs)) [
  | inl e ↦
      let n : ℕ = (p.s + ofs - 1) / 8 + 1 in
      let test : leb n 8 ≡ true = ground (arith, low, small) in
      (
        push p (
            integer_of (copy_bytes (slice b at n) true)
            * 2 ^ (64 - n * 8 + ofs)
            % 2 ^ 64
            / 2 ^ (64 - p.s)),
        rw (e, load_lem b at n (omega (arith, low, inside)), test) refl,
      )
  | inr e ↦
      let test : leb (p.s / 8) 8 ≡ true = ground (arith, small) in
      (
        push p (integer_of (copy_bytes (slice b at (p.s / 8)) (is_big p.m))),
        rw (e, load_lem b at (p.s / 8) (omega (arith, inside)), test) refl,
      )
]

module _ {Num : Type 0} (lua : Lua Num) (b : Bytes) where
  read_lem :
      (p : Atom) (ofs : ℕ)
      → CanBegin p ofs
      → ofs + p.s ≤ 8 * length b
      → (v : Value Num) × (read lua b (ofs / 8) p (ofs % 8) ≡ ok v) × AtomShape p v
  unfolding read
  read_lem p ofs h inside = read_kind p.t p.s p.m h inside
    where
      read_kind :
          (t : Kind) (s m : ℕ)
          → CanBegin (record { t = t; s = s; m = m }) ofs
          → ofs + s ≤ 8 * length b
          → (v : Value Num) × (read lua b (ofs / 8) (record { t = t; s = s; m = m }) (ofs % 8)
              ≡ ok v)
            × AtomShape (record { t = t; s = s; m = m }) v
      read_kind bool s m h inside =
          let x : Bool = get_or b (ofs / 8) 0 / 2 ^ (8 - ofs % 8 - 1) % 2 == 1 in
          (boolean x, rw (byte_lem b (ofs / 8) (omega (arith, h, inside))) refl, (x, refl))
      read_kind int s m h inside =
          let (i, e) =
            get_int_ok b (ofs / 8) (record { t = int; s = s; m = m }) (ofs % 8) h.0 h.1
              (omega (arith, inside)) in
          (integer i, rw e refl, (i, refl))
      read_kind float s m h inside =
          let begin : (ofs % 8 == 0) ≡ true = ground (arith, h.0) in
          let x : Num = lua.number_of (copy_bytes (slice b (ofs / 8) (s / 8)) (m == 0)) in
          (
            number x,
            rw (begin, load_lem b (ofs / 8) (s / 8) (omega (arith, h.0, h.1, inside))) refl,
            (x, refl),
          )
      read_kind raw s m h inside =
          let begin : (ofs % 8 == 0) ≡ true = ground (arith, h.0) in
          let room : ofs / 8 + s / 8 ≤ length b = omega (arith, h.0, h.1, inside) in
          let x : Bytes = slice b (ofs / 8) (s / 8) in
          (
            string x,
            rw (begin, load_lem b (ofs / 8) (s / 8) room) refl,
            (x, refl, length-slice b (ofs / 8) (s / 8) room),
          )

  -- The loop over an array, whose elements take `w` bits each.
  read_array_lem :
      (each : Value Num → Type 0) (next : ℕ → Result (Value Num × ℕ)) (w n ofs : ℕ)
      → ((k : ℕ)
          → k < n
          → (v : Value Num) × (next (ofs + k * w) ≡ ok (v, ofs + k * w + w)) × each v)
      → (vs : Values Num) × (read_array n next ofs ≡ ok (vs, ofs + n * w)) × ArrayShape each n vs
  read_array_lem each next w zero ofs h = (nil, ap (λ o. ok (nil, o)) (omega arith), tt)
  read_array_lem each next w (suc n) ofs h =
      let start : ofs + 0 * w ≡ ofs = omega arith in
      let (v, e, shape) = h 0 (omega arith) in
      let (vs, f, shapes) = read_array_lem each next w n (ofs + w) (λ k l.
        let at : ofs + suc k * w ≡ ofs + w + k * w = omega arith in
        rw (sym at) (h (suc k) (omega (arith, l)))) in
      let here : next ofs ≡ ok (v, ofs + w) =
        ap next (sym start) ∙ e ∙ ap (λ o. ok (v, o + w)) start in
      let total : ofs + w + n * w ≡ ofs + suc n * w = omega arith in
      (cons v vs, rw (here, f, total) refl, (shape, shapes))

  mutual
    unfolding callread bits Readable HasShape

    pub callread_lem :
        (p : Packer) (ofs : ℕ)
        → Readable p ofs
        → ofs + bits p ≤ 8 * length b
        → 8 * length b < 2 ^ 64
        → (v : Value Num) × (callread lua p b ofs ≡ ok (v, ofs + bits p)) × HasShape p v
    callread_lem (atomic p) ofs h inside small =
        let (v, e, shape) = read_lem p ofs h inside in
        let at : add_size ofs p.s ≡ ofs + p.s = omega (arith, inside, small) in
        (v, rw (e, at) refl, shape)
    callread_lem function ofs h inside small = elim h [ ]
    callread_lem (array n p) ofs h inside small =
        let (vs, e, shapes) = read_array_lem (HasShape p) (callread lua p b) (bits p) n ofs (λ k l.
          callread_lem p (ofs + k * bits p) (h k l)
            (omega (arith, inside, mul-le-mul_right {m = suc k} {n = n} (bits p) l)) small) in
        (table vs, rw e refl, (vs, refl, shapes))
    callread_lem (sequence ps) ofs h inside small =
        let (vs, e, shapes) = callread_all_lem ps ofs h inside small in
        (table vs, rw e refl, (vs, refl, shapes))
    callread_lem (struct fs) ofs h inside small =
        let (es, e, shapes) = callread_fields_lem fs ofs h inside small in
        (ordered es, rw e refl, (es, refl, shapes))

    callread_all_lem :
        (ps : Packers) (ofs : ℕ)
        → ReadableAll ps ofs
        → ofs + bits_all ps ≤ 8 * length b
        → 8 * length b < 2 ^ 64
        → (vs : Values Num) × (callread_all lua ps b ofs ≡ ok (vs, ofs + bits_all ps))
          × HasShapeAll ps vs
    callread_all_lem none_left ofs h inside small = (nil, ap (λ o. ok (nil, o)) (omega arith), tt)
    callread_all_lem (element p ps) ofs h inside small =
        let (v, e, shape) = callread_lem p ofs h.0 (omega (arith, inside)) small in
        let (vs, f, shapes) =
          callread_all_lem ps (ofs + bits p) h.1 (omega (arith, inside)) small in
        let total : ofs + bits p + bits_all ps ≡ ofs + (bits p + bits_all ps) = omega arith in
        (cons v vs, rw (e, f, total) refl, (shape, shapes))

    callread_fields_lem :
        (fs : Fields) (ofs : ℕ)
        → ReadableFields fs ofs
        → ofs + bits_fields fs ≤ 8 * length b
        → 8 * length b < 2 ^ 64
        → (es : Entries Num) × (callread_fields lua fs b ofs ≡ ok (es, ofs + bits_fields fs))
          × HasShapeFields fs es
    callread_fields_lem no_field ofs h inside small = (end, ap (λ o. ok (end, o)) (omega arith), tt)
    callread_fields_lem (field k p fs) ofs h inside small =
        let (v, e, shape) = callread_lem p ofs h.0 (omega (arith, inside)) small in
        let (es, f, shapes) =
          callread_fields_lem fs (ofs + bits p) h.1 (omega (arith, inside)) small in
        let total : ofs + bits p + bits_fields fs ≡ ofs + (bits p + bits_fields fs) = omega arith in
        (entry k v es, rw (e, f, total) refl, (refl, shape, shapes))
