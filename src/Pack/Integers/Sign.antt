-- ===== src/Pack/Integers/Sign.antt =====
-- Which integers fit a packer, and the bits that stand for them.
use Prim.Native.Nat.{bit_xor}
use native.Mathlib.Nat.{
  pow-suc, one-le-pow, div-eq_of_lt, div-lt_iff_lt-mul, div-eq_of_lt-le, pow-le-pow_right,
}
use lua_t.Prelude.{
  ℕ, suc, ◌+◌, ◌-◌, ◌/◌, ◌%◌, ◌^◌, ◌<◌, ◌≤◌, ◌≡◌, refl, sym, ◌∙◌, ap, arith, Bool, true, false,
  ◌&&◌, ◌==◌, ltb, ltb→lt, if◌then◌else◌, Bool-cases, inl, inr,
}
use lua_t.Prelude.Int.{ℤ, pos, negsuc, pos_part, neg_part, ltb_ℤ}
use lua_t.Prelude.Word.{size_of, signed64}
use lua_t.Pack.{Atom, is_signed}
use lua_t.Pack.Integers.{push, pattern_of, width}
use lua_t.Pack.Integers.Binary.{bit_xor-pow}

-- The integer is one of two's complement in `s` bits, or one of `s` bits without a sign.
abbrev pub fits : Atom → ℤ → Bool
fits p (pos n) = ltb n (2 ^ (if is_signed p.m then p.s - 1 else p.s))
fits p (negsuc n) = is_signed p.m && ltb n (2 ^ (p.s - 1))

-- A `lua_Integer`.
abbrev pub IsInteger : ℤ → Type 0
IsInteger i = (pos_part i < 2 ^ 63) × (neg_part i ≤ 2 ^ 63)

-- Exclusive or with the bit behind which a number fits, and with the one on top of it.
xor-low : (k v : ℕ) → v < 2 ^ k → bit_xor v (2 ^ k) ≡ v + 2 ^ k
xor-low k v h = let e : v / 2 ^ k ≡ 0 = div-eq_of_lt h in rw (bit_xor-pow v k, e) refl

xor-high : (k v : ℕ) → 2 ^ k ≤ v → v < 2 ^ k + 2 ^ k → bit_xor v (2 ^ k) ≡ v - 2 ^ k
xor-high k v h b =
    let e : v / 2 ^ k ≡ 1 =
      div-eq_of_lt-le {k = 1} (2 ^ k) {m = v} (omega (arith, h)) (omega (arith, b)) in
    rw (bit_xor-pow v k, e) refl

xor-le : (k v : ℕ) → v - 2 ^ k ≤ bit_xor v (2 ^ k)
xor-le k v = ground (arith, bit_xor-pow v k)

quotient_test : (v k : ℕ) → (v / 2 ^ k == 0) ≡ ltb v (2 ^ k)
quotient_test v k =
    let one : 1 ≤ 2 ^ k = one-le-pow k 2 (omega arith) in
    ground (arith, div-eq_of_lt {n = v} {m = 2 ^ k}, (div-lt_iff_lt-mul {x = v} {y = 1} one).0)

module _ (p : Atom) (low : 1 ≤ p.s) (high : p.s < 64) where
  double : 2 ^ p.s ≡ 2 ^ (p.s - 1) + 2 ^ (p.s - 1)
  double =
      let e : p.s ≡ suc (p.s - 1) = omega (arith, low) in
      ap (λ n. 2 ^ n) e ∙ omega (arith, pow-suc 2 (p.s - 1))

  bound : 2 ^ (p.s - 1) ≤ 2 ^ 62
  bound = pow-le-pow_right (omega arith) {i = p.s - 1} {j = 62} (omega (arith, high))

  pattern-pos : (n : ℕ) → n < 2 ^ 63 → pattern_of p (pos n) ≡ n
  pattern-pos n h = ground (arith, h)

  pattern-signed :
      (n : ℕ)
      → is_signed p.m ≡ true
      → pattern_of p (negsuc n)
        ≡ bit_xor ((size_of (negsuc n) + 2 ^ (p.s - 1)) % 2 ^ 64) (2 ^ (p.s - 1))
  pattern-signed n e =
      let f : ltb p.s 64 ≡ true = ground (arith, high) in
      let g : ltb_ℤ (negsuc n) (pos 0) ≡ true = ground arith in rw (e, f, g) refl

  pattern-unsigned : (n : ℕ) → is_signed p.m ≡ false → pattern_of p (negsuc n) ≡ size_of (negsuc n)
  pattern-unsigned n e = rw e refl

  -- A negative number that fits.
  pattern-negative :
      (n : ℕ) → is_signed p.m ≡ true → n < 2 ^ (p.s - 1) → pattern_of p (negsuc n) ≡ 2 ^ p.s - 1 - n
  pattern-negative n e h =
      let m : ℕ = 2 ^ (p.s - 1) in
      let at : (size_of (negsuc n) + m) % 2 ^ 64 ≡ m - 1 - n = omega (arith, h, bound) in
      pattern-signed n e
      ∙ ap (λ v. bit_xor v m) at
      ∙ xor-low (p.s - 1) (m - 1 - n) (omega (arith, h))
      ∙ omega (arith, double, h)

  push-signed :
      (v : ℕ)
      → is_signed p.m ≡ true
      → push p v ≡ signed64 ((bit_xor v (2 ^ (p.s - 1)) + 2 ^ 64 - 2 ^ (p.s - 1)) % 2 ^ 64)
  push-signed v e = rw e refl

  signed-pos : (n : ℕ) → n < 2 ^ 63 → signed64 n ≡ pos n
  signed-pos n h = ground (arith, h)

  signed-negsuc : (n : ℕ) → n < 2 ^ 63 → signed64 (2 ^ 64 - 1 - n) ≡ negsuc n
  signed-negsuc n h = ground (arith, h)

  -- What `fits` says in each case.
  fits-signed : (n : ℕ) → is_signed p.m ≡ true → fits p (pos n) ≡ ltb n (2 ^ (p.s - 1))
  fits-signed n e = rw e refl

  fits-unsigned : (n : ℕ) → is_signed p.m ≡ false → fits p (pos n) ≡ ltb n (2 ^ p.s)
  fits-unsigned n e = rw e refl

  fits-negative : (n : ℕ) → is_signed p.m ≡ true → fits p (negsuc n) ≡ ltb n (2 ^ (p.s - 1))
  fits-negative n e = rw e refl

  fits-none : (n : ℕ) → is_signed p.m ≡ false → fits p (negsuc n) ≡ false
  fits-none n e = rw e refl

  under : (n m : ℕ) {b : Bool} → b ≡ ltb n m → b ≡ true → n < m
  under n m e f = ltb→lt n m (sym e ∙ f)

  -- The bits that are stored for a value that fits are read as that value.
  pub pattern-lt : (i : ℤ) → IsInteger i → fits p i ≡ true → pattern_of p i < 2 ^ p.s
  pattern-lt (pos n) h f = elim (Bool-cases (is_signed p.m)) [
    | inl e ↦ rw (pattern-pos n h.0) (omega (arith, under n _ (fits-signed n e) f, double))
    | inr e ↦ rw (pattern-pos n h.0) (under n _ (fits-unsigned n e) f)
  ]
  pattern-lt (negsuc n) h f = elim (Bool-cases (is_signed p.m)) [
    | inl e ↦
        rw (pattern-negative n e (under n _ (fits-negative n e) f))
          (omega (arith, one-le-pow p.s 2 (omega arith)))
    | inr e ↦ absurd (ground (arith, fits-none n e, f))
  ]

  pub push-pattern : (i : ℤ) → IsInteger i → fits p i ≡ true → push p (pattern_of p i) ≡ i
  push-pattern (pos n) h f = ap (push p) (pattern-pos n h.0) ∙ elim (Bool-cases (is_signed p.m)) [
    | inl e ↦
        let small : n < 2 ^ (p.s - 1) = under n _ (fits-signed n e) f in
        push-signed n e
        ∙ ap (λ v. signed64 ((v + 2 ^ 64 - 2 ^ (p.s - 1)) % 2 ^ 64)) (xor-low (p.s - 1) n small)
        ∙ ap signed64 (omega (arith, h.0))
        ∙ signed-pos n h.0
    | inr e ↦ rw e (signed-pos n h.0)
  ]
  push-pattern (negsuc n) h f = elim (Bool-cases (is_signed p.m)) [
    | inl e ↦
        let small : n < 2 ^ (p.s - 1) = under n _ (fits-negative n e) f in
        ap (push p) (pattern-negative n e small)
        ∙ push-signed (2 ^ p.s - 1 - n) e
        ∙ ap (λ v. signed64 ((v + 2 ^ 64 - 2 ^ (p.s - 1)) % 2 ^ 64))
            (xor-high (p.s - 1) (2 ^ p.s - 1 - n) (omega (arith, small, double))
              (omega (arith, small, double)))
        ∙ ap signed64 (omega (arith, small, double, bound))
        ∙ signed-negsuc n (omega (arith, small, bound))
    | inr e ↦ absurd (ground (arith, fits-none n e, f))
  ]

  far :
      (n : ℕ)
      → suc n ≤ 2 ^ 63
      → 2 ^ (p.s - 1) ≤ n
      → 2 ^ 63 ≤ bit_xor ((size_of (negsuc n) + 2 ^ (p.s - 1)) % 2 ^ 64) (2 ^ (p.s - 1))
  far n h f = omega (arith, h, f, xor-le (p.s - 1) ((size_of (negsuc n) + 2 ^ (p.s - 1)) % 2 ^ 64))

  width-pos : (n : ℕ) → is_signed p.m ≡ true → width p (pos n) ≡ p.s - 1
  width-pos n e =
      let f : ltb p.s 64 ≡ true = ground (arith, high) in
      let g : ltb_ℤ (pos n) (pos 0) ≡ false = ground arith in rw (e, f, g) refl

  width-negative : (n : ℕ) → is_signed p.m ≡ true → width p (negsuc n) ≡ p.s
  width-negative n e =
      let f : ltb p.s 64 ≡ true = ground (arith, high) in
      let g : ltb_ℤ (negsuc n) (pos 0) ≡ true = ground arith in rw (e, f, g) refl

  width-unsigned : (i : ℤ) → is_signed p.m ≡ false → width p i ≡ p.s
  width-unsigned i e = rw e refl

  top : 2 ^ p.s ≤ 2 ^ 63
  top = omega (arith, double, bound)

  -- A pattern with the highest of 64 bits does not fit.
  too_wide : (v : ℕ) → 2 ^ 63 ≤ v → (v / 2 ^ p.s == 0) ≡ false
  too_wide v h = quotient_test v p.s ∙ ground (arith, h, top)

  -- The test of `t_pck_setIntValue`.
  pub width-fits : (i : ℤ) → IsInteger i → (pattern_of p i / 2 ^ width p i == 0) ≡ fits p i
  width-fits (pos n) h = elim (Bool-cases (is_signed p.m)) [
    | inl e ↦
        rw (width-pos n e, pattern-pos n h.0) (quotient_test n (p.s - 1) ∙ sym (fits-signed n e))
    | inr e ↦
        rw (width-unsigned (pos n) e, pattern-pos n h.0)
          (quotient_test n p.s ∙ sym (fits-unsigned n e))
  ]
  width-fits (negsuc n) h = elim (Bool-cases (is_signed p.m)) [
    | inl e ↦ rw (width-negative n e) (elim (Bool-cases (ltb n (2 ^ (p.s - 1)))) [
      | inl f ↦ rw (pattern-negative n e (ltb→lt _ _ f)) (
          quotient_test (2 ^ p.s - 1 - n) p.s
          ∙ ground (arith, one-le-pow p.s 2)
          ∙ sym (fits-negative n e ∙ f))
      | inr f ↦
          rw (pattern-signed n e)
            (too_wide _ (far n h.1 (ground (arith, f))) ∙ sym (fits-negative n e ∙ f))
    ])
    | inr e ↦
        rw (width-unsigned (negsuc n) e, pattern-unsigned n e)
          (too_wide (size_of (negsuc n)) (omega (arith, h.1)) ∙ sym (fits-none n e))
  ]
