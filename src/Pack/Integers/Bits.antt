-- ===== src/Pack/Integers/Bits.antt =====
-- The bits of a buffer, the first of each byte being its highest.
use lua_t.Prelude.{
  ℕ, zero, suc, ◌+◌, ◌-◌, ◌*◌, ◌/◌, ◌%◌, ◌^◌, ◌<◌, ◌≤◌, ◌≡◌, refl, sym, ◌∙◌, ap, arith, Bool, true,
  false, ◌&&◌, ◌==◌, ==_iff, leb, if◌then◌else◌, Bool-cases, ◌⊎◌, inl, inr, [], ◌∷◌, Bytes, length,
  get_or, set, length-set,
}
use lua_t.Prelude.Bits.{tested_under, tested_under_lem}
use lua_t.Prelude.Result.{ok}
use lua_t.Pack.{byte}
use lua_t.Pack.Integers.{bit_set, set_bits}
use lua_t.Pack.Integers.Binary.{digit}

abbrev pub bit : Bytes → ℕ → ℕ
bit b i = digit (get_or b (i / 8) 0) (7 - i % 8)

-- Each element is a byte.
abbrev pub IsBytes : Bytes → Type 0
IsBytes b = (i : ℕ) → get_or b i 0 < 256

get_or-set_self : (b : Bytes) (i v : ℕ) → i < length b → get_or (set b i v) i 0 ≡ v
get_or-set_self [] i v h = absurd (omega (arith, h))
get_or-set_self (x ∷ b) zero v h = refl
get_or-set_self (x ∷ b) (suc i) v h = get_or-set_self b i v (omega (arith, h))

get_or-set_ne : (b : Bytes) (i j v : ℕ) → (i == j) ≡ false → get_or (set b i v) j 0 ≡ get_or b j 0
get_or-set_ne [] i j v h = refl
get_or-set_ne (x ∷ b) zero zero v h = absurd (ground (arith, h))
get_or-set_ne (x ∷ b) zero (suc j) v h = refl
get_or-set_ne (x ∷ b) (suc i) zero v h = refl
get_or-set_ne (x ∷ b) (suc i) (suc j) v h = get_or-set_ne b i j v (ground (arith, h))

pub byte_lem : (b : Bytes) (i : ℕ) → i < length b → byte b i ≡ ok (get_or b i 0)
byte_lem [] i h = absurd (omega (arith, h))
byte_lem (x ∷ b) zero h = refl
byte_lem (x ∷ b) (suc i) h = byte_lem b i (omega (arith, h))

-- What `T_PCK_BIT_SET` does to each bit of a byte.
bit_of : Bool → ℕ
bit_of true = 1
bit_of false = 0

bit_set_tested : Bool → ℕ → ℕ → ℕ → Bool
bit_set_tested v n m c =
    digit (bit_set c n v) (7 - m) == (if m == n then bit_of v else digit c (7 - m))
    && leb (bit_set c n v) 255

bit_set_table :
    tested_under
      (λ c.
        tested_under
          (λ n. tested_under (λ m. bit_set_tested true n m c && bit_set_tested false n m c) 8)
          8)
      256
    ≡ true
unfolding tested_under bit_set_tested bit_of
bit_set_table = refl

and_true : (a b : Bool) → (a && b) ≡ true → (a ≡ true) × (b ≡ true)
and_true true b h = (refl, h)
and_true false b h = absurd (ground (arith, h))

bit_set_tests : (v : Bool) (n m c : ℕ) → c < 256 → n < 8 → m < 8 → bit_set_tested v n m c ≡ true
bit_set_tests v n m c h i j =
    let both =
      and_true (bit_set_tested true n m c) (bit_set_tested false n m c) (
        tested_under_lem _ 8 j (tested_under_lem _ 8 i (tested_under_lem _ 256 h bit_set_table))) in
    elim v as (λ w. bit_set_tested w n m c ≡ true) [ true ↦ both.0 | false ↦ both.1 ]

bit_set_lem :
    (v : Bool) (n m c : ℕ)
    → c < 256
    → n < 8
    → m < 8
    → (digit (bit_set c n v) (7 - m) ≡ (if m == n then bit_of v else digit c (7 - m)))
      × (bit_set c n v < 256)
unfolding bit_set_tested
bit_set_lem v n m c h i j =
    let both = and_true _ _ (bit_set_tests v n m c h i j) in
    ((==_iff _ _).0 both.0, ground (arith, both.1))

-- One bit is set.
module _ (b : Bytes) (bytes : IsBytes b) (p : ℕ) (inside : p / 8 < length b) (v : Bool) where
  after : Bytes
  after = set b (p / 8) (bit_set (get_or b (p / 8) 0) (p % 8) v)

  facts :
      (m : ℕ)
      → m < 8
      → (digit (bit_set (get_or b (p / 8) 0) (p % 8) v) (7 - m)
          ≡ (if m == p % 8 then bit_of v else digit (get_or b (p / 8) 0) (7 - m)))
        × (bit_set (get_or b (p / 8) 0) (p % 8) v < 256)
  facts m h = bit_set_lem v (p % 8) m (get_or b (p / 8) 0) (bytes (p / 8)) (omega arith) h

  here : get_or after (p / 8) 0 ≡ bit_set (get_or b (p / 8) 0) (p % 8) v
  unfolding after
  here = get_or-set_self b (p / 8) _ inside

  after-IsBytes : IsBytes after
  unfolding after
  after-IsBytes i = elim (Bool-cases (p / 8 == i)) [
    | inl e ↦ rw (sym ((==_iff (p / 8) i).0 e)) (rw here (facts 0 (omega arith)).1)
    | inr e ↦ rw (get_or-set_ne b (p / 8) i (bit_set (get_or b (p / 8) 0) (p % 8) v) e) (bytes i)
  ]

  after_self : bit after p ≡ bit_of v
  after_self =
      let same : (p % 8 == p % 8) ≡ true = ground arith in
      ap (λ c. digit c (7 - p % 8)) here ∙ (facts (p % 8) (omega arith)).0 ∙ rw same refl

  after-ne : (i : ℕ) → (p == i) ≡ false → bit after i ≡ bit b i
  unfolding after
  after-ne i d = elim (Bool-cases (p / 8 == i / 8)) [
    | inl e ↦
        let at : p / 8 ≡ i / 8 = (==_iff (p / 8) (i / 8)).0 e in
        let other : (i % 8 == p % 8) ≡ false = ground (arith, d, at) in
        ap (λ q. digit (get_or after q 0) (7 - i % 8)) (sym at)
        ∙ ap (λ c. digit c (7 - i % 8)) here
        ∙ (facts (i % 8) (omega arith)).0
        ∙ rw other (ap (λ q. digit (get_or b q 0) (7 - i % 8)) at)
    | inr e ↦ ap (λ c. digit c (7 - i % 8)) (get_or-set_ne b (p / 8) (i / 8) _ e)
  ]

  after-length : length after ≡ length b
  unfolding after
  after-length = length-set b (p / 8) _

bit_of_test : (d : ℕ) → d < 2 → bit_of (d == 1) ≡ d
unfolding bit_of
bit_of_test d h = ground (arith, h)

set_bits-after :
    (n : ℕ) (b : Bytes) (at ofs val : ℕ) (bytes : IsBytes b)
    (inside : (8 * at + ofs) / 8 < length b)
    → set_bits (suc n) b at ofs val
      ≡ set_bits n (after b bytes (8 * at + ofs) inside (val / 2 ^ n % 2 == 1)) at (suc ofs) val
unfolding after
set_bits-after n b at ofs val bytes inside =
    let k : (8 * at + ofs) / 8 ≡ at + ofs / 8 = omega arith in
    let l : (8 * at + ofs) % 8 ≡ ofs % 8 = omega arith in
    rw (byte_lem b (at + ofs / 8) (omega (arith, inside)), k, l) refl

-- The loop of `t_pck_setIntValue` sets `n` bits from bit 8 * at + ofs on to the digits of `val`, the
-- highest first, and keeps each other bit.
pub set_bits_lem :
    (n : ℕ) (b : Bytes) (at ofs val : ℕ)
    → IsBytes b
    → 8 * at + ofs + n ≤ 8 * length b
    → (c : Bytes) × (set_bits n b at ofs val ≡ ok c)
      × (length c ≡ length b)
      × IsBytes c
      × ((j : ℕ) → j < n → bit c (8 * at + ofs + j) ≡ digit val (n - 1 - j))
      × ((i : ℕ) → (i < 8 * at + ofs) ⊎ (8 * at + ofs + n ≤ i) → bit c i ≡ bit b i)
set_bits_lem zero b at ofs val bytes h =
    (b, refl, refl, bytes, (λ j k. absurd (omega (arith, k))), λ i k. refl)
set_bits_lem (suc n) b at ofs val bytes h =
    let p : ℕ = 8 * at + ofs in
    let inside : p / 8 < length b = omega (arith, h) in
    let v : Bool = val / 2 ^ n % 2 == 1 in
    let next : Bytes = after b bytes p inside v in
    let size : length next ≡ length b = after-length b bytes p inside v in
    let (c, e, len, cbytes, digits, kept) =
      set_bits_lem n next at (suc ofs) val (after-IsBytes b bytes p inside v)
        (omega (arith, h, size)) in
    (
      c,
      set_bits-after n b at ofs val bytes inside ∙ e,
      len ∙ size,
      cbytes,
      λ j m. elim (Bool-cases (j == 0)) [
        | inl z ↦
            let first : j ≡ 0 = (==_iff j 0).0 z in
            ap (bit c) (omega (arith, first))
            ∙ kept p (inl (omega arith))
            ∙ after_self b bytes p inside v
            ∙ bit_of_test (digit val n) (omega arith)
            ∙ ap (digit val) (omega (arith, first))
        | inr z ↦
            let later : (0 < j) = ground (arith, z) in
            ap (bit c) (omega (arith, later))
            ∙ digits (j - 1) (omega (arith, later, m))
            ∙ ap (digit val) (omega (arith, later, m))
      ],
      λ i m.
          kept i (elim m [ inl x ↦ inl (omega (arith, x)) | inr x ↦ inr (omega (arith, x)) ])
          ∙ after-ne b bytes p inside v i
              (elim m [ inl x ↦ ground (arith, x) | inr x ↦ ground (arith, x) ]),
    )
