-- ===== src/Pack/Integers/Binary.antt =====
-- Numbers and their binary digits.
use Prim.Native.Nat.{bit_xor, bit_xor-bitwise, digits, differ}
use native.Mathlib.Nat.{
  pow-suc, one-le-pow, div-div-eq-div-mul, mul-div-mul_left, mod-lt, div-lt_iff_lt-mul,
  mod-eq_of_lt, mul-lt-mul_of_pos_left, mul-add-mod_self_left, mul_assoc, mul-add-div, div-add-mod,
  zero-div, div-eq_of_lt,
}
use lua_t.Prelude.{
  ℕ, zero, suc, ◌+◌, ◌-◌, ◌*◌, ◌/◌, ◌%◌, ◌^◌, ◌<◌, ◌≤◌, ◌≡◌, refl, sym, ◌∙◌, ap, arith, true, ◌==◌,
  if◌then◌else◌, Bool-cases, inl, inr,
}

-- The digit number `k`, counted from the lowest.
abbrev pub digit : ℕ → ℕ → ℕ
digit v k = v / 2 ^ k % 2

pub digit-suc : (v k : ℕ) → digit v (suc k) ≡ digit (v / 2) k
digit-suc v k =
    ap (λ w. w % 2)
      (ap (λ d. v / d) (ground (arith, pow-suc 2 k)) ∙ sym (div-div-eq-div-mul v 2 (2 ^ k)))

-- A number with one digit changed.
toggled : ℕ → ℕ → ℕ
toggled a k = if digit a k == 1 then a - 2 ^ k else a + 2 ^ k

differ-zero : (x : ℕ) → differ x 0 ≡ x
differ-zero zero = refl
differ-zero (suc x) = refl

differ-one : (x : ℕ) → x < 2 → differ x 1 ≡ 1 - x
differ-one zero h = refl
differ-one (suc x) h = omega (arith, differ-zero x, h)

digits-zero : (n a : ℕ) → a ≤ n → digits (λ b. b) differ n a 0 ≡ a
digits-zero zero zero h = refl
digits-zero zero (suc a) h = absurd (omega (arith, h))
digits-zero (suc n) zero h = refl
digits-zero (suc n) (suc a) h = rw (digits-zero n (suc a / 2) (omega (arith, h))) (lowest (suc a))
  where
    lowest : (x : ℕ) → x / 2 * 2 + differ (x % 2) 0 ≡ x
    lowest x = omega (arith, differ-zero (x % 2))

digit-pos : (a k : ℕ) → (digit a k == 1) ≡ true → 2 ^ k ≤ a
digit-pos a k h = ground (arith, h, div-eq_of_lt {n = a} {m = 2 ^ k})

toggled-suc : (a k : ℕ) → toggled a (suc k) ≡ toggled (a / 2) k * 2 + a % 2
unfolding toggled
toggled-suc a k = elim (Bool-cases (digit (a / 2) k == 1)) [
  | inl e ↦ rw (digit-suc a k, e) (omega (arith, digit-pos (a / 2) k e, pow-suc 2 k))
  | inr e ↦ rw (digit-suc a k, e) (omega (arith, pow-suc 2 k))
]

toggled-zero : (x : ℕ) → x / 2 * 2 + differ (x % 2) 1 ≡ toggled x 0
unfolding toggled
toggled-zero x = ground (arith, differ-one (x % 2) (omega arith))

toggled-none : (k : ℕ) → toggled 0 k ≡ 2 ^ k
unfolding toggled
toggled-none k = rw (zero-div (2 ^ k)) (omega arith)

toggled-digits : (n k a : ℕ) → a ≤ n → digits (λ b. b) differ n a (2 ^ k) ≡ toggled a k
toggled-digits zero k zero h = sym (toggled-none k)
toggled-digits zero k (suc a) h = absurd (omega (arith, h))
toggled-digits (suc n) k zero h = sym (toggled-none k)
toggled-digits (suc n) zero (suc a) h =
    rw (digits-zero n (suc a / 2) (omega (arith, h))) (toggled-zero (suc a))
toggled-digits (suc n) (suc k) (suc a) h =
    let half : 2 ^ suc k / 2 ≡ 2 ^ k = omega (arith, pow-suc 2 k) in
    let even : 2 ^ suc k % 2 ≡ 0 = omega (arith, pow-suc 2 k) in
    rw (half, even, toggled-digits n k (suc a / 2) (omega (arith, h)), differ-zero (suc a % 2))
      (sym (toggled-suc (suc a) k))

-- Exclusive or with a single bit.
pub bit_xor-pow : (a k : ℕ) → bit_xor a (2 ^ k) ≡ (if digit a k == 1 then a - 2 ^ k else a + 2 ^ k)
unfolding toggled
bit_xor-pow a k = simp bit_xor-bitwise (toggled-digits a k a (omega arith))

pub pow_add : (a b : ℕ) → 2 ^ (a + b) ≡ 2 ^ a * 2 ^ b
pow_add a zero = let e : a + 0 ≡ a = omega arith in rw e (omega arith)
pow_add a (suc b) =
    let e : a + suc b ≡ suc (a + b) = omega arith in
    rw (e, pow-suc 2 (a + b), pow-suc 2 b, pow_add a b) (mul_assoc (2 ^ a) (2 ^ b) 2)

-- Numbers with the same digits below `s` are the same below 2 ^ s.
pub digits_ext :
    (s x y : ℕ) → x < 2 ^ s → y < 2 ^ s → ((k : ℕ) → k < s → digit x k ≡ digit y k) → x ≡ y
digits_ext zero x y h b same = omega (arith, h, b)
digits_ext (suc s) x y h b same =
    let rest =
      digits_ext s (x / 2) (y / 2) (omega (arith, h, pow-suc 2 s)) (omega (arith, b, pow-suc 2 s))
        (λ k c. sym (digit-suc x k) ∙ same (suc k) (omega (arith, c)) ∙ digit-suc y k) in
    omega (arith, rest, same 0 (omega arith))

-- Digits of a remainder and of a quotient.
pub digit-div : (v j k : ℕ) → digit (v / 2 ^ j) k ≡ digit v (j + k)
digit-div v j k =
    ap (λ w. w % 2) (div-div-eq-div-mul v (2 ^ j) (2 ^ k) ∙ ap (λ d. v / d) (sym (pow_add j k)))

pub digit-mod : (m k v : ℕ) → k < m → digit (v % 2 ^ m) k ≡ digit v k
digit-mod m k v h =
    let r : ℕ = m - suc k in
    let split : 2 ^ m ≡ 2 ^ k * (2 * 2 ^ r) =
      ap (λ n. 2 ^ n) (omega (arith, h))
      ∙ pow_add k (suc r)
      ∙ ap (λ n. 2 ^ k * n) (omega (arith, pow-suc 2 r)) in
    let whole : 2 ^ k * (2 * (2 ^ r * (v / 2 ^ m))) + v % 2 ^ m ≡ v =
      ap (λ n. n + v % 2 ^ m)
        (ap (λ n. 2 ^ k * n) (sym (mul_assoc 2 (2 ^ r) (v / 2 ^ m)))
          ∙ sym (mul_assoc (2 ^ k) (2 * 2 ^ r) (v / 2 ^ m))
          ∙ ap (λ n. n * (v / 2 ^ m)) (sym split))
      ∙ div-add-mod v (2 ^ m) in
    sym (
      ap (λ w. digit w k) (sym whole)
      ∙ ap (λ w. w % 2)
          (mul-add-div (one-le-pow k 2 (omega arith)) (2 * (2 ^ r * (v / 2 ^ m))) (v % 2 ^ m))
      ∙ omega arith)

spread : (l m q w : ℕ) → (m * q + w) * l ≡ l * m * q + l * w
spread l m q w = omega arith

-- A field of `s` bits, moved up against the end of `l + m` bits and down again.
pub shifted :
    (l m s v : ℕ) → s ≤ m → v * 2 ^ l % 2 ^ (l + m) / 2 ^ (l + m - s) ≡ v % 2 ^ m / 2 ^ (m - s)
shifted l m s v h =
    let w : ℕ = v % 2 ^ m in
    let moved : v * 2 ^ l % 2 ^ (l + m) ≡ 2 ^ l * w =
      ap (λ n. n * 2 ^ l % 2 ^ (l + m)) (sym (div-add-mod v (2 ^ m)))
      ∙ ap (λ n. n % 2 ^ (l + m))
          (spread (2 ^ l) (2 ^ m) (v / 2 ^ m) w
            ∙ ap (λ n. n * (v / 2 ^ m) + 2 ^ l * w) (sym (pow_add l m)))
      ∙ mul-add-mod_self_left (2 ^ (l + m)) (v / 2 ^ m) (2 ^ l * w)
      ∙ mod-eq_of_lt (
          rw (pow_add l m) (
            mul-lt-mul_of_pos_left (mod-lt v (one-le-pow m 2 (omega arith)))
              (one-le-pow l 2 (omega arith)))) in
    let e : l + m - s ≡ l + (m - s) = omega (arith, h) in
    rw (moved, e, pow_add l (m - s))
      (mul-div-mul_left w (2 ^ (m - s)) (one-le-pow l 2 (omega arith)))

pub digit-shifted :
    (l m s v k : ℕ)
    → s ≤ m
    → k < s
    → digit (v * 2 ^ l % 2 ^ (l + m) / 2 ^ (l + m - s)) k ≡ digit v (m - s + k)
digit-shifted l m s v k h b =
    ap (λ w. digit w k) (shifted l m s v h)
    ∙ digit-div (v % 2 ^ m) (m - s) k
    ∙ digit-mod m (m - s + k) v (omega (arith, h, b))

pub shifted-lt : (l m s v : ℕ) → s ≤ m → v * 2 ^ l % 2 ^ (l + m) / 2 ^ (l + m - s) < 2 ^ s
shifted-lt l m s v h =
    let e : 2 ^ s * 2 ^ (m - s) ≡ 2 ^ m =
      sym (pow_add s (m - s)) ∙ ap (λ n. 2 ^ n) (omega (arith, h)) in
    rw (shifted l m s v h) (
      (div-lt_iff_lt-mul (one-le-pow (m - s) 2 (omega arith))).1
        (rw e (mod-lt v (one-le-pow m 2 (omega arith)))))
