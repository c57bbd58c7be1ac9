-- ===== src/Encode.antt =====
-- src/t_enc_rc4.c, src/t_enc_b64.c and src/t_enc_crc.c: the encoders.
pub mod Rc4
pub mod Base64
pub mod Crc
mod Tests
use lua_t.Prelude.{
  ℕ, zero, suc, ◌+◌, ◌*◌, ◌/◌, ◌%◌, ◌^◌, ◌<◌, ◌≡◌, refl, arith, Bool, if◌then◌else◌,
}

-- `a ^ b` on the lowest `n` bits.
abbrev pub xor_bits : ℕ → ℕ → ℕ → ℕ
xor_bits zero a b = 0
xor_bits (suc n) a b = (a % 2 + b % 2) % 2 + 2 * xor_bits n (a / 2) (b / 2)

-- `a` has at most `n` bits.
abbrev pub Fits : ℕ → ℕ → Type 0
Fits zero a = a ≡ 0
Fits (suc n) a = Fits n (a / 2)

upper : (a b x : ℕ) → ((a % 2 + b % 2) % 2 + 2 * x) / 2 ≡ x
upper a b x = omega arith

-- Twice the same key gives the bits back.
pub xor_bits_twice : (n a b : ℕ) → Fits n a → xor_bits n (xor_bits n a b) b ≡ a
xor_bits_twice zero a b h = omega (arith, h)
xor_bits_twice (suc n) a b h =
    let rest : xor_bits n (xor_bits n (a / 2) (b / 2)) (b / 2) ≡ a / 2 =
      xor_bits_twice n (a / 2) (b / 2) h in
    rw (upper a b (xor_bits n (a / 2) (b / 2))) (rw rest (omega arith))

-- On bytes.
pub xor_byte_twice : (a b : ℕ) → a < 256 → xor_bits 8 (xor_bits 8 a b) b ≡ a
xor_byte_twice a b h = xor_bits_twice 8 a b (omega arith)
