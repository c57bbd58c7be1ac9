-- ===== src/Encode/Rc4.antt =====
-- src/t_enc_rc4.c
pub mod Stream
use lua_t.Prelude.{
  ℕ, zero, suc, ◌+◌, ◌%◌, Bool, true, false, List, [], ◌∷◌, Option, none, some, Bytes, ltb, ◌==◌,
  if◌then◌else◌, length, get_or,
}
use lua_t.Prelude.Result.{Result, ok, fault, ◌>>=◌}
use lua_t.Encode.{xor_bits}

-- `struct t_enc_rc4`
pub record Rc4 : Type 0 where
  pub prng : ℕ → ℕ
  pub i1 : ℕ
  pub i2 : ℕ

abbrev pub store : (ℕ → ℕ) → ℕ → ℕ → (ℕ → ℕ)
store f i v k = if i == k then v else f k

-- `TYPESWAP( uint8_t, f[ i ], f[ j ] )`
abbrev pub typeswap : (ℕ → ℕ) → ℕ → ℕ → (ℕ → ℕ)
typeswap f i j = store (store f j (f i)) i (f j)

-- The second loop of `t_enc_rc4_init`, `n` rounds from `i` on.
abbrev pub schedule : Bytes → ℕ → ℕ → ℕ → (ℕ → ℕ) → (ℕ → ℕ)
schedule key zero i j f = f
schedule key (suc n) i j f =
    let j' = (j + f i + get_or key (i % length key) 0) % 256 in
    schedule key n (suc i) j' (typeswap f i j')

-- `t_enc_rc4_init`: with an empty key it divides by zero.
unfoldable pub init : Bytes → Result Rc4
init key =
    if length key == 0
    then fault
    else ok (record { prng = schedule key 256 0 0 (λ k. k); i1 = 0; i2 = 0 })

-- One round of the loop of `t_enc_rc4_crypt`: the new state.
abbrev pub advance : Rc4 → Rc4
advance r =
    let a = (r.i1 + 1) % 256 in
    let b = (r.i2 + r.prng a) % 256 in record { prng = typeswap r.prng a b; i1 = a; i2 = b }

-- The byte of the key stream that the round uses.
abbrev pub key_byte : Rc4 → ℕ
key_byte r = let s = advance r in s.prng ((s.prng s.i1 + s.prng s.i2) % 256)

-- The loop of `t_enc_rc4_crypt` from `i` on, where `i` is a `uint8_t`; `none` when the fuel is used up.
unfoldable pub crypt : ℕ → Rc4 → (ℕ → ℕ) → (ℕ → ℕ) → ℕ → ℕ → Option (Rc4 × (ℕ → ℕ))
crypt zero r inbuf outbuf buflen i = none
crypt (suc fuel) r inbuf outbuf buflen i =
    let rest =
      crypt fuel (advance r) inbuf (store outbuf i (xor_bits 8 (inbuf i) (key_byte r))) buflen
        ((i + 1) % 256) in
    if ltb i buflen then rest else some (r, outbuf)

-- The first `n` bytes of a buffer, from `i` on.
abbrev pub bytes_from : (ℕ → ℕ) → ℕ → ℕ → Bytes
bytes_from f i zero = []
bytes_from f i (suc n) = f i ∷ bytes_from f (suc i) n

-- `lt_enc_rc4_crypt`: the result's buffer is at first `junk`.
unfoldable pub crypt_string :
    ℕ → (ℕ → ℕ) → Rc4 → Bytes → Option Bytes → Result (Option (Rc4 × Bytes))
crypt_string fuel junk rc4 body key = do
  r ← elim key [ none ↦ ok rc4 | some k ↦ init k ]
  ok (elim (crypt fuel r (λ i. get_or body i 0) junk (length body) 0) [
    | none ↦ none
    | some (r', res) ↦ some (r', bytes_from res 0 (length body))
  ])
