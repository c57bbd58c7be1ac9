-- ===== src/Encode/Rc4/Stream.antt =====
-- What `t_enc_rc4_crypt` computes: each byte is combined with the key stream, as long as the text has
-- less than 256 bytes; from there on its `uint8_t` counter never reaches the length.
use lua_t.Prelude.{
  ℕ, zero, suc, ◌+◌, ◌%◌, ◌<◌, ◌≤◌, ◌≡◌, refl, ◌∙◌, ap, arith, true, false, [], ◌∷◌, none, some,
  Bytes, ltb, length, get_or,
}
use lua_t.Prelude.Result.{ok}
use lua_t.Encode.{xor_bits, xor_byte_twice}
use lua_t.Encode.Rc4.{Rc4, store, advance, key_byte, crypt, bytes_from, crypt_string}

-- The state after `n` bytes.
abbrev pub after : ℕ → Rc4 → Rc4
after zero r = r
after (suc n) r = after n (advance r)

-- The text combined with the key stream.
abbrev pub combined : Rc4 → Bytes → Bytes
combined r [] = []
combined r (c ∷ cs) = xor_bits 8 c (key_byte r) ∷ combined (advance r) cs

abbrev pub IsText : Bytes → Type 0
IsText [] = Unit {0}
IsText (c ∷ cs) = (c < 256) × IsText cs

-- Combining twice from one state gives the text.
pub combined_twice : (r : Rc4) (t : Bytes) → IsText t → combined r (combined r t) ≡ t
combined_twice r [] h = refl
combined_twice r (c ∷ cs) (h, hs) =
    rw (xor_byte_twice c (key_byte r) h) (ap (λ t. c ∷ t) (combined_twice (advance r) cs hs))

pub length-combined : (r : Rc4) (t : Bytes) → length (combined r t) ≡ length t
length-combined r [] = refl
length-combined r (c ∷ cs) = ap suc (length-combined (advance r) cs)

store-same : (f : ℕ → ℕ) (i v : ℕ) → store f i v i ≡ v
store-same f i v = ground arith

store-below : (f : ℕ → ℕ) (i v k : ℕ) → k < i → store f i v k ≡ f k
store-below f i v k h = ground (arith, h)

crypt_more :
    (fuel : ℕ) (r : Rc4) (inbuf out : ℕ → ℕ) (n i : ℕ)
    → ltb i n ≡ true
    → crypt (suc fuel) r inbuf out n i
      ≡ crypt fuel
          (advance r)
          inbuf
          (store out i (xor_bits 8 (inbuf i) (key_byte r)))
          n
          ((i + 1) % 256)
unfolding crypt
crypt_more fuel r inbuf out n i h = rw h refl

-- The loop from `i` on, over the rest of the text.
crypt_lem :
    (fuel : ℕ) (r : Rc4) (inbuf out : ℕ → ℕ) (n i : ℕ) (t : Bytes)
    → i + length t ≡ n
    → n < 256
    → length t < fuel
    → ((k : ℕ) → inbuf (i + k) ≡ get_or t k 0)
    → (res : ℕ → ℕ) × (crypt fuel r inbuf out n i ≡ some (after (length t) r, res))
      × ((k : ℕ) → k < i → res k ≡ out k)
      × (bytes_from res i (length t) ≡ combined r t)
unfolding crypt
crypt_lem zero r inbuf out n i t e b f g = absurd (omega (arith, f))
crypt_lem (suc fuel) r inbuf out n i [] e b f g =
    let done : ltb i n ≡ false = ground (arith, e) in (out, rw done refl, λ k h. refl, refl)
crypt_lem (suc fuel) r inbuf out n i (c ∷ cs) e b f g =
    let more : ltb i n ≡ true = ground (arith, e) in
    let next : (i + 1) % 256 ≡ suc i = omega (arith, e, b) in
    let head : inbuf i ≡ c = ap inbuf (omega arith) ∙ g 0 in
    let (res, w, before, eq) =
      crypt_lem fuel (advance r) inbuf (store out i (xor_bits 8 (inbuf i) (key_byte r))) n (suc i)
        cs (omega (arith, e)) b (omega (arith, f)) (λ k. ap inbuf (omega arith) ∙ g (suc k)) in
    let here : res i ≡ xor_bits 8 c (key_byte r) =
      before i (omega arith)
      ∙ store-same out i (xor_bits 8 (inbuf i) (key_byte r))
      ∙ ap (λ x. xor_bits 8 x (key_byte r)) head in
    (
      res,
      crypt_more fuel r inbuf out n i more
          ∙ ap (crypt fuel (advance r) inbuf (store out i (xor_bits 8 (inbuf i) (key_byte r))) n)
              next
          ∙ w,
      λ k h.
          before k (omega (arith, h)) ∙ store-below out i (xor_bits 8 (inbuf i) (key_byte r)) k h,
      ap (λ x. x ∷ bytes_from res (suc i) (length cs)) here
          ∙ ap (λ t. xor_bits 8 c (key_byte r) ∷ t) eq,
    )

-- A text of less than 256 bytes is combined with the key stream of the state, or of the state that a
-- given key makes, with fuel for its length.
pub crypt_string-combined :
    (fuel : ℕ) (junk : ℕ → ℕ) (r : Rc4) (t : Bytes)
    → length t < 256
    → length t < fuel
    → crypt_string fuel junk r t none ≡ ok (some (after (length t) r, combined r t))
unfolding crypt_string
crypt_string-combined fuel junk r t b f =
    let (res, w, before, e) =
      crypt_lem fuel r (λ i. get_or t i 0) junk (length t) 0 t (omega arith) b f
        (λ k. ap (λ i. get_or t i 0) (omega arith)) in
    rw w (rw e refl)

-- Two ciphers in the same state undo each other, with fuel for the text: what one makes of a text of
-- less than 256 bytes the other turns into the text, and both end in the same state.
pub crypt_string-crypt_string :
    (fuel : ℕ) (junk junk' : ℕ → ℕ) (r : Rc4) (t : Bytes)
    → IsText t
    → length t < 256
    → length t < fuel
    → (c : Bytes) × (crypt_string fuel junk r t none ≡ ok (some (after (length t) r, c)))
      × (crypt_string fuel junk' r c none ≡ ok (some (after (length t) r, t)))
crypt_string-crypt_string fuel junk junk' r t h b f =
    let len : length (combined r t) ≡ length t = length-combined r t in
    (
      combined r t,
      crypt_string-combined fuel junk r t b f,
      crypt_string-combined fuel junk' r (combined r t) (omega (arith, len, b))
            (omega (arith, len, f))
          ∙ ap (λ n. ok (some (after n r, combined r (combined r t)))) len
          ∙ ap (λ u. ok (some (after (length t) r, u))) (combined_twice r t h),
    )

-- The loop over a text of 256 bytes or more is never finished, whatever the fuel and the counter.
pub crypt_endless :
    (fuel : ℕ) (r : Rc4) (inbuf out : ℕ → ℕ) (n i : ℕ)
    → 256 ≤ n
    → i < 256
    → crypt fuel r inbuf out n i ≡ none
unfolding crypt
crypt_endless zero r inbuf out n i h k = refl
crypt_endless (suc fuel) r inbuf out n i h k =
    crypt_more fuel r inbuf out n i (ground (arith, h, k))
    ∙ crypt_endless fuel (advance r) inbuf _ n ((i + 1) % 256) h (omega arith)
