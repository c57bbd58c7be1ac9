-- ===== src/Encode/Crc/Chunks.antt =====
-- A checksum may be computed piece by piece, and an encoder may be used again.
use lua_t.Prelude.{
  ℕ, ◌+◌, ◌-◌, ◌<◌, ◌≤◌, ◌≡◌, refl, sym, ◌∙◌, ap, arith, Bool, true, [], ◌∷◌, ◌++◌, Bytes, Option,
  none, some, length, take, leb,
}
use lua_t.Prelude.Int.{ℤ, pos}
use lua_t.Prelude.Result.{Result, ok, argument, error, fault, ◌>>=◌}
use lua_t.Prelude.Word.{sub_size, size_of, int_of_integer}
use lua_t.Encode.Crc.{Crc, Algorithm, call, round, update, reset, result, calc}

bind_assoc :
    (m : Result ℕ) (f : ℕ → Result Crc) (g : Crc → Result Crc)
    → ((m >>= f) >>= g) ≡ (m >>= λ x. f x >>= g)
bind_assoc (ok a) f g = refl
bind_assoc (argument i) f g = refl
bind_assoc error f g = refl
bind_assoc fault f g = refl

bind_ap : (m : Result ℕ) (f g : ℕ → Result Crc) → ((x : ℕ) → f x ≡ g x) → (m >>= f) ≡ (m >>= g)
bind_ap m f g h = ap (λ k. m >>= k) (λ i x. h x i)

-- Two pieces one after the other are as good as the whole, for each of the algorithms and from every
-- state.
pub update-append : (k : Crc) (a b : Bytes) → update k (a ++ b) ≡ (update k a >>= λ k'. update k' b)
unfolding update
update-append k [] b = refl
update-append k (c ∷ a) b =
    bind_ap (round k c) _ _ (λ v. update-append (record k { crc = v }) a b)
    ∙ sym (bind_assoc (round k c) (λ v. update (record k { crc = v }) a) (λ k'. update k' b))

bind_inv :
    (m : Result ℕ) (f : ℕ → Result Crc) (k : Crc)
    → (m >>= f) ≡ ok k
    → (v : ℕ) × (m ≡ ok v) × (f v ≡ ok k)
bind_inv (ok v) f k h = (v, refl, h)
bind_inv (argument i) f k h = absurd (ground (arith, h))
bind_inv error f k h = absurd (ground (arith, h))
bind_inv fault f k h = absurd (ground (arith, h))

or_else : Result Crc → Crc → Crc
or_else (ok k) d = k
or_else (argument i) d = d
or_else error d = d
or_else fault d = d

-- A reset after any text takes the encoder back to a reset of what it was.
pub reset-update : (k k' : Crc) (t : Bytes) → update k t ≡ ok k' → reset k' ≡ reset k
unfolding update or_else
reset-update k k' [] h = sym (ap (λ r. reset (or_else r k)) h)
reset-update k k' (c ∷ t) h =
    let (v, e, g) = bind_inv (round k c) _ k' h in reset-update (record k { crc = v }) k' t g

fresh : (a : Algorithm) (big : Option Bool) → reset (call a big) ≡ call a big
unfolding call
fresh a big = ground arith

-- After a reset an encoder of any algorithm computes what a new one would, whatever it has read
-- without a fault.
pub calc-reset :
    (a : Algorithm) (big : Option Bool) (k : Crc) (t u : Bytes) (sta? end? : Option ℤ)
    → update (call a big) t ≡ ok k
    → calc (reset k) u sta? end? ≡ calc (call a big) u sta? end?
calc-reset a big k t u sta? end? h =
    ap (λ k. calc k u sta? end?) (reset-update (call a big) k t h ∙ fresh a big)

-- On a text of less than 2^31 bytes, a start index up to its length does not move the start: the
-- checksum is that of the first bytes, as many as are left from the start index on.
pub calc_start :
    (k : Crc) (t : Bytes) (n : ℕ)
    → n ≤ length t
    → length t < 0x8000_0000
    → calc k t (some (pos n)) none
      ≡ (update k (take (length t - n) (t ++ 0 ∷ [])) >>= λ k'. ok (result k', k'))
unfolding calc
calc_start k t n h b =
    let e : sub_size (length t) (size_of (int_of_integer (pos n))) ≡ length t - n =
      ground (arith, h, b) in
    let f : leb (length t - n) (length t + 1) ≡ true = ground arith in rw e (rw f refl)
