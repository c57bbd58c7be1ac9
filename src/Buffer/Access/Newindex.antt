-- ===== src/Buffer/Access/Newindex.antt =====
-- Where `buf[ i ] = v` writes.
use lua_t.Prelude.{ℕ, ◌<◌, ◌≤◌, ◌≡◌, ◌∙◌, ap, arith, true, [], ◌∷◌, ◌&&◌}
use lua_t.Prelude.Int.{pos, ltb_ℤ}
use lua_t.Prelude.Word.{int_of, int_of_integer, byte_of}
use lua_t.Buffer.{Store, ok, at, store_place, IsValid, IsSmall}
use lua_t.Buffer.Segments.{leb_ℤ}
use lua_t.Buffer.Access.Memory.{written, store_place-at}
use lua_t.Buffer.Access.{newindex}

small_int : (n : ℕ) → n < 0x4000_0001 → int_of n ≡ pos n
small_int n h = ground (arith, h)

small_integer : (n : ℕ) → n < 0x4000_0001 → int_of_integer (pos n) ≡ pos n
small_integer n h = ground (arith, h)

small_byte : (v : ℕ) → v ≤ 255 → byte_of (pos v) ≡ v
small_byte v h = ground (arith, h)

-- In a valid store of small buffers, assigning a byte at an index from 1 to 255 that is not the last
-- one of the buffer stores it one position further.
pub newindex_behind :
    (s : Store) (i k v : ℕ)
    → IsValid s
    → IsSmall s
    → 1 ≤ k
    → k ≤ 255
    → v ≤ 255
    → k < (s.bufs i).len
    → newindex s i (pos k) (pos v) ≡ ok (written s i k (v ∷ []))
unfolding newindex store_place
newindex_behind s i k v w m h₁ h₂ h₃ h₄ =
    let a : (leb_ℤ (pos 0) (pos v) && leb_ℤ (pos k) (pos 255)) ≡ true = ground (arith, h₂, h₃) in
    let b : (ltb_ℤ (pos 0) (pos k) && leb_ℤ (pos k) (pos (s.bufs i).len)) ≡ true =
      ground (arith, h₁, h₄) in
    let c : store_place s (at i k) 0 (v ∷ []) ≡ ok (written s i k (v ∷ [])) =
      store_place-at s i k 0 (v ∷ []) (omega (arith, w.recorded i))
      ∙ ap (λ o. ok (written s i o (v ∷ []))) (omega arith) in
    rw (small_integer k (omega arith)) (
      rw (small_integer v (omega arith))
        (rw (small_int (s.bufs i).len (omega (arith, m i))) (rw a (rw b (rw (small_byte v h₃) c)))))
