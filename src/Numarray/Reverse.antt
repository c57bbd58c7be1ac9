-- ===== src/Numarray/Reverse.antt =====
-- Reversing an array in place.
use lua_t.Prelude.{
  ℕ, zero, suc, ◌+◌, ◌-◌, ◌/◌, ◌^◌, ◌<◌, ◌≤◌, ◌≡◌, refl, sym, ◌∙◌, ap, arith, false, ltb, ==_iff,
  ◌==◌, if◌then◌else◌, Bool-cases, inl, inr,
}
use lua_t.Prelude.Int.{ℤ, pos, negsuc, pos_part, neg_part}
use lua_t.Prelude.Word.{int_of_integer}
use lua_t.Numarray.{Numarray, store, reverse_loop, reverse}

-- The value fits an `int`.
abbrev pub IsInt : ℤ → Type 0
IsInt z = (pos_part z < 2 ^ 31) × (neg_part z ≤ 2 ^ 31)

int_of_integer_lem : (z : ℤ) → IsInt z → int_of_integer z ≡ z
int_of_integer_lem (pos n) h = ground (arith, h)
int_of_integer_lem (negsuc n) h = ground (arith, h)

-- The swaps, with `g` for the conversion of the value in between.
module _ (g : ℤ → ℤ) where
  swap : ℕ → ℕ → (ℕ → ℤ) → ℕ → ℤ
  swap len n v = store (store v n (v (len - n - 1))) (len - n - 1) (g (v n))

  -- What the array `v` is after the first `n` swaps.
  mirrored : ℕ → ℕ → (ℕ → ℤ) → ℕ → ℤ
  mirrored len n v k =
      if ltb k n then v (len - 1 - k) else if ltb (len - 1 - n) k then g (v (len - 1 - k)) else v k

  mirrored-low : (len n : ℕ) (v : ℕ → ℤ) (k : ℕ) → k < n → mirrored len n v k ≡ v (len - 1 - k)
  unfolding mirrored
  mirrored-low len n v k h = ground (arith, h)

  mirrored-high :
      (len n : ℕ) (v : ℕ → ℤ) (k : ℕ)
      → n ≤ k
      → len - 1 - n < k
      → mirrored len n v k ≡ g (v (len - 1 - k))
  unfolding mirrored
  mirrored-high len n v k h b = ground (arith, h, b)

  mirrored-middle :
      (len n : ℕ) (v : ℕ → ℤ) (k : ℕ) → n ≤ k → k ≤ len - 1 - n → mirrored len n v k ≡ v k
  unfolding mirrored
  mirrored-middle len n v k h b = ground (arith, h, b)

  swap-low : (len n : ℕ) (w : ℕ → ℤ) → n < len / 2 → swap len n w n ≡ w (len - n - 1)
  unfolding swap
  swap-low len n w h = ground (arith, h)

  swap-high : (len n : ℕ) (w : ℕ → ℤ) → swap len n w (len - n - 1) ≡ g (w n)
  unfolding swap
  swap-high len n w = ground arith

  swap-other :
      (len n : ℕ) (w : ℕ → ℤ) (k : ℕ)
      → (n == k) ≡ false
      → (len - n - 1 == k) ≡ false
      → swap len n w k ≡ w k
  unfolding swap
  swap-other len n w k h b = rw (b, h)

  untouched :
      (len n : ℕ) (v : ℕ → ℤ) (k : ℕ)
      → (n == k) ≡ false
      → (len - n - 1 == k) ≡ false
      → n < len / 2
      → k < len
      → mirrored len n v k ≡ mirrored len (suc n) v k
  unfolding mirrored
  untouched len n v k d f h b =
      let low : ltb k (suc n) ≡ ltb k n = ground (arith, d) in
      let high : ltb (len - 1 - suc n) k ≡ ltb (len - 1 - n) k = ground (arith, f, h, b) in
      rw (low, high)

  one_swap :
      (len n : ℕ) (v w : ℕ → ℤ) (k : ℕ)
      → n < len / 2
      → k < len
      → ((j : ℕ) → j < len → w j ≡ mirrored len n v j)
      → swap len n w k ≡ mirrored len (suc n) v k
  one_swap len n v w k h b same = elim (Bool-cases (len - n - 1 == k)) [
    | inl e ↦
        let at : len - n - 1 ≡ k = (==_iff (len - n - 1) k).0 e in
        ap (swap len n w) (sym at)
        ∙ swap-high len n w
        ∙ ap g
            (same n (omega (arith, h)) ∙ mirrored-middle len n v n (omega arith) (omega (arith, h)))
        ∙ ap (λ i. g (v i)) (omega (arith, at, h))
        ∙ sym (mirrored-high len (suc n) v k (omega (arith, at, h)) (omega (arith, at, h)))
    | inr f ↦ elim (Bool-cases (n == k)) [
      | inl e ↦
          let at : n ≡ k = (==_iff n k).0 e in
          ap (swap len n w) (sym at)
          ∙ swap-low len n w h
          ∙ same (len - n - 1) (omega (arith, h))
          ∙ mirrored-middle len n v (len - n - 1) (omega (arith, h)) (omega arith)
          ∙ ap v (omega (arith, at, h))
          ∙ sym (mirrored-low len (suc n) v k (omega (arith, at)))
      | inr d ↦ swap-other len n w k d f ∙ same k b ∙ untouched len n v k d f h b
    ]
  ]

  -- All the rounds.
  swaps : ℕ → ℕ → ℕ → (ℕ → ℤ) → (ℕ → ℤ)
  swaps len zero n w = w
  swaps len (suc r) n w = swaps len r (suc n) (swap len n w)

  swaps_lem :
      (len r n : ℕ) (v w : ℕ → ℤ)
      → n + r ≤ len / 2
      → ((j : ℕ) → j < len → w j ≡ mirrored len n v j)
      → (k : ℕ) → k < len
      → swaps len r n w k ≡ mirrored len (n + r) v k
  unfolding swaps
  swaps_lem len zero n v w h same k b = same k b ∙ ap (λ m. mirrored len m v k) (omega arith)
  swaps_lem len (suc r) n v w h same k b =
      swaps_lem len r (suc n) v (swap len n w) (omega (arith, h))
        (λ j c. one_swap len n v w j (omega (arith, h)) c same) k b
      ∙ ap (λ m. mirrored len m v k) (omega arith)

reverse_loop-swaps :
    (len r n : ℕ) (w : ℕ → ℤ) → reverse_loop len r n w ≡ swaps int_of_integer len r n w
unfolding swap swaps
reverse_loop-swaps len zero n w = refl
reverse_loop-swaps len (suc r) n w = reverse_loop-swaps len r (suc n) (swap int_of_integer len n w)

-- Reversing keeps the length. An element of the first half is then the one as far from the end was;
-- an element of the second half is the one as far from the start was, converted to an `int`; one in
-- the middle is as before.
pub reverse_values :
    (a : Numarray)
    → ((reverse a).len ≡ a.len)
      × ((k : ℕ)
          → k < a.len
          → (reverse a).v k ≡ (
              if ltb k (a.len / 2)
              then a.v (a.len - 1 - k)
              else if ltb (a.len - 1 - a.len / 2) k
              then int_of_integer (a.v (a.len - 1 - k))
              else a.v k))
unfolding reverse mirrored
reverse_values a = (
  refl,
  λ k h.
      ap (λ w. w k) (reverse_loop-swaps a.len (a.len / 2) 0 a.v)
      ∙ swaps_lem int_of_integer a.len (a.len / 2) 0 a.v a.v (omega arith)
          (λ j b.
            sym (mirrored-middle int_of_integer a.len 0 a.v j (omega arith) (omega (arith, b))))
          k h
      ∙ ap (λ m. mirrored int_of_integer a.len m a.v k) (omega arith),
)

-- Each of the array's values fits an `int`.
abbrev pub AllInt : Numarray → Type 0
AllInt a = (k : ℕ) → k < a.len → IsInt (a.v k)

mirror : (a : Numarray) (k : ℕ) → AllInt a → k < a.len → (reverse a).v k ≡ a.v (a.len - 1 - k)
mirror a k ints h =
    let back = int_of_integer_lem (a.v (a.len - 1 - k)) (ints (a.len - 1 - k) (omega (arith, h))) in
    elim (Bool-cases (ltb k (a.len / 2))) [
      | inl e ↦ (reverse_values a).1 k h ∙ rw e refl
      | inr e ↦ elim (Bool-cases (ltb (a.len - 1 - a.len / 2) k)) [
        | inl d ↦ (reverse_values a).1 k h ∙ rw (e, d) back
        | inr d ↦ (reverse_values a).1 k h ∙ rw (e, d) (ap a.v (ground (arith, e, d, h)))
      ]
    ]

reverse-AllInt : (a : Numarray) → AllInt a → AllInt (reverse a)
unfolding reverse
reverse-AllInt a ints k h = rw (mirror a k ints h) (ints (a.len - 1 - k) (omega (arith, h)))

-- Where each value fits an `int`, reversing puts the elements in the opposite order, and reversing a
-- second time gives the elements and the length back.
pub reverse-reverse :
    (a : Numarray) (k : ℕ)
    → AllInt a
    → k < a.len
    → ((reverse a).v k ≡ a.v (a.len - 1 - k))
      × ((reverse (reverse a)).v k ≡ a.v k)
      × ((reverse (reverse a)).len ≡ a.len)
unfolding reverse
reverse-reverse a k ints h = (
  mirror a k ints h,
  mirror (reverse a) k (reverse-AllInt a ints) h
      ∙ mirror a (a.len - 1 - k) ints (omega (arith, h))
      ∙ ap a.v (omega (arith, h)),
  refl,
)
