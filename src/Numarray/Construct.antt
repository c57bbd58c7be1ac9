-- ===== src/Numarray/Construct.antt =====
-- Arrays made from values.
use lua_t.Prelude.{
  ℕ, zero, suc, ◌+◌, ◌-◌, ◌<◌, ◌≡◌, refl, sym, ◌∙◌, ap, arith, false, ==_iff, ◌==◌, Bool-cases, inl,
  inr, List, [], ◌∷◌, map, some, length, get_elem?, length-map,
}
use lua_t.Prelude.Int.{ℤ, pos}
use lua_t.Prelude.Result.{ok}
use lua_t.Numarray.{Numarray, integer, fill, call, store}

get_elem?-zero : (z : ℤ) (zs : List ℤ) (k : ℕ) → k ≡ 0 → get_elem? (z ∷ zs) k ≡ some z
get_elem?-zero z zs zero h = refl
get_elem?-zero z zs (suc k) h = absurd (omega (arith, h))

get_elem?-suc :
    (z : ℤ) (zs : List ℤ) (k : ℕ) → (k == 0) ≡ false → get_elem? (z ∷ zs) k ≡ get_elem? zs (k - 1)
get_elem?-suc z zs zero h = absurd (ground (arith, h))
get_elem?-suc z zs (suc k) h = ap (get_elem? zs) (omega arith)

fill_values :
    (zs : List ℤ) (i : ℕ) (to : ℕ → ℤ)
    → (w : ℕ → ℤ) × (fill (map integer zs) i to ≡ ok w)
      × ((k : ℕ) → k < length zs → get_elem? zs k ≡ some (w (i + k)))
      × ((j : ℕ) → j < i → w j ≡ to j)
fill_values [] i to = (to, refl, (λ k h. absurd (omega (arith, h))), λ j h. refl)
fill_values (z ∷ zs) i to =
    let (w, e, values, before) = fill_values zs (suc i) (store to i z) in
    let here : w i ≡ z = before i (omega arith) ∙ ground arith in
    (
      w,
      e,
      λ k h. elim (Bool-cases (k == 0)) [
        | inl b ↦
            let at : k ≡ 0 = (==_iff k 0).0 b in
            get_elem?-zero z zs k at ∙ ap some (sym here ∙ ap w (omega (arith, at)))
        | inr b ↦
            let at : suc i + (k - 1) ≡ i + k = ground (arith, b) in
            get_elem?-suc z zs k b ∙ values (k - 1) (ground (arith, b, h)) ∙ ap (λ m. some (w m)) at
      ],
      λ j h. before j (omega (arith, h)) ∙ ground (arith, h),
    )

-- Of two integers or more, the constructor makes an array that holds them in order.
call_values :
    (x y : ℤ) (zs : List ℤ)
    → (a : Numarray) × (call (integer x ∷ integer y ∷ map integer zs) ≡ ok a)
      × (a.len ≡ suc (suc (length zs)))
      × ((k : ℕ) → k < a.len → get_elem? (x ∷ y ∷ zs) k ≡ some (a.v k))
unfolding call
call_values x y zs =
    let (w, e, values, before) = fill_values (x ∷ y ∷ zs) 0 (λ i. pos 0) in
    let n : length (map integer zs) ≡ length zs = length-map zs integer in
    (
      record { len = suc (suc (length (map integer zs))); v = w },
      rw e refl,
      ap (λ m. suc (suc m)) n,
      λ k h. values k (omega (arith, h, n)) ∙ ap (λ m. some (w m)) (omega arith),
    )
