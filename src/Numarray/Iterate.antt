-- ===== src/Numarray/Iterate.antt =====
-- Reading, writing, going through and comparing arrays.
use lua_t.Prelude.{
  ℕ, zero, suc, ◌+◌, ◌-◌, ◌%◌, ◌^◌, ◌<◌, ◌≡◌, ◌↔◌, refl, sym, ◌∙◌, ap, arith, Bool, true, false,
  ltb, leb, ==_iff, ◌==◌, if◌then◌else◌, Bool-cases, inl, inr, List, [], ◌∷◌, none, some,
}
use lua_t.Prelude.Int.{ℤ, pos, negsuc, eqb_ℤ, pos_part, neg_part}
use lua_t.Prelude.Word.{size_of, add_size}
use lua_t.Prelude.Result.{ok}
use lua_t.Numarray.{Numarray, store, getelem, index, newindex, iter, pairs_from, eq_loop, eq}

getelem_in : (a : Numarray) (i : ℕ) → i < a.len → a.len < 2 ^ 63 → getelem a (pos (suc i)) ≡ ok i
unfolding getelem
getelem_in a i h b =
    let low : leb 1 (suc i % 2 ^ 64) ≡ true = ground (arith, h, b) in
    let high : leb (suc i % 2 ^ 64) a.len ≡ true = ground (arith, h, b) in
    rw (low, high) (ap ok (omega (arith, h, b)))

-- What is written at an index is read back there; the length and the elements at the other
-- indices are as before. The condition: the index is from 1 to the length, which is under 2 ^ 63.
index-newindex :
    (a : Numarray) (i : ℕ) (x : ℤ)
    → i < a.len
    → a.len < 2 ^ 63
    → (b : Numarray) × (newindex a (pos (suc i)) x ≡ ok b)
      × (index b (pos (suc i)) ≡ ok x)
      × (b.len ≡ a.len)
      × ((j : ℕ) → (i == j) ≡ false → j < a.len → index b (pos (suc j)) ≡ index a (pos (suc j)))
unfolding newindex index
index-newindex a i x h b =
    let w : Numarray = record a { v = store a.v i x } in
    (
      w,
      rw (getelem_in a i h b) refl,
      rw (getelem_in w i h b) (ground arith),
      refl,
      λ j d c. rw (getelem_in w j c b, getelem_in a j c b) (rw d refl),
    )

-- The elements of `v` from `i` on, each with its index counted from 1.
unfoldable pub entries : ℕ → ℕ → (ℕ → ℤ) → List (ℕ × ℤ)
entries zero i v = []
entries (suc n) i v = (suc i, v i) ∷ entries n (suc i) v

iter_next :
    (a : Numarray) (i : ℕ) → i < a.len → a.len < 2 ^ 63 → iter a (pos i) ≡ (suc i, some (a.v i))
unfolding iter
iter_next a i h b =
    let e : add_size (size_of (pos i)) 1 ≡ suc i = omega (arith, h, b) in
    let f : ltb a.len (suc i) ≡ false = ground (arith, h) in
    rw (e, f) (ap (λ k. (suc i, some (a.v k))) (omega arith))

iter_end : (a : Numarray) → a.len < 2 ^ 63 → iter a (pos a.len) ≡ (suc a.len, none)
unfolding iter
iter_end a b =
    let e : add_size (size_of (pos a.len)) 1 ≡ suc a.len = omega (arith, b) in
    let f : ltb a.len (suc a.len) ≡ true = ground arith in rw (e, f) refl

pairs_from-end :
    (a : Numarray) (fuel i j : ℕ) → iter a (pos i) ≡ (j, none) → pairs_from (suc fuel) a i ≡ some []
unfolding pairs_from
pairs_from-end a fuel i j e = ground (arith, e)

pairs_from-next :
    (a : Numarray) (fuel i j : ℕ) (x : ℤ) (l : List (ℕ × ℤ))
    → iter a (pos i) ≡ (j, some x)
    → pairs_from fuel a j ≡ some l
    → pairs_from (suc fuel) a i ≡ some ((j, x) ∷ l)
unfolding pairs_from
pairs_from-next a fuel i j x l e h = ground (arith, e, h)

-- From index `i`, a loop over the pairs with a round for each element after it and one more ends,
-- and has been given these elements in order, each with its index. The condition: the length is
-- under 2 ^ 63.
pub pairs_from-entries :
    (a : Numarray) (n i : ℕ)
    → n + i ≡ a.len
    → a.len < 2 ^ 63
    → pairs_from (suc n) a i ≡ some (entries n i a.v)
unfolding entries
pairs_from-entries a zero i e h =
    let at : i ≡ a.len = omega (arith, e) in
    pairs_from-end a zero i (suc a.len) (ap (λ k. iter a (pos k)) at ∙ iter_end a h)
pairs_from-entries a (suc n) i e h =
    pairs_from-next a (suc n) i (suc i) (a.v i) (entries n (suc i) a.v)
      (iter_next a i (omega (arith, e)) h) (pairs_from-entries a n (suc i) (omega (arith, e)) h)

eqb_ℤ_iff : (x y : ℤ) → (eqb_ℤ x y ≡ true) ↔ (x ≡ y)
eqb_ℤ_iff (pos x) (pos y) = ((λ e. ap pos ((==_iff x y).0 e)), λ e. (==_iff x y).1 (ap pos_part e))
eqb_ℤ_iff (negsuc x) (negsuc y) =
    ((λ e. ap negsuc ((==_iff x y).0 e)), λ e. (==_iff x y).1 (omega (arith, ap neg_part e)))
eqb_ℤ_iff (pos x) (negsuc y) = ground arith
eqb_ℤ_iff (negsuc x) (pos y) = ground arith

if_iff : (b c : Bool) → ((if b then c else false) ≡ true) ↔ ((b ≡ true) × (c ≡ true))
if_iff true c = ((λ e. (refl, e)), λ p. p.1)
if_iff false c = ground arith

eq_loop_lem :
    (n i : ℕ) (v w : ℕ → ℤ) → (eq_loop n i v w ≡ true) ↔ ((k : ℕ) → k < n → v (i + k) ≡ w (i + k))
eq_loop_lem zero i v w = ((λ e k h. absurd (omega (arith, h))), λ f. refl)
eq_loop_lem (suc n) i v w =
    let both = if_iff (eqb_ℤ (v i) (w i)) (eq_loop n (suc i) v w) in
    let rest = eq_loop_lem n (suc i) v w in
    let here : i + 0 ≡ i = omega arith in
    let shift : (k : ℕ) → suc i + k ≡ i + suc k = λ k. omega arith in
    (
      (λ e k h. elim (Bool-cases (k == 0)) [
        | inl z ↦
            let at : i + k ≡ i = omega (arith, (==_iff k 0).0 z) in
            rw at ((eqb_ℤ_iff (v i) (w i)).0 (both.0 e).0)
        | inr z ↦
            let at : suc i + (k - 1) ≡ i + k = ground (arith, z) in
            rw (sym at) (rest.0 (both.0 e).1 (k - 1) (ground (arith, z, h)))
      ]),
      λ f. both.1 (
        (eqb_ℤ_iff (v i) (w i)).1 (rw (sym here) (f 0 (omega arith))),
        rest.1 (λ k h. rw (shift k) (f (suc k) (omega (arith, h)))),
      ),
    )

-- Two arrays compare equal just where they have the same length and the same elements.
pub eq_iff :
    (a b : Numarray) → (eq a b ≡ true) ↔ ((a.len ≡ b.len) × ((k : ℕ) → k < a.len → a.v k ≡ b.v k))
unfolding eq
eq_iff a b =
    let both = if_iff (a.len == b.len) (eq_loop a.len 0 a.v b.v) in
    let loop = eq_loop_lem a.len 0 a.v b.v in
    let zero_add : (k : ℕ) → 0 + k ≡ k = λ k. omega arith in
    (
      (λ e. (
        (==_iff a.len b.len).0 (both.0 e).0,
        λ k h. rw (sym (zero_add k)) (loop.0 (both.0 e).1 k h),
      )),
      λ p. both.1 ((==_iff a.len b.len).1 p.0, loop.1 (λ k h. rw (zero_add k) (p.1 k h))),
    )
