-- ===== src/Loop/Tasks/Order.antt =====
-- Lists of tasks in the order of their timeouts, and sorted insertion.
use lua_t.Prelude.{
  ℕ, suc, ◌≡◌, refl, true, false, List, [], ◌∷◌, ◌==◌, if◌then◌else◌, arith, Bool-cases, inl, inr,
  length,
}
use lua_t.Prelude.Int.{ℤ, pos, ltb_ℤ}
use lua_t.Loop.Tasks.Chains.{mem, Distinct}
use lua_t.Loop.Tasks.Insert.{insert_before}
use lua_t.Loop.Tasks.Remove.{erase}

-- How many of the tasks are due.
abbrev pub count_due : (ℕ → ℤ) → List ℕ → ℕ
count_due z [] = 0
count_due z (i ∷ is) = if ltb_ℤ (z i) (pos 1) then suc (count_due z is) else count_due z is

-- No timeout is less than `t`.
abbrev pub Above : (ℕ → ℤ) → ℤ → List ℕ → Type 0
Above z t [] = Unit {0}
Above z t (i ∷ is) = (ltb_ℤ (z i) t ≡ false) × Above z t is

abbrev pub Sorted : (ℕ → ℤ) → List ℕ → Type 0
Sorted z [] = Unit {0}
Sorted z (i ∷ is) = Above z (z i) is × Sorted z is

insert_before-Above :
    (z : ℕ → ℤ) (t a : ℤ) (ins : ℕ) (is : List ℕ)
    → Above z a is
    → ltb_ℤ (z ins) a ≡ false
    → Above z a (insert_before z t ins is)
insert_before-Above z t a ins [] h k = (k, h)
insert_before-Above z t a ins (i ∷ is) (h, hs) k = elim (Bool-cases (ltb_ℤ (z i) t)) [
  | inl b ↦ rw b (h, insert_before-Above z t a ins is hs k)
  | inr b ↦ rw b (k, (h, hs))
]

Above-trans : (z : ℕ → ℤ) (a b : ℤ) (is : List ℕ) → ltb_ℤ b a ≡ false → Above z b is → Above z a is
Above-trans z a b [] h u = u
Above-trans z a b (i ∷ is) h (u, us) = (ground (arith, h, u), Above-trans z a b is h us)

-- Sorted insertion keeps the order.
pub insert_before-Sorted :
    (z : ℕ → ℤ) (ins : ℕ) (is : List ℕ) → Sorted z is → Sorted z (insert_before z (z ins) ins is)
insert_before-Sorted z ins [] s = (s, s)
insert_before-Sorted z ins (i ∷ is) (u, s) = elim (Bool-cases (ltb_ℤ (z i) (z ins))) [
  | inl b ↦ rw b (
    insert_before-Above z (z ins) (z i) ins is u (ground (arith, b)),
    insert_before-Sorted z ins is s,
  )
  | inr b ↦ rw b ((b, Above-trans z (z ins) (z i) is b u), (u, s))
]

pub count_due-insert_before :
    (z : ℕ → ℤ) (t : ℤ) (ins : ℕ) (is : List ℕ)
    → ltb_ℤ (z ins) (pos 1) ≡ false
    → count_due z (insert_before z t ins is) ≡ count_due z is
count_due-insert_before z t ins [] h = rw h refl
count_due-insert_before z t ins (i ∷ is) h = ground (arith, h, count_due-insert_before z t ins is h)

pub length-insert_before :
    (z : ℕ → ℤ) (t : ℤ) (ins : ℕ) (is : List ℕ)
    → length (insert_before z t ins is) ≡ suc (length is)
length-insert_before z t ins [] = refl
length-insert_before z t ins (i ∷ is) = ground (arith, length-insert_before z t ins is)

mem-insert_before :
    (z : ℕ → ℤ) (t : ℤ) (ins k : ℕ) (is : List ℕ)
    → (k == ins) ≡ false
    → mem k is ≡ false
    → mem k (insert_before z t ins is) ≡ false
mem-insert_before z t ins k [] h m = rw h refl
mem-insert_before z t ins k (i ∷ is) h m = ground (arith, h, m, mem-insert_before z t ins k is)

pub insert_before-Distinct :
    (z : ℕ → ℤ) (t : ℤ) (ins : ℕ) (is : List ℕ)
    → Distinct is
    → mem ins is ≡ false
    → Distinct (insert_before z t ins is)
insert_before-Distinct z t ins [] d m = (m, d)
insert_before-Distinct z t ins (i ∷ is) (e, d) m = elim (Bool-cases (ltb_ℤ (z i) t)) [
  | inl b ↦ rw b (
    mem-insert_before z t ins i is (ground (arith, m)) e,
    insert_before-Distinct z t ins is d (ground (arith, m)),
  )
  | inr b ↦ rw b (m, (e, d))
]

Above-local :
    (z y : ℕ → ℤ) (a : ℤ) (is : List ℕ)
    → ((k : ℕ) → mem k is ≡ true → y k ≡ z k)
    → Above z a is
    → Above y a is
Above-local z y a [] f u = u
Above-local z y a (i ∷ is) f (u, us) =
    (rw (f i (ground arith)) u, Above-local z y a is (λ k m. f k (ground (arith, m))) us)

-- The order depends only on the members' timeouts.
pub Sorted-local :
    (z y : ℕ → ℤ) (is : List ℕ)
    → ((k : ℕ) → mem k is ≡ true → y k ≡ z k)
    → Sorted z is
    → Sorted y is
Sorted-local z y [] f s = s
Sorted-local z y (i ∷ is) f (u, s) =
    let tail : (k : ℕ) → mem k is ≡ true → y k ≡ z k = λ k m. f k (ground (arith, m)) in
    (rw (f i (ground arith)) (Above-local z y (z i) is tail u), Sorted-local z y is tail s)

pub count_due-local :
    (z y : ℕ → ℤ) (is : List ℕ)
    → ((k : ℕ) → mem k is ≡ true → y k ≡ z k)
    → count_due y is ≡ count_due z is
count_due-local z y [] f = refl
count_due-local z y (i ∷ is) f =
    ground (arith, f i (ground arith), count_due-local z y is (λ k m. f k (ground (arith, m))))

erase-Above : (z : ℕ → ℤ) (a : ℤ) (c : ℕ) (is : List ℕ) → Above z a is → Above z a (erase c is)
erase-Above z a c [] u = u
erase-Above z a c (i ∷ is) (u, us) = elim (Bool-cases (c == i)) [
  | inl b ↦ rw b us
  | inr b ↦ rw b (u, erase-Above z a c is us)
]

pub erase-Sorted : (z : ℕ → ℤ) (c : ℕ) (is : List ℕ) → Sorted z is → Sorted z (erase c is)
erase-Sorted z c [] s = s
erase-Sorted z c (i ∷ is) (u, s) = elim (Bool-cases (c == i)) [
  | inl b ↦ rw b s
  | inr b ↦ rw b (erase-Above z (z i) c is u, erase-Sorted z c is s)
]
