-- ===== src/Buffer/Access/Range.antt =====
-- `buf:read( start, len )`: which bytes are read.
use lua_t.Prelude.{
  ℕ, ◌+◌, ◌-◌, ◌^◌, ◌≤◌, ◌<◌, ◌≡◌, true, Option, none, some, arith, ◌⊎◌, inl, inr, refl, Bool-cases,
}
use lua_t.Prelude.Int.{
  ℤ, pos, negsuc, ltb_ℤ, pos_part, neg_part, ◌+ℤ◌, ◌-ℤ◌, int_laws, +ℤ_parts, -ℤ_parts,
}
use lua_t.Prelude.Word.{wrap64, add64, sub64}
use lua_t.Buffer.Access.{read_range, flip_negative, cut_front, cut_back, posrelate, or_default}

-- A position or a length that is far from the ends of the range of `lua_Integer`.
abbrev pub IsModest : Option ℤ → Type 0
IsModest none = Unit {0}
IsModest (some z) = (pos_part z < 2 ^ 58) × (neg_part z < 2 ^ 58)

abbrev Near : ℕ → ℤ → Type 0
Near k z = (pos_part z ≤ k) × (neg_part z ≤ k)

one_sign : (z : ℤ) → (pos_part z ≡ 0) ⊎ (neg_part z ≡ 0)
one_sign (pos n) = inr refl
one_sign (negsuc n) = inl refl

wrap64-Near : (z : ℤ) → Near 0x7fff_ffff_ffff_ffff z → wrap64 z ≡ z
wrap64-Near (pos n) h = ground arith
wrap64-Near (negsuc n) h = ground arith

add64-Near :
    (j k : ℕ) (a b : ℤ)
    → j + k ≤ 2 ^ 63 - 1
    → Near j a
    → Near k b
    → (add64 a b ≡ a +ℤ b) × Near (j + k) (a +ℤ b)
add64-Near j k a b h ha hb =
    let n : Near (j + k) (a +ℤ b) = omega (int_laws, one_sign (a +ℤ b)) in
    (wrap64-Near (a +ℤ b) (omega arith), n)

sub64-Near :
    (j k : ℕ) (a b : ℤ)
    → j + k ≤ 2 ^ 63 - 1
    → Near j a
    → Near k b
    → (sub64 a b ≡ a -ℤ b) × Near (j + k) (a -ℤ b)
sub64-Near j k a b h ha hb =
    let n : Near (j + k) (a -ℤ b) = omega (int_laws, one_sign (a -ℤ b)) in
    (wrap64-Near (a -ℤ b) (omega arith), n)

flip-Near :
    (start len : ℤ)
    → Near (2 ^ 59) start
    → Near (2 ^ 60) len
    → Near (2 ^ 61) (flip_negative start len).0 × Near (2 ^ 60) (flip_negative start len).1
flip-Near start len hs hl = ground (
  arith,
  sub64-Near 0 (2 ^ 60) (pos 0) len (omega arith) (omega arith) hl,
  sub64-Near (2 ^ 59) (2 ^ 60) start (pos 0 -ℤ len) (omega arith) hs,
  add64-Near (2 ^ 59 + 2 ^ 60) 1 (start -ℤ (pos 0 -ℤ len)) (pos 1) (omega arith),
)

cut_front-Near :
    (start len : ℤ)
    → Near (2 ^ 61) start
    → Near (2 ^ 60) len
    → let (i, l) = cut_front (start, len) in
      (1 ≤ pos_part i) × (neg_part i ≡ 0) × (pos_part i ≤ 2 ^ 61) × Near (2 ^ 62) l
cut_front-Near (pos i) len hs hl = ground (
  arith,
  add64-Near (2 ^ 60) (2 ^ 61) len (pos i) (omega arith) hl hs,
  sub64-Near (2 ^ 60 + 2 ^ 61) 1 (len +ℤ pos i) (pos 1) (omega arith),
)
cut_front-Near (negsuc i) len hs hl = ground (
  arith,
  add64-Near (2 ^ 60) (2 ^ 61) len (negsuc i) (omega arith) hl hs,
  sub64-Near (2 ^ 60 + 2 ^ 61) 1 (len +ℤ negsuc i) (pos 1) (omega arith),
)

-- What is left of a range after its end was cut lies in the buffer.
cut_back_bounds :
    (n : ℕ) (i l : ℤ)
    → n < 2 ^ 58
    → (1 ≤ pos_part i) × (neg_part i ≡ 0) × (pos_part i ≤ 2 ^ 61) × Near (2 ^ 62) l
    → let (start, len) = cut_back (pos n) (i, l) in
      ltb_ℤ (pos 0) len ≡ true → (1 ≤ pos_part start) × (pos_part start - 1 + pos_part len ≤ n)
cut_back_bounds n (pos i) l hn h =
    let (e, near) = add64-Near (2 ^ 61) (2 ^ 62) (pos i) l (omega arith) (omega arith) h.3 in
    let (e', near') =
      sub64-Near (2 ^ 58) (2 ^ 61) (pos n) (pos i) (omega arith) (omega arith) (omega arith) in
    let (e'', near'') =
      add64-Near (2 ^ 58 + 2 ^ 61) 1 (pos n -ℤ pos i) (pos 1) (omega arith) near' (omega arith) in
    elim (Bool-cases (ltb_ℤ (pos n) (add64 (pos i) l))) [
      | inl t ↦ rw t (λ p. ground (
        arith,
        e',
        e'',
        -ℤ_parts (pos n) (pos i),
        +ℤ_parts (pos n -ℤ pos i) (pos 1),
        one_sign (pos n -ℤ pos i +ℤ pos 1),
        one_sign (pos n -ℤ pos i),
      ))
      | inr t ↦ rw t (λ p. ground (arith, e, +ℤ_parts (pos i) l, one_sign l, one_sign (pos i +ℤ l)))
    ]
cut_back_bounds n (negsuc i) l hn h = absurd (omega arith)

start-Near :
    (n : ℕ) (start? : Option ℤ)
    → n < 2 ^ 58
    → IsModest start?
    → Near (2 ^ 59) (posrelate (or_default start? (pos 1)) (pos n))
start-Near n none hn h = omega arith
start-Near n (some (pos i)) hn h = ground arith
start-Near n (some (negsuc i)) hn h = ground (
  arith,
  add64-Near (2 ^ 58) (2 ^ 58) (pos n) (negsuc i) (omega arith) (omega arith) (omega arith),
  add64-Near (2 ^ 59) 1 (pos n +ℤ negsuc i) (pos 1) (omega arith),
  +ℤ_parts (pos n) (negsuc i),
  +ℤ_parts (pos n +ℤ negsuc i) (pos 1),
  one_sign (pos n +ℤ negsuc i +ℤ pos 1),
  one_sign (pos n +ℤ negsuc i),
)

len-Near :
    (n : ℕ) (start : ℤ) (len? : Option ℤ)
    → n < 2 ^ 58
    → Near (2 ^ 59) start
    → IsModest len?
    → Near (2 ^ 60) (or_default len? (add64 (sub64 (pos n) start) (pos 1)))
len-Near n start (some l) hn hs h = omega arith
len-Near n start none hn hs h = ground (
  arith,
  sub64-Near (2 ^ 58) (2 ^ 59) (pos n) start (omega arith) (omega arith) hs,
  add64-Near (2 ^ 58 + 2 ^ 59) 1 (pos n -ℤ start) (pos 1) (omega arith),
)

-- Whatever start and length are asked for, short of an overflow, the range that is read lies in the
-- buffer.
pub read_range_bounds :
    (n : ℕ) (start? len? : Option ℤ)
    → n < 2 ^ 58
    → IsModest start?
    → IsModest len?
    → let (start, len) = read_range n start? len? in
      ltb_ℤ (pos 0) len ≡ true → (1 ≤ pos_part start) × (pos_part start - 1 + pos_part len ≤ n)
unfolding read_range
read_range_bounds n start? len? hn hs hl =
    let start = posrelate (or_default start? (pos 1)) (pos n) in
    let near = start-Near n start? hn hs in
    let (fs, fl) = flip-Near start _ near (len-Near n start len? hn near hl) in
    cut_back_bounds n _ _ hn (cut_front-Near _ _ fs fl)
