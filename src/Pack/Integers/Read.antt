-- ===== src/Pack/Integers/Read.antt =====
-- What `t_pck_getIntValue` makes of the bits.
use lua_t.Prelude.{
  ℕ, zero, suc, ◌+◌, ◌-◌, ◌*◌, ◌/◌, ◌%◌, ◌^◌, ◌<◌, ◌≤◌, ◌≡◌, refl, sym, ◌∙◌, ap, arith, true,
  Bool-cases, ltb, leb, inl, inr, [], ◌∷◌, Bytes, length, get_or, slice, take, drop, length-take,
  length-drop,
}
use lua_t.Prelude.Result.{ok}
use lua_t.Pack.{Atom, load, copy_down, copy_bytes, integer_of}
use lua_t.Pack.Integers.{is_bitwise, push, get_int}
use lua_t.Pack.Integers.Binary.{digit, digit-div, digit-mod, digits_ext, digit-shifted, shifted-lt}
use lua_t.Pack.Integers.Bits.{bit, IsBytes}

pub get_or-take : (n i : ℕ) (b : Bytes) → i < n → get_or (take n b) i 0 ≡ get_or b i 0
get_or-take zero i b h = absurd (omega (arith, h))
get_or-take (suc n) i [] h = refl
get_or-take (suc n) zero (x ∷ b) h = refl
get_or-take (suc n) (suc i) (x ∷ b) h = get_or-take n i b (omega (arith, h))

pub get_or-drop : (n i : ℕ) (b : Bytes) → get_or (drop n b) i 0 ≡ get_or b (n + i) 0
get_or-drop zero i b = ap (λ k. get_or b k 0) (omega arith)
get_or-drop (suc n) i [] = refl
get_or-drop (suc n) i (x ∷ b) =
    get_or-drop n i b ∙ ap (λ k. get_or (x ∷ b) k 0) {x = suc (n + i)} (omega arith)

pub get_or-slice :
    (b : Bytes) (at n i : ℕ) → i < n → get_or (slice b at n) i 0 ≡ get_or b (at + i) 0
get_or-slice b at n i h = get_or-take n i (drop at b) h ∙ get_or-drop at i b

pub length-slice : (b : Bytes) (at n : ℕ) → at + n ≤ length b → length (slice b at n) ≡ n
length-slice b at n h = omega (arith, h, length-take n (drop at b), length-drop at b)

pub load_lem : (b : Bytes) (at n : ℕ) → at + n ≤ length b → load b at n ≡ ok (slice b at n)
load_lem b at n h = let e : leb (at + n) (length b) ≡ true = ground (arith, h) in rw e refl

-- `n` bytes that are copied the other way round, as a number: the first bit is its highest digit.
reversed_lem :
    (n : ℕ) (src : Bytes)
    → ((j : ℕ) → j < n → get_or src j 0 < 256)
    → (i : ℕ) → i < 8 * n
    → digit (integer_of (copy_down n src)) (8 * n - 1 - i) ≡ bit src i
reversed_lem zero src h i b = absurd (omega (arith, b))
reversed_lem (suc n) src h i b =
    let rest : ℕ = integer_of (copy_down n src) in
    let c : ℕ = get_or src n 0 in
    let small : c < 256 = h n (omega arith) in
    elim (Bool-cases (ltb i (8 * n))) [
      | inl e ↦
          let above : i < 8 * n = ground (arith, e) in
          ap (digit (c + 256 * rest)) {x = 8 * suc n - 1 - i} {y = 8 + (8 * n - 1 - i)}
            (omega (arith, above))
          ∙ sym (digit-div (c + 256 * rest) 8 (8 * n - 1 - i))
          ∙ ap (λ v. digit v (8 * n - 1 - i)) (omega (arith, small))
          ∙ reversed_lem n src (λ j m. h j (omega (arith, m))) i above
      | inr e ↦
          let here : i / 8 ≡ n = ground (arith, e, b) in
          ap (digit (c + 256 * rest)) {y = 7 - i % 8} (omega (arith, here))
          ∙ sym (digit-mod 8 (7 - i % 8) (c + 256 * rest) (omega arith))
          ∙ ap (λ v. digit v (7 - i % 8)) (omega (arith, small))
          ∙ ap (λ q. digit (get_or src q 0) (7 - i % 8)) (sym here)
    ]

bit-slice : (b : Bytes) (at n i : ℕ) → i < 8 * n → bit (slice b at n) i ≡ bit b (8 * at + i)
bit-slice b at n i h =
    ap (λ c. digit c (7 - i % 8)) (get_or-slice b at n (i / 8) (omega (arith, h)))
    ∙ ap (λ q. digit (get_or b q 0) (7 - i % 8)) {x = at + i / 8} {y = (8 * at + i) / 8}
        (omega arith)
    ∙ ap (λ r. digit (get_or b ((8 * at + i) / 8) 0) (7 - r)) {x = i % 8} {y = (8 * at + i) % 8}
        (omega arith)

-- The value that stands in `s` bits behind the first `ofs` of `n` bytes.
value_lem :
    (b : Bytes) (at n ofs s val : ℕ)
    → IsBytes b
    → n ≤ 8
    → ofs + s ≤ 8 * n
    → val < 2 ^ s
    → ((j : ℕ) → j < s → bit b (8 * at + ofs + j) ≡ digit val (s - 1 - j))
    → integer_of (copy_down n (slice b at n)) * 2 ^ (64 - n * 8 + ofs) % 2 ^ 64 / 2 ^ (64 - s) ≡ val
value_lem b at n ofs s val bytes h k fits set =
    let v : ℕ = integer_of (copy_down n (slice b at n)) in
    let l : ℕ = 64 - n * 8 + ofs in
    let m : ℕ = 8 * n - ofs in
    let whole : l + m ≡ 64 = omega (arith, h, k) in
    let room : s ≤ m = omega (arith, k) in
    let got : ℕ = v * 2 ^ l % 2 ^ (l + m) / 2 ^ (l + m - s) in
    let src_bytes : (j : ℕ) → j < n → get_or (slice b at n) j 0 < 256 =
      λ j c. rw (get_or-slice b at n j c) (bytes (at + j)) in
    ap (λ w. v * 2 ^ l % 2 ^ w / 2 ^ (w - s)) (sym whole)
    ∙ digits_ext s got val (shifted-lt l m s v room) fits (λ j c.
      digit-shifted l m s v j room c
      ∙ ap (digit v) {x = m - s + j} {y = 8 * n - 1 - (ofs + (s - 1 - j))} (omega (arith, c, k))
      ∙ reversed_lem n (slice b at n) src_bytes (ofs + (s - 1 - j)) (omega (arith, c, k))
      ∙ bit-slice b at n (ofs + (s - 1 - j)) (omega (arith, c, k))
      ∙ ap (bit b) (omega arith)
      ∙ set (s - 1 - j) (omega (arith, c))
      ∙ ap (digit val) (omega (arith, c)))

-- The bits of a value of `s` bits are read as that value.
pub get_int_bits :
    (b : Bytes) (at ofs val : ℕ) (p : Atom)
    → IsBytes b
    → is_bitwise p ofs ≡ true
    → 1 ≤ p.s
    → p.s + ofs ≤ 64
    → 8 * at + ofs + p.s ≤ 8 * length b
    → val < 2 ^ p.s
    → ((j : ℕ) → j < p.s → bit b (8 * at + ofs + j) ≡ digit val (p.s - 1 - j))
    → get_int b at p ofs ≡ ok (push p val)
unfolding get_int copy_bytes
get_int_bits b at ofs val p bytes bitwise pos_s small inside fits set =
    let n : ℕ = (p.s + ofs - 1) / 8 + 1 in
    let room : ofs + p.s ≤ 8 * n = omega (arith, pos_s) in
    let eight : n ≤ 8 = omega (arith, small) in
    let in_buffer : at + n ≤ length b = omega (arith, inside, pos_s) in
    let test : leb n 8 ≡ true = ground (arith, eight) in
    rw (bitwise, load_lem b at n in_buffer, test, length-slice b at n in_buffer)
      (ap (λ v. ok (push p v)) (value_lem b at n ofs p.s val bytes eight room fits set))
