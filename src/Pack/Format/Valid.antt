-- ===== src/Pack/Format/Valid.antt =====
-- What format strings are parsed to.
use lua_t.Prelude.{
  ℕ, zero, suc, ◌+◌, ◌-◌, ◌*◌, ◌%◌, ◌<◌, ◌≤◌, ◌≡◌, refl, arith, Bool, true, false, ◌&&◌, ◌||◌, List,
  [], ◌∷◌, Option, none, some, Bytes, ltb, ◌==◌, if◌then◌else◌, length, Bool-cases, Option-cases,
  inl, inr, ◌⊎◌,
}
use lua_t.Prelude.Result.{Result, ok, argument, error, fault, ◌>>=◌}
use lua_t.Pack.{Atom, Kind, bool, int, float, raw}
use lua_t.Pack.Trees.Shape.{CanBegin}
use lua_t.Pack.Format.{
  is_digit, parse_digits, parse_size, get_size_from_format, create, create_bytes, maxsize, option,
  modifier, Parsed, parse_fmt, packers,
}

-- The sizes in bits that there are for a kind: an integer of 1 to 64, a `float` or a `double`, and a text of
-- whole bytes, of one to 2^31 - 1 of them.
abbrev pub IsSized : Kind → ℕ → Type 0
IsSized bool s = s ≡ 1
IsSized int s = (1 ≤ s) × (s ≤ 64)
IsSized float s = (s ≡ 32) ⊎ (s ≡ 64)
IsSized raw s = (8 ≤ s) × (s ≤ 8 * maxsize) × (s % 8 ≡ 0)

-- A packer of such a size, which can begin at any border of a byte.
abbrev pub IsValid : Atom → Type 0
IsValid p = IsSized p.t p.s × CanBegin p 0

-- The digits are taken from the front.
parse_digits-length : (fmt : Bytes) (a : ℕ) → length (parse_digits fmt a).1 ≤ length fmt
parse_digits-length [] a = omega arith
parse_digits-length (c ∷ fmt) a = elim (Bool-cases (is_digit c && ltb a 268435454)) [
  | inl e ↦ rw e (omega (arith, parse_digits-length fmt (a * 10 + (c - b'0'))))
  | inr e ↦ rw e (omega arith)
]

parse_size-length : (fmt : Bytes) (dft : ℕ) → length (parse_size fmt dft).1 ≤ length fmt
parse_size-length [] dft = omega arith
parse_size-length (c ∷ fmt) dft = elim (Bool-cases (is_digit c)) [
  | inl e ↦ rw e (omega (arith, parse_digits-length fmt (0 + (c - b'0'))))
  | inr e ↦ rw e (omega arith)
]

-- What holds of a result, if there is one.
abbrev pub Holds {ℓ κ} : {A : Type ℓ} → (A → Type κ) → Result A → Type κ
Holds P (ok a) = P a
Holds P r = Unit

IsSize : ℕ → ℕ → ℕ × Bytes → Type 0
IsSize max n sz = (1 ≤ sz.0) × (sz.0 ≤ max) × (length sz.1 ≤ n)

get_size_from_format_lem :
    (fmt : Bytes) (dft max : ℕ) → Holds (IsSize max (length fmt)) (get_size_from_format fmt dft max)
unfolding IsSize
get_size_from_format_lem fmt dft max =
    elim (Bool-cases (ltb max (parse_size fmt dft).0 || (parse_size fmt dft).0 == 0)) [
      | inl e ↦ rw e tt
      | inr e ↦ rw e (ground (arith, e), ground (arith, e), parse_size-length fmt dft)
    ]

IsOption : ℕ → Atom × Bytes → Type 0
IsOption n p = IsValid p.0 × (length p.1 ≤ n)

choose {ℓ κ} :
    {A : Type ℓ} (P : A → Type κ) (c : Bool) (x y : A) → P x → P y → P (if c then x else y)
choose P true x y hx hy = hx
choose P false x y hx hy = hy

chain {ℓ κ} :
    {A B : Type ℓ} (P : A → Type κ) (Q : B → Type κ) (r : Result A) (next : A → Result B)
    → Holds P r
    → ((a : A) → P a → Holds Q (next a))
    → Holds Q (r >>= next)
chain P Q (ok a) next h step = step a h
chain P Q (argument i) next h step = tt
chain P Q error next h step = tt
chain P Q fault next h step = tt

-- Packers of a number of bytes, and of a number of bits.
bytes_lem :
    (ltl sgn : Bool) (f : Bytes) (dft : ℕ)
    → Holds
        (IsOption (length f))
        (do sz ← get_size_from_format f dft 8; ok (create_bytes int ltl sgn sz))
unfolding IsOption IsSize
bytes_lem ltl sgn f dft =
    chain (IsSize 8 (length f)) (IsOption (length f)) _ _ (get_size_from_format_lem f dft 8)
      (λ sz h.
        (((omega (arith, h.0), omega (arith, h.1)), (omega (arith, h.0), omega (arith, h.1))), h.2))

raw_lem :
    (f : Bytes) (dft : ℕ)
    → Holds
        (IsOption (length f))
        (do sz ← get_size_from_format f dft maxsize; ok (create_bytes raw false false sz))
unfolding IsOption IsSize
raw_lem f dft =
    chain (IsSize maxsize (length f)) (IsOption (length f)) _ _
      (get_size_from_format_lem f dft maxsize)
      (λ sz h.
        (((omega (arith, h.0), omega (arith, h.1), omega arith), (omega arith, omega arith)), h.2))

bits_lem :
    (sgn : Bool) (f : Bytes) (dft : ℕ)
    → Holds
        (IsOption (length f))
        (do sz ← get_size_from_format f dft 64; ok (create int false sgn sz))
unfolding IsOption IsSize
bits_lem sgn f dft =
    chain (IsSize 64 (length f)) (IsOption (length f)) _ _ (get_size_from_format_lem f dft 64)
      (λ sz h. (((h.0, h.1), (h.0, omega (arith, h.1))), h.2))

option_lem : (c : ℕ) (f : Bytes) (ltl : Bool) → Holds (IsOption (length f)) (option c f ltl)
unfolding option IsOption
option_lem c f ltl =
    let good : Result (Atom × Bytes) → Type 0 = Holds (IsOption (length f)) in
    let fixed_int : (sgn : Bool) (s : ℕ) → 1 ≤ s → s ≤ 64 → good (ok (create int ltl sgn (s, f))) =
      λ sgn s l h. (((l, h), (l, omega (arith, h))), omega arith) in
    let fixed_float : (s : ℕ)
        → (s ≡ 32) ⊎ (s ≡ 64)
        → s % 8 ≡ 0
        → good (ok (create float ltl false (s, f))) =
      λ s l h. ((l, (omega arith, h)), omega arith) in
    choose good (c == b'b') _ _ (fixed_int true 8 (omega arith) (omega arith)) (
      choose good (c == b'B') _ _ (fixed_int false 8 (omega arith) (omega arith)) (
        choose good (c == b'h') _ _ (fixed_int true 16 (omega arith) (omega arith)) (
          choose good (c == b'H') _ _ (fixed_int false 16 (omega arith) (omega arith)) (
            choose good (c == b'l' || c == b'j') _ _ (fixed_int true 64 (omega arith) (omega arith))
              (choose good (c == b'L' || c == b'J' || c == b'T') _ _
                (fixed_int false 64 (omega arith) (omega arith))
                (choose good (c == b'i') _ _ (bytes_lem ltl true f 4) (
                  choose good (c == b'I') _ _ (bytes_lem ltl false f 4) (
                    choose good (c == b'f') _ _ (fixed_float 32 (inl refl) (omega arith)) (
                      choose good (c == b'd' || c == b'n') _ _
                        (fixed_float 64 (inr refl) (omega arith))
                        (choose good (c == b'c') _ _ (raw_lem f 1) (
                          choose good (c == b'v') _ _ ((refl, refl), omega arith)
                            (choose good (c == b'r') _ _ (bits_lem true f 1)
                              (choose good (c == b'R') _ _ (bits_lem false f 1) tt)))))))))))))

-- A packer that is parsed is valid, and takes a letter at least.
IsParsed : ℕ → Option Parsed → Type 0
IsParsed n none = Unit
IsParsed n (some p) = IsValid p.packer × (length p.rest < n)

longer : (n : ℕ) (r : Result (Option Parsed)) → Holds (IsParsed n) r → Holds (IsParsed (suc n)) r
unfolding IsParsed
longer n (ok none) h = tt
longer n (ok (some p)) h = (h.0, omega (arith, h.1))
longer n (argument i) h = tt
longer n error h = tt
longer n fault h = tt

parse_fmt-modifier :
    (c : ℕ) (f : Bytes) (e e' : ℕ) → modifier c e ≡ some e' → parse_fmt (c ∷ f) e ≡ parse_fmt f e'
unfolding parse_fmt
parse_fmt-modifier c f e e' h = ground (arith, h)

parse_fmt-option :
    (c : ℕ) (f : Bytes) (e : ℕ)
    → modifier c e ≡ none
    → parse_fmt (c ∷ f) e ≡ (
        if c == 0
        then ok none
        else (do p ← option c f (e == 1); ok (some (record { packer = p.0; rest = p.1; e = e }))))
unfolding parse_fmt
parse_fmt-option c f e h = ground (arith, h)

parse_fmt_lem : (fmt : Bytes) (e : ℕ) → Holds (IsParsed (length fmt)) (parse_fmt fmt e)
unfolding parse_fmt IsParsed IsOption
parse_fmt_lem [] e = tt
parse_fmt_lem (c ∷ f) e = elim (Option-cases (modifier c e)) [
  | inl eq ↦ rw (parse_fmt-option c f e eq) (
      choose (Holds (IsParsed (suc (length f)))) (c == 0) _ _ tt (
        chain (IsOption (length f)) (IsParsed (suc (length f))) _ _ (option_lem c f (e == 1))
          (λ p h. (h.0, omega (arith, h.1)))))
  | inr q ↦
      rw (parse_fmt-modifier c f e q.0 q.1)
        (longer (length f) (parse_fmt f q.0) (parse_fmt_lem f q.0))
]

abbrev pub AllValid : List Atom → Type 0
AllValid [] = Unit
AllValid (p ∷ ps) = IsValid p × AllValid ps

-- The rounds of the loop.
Ends : ℕ → Bytes → ℕ → Type 0
Ends fuel fmt e = (r : Result (List Atom)) × (packers fuel fmt e ≡ some r) × Holds AllValid r

one_round :
    (fuel : ℕ) (fmt : Bytes) (e : ℕ) (r : Result (Option Parsed))
    → parse_fmt fmt e ≡ r
    → Holds (IsParsed (length fmt)) r
    → ((p : Parsed) → length p.rest < length fmt → Ends fuel p.rest p.e)
    → Ends (suc fuel) fmt e
unfolding packers IsParsed Ends
one_round fuel fmt e (ok none) h good next = (ok [], ground (arith, h), tt)
one_round fuel fmt e (ok (some p)) h good next =
    let (r, g, valid) = next p good.1 in
    (
      r >>= (λ ps. ok (p.packer ∷ ps)),
      ground (arith, h, g),
      chain AllValid AllValid r (λ ps. ok (p.packer ∷ ps)) valid (λ ps v. (good.0, v)),
    )
one_round fuel fmt e (argument i) h good next = (error, ground (arith, h), tt)
one_round fuel fmt e error h good next = (error, ground (arith, h), tt)
one_round fuel fmt e fault h good next = (error, ground (arith, h), tt)

packers-Ends : (fuel : ℕ) (fmt : Bytes) (e : ℕ) → length fmt < fuel → Ends fuel fmt e
packers-Ends zero fmt e h = absurd (omega (arith, h))
packers-Ends (suc fuel) fmt e h =
    one_round fuel fmt e (parse_fmt fmt e) refl (parse_fmt_lem fmt e)
      (λ p l. packers-Ends fuel p.rest p.e (omega (arith, h, l)))

-- With a round for each letter and one more, the loop over a format ends: in an error, or with packers
-- that can begin at any border of a byte, each of a size that there is for its kind: a bit for a Boolean, 1
-- to 64 bits for an integer, 32 or 64 bits for a floating point number, whole bytes for a text.
pub packers-AllValid :
    (fmt : Bytes) (e : ℕ)
    → (r : Result (List Atom)) × (packers (suc (length fmt)) fmt e ≡ some r) × Holds AllValid r
unfolding Ends
packers-AllValid fmt e = packers-Ends (suc (length fmt)) fmt e (omega arith)
