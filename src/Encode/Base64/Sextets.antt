-- ===== src/Encode/Base64/Sextets.antt =====
-- Three bytes are four numbers below 64.
use Prim.Native.Nat.{bit_or}
use lua_t.Prelude.{
  ℕ, ◌+◌, ◌*◌, ◌/◌, ◌%◌, ◌<◌, ◌≡◌, refl, ◌∙◌, ap, arith, Bool, true, false, not, ◌&&◌, ◌||◌, [],
  ◌∷◌, ltb, ◌==◌, ==_iff,
}
use lua_t.Prelude.Bits.{tested_under, tested_under_lem}
use lua_t.Prelude.Result.{ok}
use lua_t.Encode.Base64.{enc_table, index_from, decoded, letter, decode_group}

-- On separate bits `|` is a sum.
or_tested : ℕ → ℕ → ℕ → Bool
or_tested k x y = bit_or (x * k) y == x * k + y

or_table_16 : tested_under (λ x. tested_under (or_tested 16 x) 16) 4 ≡ true
unfolding tested_under or_tested
or_table_16 = refl

or_table_4 : tested_under (λ x. tested_under (or_tested 4 x) 4) 64 ≡ true
unfolding tested_under or_tested
or_table_4 = refl

or_table_16' : tested_under (λ x. tested_under (or_tested 16 x) 16) 16 ≡ true
unfolding tested_under or_tested
or_table_16' = refl

or_table_64 : tested_under (λ x. tested_under (or_tested 64 x) 64) 4 ≡ true
unfolding tested_under or_tested
or_table_64 = refl

or_16 : (x y : ℕ) → x < 16 → y < 16 → bit_or (x * 16) y ≡ x * 16 + y
unfolding or_tested
or_16 x y h k =
    (==_iff _ _).0 (tested_under_lem (or_tested 16 x) 16 k (tested_under_lem _ 16 h or_table_16'))

or_4 : (x y : ℕ) → x < 64 → y < 4 → bit_or (x * 4) y ≡ x * 4 + y
unfolding or_tested
or_4 x y h k =
    (==_iff _ _).0 (tested_under_lem (or_tested 4 x) 4 k (tested_under_lem _ 64 h or_table_4))

or_64 : (x y : ℕ) → x < 4 → y < 64 → bit_or (x * 64) y ≡ x * 64 + y
unfolding or_tested
or_64 x y h k =
    (==_iff _ _).0 (tested_under_lem (or_tested 64 x) 64 k (tested_under_lem _ 4 h or_table_64))

abbrev pub line_break : ℕ → Bool
line_break c = c == b'\n' || c == b'\r'

letter_tested : ℕ → Bool
letter_tested i =
    ltb (letter i) 128 && (index_from enc_table 0 (letter i) == i) && not (line_break (letter i))

letter_table : tested_under letter_tested 64 ≡ true
unfolding tested_under letter_tested
letter_table = refl

tests_hold : (b c d : Bool) → (b && c && not d) ≡ true → (b ≡ true) × (c ≡ true) × (d ≡ false)
tests_hold true true false h = (refl, refl, refl)
tests_hold true true true h = absurd (ground (arith, h))
tests_hold true false d h = absurd (ground (arith, h))
tests_hold false c d h = absurd (ground (arith, h))

decoded_index :
    (c i : ℕ) → ltb c 128 ≡ true → (index_from enc_table 0 c == i) ≡ true → decoded c ≡ ok i
unfolding decoded
decoded_index c i h k = rw h (ap ok ((==_iff _ _).0 k))

pub decoded-letter :
    (i : ℕ) → i < 64 → (decoded (letter i) ≡ ok i) × (line_break (letter i) ≡ false)
unfolding letter_tested
decoded-letter i h =
    let (e, f, g) = tests_hold _ _ _ (tested_under_lem letter_tested 64 h letter_table) in
    (decoded_index (letter i) i e f, g)

first_byte :
    (a b : ℕ) → a < 256 → b < 256 → bit_or (a / 4 * 4 % 256) ((a % 4 * 16 + b / 16) / 16) ≡ a
first_byte a b ha hb =
    let p : a / 4 * 4 % 256 ≡ a / 4 * 4 = omega arith in
    let q : (a % 4 * 16 + b / 16) / 16 ≡ a % 4 = omega arith in
    rw p (rw q (or_4 (a / 4) (a % 4) (omega arith) (omega arith) ∙ omega arith))

second_byte :
    (a b c : ℕ)
    → b < 256
    → c < 256
    → bit_or ((a % 4 * 16 + b / 16) % 16 * 16 % 256) ((b % 16 * 4 + c / 64) / 4) ≡ b
second_byte a b c hb hc =
    let p : (a % 4 * 16 + b / 16) % 16 * 16 % 256 ≡ b / 16 * 16 = omega arith in
    let q : (b % 16 * 4 + c / 64) / 4 ≡ b % 16 = omega arith in
    rw p (rw q (or_16 (b / 16) (b % 16) (omega arith) (omega arith) ∙ omega arith))

third_byte : (b c : ℕ) → c < 256 → bit_or ((b % 16 * 4 + c / 64) % 4 * 64 % 256) (c % 64) ≡ c
third_byte b c hc =
    let p : (b % 16 * 4 + c / 64) % 4 * 64 % 256 ≡ c / 64 * 64 = omega arith in
    rw p (or_64 (c / 64) (c % 64) (omega arith) (omega arith) ∙ omega arith)

-- The numbers below 64 that three bytes are encoded as, without their letters.
abbrev pub second : ℕ → ℕ → ℕ
second a b = bit_or (a % 4 * 16) (b / 16)

abbrev pub third : ℕ → ℕ → ℕ
third b c = bit_or (b % 16 * 4) (c / 64)

pub second_lem : (a b : ℕ) → b < 256 → second a b ≡ a % 4 * 16 + b / 16
second_lem a b h = or_16 (a % 4) (b / 16) (omega arith) (omega arith)

pub third_lem : (b c : ℕ) → c < 256 → third b c ≡ b % 16 * 4 + c / 64
third_lem b c h = or_4 (b % 16) (c / 64) (omega arith) (omega arith)

pub decode_sextets :
    (a b c : ℕ)
    → a < 256
    → b < 256
    → c < 256
    → decode_group (a / 4) (second a b) (third b c) (c % 64) ≡ a ∷ b ∷ c ∷ []
unfolding decode_group
decode_sextets a b c ha hb hc = rw (second_lem a b hb) (
    rw (third_lem b c hc)
      (rw (first_byte a b ha hb) (rw (second_byte a b c hb hc) (rw (third_byte b c hc) refl))))
