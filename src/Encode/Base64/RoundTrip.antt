-- ===== src/Encode/Base64/RoundTrip.antt =====
-- Decoding what was encoded.
use lua_t.Prelude.{
  ℕ, suc, ◌+◌, ◌*◌, ◌^◌, ltb, true, take, length-append, length-take, length-replicate, ◌-◌, ◌/◌,
  ◌%◌, ◌<◌, ◌≤◌, ◌≡◌, refl, Bool-cases, inl, inr, sym, ◌∙◌, ap, arith, false, [], ◌∷◌, ◌++◌, Bytes,
  ◌==◌, length, replicate,
}
use lua_t.Prelude.Result.{ok}
use lua_t.Encode.Base64.{
  decoded, padding, letter, encode_group, encode_groups, padded, encode, decode_group,
  decode_groups, reached, decode,
}
use lua_t.Encode.Base64.Sextets.{
  line_break, decoded-letter, second, third, second_lem, third_lem, decode_sextets,
}

-- One round reads four letters that decode to `w`, `x`, `y`, `z`.
decode_round :
    (p q r s w x y z : ℕ) (t u : Bytes)
    → line_break p ≡ false
    → decoded p ≡ ok w
    → decoded q ≡ ok x
    → decoded r ≡ ok y
    → decoded s ≡ ok z
    → decode_groups t ≡ ok u
    → decode_groups (p ∷ q ∷ r ∷ s ∷ t) ≡ ok (decode_group w x y z ++ u)
unfolding decode_groups
decode_round p q r s w x y z t u n e f g h k = rw n (rw e (rw f (rw g (rw h (rw k refl)))))

abbrev pub IsText : Bytes → Type 0
IsText [] = Unit {0}
IsText (c ∷ cs) = (c < 256) × IsText cs

padding_step : (n : ℕ) → padding (suc (suc (suc n))) ≡ padding n
padding_step n = let e : suc (suc (suc n)) % 3 ≡ n % 3 = omega arith in rw e refl

padding_small : (n : ℕ) → padding n < 3
padding_small n = elim (Bool-cases (n % 3 == 0)) [
  | inl e ↦ let z : n % 3 ≡ 0 = ground (arith, e) in rw z (omega arith)
  | inr e ↦ elim (Bool-cases (n % 3 == 1)) [
    | inl f ↦ let z : n % 3 ≡ 1 = ground (arith, f) in rw z (omega arith)
    | inr f ↦ let z : n % 3 ≡ 2 = ground (arith, e, f) in rw z (omega arith)
  ]
]

enough : (t : Bytes) → padding (length t) ≤ length (encode_groups t)
unfolding encode_groups encode_group
enough [] = omega arith
enough (a ∷ []) = omega arith
enough (a ∷ b ∷ []) = omega arith
enough (a ∷ b ∷ c ∷ t) = omega (arith, padding_small (length (a ∷ b ∷ c ∷ t)))

padded_step :
    (a b c : ℕ) (t : Bytes)
    → padded (a ∷ b ∷ c ∷ t)
      ≡ letter (a / 4) ∷ letter (second a b) ∷ letter (third b c) ∷ letter (c % 64) ∷ padded t
unfolding encode_groups encode_group
padded_step a b c t =
    let g = encode_groups t in
    let e : suc (suc (suc (suc (length g)))) - padding (length t)
        ≡ suc (suc (suc (suc (length g - padding (length t))))) =
      omega (arith, enough t) in
    rw (padding_step (length t)) (rw e refl)

equals_sign : decoded b'=' ≡ ok 0
unfolding decoded
equals_sign = refl

decode_nothing : decode_groups [] ≡ ok []
unfolding decode_groups
decode_nothing = refl

padded_one : (a : ℕ) → padded (a ∷ []) ≡ letter (a / 4) ∷ letter (second a 0) ∷ b'=' ∷ b'=' ∷ []
unfolding encode_groups encode_group
padded_one a = refl

padded_two :
    (a b : ℕ)
    → padded (a ∷ b ∷ []) ≡ letter (a / 4) ∷ letter (second a b) ∷ letter (third b 0) ∷ b'=' ∷ []
unfolding encode_groups encode_group
padded_two a b = refl

padded_nothing : padded [] ≡ []
unfolding encode_groups
padded_nothing = refl

decode_groups-padded :
    (t : Bytes) → IsText t → decode_groups (padded t) ≡ ok (t ++ replicate (padding (length t)) 0)
decode_groups-padded [] h = rw padded_nothing decode_nothing
decode_groups-padded (a ∷ []) (h, u) =
    let v : second a 0 < 64 = omega (arith, second_lem a 0 (omega arith)) in
    rw (padded_one a) (
      decode_round _ _ _ _ (a / 4) (second a 0) (third 0 0) 0 [] []
        (decoded-letter (a / 4) (omega arith)).1 (decoded-letter (a / 4) (omega arith)).0
        (decoded-letter (second a 0) v).0 equals_sign equals_sign decode_nothing
      ∙ ap (λ d. ok (d ++ [])) (decode_sextets a 0 0 h (omega arith) (omega arith)))
decode_groups-padded (a ∷ b ∷ []) (h, (k, u)) =
    let v : second a b < 64 = omega (arith, second_lem a b k) in
    let w : third b 0 < 64 = omega (arith, third_lem b 0 (omega arith)) in
    rw (padded_two a b) (
      decode_round _ _ _ _ (a / 4) (second a b) (third b 0) 0 [] []
        (decoded-letter (a / 4) (omega arith)).1 (decoded-letter (a / 4) (omega arith)).0
        (decoded-letter (second a b) v).0 (decoded-letter (third b 0) w).0 equals_sign
        decode_nothing
      ∙ ap (λ d. ok (d ++ [])) (decode_sextets a b 0 h k (omega arith)))
decode_groups-padded (a ∷ b ∷ c ∷ t) (h, (k, (l, u))) =
    let v : second a b < 64 = omega (arith, second_lem a b k) in
    let w : third b c < 64 = omega (arith, third_lem b c l) in
    rw (padded_step a b c t) (
      decode_round _ _ _ _ (a / 4) (second a b) (third b c) (c % 64) (padded t)
        (t ++ replicate (padding (length t)) 0) (decoded-letter (a / 4) (omega arith)).1
        (decoded-letter (a / 4) (omega arith)).0 (decoded-letter (second a b) v).0
        (decoded-letter (third b c) w).0 (decoded-letter (c % 64) (omega arith)).0
        (decode_groups-padded t u)
      ∙ ap (λ d. ok (d ++ (t ++ replicate (padding (length t)) 0))) (decode_sextets a b c h k l)
      ∙ ap (λ n. ok (a ∷ b ∷ c ∷ (t ++ replicate n 0))) (sym (padding_step (length t))))

below : (a b : ℕ) → a < b → ltb a b ≡ true
below a b h = ground arith

not_below : (a b : ℕ) → b ≤ a → ltb a b ≡ false
not_below a b h = ground arith

reached_lem : (t : Bytes) → reached t ≤ length t + 3
reached_lem [] = omega arith
reached_lem (a ∷ []) = ground arith
reached_lem (a ∷ b ∷ []) = ground (arith, reached_lem (b ∷ []))
reached_lem (a ∷ b ∷ c ∷ []) = ground (arith, reached_lem (b ∷ c ∷ []))
reached_lem (a ∷ b ∷ c ∷ d ∷ t) = ground (arith, reached_lem (b ∷ c ∷ d ∷ t), reached_lem t)

length-groups : (t : Bytes) → 3 * length (encode_groups t) ≤ 4 * length t + 8
unfolding encode_groups encode_group
length-groups [] = omega arith
length-groups (a ∷ []) = omega arith
length-groups (a ∷ b ∷ []) = omega arith
length-groups (a ∷ b ∷ c ∷ t) = omega (arith, length-groups t)

length-padded : (t : Bytes) → length (padded t) ≡ length (encode_groups t)
length-padded t =
    let groups = encode_groups t in
    length-append (take (length groups - padding (length t)) groups)
      (replicate {A = ℕ} (padding (length t)) b'=')
    ∙ omega (
      arith,
      enough t,
      length-take (length groups - padding (length t)) groups,
      length-replicate {A = ℕ} (padding (length t)) b'=',
    )

-- A text of bytes, of fewer than 3 * 2^30 - 6 of them, is encoded, and decoding the result gives it back with a
-- zero for each `=` at the end.
pub decode-encode :
    (t : Bytes)
    → IsText t
    → length t < 3 * 2 ^ 30 - 6
    → (c : Bytes) × (encode t ≡ ok c) × (decode c ≡ ok (t ++ replicate (padding (length t)) 0))
unfolding encode decode
decode-encode t u h =
    let g : ltb (2 ^ 32) (length (encode_groups t)) ≡ false =
      not_below _ _ (omega (arith, length-groups t, h)) in
    let r : ltb (reached (padded t)) (2 ^ 32) ≡ true =
      below _ _ (omega (arith, reached_lem (padded t), length-padded t, length-groups t, h)) in
    (padded t, rw g (λ _. ok (padded t)), rw r (decode_groups-padded t u))
