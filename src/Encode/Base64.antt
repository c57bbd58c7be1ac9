-- ===== src/Encode/Base64.antt =====
-- src/t_enc_b64.c. The counters `i` and `j` of both loops are uint32_t: a text for which one of them goes
-- behind 2^32 - 1 makes them begin again at zero, which the model takes for a fault.
mod Sextets
pub mod RoundTrip
use Prim.Native.Nat.{bit_or}
use lua_t.Prelude.{
  ℕ, zero, suc, ◌+◌, ◌*◌, ◌-◌, ◌/◌, ◌%◌, ◌^◌, Bool, true, false, List, [], ◌∷◌, ◌++◌, Bytes, ltb,
  ◌==◌, ◌||◌, if◌then◌else◌, length, codes, get_or, take, replicate,
}
use lua_t.Prelude.Result.{Result, ok, fault, ◌>>=◌}

-- `enc_table`
abbrev pub enc_table : Bytes
enc_table = codes "ABCDEFGHIJKLMNOPQRSTUVWXYZabcdefghijklmnopqrstuvwxyz0123456789+/"

-- `dec_table`, as `luaopen_t_enc_b64` fills it: the index in `t` of the letter, from `i` on.
abbrev pub index_from : Bytes → ℕ → ℕ → ℕ
index_from [] i c = 0
index_from (x ∷ t) i c = if c == x then i else index_from t (suc i) c

-- `dec_table[ (int) c ]`: a `char` above 127 is a negative index.
unfoldable pub decoded : ℕ → Result ℕ
decoded c = if ltb c 128 then ok (index_from enc_table 0 c) else fault

-- `mod_table`
abbrev pub padding : ℕ → ℕ
padding n = get_or (0 ∷ 2 ∷ 1 ∷ []) (n % 3) 0

abbrev pub letter : ℕ → ℕ
letter i = get_or enc_table i 0

-- One round of the first loop of `b64_encode`.
unfoldable pub encode_group : ℕ → ℕ → ℕ → Bytes
encode_group d₁ d₂ d₃ =
    letter (d₁ / 4)
    ∷ letter (bit_or (d₁ % 4 * 16) (d₂ / 16))
    ∷ letter (bit_or (d₂ % 16 * 4) (d₃ / 64))
    ∷ letter (d₃ % 64)
    ∷ []

-- The loop, over the bytes that are left.
unfoldable pub encode_groups : Bytes → Bytes
encode_groups [] = []
encode_groups (a ∷ []) = encode_group a 0 0
encode_groups (a ∷ b ∷ []) = encode_group a b 0
encode_groups (a ∷ b ∷ c ∷ rest) = encode_group a b c ++ encode_groups rest

-- The second loop puts `=` over the end.
abbrev pub padded : Bytes → Bytes
padded t =
    let groups = encode_groups t in
    take (length groups - padding (length t)) groups ++ replicate (padding (length t)) b'='

-- `b64_encode`. Its `j` counts the letters; with more than 2^32 of them it begins again at zero and puts the
-- rest over the first ones, which leaves the end of the result unset.
unfoldable pub encode : Bytes → Result Bytes
encode t = if ltb (2 ^ 32) (length (encode_groups t)) then fault else ok (padded t)

-- What one round of `b64_decode` writes.
unfoldable pub decode_group : ℕ → ℕ → ℕ → ℕ → Bytes
decode_group e₁ e₂ e₃ e₄ =
    bit_or (e₁ * 4 % 256) (e₂ / 16)
    ∷ bit_or (e₂ % 16 * 16 % 256) (e₃ / 4)
    ∷ bit_or (e₃ % 4 * 64 % 256) e₄
    ∷ []

-- The loop of `b64_decode`, over the bytes that are left: the bytes that it writes. It reads four letters without
-- looking for the end; the text ends with a zero, behind which it may not read.
unfoldable pub decode_groups : Bytes → Result Bytes
unfolding decoded
decode_groups [] = ok []
decode_groups (a ∷ []) = if a == b'\n' || a == b'\r' then ok [] else fault
decode_groups (a ∷ b ∷ []) =
    let rest = decode_groups (b ∷ []) in if a == b'\n' || a == b'\r' then rest else fault
decode_groups (a ∷ b ∷ c ∷ []) =
    let rest = decode_groups (b ∷ c ∷ []) in
    if a == b'\n' || a == b'\r' then rest else (do
      e₁ ← decoded a
      e₂ ← decoded b
      e₃ ← decoded c
      e₄ ← decoded 0
      ok (decode_group e₁ e₂ e₃ e₄))
decode_groups (a ∷ b ∷ c ∷ d ∷ t) =
    let skipped = decode_groups (b ∷ c ∷ d ∷ t) in
    let rest = decode_groups t in
    if a == b'\n' || a == b'\r' then skipped else (do
      e₁ ← decoded a
      e₂ ← decoded b
      e₃ ← decoded c
      e₄ ← decoded d
      more ← rest
      ok (decode_group e₁ e₂ e₃ e₄ ++ more))

-- The value of `i` at the end of the loop, were it not for its width: a last round may go behind the text.
abbrev pub reached : Bytes → ℕ
reached [] = 0
reached (a ∷ []) = if a == b'\n' || a == b'\r' then 1 else 4
reached (a ∷ b ∷ []) =
    let rest = reached (b ∷ []) in if a == b'\n' || a == b'\r' then suc rest else 4
reached (a ∷ b ∷ c ∷ []) =
    let rest = reached (b ∷ c ∷ []) in if a == b'\n' || a == b'\r' then suc rest else 4
reached (a ∷ b ∷ c ∷ d ∷ t) =
    let skipped = reached (b ∷ c ∷ d ∷ t) in
    let rest = reached t in if a == b'\n' || a == b'\r' then suc skipped else 4 + rest

-- `b64_decode`. Its `i` must get to the end of the text: from 2^32 on it begins again at zero, and the loop
-- has no end, but writes on behind the result. Its `j` stays below `i`.
unfoldable pub decode : Bytes → Result Bytes
decode t = if ltb (reached t) (2 ^ 32) then decode_groups t else fault
