-- ===== src/Encode/Crc.antt =====
-- src/t_enc_crc.c
pub mod Chunks
use Prim.Native.Nat.{bit_xor}
use lua_t.Prelude.{
  ℕ, zero, suc, ◌+◌, ◌*◌, ◌-◌, ◌/◌, ◌%◌, ◌^◌, Bool, true, false, List, [], ◌∷◌, ◌++◌, Bytes, Option,
  none, some, length, take, ltb, leb, ◌==◌, if◌then◌else◌,
}
use lua_t.Prelude.Int.{ℤ, pos}
use lua_t.Prelude.Word.{int_of, int_of_integer, size_of, sub_size}
use lua_t.Prelude.Result.{Result, ok, argument, fault, ◌>>=◌}

-- `enum t_CRC_ALG`
pub data Algorithm : Type 0 where
  crc_8 crc_16 ccitt ccitt_krm crc_32 : Algorithm

-- Which of the four functions `calc` points to.
pub data Calc : Type 0 where
  calc_8 calc_16 calc_ccitt calc_32 : Calc

-- `struct t_enc_crc`, with the table that `calc` reads.
pub record Crc : Type 0 where
  pub calc : Calc
  pub table : ℕ → ℕ
  pub crc : ℕ
  pub init : ℕ
  pub big_endian : Bool

-- The inner loop of `init_8`, `n` bits.
abbrev pub bits_8 : ℕ → ℕ → ℕ → ℕ
bits_8 poly zero c = c
bits_8 poly (suc n) c = bits_8 poly n (bit_xor (c * 2 % 256) (if c / 128 % 2 == 1 then poly else 0))

-- The inner loop of `init_16`.
abbrev pub bits_16 : ℕ → ℕ → ℕ → ℕ → ℕ
bits_16 poly zero c run = c
bits_16 poly (suc n) c run =
    bits_16 poly n (if bit_xor c run % 2 == 0 then c / 2 else bit_xor (c / 2) poly) (run / 2)

-- The inner loop of `init_ccitt`.
abbrev pub bits_ccitt : ℕ → ℕ → ℕ → ℕ → ℕ
bits_ccitt poly zero c run = c
bits_ccitt poly (suc n) c run =
    bits_ccitt poly n
      (if bit_xor c run / 2 ^ 15 % 2 == 0 then c * 2 % 2 ^ 16 else bit_xor (c * 2 % 2 ^ 16) poly)
      (run * 2 % 2 ^ 16)

-- The inner loop of `init_32`.
abbrev pub bits_32 : ℕ → ℕ → ℕ → ℕ
bits_32 poly zero temp = temp
bits_32 poly (suc n) temp =
    bits_32 poly n (if temp % 2 == 1 then bit_xor (temp / 2) poly else temp / 2)

-- `init_8`
abbrev pub init_8 : ℕ → Bool → Crc
init_8 poly big = record {
  calc = calc_8;
  table = λ i. bits_8 poly 8 i;
  crc = 0;
  init = 0;
  big_endian = big;
}

-- `init_16`
abbrev pub init_16 : ℕ → Bool → Crc
init_16 poly big = record {
  calc = calc_16;
  table = λ i. bits_16 poly 8 0 i;
  crc = 0;
  init = 0;
  big_endian = big;
}

-- `init_ccitt`
abbrev pub init_ccitt : ℕ → Bool → Crc
init_ccitt poly big = record {
  calc = calc_ccitt;
  table = λ i. bits_ccitt poly 8 0 (i * 256 % 2 ^ 16);
  crc = 0;
  init = 0;
  big_endian = big;
}

-- `init_32`
abbrev pub init_32 : ℕ → Bool → Crc
init_32 poly big = record {
  calc = calc_32;
  table = λ i. bits_32 poly 8 i;
  crc = 0xffffffff;
  init = 0xffffffff;
  big_endian = big;
}

abbrev big_or_true : Option Bool → Bool
big_or_true none = true
big_or_true (some b) = b

-- `lt_enc_crc__Call`, with the polynomials that the file defines.
unfoldable pub call : Algorithm → Option Bool → Crc
call crc_8 big = init_8 0xd5 (big_or_true big)
call crc_16 big = init_16 0xa001 (big_or_true big)
call ccitt big = init_ccitt 4129 (big_or_true big)
call ccitt_krm big = init_16 0x8408 (big_or_true big)
call crc_32 big = init_32 0xedb88320 (big_or_true big)

-- One round of the loops of `calc_8`, `calc_16`, `calc_ccitt` and `calc_32`, at the byte `c`. For
-- `calc_8` a `char` above 127 is negative, and so is the index.
abbrev pub round : Crc → ℕ → Result ℕ
round k c = elim k.calc [
  | calc_8 ↦ if ltb c 128 then ok (k.table (bit_xor k.crc c)) else fault
  | calc_16 ↦ ok (bit_xor (k.crc / 256) (k.table (bit_xor (k.crc % 256) c)))
  | calc_ccitt ↦ ok (bit_xor (k.crc * 256 % 2 ^ 16) (k.table (bit_xor (k.crc / 256) c)))
  | calc_32 ↦ ok (bit_xor (k.crc / 256) (k.table (bit_xor (k.crc % 256) c)))
]

-- The loop: the encoder behind the bytes.
unfoldable pub update : Crc → Bytes → Result Crc
update k [] = ok k
update k (c ∷ cs) = do v ← round k c; update (record k { crc = v }) cs

-- `htons` and `htonl`, on a machine that has the low byte first.
abbrev pub htons : ℕ → ℕ
htons n = n % 256 * 256 + n / 256

abbrev pub htonl : ℕ → ℕ
htonl n = htons (n % 2 ^ 16) * 2 ^ 16 + htons (n / 2 ^ 16)

-- What the four functions return.
abbrev pub result : Crc → ℤ
result k = elim k.calc [
  | calc_8 ↦ int_of (bit_xor k.crc 0xff)
  | calc_16 ↦ int_of (if k.big_endian then k.crc else htons k.crc)
  | calc_ccitt ↦ int_of (if k.big_endian then k.crc else htons k.crc)
  | calc_32 ↦ int_of (if k.big_endian then 2 ^ 32 - 1 - k.crc else htonl (2 ^ 32 - 1 - k.crc))
]

-- `lt_enc_crc_reset`
abbrev pub reset : Crc → Crc
reset k = record k { crc = k.init }

-- `lt_enc_crc_calc`, on a Lua string, which ends with a zero behind its bytes: the first `end - sta`
-- bytes are taken, in `size_t`.
unfoldable pub calc : Crc → Bytes → Option ℤ → Option ℤ → Result (ℤ × Crc)
unfolding update
calc k msg sta? end? =
    let sta : ℤ = elim sta? [ none ↦ pos 0 | some sta ↦ int_of_integer sta ] in
    let end : ℕ = elim end? [ none ↦ length msg | some e ↦ size_of e ] in
    let len : ℕ = sub_size end (size_of sta) in
    if leb len (length msg + 1)
    then (do k' ← update k (take len (msg ++ 0 ∷ [])); ok (result k', k'))
    else fault
