-- ===== src/Encode/Tests.antt =====
-- The encoders' theorems at short texts, and known checksums.
use lua_t.Prelude.{refl, ◌≡◌, some, none, [], ◌∷◌, ◌++◌, Bytes, codes, arith}
use lua_t.Prelude.Int.{pos}
use lua_t.Prelude.Result.{ok, ◌>>=◌}
use lua_t.Encode.Rc4.{Rc4, crypt, crypt_string}
use lua_t.Encode.Rc4.Stream.{after, crypt_string-crypt_string, crypt_endless}
use lua_t.Encode.Base64.{encode, decode}
use lua_t.Encode.Base64.RoundTrip.{decode-encode}
use lua_t.Encode.Crc.{Crc, call, crc_16, crc_32, update, reset, result, calc}
use lua_t.Encode.Crc.Chunks.{update-append, calc-reset, calc_start}

abbrev plain_state : Rc4
plain_state = record { prng = λ k. k; i1 = 0; i2 = 0 }

crypt_string-crypt_string_example :
    (c : Bytes) × (crypt_string 6 (λ k. 0) plain_state (codes "hello") none
      ≡ ok (some (after 5 plain_state, c)))
    × (crypt_string 6 (λ k. 1) plain_state c none ≡ ok (some (after 5 plain_state, codes "hello")))
crypt_string-crypt_string_example =
    crypt_string-crypt_string 6 (λ k. 0) (λ k. 1) plain_state (codes "hello") (omega arith)
      (omega arith) (omega arith)

crypt_endless_example : crypt 5000 plain_state (λ k. 7) (λ k. 0) 300 0 ≡ none
crypt_endless_example =
    crypt_endless 5000 plain_state (λ k. 7) (λ k. 0) 300 0 (omega arith) (omega arith)

four_bytes : encode (codes "Lua!") ≡ ok (codes "THVhIQ==")
unfolding encode lua_t.Encode.Base64.encode_groups lua_t.Encode.Base64.encode_group
four_bytes = refl

decode-encode_example :
    (c : Bytes) × (encode (codes "Lua!") ≡ ok c) × (decode c ≡ ok (codes "Lua!" ++ 0 ∷ 0 ∷ []))
decode-encode_example = decode-encode (codes "Lua!") (omega arith) (omega arith)

update-append_run :
    update (call crc_32 none) (codes "12345" ++ codes "6789")
    ≡ (update (call crc_32 none) (codes "12345") >>= λ k'. update k' (codes "6789"))
update-append_run = update-append (call crc_32 none) (codes "12345") (codes "6789")

calc_start_run :
    calc (call crc_16 none) (codes "abcde") (some (pos 2)) none
    ≡ (update (call crc_16 none) (codes "abc") >>= λ k'. ok (result k', k'))
calc_start_run = calc_start (call crc_16 none) (codes "abcde") 2 (omega arith) (omega arith)

-- The encoder that has read the byte 97.
abbrev read_a : Crc
read_a = record (call crc_32 none) { crc = 0x174841bc }

read_a_lem : update (call crc_32 none) (97 ∷ []) ≡ ok read_a
unfolding update call
read_a_lem = refl

calc-reset_run :
    calc (reset read_a) (codes "cd") none none ≡ calc (call crc_32 none) (codes "cd") none none
calc-reset_run = calc-reset crc_32 none read_a (codes "a") (codes "cd") none none read_a_lem
