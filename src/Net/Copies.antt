-- ===== src/Net/Copies.antt =====
-- What is kept when an address is copied, read and changed.
use lua_t.Prelude.{
  ℕ, ◌%◌, ◌<◌, ◌≤◌, ◌≡◌, ◌⊎◌, inl, inr, refl, ap, sym, ◌∙◌, true, [], ◌∷◌, none, some, Bytes, codes,
  length, arith,
}
use lua_t.Prelude.Int.{pos}
use lua_t.Prelude.Word.{int_of_integer}
use lua_t.Prelude.Result.{ok}
use lua_t.Net.Address.{
  Adr, text, integer, address, Platform, af_inet, af_inet6, blank, port_of, port_bytes, is_ip, eq,
  same, set_addr, set_port, put_port, call, get_from_stack, index, newindex, port, ntop,
}

same_self : (s : Bytes) → same s s ≡ true
unfolding same
same_self [] = refl
same_self (c ∷ s) = ground (arith, same_self s)

-- What the manual of `inet_ntop` and `inet_pton` says: the text of an address is read back, and one of version 4
-- is no address of version 6.
pub record Standard (sys : Platform) : Type 0 where
  pub four :
      (b : Bytes)
      → length b ≡ 4
      → (sys.pton4 (sys.ntop4 b) ≡ some b) × (sys.pton6 (sys.ntop4 b) ≡ none)
  pub six : (b : Bytes) → length b ≡ 16 → sys.pton6 (sys.ntop6 b) ≡ some b

-- The memory of an address of version 4 or 6.
pub record IsIp (a : Adr) : Type 0 where
  pub known : (a.family ≡ 2) ⊎ (a.family ≡ 10)
  pub port : (n : ℕ) × (n < 65536) × (a.port ≡ port_bytes n)
  pub four : length a.four ≡ 4
  pub six : length a.six ≡ 16

int_small : (n : ℕ) → n < 65536 → int_of_integer (pos n) ≡ pos n
int_small n h = ground (arith, h)

int_upto : (n : ℕ) → n ≤ 65536 → int_of_integer (pos n) ≡ pos n
int_upto n h = ground (arith, h)

port_of-bytes : (n : ℕ) (a : Adr) → n < 65536 → a.port ≡ port_bytes n → port_of a ≡ n
port_of-bytes n a h e = rw e (omega (arith, h))

module _ (sys : Platform) where
  set_port_lem :
      (i n : ℕ) (a : Adr)
      → n < 65536
      → is_ip a ≡ true
      → set_port sys i (integer (pos n)) a ≡ ok (record a { port = port_bytes n })
  unfolding set_port
  set_port_lem i n a h e = ap (λ z. put_port sys i z a) (int_small n h) ∙ ground (arith, h, e)

  set_addr_four :
      (a : Adr) (s b : Bytes)
      → sys.pton6 s ≡ none
      → sys.pton4 s ≡ some b
      → set_addr sys a s ≡ ok (record a { four = b; family = af_inet })
  unfolding set_addr
  set_addr_four a s b n e = ground (arith, n, e)

  set_addr_six :
      (a : Adr) (s b : Bytes)
      → sys.pton6 s ≡ some b
      → set_addr sys a s ≡ ok (record a { six = b; family = af_inet6 })
  unfolding set_addr
  set_addr_six a s b e = ground (arith, e)

  get_from_stack_lem :
      (default i n : ℕ) (s : Bytes) (a : Adr)
      → set_addr sys blank s ≡ ok a
      → n < 65536
      → is_ip a ≡ true
      → get_from_stack sys default i (text s ∷ integer (pos n) ∷ [])
        ≡ ok (record a { port = port_bytes n }, [])
  unfolding get_from_stack
  get_from_stack_lem default i n s a e h k = ground (arith, e, set_port_lem i n a h k)

  eq_four :
      (a b : Adr) → a.family ≡ 2 → b.family ≡ 2 → a.four ≡ b.four → a.port ≡ b.port → eq a b ≡ true
  unfolding eq
  eq_four a b f g h k = rw (f, g, h, k) (ground (arith, same_self b.four, same_self b.port))

  eq_six :
      (a b : Adr) → a.family ≡ 10 → b.family ≡ 10 → a.six ≡ b.six → a.port ≡ b.port → eq a b ≡ true
  unfolding eq
  eq_six a b f g h k = rw (f, g, h, k) (ground (arith, same_self b.six, same_self b.port))

  ntop_four : (a : Adr) → a.family ≡ 2 → ntop sys a ≡ sys.ntop4 a.four
  ntop_four a f = rw f refl

  ntop_six : (a : Adr) → a.family ≡ 10 → ntop sys a ≡ sys.ntop6 a.six
  ntop_six a f = rw f refl

  -- The call reads the port and the text of the address.
  call_lem :
      (default n : ℕ) (a a' : Adr)
      → port_of a ≡ n
      → n < 65536
      → set_addr sys blank (ntop sys a) ≡ ok a'
      → is_ip a' ≡ true
      → call sys default (address a ∷ []) ≡ ok (record a' { port = port_bytes n }, [])
  unfolding call
  call_lem default n a a' p h e k =
      ap (λ n. get_from_stack sys default 1 (text (ntop sys a) ∷ integer (pos n) ∷ [])) p
      ∙ get_from_stack_lem default 1 n (ntop sys a) a' e h k

  -- A copy that is made of an address of version 4 or 6 equals it, whatever the default family is. The conditions:
  -- the address has the memory of such an address, and the system reads back the addresses that it writes.
  pub call-eq :
      (default : ℕ) (a : Adr)
      → Standard sys
      → IsIp a
      → (a' : Adr) × (call sys default (address a ∷ []) ≡ ok (a', [])) × (eq a' a ≡ true)
  call-eq default a std v =
      let (n, h, p) = v.port in
      let at = port_of-bytes n a h p in
      elim v.known [
        | inl f ↦
            let law = std.four a.four v.four in
            let a' : Adr = record blank { four = a.four; family = 2 } in
            (
              record a' { port = port_bytes n },
              call_lem default n a a' at h
                  (ap (set_addr sys blank) (ntop_four a f)
                    ∙ set_addr_four blank _ a.four law.1 law.0)
                  refl,
              eq_four (record a' { port = port_bytes n }) a refl f refl (sym p),
            )
        | inr f ↦
            let a' : Adr = record blank { six = a.six; family = 10 } in
            (
              record a' { port = port_bytes n },
              call_lem default n a a' at h
                  (ap (set_addr sys blank) (ntop_six a f)
                    ∙ set_addr_six blank _ a.six (std.six a.six v.six))
                  refl,
              eq_six (record a' { port = port_bytes n }) a refl f refl (sym p),
            )
      ]

  -- A port from 0 to 65535 that is set in an address of version 4 or 6 is read back, and the text of the
  -- address stays as it is; 65536 is taken as well, and read back as 0.
  pub index-newindex :
      (a : Adr) (n : ℕ)
      → is_ip a ≡ true
      → n ≤ 65536
      → (a' : Adr) × (newindex sys a (codes "port") (integer (pos n)) ≡ ok a')
        × (index sys a' (codes "port") ≡ port (n % 65536))
        × (index sys a' (codes "ip") ≡ index sys a (codes "ip"))
  unfolding newindex index set_port
  index-newindex a n e h = (
    record a { port = port_bytes n },
    ap (λ z. put_port sys 3 z a) (int_upto n h) ∙ ground (arith, e, h),
    ap port (omega arith),
    refl,
  )
