-- ===== src/Net/Tests.antt =====
-- The theorems of the addresses at an address of version 4, where the text of an address is a digit for the
-- version, and then its bytes.
use lua_t.Prelude.{
  ℕ, ◌≡◌, ◌↔◌, ◌≤◌, refl, inl, true, [], ◌∷◌, Option, none, some, Bytes, codes, arith, ◌==◌,
  if◌then◌else◌, replicate, length,
}
use lua_t.Prelude.Int.{pos}
use lua_t.Prelude.Result.{ok, fault}
use lua_t.Net.Address.{
  Adr, integer, address, Platform, blank, eq, set_addr, set_port, call, index, newindex, port,
  is_ip,
}
use lua_t.Net.Copies.{Standard, IsIp, call-eq, index-newindex}
use lua_t.Net.Equal.{host, eq-host_iff, set_addr-fault}

abbrev behind : ℕ → Bytes → Option Bytes
behind c [] = none
behind c (d ∷ s) = if c == d then some s else none

abbrev sys : Platform
sys = record {
  pton4 = behind b'4';
  pton6 = behind b'6';
  ntop4 = λ b. b'4' ∷ b;
  ntop6 = λ b. b'6' ∷ b;
  tolstring = λ z. [];
  tointeger = λ s. none;
  family_of = λ v. none;
}

sys-Standard : Standard sys
sys-Standard = record { four = λ b e. (refl, refl); six = λ b e. refl }

abbrev local : Adr
local = record blank { family = 2; port = 31 ∷ 144 ∷ []; four = 127 ∷ 0 ∷ 0 ∷ 1 ∷ [] }

local-IsIp : IsIp local
local-IsIp = record { known = inl refl; port = (8080, omega arith, refl); four = refl; six = refl }

call-eq_example :
    (a' : Adr) × (call sys 10 (address local ∷ []) ≡ ok (a', [])) × (eq a' local ≡ true)
call-eq_example = call-eq sys 10 local sys-Standard local-IsIp

index-newindex_example :
    (a' : Adr) × (newindex sys local (codes "port") (integer (pos 65536)) ≡ ok a')
    × (index sys a' (codes "port") ≡ port 0)
    × (index sys a' (codes "ip") ≡ index sys local (codes "ip"))
index-newindex_example = index-newindex sys local 65536 refl (omega arith)

eq-host_iff_example : (eq local blank ≡ true) ↔ (
    (is_ip local ≡ true)
    × (local.family ≡ blank.family)
    × (host local ≡ host blank)
    × (local.port ≡ blank.port))
eq-host_iff_example = eq-host_iff local blank

abbrev long_path : Bytes
long_path = replicate 200 b'/'

set_addr-fault_run : (set_addr sys local long_path ≡ fault) ↔ (126 ≤ length long_path)
set_addr-fault_run = set_addr-fault sys local long_path refl refl

-- A path is written over port and address.
path_text :
    set_addr sys blank (codes "/tmp/s")
    ≡ ok (record blank { family = 1; port = codes "/t"; four = codes "mp/s" })
unfolding set_addr
path_text = refl

-- The port is an `int`: what is above 32 bits is dropped before it is checked.
big_port :
    set_port sys 3 (integer (pos 4294967376)) local ≡ ok (record local { port = 0 ∷ 80 ∷ [] })
unfolding set_port
big_port = refl
