-- ===== src/Net/Address.antt =====
-- src/t_net_adr.c and the macros of src/t_net_l.h: an address is the memory of a `sockaddr_storage` on
-- Linux, cut where the structures of the families have their fields.
use lua_t.Prelude.{
  ℕ, ◌+◌, ◌*◌, ◌/◌, ◌%◌, ◌^◌, Bool, true, false, ◌&&◌, ◌||◌, List, [], ◌∷◌, ◌++◌, Option, none,
  some, Bytes, codes, begins_with, leb, ◌==◌, if◌then◌else◌, length, get_or, take, drop, replicate,
}
use lua_t.Prelude.Int.{ℤ, pos, negsuc}
use lua_t.Prelude.Word.{int_of_integer, size_of}
use lua_t.Prelude.Result.{Result, ok, argument, fault, ◌>>=◌}

-- The family, the port (2 bytes), the address of version 4, where version 6 has its flow (4), the
-- address of version 6 (16), its scope (4), and what is left (100).
pub record Adr : Type 0 where
  pub family : ℕ
  pub port : Bytes
  pub four : Bytes
  pub six : Bytes
  pub scope : Bytes
  pub rest : Bytes

abbrev pub af_unix : ℕ
af_unix = 1

abbrev pub af_inet : ℕ
af_inet = 2

abbrev pub af_inet6 : ℕ
af_inet6 = 10

-- `t_net_adr_create_ud`
abbrev pub blank : Adr
blank = record {
  family = 0;
  port = replicate 2 0;
  four = replicate 4 0;
  six = replicate 16 0;
  scope = replicate 4 0;
  rest = replicate 100 0;
}

-- A Lua value: a string, an integer, a float with its integer value, if it has one, and its text, an address,
-- or anything that is neither a string nor a number.
pub data Value : Type 0 where
  text : Bytes → Value
  integer : ℤ → Value
  float : Option ℤ → Bytes → Value
  address : Adr → Value
  other : Value

-- What the system and Lua do: `inet_pton` and `inet_ntop` for both versions, a string for an integer, the
-- integer that a string stands for (strings that are numbers but no integers are left out), and the family
-- that `t_getLoadedValue` finds by a name.
pub record Platform : Type 0 where
  pub pton4 : Bytes → Option Bytes
  pub pton6 : Bytes → Option Bytes
  pub ntop4 : Bytes → Bytes
  pub ntop6 : Bytes → Bytes
  pub tolstring : ℤ → Bytes
  pub tointeger : Bytes → Option ℤ
  pub family_of : Value → Option ℤ

-- What is written over the front of something, and the part of that which stays.
abbrev overlay : Bytes → Bytes → Bytes
overlay new old = take (length old) new ++ drop (length new) old

-- `memcpy` to `sun_path`. The code has no test: 126 bytes are all there are behind the family, and more of them
-- are written outside the memory of the address.
abbrev pub write_path : Bytes → Adr → Result Adr
write_path p a =
    if leb (length p) 126
    then ok (record a {
      port = overlay p a.port;
      four = overlay (drop 2 p) a.four;
      six = overlay (drop 6 p) a.six;
      scope = overlay (drop 22 p) a.scope;
      rest = overlay (drop 26 p) a.rest;
    })
    else fault

-- `t_net_adr_setAddr` without a string: any address.
abbrev pub set_any : Adr → Adr
set_any a =
    if a.family == af_inet6
    then record a { six = replicate 16 0 }
    else if a.family == af_inet
    then record a { four = replicate 4 0 }
    else a

-- `SOCK_ADDR_SS_PORT`, with `ntohs`
abbrev pub port_of : Adr → ℕ
port_of a = get_or a.port 0 0 * 256 + get_or a.port 1 0

-- `htons`, of an `int`
abbrev pub port_bytes : ℕ → Bytes
port_bytes n = (n % 2 ^ 16 / 256) ∷ (n % 256) ∷ []

abbrev pub is_ip : Adr → Bool
is_ip a = a.family == af_inet6 || a.family == af_inet

-- What `lt_net_adr__index` pushes; a family goes on to a table of names.
pub data Got : Type 0 where
  ip : Bytes → Got
  port : ℕ → Got
  family : ℕ → Got
  scope : Bytes → Got
  flow : Bytes → Got
  nil : Got

unfoldable pub same : Bytes → Bytes → Bool
same [] [] = true
same (a ∷ s) (b ∷ t) = (a == b) && same s t
same s t = false

-- `lt_net_adr__eq`
unfoldable pub eq : Adr → Adr → Bool
unfolding same
eq a b =
    a.family == b.family
    && (a.family == af_inet && b.family == af_inet && same a.four b.four
        || a.family == af_inet6 && b.family == af_inet6 && same a.six b.six)
    && (a.family == af_inet && b.family == af_inet && same a.port b.port
        || a.family == af_inet6 && b.family == af_inet6 && same a.port b.port)

module _ (sys : Platform) where
  -- `t_net_adr_setAddr`, of a string
  unfoldable pub set_addr : Adr → Bytes → Result Adr
  set_addr a s = elim (sys.pton6 s) [
    | some b ↦ ok (record a { six = b; family = af_inet6 })
    | none ↦ elim (sys.pton4 s) [
      | some b ↦ ok (record a { four = b; family = af_inet })
      | none ↦ do a' ← write_path (s ++ (0 ∷ [])) a; ok (record a' { family = af_unix })
    ]
  ]

  -- `luaL_checklstring` and `luaL_checkinteger`
  abbrev pub check_string : ℕ → Value → Result Bytes
  check_string i (text s) = ok s
  check_string i (integer z) = ok (sys.tolstring z)
  check_string i (float z s) = ok s
  check_string i _ = argument i

  abbrev pub integer_of : Value → Option ℤ
  integer_of (text s) = sys.tointeger s
  integer_of (integer z) = some z
  integer_of (float z s) = z
  integer_of _ = none

  abbrev pub check_integer : ℕ → Value → Result ℤ
  check_integer i v = elim (integer_of v) [ none ↦ argument i | some z ↦ ok z ]

  abbrev pub put_port : ℕ → ℤ → Adr → Result Adr
  put_port i (negsuc n) a = argument i
  put_port i (pos n) a =
      if leb n 65536
      then ok (if is_ip a then record a { port = port_bytes n } else a)
      else argument i

  -- `t_net_adr_setPort`, where the port is an `int`
  unfoldable pub set_port : ℕ → Value → Adr → Result Adr
  set_port i v a = do z ← check_integer i v; put_port i (int_of_integer z) a

  -- `lua_isnumber`
  abbrev pub is_number : Value → Bool
  is_number (float z s) = true
  is_number v = elim (integer_of v) [ none ↦ false | some z ↦ true ]

  -- The port, if there is one, and the values that are left.
  abbrev pub port_argument : ℕ → List Value → Adr → Result (Adr × List Value)
  port_argument i [] a = ok (a, [])
  port_argument i (v ∷ vs) a =
      if is_number v then (do a' ← set_port i v a; ok (a', vs)) else ok (a, v ∷ vs)

  -- `t_net_adr_getFromStack`, with the default family, `_t_net_default_family`
  unfoldable pub get_from_stack : ℕ → ℕ → List Value → Result (Adr × List Value)
  unfolding set_addr set_port
  get_from_stack default i (address a ∷ vs) = ok (a, vs)
  get_from_stack default i (text s ∷ vs) = do a ← set_addr blank s; port_argument i vs a
  get_from_stack default i vs = port_argument i vs (set_any (record blank { family = default }))

  -- `SOCK_ADDR_INET_NTOP`
  abbrev pub ntop : Adr → Bytes
  ntop a = if a.family == af_inet6 then sys.ntop6 a.six else sys.ntop4 a.four

  -- `lt_net_adr__Call`, of the values behind the class. The text and the port of an address come behind the others.
  unfoldable pub call : ℕ → List Value → Result (Adr × List Value)
  unfolding get_from_stack
  call default (address a ∷ vs) =
      get_from_stack default 1 (vs ++ (text (ntop a) ∷ integer (pos (port_of a)) ∷ []))
  call default vs = get_from_stack default 1 vs

  -- `lt_net_adr__index`
  unfoldable pub index : Adr → Bytes → Got
  index a key =
      if begins_with key (codes "ip")
      then ip (ntop a)
      else if begins_with key (codes "port")
      then port (port_of a)
      else if begins_with key (codes "family")
      then family a.family
      else if begins_with key (codes "scope") && a.family == af_inet6
      then scope a.scope
      else if begins_with key (codes "flow") && a.family == af_inet6
      then flow a.four
      else nil

  -- `lt_net_adr__newindex`, of a string; a family is kept in 16 bits.
  unfoldable pub newindex : Adr → Bytes → Value → Result Adr
  unfolding set_addr set_port
  newindex a key v =
      if begins_with key (codes "ip")
      then (do s ← check_string 3 v; set_addr a s)
      else if begins_with key (codes "port")
      then set_port 3 v a
      else if begins_with key (codes "family")
      then (if is_number v
          then (do z ← check_integer 3 v; ok (record a { family = size_of z % 2 ^ 16 }))
          else elim (sys.family_of v) [
            | none ↦ ok a
            | some z ↦ ok (record a { family = size_of z % 2 ^ 16 })
          ])
      else argument 2
