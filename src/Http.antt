-- ===== src/Http.antt =====
-- src/t_htp_req.c and src/t_htp_l.h: the first line of an HTTP request.
pub mod Names
pub mod Url
pub mod Headers
pub mod Request
mod Tests
use lua_t.Prelude.{
  ℕ, zero, suc, ◌+◌, ◌-◌, Bool, true, false, not, ◌&&◌, ◌||◌, List, [], ◌∷◌, Option, none, some,
  Bytes, ltb, leb, ◌==◌, if◌then◌else◌, length, get_or, drop,
}
use lua_t.Prelude.Result.{Result, fault}

-- `enum t_htp_mth`
pub data Method : Type 0 where
  illegal connect checkout copy delete get head lock mkcol mkactivity mkcalendar msearch merge move
        notify options post put patch purge propfind proppatch report subscribe search trace unlock
        unsubscribe :
      Method

-- `luaL_error`, or a result.
pub data Outcome {ℓ} (A : Type ℓ) : Type ℓ where
  ok : A → Outcome A
  error : Outcome A

-- The switch of `t_htp_req_parseMethod`: the method, and the length of its name.
unfoldable pub method_at : Bytes → Outcome (Method × ℕ)
method_at r =
    let c₀ = get_or r 0 0 in
    let c₁ = get_or r 1 0 in
    let c₂ = get_or r 2 0 in
    let c₃ = get_or r 3 0 in
    let c₄ = get_or r 4 0 in
    if c₀ == b'C'
    then (if c₂ == b'N'
        then ok (connect, 7)
        else if c₂ == b'E'
        then ok (checkout, 8)
        else if c₂ == b'P'
        then ok (copy, 4)
        else ok (illegal, 0))
    else if c₀ == b'D'
    then ok (delete, 6)
    else if c₀ == b'G'
    then ok (get, 3)
    else if c₀ == b'H'
    then ok (head, 4)
    else if c₀ == b'L'
    then ok (lock, 4)
    else if c₀ == b'M'
    then (if c₃ == b'O'
        then ok (mkcol, 5)
        else if c₂ == b'A'
        then ok (mkactivity, 10)
        else if c₃ == b'A'
        then ok (mkcalendar, 10)
        else if c₁ == b'-'
        then ok (msearch, 8)
        else if c₁ == b'E'
        then ok (merge, 5)
        else if c₁ == b'O'
        then ok (move, 4)
        else ok (illegal, 0))
    else if c₀ == b'N'
    then ok (notify, 6)
    else if c₀ == b'O'
    then ok (options, 7)
    else if c₀ == b'P'
    then (if c₁ == b'O'
        then ok (post, 4)
        else if c₁ == b'U'
        then ok (put, 3)
        else if c₁ == b'A'
        then ok (patch, 5)
        else if c₂ == b'R'
        then ok (purge, 5)
        else if c₄ == b'F'
        then ok (propfind, 8)
        else if c₄ == b'P'
        then ok (proppatch, 9)
        else ok (illegal, 0))
    else if c₀ == b'R'
    then ok (report, 6)
    else if c₀ == b'S'
    then (if c₁ == b'U'
        then ok (subscribe, 9)
        else if c₁ == b'E'
        then ok (search, 6)
        else ok (illegal, 0))
    else if c₀ == b'T'
    then ok (trace, 5)
    else if c₀ == b'U'
    then (if c₂ == b'L'
        then ok (unlock, 6)
        else if c₂ == b'L'
        then ok (unsubscribe, 11)
        else ok (illegal, 0))
    else error

-- `t_htp_req_parseMethod`: `none` if there is not enough data, and nothing is set.
unfoldable pub parse_method : Bytes → Outcome (Option (Method × ℕ))
unfolding method_at
parse_method r =
    if ltb 11 (length r)
    then (elim (method_at r) [ ok p ↦ ok (some p) | error ↦ error ])
    else ok none

-- `eat_lws`
abbrev pub eat_lws : Bytes → Bytes
eat_lws [] = []
eat_lws (c ∷ s) =
    let rest = eat_lws s in if c == b' ' || c == b'\r' || c == b'\n' then rest else c ∷ s

-- `enum t_htp_ver`
pub data Version : Type 0 where
  ver_09 ver_10 ver_11 : Version

abbrev is_11 : Version → Bool
is_11 ver_11 = true
is_11 v = false

abbrev version_of : ℕ → Outcome Version
version_of c =
    if c == b'1'
    then ok ver_11
    else if c == b'0'
    then ok ver_10
    else if c == b'9'
    then ok ver_09
    else error

-- What `t_htp_req_parseHttpVersion` finds: the version, whether `keepAlive` is set to false, whether
-- the request is done, and where the headers begin.
pub record VersionLine : Type 0 where
  pub version : Version
  pub keep_alive_off : Bool
  pub done : Bool
  pub rest : Bytes

-- `t_htp_req_parseHttpVersion`; `none` if there is not enough data. Where the white space goes on to the
-- terminator of the data, `size_t l = end - r` is -1 made unsigned, and r[ 8 ] is read behind the terminator.
unfoldable pub parse_version : Bytes → Result (Option VersionLine)
parse_version t =
    let r = eat_lws t in
    let l = length r - 1 in
    if length r == 0
    then fault
    else if ltb 10 l && get_or r 8 0 == b'\r' || ltb 8 l && get_or r 8 0 == b'\n'
    then (elim (version_of (get_or r 7 0)) [
      | error ↦ lua_t.Prelude.Result.error
      | ok v ↦ lua_t.Prelude.Result.ok (
          some (record {
            version = v;
            keep_alive_off = not (is_11 v);
            done =
                ltb 10 l && get_or r 10 0 == b'\r'
                || get_or r 8 0 == b'\n' && get_or r 9 0 == b'\n';
            rest = drop 8 r;
          }))
    ])
    else lua_t.Prelude.Result.ok none
