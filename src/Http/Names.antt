-- ===== src/Http/Names.antt =====
-- Which method names the parser knows.
use lua_t.Prelude.{◌<◌, ◌≡◌, refl, arith, true, [], ◌∷◌, ◌++◌, some, Bytes, length, codes, ltb}
use lua_t.Http.{
  Method, ok, method_at, parse_method, illegal, connect, checkout, copy, delete, get, head, lock,
  mkcol, mkactivity, mkcalendar, msearch, merge, move, notify, options, post, put, patch, purge,
  propfind, proppatch, report, subscribe, search, trace, unlock, unsubscribe,
}

-- The name of a method in a request.
abbrev pub name : Method → Bytes
name illegal = []
name connect = codes "CONNECT"
name checkout = codes "CHECKOUT"
name copy = codes "COPY"
name delete = codes "DELETE"
name get = codes "GET"
name head = codes "HEAD"
name lock = codes "LOCK"
name mkcol = codes "MKCOL"
name mkactivity = codes "MKACTIVITY"
name mkcalendar = codes "MKCALENDAR"
name msearch = codes "M-SEARCH"
name merge = codes "MERGE"
name move = codes "MOVE"
name notify = codes "NOTIFY"
name options = codes "OPTIONS"
name post = codes "POST"
name put = codes "PUT"
name patch = codes "PATCH"
name purge = codes "PURGE"
name propfind = codes "PROPFIND"
name proppatch = codes "PROPPATCH"
name report = codes "REPORT"
name subscribe = codes "SUBSCRIBE"
name search = codes "SEARCH"
name trace = codes "TRACE"
name unlock = codes "UNLOCK"
name unsubscribe = codes "UNSUBSCRIBE"

abbrev pub IsKnown : Method → Type 0
IsKnown illegal = ⊥
IsKnown purge = ⊥
IsKnown unsubscribe = ⊥
IsKnown m = Unit {0}

method_at-name :
    (m : Method) (rest : Bytes)
    → IsKnown m
    → method_at (name m ++ b' ' ∷ rest) ≡ ok (m, length (name m))
unfolding method_at
method_at-name illegal rest k = absurd k
method_at-name connect rest k = refl
method_at-name checkout rest k = refl
method_at-name copy rest k = refl
method_at-name delete rest k = refl
method_at-name get rest k = refl
method_at-name head rest k = refl
method_at-name lock rest k = refl
method_at-name mkcol rest k = refl
method_at-name mkactivity rest k = refl
method_at-name mkcalendar rest k = refl
method_at-name msearch rest k = refl
method_at-name merge rest k = refl
method_at-name move rest k = refl
method_at-name notify rest k = refl
method_at-name options rest k = refl
method_at-name post rest k = refl
method_at-name put rest k = refl
method_at-name patch rest k = refl
method_at-name purge rest k = absurd k
method_at-name propfind rest k = refl
method_at-name proppatch rest k = refl
method_at-name report rest k = refl
method_at-name subscribe rest k = refl
method_at-name search rest k = refl
method_at-name trace rest k = refl
method_at-name unlock rest k = refl
method_at-name unsubscribe rest k = absurd k

-- With at least 12 bytes of data, every method but PURGE and UNSUBSCRIBE is recognised by its name,
-- and the parser goes on behind it.
pub parse_method-name :
    (m : Method) (rest : Bytes)
    → IsKnown m
    → 11 < length (name m ++ b' ' ∷ rest)
    → parse_method (name m ++ b' ' ∷ rest) ≡ ok (some (m, length (name m)))
unfolding parse_method
parse_method-name m rest k h =
    let e : ltb 11 (length (name m ++ b' ' ∷ rest)) ≡ true = ground (arith, h) in
    rw e (rw (method_at-name m rest k) refl)

-- With at least 12 bytes of data, PURGE is taken for PUT, and the parser goes on in the middle of its
-- name; UNSUBSCRIBE is taken for no method at all.
pub parse_method_mistaken :
    (rest : Bytes)
    → 11 < length (name purge ++ b' ' ∷ rest)
    → (parse_method (name purge ++ b' ' ∷ rest) ≡ ok (some (put, 3)))
      × (parse_method (name unsubscribe ++ b' ' ∷ rest) ≡ ok (some (illegal, 0)))
unfolding parse_method method_at
parse_method_mistaken rest h =
    let e : ltb 11 (length (name purge ++ b' ' ∷ rest)) ≡ true = ground (arith, h) in
    let f : ltb 11 (length (name unsubscribe ++ b' ' ∷ rest)) ≡ true = ground arith in
    (rw e refl, rw f refl)
