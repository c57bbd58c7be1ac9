-- ===== src/Http/Request.antt =====
-- src/t_htp_req.c: a request is parsed as far as the data reach.
pub mod Whole
use lua_t.Prelude.{
  ℕ, ◌+◌, Bool, true, false, List, [], ◌∷◌, Option, none, some, Bytes, ◌==◌, if◌then◌else◌, length,
  drop, suc, slice,
}
use lua_t.Prelude.Result.{Result, ok, error, fault, ◌>>=◌}
use lua_t.Http.{Method, Version, VersionLine, Outcome, parse_method, parse_version, eat_lws}
use lua_t.Http.Url.{Url, parse_url}
use lua_t.Http.Headers.{Head, Stage, zero, method, uri, version, headers, body, done, parse_headers}

-- The table of the request, without what is absent from the start.
pub record Request : Type 0 where
  pub stage : Stage
  pub method : Option Method
  pub path : Option Bytes
  pub url : Option Url
  pub version : Option Version
  pub head : Head

-- What a step of the parser leaves: the request, the data that are left, and whether it has all it needs.
pub record Step : Type 0 where
  pub request : Request
  pub rest : Bytes
  pub finished : Bool

abbrev lift {ℓ} : {A : Type ℓ} → Outcome A → Result A
lift (lua_t.Http.ok a) = ok a
lift lua_t.Http.error = error

-- The method: with one that is not known nothing is taken from the data, and the step does not count.
abbrev pub step_method : Request → Bytes → Result Step
step_method q s = lift (parse_method s) >>= λ o. elim o [
  | none ↦ ok (record { request = q; rest = s; finished = false })
  | some (m, n) ↦ ok (record {
    request = record q { method = some m; stage = uri };
    rest = drop n s;
    finished = if n == 0 then false else true;
  })
]

-- The path that `t_htp_req_parseUrl` has set when the data end: what stands in front of the last question
-- mark, or the one from before.
abbrev pub path_before : Bytes → Bytes → ℕ → Option Bytes → Option Bytes
path_before s [] i p = p
path_before s (c ∷ r) i p = path_before s r (suc i) (if c == b'?' then some (slice s 0 i) else p)

-- Without the space behind the URL only the path is kept of it, if its end is there. The query is set in a
-- table that is dropped.
abbrev pub step_url : Request → Bytes → Result Step
step_url q s = parse_url s >>= λ o. elim o [
  | none ↦ ok (record {
    request = record q { path = path_before (eat_lws s) (eat_lws s) 0 q.path };
    rest = s;
    finished = false;
  })
  | some u ↦ ok (record {
    request = record q { path = u.path; url = some u; stage = version };
    rest = u.rest;
    finished = true;
  })
]

abbrev pub keep_alive_of : VersionLine → Head → Head
keep_alive_of l h = if l.keep_alive_off then record h { keep_alive = some false } else h

abbrev pub step_version : Request → Bytes → Result Step
step_version q s = parse_version s >>= λ o. elim o [
  | none ↦ ok (record { request = q; rest = s; finished = false })
  | some l ↦ ok (record {
    request = record q {
      version = some l.version;
      stage = if l.done then done else headers;
      head = keep_alive_of l q.head;
    };
    rest = l.rest;
    finished = true;
  })
]

-- Data that are not enough leave what has been stored on the way.
abbrev pub step_headers : Request → Bytes → Result Step
step_headers q s = parse_headers q.head s >>= λ r. elim r.1 [
  | none ↦ ok (record { request = record q { head = r.0 }; rest = s; finished = false })
  | some found ↦ ok (record {
    request = record q { head = r.0; stage = found.0 };
    rest = found.1;
    finished = true;
  })
]

-- A step, and the one that it falls through to.
abbrev pub fall : Result Step → (Request → Bytes → Result Step) → Result Step
fall r next = r >>= λ t. if t.finished then next t.request t.rest else ok t

-- The switch of `lt_htp_req_parse`
unfoldable pub steps : Stage → Request → Bytes → Result Step
steps method q s = fall (fall (fall (step_method q s) step_url) step_version) step_headers
steps uri q s = fall (fall (step_url q s) step_version) step_headers
steps version q s = fall (step_version q s) step_headers
steps headers q s = step_headers q s
steps _ q s = ok (record { request = q; rest = s; finished = false })

-- What is returned for the rest: nil if it is one byte.
abbrev pub rest_of : Bytes → Option Bytes
rest_of s = if length s == 1 then none else some s

-- `lt_htp_req_parse`
unfoldable pub parse : Stage → Request → Bytes → Result (Request × Option Bytes)
unfolding steps
parse stage q s = steps stage q s >>= λ t. ok (t.request, rest_of t.rest)
