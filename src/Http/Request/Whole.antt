-- ===== src/Http/Request/Whole.antt =====
-- src/t_htp_req.c: a request that is written out is parsed as a whole.
use lua_t.Prelude.{
  ℕ, ◌<◌, ◌≡◌, refl, ap, ◌∙◌, true, false, List, [], ◌∷◌, ◌++◌, map, some, Bytes, codes, ◌==◌,
  length, length-append, drop, arith,
}
use lua_t.Prelude.Result.{ok, ◌>>=◌}
use lua_t.Http.{Method, Outcome, VersionLine, Version, ver_11, parse_method, parse_version, eat_lws}
use lua_t.Http.Names.{name, IsKnown, parse_method-name}
use lua_t.Http.Url.{Url, parse_url}
use lua_t.Http.Url.Render.{Plain, PlainPairs, query_text, parse_url-render}
use lua_t.Http.Headers.{Head, Stage, stage_of, is_lws, parse_headers, method, headers}
use lua_t.Http.Headers.Block.{AllHeaders, block_text, parse_headers-block}
use lua_t.Http.Headers.Parts.{stored}
use lua_t.Http.Request.{
  Request, Step, step_method, step_url, step_version, step_headers, fall, parse, rest_of,
}

-- The text of a request.
abbrev pub version_text : Bytes → Bytes
version_text lines = b' ' ∷ codes "HTTP/1.1\r\n" ++ lines

abbrev pub url_text : Bytes → Bytes → Bytes → List (Bytes × Bytes) → Bytes → Bytes
url_text path k v ps more = b' ' ∷ b'/' ∷ path ++ (b'?' ∷ (query_text k v ps ++ more))

drop-append : (s t : Bytes) → drop (length s) (s ++ t) ≡ t
drop-append [] t = refl
drop-append (c ∷ s) t = drop-append s t

parse_version-text :
    (c : ℕ) (r : Bytes)
    → is_lws c ≡ false
    → 0 < length r
    → parse_version (version_text (c ∷ r))
      ≡ ok (
          some (record {
            version = ver_11;
            keep_alive_off = false;
            done = false;
            rest = b'\r' ∷ b'\n' ∷ c ∷ r;
          }))
unfolding parse_version
parse_version-text c r e h = ground (arith, e, h)

parse_headers-break :
    (h : Head) (s : Bytes) → parse_headers h (b'\r' ∷ b'\n' ∷ s) ≡ parse_headers h s
unfolding parse_headers
parse_headers-break h s = refl

name_some : (m : Method) → IsKnown m → (length (name m) == 0) ≡ false
name_some lua_t.Http.illegal k = absurd k
name_some lua_t.Http.purge k = absurd k
name_some lua_t.Http.unsubscribe k = absurd k
name_some m k = refl

step_method-some :
    (q : Request) (m : Method) (n : ℕ) (s : Bytes)
    → parse_method s ≡ lua_t.Http.ok (some (m, n))
    → (n == 0) ≡ false
    → step_method q s
      ≡ ok (record {
        request = record q { method = some m; stage = lua_t.Http.Headers.uri };
        rest = drop n s;
        finished = true;
      })
step_method-some q m n s e z = ground (arith, e, z)

step_url-some :
    (q : Request) (u : Url) (s : Bytes)
    → parse_url s ≡ ok (some u)
    → step_url q s
      ≡ ok (record {
        request = record q { path = u.path; url = some u; stage = lua_t.Http.Headers.version };
        rest = u.rest;
        finished = true;
      })
step_url-some q u s e = ground (arith, e)

step_version-some :
    (q : Request) (r s : Bytes)
    → parse_version s
      ≡ ok (some (record { version = ver_11; keep_alive_off = false; done = false; rest = r }))
    → step_version q s
      ≡ ok (record {
        request = record q { version = some ver_11; stage = headers };
        rest = r;
        finished = true;
      })
step_version-some q r s e = ground (arith, e)

step_headers-some :
    (q : Request) (h : Head) (stage : Stage) (rest s : Bytes)
    → parse_headers q.head s ≡ ok (h, some (stage, rest))
    → step_headers q s
      ≡ ok (record { request = record q { head = h; stage = stage }; rest = rest; finished = true })
step_headers-some q h stage rest s e = ground (arith, e)

abbrev at_step : Request → Bytes → Step
at_step q s = record { request = q; rest = s; finished = true }

steps-all :
    (q : Request) (s : Bytes) (t₁ t₂ t₃ t₄ : Step)
    → step_method q s ≡ ok (record t₁ { finished = true })
    → step_url t₁.request t₁.rest ≡ ok (record t₂ { finished = true })
    → step_version t₂.request t₂.rest ≡ ok (record t₃ { finished = true })
    → step_headers t₃.request t₃.rest ≡ ok t₄
    → parse method q s ≡ ok (t₄.request, rest_of t₄.rest)
unfolding parse
steps-all q s t₁ t₂ t₃ t₄ e₁ e₂ e₃ e₄ =
    ap
      (λ r. fall (fall (fall r step_url) step_version) step_headers >>= λ t.
        ok (t.request, rest_of t.rest))
      e₁
    ∙ ap (λ r. fall (fall r step_version) step_headers >>= λ t. ok (t.request, rest_of t.rest)) e₂
    ∙ ap (λ r. fall r step_headers >>= λ t. ok (t.request, rest_of t.rest)) e₃
    ∙ ap (λ r. r >>= λ t. ok (t.request, rest_of t.rest)) e₄

long_enough :
    (m : Method) (path k v : Bytes) (ps : List (Bytes × Bytes)) (lines : Bytes)
    → 11 < length (name m ++ url_text path k v ps (version_text lines))
long_enough m path k v ps lines =
    let query = query_text k v ps in
    omega (
      arith,
      length-append (name m) (url_text path k v ps (version_text lines)),
      length-append path (b'?' ∷ (query ++ version_text lines)),
      length-append query (version_text lines),
    )

-- A request of version 1.1 that is written out, its method, a path with a query, and its headers up to an
-- empty line, is parsed in one go: it has that method, URL, query and version, its table of headers gets
-- those that are written, names in small letters, its state is the one for a body if the table then has content-length, and that
-- of a request that is done otherwise, and the data behind the headers are handed back, or nil if they are
-- one byte. The conditions: the method is one that the parser knows, path and query have none of the
-- characters ? = & and space, and the headers are as `parse_headers` wants them.
pub parse-request :
    (q : Request) (m : Method) (path k v : Bytes) (ps : List (Bytes × Bytes)) (p : Bytes × Bytes)
    (hs : List (Bytes × Bytes)) (rest : Bytes)
    → IsKnown m
    → Plain path × Plain k × Plain v × PlainPairs ps
    → AllHeaders (p ∷ hs)
    → (h : Head) × (parse method q
          (name m ++ url_text path k v ps (version_text (block_text (p ∷ hs) rest)))
        ≡ ok (
          record q {
            stage = stage_of h;
            method = some m;
            path = some (b'/' ∷ path);
            url = some (record {
              path = some (b'/' ∷ path);
              url = b'/' ∷ path ++ (b'?' ∷ query_text k v ps);
              query = some ((k, v) ∷ ps);
              rest = version_text (block_text (p ∷ hs) rest);
            });
            version = some ver_11;
            head = h;
          },
          rest_of rest,
        ))
      × (h.headers ≡ q.head.headers ++ map stored (p ∷ hs))
parse-request q m path k v ps (n₀ ∷ n, x ∷ w) hs rest known (wp, wk, wv, wps) a =
    let lines = block_text ((n₀ ∷ n, x ∷ w) ∷ hs) rest in
    let after_method = url_text path k v ps (version_text lines) in
    let u : Url = record {
      path = some (b'/' ∷ path);
      url = b'/' ∷ path ++ (b'?' ∷ query_text k v ps);
      query = some ((k, v) ∷ ps);
      rest = version_text lines;
    } in
    let q₁ = record q { method = some m; stage = lua_t.Http.Headers.uri } in
    let q₂ = record q₁ { path = u.path; url = some u; stage = lua_t.Http.Headers.version } in
    let q₃ = record q₂ { version = some ver_11; stage = headers } in
    let (h, e, k') = parse_headers-block q.head (n₀ ∷ n, x ∷ w) hs rest a in
    let q₄ = record q₃ { head = h; stage = stage_of h } in
    (
      h,
      steps-all q (name m ++ after_method) (at_step q₁ after_method)
          (at_step q₂ (version_text lines)) (at_step q₃ (b'\r' ∷ b'\n' ∷ lines)) (at_step q₄ rest)
          (step_method-some q m (length (name m)) (name m ++ after_method)
              (parse_method-name m _ known (long_enough m path k v ps lines)) (name_some m known)
            ∙ ap (λ r. ok (record { request = q₁; rest = r; finished = true }))
                (drop-append (name m) after_method))
          (step_url-some q₁ u after_method (parse_url-render path k v ps _ wp wk wv wps))
          (step_version-some q₂ _ (version_text lines) (
            parse_version-text n₀ _ a.0.0 (
              omega (
                arith,
                length-append n (b':' ∷ b' ' ∷ x ∷ (w ++ (b'\r' ∷ b'\n' ∷ block_text hs rest))),
              ))))
          (step_headers-some q₃ h (stage_of h) rest _ (parse_headers-break q.head lines ∙ e)),
      k',
    )
parse-request q m path k v ps ([], w) hs rest known plain a = absurd a.0
parse-request q m path k v ps (n₀ ∷ n, []) hs rest known plain a = absurd a.0
