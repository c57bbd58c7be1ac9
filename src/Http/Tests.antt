-- ===== src/Http/Tests.antt =====
-- The request parser's theorems at concrete requests, and runs of the URL's parser.
use lua_t.Prelude.{◌≡◌, refl, some, none, arith, codes, List, [], ◌∷◌, Bytes, true, false}
use lua_t.Prelude.Int.{pos}
use lua_t.Http.{ver_11, post}
use lua_t.Http.Headers.{
  Head, stage_of, parse_headers, relevant, round, method, uri, headers, body, done,
}
use lua_t.Http.Headers.Block.{IsHeader}
use lua_t.Http.Request.{Request, parse}
use lua_t.Http.Request.Whole.{parse-request}
use lua_t.Prelude.Result.{fault}
use lua_t.Http.{ok, illegal, propfind, put, parse_method, parse_version}
use lua_t.Http.Names.{parse_method-name, parse_method_mistaken}
use lua_t.Http.Url.{parse_url, step, finish}
use lua_t.Http.Url.Render.{parse_url-render}

parse_method-name_example : parse_method (codes "PROPFIND /a HTTP/1.1") ≡ ok (some (propfind, 8))
parse_method-name_example = parse_method-name propfind (codes "/a HTTP/1.1") tt (omega arith)

parse_method_mistaken_run :
    (parse_method (codes "PURGE /a HTTP/1.1") ≡ ok (some (put, 3)))
    × (parse_method (codes "UNSUBSCRIBE /a HTTP/1.1") ≡ ok (some (illegal, 0)))
parse_method_mistaken_run = parse_method_mistaken (codes "/a HTTP/1.1") (omega arith)

without_query :
    parse_url (codes " /a HTTP")
    ≡ lua_t.Prelude.Result.ok (
        some (record {
          path = some (codes "/a");
          url = codes "/a";
          query = none;
          rest = codes " HTTP";
        }))
unfolding parse_url finish step
without_query = refl

incomplete : parse_url (codes " /a?k=v") ≡ lua_t.Prelude.Result.ok none
unfolding parse_url finish step
incomplete = refl

key_alone : parse_url (codes " /a?k ") ≡ fault
unfolding parse_url finish step
key_alone = refl

value_with_equals : parse_url (codes " /a?k=v=w ") ≡ fault
unfolding parse_url finish step
value_with_equals = refl

parse_url-render_example :
    parse_url (codes " /p?a=1&b=2 HTTP")
    ≡ lua_t.Prelude.Result.ok (
        some (record {
          path = some (codes "/p");
          url = codes "/p?a=1&b=2";
          query = some ((codes "a", codes "1") ∷ (codes "b", codes "2") ∷ []);
          rest = codes " HTTP";
        }))
parse_url-render_example =
    parse_url-render (codes "p") (codes "a") (codes "1") ((codes "b", codes "2") ∷ [])
      (codes "HTTP") (refl, tt) (refl, tt) (refl, tt) ((refl, tt), (refl, tt), tt)

abbrev no_head : Head
no_head = record {
  expect = false;
  content_length = none;
  keep_alive = none;
  tls = false;
  upgrade = false;
  headers = [];
  line = none;
}

abbrev request : Request
request = record {
  stage = method;
  method = none;
  path = none;
  url = none;
  version = none;
  head = no_head;
}

abbrev host : Bytes × Bytes
host = (codes "Host", codes "a.b")

abbrev size : Bytes × Bytes
size = (codes "Content-Length", codes "42")

host-IsHeader : IsHeader host
host-IsHeader = (refl, (refl, (refl, (refl, (refl, tt)))), refl, (refl, (refl, tt)), refl)

size-IsHeader : IsHeader size
size-IsHeader = (
  refl,
  (
    refl,
    (
      refl,
      (
        refl,
        (refl, (refl, (refl, (refl, (refl, (refl, (refl, (refl, (refl, (refl, (refl, tt))))))))))),
      ),
    ),
  ),
  refl,
  (refl, tt),
  refl,
)

parse-request_example :
    (h : Head) × (parse method request
        (codes "POST /a?k=v HTTP/1.1\r\nHost: a.b\r\nContent-Length: 42\r\n\r\nbody")
      ≡ lua_t.Prelude.Result.ok (
        record request {
          stage = stage_of h;
          method = some post;
          path = some (codes "/a");
          url = some (record {
            path = some (codes "/a");
            url = codes "/a?k=v";
            query = some ((codes "k", codes "v") ∷ []);
            rest = codes " HTTP/1.1\r\nHost: a.b\r\nContent-Length: 42\r\n\r\nbody";
          });
          version = some ver_11;
          head = h;
        },
        some (codes "body"),
      ))
    × (h.headers ≡ (codes "host", codes "a.b") ∷ (codes "content-length", codes "42") ∷ [])
parse-request_example =
    parse-request request post (codes "a") (codes "k") (codes "v") [] host (size ∷ [])
      (codes "body") tt ((refl, tt), (refl, tt), (refl, tt), tt)
      (host-IsHeader, (size-IsHeader, tt))

-- A line that ends with one byte loses the last byte of its value.
one_byte_break :
    parse_headers no_head (codes "Host: a.b\n\nx")
    ≡ lua_t.Prelude.Result.ok
        (record no_head { headers = (codes "host", codes "a.") ∷ [] }, some (done, codes "\nx"))
unfolding parse_headers round relevant
one_byte_break = refl

-- A header without a value takes the next line for its value.
no_value :
    parse_headers no_head (codes "Accept:\r\nHost: a.b\r\n\r\n")
    ≡ lua_t.Prelude.Result.ok
        (record no_head { headers = (codes "accept", codes "Host: a.b") ∷ [] }, some (done, []))
unfolding parse_headers round relevant
no_value = refl

-- A length of zero makes the parser wait for a body.
empty_body :
    parse_headers no_head (codes "Content-Length: 0\r\n\r\n")
    ≡ lua_t.Prelude.Result.ok (
      record no_head {
        content_length = some (pos 0);
        headers = (codes "content-length", codes "0") ∷ [];
      },
      some (body, []),
    )
unfolding parse_headers round relevant
empty_body = refl

-- Any name of ten letters that begins with c is taken for `Connection`.
other_name : parse_headers no_head (codes "Cache-Tags: a\r\n\r\n") ≡ fault
unfolding parse_headers round relevant
other_name = refl

-- A body of one byte is not handed back.
one_byte_body :
    parse headers request (codes "Host: a\r\n\r\nb")
    ≡ lua_t.Prelude.Result.ok (
      record request {
        stage = done;
        head = record no_head { headers = (codes "host", codes "a") ∷ [] };
      },
      none,
    )
unfolding parse parse_headers round relevant
one_byte_body = refl

-- A path is kept though its query is not complete.
path_kept :
    parse uri request (codes " /a?k=v")
    ≡ lua_t.Prelude.Result.ok (record request { path = some (codes "/a") }, some (codes " /a?k=v"))
unfolding parse parse_url finish step
path_kept = refl

-- Data that end with white space behind the URL are read behind their terminator.
version_cut : parse uri request (codes "/a ") ≡ fault
unfolding parse parse_url finish step parse_version
version_cut = refl
