-- ===== src/Csv/Tests.antt =====
-- Runs of the record parser and the splitter on concrete texts.
use lua_t.Prelude.{
  ℕ, zero, suc, refl, ◌≡◌, ap, codes, some, none, true, List, [], ◌∷◌, ◌++◌, Bytes, Option,
  if◌then◌else◌, length, arith, drop,
}
use mathlib.Core.Option
use lua_t.Csv.{
  nil, text, parse_line, parse, step_in, pushfield, push_value, field_text, strip, Parsed,
}
use lua_t.Csv.Safe.{Numbered, parse_line-some, parse_line_blank_crlf}
use lua_t.Csv.Render.{starts_with, ReplacesAll, absent, naked, quoted, render, IsDialect}
use lua_t.Csv.RoundTrip.{number, parse_line-render}
use lua_t.Csv.Split.{new, next, tokens}
use lua_t.Csv.Split.Join.{join, join-tokens, next_missed}

abbrev keep : Bytes → Bytes → Bytes → Bytes
keep s p r = s

abbrev run : Bytes → Option Parsed
run lne = parse_line keep (codes ",") (codes "\"") (codes "\\") true lne 0

plain :
    run (codes "a, b ,,\"c,d\"\n")
    ≡ some (record {
      complete = true;
      tail = codes "\"c,d\"\n";
      count = 4;
      fields =
          (1, text (codes "a")) ∷ (2, text (codes "b")) ∷ (3, nil) ∷ (4, text (codes "c,d")) ∷ [];
    })
unfolding parse_line parse step_in pushfield push_value field_text strip
plain = refl

-- The escape character does not protect the delimiter behind it.
not_escaped :
    run (codes "a\\,b\n")
    ≡ some (record {
      complete = true;
      tail = codes "b\n";
      count = 2;
      fields = (1, text (codes "a\\")) ∷ (2, text (codes "b")) ∷ [];
    })
unfolding parse_line parse step_in pushfield push_value field_text strip
not_escaped = refl

-- A replacement that does what the manual of `luaL_gsub` says: the first number of bytes is passed over.
abbrev replace_behind : ℕ → Bytes → Bytes → Bytes → Bytes
replace_behind k [] p r = []
replace_behind (suc k) (c ∷ s) p r = replace_behind k s p r
replace_behind zero (c ∷ s) p r =
    let on = replace_behind zero s p r in
    let over = replace_behind (length (drop 1 p)) s p r in
    if starts_with p (c ∷ s) then r ++ over else c ∷ on

abbrev replace : Bytes → Bytes → Bytes → Bytes
replace s p r = replace_behind 0 s p r

replace_behind-append :
    (q s p r : Bytes) → replace_behind (length q) (q ++ s) p r ≡ replace_behind 0 s p r
replace_behind-append [] s p r = refl
replace_behind-append (c ∷ q) s p r = replace_behind-append q s p r

starts_with-append : (p s : Bytes) → starts_with p (p ++ s) ≡ true
starts_with-append [] s = refl
starts_with-append (c ∷ p) s = ground (arith, starts_with-append p s)

replace-ReplacesAll : ReplacesAll replace
replace-ReplacesAll = record {
  at_end = λ p r. refl;
  hit = λ a p s r h.
      rw (starts_with-append (a ∷ p) s) (ap (λ t. r ++ t) (replace_behind-append p s (a ∷ p) r));
  miss = λ c s p r h e. rw e refl;
}

comma_quote : IsDialect b',' b'"'
comma_quote = record {
  dlm_qte = omega arith;
  dlm_break = omega arith;
  dlm_space = omega arith;
  dlm_zero = omega arith;
  qte_break = omega arith;
  qte_zero = omega arith;
  qte_cr = omega arith;
}

parse_line-render_example :
    (p : Parsed) × (parse_line replace
        (codes ",;")
        (codes "\"")
        []
        true
        (render b',' b'"'
          (naked b'a' (codes "bc"))
          (quoted (codes "say \"hi\"") ∷ absent ∷ [])
          (codes "rest"))
        7
      ≡ some p)
    × (p.complete ≡ true)
    × (p.count ≡ 10)
    × (p.fields ≡ number 7 (naked b'a' (codes "bc") ∷ quoted (codes "say \"hi\"") ∷ absent ∷ []))
parse_line-render_example =
    parse_line-render replace b',' b'"' (codes ";") [] [] true (naked b'a' (codes "bc"))
      (quoted (codes "say \"hi\"") ∷ absent ∷ []) (codes "rest") 7 replace-ReplacesAll comma_quote
      (ground arith) (omega arith)

parse_line-some_example :
    (p : Parsed) × (parse_line keep (codes ",") (codes "\"") (codes "\\") true (codes "a,\"b") 0
      ≡ some p)
    × Numbered 0 p.fields p.count
parse_line-some_example =
    parse_line-some keep (codes ",") (codes "\"") (codes "\\") true (codes "a,\"b") 0 (omega arith)
      (omega arith)

parse_line_blank_crlf_run :
    parse_line keep (codes ",") (codes "\"") (codes "\\") true (b'\r' ∷ b'\n' ∷ codes "a,b") 0
    ≡ none
parse_line_blank_crlf_run =
    parse_line_blank_crlf keep (codes ",") (codes "\"") (codes "\\") true (codes "a,b") 0
      (omega arith, omega arith) (omega arith)

join-tokens_example :
    (ts : List Bytes) × (tokens 9 (new (codes "a::b:::") (codes "::") none) ≡ some ts)
    × (join (codes "::") ts ≡ codes "a::b:::")
join-tokens_example = join-tokens (codes "a::b:::") (codes "::") (omega arith) (omega arith)

next_missed_run :
    Option.map (λ r. r.0) (next (new (codes "aaab") (codes "aab") none)) ≡ some (codes "aaab")
next_missed_run = next_missed b'a' b'b' (omega arith)
