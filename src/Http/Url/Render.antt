-- ===== src/Http/Url/Render.antt =====
-- A URL that is written out is parsed back.
use lua_t.Prelude.{
  ℕ, suc, ◌+◌, ◌-◌, ◌≡◌, refl, sym, ◌∙◌, ap, arith, false, ◌||◌, List, [], ◌∷◌, ◌++◌, append_assoc,
  Option, none, some, Bytes, ◌==◌, length, length-append, slice, slice-append,
}
use lua_t.Prelude.Result.{ok, ◌>>=◌}
use lua_t.Http.Url.{Scan, step, finish, scan, parse_url}

-- No character that the parser looks at.
abbrev pub Plain : Bytes → Type 0
Plain [] = Unit
Plain (c ∷ s) = ((c == b'?' || c == b'=' || c == b'&' || c == b' ') ≡ false) × Plain s

step-Plain :
    (s : Bytes) (i c : ℕ) (st : Scan)
    → (c == b'?' || c == b'=' || c == b'&' || c == b' ') ≡ false
    → step s i c st ≡ ok st
unfolding step
step-Plain s i c st h = ground (arith, h)

scan-next :
    (s r : Bytes) (i c : ℕ) (st st' : Scan)
    → (c == b' ') ≡ false
    → step s i c st ≡ ok st'
    → scan s (c ∷ r) i st ≡ scan s r (suc i) st'
scan-next s r i c st st' e h = ground (arith, e, h)

scan-Plain :
    (s a t : Bytes) (i : ℕ) (st : Scan)
    → Plain a
    → scan s (a ++ t) i st ≡ scan s t (i + length a) st
scan-Plain s [] t i st h = ap (λ k. scan s t k st) (omega arith)
scan-Plain s (c ∷ a) t i st h =
    scan-next s (a ++ t) i c st st (ground (arith, h.0)) (step-Plain s i c st h.0)
    ∙ scan-Plain s a t (suc i) st h.1
    ∙ ap (λ k. scan s t k st) (omega arith)

cut :
    (s a b c : Bytes) (i n : ℕ) → s ≡ a ++ (b ++ c) → i ≡ length a → n ≡ length b → slice s i n ≡ b
cut s a b c i n h at size = rw (h, at, size) (slice-append a b c)

-- Where the parser stands in front of a key, and behind it.
start : Bytes → Option Bytes → ℕ → List (Bytes × Bytes) → Scan
start before p v₀ qs = record { path = p; q = some (length before); v = v₀; keys = []; query = qs }

behind : Bytes → Bytes → Option Bytes → List (Bytes × Bytes) → Scan
behind before k p qs = record {
  path = p;
  q = some (length before);
  v = suc (length before + length k);
  keys = k ∷ [];
  query = qs;
}

module _ (s before k v more : Bytes) (p : Option Bytes) (v₀ : ℕ) (qs : List (Bytes × Bytes))
    (whole : s ≡ before ++ (k ++ (b'=' ∷ (v ++ more)))) where
  key_cut : slice s (length before) (length before + length k - length before) ≡ k
  key_cut = cut s before k (b'=' ∷ (v ++ more)) _ _ whole refl (omega arith)

  value_cut : (n : ℕ) → n ≡ length v → slice s (suc (length before + length k)) n ≡ v
  value_cut n size =
      cut s (before ++ (k ++ b'=' ∷ [])) v more (suc (length before + length k)) n
        (whole
          ∙ sym (
              append_assoc before (k ++ b'=' ∷ []) (v ++ more)
              ∙ ap (λ x. before ++ x) (append_assoc k (b'=' ∷ []) (v ++ more))))
        (omega (arith, length-append before (k ++ b'=' ∷ []), length-append k (b'=' ∷ []))) size

  step_key :
      step s (length before + length k) b'=' (start before p v₀ qs) ≡ ok (behind before k p qs)
  unfolding step start behind
  step_key = ap (λ c. ok (record (behind before k p qs) { keys = c ∷ [] })) key_cut

  scan-pair :
      Plain k
      → Plain v
      → scan s (k ++ (b'=' ∷ (v ++ more))) (length before) (start before p v₀ qs)
        ≡ scan s more (suc (length before + length k) + length v) (behind before k p qs)
  scan-pair hk hv =
      scan-Plain s k (b'=' ∷ (v ++ more)) (length before) (start before p v₀ qs) hk
      ∙ scan-next s (v ++ more) (length before + length k) b'=' (start before p v₀ qs)
          (behind before k p qs) refl step_key
      ∙ scan-Plain s v more (suc (length before + length k)) (behind before k p qs) hv

  -- Behind the value.
  last : ℕ
  last = suc (length before + length k) + length v

  value_here : slice s (suc (length before + length k)) (last - suc (length before + length k)) ≡ v
  unfolding last
  value_here = value_cut _ (omega arith)

  finish-behind :
      (rest : Bytes)
      → finish s rest last (behind before k p qs)
        ≡ ok (record {
          path = p;
          url = slice s 0 last;
          query = some (qs ++ (k, v) ∷ []);
          rest = rest;
        })
  unfolding finish behind
  finish-behind rest =
      ap
        (λ x. ok (record {
          path = p;
          url = slice s 0 last;
          query = some (qs ++ (k, x) ∷ []);
          rest = rest;
        }))
        value_here

  step-and :
      (before' : Bytes)
      → suc last ≡ length before'
      → step s last b'&' (behind before k p qs)
        ≡ ok (start before' p (suc (length before + length k)) (qs ++ (k, v) ∷ []))
  unfolding step behind start
  step-and before' e =
      ap
        (λ (x : ℕ × Bytes). ok (record {
          path = p;
          q = some x.0;
          v = suc (length before + length k);
          keys = [];
          query = qs ++ (k, x.1) ∷ [];
        }))
        (λ i. (e i, value_here i))

-- The text of a key and a value, and of those that follow.
abbrev pub query_text : Bytes → Bytes → List (Bytes × Bytes) → Bytes
query_text k v [] = k ++ b'=' ∷ v
query_text k v (p ∷ ps) = k ++ (b'=' ∷ (v ++ (b'&' ∷ query_text p.0 p.1 ps)))

abbrev pub PlainPairs : List (Bytes × Bytes) → Type 0
PlainPairs [] = Unit
PlainPairs (p ∷ ps) = Plain p.0 × Plain p.1 × PlainPairs ps

scan-query :
    (s before k v : Bytes) (ps : List (Bytes × Bytes)) (rest : Bytes) (p : Option Bytes) (v₀ : ℕ)
    (qs : List (Bytes × Bytes))
    → s ≡ before ++ (query_text k v ps ++ (b' ' ∷ rest))
    → Plain k
    → Plain v
    → PlainPairs ps
    → scan s (query_text k v ps ++ (b' ' ∷ rest)) (length before) (start before p v₀ qs)
      ≡ ok (
          some (record {
            path = p;
            url = slice s 0 (length before + length (query_text k v ps));
            query = some (qs ++ (k, v) ∷ ps);
            rest = b' ' ∷ rest;
          }))
unfolding last
scan-query s before k v [] rest p v₀ qs whole hk hv hps =
    let e : (k ++ b'=' ∷ v) ++ (b' ' ∷ rest) ≡ k ++ (b'=' ∷ (v ++ (b' ' ∷ rest))) =
      append_assoc k (b'=' ∷ v) (b' ' ∷ rest) in
    let cut_whole : s ≡ before ++ (k ++ (b'=' ∷ (v ++ (b' ' ∷ rest)))) =
      whole ∙ ap (λ t. before ++ t) e in
    let size : suc (length before + length k) + length v ≡ length before + length (k ++ b'=' ∷ v) =
      omega (arith, length-append k (b'=' ∷ v)) in
    ap (λ t. scan s t (length before) (start before p v₀ qs)) e
    ∙ scan-pair s before k v (b' ' ∷ rest) p v₀ qs cut_whole hk hv
    ∙ ap (λ r. r >>= λ u. ok (some u))
        (finish-behind s before k v (b' ' ∷ rest) p v₀ qs cut_whole (b' ' ∷ rest))
    ∙ ap
        (λ n. ok (
          some (record {
            path = p;
            url = slice s 0 n;
            query = some (qs ++ (k, v) ∷ []);
            rest = b' ' ∷ rest;
          })))
        size
scan-query s before k v (q ∷ ps) rest p v₀ qs whole hk hv hps =
    let tail : Bytes = query_text q.0 q.1 ps ++ (b' ' ∷ rest) in
    let more : Bytes = b'&' ∷ tail in
    let before' : Bytes = before ++ (k ++ (b'=' ∷ (v ++ b'&' ∷ []))) in
    let e : query_text k v (q ∷ ps) ++ (b' ' ∷ rest) ≡ k ++ (b'=' ∷ (v ++ more)) =
      append_assoc k (b'=' ∷ (v ++ (b'&' ∷ query_text q.0 q.1 ps))) (b' ' ∷ rest)
      ∙ ap (λ t. k ++ (b'=' ∷ t)) (append_assoc v (b'&' ∷ query_text q.0 q.1 ps) (b' ' ∷ rest)) in
    let cut_whole : s ≡ before ++ (k ++ (b'=' ∷ (v ++ more))) = whole ∙ ap (λ t. before ++ t) e in
    let again : s ≡ before' ++ tail =
      cut_whole
      ∙ sym (
          append_assoc before (k ++ (b'=' ∷ (v ++ b'&' ∷ []))) tail
          ∙ ap (λ t. before ++ t)
              (append_assoc k (b'=' ∷ (v ++ b'&' ∷ [])) tail
                ∙ ap (λ t. k ++ (b'=' ∷ t)) (append_assoc v (b'&' ∷ []) tail))) in
    let at : suc (suc (length before + length k) + length v) ≡ length before' = omega (
      arith,
      length-append before (k ++ (b'=' ∷ (v ++ b'&' ∷ []))),
      length-append k (b'=' ∷ (v ++ b'&' ∷ [])),
      length-append v (b'&' ∷ []),
    ) in
    let size : length before' + length (query_text q.0 q.1 ps)
        ≡ length before + length (query_text k v (q ∷ ps)) =
      omega (
        arith,
        length-append before (k ++ (b'=' ∷ (v ++ b'&' ∷ []))),
        length-append k (b'=' ∷ (v ++ b'&' ∷ [])),
        length-append v (b'&' ∷ []),
        length-append k (b'=' ∷ (v ++ (b'&' ∷ query_text q.0 q.1 ps))),
        length-append v (b'&' ∷ query_text q.0 q.1 ps),
      ) in
    ap (λ t. scan s t (length before) (start before p v₀ qs)) e
    ∙ scan-pair s before k v more p v₀ qs cut_whole hk hv
    ∙ scan-next s tail _ b'&' _ _ refl (step-and s before k v more p v₀ qs cut_whole before' at)
    ∙ ap (λ n. scan s tail n (start before' p (suc (length before + length k)) (qs ++ (k, v) ∷ [])))
        at
    ∙ scan-query s before' q.0 q.1 ps rest p (suc (length before + length k)) (qs ++ (k, v) ∷ [])
        again hps.0 hps.1 hps.2
    ∙ ap
        (λ (x : ℕ × List (Bytes × Bytes)).
          ok
            (some (record { path = p; url = slice s 0 x.0; query = some x.1; rest = b' ' ∷ rest })))
        (λ i. (size i, append_assoc qs ((k, v) ∷ []) (q ∷ ps) i))

step-question :
    (s before path : Bytes) (i : ℕ)
    → slice s 0 i ≡ path
    → suc i ≡ length before
    → step s i b'?' (record { path = none; q = none; v = 0; keys = []; query = [] })
      ≡ ok (start before (some path) 0 [])
unfolding step start
step-question s before path i e h =
    ap
      (λ (x : Bytes × ℕ).
        ok (record { path = some x.0; q = some x.1; v = 0; keys = []; query = [] }))
      (λ j. (e j, h j))

-- A path and a query of one or more keys and values, between spaces, are found as they were written
-- out: the path, the URL, each key with its value in order, and the place behind. The condition: the
-- path begins with a slash, and path, keys and values have none of the characters ? = & and space.
pub parse_url-render :
    (path k v : Bytes) (ps : List (Bytes × Bytes)) (rest : Bytes)
    → Plain path
    → Plain k
    → Plain v
    → PlainPairs ps
    → parse_url (b' ' ∷ b'/' ∷ path ++ (b'?' ∷ (query_text k v ps ++ (b' ' ∷ rest))))
      ≡ ok (
          some (record {
            path = some (b'/' ∷ path);
            url = b'/' ∷ path ++ (b'?' ∷ query_text k v ps);
            query = some ((k, v) ∷ ps);
            rest = b' ' ∷ rest;
          }))
unfolding parse_url start
parse_url-render path k v ps rest hp hk hv hps =
    let query : Bytes = query_text k v ps ++ (b' ' ∷ rest) in
    let s : Bytes = b'/' ∷ path ++ (b'?' ∷ query) in
    let before : Bytes = (b'/' ∷ path) ++ b'?' ∷ [] in
    let st : Scan = record { path = none; q = none; v = 0; keys = []; query = [] } in
    let front : slice s 0 (0 + length (b'/' ∷ path)) ≡ b'/' ∷ path =
      cut s [] (b'/' ∷ path) (b'?' ∷ query) _ _ refl refl (omega arith) in
    let mark : suc (0 + length (b'/' ∷ path)) ≡ length before =
      omega (arith, length-append (b'/' ∷ path) (b'?' ∷ [])) in
    scan-Plain s (b'/' ∷ path) (b'?' ∷ query) 0 st (refl, hp)
    ∙ scan-next s query (0 + length (b'/' ∷ path)) b'?' st (start before (some (b'/' ∷ path)) 0 [])
        refl (step-question s before (b'/' ∷ path) _ front mark)
    ∙ ap (λ n. scan s query n (start before (some (b'/' ∷ path)) 0 [])) mark
    ∙ scan-query s before k v ps rest (some (b'/' ∷ path)) 0 []
        (sym (append_assoc (b'/' ∷ path) (b'?' ∷ []) query)) hk hv hps
    ∙ ap
        (λ u. ok (
          some (record {
            path = some (b'/' ∷ path);
            url = u;
            query = some ((k, v) ∷ ps);
            rest = b' ' ∷ rest;
          })))
        (cut s [] ((b'/' ∷ path) ++ (b'?' ∷ query_text k v ps)) (b' ' ∷ rest) 0 _
          (sym (append_assoc (b'/' ∷ path) (b'?' ∷ query_text k v ps) (b' ' ∷ rest))) refl
          (omega (
            arith,
            length-append (b'/' ∷ path) (b'?' ∷ []),
            length-append (b'/' ∷ path) (b'?' ∷ query_text k v ps),
          )))
