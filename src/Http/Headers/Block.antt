-- ===== src/Http/Headers/Block.antt =====
-- Headers that are written out are read back.
use lua_t.Prelude.{
  ℕ, ◌≡◌, refl, ap, ◌∙◌, true, false, List, [], ◌∷◌, ◌++◌, map, Option, some, Bytes, arith,
  append_assoc,
}
use lua_t.Prelude.Result.{Result, ok}
use lua_t.Http.{eat_lws}
use lua_t.Http.Headers.{
  Head, handle_header, Reader, ky, vl, next, stop, round, read_headers, Stage, stage_of, is_lws,
  parse_headers,
}
use lua_t.Http.Headers.Lines.{line_text, IsName, IsValue, at, read_next, read_line}
use lua_t.Http.Headers.Parts.{stored, is_accepted, handle_header-line}

-- A name that begins with no white space, and a value that does not either; neither is empty.
abbrev pub IsHeader : Bytes × Bytes → Type 0
IsHeader (n₀ ∷ n, x ∷ a) =
    (is_lws n₀ ≡ false)
    × IsName (n₀ ∷ n)
    × (is_lws x ≡ false)
    × IsValue a
    × (is_accepted (n₀ ∷ n, x ∷ a) ≡ true)
IsHeader _ = ⊥

abbrev pub AllHeaders : List (Bytes × Bytes) → Type 0
AllHeaders [] = Unit
AllHeaders (h ∷ hs) = IsHeader h × AllHeaders hs

-- The lines, and the empty one behind them.
abbrev pub block_text : List (Bytes × Bytes) → Bytes → Bytes
block_text [] rest = b'\r' ∷ b'\n' ∷ rest
block_text (h ∷ hs) rest = line_text h (block_text hs rest)

-- The break of the last line, and of another one.
round-stop :
    (k c v rest : Bytes) (h h' : Head)
    → handle_header h k c v (b'\n' ∷ b'\r' ∷ b'\n' ∷ rest) ≡ ok h'
    → round (at vl k c v h) b'\n' b'\r' (b'\n' ∷ rest) ≡ ok (stop h' (stage_of h') rest)
unfolding round
round-stop k c v rest h h' e = ground (arith, e)

round-next :
    (k c v r : Bytes) (y : ℕ) (h h' : Head)
    → is_lws y ≡ false
    → handle_header h k c v (b'\n' ∷ y ∷ r) ≡ ok h'
    → round (at vl k c v h) b'\n' y r ≡ ok (next (at ky (y ∷ r) c v h'))
unfolding round
round-next k c v r y h h' l e = ground (arith, l, e)

read_stop :
    (x y : ℕ) (r : Bytes) (st : Reader) (h : Head) (stage : Stage) (rest : Bytes)
    → round st x y r ≡ ok (stop h stage rest)
    → read_headers (x ∷ y ∷ r) st ≡ ok (h, some (stage, rest))
read_stop x y r st h stage rest e = ground (arith, e)

Reads : Head → List (Bytes × Bytes) → Bytes → Result (Head × Option (Stage × Bytes)) → Type 0
Reads h hs rest r =
    (h' : Head) × (r ≡ ok (h', some (stage_of h', rest)))
    × (h'.headers ≡ h.headers ++ map stored hs)

read-block :
    (c v rest : Bytes) (h : Head) (p : Bytes × Bytes) (ps : List (Bytes × Bytes))
    → AllHeaders (p ∷ ps)
    → Reads h
        (p ∷ ps)
        rest
        (read_headers (block_text (p ∷ ps) rest) (at ky (block_text (p ∷ ps) rest) c v h))
unfolding Reads
read-block c v rest h (n₀ ∷ n, x ∷ a) [] ((l, m, e, w, acc), _) =
    let t = b'\r' ∷ b'\n' ∷ rest in
    let (h', e', k) = handle_header-line n₀ n x a t h acc in
    (
      h',
      read_line _ c v h (n₀ ∷ n) x a t m e w
          ∙ read_stop b'\n' b'\r' (b'\n' ∷ rest) _ h' _ rest (round-stop _ _ _ rest h h' e'),
      k,
    )
read-block c v rest h (n₀ ∷ n, x ∷ a) ((n₁ ∷ n', x' ∷ a') ∷ ps) ((l, m, e, w, acc), q) =
    let r = n' ++ (b':' ∷ b' ' ∷ (x' ∷ (a' ++ (b'\r' ∷ b'\n' ∷ block_text ps rest)))) in
    let v' = x ∷ (a ++ (b'\r' ∷ b'\n' ∷ n₁ ∷ r)) in
    let (h', e', k) = handle_header-line n₀ n x a (n₁ ∷ r) h acc in
    let (h'', e'', k'') = read-block (b':' ∷ b' ' ∷ v') v' rest h' (n₁ ∷ n', x' ∷ a') ps q in
    (
      h'',
      read_line _ c v h (n₀ ∷ n) x a (n₁ ∷ r) m e w
          ∙ read_next b'\n' n₁ r _ _ (round-next _ _ _ r n₁ h h' q.0.0 e')
          ∙ e'',
      k'' ∙ ap (λ hs. hs ++ map stored ((n₁ ∷ n', x' ∷ a') ∷ ps)) k ∙ append_assoc h.headers _ _,
    )
read-block c v rest h ([], w) ps a = absurd a.0
read-block c v rest h (n₀ ∷ n, []) ps a = absurd a.0
read-block c v rest h (n₀ ∷ n, x ∷ a) (([], w) ∷ ps) q = absurd q.1.0
read-block c v rest h (n₀ ∷ n, x ∷ a) ((n₁ ∷ n', []) ∷ ps) q = absurd q.1.0

eat_lws-stop : (c : ℕ) (s : Bytes) → is_lws c ≡ false → eat_lws (c ∷ s) ≡ c ∷ s
eat_lws-stop c s e = rw e refl

-- Headers that are written out, each on a line that ends with two bytes, with an empty line behind them,
-- are read back: the table gets every name, in small letters, with its value, in order, the state is the
-- one for a body if the table then has content-length, and that of a request that is done otherwise, and
-- the data behind the empty line are left. The conditions: there is a header; no name or value is empty or
-- begins with white space; names hold no colon and no line break, values no line break; and a name of
-- ten letters that begins with c has a value that begins with c, k, t or u, small or large.
pub parse_headers-block :
    (h : Head) (p : Bytes × Bytes) (ps : List (Bytes × Bytes)) (rest : Bytes)
    → AllHeaders (p ∷ ps)
    → (h' : Head) × (parse_headers h (block_text (p ∷ ps) rest) ≡ ok (h', some (stage_of h', rest)))
      × (h'.headers ≡ h.headers ++ map stored (p ∷ ps))
unfolding parse_headers Reads
parse_headers-block h (n₀ ∷ n, x ∷ v) ps rest a =
    let t = block_text ((n₀ ∷ n, x ∷ v) ∷ ps) rest in
    let (h', e, k) = read-block t t rest h (n₀ ∷ n, x ∷ v) ps a in
    (h', ap (λ s. read_headers s (at ky s s s h)) (eat_lws-stop n₀ _ a.0.0) ∙ e, k)
parse_headers-block h ([], w) ps rest a = absurd a.0
parse_headers-block h (n₀ ∷ n, []) ps rest a = absurd a.0
