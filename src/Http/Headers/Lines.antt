-- ===== src/Http/Headers/Lines.antt =====
-- src/t_htp_req.c: a line of the headers.
use lua_t.Prelude.{ℕ, ◌≡◌, refl, ◌∙◌, false, ◌||◌, [], ◌∷◌, ◌++◌, Bytes, ◌==◌, arith}
use lua_t.Prelude.Result.{ok}
use lua_t.Http.Headers.{Head, Reader, Mode, ky, space, vl, next, round, read_headers, is_lws}

-- A line in front of other lines.
abbrev pub line_text : Bytes × Bytes → Bytes → Bytes
line_text h more = h.0 ++ (b':' ∷ b' ' ∷ (h.1 ++ (b'\r' ∷ b'\n' ∷ more)))

-- No colon or line break; no line break.
abbrev pub IsName : Bytes → Type 0
IsName [] = Unit
IsName (c ∷ s) = ((c == b':' || c == b'\n') ≡ false) × IsName s

abbrev pub IsValue : Bytes → Type 0
IsValue [] = Unit
IsValue (c ∷ s) = ((c == b'\n') ≡ false) × IsValue s

abbrev pub at : Mode → Bytes → Bytes → Bytes → Head → Reader
at m k c v h = record { k = k; c = c; v = v; mode = m; head = h }

pub read_next :
    (x y : ℕ) (r : Bytes) (st st' : Reader)
    → round st x y r ≡ ok (next st')
    → read_headers (x ∷ y ∷ r) st ≡ read_headers (y ∷ r) st'
read_next x y r st st' e = ground (arith, e)

module _ (k c v : Bytes) (h : Head) where
  round-ky :
      (x y : ℕ) (r : Bytes)
      → (x == b':' || x == b'\n') ≡ false
      → round (at ky k c v h) x y r ≡ ok (next (at ky k c v h))
  unfolding round
  round-ky x y r e = ground (arith, e)

  round-vl :
      (x y : ℕ) (r : Bytes)
      → (x == b'\n') ≡ false
      → round (at vl k c v h) x y r ≡ ok (next (at vl k c v h))
  unfolding round
  round-vl x y r e = ground (arith, e)

  round-space :
      (x y : ℕ) (r : Bytes)
      → is_lws x ≡ false
      → round (at space k c v h) x y r ≡ ok (next (at vl k c (x ∷ y ∷ r) h))
  unfolding round
  round-space x y r e = ground (arith, e)

  -- The reader runs over a name, and over a value.
  read-IsName :
      (a : Bytes) (z : ℕ) (t : Bytes)
      → IsName a
      → read_headers (a ++ (z ∷ t)) (at ky k c v h) ≡ read_headers (z ∷ t) (at ky k c v h)
  read-IsName [] z t n = refl
  read-IsName (x ∷ []) z t n = read_next x z t _ _ (round-ky x z t n.0)
  read-IsName (x ∷ y ∷ a) z t n =
      read_next x y (a ++ (z ∷ t)) _ _ (round-ky x y (a ++ (z ∷ t)) n.0)
      ∙ read-IsName (y ∷ a) z t n.1

  read-IsValue :
      (a : Bytes) (z : ℕ) (t : Bytes)
      → IsValue a
      → read_headers (a ++ (z ∷ t)) (at vl k c v h) ≡ read_headers (z ∷ t) (at vl k c v h)
  read-IsValue [] z t n = refl
  read-IsValue (x ∷ []) z t n = read_next x z t _ _ (round-vl x z t n.0)
  read-IsValue (x ∷ y ∷ a) z t n =
      read_next x y (a ++ (z ∷ t)) _ _ (round-vl x y (a ++ (z ∷ t)) n.0)
      ∙ read-IsValue (y ∷ a) z t n.1

-- From the colon to the end of a line.
module _ (k c v : Bytes) (h : Head) where
  colon :
      (t : Bytes) → round (at ky k c v h) b':' b' ' t ≡ ok (next (at space k (b':' ∷ b' ' ∷ t) v h))
  unfolding round
  colon t = refl

  blank : (x : ℕ) (t : Bytes) → round (at space k c v h) b' ' x t ≡ ok (next (at space k c v h))
  unfolding round
  blank x t = refl

  read_colon :
      (t : Bytes)
      → read_headers (b':' ∷ b' ' ∷ t) (at ky k c v h)
        ≡ read_headers (b' ' ∷ t) (at space k (b':' ∷ b' ' ∷ t) v h)
  read_colon t = read_next b':' b' ' t _ _ (colon t)

  read_space :
      (x : ℕ) (t : Bytes)
      → read_headers (b' ' ∷ x ∷ t) (at space k c v h) ≡ read_headers (x ∷ t) (at space k c v h)
  read_space x t = read_next b' ' x t _ _ (blank x t)

  read_cr :
      (t : Bytes)
      → read_headers (b'\r' ∷ b'\n' ∷ t) (at vl k c v h) ≡ read_headers (b'\n' ∷ t) (at vl k c v h)
  read_cr t = read_next b'\r' b'\n' t _ _ (round-vl k c v h b'\r' b'\n' t refl)

read_value :
    (k c v : Bytes) (h : Head) (x : ℕ) (a t : Bytes)
    → is_lws x ≡ false
    → IsValue a
    → read_headers (x ∷ (a ++ (b'\r' ∷ b'\n' ∷ t))) (at space k c v h)
      ≡ read_headers (b'\n' ∷ t) (at vl k c (x ∷ (a ++ (b'\r' ∷ b'\n' ∷ t))) h)
read_value k c v h x [] t e n =
    read_next x b'\r' (b'\n' ∷ t) _ _ (round-space k c v h x b'\r' (b'\n' ∷ t) e)
    ∙ read_cr k c (x ∷ b'\r' ∷ b'\n' ∷ t) h t
read_value k c v h x (y ∷ a) t e n =
    let s = a ++ (b'\r' ∷ b'\n' ∷ t) in
    read_next x y s _ _ (round-space k c v h x y s e)
    ∙ read-IsValue k c (x ∷ y ∷ s) h (y ∷ a) b'\r' (b'\n' ∷ t) n
    ∙ read_cr k c (x ∷ y ∷ s) h t

-- A line, up to its break.
pub read_line :
    (k c v : Bytes) (h : Head) (name : Bytes) (x : ℕ) (a t : Bytes)
    → IsName name
    → is_lws x ≡ false
    → IsValue a
    → read_headers (line_text (name, x ∷ a) t) (at ky k c v h)
      ≡ read_headers (b'\n' ∷ t) (
          at vl k
            (b':' ∷ b' ' ∷ (x ∷ (a ++ (b'\r' ∷ b'\n' ∷ t))))
            (x ∷ (a ++ (b'\r' ∷ b'\n' ∷ t)))
            h)
read_line k c v h name x a t n e w =
    let s = a ++ (b'\r' ∷ b'\n' ∷ t) in
    read-IsName k c v h name b':' (b' ' ∷ (x ∷ s)) n
    ∙ read_colon k c v h (x ∷ s)
    ∙ read_space k (b':' ∷ b' ' ∷ x ∷ s) v h x s
    ∙ read_value k (b':' ∷ b' ' ∷ x ∷ s) v h x a t e w
