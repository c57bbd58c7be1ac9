-- ===== src/Http/Headers/Parts.antt =====
-- src/t_htp_req.c: what a line of the headers sets and stores.
use lua_t.Prelude.{
  ℕ, ◌-◌, ◌≡◌, refl, ap, ◌∙◌, Bool, true, false, not, ◌&&◌, ◌||◌, [], ◌∷◌, ◌++◌, map, Bytes, ◌==◌,
  if◌then◌else◌, length, length-append, get_or, take, take-length-append, arith,
}
use lua_t.Prelude.Result.{Result, ok, argument, error, fault, ◌>>=◌}
use lua_t.Http.Headers.{Head, lower, relevant, handle_header, connection, handle_parts}
use lua_t.Http.Headers.Lines.{line_text}

-- What is stored of a line.
abbrev pub stored : Bytes × Bytes → Bytes × Bytes
stored p = (map lower p.0, p.1)

-- `Connection` has a value that is known; the parser goes by the first letter and the length of a name.
abbrev pub is_accepted : Bytes × Bytes → Bool
is_accepted p =
    let c = lower (get_or p.1 0 0) in
    not (lower (get_or p.0 0 0) == b'c' && length p.0 == 10)
    || c == b'c'
    || c == b'k'
    || c == b't'
    || c == b'u'

abbrev Keeps : Head → Result Head → Type 0
Keeps h (ok h') = h'.headers ≡ h.headers
Keeps h _ = ⊥

split :
    (h : Head) (b : Bool) (x y : Result Head)
    → (b ≡ true → Keeps h x)
    → (b ≡ false → Keeps h y)
    → Keeps h (if b then x else y)
split h true x y f g = f refl
split h false x y f g = g refl

connection-Keeps :
    (h : Head) (c : ℕ)
    → (c == b'c' || c == b'k' || c == b't' || c == b'u') ≡ true
    → Keeps h (connection h c)
connection-Keeps h c e =
    split h (c == b'c') _ _ (λ _. refl)
      (λ e₁.
        split h (c == b'k') _ _ (λ _. refl)
          (λ e₂.
            split h (c == b't') _ _ (λ _. refl)
              (λ e₃.
                split h (c == b'u') _ _ (λ _. refl) (λ e₄. ground (arith, e, e₁, e₂, e₃, e₄)))))

relevant-Keeps :
    (h : Head) (name v value : Bytes)
    → is_accepted (name, v) ≡ true
    → Keeps h (relevant h (lower (get_or name 0 0)) (length name) v value)
unfolding relevant
relevant-Keeps h name v value e =
    let c = lower (get_or name 0 0) in
    split h (c == b'e') _ _ (λ _. refl)
      (λ e₁.
        split h (c == b'c') _ _
          (λ e₂.
            split h (length name == 14) _ _ (λ _. refl)
              (λ e₃.
                split h (length name == 10) _ _
                  (λ e₄. connection-Keeps h (lower (get_or v 0 0)) (ground (arith, e, e₂, e₄)))
                  (λ e₄. refl)))
          (λ e₂. refl))

Keeps-ok :
    (h : Head) (r : Result Head) → Keeps h r → (h' : Head) × (r ≡ ok h') × (h'.headers ≡ h.headers)
Keeps-ok h (ok h') k = (h', refl, k)
Keeps-ok h (argument i) k = absurd k
Keeps-ok h error k = absurd k
Keeps-ok h fault k = absurd k

relevant-first :
    (h : Head) (c lk x : ℕ) (s t value : Bytes)
    → relevant h c lk (x ∷ s) value ≡ relevant h c lk (x ∷ t) value
unfolding relevant
relevant-first h c lk x s t value = refl

-- Where the parts of a line are.
module _ (n₀ : ℕ) (n : Bytes) (x : ℕ) (a t : Bytes) where
  v : Bytes
  v = x ∷ (a ++ (b'\r' ∷ b'\n' ∷ t))

  c : Bytes
  c = b':' ∷ b' ' ∷ v

  name_length : length (line_text (n₀ ∷ n, x ∷ a) t) - length c ≡ length (n₀ ∷ n)
  unfolding v c
  name_length = omega (arith, length-append (n₀ ∷ n) c)

  value_length : length v - length (b'\n' ∷ t) - 1 ≡ length (x ∷ a)
  unfolding v
  value_length = omega (arith, length-append (x ∷ a) (b'\r' ∷ b'\n' ∷ t))

  handle_parts-line :
      (h : Head)
      → is_accepted (n₀ ∷ n, x ∷ a) ≡ true
      → (h' : Head) × (handle_parts h
            (line_text (n₀ ∷ n, x ∷ a) t)
            v
            (length (n₀ ∷ n))
            (length (x ∷ a))
          ≡ ok h')
        × (h'.headers ≡ h.headers ++ (stored (n₀ ∷ n, x ∷ a) ∷ []))
  unfolding handle_parts v
  handle_parts-line h e =
      let value : take (length (x ∷ a)) v ≡ x ∷ a =
        take-length-append (x ∷ a) (b'\r' ∷ b'\n' ∷ t) in
      let name : take (length (n₀ ∷ n)) (line_text (n₀ ∷ n, x ∷ a) t) ≡ n₀ ∷ n =
        take-length-append (n₀ ∷ n) (b':' ∷ b' ' ∷ v) in
      let (h', e', k) = Keeps-ok h _ (relevant-Keeps h (n₀ ∷ n) v (take (length (x ∷ a)) v) e) in
      let added : Head → Head = λ h'. record h' {
        headers =
            h'.headers
            ++ ((
              map lower (take (length (n₀ ∷ n)) (line_text (n₀ ∷ n, x ∷ a) t)),
              take (length (x ∷ a)) v,
            )
                ∷ []);
      } in
      (
        added h',
        ap (λ r. r >>= λ h'. ok (added h')) e',
        (λ i. k i ++ ((map lower (name i), value i) ∷ [])),
      )

  pub handle_header-line :
      (h : Head)
      → is_accepted (n₀ ∷ n, x ∷ a) ≡ true
      → (h' : Head) × (handle_header h
            (line_text (n₀ ∷ n, x ∷ a) t)
            (b':' ∷ b' ' ∷ (x ∷ (a ++ (b'\r' ∷ b'\n' ∷ t))))
            (x ∷ (a ++ (b'\r' ∷ b'\n' ∷ t)))
            (b'\n' ∷ t)
          ≡ ok h')
        × (h'.headers ≡ h.headers ++ (stored (n₀ ∷ n, x ∷ a) ∷ []))
  unfolding handle_header v c
  handle_header-line h e =
      let (h', e', k) = handle_parts-line h e in
      (
        h',
        (λ i. handle_parts h (line_text (n₀ ∷ n, x ∷ a) t) v (name_length i) (value_length i)) ∙ e',
        k,
      )
