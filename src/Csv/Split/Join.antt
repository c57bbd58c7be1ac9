-- ===== src/Csv/Split/Join.antt =====
-- Joining the tokens with the delimiter gives the text back.
use lua_t.Prelude.{
  ℕ, zero, suc, ◌+◌, ◌-◌, ◌^◌, ◌<◌, ◌≤◌, ◌≡◌, ◌≢◌, ◌⊎◌, inl, inr, refl, ap, sym, ◌∙◌, true, false,
  List, [], ◌∷◌, ◌++◌, none, some, Bytes, ◌==◌, length, get_or, drop, take, arith, append_assoc,
  append-nil, length-append, Bool-cases,
}
use mathlib.Core.Option
use lua_t.Csv.Split.{Split, new, advance, scan, token_len, next, tokens}

take-suc :
    (i : ℕ) (xs : Bytes) → i < length xs → take (i + 1) xs ≡ take i xs ++ (get_or xs i 0 ∷ [])
take-suc i [] h = absurd (omega arith)
take-suc zero (x ∷ xs) h = ground arith
take-suc (suc i) (x ∷ xs) h = ground (arith, take-suc i xs)

take_all : (xs : Bytes) (n : ℕ) → n ≡ length xs → take n xs ≡ xs
take_all [] zero h = refl
take_all [] (suc n) h = refl
take_all (x ∷ xs) zero h = absurd (omega arith)
take_all (x ∷ xs) (suc n) h = ap (◌∷◌ x) (take_all xs n (omega arith))

-- The text from `start` on begins with `u` and the delimiter, and the scan stops at its end.
record Found (dlm all : Bytes) (start stop : ℕ) : Type 0 where
  u : Bytes
  rest : Bytes
  splits : all ≡ u ++ (dlm ++ rest)
  stop_is : stop + 1 ≡ start + length u + length dlm

matched :
    (dlm seen u : Bytes) (itd c : ℕ)
    → itd < length dlm
    → seen ≡ u ++ take itd dlm
    → (u' : Bytes) × (seen ++ (c ∷ []) ≡ u' ++ take (advance dlm itd c) dlm)
      × (advance dlm itd c ≤ length dlm)
matched dlm seen u itd c h e = elim (Bool-cases (c == get_or dlm itd 0)) [
  | inl t ↦ (
    u,
    rw t (rw (e, take-suc itd dlm h) (ground (arith, append_assoc u (take itd dlm) (c ∷ [])))),
    ground arith,
  )
  | inr t ↦ elim (Bool-cases (c == get_or dlm 0 0)) [
    | inl f ↦ (seen, rw (t, f) (ground (arith, take-suc 0 dlm (omega arith))), ground arith)
    | inr f ↦
        (seen ++ (c ∷ []), rw (t, f) (ground (arith, append-nil (seen ++ (c ∷ [])))), ground arith)
  ]
]

later_stop :
    {F : Type 0} (cs : Bytes) (stop its : ℕ)
    → (stop ≡ its + 1 + length cs) ⊎ F
    → (stop ≡ its + suc (length cs)) ⊎ F
later_stop cs stop its (inl e) = inl (omega arith)
later_stop cs stop its (inr f) = inr f

==→eq : (a b : ℕ) → (a == b) ≡ true → a ≡ b
==→eq a b h = ground arith

-- The matched part of the delimiter stands at the end of what was read.
scan_sound :
    (dlm cs seen u : Bytes) (start its itd : ℕ)
    → itd < length dlm
    → seen ≡ u ++ take itd dlm
    → its ≡ start + length seen
    → (scan dlm cs its itd ≡ its + length cs) ⊎ Found dlm (seen ++ cs) start (scan dlm cs its itd)
unfolding scan
scan_sound dlm [] seen u start its itd h e n = inl (omega arith)
scan_sound dlm (c ∷ cs) seen u start its itd h e n =
    let (u', e', le) = matched dlm seen u itd c h e in
    let read : seen ++ (c ∷ cs) ≡ (seen ++ (c ∷ [])) ++ cs = sym (append_assoc seen (c ∷ []) cs) in
    elim (Bool-cases (advance dlm itd c == length dlm)) [
      | inl t ↦
          rw (t, read)
            (inr (record {
              u = u';
              rest = cs;
              splits = ground (
                arith,
                e',
                take_all dlm (advance dlm itd c) (ground arith),
                append_assoc u' dlm cs,
              );
              stop_is = omega (
                arith,
                ==→eq _ _ t,
                ap length e',
                length-append seen (c ∷ []),
                length-append u' (take (advance dlm itd c) dlm),
                ap length (take_all dlm (advance dlm itd c) (==→eq _ _ t)),
              );
            }))
      | inr t ↦
          rw (t, read)
            (later_stop cs _ its (
              scan_sound dlm cs (seen ++ (c ∷ [])) u' start (its + 1) (advance dlm itd c)
                (ground arith) e' (omega (arith, length-append seen (c ∷ [])))))
    ]

drop-nil : (n : ℕ) → drop {A = ℕ} n [] ≡ []
drop-nil zero = refl
drop-nil (suc n) = refl

drop-add : (a b : ℕ) (xs : Bytes) → drop (a + b) xs ≡ drop b (drop a xs)
drop-add zero b xs = ap (λ n. drop n xs) (omega arith)
drop-add (suc a) b [] = rw (drop-nil, drop-nil)
drop-add (suc a) b (x ∷ xs) =
    let e : suc a + b ≡ suc (a + b) = omega arith in ap (λ n. drop n (x ∷ xs)) e ∙ drop-add a b xs

drop-append : (u r : Bytes) → drop (length u) (u ++ r) ≡ r
drop-append [] r = refl
drop-append (x ∷ u) r = drop-append u r

take-append : (u r : Bytes) → take (length u) (u ++ r) ≡ u
take-append [] r = refl
take-append (x ∷ u) r = ap (◌∷◌ x) (take-append u r)

length-drop : (n : ℕ) (xs : Bytes) → length (drop n xs) ≡ length xs - n
length-drop zero xs = omega arith
length-drop (suc n) [] = omega arith
length-drop (suc n) (x ∷ xs) = omega (arith, length-drop n xs)

abbrev pub join : Bytes → List Bytes → Bytes
join dlm [] = []
join dlm (t ∷ []) = t
join dlm (t ∷ u ∷ ts) = t ++ (dlm ++ join dlm (u ∷ ts))

-- What one call does before the end of the text: the last token, or a token and the delimiter.
record Last (s s' : Split) (t : Bytes) : Type 0 where
  token_is : t ≡ drop s.its s.str
  its_is : s'.its ≡ length s.str + 1

record Cut (s s' : Split) (t : Bytes) : Type 0 where
  splits : drop s.its s.str ≡ t ++ (s.dlm ++ drop s'.its s.str)
  forward : s.its < s'.its
  within : s'.its ≤ length s.str

-- The scan ran to the end of the text.
next-Last :
    (s : Split)
    → s.its ≤ length s.str
    → length s.str < 2 ^ 63
    → scan s.dlm (drop s.its s.str) s.its 0 ≡ s.its + length (drop s.its s.str)
    → next s
      ≡ some (drop s.its s.str, s.cnt + 1, record s { its = length s.str + 1; cnt = s.cnt + 1 })
unfolding next
next-Last s hi hl e =
    let stop : scan s.dlm (drop s.its s.str) s.its 0 ≡ length s.str =
      omega (arith, length-drop s.its s.str) in
    ground
      (arith, stop, length-drop s.its s.str, take_all (drop s.its s.str) (length s.str - s.its))

-- The scan found a delimiter behind `u`.
next-Cut :
    (s : Split) (u rest : Bytes) (stop : ℕ)
    → s.its ≤ length s.str
    → length s.str < 2 ^ 63
    → 0 < length s.dlm
    → s.dst ≡ false
    → scan s.dlm (drop s.its s.str) s.its 0 ≡ stop
    → drop s.its s.str ≡ u ++ (s.dlm ++ rest)
    → stop + 1 ≡ s.its + length u + length s.dlm
    → next s ≡ some (u, s.cnt + 1, record s { its = stop + 1; cnt = s.cnt + 1 })
unfolding next
next-Cut s u rest stop hi hl hd hs e sp st =
    let len : length (drop s.its s.str) ≡ length u + (length s.dlm + length rest) =
      ap length sp
      ∙ length-append u (s.dlm ++ rest)
      ∙ ap (λ n. length u + n) (length-append s.dlm rest) in
    let inside : stop < length s.str = omega (arith, length-drop s.its s.str) in
    let tok : token_len s stop ≡ length u = ground arith in
    ground (arith, tok, take-append u (s.dlm ++ rest))

next-Cut' :
    (s : Split)
    → s.its ≤ length s.str
    → 0 < length s.dlm
    → length s.str < 2 ^ 63
    → s.dst ≡ false
    → (t : Bytes) × (s' : Split) × (next s ≡ some (t, s.cnt + 1, s'))
      × (s'.str ≡ s.str)
      × (s'.dlm ≡ s.dlm)
      × (s'.dst ≡ false)
      × (Last s s' t ⊎ Cut s s' t)
next-Cut' s hi hd hl hs =
    let stop = scan s.dlm (drop s.its s.str) s.its 0 in
    let all = drop s.its s.str in
    elim (scan_sound s.dlm all [] [] s.its s.its 0 hd refl (omega arith)) [
      | inl e ↦ (
        all,
        record s { its = length s.str + 1; cnt = s.cnt + 1 },
        next-Last s hi hl e,
        refl,
        refl,
        hs,
        inl (record { token_is = refl; its_is = refl }),
      )
      | inr f ↦
          let len : length all ≡ length f.u + (length s.dlm + length f.rest) =
            ap length f.splits
            ∙ length-append f.u (s.dlm ++ f.rest)
            ∙ ap (λ n. length f.u + n) (length-append s.dlm f.rest) in
          let behind : drop (stop + 1) s.str ≡ f.rest =
            let e : stop + 1 ≡ s.its + (length f.u + length s.dlm) = omega (arith, f.stop_is) in
            rw
              (
                e,
                drop-add s.its (length f.u + length s.dlm) s.str,
                drop-add (length f.u) (length s.dlm) all,
              )
              (rw f.splits (rw (drop-append f.u (s.dlm ++ f.rest)) (drop-append s.dlm f.rest))) in
          (
            f.u,
            record s { its = stop + 1; cnt = s.cnt + 1 },
            next-Cut s f.u f.rest stop hi hl hd hs refl f.splits f.stop_is,
            refl,
            refl,
            hs,
            inr (record {
              splits = rw behind f.splits;
              forward = omega (arith, f.stop_is);
              within = omega (arith, f.stop_is, len, length-drop s.its s.str);
            }),
          )
    ]

tokens_end : (fuel : ℕ) (s : Split) → 0 < fuel → length s.str < s.its → tokens fuel s ≡ some []
unfolding tokens next
tokens_end zero s h e = absurd (omega arith)
tokens_end (suc fuel) s h e = ground arith

tokens-join :
    (fuel : ℕ) (s : Split) (str dlm : Bytes)
    → s.str ≡ str
    → s.dlm ≡ dlm
    → s.its ≤ length str
    → 0 < length dlm
    → length str < 2 ^ 63
    → s.dst ≡ false
    → length str + 1 - s.its < fuel
    → (t : Bytes) × (ts : List Bytes) × (tokens fuel s ≡ some (t ∷ ts))
      × (join dlm (t ∷ ts) ≡ drop s.its str)
unfolding tokens
tokens-join zero s str dlm es ed hi hd hl hs hf = absurd (omega arith)
tokens-join (suc fuel) s str dlm es ed hi hd hl hs hf =
    let (t, s', e, es', ed', hs', c) =
      next-Cut' s (ground arith) (ground arith) (ground arith) hs in
    elim c [
      | inl l ↦ (
        t,
        [],
        ground (arith, e, tokens_end fuel s' (omega arith) (ground (arith, l, es'))),
        ground (arith, l, es),
      )
      | inr c ↦
          let (t', ts, e', j) =
            tokens-join fuel s' str dlm (es' ∙ es) (ed' ∙ ed) (ground (arith, c, es)) hd hl hs'
              (omega (arith, c)) in
          (t, t' ∷ ts, ground (arith, e, e'), ground (arith, c.splits, j, es, ed))
    ]

-- Splitting a text of less than 2^63 bytes at a delimiter that is not empty ends after at most one token more than the text
-- has bytes, and joining the tokens with the delimiter gives the text back.
pub join-tokens :
    (str dlm : Bytes)
    → 0 < length dlm
    → length str < 2 ^ 63
    → (ts : List Bytes) × (tokens (length str + 2) (new str dlm none) ≡ some ts)
      × (join dlm ts ≡ str)
unfolding new
join-tokens str dlm hd hl =
    let (t, ts, e, j) =
      tokens-join (length str + 2) (new str dlm none) str dlm refl refl (omega arith) hd hl refl
        (omega arith) in
    (t ∷ ts, e, j)

-- The search does not go back: for different x and y, behind `x x` a third `x` starts over with one byte matched, so the
-- delimiter `x x y` is not found in `x x x y`.
pub next_missed :
    (x y : ℕ)
    → x ≢ y
    → Option.map (λ r. r.0) (next (new (x ∷ x ∷ x ∷ y ∷ []) (x ∷ x ∷ y ∷ []) none))
      ≡ some (x ∷ x ∷ x ∷ y ∷ [])
unfolding next new scan
next_missed x y h = ground arith
