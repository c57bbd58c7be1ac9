-- ===== src/Csv/Safe.antt =====
-- The record parser never reads outside its line, and numbers the fields it stores.
use lua_t.Prelude.{
  ℕ, zero, suc, ◌+◌, ◌≤◌, ◌<◌, ◌≡◌, ◌≢◌, ◌⊎◌, inl, inr, refl, Bool, true, false, List, [], ◌∷◌,
  ◌++◌, Option, none, some, Bytes, arith, length, get_or, Bool-cases, ◌==◌, ◌&&◌, slice,
}
use lua_t.Csv.{
  State, fldbeg, datnkd, empty, qte1st, qte2nd, qteone, recdne, Field, nil, text, Row, Parsed,
  is_fldbeg, is_done, strip, field_text, store_field, reset_field, progress, ◌>>=◌, push_value,
  pushfield, step_in, parse, first_row, parsed_of, int_end, parse_line,
}

-- What holds at the head of the loop, by state, of the runner and the field read so far.
abbrev StateInv : State → ℕ → ℕ → ℕ → Type 0
StateInv fldbeg run beg len = Unit {0}
StateInv datnkd run beg len = beg + len + 1 ≤ run
StateInv qte1st run beg len = (0 < run) × (len ≡ 0)
StateInv empty run beg len = Unit {0}
StateInv recdne run beg len = Unit {0}
StateInv _ run beg len = (0 < beg) × (beg + len ≤ run)

-- Indices go up by one from `k`, to the count `n`.
abbrev pub Numbered : ℕ → List (ℕ × Field) → ℕ → Type 0
Numbered k [] n = k ≡ n
Numbered k ((i, f) ∷ out) n = (i ≡ k + 1) × Numbered (k + 1) out n

Numbered-concat :
    (k n : ℕ) (out : List (ℕ × Field)) (f : Field)
    → Numbered k out n
    → Numbered k (out ++ ((n + 1, f) ∷ [])) (n + 1)
Numbered-concat k n [] f h = omega arith
Numbered-concat k n ((i, g) ∷ out) f h = (h.0, Numbered-concat (k + 1) n out f h.1)

module _ (k : ℕ) where
  abbrev Inv : ℕ → Row → Type 0
  Inv run r =
      (r.run ≡ run)
      × StateInv r.ste (suc run) r.beg r.len
      × Numbered k r.out r.cnt
      × (r.cnt ≤ k + suc run)

  -- No fault, and the invariant for the next round.
  abbrev Keeps : ℕ → Option Row → Type 0
  Keeps run none = ⊥
  Keeps run (some r) = Inv run r

  Keeps-some : (run : ℕ) (o : Option Row) → Keeps run o → (r : Row) × (o ≡ some r) × Inv run r
  Keeps-some run none h = absurd h
  Keeps-some run (some r) h = (r, refl, h)

module _ (line : Bytes) (start : get_or line 0 0 ≢ 13) where
  cr_not_first : (beg n : ℕ) → (get_or line (beg + n) 0 == 13) ≡ true → n ≡ 0 → 0 < beg
  cr_not_first zero n h z = absurd (start (ground arith))
  cr_not_first (suc beg) n h z = omega arith

  strip-some :
      (beg n : ℕ)
      → beg + n ≤ length line
      → (n ≡ 0 → 0 < beg)
      → (m : ℕ) × (strip line beg n ≡ some m) × (m ≤ n)
  unfolding strip
  strip-some beg zero h p = (0, ground (arith, p refl), omega arith)
  strip-some beg (suc n) h p = elim (Bool-cases (get_or line (beg + n) 0 == 13)) [
    | inl cr ↦
        let (m, e, le) = strip-some beg n (omega arith) (cr_not_first beg n cr) in
        (m, ground (arith, e), omega arith)
    | inr other ↦ (suc n, ground arith, omega arith)
  ]

  module _ (gsub : Bytes → Bytes → Bytes → Bytes) (k : ℕ)
      (small : k + length line + 1 < int_end) where
    field_text-some :
        (row : Row) (m : ℕ)
        → row.beg + m ≤ length line
        → (f : Field) × (field_text gsub line row m ≡ some f)
    unfolding field_text
    field_text-some row m h = elim (Bool-cases row.hdb) [
      | inl e ↦
          (text (gsub (slice line row.beg m) (row.qte ∷ row.qte ∷ []) (row.qte ∷ [])), ground arith)
      | inr e ↦ (text (slice line row.beg m), ground arith)
    ]

    -- A push that reads inside the line stores one field, and changes nothing else but `len`.
    pushfield-some :
        (row : Row) (ste : State)
        → row.beg + row.len ≤ length line
        → (row.len ≡ 0 → is_fldbeg row.ste ≡ false → 0 < row.beg)
        → row.cnt + 1 < int_end
        → (m : ℕ) × (f : Field) × (pushfield gsub line row ste ≡ some (store_field row ste m f))
          × (m ≤ row.len)
    unfolding pushfield push_value
    pushfield-some row ste h p b = elim (Bool-cases (row.len == 0 && is_fldbeg row.ste)) [
      | inl e ↦ (row.len, nil, ground arith, omega arith)
      | inr e ↦
          let (m, es, le) = strip-some row.beg row.len h (ground (arith, p)) in
          let (f, ef) = field_text-some row m (omega arith) in (m, f, ground (arith, es, ef), le)
    ]

    -- Pushing a field keeps the invariant: the machine goes on to a state that knows nothing.
    pushfield-Keeps :
        (run c : ℕ) (row : Row) (ste : State)
        → (ste ≡ fldbeg) ⊎ (ste ≡ recdne)
        → row.beg + row.len ≤ length line
        → (row.len ≡ 0 → is_fldbeg row.ste ≡ false → 0 < row.beg)
        → row.run ≡ run
        → Numbered k row.out row.cnt
        → row.cnt ≤ k + run
        → run ≤ length line
        → Keeps k run (pushfield gsub line row ste)
          × Keeps k run (do r ← pushfield gsub line row ste; some (progress c r))
    pushfield-Keeps run c row ste t h p e n b l =
        let (m, f, eq, le) = pushfield-some row ste h p (omega (arith, b, l, small)) in
        rw eq (ground (arith, Numbered-concat k row.cnt row.out f n))

    step_in-Keeps :
        (m : State) (run c : ℕ) (row : Row)
        → row.ste ≡ m
        → run ≤ length line
        → row.run ≡ run
        → StateInv m run row.beg row.len
        → Numbered k row.out row.cnt
        → row.cnt ≤ k + run
        → Keeps k run (step_in gsub line m c row)
    unfolding step_in
    step_in-Keeps datnkd run c row es hr er hi hn hb = ground (
      arith,
      pushfield-Keeps run c (record row { len = row.len + 1 }) fldbeg (inl refl),
      pushfield-Keeps run c (record row { len = row.len + 1 }) recdne (inr refl),
    )
    step_in-Keeps qteone run c row es hr er hi hn hb = ground (
      arith,
      pushfield-Keeps run c row fldbeg (inl refl),
      pushfield-Keeps run c row recdne (inr refl),
    )
    step_in-Keeps fldbeg run c row es hr er hi hn hb = ground (
      arith,
      pushfield-Keeps run c (reset_field row) fldbeg (inl refl),
      pushfield-Keeps run c (reset_field row) recdne (inr refl),
    )
    step_in-Keeps qte2nd run c row es hr er hi hn hb = ground (
      arith,
      pushfield-Keeps run c row fldbeg (inl refl),
      pushfield-Keeps run c row recdne (inr refl),
    )
    step_in-Keeps _ run c row es hr er hi hn hb = ground arith

    parse-Keeps :
        (rest : Bytes) (run : ℕ) (row : Row)
        → run + length rest ≡ length line
        → row.run ≡ run
        → StateInv row.ste run row.beg row.len
        → Numbered k row.out row.cnt
        → row.cnt ≤ k + run
        → (r : Row) × (parse gsub line row rest ≡ some r)
          × Numbered k r.out r.cnt
          × (r.cnt ≤ k + length line + 1)
    unfolding parse
    parse-Keeps [] run row hl er hi hn hb = elim (Bool-cases (is_done row.ste)) [
      | inl e ↦ (row, ground (arith, e), hn, omega arith)
      | inr e ↦
          let (r, eq, i) =
            Keeps-some k run _ (step_in-Keeps row.ste run 0 row refl (omega arith) er hi hn hb) in
          (r, rw (e, eq), i.2, omega (arith, i.3))
    ]
    parse-Keeps (c ∷ cs) run row hl er hi hn hb = elim (Bool-cases (is_done row.ste)) [
      | inl e ↦ (row, rw (e, parse), hn, omega arith)
      | inr e ↦
          let (r, eq, i) =
            Keeps-some k run _ (step_in-Keeps row.ste run c row refl (omega arith) er hi hn hb) in
          elim (Bool-cases (c == 0)) [
            | inl z ↦ (r, ground (arith, eq), i.2, omega (arith, i.3))
            | inr z ↦
                let (r', eq', i', b') =
                  parse-Keeps cs (run + 1) (record r { run = r.run + 1 }) (omega arith)
                    (omega arith) (ground arith) i.2 (omega (arith, i.3)) in
                (r', ground (arith, eq, eq'), i', b')
          ]
    ]

-- Whatever the line holds, if its first byte is no carriage return, and the count to begin with and the
-- length of the line are together below 2^31 - 1, the parser reads nothing outside the line, its count does
-- not overflow, it comes to an end, and has stored its fields at consecutive indices behind the given
-- count, up to the count that it returns.
pub parse_line-some :
    (gsub : Bytes → Bytes → Bytes → Bytes) (dlm qte esc : Bytes) (dbl : Bool) (lne : Bytes)
    (cnt : ℕ)
    → get_or lne 0 0 ≢ b'\r'
    → cnt + length lne + 1 < int_end
    → (p : Parsed) × (parse_line gsub dlm qte esc dbl lne cnt ≡ some p)
      × Numbered cnt p.fields p.count
unfolding parse_line
parse_line-some gsub dlm qte esc dbl lne cnt h m =
    let (r, eq, n, b) =
      parse-Keeps lne h gsub cnt m lne 0
        (first_row (get_or dlm 0 0) (get_or qte 0 0) (get_or esc 0 0) dbl cnt) (omega arith) refl tt
        refl (omega arith) in
    (parsed_of lne r, rw eq, n)

-- A line that holds a line break of two bytes, and nothing before it, makes the parser read the byte
-- in front of the line, if neither delimiter nor quote is one of those two bytes.
pub parse_line_blank_crlf :
    (gsub : Bytes → Bytes → Bytes → Bytes) (dlm qte esc : Bytes) (dbl : Bool) (rest : Bytes)
    (cnt : ℕ)
    → (get_or dlm 0 0 ≢ b'\r') × (get_or dlm 0 0 ≢ b'\n')
    → get_or qte 0 0 ≢ b'\r'
    → parse_line gsub dlm qte esc dbl (b'\r' ∷ b'\n' ∷ rest) cnt ≡ none
unfolding parse_line parse step_in pushfield push_value strip
parse_line_blank_crlf gsub dlm qte esc dbl rest cnt hd hq = ground arith
