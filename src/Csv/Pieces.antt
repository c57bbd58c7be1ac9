-- ===== src/Csv/Pieces.antt =====
-- What the record parser does over each piece of a field, with any text behind it.
use lua_t.Prelude.{
  ℕ, zero, suc, ◌+◌, ◌-◌, ◌<◌, ◌≡◌, ◌≢◌, refl, ◌∙◌, Bool, true, false, ◌||◌, [], ◌∷◌, ◌++◌, some,
  Bytes, ◌==◌, if◌then◌else◌, arith, length, get_or, Bool-cases, ◌⊎◌, inl, inr, slice-append,
  length-append,
}
use lua_t.Csv.{
  State, datqte, datnkd, qteone, qtetwo, text, Row, is_done, is_fldbeg, strip, field_text,
  store_field, push_value, pushfield, int_end, step_in, parse,
}
use lua_t.Csv.Render.{has, last, EndsBare, double, AllPlain, IsDialect}

get_or-last :
    (pre : Bytes) (c : ℕ) (cs post : Bytes) (i : ℕ)
    → i ≡ length pre + length cs
    → get_or (pre ++ ((c ∷ cs) ++ post)) i 0 ≡ last c cs
get_or-last [] c [] post i e = rw e
get_or-last [] c (d ∷ cs) post zero e = absurd (omega arith)
get_or-last [] c (d ∷ cs) post (suc i) e = get_or-last [] d cs post i (omega arith)
get_or-last (x ∷ pre) c cs post zero e = absurd (omega arith)
get_or-last (x ∷ pre) c cs post (suc i) e = get_or-last pre c cs post i (omega arith)

-- A field that does not end with a carriage return is not shortened.
strip_bare :
    (pre body post : Bytes)
    → EndsBare body
    → (length body ≡ 0 → 0 < length pre)
    → strip (pre ++ (body ++ post)) (length pre) (length body) ≡ some (length body)
unfolding strip
strip_bare pre [] post h p = ground (arith, p refl)
strip_bare pre (c ∷ cs) post h p = ground (
  arith,
  get_or-last pre c cs post (length pre + length cs) refl,
  length-append pre ((c ∷ cs) ++ post),
  length-append (c ∷ cs) post,
)

module _ (gsub : Bytes → Bytes → Bytes → Bytes) where
  field_text-slice :
      (pre body post : Bytes) (row : Row) (t : Bytes)
      → row.beg ≡ length pre
      → t ≡ (if row.hdb then gsub body (row.qte ∷ row.qte ∷ []) (row.qte ∷ []) else body)
      → field_text gsub (pre ++ (body ++ post)) row (length body) ≡ some (text t)
  unfolding field_text
  field_text-slice pre body post row t eb et = ground (
    arith,
    eb,
    slice-append pre body post,
    length-append pre (body ++ post),
    length-append body post,
  )

  pub push_slice :
      (pre body post : Bytes) (row : Row) (ste : State) (t : Bytes)
      → EndsBare body
      → (length body ≡ 0 → (is_fldbeg row.ste ≡ false) × (0 < length pre))
      → row.beg ≡ length pre
      → row.len ≡ length body
      → t ≡ (if row.hdb then gsub body (row.qte ∷ row.qte ∷ []) (row.qte ∷ []) else body)
      → row.cnt + 1 < int_end
      → pushfield gsub (pre ++ (body ++ post)) row ste
        ≡ some (store_field row ste (length body) (text t))
  unfolding pushfield push_value
  push_slice pre body post row ste t h p eb el et m =
      ground (arith, strip_bare pre body post h, field_text-slice pre body post row t eb et)

  pub parse_step :
      (line : Bytes) (row r : Row) (c : ℕ) (cs : Bytes)
      → is_done row.ste ≡ false
      → c ≢ 0
      → step_in gsub line row.ste c row ≡ some r
      → parse gsub line row (c ∷ cs) ≡ parse gsub line (record r { run = r.run + 1 }) cs
  unfolding parse
  parse_step line row r c cs d z e = ground (arith, e)

-- The row `r` differs from `row` in the state, the runner, the length and the quote flag at most.
pub record Reached (row r : Row) (ste : State) (run len : ℕ) (hdb : Bool) : Type 0 where
  pub ste_is : r.ste ≡ ste
  pub run_is : r.run ≡ run
  pub len_is : r.len ≡ len
  pub hdb_is : r.hdb ≡ hdb
  pub beg_is : r.beg ≡ row.beg
  pub dlm_is : r.dlm ≡ row.dlm
  pub qte_is : r.qte ≡ row.qte
  pub cnt_is : r.cnt ≡ row.cnt
  pub out_is : r.out ≡ row.out

module _ (gsub : Bytes → Bytes → Bytes → Bytes) (line : Bytes) where
  last-nil : (c : ℕ) (cs : Bytes) → last c cs ≢ b' ' → cs ≡ [] → c ≢ b' '
  last-nil c [] h e = h
  last-nil c (d ∷ cs) h e = absurd (cc)

  -- A plain field up to its end: spaces inside do not count into the length until something follows.
  pub naked_loop :
      (cs tail : Bytes) (row : Row) (c₀ : ℕ)
      → row.ste ≡ datnkd
      → AllPlain row.dlm row.qte cs
      → row.beg < row.run
      → (cs ≡ [] → row.len ≡ row.run - row.beg - 1)
      → last c₀ cs ≢ b' '
      → (r : Row) × (parse gsub line row (cs ++ tail) ≡ parse gsub line r tail)
        × Reached row r datnkd (row.run + length cs) (row.run + length cs - row.beg - 1) row.hdb
  naked_loop [] tail row c₀ es ha hb hl hs = (row, refl, ground (arith, hl refl))
  naked_loop (c ∷ cs) tail row c₀ es ha hb hl hs =
      let r = record row { len = if c == b' ' then row.len else row.run - row.beg } in
      let (r', e', h') =
        naked_loop cs tail (record r { run = r.run + 1 }) c es ha.1 (omega arith)
          (λ e. ground (arith, last-nil c cs hs e)) hs in
      (
        r',
        parse_step gsub line row r c (cs ++ tail) (ground arith) ha.0.2
              (unfold step_in in ground arith)
            ∙ e',
        ground (arith, h'),
      )

  -- In quotes, behind a plain byte or behind a doubled quote.
  abbrev pub is_qtetwo : State → Bool
  is_qtetwo qtetwo = true
  is_qtetwo _ = false

  abbrev pub InQuotes : State → Type 0
  InQuotes ste = (ste ≡ datqte) ⊎ (ste ≡ qtetwo)

  abbrev after_byte : ℕ → Row → Row
  after_byte c row = record row {
    ste = if c == row.qte then qteone else datqte;
    len = row.run - row.beg;
    hdb = row.hdb || is_qtetwo row.ste;
  }

  after_byte_lem :
      (c : ℕ) (row : Row)
      → InQuotes row.ste
      → step_in gsub line row.ste c row ≡ some (after_byte c row)
  unfolding step_in
  after_byte_lem c row h = ground arith

  parse_byte :
      (c : ℕ) (tail : Bytes) (row : Row)
      → InQuotes row.ste
      → c ≢ 0
      → parse gsub line row (c ∷ tail)
        ≡ parse gsub line (record (after_byte c row) { run = row.run + 1 }) tail
  parse_byte c tail row h z =
      parse_step gsub line row (after_byte c row) c tail (ground arith) z (after_byte_lem c row h)

  -- The second of two quotes.
  parse_second :
      (tail : Bytes) (row : Row)
      → row.ste ≡ qteone
      → IsDialect row.dlm row.qte
      → parse gsub line row (row.qte ∷ tail)
        ≡ parse gsub line (record row { ste = qtetwo; run = row.run + 1 }) tail
  parse_second tail row h hd =
      parse_step gsub line row (record row { ste = qtetwo }) row.qte tail (ground arith) hd.qte_zero
        (unfold step_in in ground arith)

  -- The rest of a quoted field, up to its closing quote.
  pub quoted_loop :
      (cs tail : Bytes) (row : Row)
      → (row.ste ≡ datqte) ⊎ (row.ste ≡ qtetwo)
      → IsDialect row.dlm row.qte
      → has 0 cs ≡ false
      → (r : Row) × (parse gsub line row (double row.dlm row.qte cs ++ (row.qte ∷ tail))
          ≡ parse gsub line r tail)
        × Reached row r qteone
            (row.run + length (double row.dlm row.qte cs) + 1)
            (row.run + length (double row.dlm row.qte cs) - row.beg)
            (row.hdb || is_qtetwo row.ste || has row.qte cs)
  quoted_loop [] tail row es hd hz = (
    record (after_byte row.qte row) { run = row.run + 1 },
    parse_byte row.qte tail row es hd.qte_zero,
    ground arith,
  )
  quoted_loop (c ∷ cs) tail row es hd hz = elim (Bool-cases (c == row.qte)) [
    | inl e ↦
        let r = record (after_byte row.qte row) { run = row.run + 1 } in
        let r₂ = record r { ste = qtetwo; run = r.run + 1 } in
        let (r', e', h') = quoted_loop cs tail r₂ (inr refl) hd (ground arith) in
        (
          r',
          rw e (parse_byte row.qte _ row es hd.qte_zero ∙ parse_second _ r (ground arith) hd ∙ e'),
          ground (arith, h'),
        )
    | inr e ↦
        let r = record (after_byte c row) { run = row.run + 1 } in
        let (r', e', h') = quoted_loop cs tail r (inl (ground arith)) hd (ground arith) in
        (r', rw e (parse_byte c _ row es (ground arith) ∙ e'), ground (arith, h'))
  ]
