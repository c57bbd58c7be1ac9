-- ===== src/Csv/Items.antt =====
-- Reading one field: left out, plain, or in quotes.
use lua_t.Prelude.{
  ℕ, ◌+◌, ◌<◌, ◌≡◌, ◌≢◌, refl, ◌∙◌, Bool, false, [], ◌∷◌, ◌++◌, some, Bytes, ◌==◌, if◌then◌else◌,
  arith, length, Bool-cases, ◌⊎◌, inl, inr, append-nil,
}
use lua_t.Csv.{
  State, fldbeg, datqte, datnkd, qte1st, qte2nd, qteone, qtetwo, recdne, Field, nil, text, Row,
  store_field, reset_field, progress, push_value, pushfield, int_end, step_in, parse,
}
use lua_t.Csv.Render.{naked, IsItem, has, last, EndsBare, double, IsDialect}
use lua_t.Csv.Pieces.{push_slice, parse_step, naked_loop, quoted_loop}

-- The state behind a field that ends with `t`.
abbrev pub behind : ℕ → ℕ → State
behind dlm t = if dlm == t then fldbeg else recdne

abbrev pub IsEnd : ℕ → ℕ → Type 0
IsEnd dlm t = (t ≡ dlm) ⊎ (t ≡ b'\n')

last-double : (dlm qte c₀ : ℕ) (cs : Bytes) → last c₀ (double dlm qte cs) ≡ last c₀ cs
last-double dlm qte c₀ [] = refl
last-double dlm qte c₀ (c ∷ cs) = ground (arith, last-double dlm qte c cs)

pub EndsBare-double :
    (dlm qte : ℕ) (s : Bytes) → qte ≢ b'\r' → EndsBare s → EndsBare (double dlm qte s)
EndsBare-double dlm qte [] q h = tt
EndsBare-double dlm qte (c ∷ cs) q h = ground (arith, last-double dlm qte c cs)

-- What one field has added to the row.
pub record Stored (row r : Row) (t : ℕ) (run : ℕ) (f : Field) : Type 0 where
  pub ste_is : r.ste ≡ behind row.dlm t
  pub run_is : r.run ≡ run
  pub dlm_is : r.dlm ≡ row.dlm
  pub qte_is : r.qte ≡ row.qte
  pub cnt_is : r.cnt ≡ row.cnt + 1
  pub out_is : r.out ≡ row.out ++ ((row.cnt + 1, f) ∷ [])

module _ (gsub : Bytes → Bytes → Bytes → Bytes) where
  pub parse_done :
      (line : Bytes) (r : Row) (rest : Bytes) → r.ste ≡ recdne → parse gsub line r rest ≡ some r
  unfolding parse
  parse_done line r [] h = ground arith
  parse_done line r (c ∷ cs) h = ground arith

  pub item_absent :
      (line rest : Bytes) (row : Row) (t : ℕ)
      → row.ste ≡ fldbeg
      → IsDialect row.dlm row.qte
      → IsEnd row.dlm t
      → row.cnt + 1 < int_end
      → (r : Row) × (parse gsub line row (t ∷ rest) ≡ parse gsub line r rest)
        × Stored row r t (row.run + 0 + 1) nil
  item_absent line rest row t es hd ht m =
      let r = store_field (reset_field row) (behind row.dlm t) 0 nil in
      (
        record r { run = r.run + 1 },
        parse_step gsub line row r t rest (ground arith) (ground arith)
            (unfold step_in pushfield push_value in ground arith),
        ground arith,
      )

  -- The end of a field behind quotes.
  close_quoted :
      (line rest : Bytes) (row r : Row) (t : ℕ)
      → (row.ste ≡ qteone) ⊎ (row.ste ≡ qte2nd)
      → IsDialect row.dlm row.qte
      → IsEnd row.dlm t
      → pushfield gsub line row (behind row.dlm t) ≡ some r
      → parse gsub line row (t ∷ rest) ≡ parse gsub line (record r { run = r.run + 1 }) rest
  close_quoted line rest row r t es hd ht e =
      parse_step gsub line row r t rest (ground arith) (ground arith)
        (unfold step_in in ground arith)

  close_naked :
      (line rest : Bytes) (row r : Row) (t : ℕ)
      → row.ste ≡ datnkd
      → IsDialect row.dlm row.qte
      → IsEnd row.dlm t
      → pushfield gsub line (record row { len = row.len + 1 }) (behind row.dlm t) ≡ some r
      → parse gsub line row (t ∷ rest)
        ≡ parse gsub line (record (progress t r) { run = r.run + 1 }) rest
  close_naked line rest row r t es hd ht e =
      parse_step gsub line row (progress t r) t rest (ground arith) (ground arith)
        (unfold step_in in ground arith)

  pub item_naked :
      (pre : Bytes) (c : ℕ) (cs rest : Bytes) (row : Row) (t : ℕ)
      → row.ste ≡ fldbeg
      → IsDialect row.dlm row.qte
      → IsItem row.dlm row.qte (naked c cs)
      → IsEnd row.dlm t
      → row.run ≡ length pre
      → row.cnt + 1 < int_end
      → (r : Row) × (parse gsub (pre ++ ((c ∷ cs) ++ (t ∷ rest))) row (c ∷ (cs ++ (t ∷ rest)))
          ≡ parse gsub (pre ++ ((c ∷ cs) ++ (t ∷ rest))) r rest)
        × Stored row r t (row.run + length (c ∷ (cs ++ [])) + 1) (text (c ∷ cs))
  item_naked pre c cs rest row t es hd hi ht hr m =
      let line = pre ++ ((c ∷ cs) ++ (t ∷ rest)) in
      let r₁ = record (reset_field row) { ste = datnkd } in
      let e₁ =
        parse_step gsub line row r₁ c (cs ++ (t ∷ rest)) (ground arith) (ground arith)
          (unfold step_in in ground arith) in
      let (r₂, e₂, h₂) =
        naked_loop gsub line cs (t ∷ rest) (record r₁ { run = r₁.run + 1 }) c refl hi.2.1
          (omega arith) (λ _. omega arith) hi.3 in
      let r₃ =
        store_field (record r₂ { len = r₂.len + 1 }) (behind r₂.dlm t) (length (c ∷ cs))
          (text (c ∷ cs)) in
      let e₃ =
        push_slice gsub pre (c ∷ cs) (t ∷ rest) (record r₂ { len = r₂.len + 1 }) (behind r₂.dlm t)
          (c ∷ cs) hi.4 (λ z. absurd (omega arith)) (ground (arith, h₂)) (ground (arith, h₂))
          (ground (arith, h₂)) (omega (arith, h₂, m)) in
      (
        record (progress t r₃) { run = r₃.run + 1 },
        e₁
            ∙ e₂
            ∙ close_naked line rest r₂ r₃ t (ground (arith, h₂)) (ground (arith, h₂, hd))
                (ground (arith, h₂)) e₃,
        ground (arith, h₂, append-nil cs),
      )

  -- From behind the opening quote to behind the field's end, where the content has been walked.
  pub quoted_end :
      (pre body rest : Bytes) (s : Bytes) (row r₂ : Row) (t : ℕ)
      → (r₂.ste ≡ qteone) ⊎ ((r₂.ste ≡ qte2nd) × (body ≡ []))
      → IsDialect row.dlm row.qte
      → IsEnd row.dlm t
      → EndsBare body
      → 0 < length pre
      → (r₂.beg ≡ length pre) × (r₂.len ≡ length body) × (r₂.run ≡ length pre + length body + 1)
      → (r₂.dlm ≡ row.dlm) × (r₂.qte ≡ row.qte) × (r₂.cnt ≡ row.cnt) × (r₂.out ≡ row.out)
      → s ≡ (if r₂.hdb then gsub body (row.qte ∷ row.qte ∷ []) (row.qte ∷ []) else body)
      → row.cnt + 1 < int_end
      → (r : Row) × (parse gsub (pre ++ (body ++ (row.qte ∷ t ∷ rest))) r₂ (t ∷ rest)
          ≡ parse gsub (pre ++ (body ++ (row.qte ∷ t ∷ rest))) r rest)
        × Stored row r t (length pre + length body + 2) (text s)
  quoted_end pre body rest s row r₂ t es hd ht hb hp hn hf e m =
      let line = pre ++ (body ++ (row.qte ∷ t ∷ rest)) in
      let r₃ = store_field r₂ (behind r₂.dlm t) (length body) (text s) in
      let e₃ =
        push_slice gsub pre body (row.qte ∷ t ∷ rest) r₂ (behind r₂.dlm t) s hb
          (λ _. (ground arith, hp)) hn.0 hn.1 (ground arith) (omega (arith, hf.2, m)) in
      (
        record r₃ { run = r₃.run + 1 },
        close_quoted line rest r₂ r₃ t (ground arith) (ground arith) (ground arith) e₃,
        ground arith,
      )

  pub record Walked (row r : Row) (body : Bytes) (hdb : Bool) : Type 0 where
    pub ste_is : (r.ste ≡ qteone) ⊎ ((r.ste ≡ qte2nd) × (body ≡ []))
    pub beg_is : r.beg ≡ row.run + 1
    pub len_is : r.len ≡ length body
    pub run_is : r.run ≡ row.run + length body + 2
    pub hdb_is : r.hdb ≡ hdb
    pub dlm_is : r.dlm ≡ row.dlm
    pub qte_is : r.qte ≡ row.qte
    pub cnt_is : r.cnt ≡ row.cnt
    pub out_is : r.out ≡ row.out

  -- From an opening quote to behind the closing one.
  pub quoted_walk :
      (line s tail : Bytes) (row : Row)
      → row.ste ≡ fldbeg
      → IsDialect row.dlm row.qte
      → has 0 s ≡ false
      → (r : Row) × (parse gsub line row (row.qte ∷ (double row.dlm row.qte s ++ (row.qte ∷ tail)))
          ≡ parse gsub line r tail)
        × Walked row r (double row.dlm row.qte s) (has row.qte s)
  quoted_walk line [] tail row es hd hz =
      let r₁ = record (reset_field row) { ste = qte1st } in
      let e₁ =
        parse_step gsub line row r₁ row.qte _ (ground arith) hd.qte_zero
          (unfold step_in in ground arith) in
      let r₂ = record r₁ { run = r₁.run + 1; beg = r₁.run + 1; ste = qte2nd } in
      (
        record r₂ { run = r₂.run + 1 },
        e₁
            ∙ parse_step gsub line (record r₁ { run = r₁.run + 1 }) r₂ row.qte tail refl hd.qte_zero
                (unfold step_in in ground arith),
        ground arith,
      )
  quoted_walk line (c ∷ cs) tail row es hd hz = elim (Bool-cases (c == row.qte)) [
    | inl e ↦
        let more = double row.dlm row.qte cs ++ (row.qte ∷ tail) in
        let r₁ = record (reset_field row) { ste = qte1st } in
        let e₁ =
          parse_step gsub line row r₁ row.qte (row.qte ∷ row.qte ∷ more) (ground arith) hd.qte_zero
            (unfold step_in in ground arith) in
        let r₂ = record r₁ { run = r₁.run + 1; beg = r₁.run + 1; ste = qte2nd } in
        let e₂ =
          parse_step gsub line (record r₁ { run = r₁.run + 1 }) r₂ row.qte (row.qte ∷ more) refl
            hd.qte_zero (unfold step_in in ground arith) in
        let r₃ = record r₂ { run = r₂.run + 1; ste = qtetwo } in
        let e₃ =
          parse_step gsub line (record r₂ { run = r₂.run + 1 }) r₃ row.qte more refl hd.qte_zero
            (unfold step_in in ground arith) in
        let (r₄, e₄, h₄) =
          quoted_loop gsub line cs tail (record r₃ { run = r₃.run + 1 }) (inr refl) hd
            (ground arith) in
        (r₄, rw e (e₁ ∙ e₂ ∙ e₃ ∙ e₄), ground (arith, h₄))
    | inr e ↦
        let r₁ = record (reset_field row) { ste = qte1st } in
        let e₁ =
          parse_step gsub line row r₁ row.qte (c ∷ (double row.dlm row.qte cs ++ (row.qte ∷ tail)))
            (ground arith) hd.qte_zero (unfold step_in in ground arith) in
        let r₂ = record r₁ { run = r₁.run + 1; beg = r₁.run + 1; ste = datqte } in
        let e₂ =
          parse_step gsub line (record r₁ { run = r₁.run + 1 }) r₂ c _ refl (ground arith)
            (unfold step_in in ground arith) in
        let (r₃, e₃, h₃) =
          quoted_loop gsub line cs tail (record r₂ { run = r₂.run + 1 }) (inl refl) hd
            (ground arith) in
        (r₃, rw e (e₁ ∙ e₂ ∙ e₃), ground (arith, h₃))
  ]
