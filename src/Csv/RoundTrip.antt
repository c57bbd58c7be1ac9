-- ===== src/Csv/RoundTrip.antt =====
-- A record that was written field by field is read back as the same fields.
use lua_t.Prelude.{
  ◌<◌, ℕ, ◌+◌, ◌≡◌, refl, sym, ◌∙◌, Bool, true, false, List, [], ◌∷◌, ◌++◌, some, Bytes,
  if◌then◌else◌, arith, length, get_or, inl, inr, length-append, append_assoc, append-nil,
}
use lua_t.Csv.{
  fldbeg, recdne, Field, text, Row, Parsed, parse, parse_line, parsed_of, first_row, int_end,
}
use lua_t.Csv.Render.{
  ReplacesAll, Item, absent, naked, quoted, field_of, render_item, render, IsItem, AllItems,
  double_without, gsub-double, has, double, IsDialect,
}
use lua_t.Csv.Items.{
  IsEnd, EndsBare-double, Stored, parse_done, item_absent, item_naked, quoted_end, quoted_walk,
}

-- The fields of the items, numbered from `k + 1` on.
abbrev pub number : ℕ → List Item → List (ℕ × Field)
number k [] = []
number k (i ∷ is) = (k + 1, field_of i) ∷ number (k + 1) is

render_item_rest :
    (dlm qte : ℕ) (i : Item) (rest : Bytes)
    → render_item dlm qte i rest ≡ render_item dlm qte i [] ++ rest
render_item_rest dlm qte absent rest = refl
render_item_rest dlm qte (naked c cs) rest = simp (append-nil, append_assoc)
render_item_rest dlm qte (quoted s) rest = simp append_assoc

shift :
    (dlm qte : ℕ) (i : Item) (pre tail : Bytes)
    → pre ++ render_item dlm qte i (dlm ∷ tail)
      ≡ (pre ++ (render_item dlm qte i [] ++ (dlm ∷ []))) ++ tail
shift dlm qte i pre tail = rw (render_item_rest dlm qte i (dlm ∷ tail)) (simp append_assoc)

module _ (gsub : Bytes → Bytes → Bytes → Bytes) where
  module _ (g : ReplacesAll gsub) where
    -- What a quoted field stores is its content, whether or not it went through `luaL_gsub`.
    unquoted :
        (dlm qte : ℕ) (s : Bytes) (hdb : Bool)
        → IsDialect dlm qte
        → has 0 s ≡ false
        → hdb ≡ has qte s
        → s
          ≡ (if hdb then gsub (double dlm qte s) (qte ∷ qte ∷ []) (qte ∷ []) else double dlm qte s)
    unquoted dlm qte s true hd hz h = sym (gsub-double dlm qte gsub g hd.qte_zero s hz)
    unquoted dlm qte s false hd hz h = sym (double_without dlm qte s (sym h))

    item_quoted :
        (pre s rest : Bytes) (row : Row) (t : ℕ)
        → row.ste ≡ fldbeg
        → IsDialect row.dlm row.qte
        → IsItem row.dlm row.qte (quoted s)
        → IsEnd row.dlm t
        → row.run ≡ length pre
        → row.cnt + 1 < int_end
        → let line = pre ++ render_item row.dlm row.qte (quoted s) (t ∷ rest) in
          (r : Row) × (parse gsub line row (render_item row.dlm row.qte (quoted s) (t ∷ rest))
            ≡ parse gsub line r rest)
          × Stored row r t
              (row.run + length (render_item row.dlm row.qte (quoted s) []) + 1)
              (text s)
    item_quoted pre s rest row t es hd hi ht hr m =
        let body = double row.dlm row.qte s in
        let line = pre ++ (row.qte ∷ (body ++ (row.qte ∷ t ∷ rest))) in
        let (r₂, e₂, h₂) = quoted_walk gsub line s (t ∷ rest) row es hd hi.0 in
        let (r₃, e₃, h₃) =
          quoted_end gsub (pre ++ (row.qte ∷ [])) body rest s row r₂ t h₂.ste_is hd ht
            (EndsBare-double row.dlm row.qte s hd.qte_cr hi.1)
            (omega (arith, length-append pre (row.qte ∷ [])))
            (omega (arith, h₂, length-append pre (row.qte ∷ [])))
            (h₂.dlm_is, h₂.qte_is, h₂.cnt_is, h₂.out_is)
            (unquoted row.dlm row.qte s r₂.hdb hd hi.0 h₂.hdb_is) m in
        (
          r₃,
          e₂ ∙ (rw (append_assoc pre (row.qte ∷ []) (body ++ (row.qte ∷ t ∷ rest))) at e₃),
          ground (arith, h₃, length-append pre (row.qte ∷ []), length-append body (row.qte ∷ [])),
        )

    item_lem :
        (pre : Bytes) (i : Item) (rest : Bytes) (row : Row) (t : ℕ)
        → row.ste ≡ fldbeg
        → IsDialect row.dlm row.qte
        → IsItem row.dlm row.qte i
        → IsEnd row.dlm t
        → row.run ≡ length pre
        → row.cnt + 1 < int_end
        → let line = pre ++ render_item row.dlm row.qte i (t ∷ rest) in
          (r : Row) × (parse gsub line row (render_item row.dlm row.qte i (t ∷ rest))
            ≡ parse gsub line r rest)
          × Stored row r t (row.run + length (render_item row.dlm row.qte i []) + 1) (field_of i)
    item_lem pre absent rest row t es hd hi ht hr m =
        item_absent gsub (pre ++ (t ∷ rest)) rest row t es hd ht m
    item_lem pre (naked c cs) rest row t es hd hi ht hr m =
        item_naked gsub pre c cs rest row t es hd hi ht hr m
    item_lem pre (quoted s) rest row t es hd hi ht hr m =
        item_quoted pre s rest row t es hd hi ht hr m

    item_at :
        (dlm qte : ℕ) (pre : Bytes) (i : Item) (rest : Bytes) (row : Row) (t : ℕ)
        → row.ste ≡ fldbeg
        → row.run ≡ length pre
        → row.dlm ≡ dlm
        → row.qte ≡ qte
        → IsDialect dlm qte
        → IsItem dlm qte i
        → IsEnd dlm t
        → row.cnt + 1 < int_end
        → let line = pre ++ render_item dlm qte i (t ∷ rest) in
          (r : Row) × (parse gsub line row (render_item dlm qte i (t ∷ rest))
            ≡ parse gsub line r rest)
          × Stored row r t (row.run + length (render_item dlm qte i []) + 1) (field_of i)
    item_at dlm qte pre i rest row t es hr ed eq =
        rw (← ed, ← eq) (λ hd hi ht m. item_lem pre i rest row t es hd hi ht hr m)

    -- A whole record, from the start of a field on.
    parse-render :
        (dlm qte : ℕ) (js : List Item) (pre : Bytes) (i : Item) (rest : Bytes) (row : Row)
        → row.ste ≡ fldbeg
        → row.run ≡ length pre
        → row.dlm ≡ dlm
        → row.qte ≡ qte
        → IsDialect dlm qte
        → AllItems dlm qte (i ∷ js)
        → row.cnt + length (i ∷ js) < int_end
        → (r : Row) × (parse gsub (pre ++ render dlm qte i js rest) row (render dlm qte i js rest)
            ≡ some r)
          × (r.ste ≡ recdne)
          × (r.cnt ≡ row.cnt + length (i ∷ js))
          × (r.out ≡ row.out ++ number row.cnt (i ∷ js))
    parse-render dlm qte [] pre i rest row es hr ed eq hd hi m =
        let (r, e, h) =
          item_at dlm qte pre i rest row b'\n' es hr ed eq hd hi.0 (inr refl) (omega (arith, m)) in
        let done : r.ste ≡ recdne = ground (arith, h, hd) in
        (r, e ∙ parse_done gsub _ r rest done, done, ground (arith, h), ground (arith, h))
    parse-render dlm qte (j ∷ js) pre i rest row es hr ed eq hd hi m =
        let tail = render dlm qte j js rest in
        let (r, e, h) =
          item_at dlm qte pre i tail row dlm es hr ed eq hd hi.0 (inl refl) (omega (arith, m)) in
        let (r', e', st, cn, ou) =
          parse-render dlm qte js (pre ++ (render_item dlm qte i [] ++ (dlm ∷ []))) j rest r
            (ground (arith, h))
            (omega (
              arith,
              h,
              length-append pre (render_item dlm qte i [] ++ (dlm ∷ [])),
              length-append (render_item dlm qte i []) (dlm ∷ []),
            ))
            (ground (arith, h)) (ground (arith, h)) hd hi.1 (omega (arith, h, m)) in
        (
          r',
          e ∙ (rw (shift dlm qte i pre tail) e'),
          st,
          ground (arith, h, cn),
          ground (
            arith,
            h,
            ou,
            append_assoc row.out ((row.cnt + 1, field_of i) ∷ []) (number (row.cnt + 1) (j ∷ js)),
          ),
        )

  -- A record rendered from plain, quoted and absent fields is read back whole: the line is complete, and the
  -- table holds the fields in order, numbered behind the given count. The escape character plays no part: a
  -- field may hold it, and it protects nothing. The conditions: delimiter and quote differ, the delimiter is no
  -- line break, space or zero, and the quote no line break, carriage return or zero; a plain field has no
  -- delimiter, line break or zero, begins with neither quote nor space and ends with neither space nor carriage
  -- return, and a quoted one has no zero and does not end with a carriage return; `luaL_gsub` does what its manual
  -- says; and the count stays below 2^31.
  pub parse_line-render :
      (dlm qte : ℕ) (ds qs esc : Bytes) (dbl : Bool) (i : Item) (js : List Item) (rest : Bytes)
      (cnt : ℕ)
      → ReplacesAll gsub
      → IsDialect dlm qte
      → AllItems dlm qte (i ∷ js)
      → cnt + length (i ∷ js) < int_end
      → (p : Parsed) × (parse_line gsub (dlm ∷ ds) (qte ∷ qs) esc dbl (render dlm qte i js rest) cnt
          ≡ some p)
        × (p.complete ≡ true)
        × (p.count ≡ cnt + length (i ∷ js))
        × (p.fields ≡ number cnt (i ∷ js))
  unfolding parse_line
  parse_line-render dlm qte ds qs esc dbl i js rest cnt g hd hi m =
      let (r, e, st, cn, ou) =
        parse-render g dlm qte js [] i rest (first_row dlm qte (get_or esc 0 0) dbl cnt) refl refl
          refl refl hd hi m in
      (parsed_of (render dlm qte i js rest) r, rw e, rw st, cn, ou)
