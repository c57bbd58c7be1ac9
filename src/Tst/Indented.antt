-- ===== src/Tst/Indented.antt =====
-- The diagnosis of a failure stays indented, so that no line of it is taken for a test.
use lua_t.Prelude.{
  begins_with, ℕ, suc, ◌+◌, ◌≡◌, refl, ap, sym, ◌∙◌, Bool, true, false, List, [], ◌∷◌, ◌++◌, Option,
  none, some, Bytes, codes, ◌==◌, ◌&&◌, ◌||◌, ltb, if◌then◌else◌, arith, Bool-cases, inl, inr,
  append_assoc, append-nil,
}
use lua_t.Tst.{Case}
use lua_t.Tst.Report.{
  Source, init, indent, push_tap_detail, read_source, get_func_source, tap_diagnostic, tap_pieces,
  concat, testtype_text, bool_field,
}

abbrev is_nil : Bytes → Bool
is_nil [] = true
is_nil (c ∷ s) = false

-- Whether each line break has four spaces behind it, except for one at the end, if that is allowed.
abbrev pub indented : Bool → Bytes → Bool
indented final [] = true
indented final (c ∷ s) =
    let rest = indented final s in
    if c == b'\n' then (begins_with s (codes "    ") || final && is_nil s) && rest else rest

-- Whether there is no line break.
abbrev pub one_line : Bytes → Bool
one_line [] = true
one_line (c ∷ s) = let rest = one_line s in if c == b'\n' then false else rest

begins_with-append :
    (s t prefix : Bytes) → begins_with s prefix ≡ true → begins_with (s ++ t) prefix ≡ true
begins_with-append s t [] h = refl
begins_with-append [] t (p ∷ prefix) h = ground (arith, h)
begins_with-append (c ∷ s) t (p ∷ prefix) h = ground (arith, h, begins_with-append s t prefix)

indented-append :
    (final : Bool) (s t : Bytes)
    → indented false s ≡ true
    → indented final t ≡ true
    → indented final (s ++ t) ≡ true
indented-append final [] t h k = k
indented-append final (c ∷ s) t h k =
    ground (arith, h, indented-append final s t, begins_with-append s t (codes "    "), k)

indented-indent : (s : Bytes) → indented false (indent s) ≡ true
indented-indent [] = refl
indented-indent (c ∷ s) = elim (Bool-cases (c == b'\n')) [
  | inl e ↦ rw e (indented-indent s)
  | inr e ↦ rw (e, e) (indented-indent s)
]

indented-one_line : (s : Bytes) → one_line s ≡ true → indented false s ≡ true
indented-one_line [] h = refl
indented-one_line (c ∷ s) h = ground (arith, h, indented-one_line s)

-- A line of a file: text, and one byte that breaks it.
abbrev pub IsLine : Bytes → Type 0
IsLine line = (text : Bytes) × (c : ℕ) × (line ≡ text ++ (c ∷ [])) × (one_line text ≡ true)

abbrev pub AllLines : List Bytes → Type 0
AllLines [] = Unit
AllLines (line ∷ lines) = IsLine line × AllLines lines

init-append : (s : Bytes) (c : ℕ) → init (s ++ (c ∷ [])) ≡ s
init-append [] c = refl
init-append (d ∷ []) c = refl
init-append (d ∷ e ∷ s) c = ap (◌∷◌ d) (init-append (e ∷ s) c)

push_tap_detail-indented :
    (m : Bytes) (o : Option Bytes) → indented false (push_tap_detail m o) ≡ true
unfolding push_tap_detail
push_tap_detail-indented m none = refl
push_tap_detail-indented m (some text) = indented-indent (codes "\n" ++ (m ++ (codes ": " ++ text)))

-- Pieces of which only the last one may end in a line break.
abbrev Pieces : List Bytes → Type 0
Pieces [] = Unit
Pieces (s ∷ []) = indented true s ≡ true
Pieces (s ∷ t ∷ ss) = (indented false s ≡ true) × Pieces (t ∷ ss)

concat-Pieces : (ss : List Bytes) → Pieces ss → indented true (concat ss) ≡ true
concat-Pieces [] p = refl
concat-Pieces (s ∷ []) p = ap (indented true) (append-nil s) ∙ p
concat-Pieces (s ∷ t ∷ ss) p =
    indented-append true s (concat (t ∷ ss)) p.0 (concat-Pieces (t ∷ ss) p.1)

module _ (decimal : ℕ → Bytes) (plain : (n : ℕ) → one_line (decimal n) ≡ true) where
  source_line :
      (n : ℕ) (line : Bytes)
      → IsLine line
      → indented false (init (codes "\n        " ++ (decimal n ++ (codes ": " ++ line)))) ≡ true
  source_line n line (text, c, e, one) =
      let front = codes "\n        " ++ (decimal n ++ (codes ": " ++ text)) in
      let whole : codes "\n        " ++ (decimal n ++ (codes ": " ++ line)) ≡ front ++ (c ∷ []) =
        ap (λ line. codes "\n        " ++ (decimal n ++ (codes ": " ++ line))) e
        ∙ ap (λ x. codes "\n        " ++ x)
            (sym (append_assoc (decimal n) (codes ": " ++ text) (c ∷ []))) in
      ap (λ x. indented false (init x)) whole
      ∙ ap (indented false) (init-append front c)
      ∙ indented-append false (decimal n) (codes ": " ++ text)
          (indented-one_line (decimal n) (plain n)) (indented-one_line text one)

  read_source-indented :
      (lines : List Bytes) (r first last : ℕ)
      → AllLines lines
      → indented false (read_source decimal lines r first last) ≡ true
  read_source-indented [] r first last a = refl
  read_source-indented (line ∷ lines) r first last (l, a) =
      let rest = read_source-indented lines (suc r) first last a in
      let shown = init (codes "\n        " ++ (decimal (r + 1) ++ (codes ": " ++ line))) in
      elim (Bool-cases (ltb r last)) [
        | inl e ↦ elim (Bool-cases (ltb (suc r) first)) [
          | inl f ↦ rw (e, f) rest
          | inr f ↦
              rw (e, f)
                (indented-append false shown (read_source decimal lines (suc r) first last)
                  (source_line (r + 1) line l) rest)
        ]
        | inr e ↦ rw e refl
      ]

  get_func_source-indented :
      (s : Source) → AllLines s.lines → indented false (get_func_source decimal s) ≡ true
  unfolding get_func_source
  get_func_source-indented s a =
      indented-append false (codes "\n    source:")
        (read_source decimal s.lines 0 s.linedefined s.lastlinedefined) refl
        (read_source-indented s.lines 0 s.linedefined s.lastlinedefined a)

  -- In the diagnosis of a failure, every line break has four spaces behind it, or is the last byte, whatever
  -- the texts in the case are. The conditions: a number is printed on one line, and the lines of the
  -- file of the test end where they are broken.
  pub tap_diagnostic-indented :
      (s : Source) (c : Case) → AllLines s.lines → indented true (tap_diagnostic decimal s c) ≡ true
  unfolding tap_diagnostic
  tap_diagnostic-indented s c a =
      let d = push_tap_detail-indented in
      concat-Pieces (tap_pieces decimal s c) (
        refl,
        (
          d _ (some c.description),
          (
            d _ (some (testtype_text c.testtype)),
            (
              d _ (bool_field c.pass),
              (
                d _ c.skip,
                (
                  d _ c.todo,
                  (
                    d _ c.message,
                    (d _ c.location, (d _ c.traceback, (get_func_source-indented s a, refl))),
                  ),
                ),
              ),
            ),
          ),
        ),
      )
