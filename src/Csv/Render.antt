-- ===== src/Csv/Render.antt =====
-- What a record is written as, for the record parser to read back; and what is assumed of
-- `luaL_gsub`, which belongs to the Lua library.
use lua_t.Prelude.{
  ℕ, ◌≡◌, ◌≢◌, refl, ap, ◌∙◌, Bool, true, false, ◌&&◌, ◌||◌, List, [], ◌∷◌, ◌++◌, Bytes, ◌==◌,
  if◌then◌else◌, arith, Bool-cases, inl, inr,
}
use lua_t.Csv.{Field, nil, text}

abbrev pub starts_with : Bytes → Bytes → Bool
starts_with [] s = true
starts_with (c ∷ p) [] = false
starts_with (c ∷ p) (d ∷ s) = c == d && starts_with p s

abbrev pub has : ℕ → Bytes → Bool
has q [] = false
has q (c ∷ cs) = c == q || has q cs

-- The manual: `luaL_gsub` copies the C string `s`, with any occurrence of `p` replaced by `r`.
pub record ReplacesAll (gsub : Bytes → Bytes → Bytes → Bytes) : Type 0 where
  pub at_end : (p r : Bytes) → gsub [] p r ≡ []
  pub hit :
      (a : ℕ) (p s r : Bytes)
      → has 0 s ≡ false
      → gsub ((a ∷ p) ++ s) (a ∷ p) r ≡ r ++ gsub s (a ∷ p) r
  pub miss :
      (c : ℕ) (s p r : Bytes)
      → has 0 s ≡ false
      → starts_with p (c ∷ s) ≡ false
      → gsub (c ∷ s) p r ≡ c ∷ gsub s p r

-- A field as it stands in a record: left out, plain, or in quotes.
pub data Item : Type 0 where
  absent : Item
  naked : ℕ → Bytes → Item
  quoted : Bytes → Item

abbrev pub field_of : Item → Field
field_of absent = nil
field_of (naked c cs) = text (c ∷ cs)
field_of (quoted s) = text s

abbrev pub last : ℕ → Bytes → ℕ
last c [] = c
last c (d ∷ cs) = last d cs

abbrev pub EndsBare : Bytes → Type 0
EndsBare [] = Unit {0}
EndsBare (c ∷ cs) = last c cs ≢ b'\r'

module _ (dlm qte : ℕ) where
  -- The quote is doubled inside quotes.
  abbrev pub double : Bytes → Bytes
  double [] = []
  double (c ∷ cs) = if c == qte then qte ∷ qte ∷ double cs else c ∷ double cs

  abbrev pub render_item : Item → Bytes → Bytes
  render_item absent rest = rest
  render_item (naked c cs) rest = c ∷ (cs ++ rest)
  render_item (quoted s) rest = qte ∷ (double s ++ (qte ∷ rest))

  abbrev pub render : Item → List Item → Bytes → Bytes
  render i [] rest = render_item i (b'\n' ∷ rest)
  render i (j ∷ js) rest = render_item i (dlm ∷ render j js rest)

  -- A byte that does not end a plain field.
  abbrev pub IsPlain : ℕ → Type 0
  IsPlain c = (c ≢ dlm) × (c ≢ b'\n') × (c ≢ 0)

  abbrev pub AllPlain : Bytes → Type 0
  AllPlain [] = Unit {0}
  AllPlain (c ∷ cs) = IsPlain c × AllPlain cs

  -- A plain field has no delimiter, line break or zero, does not begin with a quote or a space, and
  -- does not end with a space or a carriage return; a quoted one has no zero, and does not end with a
  -- carriage return.
  abbrev pub IsItem : Item → Type 0
  IsItem absent = Unit {0}
  IsItem (naked c cs) =
      (c ≢ qte) × (c ≢ b' ') × AllPlain (c ∷ cs) × (last c cs ≢ b' ') × (last c cs ≢ b'\r')
  IsItem (quoted s) = (has 0 s ≡ false) × EndsBare s

  abbrev pub AllItems : List Item → Type 0
  AllItems [] = Unit {0}
  AllItems (i ∷ is) = IsItem i × AllItems is

  -- The two characters differ; the delimiter is no line break, space or zero, and the quote no line break,
  -- carriage return or zero.
  pub record IsDialect : Type 0 where
    pub dlm_qte : dlm ≢ qte
    pub dlm_break : dlm ≢ b'\n'
    pub dlm_space : dlm ≢ b' '
    pub dlm_zero : dlm ≢ 0
    pub qte_break : qte ≢ b'\n'
    pub qte_zero : qte ≢ 0
    pub qte_cr : qte ≢ b'\r'

  pub double_without : (s : Bytes) → has qte s ≡ false → double s ≡ s
  double_without [] h = refl
  double_without (c ∷ cs) h = ground (arith, double_without cs)

  has-double : (s : Bytes) → qte ≢ 0 → has 0 s ≡ false → has 0 (double s) ≡ false
  has-double [] q h = refl
  has-double (c ∷ cs) q h = ground (arith, has-double cs q)

  -- Replacing the doubled quotes undoes `double`.
  pub gsub-double :
      (gsub : Bytes → Bytes → Bytes → Bytes)
      → ReplacesAll gsub
      → qte ≢ 0
      → (s : Bytes) → has 0 s ≡ false
      → gsub (double s) (qte ∷ qte ∷ []) (qte ∷ []) ≡ s
  gsub-double gsub g q [] h = g.at_end _ _
  gsub-double gsub g q (c ∷ cs) h = elim (Bool-cases (c == qte)) [
    | inl e ↦ rw e (
        g.hit qte (qte ∷ []) (double cs) (qte ∷ []) (has-double cs q (ground arith))
        ∙ ground (arith, gsub-double gsub g q cs))
    | inr e ↦ rw e (
        g.miss c (double cs) (qte ∷ qte ∷ []) (qte ∷ []) (has-double cs q (ground arith))
          (ground arith)
        ∙ ap (◌∷◌ c) (gsub-double gsub g q cs (ground arith)))
  ]
