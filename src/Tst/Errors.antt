-- ===== src/Tst/Errors.antt =====
-- src/t_tst_cse.c: what a test case keeps of an error.
use lua_t.Prelude.{
  cstring, ℕ, ◌==◌, Bool-cases, inl, inr, begins_with, ◌-◌, ◌≡◌, refl, ap, sym, ◌∙◌, Bool, true,
  false, [], ◌∷◌, ◌++◌, Option, none, some, Bytes, if◌then◌else◌, length, length-append, take, drop,
  arith, append_assoc, take-length-append,
}
use lua_t.Prelude.Result.{ok, fault}
use lua_t.Tst.{Fields, Raised, string}
use lua_t.Tst.Cases.{
  traceback_of, skip_error, format, prefix_with, skip_indicator, no_fields, Plain, IsName,
  behind_colon-append, behind_colon-Plain, string_error, located_error,
}

-- The message of an error with its position.
abbrev pub located : Bytes → Bytes → Bytes → Bytes
located file line msg = file ++ (b':' ∷ (line ++ (b':' ∷ (b' ' ∷ msg))))

-- The fields of a failure.
abbrev pub failed : Bytes → Bytes → Bytes → Fields
failed place trace msg = record no_fields {
  pass = some false;
  message = some msg;
  location = some place;
  traceback = some trace;
}

-- The fields of a skipped case.
abbrev pub skipped : Bytes → Fields
skipped reason = record no_fields { skip = some reason; pass = some true }

position :
    (file line msg : Bytes)
    → take (length (located file line msg) - length msg - 2) (located file line msg)
      ≡ file ++ (b':' ∷ line)
position file line msg =
    let at : Bytes = file ++ (b':' ∷ line) in
    let e : located file line msg ≡ at ++ (b':' ∷ (b' ' ∷ msg)) = sym (append_assoc file _ _) in
    let n : length (located file line msg) - length msg - 2 ≡ length at =
      ground (arith, ap length e, length-append at (b':' ∷ (b' ' ∷ msg))) in
    ap (λ k. take k (located file line msg)) n
    ∙ ap (take (length at)) e
    ∙ take-length-append at (b':' ∷ (b' ' ∷ msg))

choose-ok : (b : Bool) (x y : Fields) → (if b then ok x else ok y) ≡ ok (if b then x else y)
choose-ok true x y = refl
choose-ok false x y = refl

-- An error that tells where it was raised, in a file and a line without colons and zero bytes, makes a
-- failure with its message, up to the first zero byte, and its position, unless the message begins with the
-- indicator: then the case is skipped, and counts as passed, with the rest of the message as the reason.
pub traceback-located :
    (place trace file line msg : Bytes)
    → IsName file
    → IsName line
    → traceback_of place trace (string (located file line msg))
      ≡ ok (
          if begins_with (cstring msg) skip_indicator
          then skipped (drop (length skip_indicator) (cstring msg))
          else failed (file ++ (b':' ∷ line)) trace (cstring msg))
unfolding traceback_of
traceback-located place trace file line msg pf pl =
    let loc = located file line msg in
    ap (string_error place trace loc) (behind_colon-append file (line ++ (b':' ∷ (b' ' ∷ msg))) pf)
    ∙ ap (located_error trace loc) (behind_colon-append line (b' ' ∷ msg) pl)
    ∙ ap
        (λ at.
          if begins_with (cstring msg) skip_indicator
          then ok (skipped (drop (length skip_indicator) (cstring msg)))
          else ok (failed at trace (cstring msg)))
        (position file line msg)
    ∙ choose-ok (begins_with (cstring msg) skip_indicator) _ _

-- An error without a colon is kept with its message, but says nothing on whether the case has passed.
pub traceback_no_colon :
    (place trace msg : Bytes)
    → Plain msg
    → traceback_of place trace (string msg) ≡ ok (record (failed place trace msg) { pass = none })
unfolding traceback_of
traceback_no_colon place trace msg p = ap (string_error place trace msg) (behind_colon-Plain msg p)

-- An error with one colon makes the code look for a second one behind it, and read from a null pointer.
pub traceback_one_colon :
    (place trace before after : Bytes)
    → IsName before
    → Plain after
    → traceback_of place trace (string (before ++ (b':' ∷ after))) ≡ fault
unfolding traceback_of
traceback_one_colon place trace before after p q =
    let loc = before ++ (b':' ∷ after) in
    ap (string_error place trace loc) (behind_colon-append before after p)
    ∙ ap (located_error trace loc) (behind_colon-Plain after q)

begins_with-drop : (s t : Bytes) → (begins_with (s ++ t) s ≡ true) × (drop (length s) (s ++ t) ≡ t)
begins_with-drop [] t = (refl, refl)
begins_with-drop (c ∷ s) t = let h = begins_with-drop s t in (ground (arith, h.0), h.1)

-- What comes of a format has no zero byte.
cstring-prefix :
    (c : ℕ) (o : Option Bytes) (t : Bytes)
    → (c == 0) ≡ false
    → ((u : Bytes) → o ≡ some u → cstring u ≡ u)
    → prefix_with c o ≡ some t
    → cstring t ≡ t
cstring-prefix c none t z h e = absurd (cc)
cstring-prefix c (some u) t z h e = let k : c ∷ u ≡ t = cc in rw (← k) (ground (arith, z, h u refl))

cstring-format : (b : Bool) (s t : Bytes) → format b s ≡ some t → cstring t ≡ t
cstring-format false [] t f = ground (arith, f)
cstring-format true [] t f = absurd (cc)
cstring-format false (c ∷ s) t f = elim (Bool-cases (c == 0)) [
  | inl z ↦ ground (arith, f, z)
  | inr z ↦ elim (Bool-cases (c == b'%')) [
    | inl p ↦ cstring-format true s t (rw (z, p) at f)
    | inr p ↦ cstring-prefix c (format false s) t z (λ u. cstring-format false s u) (rw (z, p) at f)
  ]
]
cstring-format true (c ∷ s) t f = elim (Bool-cases (c == b'%')) [
  | inl p ↦
      cstring-prefix c (format false s) t (ground (arith, p)) (λ u. cstring-format false s u)
        (rw p at f)
  | inr p ↦ ground (arith, f, p)
]

-- A test that calls `skip` where it is at a line of a file is skipped, and counts as passed, with the text
-- that its reason, as a format without arguments, stands for. The conditions: the reason is such a format, in
-- which a per cent sign is written as two, and the names of the file and the line hold no colon and no zero byte.
pub traceback-skip_error :
    (place trace file line reason text : Bytes)
    → IsName file
    → IsName line
    → format false reason ≡ some text
    → (raised : Raised) × (skip_error file line reason ≡ some raised)
      × (traceback_of place trace raised ≡ ok (skipped text))
unfolding skip_error
traceback-skip_error place trace file line reason text pf pl f =
    let h = begins_with-drop skip_indicator text in
    let e : cstring (skip_indicator ++ text) ≡ skip_indicator ++ text =
      ap (λ t. skip_indicator ++ t) (cstring-format false reason text f) in
    (
      string (located file line (skip_indicator ++ text)),
      rw f refl,
      traceback-located place trace file line (skip_indicator ++ text) pf pl
          ∙ ap
              (λ m. ok (
                if begins_with m skip_indicator
                then skipped (drop 27 m)
                else failed (file ++ (b':' ∷ line)) trace m))
              e
          ∙ ap
              (λ b. ok (
                if b
                then skipped (drop 27 (skip_indicator ++ text))
                else failed (file ++ (b':' ∷ line)) trace (skip_indicator ++ text)))
              h.0
          ∙ ap (λ r. ok (skipped r)) h.1,
    )
