-- ===== src/Net/Equal.antt =====
-- When two addresses are equal, and how long the path of a socket may be.
use lua_t.Prelude.{
  ◌≤◌, ◌≡◌, ◌↔◌, ◌⊎◌, inl, inr, refl, ap, sym, ◌∙◌, Bool, true, false, not, ◌&&◌, [], ◌∷◌, ◌++◌,
  none, Bytes, leb, ◌==◌, if◌then◌else◌, length, length-append, arith, Bool-cases,
}
use lua_t.Prelude.Result.{Result, ok, argument, error, fault}
use lua_t.Net.Address.{Adr, Platform, is_ip, eq, same, set_addr}

-- The address without the port.
abbrev pub host : Adr → Bytes
host a = if a.family == 10 then a.six else a.four

same-eq : (s t : Bytes) → same s t ≡ true → s ≡ t
unfolding same
same-eq [] [] h = refl
same-eq [] (b ∷ t) h = ground (arith, h)
same-eq (a ∷ s) [] h = ground (arith, h)
same-eq (a ∷ s) (b ∷ t) h =
    let e : a ≡ b = ground (arith, h) in
    let f : s ≡ t = same-eq s t (ground (arith, h)) in λ i. e i ∷ f i

same_self : (s : Bytes) → same s s ≡ true
unfolding same
same_self [] = refl
same_self (c ∷ s) = ground (arith, same_self s)

eq-same : (s t : Bytes) → s ≡ t → same s t ≡ true
eq-same s t e = ap (λ t. same s t) (sym e) ∙ same_self s

host_four : (a : Adr) → a.family ≡ 2 → host a ≡ a.four
host_four a e = rw e refl

host_six : (a : Adr) → a.family ≡ 10 → host a ≡ a.six
host_six a e = rw e refl

-- The comparison, once the families are known.
eq_four :
    (a b : Adr) → a.family ≡ 2 → b.family ≡ 2 → eq a b ≡ (same a.four b.four && same a.port b.port)
unfolding eq
eq_four a b e f = ground (arith, e, f)

eq_six :
    (a b : Adr) → a.family ≡ 10 → b.family ≡ 10 → eq a b ≡ (same a.six b.six && same a.port b.port)
unfolding eq
eq_six a b e f = ground (arith, e, f)

eq_ip : (a b : Adr) → eq a b ≡ true → (b.family ≡ a.family) × ((a.family ≡ 2) ⊎ (a.family ≡ 10))
unfolding eq
eq_ip a b h = (ground (arith, h), ground (arith, h))

both : (x y : Bool) → (x && y) ≡ true → (x ≡ true) × (y ≡ true)
both true true h = (refl, refl)
both true false h = ground (arith, h)
both false y h = ground (arith, h)

Same : Adr → Adr → Type 0
Same a b = (is_ip a ≡ true) × (a.family ≡ b.family) × (host a ≡ host b) × (a.port ≡ b.port)

eq-Same : (a b : Adr) → eq a b ≡ true → Same a b
unfolding Same
eq-Same a b h =
    let (f, k) = eq_ip a b h in
    elim k [
      | inl e ↦
          let (x, y) = both _ _ (sym (eq_four a b e (f ∙ e)) ∙ h) in
          (
            ground (arith, e),
            sym f,
            host_four a e ∙ same-eq a.four b.four x ∙ sym (host_four b (f ∙ e)),
            same-eq a.port b.port y,
          )
      | inr e ↦
          let (x, y) = both _ _ (sym (eq_six a b e (f ∙ e)) ∙ h) in
          (
            ground (arith, e),
            sym f,
            host_six a e ∙ same-eq a.six b.six x ∙ sym (host_six b (f ∙ e)),
            same-eq a.port b.port y,
          )
    ]

Same-eq : (a b : Adr) → Same a b → eq a b ≡ true
unfolding Same
Same-eq a b (i, f, h, p) = elim (Bool-cases (a.family == 2)) [
  | inl t ↦
      let e : a.family ≡ 2 = ground (arith, t) in
      let x = eq-same a.four b.four (sym (host_four a e) ∙ h ∙ host_four b (sym f ∙ e)) in
      eq_four a b e (sym f ∙ e) ∙ ground (arith, x, eq-same a.port b.port p)
  | inr t ↦
      let e : a.family ≡ 10 = ground (arith, t, i) in
      let x = eq-same a.six b.six (sym (host_six a e) ∙ h ∙ host_six b (sym f ∙ e)) in
      eq_six a b e (sym f ∙ e) ∙ ground (arith, x, eq-same a.port b.port p)
]

-- The comparison says that two addresses are equal if and only if both are of version 4 or both of version 6,
-- with the same address and the same port. An address of another family is equal to none, not even itself.
pub eq-host_iff :
    (a b : Adr)
    → (eq a b ≡ true)
      ↔ ((is_ip a ≡ true) × (a.family ≡ b.family) × (host a ≡ host b) × (a.port ≡ b.port))
unfolding Same
eq-host_iff a b = (eq-Same a b, Same-eq a b)

abbrev is_fault : Result Adr → Bool
is_fault fault = true
is_fault _ = false

is_fault-set_addr :
    (sys : Platform) (a : Adr) (s : Bytes)
    → sys.pton6 s ≡ none
    → sys.pton4 s ≡ none
    → is_fault (set_addr sys a s) ≡ not (leb (length (s ++ (0 ∷ []))) 126)
unfolding set_addr
is_fault-set_addr sys a s n m = ground (arith, n, m)

fault_of : (r : Result Adr) → is_fault r ≡ true → r ≡ fault
fault_of fault h = refl
fault_of (ok a) h = ground (arith, h)
fault_of (argument i) h = ground (arith, h)
fault_of error h = ground (arith, h)

-- Setting a text that is no address writes outside the memory if and only if it has 126 bytes or more.
pub set_addr-fault :
    (sys : Platform) (a : Adr) (s : Bytes)
    → sys.pton6 s ≡ none
    → sys.pton4 s ≡ none
    → (set_addr sys a s ≡ fault) ↔ (126 ≤ length s)
set_addr-fault sys a s n m =
    let e = is_fault-set_addr sys a s n m in
    let l = length-append s (0 ∷ []) in
    (
      λ h. ground (arith, sym e ∙ ap is_fault h, l),
      λ h. fault_of (set_addr sys a s) (e ∙ ground (arith, h, l)),
    )
