-- ===== src/Loop/Tasks/Adjust.antt =====
-- `t_ael_tsk_adjust` shortens every timeout of the list, and keeps their order.
use lua_t.Prelude.{
  ℕ, zero, suc, ◌^◌, ◌<◌, ◌≡◌, refl, ◌∙◌, ap, true, false, List, [], ◌∷◌, Option, some, ◌==◌, arith,
  Bool-cases, inl, inr, length,
}
use lua_t.Prelude.Int.{ℤ, pos, ltb_ℤ, ◌-ℤ◌, pos_part, neg_part, -ℤ_parts}
use lua_t.Prelude.Word.{sub64}
use lua_t.Loop.{Task}
use lua_t.Loop.Tasks.{set_tout, adjust, reduced}
use lua_t.Loop.Tasks.Chains.{Chain, mem, Distinct}
use lua_t.Loop.Tasks.Order.{Sorted, Above}

set_tout-other : (ts : ℕ → Task) (i k : ℕ) (z : ℤ) → (i == k) ≡ false → set_tout ts i z k ≡ ts k
set_tout-other ts i k z e = rw e refl

set_tout-same : (ts : ℕ → Task) (i : ℕ) (z : ℤ) → (set_tout ts i z i).tout ≡ z
set_tout-same ts i z = ground arith

set_tout-nxt : (ts : ℕ → Task) (i k : ℕ) (z : ℤ) → (set_tout ts i z k).nxt ≡ (ts k).nxt
set_tout-nxt ts i k z = elim (Bool-cases (i == k)) [ inl b ↦ ground (arith, b) | inr b ↦ rw b refl ]

-- Only the links matter to a chain.
pub Chain-nxt :
    (ts us : ℕ → Task) (h : Option ℕ) (is : List ℕ)
    → ((k : ℕ) → (us k).nxt ≡ (ts k).nxt)
    → Chain ts h is
    → Chain us h is
Chain-nxt ts us h [] f e = e
Chain-nxt ts us h (i ∷ is) f (e, c) = (e, rw (f i) (Chain-nxt ts us (ts i).nxt is f c))

-- With fuel for the list, every one of its timeouts is reduced, and nothing else changes.
pub adjust_lem :
    (fuel : ℕ) (ts : ℕ → Task) (t_adj : ℤ) (h : Option ℕ) (is : List ℕ)
    → length is < fuel
    → Chain ts h is
    → Distinct is
    → (us : ℕ → Task) × (adjust fuel ts t_adj h ≡ some us)
      × ((k : ℕ) → (us k).nxt ≡ (ts k).nxt)
      × ((k : ℕ) → mem k is ≡ true → (us k).tout ≡ reduced (ts k).tout t_adj)
      × ((k : ℕ) → mem k is ≡ false → us k ≡ ts k)
unfolding adjust
adjust_lem zero ts t_adj h is f c d = absurd (omega (arith, f))
adjust_lem (suc fuel) ts t_adj h [] f e d =
    (ts, rw e refl, λ k. refl, λ k m. absurd (ground (arith, m)), λ k m. refl)
adjust_lem (suc fuel) ts t_adj h (i ∷ is) f (e, c) (m, d) =
    let vs = set_tout ts i (reduced (ts i).tout t_adj) in
    let (us, w, links, members, others) =
      adjust_lem fuel vs t_adj (ts i).nxt is (omega (arith, f))
        (Chain-nxt ts vs (ts i).nxt is (λ k. set_tout-nxt ts i k (reduced (ts i).tout t_adj)) c)
        d in
    (
      us,
      rw e w,
      λ k. links k ∙ set_tout-nxt ts i k (reduced (ts i).tout t_adj),
      λ k q. elim (Bool-cases (k == i)) [
        | inl b ↦
            let same : k ≡ i = ground (arith, b) in
            rw same (ap (λ t. t.tout) (others i m) ∙ set_tout-same ts i (reduced (ts i).tout t_adj))
        | inr b ↦
            let inside : mem k is ≡ true = ground (arith, q, b) in
            members k inside
            ∙ ap (λ t. reduced t.tout t_adj)
                (set_tout-other ts i k (reduced (ts i).tout t_adj) (ground (arith, b)))
      ],
      λ k q.
          others k (ground (arith, q))
          ∙ set_tout-other ts i k (reduced (ts i).tout t_adj) (ground (arith, q)),
    )

abbrev pub IsModest : ℤ → Type 0
IsModest z = (pos_part z < 2 ^ 62) × (neg_part z < 2 ^ 62)

sub64_exact : (a b : ℤ) → IsModest a → IsModest b → sub64 a b ≡ a -ℤ b
unfolding ◌-ℤ◌
sub64_exact a b h k = ground arith

-- A later timeout stays the later one.
reduced_mono :
    (a b t : ℤ)
    → IsModest a
    → IsModest b
    → IsModest t
    → ltb_ℤ b a ≡ false
    → ltb_ℤ (reduced b t) (reduced a t) ≡ false
reduced_mono a b t ha hb ht h =
    rw (sub64_exact a t ha ht)
      (rw (sub64_exact b t hb ht) (ground (arith, h, -ℤ_parts a t, -ℤ_parts b t)))

reduced-Above :
    (z y : ℕ → ℤ) (a t : ℤ) (is : List ℕ)
    → ((k : ℕ) → mem k is ≡ true → y k ≡ reduced (z k) t)
    → ((k : ℕ) → IsModest (z k))
    → IsModest a
    → IsModest t
    → Above z a is
    → Above y (reduced a t) is
reduced-Above z y a t [] f m ha ht u = u
reduced-Above z y a t (i ∷ is) f m ha ht (u, us) = (
  rw (f i (ground arith)) (reduced_mono a (z i) t ha (m i) ht u),
  reduced-Above z y a t is (λ k q. f k (ground (arith, q))) m ha ht us,
)

-- Reduced timeouts are in order.
pub reduced-Sorted :
    (z y : ℕ → ℤ) (t : ℤ) (is : List ℕ)
    → ((k : ℕ) → mem k is ≡ true → y k ≡ reduced (z k) t)
    → ((k : ℕ) → IsModest (z k))
    → IsModest t
    → Sorted z is
    → Sorted y is
reduced-Sorted z y t [] f m ht s = s
reduced-Sorted z y t (i ∷ is) f m ht (u, s) =
    let tail : (k : ℕ) → mem k is ≡ true → y k ≡ reduced (z k) t = λ k q. f k (ground (arith, q)) in
    (
      rw (f i (ground arith)) (reduced-Above z y (z i) t is tail m (m i) ht u),
      reduced-Sorted z y t is tail m ht s,
    )

pub reduced_left : (a t : ℤ) → IsModest a → IsModest t → ltb_ℤ t a ≡ true → reduced a t ≡ a -ℤ t
reduced_left a t ha ht h =
    let e : ltb_ℤ (pos 0) (a -ℤ t) ≡ true = ground (arith, h, -ℤ_parts a t) in
    rw (sub64_exact a t ha ht) (rw e refl)
