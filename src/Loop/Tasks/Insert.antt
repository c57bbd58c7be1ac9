-- ===== src/Loop/Tasks/Insert.antt =====
-- `t_ael_tsk_insert` puts the task where its timeout belongs.
use lua_t.Prelude.{
  ℕ, zero, suc, ◌<◌, ◌≡◌, refl, sym, ◌∙◌, ap, true, false, List, [], ◌∷◌, Option, none, some, ◌==◌,
  if◌then◌else◌, arith, Bool-cases, inl, inr, length,
}
use lua_t.Prelude.Int.{ℤ, ltb_ℤ}
use lua_t.Loop.{Task, Loop}
use lua_t.Loop.Tasks.{set_nxt, insert_walk, insert}
use lua_t.Loop.Tasks.Chains.{
  Chain, mem, Distinct, Chain-frame, set_nxt-other, set_nxt-same, set_nxt-tout, mem-apart, Timed,
}

abbrev pub touts : (ℕ → Task) → ℕ → ℤ
touts ts k = (ts k).tout

-- Sorted insertion: before the first task whose timeout is not less.
abbrev pub insert_before : (ℕ → ℤ) → ℤ → ℕ → List ℕ → List ℕ
insert_before z t ins [] = ins ∷ []
insert_before z t ins (i ∷ is) =
    if ltb_ℤ (z i) t then i ∷ insert_before z t ins is else ins ∷ i ∷ is

linked : (ℕ → Task) → ℕ → ℕ → Option ℕ → (ℕ → Task)
linked ts ins prv n = set_nxt (set_nxt ts ins n) prv (some ins)

linked-nxt : (ts : ℕ → Task) (ins prv : ℕ) (n : Option ℕ) → (linked ts ins prv n prv).nxt ≡ some ins
unfolding linked
linked-nxt ts ins prv n = set_nxt-same (set_nxt ts ins n) prv (some ins)

linked-ins :
    (ts : ℕ → Task) (ins prv : ℕ) (n : Option ℕ)
    → (ins == prv) ≡ false
    → (linked ts ins prv n ins).nxt ≡ n
unfolding linked
linked-ins ts ins prv n e =
    ap (λ t. t.nxt) (set_nxt-other (set_nxt ts ins n) prv ins (some ins) (ground (arith, e)))
    ∙ set_nxt-same ts ins n

linked-other :
    (ts : ℕ → Task) (ins prv : ℕ) (n : Option ℕ) (k : ℕ)
    → (ins == k) ≡ false
    → (prv == k) ≡ false
    → linked ts ins prv n k ≡ ts k
unfolding linked
linked-other ts ins prv n k e e' =
    set_nxt-other (set_nxt ts ins n) prv k (some ins) e' ∙ set_nxt-other ts ins k n e

linked-Chain :
    (ts : ℕ → Task) (ins prv : ℕ) (n : Option ℕ) (is : List ℕ)
    → Chain ts n is
    → mem ins is ≡ false
    → mem prv is ≡ false
    → (ins == prv) ≡ false
    → Chain (linked ts ins prv n) (some prv) (prv ∷ ins ∷ is)
linked-Chain ts ins prv n is c h k e =
    let tail : Chain (linked ts ins prv n) n is =
      Chain-frame ts (linked ts ins prv n) n is
        (λ j m. linked-other ts ins prv n j (mem-apart ins j is h m) (mem-apart prv j is k m)) c in
    (refl, (linked-nxt ts ins prv n, rw (linked-ins ts ins prv n e) tail))

walk_end :
    (fuel : ℕ) (ts : ℕ → Task) (t : ℤ) (prv : ℕ)
    → (ts prv).nxt ≡ none
    → insert_walk (suc fuel) ts t prv ≡ some (prv, none)
unfolding insert_walk
walk_end fuel ts t prv e = ground (arith, e)

walk_next :
    (fuel : ℕ) (ts : ℕ → Task) (t : ℤ) (prv i : ℕ)
    → (ts prv).nxt ≡ some i
    → insert_walk (suc fuel) ts t prv
      ≡ (if ltb_ℤ (ts i).tout t then insert_walk fuel ts t i else some (prv, some i))
unfolding insert_walk
walk_next fuel ts t prv i e = ground (arith, e)

insert_walk_lem :
    (fuel : ℕ) (ts : ℕ → Task) (t : ℤ) (ins prv : ℕ) (is : List ℕ)
    → length is < fuel
    → Chain ts (ts prv).nxt is
    → Distinct (prv ∷ is)
    → mem ins (prv ∷ is) ≡ false
    → (p : ℕ) × (n : Option ℕ) × (insert_walk fuel ts t prv ≡ some (p, n))
      × (mem p (prv ∷ is) ≡ true)
      × Chain (linked ts ins p n) (some prv) (prv ∷ insert_before (touts ts) t ins is)
insert_walk_lem zero ts t ins prv is f c d m = absurd (omega (arith, f))
insert_walk_lem (suc fuel) ts t ins prv [] f c d m = (
  prv,
  none,
  walk_end fuel ts t prv c,
  ground arith,
  linked-Chain ts ins prv none [] refl refl refl (ground (arith, m)),
)
insert_walk_lem (suc fuel) ts t ins prv (i ∷ is) f (e, c) (d, d') m =
    let other : mem ins (i ∷ is) ≡ false = ground (arith, m) in
    let apart : (ins == prv) ≡ false = ground (arith, m) in
    elim (Bool-cases (ltb_ℤ (ts i).tout t)) [
      | inl b ↦
          let (p, n, w, k, h) = insert_walk_lem fuel ts t ins i is (omega (arith, f)) c d' other in
          let kept : (linked ts ins p n prv).nxt ≡ some i =
            ap (λ t. t.nxt)
              (linked-other ts ins p n prv apart (ground (arith, mem-apart prv p (i ∷ is) d k)))
            ∙ e in
          let whole : Chain (linked ts ins p n) (some prv)
              (prv ∷ i ∷ insert_before (touts ts) t ins is) =
            (refl, (kept, h.1)) in
          (p, n, walk_next fuel ts t prv i e ∙ rw b w, ground (arith, k), rw b whole)
      | inr b ↦ (
        prv,
        some i,
        walk_next fuel ts t prv i e ∙ rw b refl,
        ground arith,
        rw b (linked-Chain ts ins prv (some i) (i ∷ is) (refl, c) other d apart),
      )
    ]

linked-tout :
    (ts : ℕ → Task) (ins prv : ℕ) (n : Option ℕ) (k : ℕ)
    → (linked ts ins prv n k).tout ≡ (ts k).tout
unfolding linked
linked-tout ts ins prv n k =
    set_nxt-tout (set_nxt ts ins n) prv (some ins) k ∙ set_nxt-tout ts ins n k

-- Inserting a new task, which links to nothing, into a loop whose links run through the distinct tasks
-- `is` and which has the timeout of the head succeeds with fuel for that list, puts
-- the task before the first one that is not due earlier, changes no timeout, and leaves the head's
-- timeout in the loop.
pub insert-Chain :
    (fuel : ℕ) (l : Loop) (ins : ℕ) (is : List ℕ)
    → length is < suc fuel
    → Chain l.task l.hed is
    → Distinct is
    → mem ins is ≡ false
    → (l.task ins).nxt ≡ none
    → Timed l is
    → (l' : Loop) × (insert fuel l ins ≡ some l')
      × Chain l'.task l'.hed (insert_before (touts l.task) (l.task ins).tout ins is)
      × ((k : ℕ) → (l'.task k).tout ≡ (l.task k).tout)
      × Timed l' (insert_before (touts l.task) (l.task ins).tout ins is)
unfolding insert linked
insert-Chain fuel l ins [] f c d m e t =
    (record l { hed = some ins; tout = (l.task ins).tout }, rw c refl, (refl, e), λ k. refl, refl)
insert-Chain fuel l ins (i ∷ is) f (e, c) d m z t =
    elim (Bool-cases (ltb_ℤ (l.task i).tout (l.task ins).tout)) [
      | inl b ↦
          let (p, n, w, k, h) =
            insert_walk_lem fuel l.task (l.task ins).tout ins i is (omega (arith, f)) c d m in
          (
            record l { task = linked l.task ins p n },
            rw e (rw b (rw w refl)),
            rw e (rw b h),
            linked-tout l.task ins p n,
            rw b (t ∙ sym (linked-tout l.task ins p n i)),
          )
      | inr b ↦
          let chain : Chain (set_nxt l.task ins (some i)) (some ins) (ins ∷ i ∷ is) = (
            refl,
            (
              set_nxt-same l.task ins (some i),
              (Chain-frame l.task (set_nxt l.task ins (some i)) (some i) (i ∷ is)
                  (λ j q. set_nxt-other l.task ins j (some i) (mem-apart ins j (i ∷ is) m q))
                  (refl, c)).1,
            ),
          ) in
          (
            record l {
              hed = some ins;
              tout = (l.task ins).tout;
              task = set_nxt l.task ins (some i);
            },
            rw e (rw b refl),
            rw b chain,
            set_nxt-tout l.task ins (some i),
            rw b (sym (set_nxt-tout l.task ins (some i) ins)),
          )
    ]
