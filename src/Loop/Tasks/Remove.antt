-- ===== src/Loop/Tasks/Remove.antt =====
-- `t_ael_tsk_remove` takes the task out of the list.
use lua_t.Prelude.{
  ℕ, zero, suc, ◌<◌, ◌≡◌, refl, sym, ◌∙◌, ap, true, false, List, [], ◌∷◌, none, some, ◌==◌,
  if◌then◌else◌, arith, Bool-cases, inl, inr, length,
}
use lua_t.Loop.{Task, Loop, no_timeout}
use lua_t.Loop.Tasks.{set_nxt, remove_walk, remove}
use lua_t.Loop.Tasks.Chains.{
  Chain, mem, Distinct, Timed, Chain-frame, set_nxt-other, set_nxt-same, set_nxt-tout, mem-apart,
}

abbrev pub erase : ℕ → List ℕ → List ℕ
erase c [] = []
erase c (i ∷ is) = if c == i then is else i ∷ erase c is

pub erase-missing : (c : ℕ) (is : List ℕ) → Distinct is → mem c (erase c is) ≡ false
erase-missing c [] d = refl
erase-missing c (i ∷ is) (m, d) = ground (arith, m, erase-missing c is d)

pub mem-erase : (c k : ℕ) (is : List ℕ) → mem k is ≡ false → mem k (erase c is) ≡ false
mem-erase c k [] h = refl
mem-erase c k (i ∷ is) h = ground (arith, h, mem-erase c k is)

pub mem-erase_other : (c k : ℕ) (is : List ℕ) → (c == k) ≡ false → mem k (erase c is) ≡ mem k is
mem-erase_other c k [] h = refl
mem-erase_other c k (i ∷ is) h = ground (arith, h, mem-erase_other c k is h)

pub length-erase : (c : ℕ) (is : List ℕ) → mem c is ≡ true → suc (length (erase c is)) ≡ length is
length-erase c [] h = absurd (ground (arith, h))
length-erase c (i ∷ is) h = ground (arith, h, length-erase c is)

pub erase-Distinct : (c : ℕ) (is : List ℕ) → Distinct is → Distinct (erase c is)
erase-Distinct c [] d = d
erase-Distinct c (i ∷ is) (m, d) = elim (Bool-cases (c == i)) [
  | inl b ↦ rw b d
  | inr b ↦ rw b (ground (arith, m, mem-erase_other c i is b), erase-Distinct c is d)
]

walk_end :
    (fuel : ℕ) (ts : ℕ → Task) (c prv : ℕ)
    → (ts prv).nxt ≡ none
    → remove_walk (suc fuel) ts c prv ≡ some ts
unfolding remove_walk
walk_end fuel ts c prv e = ground (arith, e)

walk_next :
    (fuel : ℕ) (ts : ℕ → Task) (c prv i : ℕ)
    → (ts prv).nxt ≡ some i
    → remove_walk (suc fuel) ts c prv
      ≡ (if c == i then some (set_nxt ts prv (ts i).nxt) else remove_walk fuel ts c i)
unfolding remove_walk
walk_next fuel ts c prv i e = ground (arith, e)

remove_walk_lem :
    (fuel : ℕ) (ts : ℕ → Task) (c prv : ℕ) (is : List ℕ)
    → length is < fuel
    → Chain ts (ts prv).nxt is
    → Distinct (prv ∷ is)
    → (us : ℕ → Task) × (remove_walk fuel ts c prv ≡ some us)
      × ((k : ℕ) → mem k (prv ∷ is) ≡ false → us k ≡ ts k)
      × ((k : ℕ) → (us k).tout ≡ (ts k).tout)
      × Chain us (some prv) (prv ∷ erase c is)
remove_walk_lem zero ts c prv is f ch d = absurd (omega (arith, f))
remove_walk_lem (suc fuel) ts c prv [] f e d =
    (ts, walk_end fuel ts c prv e, λ k m. refl, λ k. refl, (refl, e))
remove_walk_lem (suc fuel) ts c prv (i ∷ is) f (e, ch) (m, d) = elim (Bool-cases (c == i)) [
  | inl b ↦
      let us = set_nxt ts prv (ts i).nxt in
      let tail : Chain us (ts i).nxt is =
        Chain-frame ts us (ts i).nxt is
          (λ k q.
            set_nxt-other ts prv k (ts i).nxt (mem-apart prv k (i ∷ is) m (ground (arith, q))))
          ch in
      let whole : Chain us (some prv) (prv ∷ is) =
        (refl, rw (set_nxt-same ts prv (ts i).nxt) tail) in
      (
        us,
        walk_next fuel ts c prv i e ∙ rw b refl,
        λ k q. set_nxt-other ts prv k (ts i).nxt (ground (arith, q)),
        set_nxt-tout ts prv (ts i).nxt,
        rw b whole,
      )
  | inr b ↦
      let (us, w, same, touts, h) = remove_walk_lem fuel ts c i is (omega (arith, f)) ch d in
      let kept : (us prv).nxt ≡ some i = ap (λ t. t.nxt) (same prv m) ∙ e in
      let whole : Chain us (some prv) (prv ∷ i ∷ erase c is) = (refl, (kept, h.1)) in
      (
        us,
        walk_next fuel ts c prv i e ∙ rw b w,
        λ k q. same k (ground (arith, q)),
        touts,
        rw b whole,
      )
]

-- The loop without its head.
beheaded : Loop → ℕ → ℕ → Loop
beheaded l c h = record l {
  tout = elim (l.task h).nxt [ none ↦ no_timeout | some n ↦ (l.task n).tout ];
  hed = (l.task h).nxt;
  task = set_nxt l.task c none;
}

beheaded-Timed :
    (l : Loop) (c h : ℕ) (is : List ℕ) → Chain l.task (l.task h).nxt is → Timed (beheaded l c h) is
unfolding beheaded
beheaded-Timed l c h [] e = rw e refl
beheaded-Timed l c h (j ∷ is) (e, ch) = rw e (sym (set_nxt-tout l.task c none j))

-- The head goes whatever timeout the loop had.
pub remove_head :
    (fuel : ℕ) (l : Loop) (c : ℕ) (is : List ℕ)
    → Chain l.task l.hed (c ∷ is)
    → Distinct (c ∷ is)
    → (l' : Loop) × (remove fuel l c ≡ some l')
      × Chain l'.task l'.hed is
      × ((l'.task c).nxt ≡ none)
      × ((k : ℕ) → (l'.task k).tout ≡ (l.task k).tout)
      × Timed l' is
unfolding remove beheaded
remove_head fuel l c is (e, ch) (m, d) =
    let same : (c == c) ≡ true = ground arith in
    let tail : Chain (set_nxt l.task c none) (l.task c).nxt is =
      Chain-frame l.task (set_nxt l.task c none) (l.task c).nxt is
        (λ k q. set_nxt-other l.task c k none (mem-apart c k is m q)) ch in
    (
      beheaded l c c,
      rw e (rw same refl),
      tail,
      set_nxt-same l.task c none,
      set_nxt-tout l.task c none,
      beheaded-Timed l c c is ch,
    )

-- Removing a task from a loop whose links run through the distinct tasks `is` and which has the timeout
-- of the head succeeds with fuel for that list; the links
-- then run through the other tasks in their order, the removed one links to nothing, no timeout has
-- changed, and the loop has the timeout of the head.
pub remove-Chain :
    (fuel : ℕ) (l : Loop) (c : ℕ) (is : List ℕ)
    → length is < suc fuel
    → Chain l.task l.hed is
    → Distinct is
    → Timed l is
    → (l' : Loop) × (remove fuel l c ≡ some l')
      × Chain l'.task l'.hed (erase c is)
      × ((l'.task c).nxt ≡ none)
      × ((k : ℕ) → (l'.task k).tout ≡ (l.task k).tout)
      × Timed l' (erase c is)
unfolding remove beheaded
remove-Chain fuel l c [] f e d t = (
  record l { task = set_nxt l.task c none },
  rw e refl,
  e,
  set_nxt-same l.task c none,
  set_nxt-tout l.task c none,
  t,
)
remove-Chain fuel l c (i ∷ is) f (e, ch) (m, d) t = elim (Bool-cases (c == i)) [
  | inl b ↦
      let apart : mem c is ≡ false = ground (arith, b, m) in
      let tail : Chain (set_nxt l.task c none) (l.task i).nxt is =
        Chain-frame l.task (set_nxt l.task c none) (l.task i).nxt is
          (λ k q. set_nxt-other l.task c k none (mem-apart c k is apart q)) ch in
      (
        beheaded l c i,
        rw e (rw b refl),
        rw b tail,
        set_nxt-same l.task c none,
        set_nxt-tout l.task c none,
        rw b (beheaded-Timed l c i is ch),
      )
  | inr b ↦
      let (us, w, same, touts, h) =
        remove_walk_lem fuel l.task c i is (omega (arith, f)) ch (m, d) in
      let whole : Chain (set_nxt us c none) (some i) (i ∷ erase c is) =
        Chain-frame us (set_nxt us c none) (some i) (i ∷ erase c is)
          (λ k q.
            set_nxt-other us c k none
              (mem-apart c k (i ∷ erase c is) (ground (arith, b, erase-missing c is d)) q))
          h in
      (
        record l { task = set_nxt us c none },
        rw e (rw b (rw w refl)),
        rw e (rw b whole),
        set_nxt-same us c none,
        λ k. set_nxt-tout us c none k ∙ touts k,
        rw b (t ∙ sym (set_nxt-tout us c none i ∙ touts i)),
      )
]
