-- ===== src/Loop/Tasks/Chains.antt =====
-- The list that the links of the tasks form.
use lua_t.Prelude.{
  ℕ, ◌≡◌, refl, Bool, true, false, List, [], ◌∷◌, Option, none, some, ◌==◌, if◌then◌else◌, arith,
  Bool-cases, inl, inr,
}
use lua_t.Loop.{Task, Loop, no_timeout}
use lua_t.Loop.Tasks.{set_nxt}

-- From `h`, the links run through exactly `is`.
abbrev pub Chain : (ℕ → Task) → Option ℕ → List ℕ → Type 0
Chain ts h [] = h ≡ none
Chain ts h (i ∷ is) = (h ≡ some i) × Chain ts (ts i).nxt is

abbrev pub mem : ℕ → List ℕ → Bool
mem k [] = false
mem k (i ∷ is) = if k == i then true else mem k is

abbrev pub Distinct : List ℕ → Type 0
Distinct [] = Unit
Distinct (i ∷ is) = (mem i is ≡ false) × Distinct is

pub set_nxt-other :
    (ts : ℕ → Task) (i k : ℕ) (v : Option ℕ) → (i == k) ≡ false → set_nxt ts i v k ≡ ts k
set_nxt-other ts i k v e = rw e

pub set_nxt-same : (ts : ℕ → Task) (i : ℕ) (v : Option ℕ) → (set_nxt ts i v i).nxt ≡ v
set_nxt-same ts i v = ground arith

-- Chains depend only on their members.
pub Chain-frame :
    (ts us : ℕ → Task) (h : Option ℕ) (is : List ℕ)
    → ((k : ℕ) → mem k is ≡ true → us k ≡ ts k)
    → Chain ts h is
    → Chain us h is
Chain-frame ts us h [] f c = c
Chain-frame ts us h (i ∷ is) f (e, c) =
    let same : us i ≡ ts i = f i (ground arith) in
    let tail : Chain us (ts i).nxt is =
      Chain-frame ts us (ts i).nxt is (λ k m. f k (ground (arith, m))) c in
    (e, rw same tail)

pub mem-apart : (a k : ℕ) (is : List ℕ) → mem a is ≡ false → mem k is ≡ true → (a == k) ≡ false
mem-apart a k [] h m = absurd (ground (arith, m))
mem-apart a k (i ∷ is) h m = ground (arith, h, m, mem-apart a k is)

pub set_nxt-tout :
    (ts : ℕ → Task) (i : ℕ) (v : Option ℕ) (k : ℕ) → (set_nxt ts i v k).tout ≡ (ts k).tout
set_nxt-tout ts i v k = elim (Bool-cases (i == k)) [ inl b ↦ ground (arith, b) | inr b ↦ rw b refl ]

-- The head's timeout is the loop's.
abbrev pub Timed : Loop → List ℕ → Type 0
Timed l [] = l.tout ≡ no_timeout
Timed l (i ∷ is) = l.tout ≡ (l.task i).tout
