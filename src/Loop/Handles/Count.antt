-- ===== src/Loop/Handles/Count.antt =====
-- The loop's count of descriptors and the sets for `select` agree with its table of nodes.
use lua_t.Prelude.{
  ℕ, zero, suc, ◌<◌, ◌≡◌, refl, sym, ◌∙◌, ap, Bool, true, false, not, ◌&&◌, List, ◌∷◌, Option, none,
  some, ltb, ◌==◌, if◌then◌else◌, arith, Bool-cases, inl, inr, length, Option-cases,
}
use lua_t.Prelude.Int.{pos, ltb_ℤ, ◌+ℤ◌, ◌-ℤ◌}
use lua_t.Prelude.Result.{ok, fault}
use lua_t.Loop.Tasks.Chains.{mem, Distinct}
use lua_t.Loop.Tasks.Remove.{erase, erase-missing, mem-erase_other, length-erase, erase-Distinct}
use lua_t.Loop.Handles.{
  Mask, and_not, is_no, Node, Select, Observed, put, addhandle_impl, removehandle_impl, highest,
  node_or_new, addhandle, removehandle,
}

abbrev pub is_some {ℓ} : {A : Type ℓ} → Option A → Bool
is_some none = false
is_some (some a) = true

-- Exactly the descriptors `fds` are observed: they are counted, and the sets say what the nodes say. It is not
-- shown of a fresh loop, where `p_ael_create_ud_impl` leaves `fdMax` and `fd_set` as they are.
pub record IsObserving (o : Observed) (fds : List ℕ) : Type 0 where
  pub distinct : Distinct fds
  pub counted : o.fd_count ≡ pos (length fds)
  pub members : (k : ℕ) → mem k fds ≡ is_some (o.nodes k)
  pub flags : (k : ℕ) → o.ste.fd_set k ≡ is_some (o.nodes k)
  pub reads : (k : ℕ) → o.ste.rfds k ≡ (node_or_new (o.nodes k)).msk.rd
  pub writes : (k : ℕ) → o.ste.wfds k ≡ (node_or_new (o.nodes k)).msk.wr
  pub top : (k : ℕ) → is_some (o.nodes k) ≡ true → ltb_ℤ o.ste.fd_max (pos k) ≡ false

-- In a loop whose count and sets agree with its nodes, adding a handle whose descriptor fits into the sets succeeds, and the loop observes its descriptor
-- besides those it observed.
pub addhandle-IsObserving :
    (o : Observed) (fds : List ℕ) (hdl fd : ℕ) (msk : Mask) (fnc : ℕ)
    → IsObserving o fds
    → fd < 1024
    → (o' : Observed) × (addhandle o hdl fd msk fnc ≡ ok o')
      × IsObserving o' (if is_some (o.nodes fd) then fds else fd ∷ fds)
unfolding addhandle addhandle_impl ◌+ℤ◌
addhandle-IsObserving o fds hdl fd msk fnc v f =
    let fits : ltb fd 1024 ≡ true = ground (arith, f) in
    rw fits (
      _,
      refl,
      record {
        distinct = elim (Option-cases (o.nodes fd)) [
          | inl e ↦ rw e (v.members fd ∙ ap is_some e, v.distinct)
          | inr (d, e) ↦ rw e v.distinct
        ];
        counted = elim (Option-cases (o.nodes fd)) [
          | inl e ↦ rw e (ground (arith, v.counted))
          | inr (d, e) ↦ rw e v.counted
        ];
        members = λ k. elim (Option-cases (o.nodes fd)) [
          | inl e ↦ rw e (ground (arith, v.members k))
          | inr (d, e) ↦ rw e (ground (arith, v.members k, v.members fd, e))
        ];
        flags = λ k. ground (arith, v.flags k);
        reads = λ k. ground (arith, v.reads k);
        writes = λ k. ground (arith, v.writes k);
        top = λ k e. ground (arith, v.top k, e);
      },
    )

highest_lem :
    (set : ℕ → Bool) (n k : ℕ) → k < n → set k ≡ true → ltb_ℤ (highest set n) (pos k) ≡ false
unfolding highest
highest_lem set zero k h e = absurd (omega (arith, h))
highest_lem set (suc n) k h e = elim (Bool-cases (k == n)) [
  | inl b ↦ let same : k ≡ n = ground (arith, b) in rw (sym same) (rw e (ground arith))
  | inr b ↦ elim (Bool-cases (set n)) [
    | inl c ↦ rw c (ground (arith, h))
    | inr c ↦ rw c (highest_lem set n k (ground (arith, h, b)) e)
  ]
]

-- The state that the removal leaves.
abbrev removed : Select → ℕ → Mask → Select
removed s fd delmsk = record {
  rfds = if delmsk.rd then put s.rfds fd false else s.rfds;
  wfds = if delmsk.wr then put s.wfds fd false else s.wfds;
  fd_max =
      if not (ltb_ℤ (pos fd) s.fd_max) && not (ltb_ℤ s.fd_max (pos fd))
      then highest (put s.fd_set fd false) fd
      else s.fd_max;
  fd_set = put s.fd_set fd false;
}

abbrev without : Observed → ℕ → Mask → Observed
without o fd msk = record {
  nodes = put o.nodes fd none;
  fd_count = o.fd_count -ℤ pos 1;
  ste = removed o.ste fd msk;
}

removehandle_all :
    (o : Observed) (fd : ℕ) (dnd : Node) (msk : Mask)
    → fd < 1024
    → o.nodes fd ≡ some dnd
    → is_no (and_not dnd.msk msk) ≡ true
    → removehandle o fd msk ≡ ok (some (without o fd msk))
unfolding removehandle removehandle_impl
removehandle_all o fd dnd msk f n all = ground (arith, f, n, all)

without-top :
    (o : Observed) (fds : List ℕ) (fd k : ℕ) (msk : Mask)
    → IsObserving o fds
    → is_some (o.nodes fd) ≡ true
    → is_some (put o.nodes fd none k) ≡ true
    → ltb_ℤ (without o fd msk).ste.fd_max (pos k) ≡ false
without-top o fds fd k msk v n e =
    ground (arith, n, e, v.top k, v.top fd, v.flags k, highest_lem (put o.ste.fd_set fd false) fd k)

-- In a loop whose count and sets agree with its nodes, removing all directions of an observed descriptor
-- that fits into the sets succeeds: the loop observes the others, and the
-- highest descriptor is again no lower than any of them.
pub removehandle-IsObserving :
    (o : Observed) (fds : List ℕ) (fd : ℕ) (dnd : Node) (msk : Mask)
    → IsObserving o fds
    → fd < 1024
    → o.nodes fd ≡ some dnd
    → is_no (and_not dnd.msk msk) ≡ true
    → (o' : Observed) × (removehandle o fd msk ≡ ok (some o')) × IsObserving o' (erase fd fds)
unfolding ◌-ℤ◌
removehandle-IsObserving o fds fd dnd msk v f n all =
    let inside : mem fd fds ≡ true = v.members fd ∙ ap is_some n in
    (
      without o fd msk,
      removehandle_all o fd dnd msk f n all,
      record {
        distinct = erase-Distinct fd fds v.distinct;
        counted = ground (arith, v.counted, length-erase fd fds inside);
        members = λ k.
            ground (arith, v.members k, erase-missing fd fds v.distinct, mem-erase_other fd k fds);
        flags = λ k. ground (arith, v.flags k);
        reads = λ k. ground (arith, v.reads k, n, all);
        writes = λ k. ground (arith, v.writes k, n, all);
        top = λ k e. without-top o fds fd k msk v (ap is_some n) e;
      },
    )

-- Removing some directions of an observed descriptor, but not all, is a fault.
pub removehandle_partly :
    (o : Observed) (fd : ℕ) (dnd : Node) (msk : Mask)
    → o.nodes fd ≡ some dnd
    → is_no (and_not dnd.msk msk) ≡ false
    → removehandle o fd msk ≡ fault
unfolding removehandle removehandle_impl
removehandle_partly o fd dnd msk n h = ground (arith, n, h)
