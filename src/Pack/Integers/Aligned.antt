-- ===== src/Pack/Integers/Aligned.antt =====
-- Integers that begin and end on borders of bytes.
use lua_t.Prelude.{
  ℕ, zero, suc, ◌+◌, ◌-◌, ◌*◌, ◌/◌, ◌^◌, ◌<◌, ◌≤◌, ◌≡◌, refl, sym, ◌∙◌, ap, arith, Bool, true,
  false, leb, if◌then◌else◌, ◌⊎◌, inl, inr, [], ◌∷◌, ◌++◌, Bytes, length, get_or, slice, take, drop,
  length-take, length-drop, length-append, slice-append,
}
use lua_t.Prelude.Result.{ok}
use lua_t.Pack.{object, integer_of, store_bytes, copy_down, copy_up, copy_bytes}
use lua_t.Pack.Integers.Binary.{pow_add}
use lua_t.Pack.Integers.Read.{get_or-take, get_or-drop}

length-copy_down : (n : ℕ) (src : Bytes) → length (copy_down n src) ≡ n
length-copy_down zero src = refl
length-copy_down (suc n) src = ap suc (length-copy_down n src)

length-copy_up : (len n : ℕ) (src : Bytes) → length (copy_up len n src) ≡ n
length-copy_up len zero src = refl
length-copy_up len (suc n) src = ap suc (length-copy_up len n src)

get_or-copy_down :
    (n : ℕ) (src : Bytes) (i : ℕ) → i < n → get_or (copy_down n src) i 0 ≡ get_or src (n - 1 - i) 0
get_or-copy_down zero src i h = absurd (omega (arith, h))
get_or-copy_down (suc n) src zero h = ap (λ k. get_or src k 0) (omega arith)
get_or-copy_down (suc n) src (suc i) h =
    get_or-copy_down n src i (omega (arith, h)) ∙ ap (λ k. get_or src k 0) (omega arith)

get_or-copy_up :
    (len n : ℕ) (src : Bytes) (i : ℕ)
    → n ≤ len
    → i < n
    → get_or (copy_up len n src) i 0 ≡ get_or src (len - n + i) 0
get_or-copy_up len zero src i l h = absurd (omega (arith, h))
get_or-copy_up len (suc n) src zero l h = ap (λ k. get_or src k 0) (omega arith)
get_or-copy_up len (suc n) src (suc i) l h =
    get_or-copy_up len n src i (omega (arith, l)) (omega (arith, h))
    ∙ ap (λ k. get_or src k 0) (omega (arith, l))

list_ext :
    (a b : Bytes)
    → length a ≡ length b
    → ((i : ℕ) → i < length a → get_or a i 0 ≡ get_or b i 0)
    → a ≡ b
list_ext [] [] e h = refl
list_ext [] (y ∷ b) e h = absurd (omega (arith, e))
list_ext (x ∷ a) [] e h = absurd (omega (arith, e))
list_ext (x ∷ a) (y ∷ b) e h =
    rw (h 0 (omega arith), list_ext a b (omega (arith, e)) (λ i k. h (suc i) (omega (arith, k))))
      refl

pub length-copy_bytes : (src : Bytes) (flag : Bool) → length (copy_bytes src flag) ≡ length src
unfolding copy_bytes
length-copy_bytes src true = length-copy_down (length src) src
length-copy_bytes src false = length-copy_up (length src) (length src) src

-- Where a byte comes from.
origin : Bool → ℕ → ℕ → ℕ
origin flag len i = if flag then len - 1 - i else i

get_or-copy_bytes :
    (src : Bytes) (flag : Bool) (i : ℕ)
    → i < length src
    → get_or (copy_bytes src flag) i 0 ≡ get_or src (origin flag (length src) i) 0
unfolding copy_bytes origin
get_or-copy_bytes src true i h = get_or-copy_down (length src) src i h
get_or-copy_bytes src false i h =
    get_or-copy_up (length src) (length src) src i (omega arith) h
    ∙ ap (λ k. get_or src k 0) (omega arith)

origin-lt : (flag : Bool) (len i : ℕ) → i < len → origin flag len i < len
unfolding origin
origin-lt flag len i h = ground (arith, h)

origin-origin : (flag : Bool) (len i : ℕ) → i < len → origin flag len (origin flag len i) ≡ i
unfolding origin
origin-origin flag len i h = ground (arith, h)

pub copy_bytes-in_order : (src : Bytes) → copy_bytes src false ≡ src
unfolding origin
copy_bytes-in_order src =
    list_ext (copy_bytes src false) src (length-copy_bytes src false)
      (λ i h. get_or-copy_bytes src false i (omega (arith, h, length-copy_bytes src false)))

-- Copying twice the same way.
pub copy_bytes-copy_bytes :
    (src : Bytes) (flag : Bool) → copy_bytes (copy_bytes src flag) flag ≡ src
copy_bytes-copy_bytes src flag =
    let once : Bytes = copy_bytes src flag in
    let l : length once ≡ length src = length-copy_bytes src flag in
    let m : length (copy_bytes once flag) ≡ length once = length-copy_bytes once flag in
    list_ext (copy_bytes once flag) src (m ∙ l) (λ i h.
      let b : i < length once = omega (arith, h, m) in
      let c : i < length src = omega (arith, b, l) in
      get_or-copy_bytes once flag i b
      ∙ ap (λ n. get_or once (origin flag n i) 0) l
      ∙ get_or-copy_bytes src flag (origin flag (length src) i) (origin-lt flag (length src) i c)
      ∙ ap (λ k. get_or src k 0) (origin-origin flag (length src) i c))

pub integer_of-take : (k n v : ℕ) → k ≤ n → v < 2 ^ (8 * k) → integer_of (take k (object n v)) ≡ v
integer_of-take zero n v h b = omega (arith, b)
integer_of-take (suc k) zero v h b = absurd (omega (arith, h))
integer_of-take (suc k) (suc n) v h b =
    let e : 2 ^ (8 * suc k) ≡ 256 * 2 ^ (8 * k) =
      ap (λ m. 2 ^ m) {y = 8 + 8 * k} (omega arith) ∙ pow_add 8 (8 * k) in
    omega (arith, integer_of-take k n (v / 256) (omega (arith, h)) (omega (arith, b, e)))

get_or-append_left : (x y : Bytes) (i : ℕ) → i < length x → get_or (x ++ y) i 0 ≡ get_or x i 0
get_or-append_left [] y i h = absurd (omega (arith, h))
get_or-append_left (c ∷ x) y zero h = refl
get_or-append_left (c ∷ x) y (suc i) h = get_or-append_left x y i (omega (arith, h))

get_or-append_right :
    (x y : Bytes) (i : ℕ) → length x ≤ i → get_or (x ++ y) i 0 ≡ get_or y (i - length x) 0
get_or-append_right [] y i h = ap (λ k. get_or y k 0) (omega arith)
get_or-append_right (c ∷ x) y zero h = absurd (omega (arith, h))
get_or-append_right (c ∷ x) y (suc i) h =
    get_or-append_right x y i (omega (arith, h)) ∙ ap (λ k. get_or y k 0) (omega arith)

-- What `store_bytes` leaves in the buffer.
module _ (b : Bytes) (at : ℕ) (src : Bytes) (room : at + length src ≤ length b) where
  pub stored : Bytes
  stored = take at b ++ (src ++ drop (at + length src) b)

  pub store_bytes_lem : store_bytes b at src ≡ ok stored
  unfolding stored
  store_bytes_lem =
      let e : leb (at + length src) (length b) ≡ true = ground (arith, room) in rw e refl

  front : length (take at b) ≡ at
  front = omega (arith, room, length-take at b)

  pub length-stored : length stored ≡ length b
  unfolding stored
  length-stored = omega (
    arith,
    room,
    front,
    length-append (take at b) (src ++ drop (at + length src) b),
    length-append src (drop (at + length src) b),
    length-drop (at + length src) b,
  )

  pub slice-stored : slice stored at (length src) ≡ src
  unfolding stored
  slice-stored =
      ap (λ n. slice stored n (length src)) (sym front)
      ∙ slice-append (take at b) src (drop (at + length src) b)

  pub stored-kept : (i : ℕ) → (i < at) ⊎ (at + length src ≤ i) → get_or stored i 0 ≡ get_or b i 0
  unfolding stored
  stored-kept i (inl h) =
      get_or-append_left (take at b) (src ++ drop (at + length src) b) i (omega (arith, front, h))
      ∙ get_or-take at i b h
  stored-kept i (inr h) =
      get_or-append_right (take at b) (src ++ drop (at + length src) b) i (omega (arith, front, h))
      ∙ get_or-append_right src (drop (at + length src) b) (i - length (take at b))
          (omega (arith, front, h))
      ∙ get_or-drop (at + length src) (i - length (take at b) - length src) b
      ∙ ap (λ k. get_or b k 0) (omega (arith, front, h))
