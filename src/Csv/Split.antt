-- ===== src/Csv/Split.antt =====
-- src/t_csv_l.c: `Csv.split`, the iterator that splits a text at a delimiter.
pub mod Join
use lua_t.Prelude.{
  ℕ, zero, suc, ◌+◌, ◌-◌, ◌^◌, ◌%◌, Bool, true, false, List, [], ◌∷◌, Option, none, some, Bytes,
  ltb, ◌==◌, if◌then◌else◌, length, get_or, slice, drop,
}
use lua_t.Prelude.Word.{sub_size}

-- The closure's upvalues: text, delimiter, "keep the delimiter", text position, token count.
pub record Split : Type 0 where
  pub str : Bytes
  pub dlm : Bytes
  pub dst : Bool
  pub its : ℕ
  pub cnt : ℕ

-- `lt_csv_Split`: the third argument may be left out.
unfoldable pub new : Bytes → Bytes → Option Bool → Split
new str dlm none = record { str = str; dlm = dlm; dst = false; its = 0; cnt = 0 }
new str dlm (some keep) = record { str = str; dlm = dlm; dst = keep; its = 0; cnt = 0 }

-- How much of the delimiter is matched behind character `c`.
abbrev pub advance : Bytes → ℕ → ℕ → ℕ
advance dlm itd c = if c == get_or dlm itd 0 then itd + 1 else if c == get_or dlm 0 0 then 1 else 0

-- The `for` loop over the rest of the text: the position at which it stops.
unfoldable pub scan : Bytes → Bytes → ℕ → ℕ → ℕ
scan dlm [] its itd = its
scan dlm (c ∷ cs) its itd =
    let m = advance dlm itd c in
    let later = scan dlm cs (its + 1) m in if m == length dlm then its else later

-- The length handed to `lua_pushlstring`, in `size_t` arithmetic.
abbrev pub token_len : Split → ℕ → ℕ
token_len s stop = sub_size (stop - s.its) (
    if ltb stop (length s.str)
    then (if s.dst then 2 ^ 64 - 1 else sub_size (length s.dlm) 1)
    else 0)

-- One call of `t_csv_split`: the token with its number, or nil at the end.
unfoldable pub next : Split → Option (Bytes × ℕ × Split)
next s =
    if ltb (length s.str) s.its
    then none
    else (let stop = scan s.dlm (drop s.its s.str) s.its 0 in
        some (
          slice s.str s.its (token_len s stop),
          s.cnt + 1,
          record s { its = stop + 1; cnt = s.cnt + 1 },
        ))

-- The client's `for` loop over the iterator; `none` means that the fuel ran out.
unfoldable pub tokens : ℕ → Split → Option (List Bytes)
tokens zero s = none
tokens (suc fuel) s = elim (next s) [
  | none ↦ some []
  | some (t, n, s') ↦ elim (tokens fuel s') [ none ↦ none | some ts ↦ some (t ∷ ts) ]
]
