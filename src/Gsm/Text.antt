-- ===== src/Gsm/Text.antt =====
-- The text helpers of src/libgsmat/gsm.c and src/libgsmat/gsm_module.c. A text has no NUL; an array
-- of characters that is not always ended anew is given whole, NULs included.
use chan_extra.Prelude.{
  ℕ, ◌+◌, ◌-◌, Bool, not, ◌&&◌, ◌||◌, Option, none, some, List, [], ◌∷◌, ◌++◌, ltb, ◌==◌,
  if◌then◌else◌, length, take, drop, set,
}
use chan_extra.Sms.Submit.{strstr}

unfoldable pub is_crlf : ℕ → Bool
is_crlf c = c == b'\n' || (c == b'\r' || c == b' ')

-- The text less what `is_crlf` holds of at its end.
unfoldable pub trim_tail : List ℕ → List ℕ
unfolding is_crlf
trim_tail [] = []
trim_tail (c ∷ text) =
    let rest = trim_tail text in if length rest == 0 && is_crlf c then [] else c ∷ rest

unfoldable pub trim_head : List ℕ → List ℕ
unfolding is_crlf
trim_head [] = []
trim_head (c ∷ text) = let rest = trim_head text in if is_crlf c then rest else c ∷ text

unfoldable pub trim_crlf : List ℕ → List ℕ
unfolding trim_tail trim_head
trim_crlf text = trim_head (trim_tail text)

unfoldable pub gsm_compare : List ℕ → List ℕ → Bool
unfolding strstr
gsm_compare str_at str_cmp = strstr str_at str_cmp

-- The loop of `gsm_trim`, with room for `room` more octets.
unfoldable pub trim_loop : ℕ → List ℕ → List ℕ
trim_loop room [] = []
trim_loop room (c ∷ text) =
    let kept = c ∷ trim_loop (room - 1) text in
    let passed = trim_loop room text in
    if room == 0 then [] else if not (c == b'\r') && not (c == b'\n') then kept else passed

-- What is written to `out`, less the NUL.
unfoldable pub gsm_trim : List ℕ → ℕ → List ℕ
unfolding trim_loop
gsm_trim text out_len = trim_loop (out_len - 1) text

-- `strncpy` of `n` characters that are there: the rest of the array stays.
unfoldable pub overwrite : List ℕ → List ℕ → List ℕ
overwrite text array = text ++ drop (length text) array

-- `strchr`: the text after the first such character, and how far it is.
unfoldable pub strchr : List ℕ → ℕ → Option (ℕ × List ℕ)
strchr [] flag = none
strchr (c ∷ text) flag =
    let rest = strchr text flag in
    if c == flag
    then some (0, text)
    else elim rest [ none ↦ none | some found ↦ some (found.0 + 1, found.1) ]

-- `strrchr`: where the last such character is.
unfoldable pub strrchr : List ℕ → ℕ → Option ℕ
strrchr [] flag = none
strrchr (c ∷ text) flag = elim (strrchr text flag) [
  | none ↦ if c == flag then some 0 else none
  | some i ↦ some (i + 1)
]

-- `gsm_get_manufacturer` and its like, on an array of `size`: the NUL that ends the text is
-- followed by others.
unfoldable pub gsm_get_line : List ℕ → ℕ → List ℕ
unfolding gsm_trim
gsm_get_line h size = gsm_trim h size

-- The array `sim_smsc`, of 32 characters.
unfoldable pub gsm_get_smsc : List ℕ → List ℕ → List ℕ
unfolding gsm_trim strchr strrchr overwrite
gsm_get_smsc sim_smsc h =
    let buf = gsm_trim h 32 in
    elim (strchr buf b'"') [
      | none ↦ set sim_smsc 0 0
      | some start ↦ elim (strrchr buf b'"') [
        | none ↦ set sim_smsc 0 0
        | some end ↦
            let n = end - start.0 in
            if ltb n 32 && ltb 0 n
            then overwrite (take (n - 1) start.1) sim_smsc
            else set sim_smsc 0 0
      ]
    ]

-- The array `net_name`, of 64 characters. Without a second quote the distance is negative, which
-- counts as a large one.
unfoldable pub gsm_get_operator : List ℕ → List ℕ → List ℕ
unfolding strchr overwrite
gsm_get_operator net_name buf = elim (strchr buf b'"') [
  | none ↦ net_name
  | some start ↦ elim (strchr start.1 b'"') [
    | none ↦ net_name
    | some end ↦ if ltb end.0 64 then overwrite (take end.0 start.1) net_name else net_name
  ]
]
