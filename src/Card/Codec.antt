-- ===== src/Card/Codec.antt =====
-- The settings of a span's codec: `format_adcgain`, `format_dacgain`, `format_sidetone` and
-- `format_inputgain` of src/opvxg4xx/base.c.
pub mod Bounds
use chan_extra.Prelude.{
  ℤ, pos, negsuc, ℕ, zero, suc, ◌+◌, ◌-◌, Bool, true, false, ◌||◌, Option, none, some, List, [],
  ◌∷◌, ltb, ◌==◌, if◌then◌else◌,
}

-- Where a value stands in a table, counted from `i`.
unfoldable pub find_value : List ℤ → ℤ → ℕ → Option ℕ
find_value [] v i = none
find_value (pos n ∷ vs) (pos k) i =
    let rest = find_value vs (pos k) (i + 1) in if n == k then some i else rest
find_value (negsuc n ∷ vs) (negsuc k) i =
    let rest = find_value vs (negsuc k) (i + 1) in if n == k then some i else rest
find_value (pos n ∷ vs) (negsuc k) i = find_value vs (negsuc k) (i + 1)
find_value (negsuc n ∷ vs) (pos k) i = find_value vs (pos k) (i + 1)

unfoldable pub format_adcgain : ℤ → ℕ
format_adcgain (pos n) = if ltb 21 n then 0x2a else (if n == 21 then 0x3f else 0x2a + n)
format_adcgain (negsuc n) = if ltb 42 (n + 1) then 0x2a else 0x2a - (n + 1)

unfoldable pub format_dacgain : ℤ → ℕ
format_dacgain (pos n) = if ltb 21 n then 0x56 else (if n == 21 then 0x7f else 0x6a + n)
format_dacgain (negsuc n) = if ltb 42 (n + 1) then 0x56 else 0x6a - (n + 1)

-- The first value is the one for mute, 7 as for a value that is not in the table.
unfoldable pub format_sidetone : ℤ → ℕ
unfolding find_value
format_sidetone v =
    elim (find_value
      (pos 0 ∷ negsuc 2 ∷ negsuc 5 ∷ negsuc 8 ∷ negsuc 11 ∷ negsuc 14 ∷ negsuc 17 ∷ negsuc 20 ∷ [])
      v 0) [ none ↦ 7 | some i ↦ if i == 0 then 7 else i - 1 ]

unfoldable pub format_inputgain : ℤ → ℕ
unfolding find_value
format_inputgain v = elim (find_value (pos 0 ∷ pos 6 ∷ pos 12 ∷ pos 24 ∷ []) v 0) [
  | none ↦ 0
  | some i ↦ i
]
