-- ===== src/Sms/Number/Laws.antt =====
-- A number survives the swap of its digits.
use chan_extra.Prelude.{
  ℕ, ◌+◌, ◌%◌, ◌≡◌, refl, true, false, List, [], ◌∷◌, arith, ==→eq, Bool-cases, inl, inr, ◌==◌,
  if◌then◌else◌, length, All,
}
use chan_extra.Sms.Number.{
  gsm_dso2string, gsm_convert_number, gsm_invert_numbers, is_digit, all_digits, gsm_is_valid_number,
}

abbrev pub IsDigit : ℕ → Type 0
IsDigit c = is_digit c ≡ true

-- An even number of semi-octets, the filler counted.
pub length-invert_numbers : (s : List ℕ) → length (gsm_invert_numbers s) ≡ length s + length s % 2
unfolding gsm_invert_numbers
length-invert_numbers [] = refl
length-invert_numbers (a ∷ []) = refl
length-invert_numbers (a ∷ b ∷ s) = omega (arith, length-invert_numbers s)

pub all_digits-All : (s : List ℕ) → all_digits s ≡ true → All IsDigit s
unfolding all_digits
all_digits-All [] h = tt
all_digits-All (c ∷ s) h = ground (arith, all_digits-All s)

pub dso2string-invert_numbers :
    (s : List ℕ) → All IsDigit s → gsm_dso2string (gsm_invert_numbers s) ≡ s
unfolding gsm_dso2string gsm_invert_numbers is_digit
dso2string-invert_numbers [] h = refl
dso2string-invert_numbers (a ∷ []) h = refl
dso2string-invert_numbers (a ∷ b ∷ s) h = ground (arith, dso2string-invert_numbers s h.1.1)

valid_digits :
    (c : ℕ) (s : List ℕ)
    → (c == b'+') ≡ false
    → gsm_is_valid_number (c ∷ s) ≡ true
    → All IsDigit (c ∷ s)
unfolding gsm_is_valid_number
valid_digits c s local h = ground (arith, all_digits-All s)

-- A valid number, with a `+` or without, is read back from its swapped digits under the type of
-- address that says which of the two it is.
convert_number-invert_numbers :
    (c : ℕ) (s : List ℕ)
    → gsm_is_valid_number (c ∷ s) ≡ true
    → gsm_convert_number
        (gsm_invert_numbers (if c == b'+' then s else c ∷ s))
        (if c == b'+' then 0x91 else 0x81)
      ≡ c ∷ s
unfolding gsm_convert_number gsm_is_valid_number
convert_number-invert_numbers c s h = elim (Bool-cases (c == b'+')) [
  | inl plus ↦ rw plus (
      ground
        (arith, dso2string-invert_numbers s (all_digits-All s (ground arith)), ==→eq c b'+' plus))
  | inr local ↦
      rw local (ground (arith, dso2string-invert_numbers (c ∷ s) (valid_digits c s local h)))
]
