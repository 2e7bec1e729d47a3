-- ===== src/Sms/Number.antt =====
-- Telephone numbers in decimal semi-octets: `gsm_dso2string`, `gsm_convertNumber`,
-- `gsmInvertNumbers` and `gsm_is_valid_number` of src/libgsmat/gsm_sms.c. The destination is the
-- list of the bytes written before the NUL.
pub mod Laws
use chan_extra.Prelude.{
  ℕ, ◌+◌, Bool, true, false, not, ◌&&◌, ◌||◌, List, [], ◌∷◌, leb, ◌==◌, if◌then◌else◌,
}

-- A pair that begins with the filler F ends the number. The second of a pair that the text cuts
-- off is the NUL, which ends the result.
unfoldable pub gsm_dso2string : List ℕ → List ℕ
gsm_dso2string [] = []
gsm_dso2string (a ∷ []) = []
gsm_dso2string (a ∷ b ∷ dso) = if a == b'F' || a == b'f' then b ∷ [] else b ∷ a ∷ gsm_dso2string dso

unfoldable pub gsm_convert_number : List ℕ → ℕ → List ℕ
unfolding gsm_dso2string
gsm_convert_number dso toa = if toa == 0x91 then b'+' ∷ gsm_dso2string dso else gsm_dso2string dso

-- For an odd length the NUL of the last pair is overwritten by F. The length that the function
-- returns is that of the result.
unfoldable pub gsm_invert_numbers : List ℕ → List ℕ
gsm_invert_numbers [] = []
gsm_invert_numbers (a ∷ []) = b'F' ∷ a ∷ []
gsm_invert_numbers (a ∷ b ∷ src) = b ∷ a ∷ gsm_invert_numbers src

unfoldable pub is_digit : ℕ → Bool
is_digit c = leb c b'9' && leb b'0' c

-- The loop over `number[1..]`.
unfoldable pub all_digits : List ℕ → Bool
all_digits [] = true
all_digits (c ∷ number) = is_digit c && all_digits number

-- The empty text has the NUL for its first character. The `NULL` test is the caller's: a text is
-- given here.
unfoldable pub gsm_is_valid_number : List ℕ → Bool
unfolding is_digit all_digits
gsm_is_valid_number [] = false
gsm_is_valid_number (c ∷ number) =
    if not (c == b'+') && not (is_digit c) then false else all_digits number
