-- ===== src/Sms/Septet/Text.antt =====
-- Texts of the default alphabet survive `gsmEncode7bit` and `gsm_to8Bit`.
use chan_extra.Prelude.{
  ℕ, ◌≤◌, ◌≡◌, Bool, true, false, not, ◌&&◌, ◌||◌, List, [], ◌∷◌, arith, ltb, leb, ◌==◌, get_or,
  length, length-append, take, All,
}
use chan_extra.Sms.Septet.{eq_7bit2ascii, char_septets, septets, extended, not_zero, gsm_to8bit}

-- The printable characters of ASCII but the grave accent, and three controls.
abbrev pub is_text_char : ℕ → Bool
is_text_char c = (leb 32 c && ltb c 127 && not (c == 96)) || c == 10 || c == 12 || c == 13

abbrev pub IsText : List ℕ → Type 0
IsText = All (λ c. is_text_char c ≡ true)

-- The septets of a character are below 128 and give the character back.
gives_back : ℕ → List ℕ → Bool
gives_back c [] = false
gives_back c (s ∷ []) = ltb s 128 && not (s == 0x1b) && get_or eq_7bit2ascii s 0 == c
gives_back c (s ∷ t ∷ r) =
    s == 0x1b && ltb t 128 && not_zero (extended t) && extended t == c && is_nil r
  where
    is_nil : List ℕ → Bool
    is_nil [] = true
    is_nil (x ∷ xs) = false

length-char_septets : (c : ℕ) → 1 ≤ length (char_septets c)
unfolding char_septets
length-char_septets c = ground arith

pub length-septets : (text : List ℕ) → length text ≤ length (septets text)
unfolding septets
length-septets [] = omega arith
length-septets (c ∷ text) = omega (
  arith,
  length-append (char_septets c) (septets text),
  length-char_septets c,
  length-septets text,
)

-- Of its input the conversion reads as many bytes as it is to give septets.
pub to8bit-take :
    (n : ℕ) (xs ys : List ℕ) → take n xs ≡ take n ys → gsm_to8bit xs n ≡ gsm_to8bit ys n
unfolding gsm_to8bit
to8bit-take n xs ys e = rw e
