-- ===== src/Sms/Charset/Unicode.antt =====
-- UTF-8 to UCS-2 by `myUTF8_to_UNICODE`.
use chan_extra.Prelude.{
  ℕ, zero, suc, ◌+◌, ◌/◌, ◌%◌, ◌≤◌, ◌<◌, ◌≡◌, refl, ap, ◌∙◌, List, [], ◌∷◌, ◌++◌, arith, ltb,
  if◌then◌else◌, length, All, length-append,
}
use chan_extra.Sms.Septet.Bits.{bit_and_low}
use chan_extra.Sms.Charset.{utf8_loop, my_utf8_to_unicode}

-- A character of the basic plane in UTF-8, and in big-endian UCS-2.
abbrev pub utf8 : ℕ → List ℕ
utf8 c =
    if ltb c 0x80
    then c ∷ []
    else (if ltb c 0x800
        then (0xc0 + c / 64) ∷ (0x80 + c % 64) ∷ []
        else (0xe0 + c / 4096) ∷ (0x80 + c / 64 % 64) ∷ (0x80 + c % 64) ∷ [])

abbrev pub ucs2 : ℕ → List ℕ
ucs2 c = c / 256 ∷ c % 256 ∷ []

abbrev pub encode : (ℕ → List ℕ) → List ℕ → List ℕ
encode f [] = []
encode f (c ∷ cs) = f c ++ encode f cs

utf8_loop_step :
    (n c : ℕ) (rest : List ℕ)
    → c < 0x10000
    → utf8_loop (suc n) (utf8 c ++ rest) ≡ ucs2 c ++ utf8_loop n rest
unfolding utf8_loop
utf8_loop_step n c rest h = ground (
  arith,
  bit_and_low 5 (0xc0 + c / 64),
  bit_and_low 6 (0x80 + c % 64),
  bit_and_low 4 (0xe0 + c / 4096),
  bit_and_low 6 (0x80 + c / 64 % 64),
)

utf8_loop-encode :
    (n : ℕ) (cs : List ℕ)
    → All (λ c. c < 0x10000) cs
    → length cs ≤ n
    → utf8_loop n (encode utf8 cs) ≡ encode ucs2 cs
unfolding utf8_loop
utf8_loop-encode zero [] h room = refl
utf8_loop-encode (suc n) [] h room = refl
utf8_loop-encode zero (c ∷ cs) h room = absurd (omega arith)
utf8_loop-encode (suc n) (c ∷ cs) h room =
    utf8_loop_step n c (encode utf8 cs) h.0
    ∙ ap (λ l. ucs2 c ++ l) (utf8_loop-encode n cs h.1 (omega arith))

length-utf8 : (c : ℕ) → 1 ≤ length (utf8 c)
length-utf8 c = ground arith

length-encode-utf8 : (cs : List ℕ) → length cs ≤ length (encode utf8 cs)
length-encode-utf8 [] = omega arith
length-encode-utf8 (c ∷ cs) =
    omega (arith, length-append (utf8 c) (encode utf8 cs), length-utf8 c, length-encode-utf8 cs)

-- Every UTF-8 text of the basic plane becomes its UCS-2 text, two octets to a character.
pub utf8_to_unicode-encode :
    (cs : List ℕ) → All (λ c. c < 0x10000) cs → my_utf8_to_unicode (encode utf8 cs) ≡ encode ucs2 cs
unfolding my_utf8_to_unicode
utf8_to_unicode-encode cs h = utf8_loop-encode _ cs h (length-encode-utf8 cs)
