-- ===== src/Sms/Charset.antt =====
-- Character sets: `myUTF8_to_UNICODE`, `to_upper_string`, `code_convert`, `sms_encode` and
-- `sms_get_str` of src/libgsmat/gsm_sms.c. The library iconv is a parameter.
pub mod Unicode
use chan_extra.Prelude.{
  ℕ, zero, suc, ◌+◌, ◌-◌, ◌*◌, ◌/◌, ◌^◌, bit_and, Bool, true, false, ◌&&◌, Option, none, some, List,
  [], ◌∷◌, ◌++◌, map, ltb, leb, ◌==◌, if◌then◌else◌, length, u8, get_or, drop,
}

-- The rounds left of the loop and the text from `utf8[i]` on. Past the end the text reads as 0.
unfoldable pub utf8_loop : ℕ → List ℕ → List ℕ
utf8_loop zero utf8 = []
utf8_loop (suc n) [] = []
utf8_loop (suc n) (b ∷ rest) = elim (leb b 0x7f) [
  | true ↦ 0 ∷ b ∷ utf8_loop n rest
  | false ↦ elim (leb b 0xdf) [
    | true ↦
        let code = bit_and b 0x1f * 2 ^ 6 + bit_and (get_or rest 0 0) 0x3f in
        u8 (code / 2 ^ 8) ∷ u8 code ∷ utf8_loop n (drop 1 rest)
    | false ↦
        let code =
          bit_and b 0x0f * 2 ^ 12
          + bit_and (get_or rest 0 0) 0x3f * 2 ^ 6
          + bit_and (get_or rest 1 0) 0x3f in
        u8 (code / 2 ^ 8) ∷ u8 code ∷ utf8_loop n (drop 2 rest)
  ]
]

unfoldable pub my_utf8_to_unicode : List ℕ → List ℕ
unfolding utf8_loop
my_utf8_to_unicode utf8 = utf8_loop (length utf8) utf8

-- `islower` and `toupper` of the C locale.
unfoldable pub upper : ℕ → ℕ
upper c = if leb b'a' c && leb c b'z' then c - 32 else c

unfoldable pub to_upper_string : List ℕ → List ℕ
unfolding upper
to_upper_string text = map upper text

abbrev pub ucs2_be : List ℕ
ucs2_be = b'U' ∷ b'C' ∷ b'S' ∷ b'-' ∷ b'2' ∷ b'B' ∷ b'E' ∷ []

-- The library: from a character set to another, with the room for the output. `none` is a failure
-- of `iconv_open`; otherwise whether `iconv` succeeded, and what it wrote.
abbrev pub Iconv : Type 0
Iconv = List ℕ → List ℕ → List ℕ → ℕ → Option (Bool × List ℕ)

module _ (iconv : Iconv) where
  -- The room that is left (`none` for -1), and the output. `out` is what the output held before,
  -- which only a failure to open leaves there.
  unfoldable pub code_convert : List ℕ → List ℕ → List ℕ → List ℕ → ℕ → Option ℕ × List ℕ
  code_convert from_charset to_charset input out outlen =
      elim (iconv from_charset to_charset input outlen) [
        | none ↦ (none, out)
        | some (done, written) ↦ (if done then some (outlen - length written) else none, written)
      ]

  -- The result (`none` for -1) and the output. A full output counts as a failure.
  unfoldable pub sms_encode : List ℕ → List ℕ → List ℕ → ℕ → Option ℕ × List ℕ
  unfolding code_convert to_upper_string
  sms_encode coding input out outlen =
      let (left, written) =
        code_convert ucs2_be (to_upper_string coding) (0xfe ∷ 0xff ∷ input) out outlen in
      elim left [
        | none ↦ (none, written)
        | some n ↦ if n == 0 then (none, written) else (some (outlen - n), written)
      ]

  -- `sms_text_coding` is an array of the module, so it is never NULL.
  unfoldable pub sms_get_str : List ℕ → List ℕ → List ℕ → ℕ → Option ℕ × List ℕ
  unfolding sms_encode
  sms_get_str sms_text_coding input out outlen =
      if length sms_text_coding == 0
      then sms_encode (b'A' ∷ b'S' ∷ b'C' ∷ b'I' ∷ b'I' ∷ []) input out outlen
      else sms_encode sms_text_coding input out outlen
