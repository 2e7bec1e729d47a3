-- ===== src/Sms/Hex.antt =====
-- Hexadecimal text and bytes: `gsm_hex2int`, `gsm_string2byte` and `gsmBytes2String` of
-- src/libgsmat/gsm_sms.c. A C string is the list of its bytes without the NUL; a read past the
-- end gives 0, as it does in the zero-padded arrays that the callers pass.
pub mod Laws
use chan_extra.Prelude.{
  ℕ, zero, suc, ◌+◌, ◌-◌, ◌*◌, ◌/◌, ◌%◌, ◌^◌, ◌≤◌, ◌<◌, bit_and, ◌≡◌, refl, Bool, true, false, ◌&&◌,
  Option, none, some, List, [], ◌∷◌, ◌++◌, arith, leb, ltb, ◌==◌, if◌then◌else◌, get_or, set, drop,
  length, u8,
}

-- The value `j` of one character, 0 for what is no digit.
unfoldable pub hex_digit : ℕ → ℕ
hex_digit c =
    if leb 48 c && leb c 57
    then c - 48
    else (if leb 65 c && leb c 70 then c - 55 else (if leb 97 c && leb c 102 then c - 87 else 0))

-- The rounds that are left of the loop, on the text from `hex[i]` on.
unfoldable pub hex_loop : List ℕ → ℕ → ℕ → ℕ
hex_loop hex zero res = res
hex_loop hex (suc n) res =
    hex_loop (drop 1 hex) n ((res + hex_digit (get_or hex 0 0) * 16 ^ n) % 2 ^ 64)

unfoldable pub gsm_hex2int : List ℕ → ℕ → ℕ
unfolding hex_loop hex_digit
gsm_hex2int hex len = hex_loop hex len 0

abbrev pub hex_tab : List ℕ
hex_tab = 48 ∷ 49 ∷ 50 ∷ 51 ∷ 52 ∷ 53 ∷ 54 ∷ 55 ∷ 56 ∷ 57 ∷ 65 ∷ 66 ∷ 67 ∷ 68 ∷ 69 ∷ 70 ∷ []

-- The text; the length that the function returns is that of the text.
unfoldable pub gsm_bytes2string : List ℕ → List ℕ
gsm_bytes2string [] = []
gsm_bytes2string (b ∷ bs) =
    get_or hex_tab (b / 2 ^ 4) 0 ∷ get_or hex_tab (bit_and b 15) 0 ∷ gsm_bytes2string bs

-- A write into an array, `none` outside of it.
abbrev pub store : List ℕ → ℕ → ℕ → Option (List ℕ)
store a i v = if ltb i (length a) then some (set a i v) else none

unfoldable pub string2byte_loop : List ℕ → List ℕ → ℕ → ℕ → Option (List ℕ)
string2byte_loop res text zero i = some res
string2byte_loop res text (suc n) i = elim (store res i (u8 (gsm_hex2int text 2))) [
  | none ↦ none
  | some res' ↦ string2byte_loop res' (drop 2 text) n (i + 1)
]

-- The terminator goes to `res[len * 2]`.
unfoldable pub gsm_string2byte : List ℕ → List ℕ → ℕ → Option (List ℕ)
gsm_string2byte res text len = elim (string2byte_loop res text len 0) [
  | none ↦ none
  | some res' ↦ store res' (len * 2) 0
]
