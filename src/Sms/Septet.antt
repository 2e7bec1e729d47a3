-- ===== src/Sms/Septet.antt =====
-- The default alphabet, packed seven bits to a character: `gsmEncode7bit` and `gsm_to8Bit` of
-- src/libgsmat/gsm_sms.c. A byte is a number below 256.
pub mod Bits
pub mod Pack
pub mod Text
use chan_extra.Prelude.{
  ℕ, zero, suc, ◌+◌, ◌-◌, ◌*◌, ◌/◌, ◌%◌, ◌^◌, bit_and, bit_or, Bool, true, false, ◌&&◌, List, [],
  ◌∷◌, ◌++◌, ltb, leb, Option, none, some, ◌==◌, if◌then◌else◌, get_or, take, length, replicate, u8,
}

-- `UK`, -1 as an `unsigned char`.
abbrev pub uk : ℕ
uk = 255

-- `EQ7BIT2ASCII`, which both functions declare.
abbrev pub eq_7bit2ascii : List ℕ
eq_7bit2ascii =
    64 ∷ 163 ∷ 36 ∷ 165 ∷ 232 ∷ 223 ∷ 249 ∷ 236 ∷ 242 ∷ 199 ∷ 10 ∷ 216 ∷ 248 ∷ 13 ∷ 197 ∷ 229 ∷ uk
    ∷ 95 ∷ uk ∷ uk ∷ uk ∷ uk ∷ uk ∷ uk ∷ uk ∷ uk ∷ uk ∷ uk ∷ 198 ∷ 230 ∷ 223 ∷ 201 ∷ 32 ∷ 33 ∷ 34
    ∷ 35 ∷ 164 ∷ 37 ∷ 38 ∷ 39 ∷ 40 ∷ 41 ∷ 42 ∷ 43 ∷ 44 ∷ 45 ∷ 46 ∷ 47 ∷ 48 ∷ 49 ∷ 50 ∷ 51 ∷ 52 ∷ 53
    ∷ 54 ∷ 55 ∷ 56 ∷ 57 ∷ 58 ∷ 59 ∷ 60 ∷ 61 ∷ 62 ∷ 63 ∷ 161 ∷ 65 ∷ 66 ∷ 67 ∷ 68 ∷ 69 ∷ 70 ∷ 71 ∷ 72
    ∷ 73 ∷ 74 ∷ 75 ∷ 76 ∷ 77 ∷ 78 ∷ 79 ∷ 80 ∷ 81 ∷ 82 ∷ 83 ∷ 84 ∷ 85 ∷ 86 ∷ 87 ∷ 88 ∷ 89 ∷ 90 ∷ 196
    ∷ 204 ∷ 209 ∷ 220 ∷ 167 ∷ 191 ∷ 97 ∷ 98 ∷ 99 ∷ 100 ∷ 101 ∷ 102 ∷ 103 ∷ 104 ∷ 105 ∷ 106 ∷ 107
    ∷ 108 ∷ 109 ∷ 110 ∷ 111 ∷ 112 ∷ 113 ∷ 114 ∷ 115 ∷ 116 ∷ 117 ∷ 118 ∷ 119 ∷ 120 ∷ 121 ∷ 122 ∷ 228
    ∷ 246 ∷ 241 ∷ 252 ∷ 224 ∷ []

-- The second septet of a character of the extension table, 0 for the others.
unfoldable pub extension : ℕ → ℕ
extension c =
    if c == 0x0c
    then 0x0a
    else (if c == 0x5e
        then 0x14
        else (if c == 0x7b
            then 0x28
            else (if c == 0x7d
                then 0x29
                else (if c == 0x5c
                    then 0x2f
                    else (if c == 0x5b
                        then 0x3c
                        else (if c == 0x7e
                            then 0x3d
                            else (if c == 0x5d then 0x3e else (if c == 0x7c then 0x40 else 0))))))))

-- The search for a character in the table, from position `k` on: the position, or what was there.
unfoldable pub find_septet : List ℕ → ℕ → ℕ → ℕ → ℕ
find_septet [] k c old = old
find_septet (x ∷ tab) k c old =
    let rest = find_septet tab (k + 1) c old in if c == x then k else rest

-- `pSrc[i]` is a `char`, so a byte above 127 is negative and equal to no entry of the table.
unfoldable pub lookup_septet : ℕ → ℕ → ℕ
unfolding find_septet
lookup_septet c old = if ltb c 128 then find_septet eq_7bit2ascii 0 c old else old

-- The septets of one character, as one round of the first loop stores them.
unfoldable pub char_septets : ℕ → List ℕ
unfolding extension lookup_septet
char_septets c =
    let e = extension c in if e == 0 then lookup_septet c c ∷ [] else 0x1b ∷ lookup_septet c e ∷ []

unfoldable pub septets : List ℕ → List ℕ
unfolding char_septets
septets [] = []
septets (c ∷ src) = char_septets c ++ septets src

-- The second loop: septet number `n_src`, with the bits `n_left` of the one before.
unfoldable pub pack : ℕ → ℕ → List ℕ → List ℕ
pack n_src n_left [] = []
pack n_src n_left (p ∷ ps) =
    let n_char = n_src % 8 in
    let first = pack (n_src + 1) p ps in
    let later = bit_or (u8 (p * 2 ^ (8 - n_char))) n_left ∷ pack (n_src + 1) (p / 2 ^ n_char) ps in
    if n_char == 0 then first else later

-- The octets, and what goes through `pUDLen`. `tmp` has room for 320 septets; `none` is a write
-- past it.
unfoldable pub gsm_encode7bit : List ℕ → Option (List ℕ × ℕ)
unfolding septets pack
gsm_encode7bit src =
    let tmp = septets src in
    if leb (length tmp) 320 then some (pack 0 0 tmp, u8 (length tmp + 255)) else none

-- The loop of `gsm_to8Bit` over the octets that are left, `in[inputOffset..len)`, with the octet
-- before them. Two rounds consume an octet at least, so twice the length is fuel enough. A mask of
-- `7 - i` bits is empty for `i = 8`.
unfoldable pub unpack : ℕ → ℕ → ℕ → List ℕ → List ℕ
unpack zero i prev rest = []
unpack (suc fuel) i prev [] = []
unpack (suc fuel) i prev (b ∷ bs) = elim (i == 8) [
  | true ↦ bit_and prev 127 ∷ unpack fuel 1 prev (b ∷ bs)
  | false ↦
      bit_or (u8 (bit_and b (2 ^ (7 - i) - 1) * 2 ^ i)) (prev / 2 ^ (8 - i))
      ∷ unpack fuel (i + 1) b bs
]

-- What the escape is followed by in the extension table, 0 for the others.
unfoldable pub extended : ℕ → ℕ
extended s =
    if s == 0x0a
    then 0x0c
    else (if s == 0x14
        then 0x5e
        else (if s == 0x28
            then 0x7b
            else (if s == 0x29
                then 0x7d
                else (if s == 0x2f
                    then 0x5c
                    else (if s == 0x3c
                        then 0x5b
                        else (if s == 0x3d
                            then 0x7e
                            else (if s == 0x3e then 0x5d else (if s == 0x40 then 0x7c else 0))))))))

abbrev pub not_zero : ℕ → Bool
not_zero n = ltb 0 n

-- The second loop over `tmp[j..len)`. The escape as the last septet, and one before a septet that
-- has no entry, are looked up in the table as they are.
unfoldable pub to_ascii : List ℕ → List ℕ
unfolding extended
to_ascii [] = []
to_ascii (s ∷ []) = (if ltb s 128 then get_or eq_7bit2ascii s 0 else s) ∷ []
to_ascii (s ∷ t ∷ tmp) =
    let plain = to_ascii (t ∷ tmp) in
    let after = to_ascii tmp in
    if ltb s 128
    then (if s == 0x1b && not_zero (extended t)
        then extended t ∷ after
        else get_or eq_7bit2ascii s 0 ∷ plain)
    else s ∷ plain

-- The text of `len` septets. `tmp` has 320 bytes, zero at first; `in[-1]`, which the first round
-- reads and shifts out, is taken for 0.
unfoldable pub gsm_to8bit : List ℕ → ℕ → List ℕ
unfolding unpack to_ascii
gsm_to8bit input len =
    to_ascii (take len (unpack (2 * len) 0 0 (take len input) ++ replicate 320 0))
