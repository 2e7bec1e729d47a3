-- ===== src/Sms/Cstring.antt =====
-- What the code uses of the C library on text: `atoi`, `%d`, and the text of a byte array.
use chan_extra.Prelude.{
  ℕ, zero, suc, ◌+◌, ◌-◌, ◌*◌, ◌/◌, ◌%◌, ◌^◌, ◌≡◌, refl, Bool, ◌&&◌, ◌||◌, List, [], ◌∷◌, ltb, leb,
  ◌==◌, if◌then◌else◌, All, arith, ◌<◌,
}
use chan_extra.Sms.Number.{is_digit}

-- The text up to the first NUL.
unfoldable pub c_string : List ℕ → List ℕ
c_string [] = []
c_string (c ∷ text) = if c == 0 then [] else c ∷ c_string text

unfoldable pub digits_value : ℕ → List ℕ → ℕ
digits_value acc [] = acc
digits_value acc (c ∷ text) =
    let rest = digits_value (acc * 10 + (c - b'0')) text in if is_digit c then rest else acc

abbrev is_space : ℕ → Bool
is_space c = c == 32 || leb 9 c && leb c 13

-- `atoi` as the bit pattern of an `int`.
unfoldable pub atoi : List ℕ → ℕ
unfolding digits_value is_digit
atoi [] = 0
atoi (c ∷ text) =
    let rest = atoi text in
    if is_space c
    then rest
    else (if c == b'-'
        then (2 ^ 32 - digits_value 0 text % 2 ^ 32) % 2 ^ 32
        else (if c == b'+'
            then digits_value 0 text % 2 ^ 32
            else digits_value 0 (c ∷ text) % 2 ^ 32))

-- Decimal digits; 20 of them are enough for what a word holds.
unfoldable pub decimal_loop : ℕ → ℕ → List ℕ → List ℕ
decimal_loop zero n acc = acc
decimal_loop (suc f) n acc =
    let acc' = (b'0' + n % 10) ∷ acc in
    let rest = decimal_loop f (n / 10) acc' in if ltb n 10 then acc' else rest

unfoldable pub decimal : ℕ → List ℕ
unfolding decimal_loop
decimal n = decimal_loop 20 n []

-- `%d` of the quotient of an `int`, given as its bit pattern, by 4.
unfoldable pub quarter : ℕ → List ℕ
unfolding decimal
quarter w =
    if ltb w (2 ^ 31)
    then decimal (w / 4)
    else (let q = (2 ^ 32 - w) / 4 in if q == 0 then decimal 0 else b'-' ∷ decimal q)

pub c_string_lem : (text : List ℕ) → All (λ c. 0 < c) text → c_string text ≡ text
unfolding c_string
c_string_lem [] h = refl
c_string_lem (c ∷ text) h = ground (arith, c_string_lem text h.1)
