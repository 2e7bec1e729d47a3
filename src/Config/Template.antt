-- ===== src/Config/Template.antt =====
-- Templates of commands: `str_check_symbol`, `str_replace` and the expansions of
-- src/libgsmat/gsm_config.c that `get_dial_str` and the functions after it share. A text has no NUL.
pub mod Laws
use chan_extra.Prelude.{
  ℕ, zero, suc, ◌+◌, ◌-◌, Bool, true, false, not, ◌&&◌, ◌||◌, Option, none, some, List, [], ◌∷◌,
  ◌++◌, ltb, leb, ◌==◌, if◌then◌else◌, length, take, drop, bind,
}
use chan_extra.Sms.Submit.{is_prefix}
use chan_extra.Sms.Cstring.{decimal}
use chan_extra.Config.Commands.{codes}

-- `strcmp`.
unfoldable pub text_eq : List ℕ → List ℕ → Bool
text_eq [] [] = true
text_eq [] (d ∷ other) = false
text_eq (c ∷ text) [] = false
text_eq (c ∷ text) (d ∷ other) = c == d && text_eq text other

-- The loop with `n` octets written, of a buffer of `len`: a percent sign is doubled.
unfoldable pub check_loop : ℕ → ℕ → List ℕ → List ℕ
check_loop len n [] = []
check_loop len n (c ∷ src) =
    let double = c ∷ c ∷ check_loop len (n + 2) src in
    let single = c ∷ check_loop len (n + 1) src in
    if ltb (n + 1) len then (if c == b'%' then double else single) else []

-- `none` is the NUL written past the end of the buffer.
unfoldable pub str_check_symbol : List ℕ → ℕ → Option (List ℕ)
unfolding check_loop
str_check_symbol src len =
    let out = check_loop len 0 src in if ltb (length out) len then some out else none

-- `strstr`: the text before the first occurrence, and the text after it.
unfoldable pub find_text : List ℕ → List ℕ → Option (List ℕ × List ℕ)
unfolding is_prefix
find_text old [] = if length old == 0 then some ([], []) else none
find_text old (c ∷ text) =
    let rest = find_text old text in
    if is_prefix old (c ∷ text)
    then some ([], drop (length old) (c ∷ text))
    else elim rest [ none ↦ none | some found ↦ some (c ∷ found.0, found.1) ]

-- The rounds of the loop: the search starts over in the text that the last round leaves. A text
-- that does not fit in `buf` loses its NUL: `none`, as when the rounds run out.
unfoldable pub replace_loop : ℕ → ℕ → List ℕ → List ℕ → List ℕ → Option (List ℕ)
unfolding find_text
replace_loop zero len text old new = none
replace_loop (suc f) len text old new = elim (find_text old text) [
  | none ↦ some text
  | some found ↦
      let text' = found.0 ++ (new ++ found.1) in
      let rest = replace_loop f len text' old new in if ltb (length text') len then rest else none
]

-- The pattern is not the empty text. A text that is not below `len` has no room in `buf`.
-- `unchanged` is the return of NULL, when the two texts are the same.
pub data Replaced : Type 0 where
  unchanged undefined : Replaced
  replaced : List ℕ → Replaced

unfoldable pub str_replace : List ℕ → ℕ → List ℕ → List ℕ → Replaced
unfolding text_eq replace_loop
str_replace src len old new =
    if text_eq old new
    then unchanged
    else (if ltb (length src) len
        then elim (replace_loop (length src + 1) len src old new) [
          | none ↦ undefined
          | some text ↦ replaced text
        ]
        else undefined)

-- What `snprintf` writes for a format with one argument, of `%s`, `%d` or `%c`, whose text is
-- `arg`. `none` is a second conversion, which reads an argument that is not given, and any other
-- one, which the templates do not make. `pending` tells that a percent sign has been read, `used`
-- that the argument has been taken.
unfoldable pub print_loop : Bool → Bool → List ℕ → List ℕ → Option (List ℕ)
print_loop pending used arg [] = if pending then none else some []
print_loop pending used arg (c ∷ format) =
    let plain = print_loop false used arg format in
    let sign = print_loop true used arg format in
    let taken = print_loop false true arg format in
    if pending
    then (if c == b'%'
        then bind plain (λ text. some (b'%' ∷ text))
        else if not used && (c == b's' || (c == b'd' || c == b'c'))
        then bind taken (λ text. some (arg ++ text))
        else none)
    else if c == b'%'
    then sign
    else bind plain (λ text. some (c ∷ text))

-- The result of `get_dial_str` and its like: `no_buffer` is the return of NULL.
pub data Expanded : Type 0 where
  no_buffer undefined_text : Expanded
  expanded : List ℕ → Expanded

-- What these functions share: `template` is what `get_at` returns, `old` the name in it, `format`
-- its conversion, `arg` the text of the argument and `len` the size of the caller's buffer.
unfoldable pub expand : List ℕ → List ℕ → List ℕ → List ℕ → ℕ → Expanded
unfolding str_check_symbol str_replace print_loop
expand template old format arg len = elim (str_check_symbol template 1024) [
  | none ↦ undefined_text
  | some temp ↦ elim (str_replace temp 1024 old format) [
    | unchanged ↦ no_buffer
    | undefined ↦ undefined_text
    | replaced temp' ↦ elim (print_loop false false arg temp') [
      | none ↦ undefined_text
      | some text ↦ expanded (take (len - 1) text)
    ]
  ]
]

-- The functions, on the template that the configuration has for the command.
unfoldable pub get_dial_str : List ℕ → List ℕ → ℕ → Expanded
unfolding expand
get_dial_str template number len = expand template (codes "$D_NUMBER") (codes "%s") number len

unfoldable pub get_ussd_str : List ℕ → List ℕ → ℕ → Expanded
unfolding expand
get_ussd_str template ussd_code len =
    expand template (codes "$USSD_CODE") (codes "%s") ussd_code len

unfoldable pub get_pin_str : List ℕ → List ℕ → ℕ → Expanded
unfolding expand
get_pin_str template pin len = expand template (codes "$PIN_NUMBER") (codes "%s") pin len

-- A digit of 0 would end the text: it is not given.
unfoldable pub get_dtmf_str : List ℕ → ℕ → ℕ → Expanded
unfolding expand
get_dtmf_str template digit len = expand template (codes "$DTMF") (codes "%c") (digit ∷ []) len

unfoldable pub get_sms_len : List ℕ → ℕ → ℕ → Expanded
unfolding expand
get_sms_len template sms_len len =
    expand template (codes "$SMS_LEN") (codes "%d") (decimal sms_len) len

unfoldable pub get_sms_des : List ℕ → List ℕ → ℕ → Expanded
unfolding expand
get_sms_des template des len = expand template (codes "$SMS_DES") (codes "%s") des len
