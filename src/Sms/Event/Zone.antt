-- ===== src/Sms/Event/Zone.antt =====
-- The time zone of a received message.
use chan_extra.Prelude.{
  ℕ, ◌+◌, ◌-◌, ◌*◌, ◌/◌, ◌^◌, ◌≤◌, ◌<◌, ◌≡◌, refl, true, List, [], ◌∷◌, arith, bit_and, ltb, ◌==◌,
  get_or, all_below, all_below_sound,
}
use chan_extra.Sms.Number.{is_digit}
use chan_extra.Sms.Number.Laws.{IsDigit}
use chan_extra.Sms.Cstring.{c_string, c_string_lem, digits_value, atoi, decimal, quarter}
use chan_extra.Sms.Event.{gmt, format_tz, format_time_for_pdu}

atoi_two : (a b : ℕ) → IsDigit a → IsDigit b → atoi (a ∷ b ∷ []) ≡ (a - b'0') * 10 + (b - b'0')
unfolding atoi digits_value is_digit
atoi_two a b ha hb = ground arith

positive_table : all_below 100 (λ tz. bit_and tz 0x80 == 0) ≡ true
unfolding all_below
positive_table = refl

-- A time zone of two digits, whatever they are, is shown as "GMT+" and the quotient by 4 of the
-- number that the digits are.
pub format_time_for_pdu-gmt :
    (org : List ℕ)
    → IsDigit (get_or org 12 0)
    → IsDigit (get_or org 13 0)
    → (format_time_for_pdu org).1
      ≡ gmt b'+' (decimal (((get_or org 12 0 - b'0') * 10 + (get_or org 13 0 - b'0')) / 4))
unfolding format_time_for_pdu format_tz quarter
format_time_for_pdu-gmt org ha hb =
    let a = get_or org 12 0 in
    let b = get_or org 13 0 in
    let tz = (a - b'0') * 10 + (b - b'0') in
    let la : (48 ≤ a) × (a ≤ 57) = unfold is_digit in (ground arith, ground arith) in
    let lb : (48 ≤ b) × (b ≤ 57) = unfold is_digit in (ground arith, ground arith) in
    let text : c_string (a ∷ b ∷ []) ≡ a ∷ b ∷ [] =
      c_string_lem (a ∷ b ∷ []) (omega arith, (omega arith, tt)) in
    let low : tz < 100 = omega arith in
    let positive : (bit_and tz 0x80 == 0) ≡ true = all_below_sound 100 _ tz positive_table low in
    let word : ltb tz (2 ^ 31) ≡ true = ground arith in
    rw (text, atoi_two a b ha hb, positive, word) refl
