-- ===== src/Sms/Tests.antt =====
-- The messages on short examples.
use chan_extra.Prelude.{
  ℕ, ◌+◌, ◌-◌, ◌*◌, ◌/◌, ◌≤◌, ◌<◌, ◌≡◌, refl, true, none, some, List, [], ◌∷◌, ◌++◌, arith, All,
  length, take, drop, if◌then◌else◌,
}
use chan_extra.Sms.Hex.{gsm_bytes2string}
use chan_extra.Sms.Number.{gsm_dso2string, gsm_invert_numbers, is_digit, gsm_is_valid_number}
use chan_extra.Sms.Septet.{gsm_encode7bit}
use chan_extra.Sms.Deliver.{gsm_decode_pdu}
use chan_extra.Sms.Deliver.Roundtrip.{
  Message, IsMessage, hex, deliver_text, decoded, decode_pdu-deliver_text,
}
use chan_extra.Sms.Charset.{Iconv, my_utf8_to_unicode}
use chan_extra.Sms.Charset.Unicode.{utf8, ucs2, encode, utf8_to_unicode-encode}
use chan_extra.Sms.Submit.{
  sca_text, tpa_text, gsm_encode_pdu, gsm_forward_pdu, is_zero_text, pdu_get_send_number,
}
use chan_extra.Sms.Submit.Laws.{address_type, send_number-encode_pdu_smsc}
use chan_extra.Sms.Submit.Forward.{forward_pdu-deliver_text}
use chan_extra.Sms.Event.{SmsReceived, sms_unknown, fault, done, gsm_pdu2sm_event}
use chan_extra.Sms.Cstring.{decimal}
use chan_extra.Sms.Event.{gmt, format_time_for_pdu}
use chan_extra.Sms.Event.Zone.{format_time_for_pdu-gmt}
use chan_extra.Sms.Event.Fields.{IsPlain, event_full}
use chan_extra.Sms.Event.Texts.{event_sender_lost}

utf8_to_unicode-encode_example :
    my_utf8_to_unicode (encode utf8 (0x41 ∷ 0xe9 ∷ 0x4f60 ∷ []))
    ≡ encode ucs2 (0x41 ∷ 0xe9 ∷ 0x4f60 ∷ [])
utf8_to_unicode-encode_example = utf8_to_unicode-encode (0x41 ∷ 0xe9 ∷ 0x4f60 ∷ []) (ground arith)

-- "Hi", packed, from 1234567 over the centre 8613, and without a centre.
abbrev message : List ℕ → List ℕ → ℕ → Message
message smsc ud udl = record {
  smsc_type = 0x91;
  smsc = smsc;
  first_octet = 4;
  oa_type = 0x81;
  oa = b'1' ∷ b'2' ∷ b'3' ∷ b'4' ∷ b'5' ∷ b'6' ∷ b'7' ∷ [];
  pid = 0;
  dcs = 0;
  scts =
      b'1' ∷ b'2' ∷ b'0' ∷ b'5' ∷ b'2' ∷ b'8' ∷ b'1' ∷ b'7' ∷ b'0' ∷ b'0' ∷ b'5' ∷ b'9' ∷ b'3'
      ∷ b'2' ∷ [];
  udl = udl;
  ud = ud;
}

abbrev centre : List ℕ
centre = b'8' ∷ b'6' ∷ b'1' ∷ b'3' ∷ []

abbrev packed_hi : List ℕ
packed_hi = 0xc8 ∷ 0x34 ∷ []

message-IsMessage :
    (smsc : List ℕ) (ud : List ℕ) (udl : ℕ)
    → All (λ c. is_digit c ≡ true) smsc
    → length smsc ≤ 30
    → udl < 256
    → IsMessage (message smsc ud udl)
unfolding is_digit
message-IsMessage smsc ud udl h k l = record {
  smsc_digits = h;
  smsc_short = k;
  smsc_byte = omega arith;
  first_byte = omega arith;
  oa_digits = (refl, (refl, (refl, (refl, (refl, (refl, (refl, tt)))))));
  oa_some = omega arith;
  oa_short = omega arith;
  oa_byte = omega arith;
  pid_byte = omega arith;
  dcs_byte = omega arith;
  scts_digits = ground arith;
  scts_full = refl;
  udl_byte = l;
}

abbrev iconv : Iconv
iconv to from text n = none

abbrev no_event : SmsReceived
no_event = record {
  mode = sms_unknown;
  pdu = [];
  sender = [];
  smsc = [];
  time = [];
  tz = [];
  len = 0;
  text = [];
}

abbrev hi : List ℕ → Message
hi smsc = message smsc (gsm_bytes2string packed_hi) 2

abbrev long_message : Message
long_message = message centre (gsm_bytes2string packed_hi) 160

hi-IsPlain :
    (smsc : List ℕ) (udl : ℕ)
    → All (λ c. is_digit c ≡ true) smsc
    → length smsc ≤ 30
    → udl < 256
    → length (deliver_text (message smsc (gsm_bytes2string packed_hi) udl)) ≤ 1024
    → IsPlain (message smsc (gsm_bytes2string packed_hi) udl)
hi-IsPlain smsc udl h k l fits = record {
  format = message-IsMessage smsc (gsm_bytes2string packed_hi) udl h k l;
  fits = fits;
  no_header = refl;
}

decode_pdu-deliver_text_example :
    gsm_decode_pdu (deliver_text (hi centre)) ≡ some (decoded (hi centre))
unfolding is_digit
decode_pdu-deliver_text_example = decode_pdu-deliver_text (hi centre) (
    message-IsMessage centre (gsm_bytes2string packed_hi) 2 (refl, (refl, (refl, (refl, tt))))
      (omega arith) (omega arith))

forward_pdu-deliver_text_example :
    gsm_forward_pdu (deliver_text (hi centre)) (b'1' ∷ b'2' ∷ []) (b'0' ∷ [])
    ≡ sca_text (if is_zero_text (b'0' ∷ []) then [] else b'0' ∷ [])
      ++ (tpa_text (b'1' ∷ b'2' ∷ [])
          ++ (hex 0 ++ (hex 0 ++ (b'0' ∷ b'0' ∷ (hex 2 ++ gsm_bytes2string packed_hi)))))
unfolding is_digit
forward_pdu-deliver_text_example =
    forward_pdu-deliver_text (hi centre) (b'1' ∷ b'2' ∷ []) (b'0' ∷ []) (
      message-IsMessage centre (gsm_bytes2string packed_hi) 2 (refl, (refl, (refl, (refl, tt))))
        (omega arith) (omega arith))

event_sender_lost_example :
    (e : SmsReceived) × (gsm_pdu2sm_event iconv [] no_event (deliver_text (hi [])) ≡ done e)
    × (e.sender ≡ [])
unfolding gsm_bytes2string gsm_invert_numbers
event_sender_lost_example =
    event_sender_lost iconv [] no_event (hi [])
      (hi-IsPlain [] 2 tt (omega arith) (omega arith) (omega arith)) (omega arith) refl

event_full_example : gsm_pdu2sm_event iconv [] no_event (deliver_text long_message) ≡ fault
unfolding is_digit gsm_bytes2string gsm_invert_numbers
event_full_example =
    event_full iconv [] no_event long_message
      (hi-IsPlain centre 160 (refl, (refl, (refl, (refl, tt)))) (omega arith) (omega arith)
        (omega arith))
      (omega arith)

abbrev number : List ℕ
number = b'1' ∷ b'2' ∷ b'3' ∷ b'4' ∷ []

-- "Hi" to the number 1234, over a centre or without.
abbrev sent : List ℕ → List ℕ
sent sca = sca_text sca ++ (tpa_text number ++ gsm_bytes2string (0 ∷ 0 ∷ 0 ∷ 2 ∷ packed_hi))

send_number-encode_pdu_smsc_example :
    (body : List ℕ) × (sent centre ≡ sca_text centre ++ (tpa_text number ++ body))
    × (pdu_get_send_number (sent centre)
        ≡ gsm_dso2string
            (take (address_type number + 1) (drop 2 (gsm_invert_numbers number ++ body))))
unfolding gsm_encode_pdu gsm_is_valid_number gsm_encode7bit
send_number-encode_pdu_smsc_example =
    send_number-encode_pdu_smsc b'8' (b'6' ∷ b'1' ∷ b'3' ∷ []) number 0 0 (b'H' ∷ b'i' ∷ [])
      (sent centre) (omega arith) refl

format_time_for_pdu-gmt_example :
    (format_time_for_pdu (hi centre).scts).1
    ≡ gmt b'+' (decimal (((b'3' - b'0') * 10 + (b'2' - b'0')) / 4))
unfolding is_digit
format_time_for_pdu-gmt_example = format_time_for_pdu-gmt (hi centre).scts refl refl
