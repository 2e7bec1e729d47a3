-- ===== src/Sms/Event.antt =====
-- The event of a received message: `format_time_for_pdu` and `gsm_pdu2sm_event` of
-- src/libgsmat/gsm_sms.c, on the union member `gsm_event_sms_received` of src/libgsmat/libgsmat.h.
-- The messages of the debug mode are left out.
pub mod Fields
pub mod Texts
pub mod Zone
use chan_extra.Prelude.{
  ℕ, ◌+◌, ◌-◌, ◌*◌, ◌/◌, Bool, true, false, not, Option, none, some, List, [], ◌∷◌, ◌++◌, bit_and,
  ltb, leb, ◌==◌, if◌then◌else◌, get_or, take, drop, length, replicate,
}
use chan_extra.Sms.Hex.{gsm_hex2int, gsm_string2byte}
use chan_extra.Sms.Septet.{gsm_to8bit}
use chan_extra.Sms.Deliver.{PduInfo, gsm_decode_pdu}
use chan_extra.Sms.Charset.{Iconv, sms_get_str}
use chan_extra.Sms.Cstring.{c_string, atoi, decimal, quarter}

-- `enum sms_mode`.
pub data SmsMode : Type 0 where
  sms_unknown sms_pdu sms_text : SmsMode

pub record SmsReceived : Type 0 where
  pub mode : SmsMode
  pub pdu : List ℕ
  pub sender : List ℕ
  pub smsc : List ℕ
  pub time : List ℕ
  pub tz : List ℕ
  pub len : ℕ
  pub text : List ℕ

-- `fault` is an access out of the bounds of an array; `failed` the return of -1. Both returns
-- leave an event.
pub data Outcome : Type 0 where
  fault : Outcome
  failed : SmsReceived → Outcome
  done : SmsReceived → Outcome

-- `tmp[i]`.
abbrev pub pair : List ℕ → ℕ → List ℕ
pair org i = c_string (get_or org (2 * i) 0 ∷ get_or org (2 * i + 1) 0 ∷ [])

unfoldable pub format_time : List ℕ → List ℕ
format_time org =
    b'2' ∷ b'0' ∷ pair org 0
    ++ (b'/' ∷ pair org 1
        ++ (b'/' ∷ pair org 2 ++ (b' ' ∷ pair org 3 ++ (b':' ∷ pair org 4 ++ (b':' ∷ pair org 5)))))

-- "GMT" and the sign.
abbrev pub gmt : ℕ → List ℕ → List ℕ
gmt sign rest = b'G' ∷ b'M' ∷ b'T' ∷ sign ∷ rest

-- The time zone of the value `tz`, in quarters of an hour.
unfoldable pub format_tz : ℕ → List ℕ
unfolding decimal quarter
format_tz tz =
    if not (bit_and tz 0x80 == 0)
    then gmt b'-' (decimal (bit_and tz 0x7f / 4))
    else gmt b'+' (quarter tz)

-- The two texts that the function writes; both fit their arrays.
unfoldable pub format_time_for_pdu : List ℕ → List ℕ × List ℕ
unfolding format_time format_tz atoi
format_time_for_pdu org = (format_time org, format_tz (atoi (pair org 6)))

-- The octets of the user data header, its length octet counted.
unfoldable pub header_len : PduInfo → ℕ
header_len info =
    if not (bit_and info.first_octet 0x40 == 0) then gsm_hex2int info.tp_ud 2 + 1 else 0

module _ (iconv : Iconv) (sms_text_coding : List ℕ) where
  -- The text and the length, from the `n` bytes of the user data and their 8-bit form.
  unfoldable pub text_and_len : PduInfo → ℕ → List ℕ → List ℕ × ℕ
  unfolding sms_get_str
  text_and_len info n buf =
      if info.tp_udl == 0
      then ([], n)
      else (if info.tp_dcs == 0x08
          then (let (ret, out) = sms_get_str iconv sms_text_coding (take n buf) [] 1024 in
              (out, elim ret [ none ↦ n | some l ↦ if ltb 0 l then l else n ]))
          else (c_string (take n (gsm_to8bit buf n)), n))

  -- The event from the user data `ud` of `n` bytes after the header.
  unfoldable pub event_from : SmsReceived → PduInfo → List ℕ → ℕ → Outcome
  unfolding text_and_len format_time_for_pdu
  event_from ev info ud n = elim (gsm_string2byte (replicate 320 0) ud n) [
    | none ↦ fault
    | some buf ↦ done (record ev {
      mode = sms_pdu;
      sender = if ltb 0 info.smsc.len then info.tp_oa.number else [];
      smsc = if ltb 0 info.smsc.len then info.smsc.number else [];
      time = (format_time_for_pdu info.tp_scts).0;
      tz = (format_time_for_pdu info.tp_scts).1;
      len = (text_and_len info n buf).1;
      text = (text_and_len info n buf).0;
    })
  ]

  -- `tp_udl - header_len` is the number of bytes that `gsm_string2byte` is to write; a negative one
  -- puts its terminator before the array.
  unfoldable pub event_of : SmsReceived → PduInfo → Outcome
  unfolding event_from header_len
  event_of ev info =
      let h = header_len info in
      if ltb info.tp_udl h
      then fault
      else event_from ev info (drop (h * 2) info.tp_ud) (info.tp_udl - h)

  unfoldable pub gsm_pdu2sm_event : SmsReceived → List ℕ → Outcome
  unfolding event_of
  gsm_pdu2sm_event ev text =
      let ev' = record ev { pdu = take 512 text } in
      elim (gsm_decode_pdu (take 1024 text)) [ none ↦ failed ev' | some info ↦ event_of ev' info ]
