-- ===== src/Sms/Event/Fields.antt =====
-- The event of a message in the format of the standard.
use chan_extra.Prelude.{
  ℕ, ◌-◌, ◌*◌, ◌≤◌, ◌<◌, ◌≡◌, ◌∙◌, false, List, [], arith, bit_and, ltb, if◌then◌else◌, take,
  length, take_all, length-replicate, replicate,
}
use chan_extra.Sms.Hex.Laws.{bytes_of, gsm_string2byte_lem, gsm_string2byte_fault}
use chan_extra.Sms.Deliver.Roundtrip.{
  Message, IsMessage, deliver_text, decoded, decode_pdu-deliver_text, shown,
}
use chan_extra.Sms.Charset.{Iconv}
use chan_extra.Sms.Cstring.{atoi}
use chan_extra.Sms.Event.{
  SmsReceived, sms_pdu, fault, done, pair, format_time, format_tz, format_time_for_pdu,
  text_and_len, header_len, event_from, event_of, gsm_pdu2sm_event,
}

-- A message of the format that fits the buffer of 1024 bytes and has no user data header.
pub record IsPlain (m : Message) : Type 0 where
  pub format : IsMessage m
  pub fits : length (deliver_text m) ≤ 1024
  pub no_header : bit_and m.first_octet 0x40 ≡ 0

module _ (iconv : Iconv) (coding : List ℕ) (ev : SmsReceived) (m : Message) (v : IsPlain m) where
  event-decoded :
      gsm_pdu2sm_event iconv coding ev (deliver_text m)
      ≡ event_of iconv coding (record ev { pdu = take 512 (deliver_text m) }) (decoded m)
  unfolding gsm_pdu2sm_event
  event-decoded =
      rw (
        take_all 1024 (deliver_text m) v.fits,
        decode_pdu-deliver_text m v.format,
        gsm_pdu2sm_event,
      )

  -- What an event takes from a message, where `buf` has the bytes of the user data.
  abbrev event_with : List ℕ → SmsReceived
  event_with buf =
      let (text, len) = text_and_len iconv coding (decoded m) m.udl buf in
      record {
        mode = sms_pdu;
        pdu = take 512 (deliver_text m);
        sender = if ltb 0 (decoded m).smsc.len then shown m.oa_type m.oa else [];
        smsc = if ltb 0 (decoded m).smsc.len then (decoded m).smsc.number else [];
        time = format_time m.scts;
        tz = format_tz (atoi (pair m.scts 6));
        len = len;
        text = text;
      }

  no_header_len : header_len (decoded m) ≡ 0
  unfolding header_len
  no_header_len = rw v.no_header

  event-from :
      gsm_pdu2sm_event iconv coding ev (deliver_text m)
      ≡ event_from iconv coding
          (record ev { pdu = take 512 (deliver_text m) })
          (decoded m)
          (take 320 m.ud)
          m.udl
  unfolding event_of
  event-from =
      let whole : m.udl - 0 ≡ m.udl = omega arith in
      let inside : ltb m.udl 0 ≡ false = ground arith in
      event-decoded ∙ rw (no_header_len, event_of) (rw (inside, whole))

  -- With fewer than 160 units of user data, the message is reported, with its bytes read in full.
  pub event_plain :
      m.udl < 160
      → (buf : List ℕ) × (gsm_pdu2sm_event iconv coding ev (deliver_text m) ≡ done (event_with buf))
        × (take m.udl buf ≡ bytes_of (take 320 m.ud) m.udl)
  unfolding event_from format_time_for_pdu
  event_plain short =
      let room : 2 * m.udl < length (replicate {A = ℕ} 320 0) =
        omega (arith, length-replicate {A = ℕ} 320 0) in
      let (buf, fine, bytes, _) =
        gsm_string2byte_lem (replicate 320 0) (take 320 m.ud) m.udl room in
      (buf, event-from ∙ rw (fine, event_from), bytes)

  -- With 160 units or more, the length of a full message of seven-bit characters, the event of a
  -- plain message is a write past the array of the user data.
  pub event_full : 160 ≤ m.udl → gsm_pdu2sm_event iconv coding ev (deliver_text m) ≡ fault
  unfolding event_from
  event_full long =
      let room : length (replicate {A = ℕ} 320 0) ≤ 2 * m.udl =
        omega (arith, length-replicate {A = ℕ} 320 0) in
      event-from
      ∙ rw (gsm_string2byte_fault (replicate 320 0) (take 320 m.ud) m.udl room, event_from)
