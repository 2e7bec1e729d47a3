-- ===== src/Sms/Event/Texts.antt =====
-- From the text that one module packs to the text that another reports.
use chan_extra.Prelude.{
  ℕ, ◌≤◌, ◌<◌, ◌≡◌, ◌≢◌, refl, true, List, [], ◌∷◌, ◌++◌, arith, ltb, length, All, IsByte,
}
use chan_extra.Sms.Septet.{septets, gsm_to8bit}
use chan_extra.Sms.Deliver.Roundtrip.{Message, deliver_text, shown, smsc_address}
use chan_extra.Sms.Charset.{Iconv}
use chan_extra.Sms.Event.{SmsReceived, done, gsm_pdu2sm_event}
use chan_extra.Sms.Event.Fields.{IsPlain, event_plain}

-- What the packing of a text gives, and what comes back of its octets in zeros.
record IsPacked (text octets : List ℕ) (n : ℕ) : Type 0 where
  count : n ≡ length (septets text)
  short : length octets ≤ n
  bytes : All IsByte octets
  back : (pad : List ℕ) → All IsByte pad → n ≤ length pad → gsm_to8bit (octets ++ pad) n ≡ text

smsc_address_some :
    (type : ℕ) (d : List ℕ)
    → d ≢ []
    → (ltb 0 (smsc_address type d).len ≡ true) × ((smsc_address type d).number ≡ shown type d)
smsc_address_some type [] h = absurd (h refl)
smsc_address_some type (c ∷ d) h = (ground arith, refl)

module _ (iconv : Iconv) (coding : List ℕ) (ev : SmsReceived) (m : Message) where
  -- A plain message of fewer than 160 units that comes without a service centre is reported without
  -- its sender.
  pub event_sender_lost :
      IsPlain m
      → m.udl < 160
      → m.smsc ≡ []
      → (e : SmsReceived) × (gsm_pdu2sm_event iconv coding ev (deliver_text m) ≡ done e)
        × (e.sender ≡ [])
  event_sender_lost v short centre =
      let (buf, fine, _) = event_plain iconv coding ev m v short in (_, fine, rw centre)

  -- A plain message of fewer than 160 units with a service centre is reported with its sender and
  -- its service centre.
  event_sender :
      IsPlain m
      → m.udl < 160
      → m.smsc ≢ []
      → (e : SmsReceived) × (gsm_pdu2sm_event iconv coding ev (deliver_text m) ≡ done e)
        × (e.sender ≡ shown m.oa_type m.oa)
        × (e.smsc ≡ shown m.smsc_type m.smsc)
  event_sender v short centre =
      let (buf, fine, _) = event_plain iconv coding ev m v short in
      let (there, number) = smsc_address_some m.smsc_type m.smsc centre in
      (_, fine, rw there, rw (there, number))
