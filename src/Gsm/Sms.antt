-- ===== src/Gsm/Sms.antt =====
-- Messages over a module: `module_check_sms` of src/libgsmat/gsm_module.c.
pub mod Dialogue
use chan_extra.Prelude.{
  ℕ, zero, suc, ◌+◌, ◌-◌, ◌*◌, ◌/◌, ◌%◌, ◌^◌, Bool, true, false, not, ◌&&◌, ◌||◌, Option, none,
  some, List, [], ◌∷◌, ◌++◌, ltb, leb, ◌==◌, if◌then◌else◌, take, drop, bind, length, set, get_or,
}
use chan_extra.Config.Commands.{
  at_check_sms, at_cme_error, at_cms_error, at_gsm, at_ok, at_send_sms_des, at_send_sms_len,
  at_send_sms_pdu_mode, at_send_sms_success, at_send_sms_text_mode, at_ucs2, codes,
}
use chan_extra.Config.Template.{Expanded, get_sms_des, get_sms_len}
use chan_extra.Sms.Cstring.{c_string}
use chan_extra.Sms.Event
use chan_extra.Sms.Event.{
  SmsMode, sms_unknown, sms_pdu, sms_text, SmsReceived, Outcome, gsm_pdu2sm_event,
}
use chan_extra.Sms.TextMode.{gsm_check_sms_mode, gsm_text2sm_event2, split_at}
use chan_extra.Gsm.Text.{gsm_compare, overwrite}
use chan_extra.Gsm.State.{
  EventId, ModuleState, gsm_event_sms_send_failed, gsm_event_sms_send_ok, gsm_state_ready,
  gsm_state_sms_sending, gsm_state_sms_sent, gsm_state_sms_sent_end,
}
use chan_extra.Gsm.Module.{
  Env, Event, Gsm, Result, SmsInfo, at, event, fault, gsm_send_at, gsm_switch_state, gsm_transmit,
  more, simple, sms_received, text_or_empty,
}
use chan_extra.Gsm.Start.{says}

-- Where `strstr` finds `\r\n`, counted from `i`.
unfoldable pub find_crlf : List ℕ → ℕ → Option ℕ
find_crlf [] i = none
find_crlf (c ∷ []) i = none
find_crlf (c ∷ d ∷ text) i =
    let rest = find_crlf (d ∷ text) (i + 1) in if c == b'\r' && d == b'\n' then some i else rest

-- Where the PDU starts in what was received: behind the first end of line after a comma.
unfoldable pub pdu_start : List ℕ → Option ℕ
unfolding split_at find_crlf
pdu_start text = elim (split_at text b',') [
  | none ↦ none
  | some parts ↦ elim (find_crlf parts.1 (length parts.0 + 1)) [
    | none ↦ none
    | some i ↦ some (i + 2)
  ]
]

unfoldable pub is_end : ℕ → Bool
is_end c = c == b'\r' || c == b'\n'

-- Where a text of `len` octets at `k` is cut: at its last octet but one, or its last.
unfoldable pub cut_at : List ℕ → ℕ → ℕ → ℕ
unfolding is_end
cut_at text k len =
    if is_end (get_or text (k + len - 2) 0)
    then k + len - 2
    else if is_end (get_or text (k + len - 1) 0)
    then k + len - 1
    else k + len

-- What is left of the text, and the PDU in it: where the cut comes before the PDU it has one octet
-- or none, which stay.
unfoldable pub cut_pdu : List ℕ → ℕ → List ℕ × List ℕ
unfolding cut_at
cut_pdu text k =
    let q = cut_at text k (length text - k) in
    (take q text, if ltb q k then drop k text else drop k (take q text))

module _ (env : Env) where
  -- A message in text mode, of which `info` is the head.
  unfoldable pub on_text_message : Gsm → List ℕ → List ℕ → Result
  unfolding gsm_text2sm_event2 overwrite
  on_text_message g info buf =
      let g' : Gsm = record g { sms_recv_buffer = overwrite g.at_last_recv g.sms_recv_buffer } in
      elim (gsm_text2sm_event2 g.sms_event info) [
        | Event.fault ↦ fault
        | Event.failed sms ↦ more (record g' { sms_event = sms }) buf
        | Event.done sms ↦
            event (record g' { sms_event = sms; ev = sms_received sms; at_last_recv = [] })
      ]

  -- The PDU, with what is left of what was received.
  unfoldable pub on_pdu : Gsm → List ℕ → List ℕ → List ℕ → Result
  unfolding gsm_pdu2sm_event
  on_pdu g left pdu buf =
      let g' : Gsm = record g { at_last_recv = left; at_pre_recv = []; sms_recv_buffer = [] } in
      elim (gsm_pdu2sm_event env.iconv env.sms_text_coding g.sms_event (take 1024 pdu)) [
        | Event.fault ↦ fault
        | Event.failed sms ↦ more (record g' { sms_event = sms }) buf
        | Event.done sms ↦
            event (record g' { sms_event = sms; ev = sms_received sms; at_last_recv = [] })
      ]

  -- Without a start in what was received the PDU is what the buffer still holds; one that is
  -- shorter than two octets is read before its start.
  unfoldable pub on_pdu_message : Gsm → List ℕ → Result
  unfolding pdu_start cut_pdu on_pdu c_string
  on_pdu_message g buf = elim (pdu_start g.at_last_recv) [
    | none ↦
        let held = c_string g.sms_recv_buffer in
        if ltb (length held) 2 then fault else on_pdu g g.at_last_recv (cut_pdu held 0).1 buf
    | some k ↦ on_pdu g (cut_pdu g.at_last_recv k).0 (cut_pdu g.at_last_recv k).1 buf
  ]

  -- The text of a command, or the empty one without the data for it.
  unfoldable pub sms_command : Option SmsInfo → (SmsInfo → Expanded) → Option (List ℕ)
  unfolding text_or_empty
  sms_command info f = elim info [ none ↦ some [] | some i ↦ text_or_empty (f i) ]

  -- An `OK` while a message is sent: the next command, by the last one.
  unfoldable pub on_sending_ok : Gsm → List ℕ → Result
  unfolding says gsm_send_at at sms_command get_sms_len get_sms_des
  on_sending_ok g buf =
      let asked = says env g g.at_last_sent in
      if asked at_send_sms_pdu_mode
      then more (gsm_send_at env g (at env g at_ucs2)) buf
      else if asked at_send_sms_text_mode
      then more (gsm_send_at env g (at env g at_gsm)) buf
      else if asked at_ucs2
      then elim (sms_command g.sms_info (λ i. get_sms_len (at env g at_send_sms_len) i.len 1024)) [
        | none ↦ fault
        | some text ↦ more (gsm_send_at env (record g { sms_mod_flag = sms_pdu }) text) buf
      ]
      else if asked at_gsm
      then elim (sms_command g.sms_info
          (λ i. get_sms_des (at env g at_send_sms_des) i.destination 1024)) [
            | none ↦ fault
            | some text ↦ more (gsm_send_at env (record g { sms_mod_flag = sms_text }) text) buf
          ]
      else more g buf

  -- The prompt: the message is sent, and what ends it.
  unfoldable pub send_message : Gsm → Gsm
  unfolding gsm_transmit gsm_switch_state
  send_message g =
      let g' = gsm_transmit env g g.sms_sent_buffer in
      gsm_switch_state env (record g' { sms_sent_buffer = 0x1a ∷ [] }) gsm_state_sms_sent
        (0x1a ∷ [])

  -- The message is over, with an event.
  unfoldable pub sms_over : Gsm → EventId → Result
  sms_over g e = event (record g { state = gsm_state_ready; ev = simple e })

  -- The switch on the state.
  unfoldable pub check_sending : ModuleState → Gsm → List ℕ → Result
  unfolding says gsm_send_at at gsm_compare on_sending_ok send_message sms_over gsm_switch_state
  check_sending gsm_state_ready g buf =
      if not (says env g buf at_ok)
      then more g buf
      else if says env g g.at_last_sent at_send_sms_pdu_mode
      then more (record (gsm_send_at env g (at env g at_ucs2)) { sms_mod_flag = sms_pdu }) buf
      else if says env g g.at_last_sent at_ucs2
      then more (record g { sms_mod_flag = sms_pdu }) buf
      else more g buf
  check_sending gsm_state_sms_sending g buf =
      if says env g buf at_ok
      then on_sending_ok g buf
      else if gsm_compare buf (codes "> ") || gsm_compare g.san.text (codes "> ")
      then more (send_message g) buf
      else if says env g buf at_cms_error || says env g buf at_cme_error
      then more (record g { sms_info = none; state = gsm_state_ready }) buf
      else more g buf
  check_sending gsm_state_sms_sent g buf =
      if says env g buf at_send_sms_success
      then elim g.sms_mod_flag [
        | sms_pdu ↦ sms_over g gsm_event_sms_send_ok
        | sms_text ↦
            more (gsm_switch_state env g gsm_state_sms_sent_end (at env g at_send_sms_pdu_mode)) buf
        | sms_unknown ↦
            more (gsm_switch_state env g gsm_state_sms_sent_end (at env g at_send_sms_pdu_mode)) buf
      ]
      else if says env g buf at_cms_error
      then sms_over g gsm_event_sms_send_failed
      else more g buf
  check_sending gsm_state_sms_sent_end g buf =
      sms_over g (if says env g buf at_ok then gsm_event_sms_send_ok else gsm_event_sms_send_failed)
  check_sending other g buf = more g buf

  -- The argument `i` is the number of the line, from 1.
  unfoldable pub module_check_sms : Gsm → List ℕ → ℕ → Result
  unfolding says gsm_check_sms_mode on_text_message on_pdu_message check_sending
  module_check_sms g buf i =
      let here = i == 2 && says env g g.at_last_recv at_check_sms in
      let before = i == 1 && says env g g.at_pre_recv at_check_sms in
      let info = if i == 2 then g.at_last_recv else g.at_pre_recv in
      if here || before
      then elim (gsm_check_sms_mode info) [
        | sms_text ↦ on_text_message g info buf
        | sms_pdu ↦ on_pdu_message g buf
        | sms_unknown ↦ check_sending g.state g buf
      ]
      else check_sending g.state g buf
