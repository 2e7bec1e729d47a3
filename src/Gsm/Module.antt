-- ===== src/Gsm/Module.antt =====
-- A module: `struct gsm_modul` of src/libgsmat/libgsmat.h, the writes to it of src/libgsmat/gsm.c,
-- and the functions of src/libgsmat/gsm_module.c and gsm.c that send it a command.
use chan_extra.Prelude.{
  ℕ, ◌+◌, Bool, true, false, Option, none, some, List, [], ◌∷◌, ◌++◌, ◌==◌, if◌then◌else◌, take,
  bind, map,
}
use chan_extra.Config.Commands.{
  AtId, index, at_check, at_atz, at_answer, at_hangup, at_dial, at_vts, at_send_ussd, at_send_pin,
  at_send_sms_text_mode, at_send_sms_pdu_mode, at_net_name,
}
use chan_extra.Config.Template.{
  Expanded, no_buffer, undefined_text, expanded, get_dial_str, get_ussd_str, get_pin_str,
  get_dtmf_str,
}
use chan_extra.Config.File.{CfgInfo, Value, null, undefined, value, get_at}
use chan_extra.Sms.Charset.{Iconv}
use chan_extra.Sms.Event.{SmsMode, SmsReceived}
use chan_extra.Sched.{Timeval}
use chan_extra.Gsm.San.{Sanbuf}
use chan_extra.Gsm.State.{
  EventId, ModuleState, gsm_event_check_phone, gsm_event_hangup, gsm_event_ring, gsm_event_ringing,
  gsm_event_sms_received, gsm_event_ussd_received, gsm_state_call_init, gsm_state_hangup_req,
  gsm_state_init, gsm_state_phone_check, gsm_state_pre_answer, gsm_state_ready,
  gsm_state_sim_pin_req, gsm_state_sms_sending, gsm_state_up, gsm_state_ussd_sending, rank,
}
use chan_extra.Gsm.Call.{Pool}

-- `gsm_event`, by what the code sets of its member: `hangup` has no channel where the code sets
-- none. A `call` in it is the call's reference.
pub data Event : Type 0 where
  simple : EventId → Event
  ring :
      (channel : Option ℕ) (cref : ℕ) (callingnum : List ℕ) (complete progress progressmask : ℕ)
      → Event
  ringing : (channel : Option ℕ) (cref progress progressmask : ℕ) → Event
  hangup : (channel : Option (Option ℕ)) (cause cref : ℕ) → Event
  answer : (e : EventId) (channel : Option ℕ) (cref : ℕ) → Event
  proceeding : (e : EventId) (channel : Option ℕ) (cref : ℕ) → Event
  sms_received : SmsReceived → Event
  ussd_received : (stat : ℕ) (text : List ℕ) (coding : ℕ) → Event
  check_phone : (info : ℕ) → Event

-- The member `e`.
unfoldable pub event_id : Event → EventId
event_id (simple e) = e
event_id (ring channel cref callingnum complete progress progressmask) = gsm_event_ring
event_id (ringing channel cref progress progressmask) = gsm_event_ringing
event_id (hangup channel cause cref) = gsm_event_hangup
event_id (answer e channel cref) = e
event_id (proceeding e channel cref) = e
event_id (sms_received sms) = gsm_event_sms_received
event_id (ussd_received stat text coding) = gsm_event_ussd_received
event_id (check_phone info) = gsm_event_check_phone

-- `sms_info_u`: the destination, and the length of a PDU, which is not negative.
pub record SmsInfo : Type 0 where
  pub destination : List ℕ
  pub message : List ℕ
  pub len : ℕ

-- The fields that the code sets or reads. `none` is a negative `switchtype`, `vol` or `mic`;
-- `coverage` is a bit pattern; `sim_smsc`, `net_name` and
-- `sms_recv_buffer` are arrays. `sms_event` is what the event's member for a message holds, which
-- the other members, in the same memory, are taken to leave alone. The index of `at_last_recv`
-- is its length. `sent` is what has been given to the write function, in order.
pub record Gsm : Type 0 where
  pub state : ModuleState
  pub sim_state : ModuleState
  pub switchtype : Option ℕ
  pub network : ℕ
  pub coverage : ℕ
  pub resetting : Bool
  pub already_set_mux_mode : Bool
  pub send_at : Bool
  pub auto_hangup_flag : Bool
  pub check_timeout : ℕ
  pub phone_stat : Option ℕ
  pub vol : Option ℕ
  pub mic : Option ℕ
  pub at_last_sent : List ℕ
  pub at_last_recv : List ℕ
  pub at_pre_recv : List ℕ
  pub manufacturer : List ℕ
  pub model_name : List ℕ
  pub revision : List ℕ
  pub imei : List ℕ
  pub imsi : List ℕ
  pub sim_smsc : List ℕ
  pub net_name : List ℕ
  pub sms_mod_flag : SmsMode
  pub sms_info : Option SmsInfo
  pub ussd_info : Option (List ℕ)
  pub sms_recv_buffer : List ℕ
  pub sms_sent_buffer : List ℕ
  pub ussd_sent_buffer : List ℕ
  pub san : Sanbuf
  pub pool : Pool
  pub ev : Event
  pub sms_event : SmsReceived
  pub sent : List (List ℕ)

-- What surrounds a module: the files of the configuration, whether the write function takes all
-- that it is given, the time in seconds and that of the scheduler, and the delay of
-- GSM_TIMER_T316. The two functions of `sscanf` are given a format and a text: the first number
-- that it reads, as a bit pattern that is -1 when there is none, and what is then in the buffer of
-- a caller's number, with whether it was read.
pub record Env : Type 0 where
  pub cfgs : List CfgInfo
  pub accepts : List ℕ → Bool
  pub now : ℕ
  pub clock : Timeval
  pub t316 : ℕ
  pub scan_number : List ℕ → List ℕ → ℕ
  pub scan_text : List ℕ → List ℕ → List ℕ × Bool
  pub iconv : Iconv
  pub sms_text_coding : List ℕ

-- The text of a value, empty where there is none. The number that `gsm_set_module_id` gives a
-- module is in the table of the files.
unfoldable pub value_text : Value → List ℕ
value_text null = []
value_text undefined = []
value_text (value text) = text

abbrev crlf : List ℕ
crlf = b'\r' ∷ b'\n' ∷ []

-- `refused` is the return of -1.
pub data Sending : Type 0 where
  undefined_command : Sending
  refused : Gsm → Sending
  sending : Gsm → Sending

-- The result is not looked at: without a text the buffer stays empty. `none` is undefined.
unfoldable pub text_or_empty : Expanded → Option (List ℕ)
text_or_empty no_buffer = some []
text_or_empty undefined_text = none
text_or_empty (expanded text) = some text

unfoldable pub is_ready : ModuleState → Bool
unfolding rank
is_ready state = rank state == rank gsm_state_ready

-- What one line leads to: a fault of the memory, a return of the event, a return of NULL, or the
-- code after the switch, with what is then in the line's buffer.
pub data Result : Type 0 where
  fault : Result
  event quiet : Gsm → Result
  more : Gsm → List ℕ → Result

-- What follows the switch, where it is reached.
unfoldable pub and_then : Result → (Gsm → List ℕ → Result) → Result
and_then fault f = fault
and_then (event g) f = event g
and_then (quiet g) f = quiet g
and_then (more g buf) f = f g buf

module _ (env : Env) where
  -- A command of the module.
  unfoldable pub at : Gsm → AtId → List ℕ
  unfolding value_text get_at index
  at g id = value_text (get_at env.cfgs g.switchtype (index id))

  -- What is written has two octets more than the text, which are left out.
  unfoldable pub gsm_transmit : Gsm → List ℕ → Gsm
  gsm_transmit g text =
      let g' : Gsm = record g { sent = g.sent ++ (text ∷ []) } in
      if env.accepts text then record g' { at_last_sent = take 1024 text } else g'

  unfoldable pub gsm_send_at : Gsm → List ℕ → Gsm
  unfolding gsm_transmit
  gsm_send_at g text = gsm_transmit g (text ++ crlf)

  -- `@` stands for a question mark; `true` is a return of 0.
  unfoldable pub gsm_test_atcommand : Gsm → List ℕ → Gsm × Bool
  unfolding gsm_send_at
  gsm_test_atcommand g text =
      let dbuf = map (λ c. if c == b'@' then b'?' else c) text in
      let g' = gsm_send_at g dbuf in
      if env.accepts (dbuf ++ crlf) then (record g' { send_at = true }, true) else (g', false)

  -- The command is sent in the new state; that it is not taken goes unseen.
  unfoldable pub gsm_switch_state : Gsm → ModuleState → List ℕ → Gsm
  unfolding gsm_send_at
  gsm_switch_state g state next_command = gsm_send_at (record g { state = state }) next_command

  unfoldable pub gsm_module_start : Gsm → Gsm
  unfolding gsm_switch_state at
  gsm_module_start g = gsm_switch_state g gsm_state_init (at g at_check)

  unfoldable pub module_start : Gsm → Gsm
  unfolding gsm_switch_state at
  module_start g = gsm_switch_state (record g { resetting = false }) gsm_state_init (at g at_check)

  unfoldable pub module_restart : Gsm → Gsm
  unfolding gsm_switch_state at
  module_restart g = gsm_switch_state (record g { resetting = true }) gsm_state_up (at g at_atz)

  unfoldable pub module_dial : Gsm → List ℕ → Option Gsm
  unfolding gsm_switch_state at text_or_empty
  module_dial g callednum =
      bind (text_or_empty (get_dial_str (at g at_dial) callednum 128))
        (λ buf. some (gsm_switch_state g gsm_state_call_init buf))

  unfoldable pub module_answer : Gsm → Gsm
  unfolding gsm_switch_state at
  module_answer g = gsm_switch_state g gsm_state_pre_answer (at g at_answer)

  unfoldable pub module_senddtmf : Gsm → ℕ → Option Gsm
  unfolding gsm_send_at at text_or_empty
  module_senddtmf g digit =
      bind (text_or_empty (get_dtmf_str (at g at_vts) digit 128)) (λ buf. some (gsm_send_at g buf))

  unfoldable pub module_hangup : Gsm → Gsm
  unfolding gsm_switch_state at
  module_hangup g = gsm_switch_state g gsm_state_hangup_req (at g at_hangup)

  unfoldable pub module_send_ussd : Gsm → List ℕ → Sending
  unfolding gsm_switch_state at text_or_empty is_ready
  module_send_ussd g message =
      if is_ready g.state
      then elim (text_or_empty (get_ussd_str (at g at_send_ussd) message 1024)) [
        | none ↦ undefined_command
        | some buf ↦ sending (
            gsm_switch_state (record g { ussd_sent_buffer = take 1022 message })
              gsm_state_ussd_sending buf)
      ]
      else refused g

  unfoldable pub module_send_text : Gsm → List ℕ → Sending
  unfolding gsm_switch_state at is_ready
  module_send_text g message =
      if is_ready g.state
      then sending (
          gsm_switch_state (record g { sms_sent_buffer = take 1022 message }) gsm_state_sms_sending
            (at g at_send_sms_text_mode))
      else refused g

  unfoldable pub module_send_pdu : Gsm → List ℕ → Sending
  unfolding gsm_switch_state at is_ready
  module_send_pdu g pdu =
      if is_ready g.state
      then sending (
          gsm_switch_state (record g { sms_sent_buffer = take 1022 pdu }) gsm_state_sms_sending
            (at g at_send_sms_pdu_mode))
      else refused g

  -- `gsm_send_pin` calls it.
  unfoldable pub module_send_pin : Gsm → List ℕ → Option Gsm
  unfolding gsm_send_at at text_or_empty rank
  module_send_pin g pin =
      if rank g.state == rank gsm_state_sim_pin_req
      then bind (text_or_empty (get_pin_str (at g at_send_pin) pin 256))
          (λ buf. some (gsm_send_at g buf))
      else some g

  unfoldable pub module_mux_end : Gsm → Bool → Gsm
  unfolding gsm_switch_state at
  module_mux_end g restart_at_flow =
      if restart_at_flow
      then gsm_switch_state (record g { already_set_mux_mode = true }) gsm_state_up (at g at_atz)
      else gsm_switch_state g gsm_state_ready (at g at_net_name)

  unfoldable pub module_hangup_phone : Gsm → Gsm
  unfolding gsm_switch_state at
  module_hangup_phone g = gsm_switch_state g gsm_state_hangup_req (at g at_hangup)

  -- A timeout of 0 stands for 20 seconds.
  unfoldable pub module_check_phone_stat : Gsm → List ℕ → Bool → ℕ → Sending
  unfolding gsm_switch_state at text_or_empty is_ready
  module_check_phone_stat g phone_number hangup_flag timeout =
      let time_out = if timeout == 0 then 20 else timeout in
      let g' : Gsm = record g { phone_stat = none; auto_hangup_flag = hangup_flag } in
      if is_ready g.state
      then elim (text_or_empty (get_dial_str (at g at_dial) phone_number 128)) [
        | none ↦ undefined_command
        | some buf ↦ sending (
            gsm_switch_state (record g' { check_timeout = env.now + time_out })
              gsm_state_phone_check buf)
      ]
      else refused g'
