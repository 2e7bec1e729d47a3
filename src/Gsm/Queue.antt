-- ===== src/Gsm/Queue.antt =====
-- Messages that wait for a module: `gsm_send_text`, `gsm_send_pdu`, `gsm_send_ussd` and the
-- callbacks that send them later, of src/libgsmat/gsm.c. A message in memory is known by its place
-- in a list; memory is always there. The text and the identifier that a message carries for the
-- application are left out.
pub mod Later
use chan_extra.Prelude.{
  ℕ, zero, suc, ◌+◌, ◌-◌, ◌*◌, ◌/◌, ◌%◌, ◌^◌, Bool, true, false, not, ◌&&◌, ◌||◌, Option, none,
  some, List, [], ◌∷◌, ◌++◌, ltb, leb, ◌==◌, if◌then◌else◌, take, drop, bind, length, set, get_or,
  get_elem?,
}
use chan_extra.Sched.{gsm_schedule_check, gsm_schedule_event}
use chan_extra.Sms.Hex.{gsm_hex2int}
use chan_extra.Sms.Submit.{pdu_get_send_number}
use chan_extra.Gsm.Module.{
  Env, Gsm, Sending, SmsInfo, is_ready, module_send_pdu, module_send_text, module_send_ussd,
  refused, sending, undefined_command,
}

pub data Message : Type 0 where
  text_message pdu_message : SmsInfo → Message
  ussd_message : List ℕ → Message

-- The numbers of `gsm_resend_sms_txt`, `gsm_resend_sms_pdu` and `gsm_resend_ussd` in the table.
abbrev resend_sms_txt : ℕ
resend_sms_txt = 2

abbrev resend_sms_pdu : ℕ
resend_sms_pdu = 3

abbrev resend_ussd : ℕ
resend_ussd = 4

-- What the application asks for: `gsm_send_text` with a destination and a message, `gsm_send_pdu` or
-- `gsm_send_ussd` with a message.
pub data Request : Type 0 where
  text_request : List ℕ → List ℕ → Request
  pdu_request ussd_request : List ℕ → Request

-- A module and the messages in memory, `none` where one has been freed.
pub record Queue : Type 0 where
  pub gsm : Gsm
  pub heap : List (Option Message)

-- `refused_message` is the return of -1; `broken` is undefined.
pub data Queued : Type 0 where
  broken : Queued
  refused_message queued : Queue → Queued

-- The result of the module's function is not looked at.
unfoldable pub sent_module : Sending → Option Gsm
sent_module undefined_command = none
sent_module (refused g) = some g
sent_module (sending g) = some g

-- The message at a place; `none` where there is none any more.
unfoldable pub message_at : Queue → ℕ → Option Message
message_at q place = elim (get_elem? q.heap place) [ none ↦ none | some slot ↦ slot ]

module _ (env : Env) where
  -- A ready module is handed the message, which it keeps.
  unfoldable pub hand_message : Gsm → Message → Option Gsm
  unfolding sent_module module_send_text module_send_pdu module_send_ussd
  hand_message g (text_message info) =
      sent_module (module_send_text env (record g { sms_info = some info }) info.message)
  hand_message g (pdu_message info) =
      sent_module (module_send_pdu env (record g { sms_info = some info }) info.message)
  hand_message g (ussd_message text) =
      sent_module (module_send_ussd env (record g { ussd_info = some text }) text)

  -- The callback of this number is to send the message after two seconds; the message is freed when
  -- the table is full.
  unfoldable pub schedule_message : Queue → ℕ → ℕ → Queued
  schedule_message q callback place =
      let pool = q.gsm.pool in
      let (sched, id) = gsm_schedule_event pool.sched env.clock 2000 callback place in
      elim id [
        | none ↦ refused_message (record q { heap = set q.heap place none })
        | some i ↦ queued (record q { gsm = record q.gsm { pool = record pool { sched = sched } } })
      ]

  -- A message that is given to a module which is not ready waits; with a full table it stays in
  -- memory.
  unfoldable pub send_message : Queue → ℕ → Message → Queued
  unfolding is_ready
  send_message q callback message =
      let kept : Queue = record q { heap = q.heap ++ (some message ∷ []) } in
      if is_ready q.gsm.state
      then elim (hand_message q.gsm message) [
        | none ↦ broken
        | some g ↦ queued (record kept { gsm = g })
      ]
      else if not (gsm_schedule_check q.gsm.pool.sched)
      then refused_message kept
      else schedule_message kept callback (length q.heap)

  unfoldable pub gsm_send_text : Queue → List ℕ → List ℕ → Queued
  unfolding send_message
  gsm_send_text q destination message = send_message q resend_sms_txt (
      text_message
        (record { destination = take 512 destination; message = take 1024 message; len = 0 }))

  -- The length is that of the octets after the service centre's; it is not to be negative.
  unfoldable pub gsm_send_pdu : Queue → List ℕ → Queued
  unfolding send_message pdu_get_send_number gsm_hex2int
  gsm_send_pdu q message = send_message q resend_sms_pdu (
      pdu_message (record {
        destination = take 512 (pdu_get_send_number message);
        message = take 1024 message;
        len = length message / 2 - 1 - gsm_hex2int (take 2 message) 2;
      }))

  unfoldable pub gsm_send_ussd : Queue → List ℕ → Queued
  unfolding send_message
  gsm_send_ussd q message = send_message q resend_ussd (ussd_message (take 1024 message))

  unfoldable pub gsm_send : Queue → Request → Queued
  unfolding gsm_send_text gsm_send_pdu gsm_send_ussd
  gsm_send q (text_request destination message) = gsm_send_text q destination message
  gsm_send q (pdu_request message) = gsm_send_pdu q message
  gsm_send q (ussd_request message) = gsm_send_ussd q message

  -- What a callback does with the message at a place, where it is of its kind.
  unfoldable pub resend_message : Queue → ℕ → ℕ → Message → Queued
  unfolding is_ready
  resend_message q callback place message =
      if is_ready q.gsm.state
      then elim (hand_message q.gsm message) [
        | none ↦ broken
        | some g ↦ queued (record q { gsm = g })
      ]
      else schedule_message q callback place

  unfoldable pub gsm_resend_sms_txt : Queue → ℕ → Queued
  unfolding message_at resend_message
  gsm_resend_sms_txt q place = elim (message_at q place) [
    | none ↦ broken
    | some message ↦ elim message [
      | text_message info ↦ resend_message q resend_sms_txt place (text_message info)
      | pdu_message info ↦ broken
      | ussd_message text ↦ broken
    ]
  ]

  unfoldable pub gsm_resend_sms_pdu : Queue → ℕ → Queued
  unfolding message_at resend_message
  gsm_resend_sms_pdu q place = elim (message_at q place) [
    | none ↦ broken
    | some message ↦ elim message [
      | text_message info ↦ broken
      | pdu_message info ↦ resend_message q resend_sms_pdu place (pdu_message info)
      | ussd_message text ↦ broken
    ]
  ]

  unfoldable pub gsm_resend_ussd : Queue → ℕ → Queued
  unfolding message_at resend_message
  gsm_resend_ussd q place = elim (message_at q place) [
    | none ↦ broken
    | some message ↦ elim message [
      | text_message info ↦ broken
      | pdu_message info ↦ broken
      | ussd_message text ↦ resend_message q resend_ussd place (ussd_message text)
    ]
  ]

  -- The callback of a number is made with the place of a message.
  unfoldable pub run_callback : ℕ → Queue → ℕ → Queued
  unfolding gsm_resend_sms_txt gsm_resend_sms_pdu gsm_resend_ussd
  run_callback callback q place =
      if callback == resend_sms_txt
      then gsm_resend_sms_txt q place
      else if callback == resend_sms_pdu
      then gsm_resend_sms_pdu q place
      else if callback == resend_ussd
      then gsm_resend_ussd q place
      else broken
