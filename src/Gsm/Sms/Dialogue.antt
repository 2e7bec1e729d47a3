-- ===== src/Gsm/Sms/Dialogue.antt =====
-- A message in text mode from the command to its end, through `gsm_check_event`, with the commands
-- as they are by default.
use chan_extra.Prelude.{ℕ, ◌≡◌, refl, true, none, some, List, [], ◌∷◌, ◌++◌, take}
use chan_extra.Config.Commands.{codes}
use chan_extra.Config.File.{default_value}
use chan_extra.Gsm.State.{gsm_event_sms_send_ok, gsm_state_ready}
use chan_extra.Gsm.San.{arrays_fit, cr_of, gsm_san, out_text, san_add, san_rest, skip_of}
use chan_extra.Gsm.Module.{
  Env, Gsm, Sending, SmsInfo, module_send_text, refused, sending, simple, undefined_command,
}
use chan_extra.Gsm.Start.{Return, returned}
use chan_extra.Gsm.Talk.{lose_call, no_carrier}
use chan_extra.Gsm.Sms.{module_check_sms}
use chan_extra.Gsm.Receive.{after_line, check_lost, gsm_check_event, receive_line}
use chan_extra.Gsm.Receive.Converse.{converse, module_of}

-- The module of `module_send_text` after it has been handed a message.
unfoldable pub handed : Sending → Gsm → Gsm
handed undefined_command g = g
handed (refused h) g = g
handed (sending h) g = h

-- What a module answers to the commands for a message in text mode.
unfoldable pub text_answers : List (List ℕ)
text_answers =
    codes "\r\nOK\r\n"
    ∷ codes "\r\nOK\r\n"
    ∷ codes "\r\n> "
    ∷ codes "\r\n+CMGS: 7\r\n"
    ∷ codes "\r\nOK\r\n"
    ∷ []

-- A ready module that has sent nothing, and of which nothing is left to read, is handed a message,
-- and answers.
unfoldable pub run_text : Env → Gsm → SmsInfo → List ℕ → Return
unfolding converse handed module_send_text text_answers
run_text env g info message =
    let ready : Gsm = record g {
      state = gsm_state_ready;
      switchtype = none;
      sms_info = some info;
      at_last_recv = [];
      san = record { text = []; idx = 0 };
      sent = [];
    } in
    converse env (handed (module_send_text env ready message) g) text_answers

-- Where no file changes a command, all that is sent is taken and nothing is left to read, a message in text mode that a
-- ready module is handed goes out on the answers `OK`, `OK`, the prompt, a number and `OK`: the
-- module is ready again, with the event of success, and has sent the mode, the character set, the
-- destination (cut to 1023 octets with its command), the message (cut to 1022) and what ends it,
-- and the mode for a PDU again.
pub run_text-ends :
    (env : Env) (g : Gsm) (info : SmsInfo) (message : List ℕ)
    → let env' : Env = record env { cfgs = []; accepts = λ text. true } in
      let h = module_of g (run_text env' g info message) in
      (run_text env' g info message ≡ returned true h)
      × (h.state ≡ gsm_state_ready)
      × (h.ev ≡ simple gsm_event_sms_send_ok)
      × (h.sent
          ≡ codes "AT+CMGF=1\r\n"
            ∷ codes "AT+CSCS=\"GSM\"\r\n"
            ∷ (take 1023 (codes "AT+CMGS=\"" ++ (info.destination ++ codes "\"")) ++ codes "\r\n")
            ∷ take 1022 message
            ∷ (0x1a ∷ codes "\r\n")
            ∷ codes "AT+CMGF=0\r\n"
            ∷ [])
unfolding run_text converse gsm_check_event gsm_san san_add skip_of cr_of san_rest check_lost
    default_value no_carrier lose_call after_line receive_line arrays_fit out_text module_check_sms
run_text-ends env g info message = (refl, refl, refl, refl)
