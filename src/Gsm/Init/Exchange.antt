-- ===== src/Gsm/Init/Exchange.antt =====
-- What a module and the library say to each other while the module comes up, from the question for its
-- manufacturer on, by `gsm_check_event` of src/libgsmat/gsm.c, with the commands as they are by
-- default.
use chan_extra.Prelude.{ℕ, ◌≡◌, true, false, none, List, [], ◌∷◌, ◌++◌}
use chan_extra.Config.Commands.{
  AtId, at_ask_net, at_ask_net_name, at_ask_pin, at_clip_enabled, at_dtr_wakeup, at_get_imei,
  at_get_smsc, at_get_version, at_gsm, at_imsi, at_moc_enabled, at_mode, at_net_ok, at_rssi_enabled,
  at_set_net_urc, at_set_side_tone, at_sms_set_charset, codes, index,
}
use chan_extra.Config.File.{get_at}
use chan_extra.Gsm.State.{
  ModuleState, gsm_at_mode, gsm_state_clip_enabled, gsm_state_dtr_wakeup_disabled,
  gsm_state_get_smsc_req, gsm_state_imei_req, gsm_state_imsi_req, gsm_state_moc_state_enabled,
  gsm_state_net_name_req, gsm_state_net_ok, gsm_state_net_req, gsm_state_rssi_enabled,
  gsm_state_set_net_urc, gsm_state_set_side_tone, gsm_state_sim_ready_req,
  gsm_state_sms_set_charset, gsm_state_sms_set_indication, gsm_state_version_req,
}
use chan_extra.Gsm.Module.{Env, Gsm, value_text}
use chan_extra.Gsm.Start.{returned}
use chan_extra.Gsm.Receive.{gsm_check_event}
use chan_extra.Gsm.Receive.Converse.{module_of}

-- The default of a command, as it is sent.
unfoldable pub sent_text : AtId → List ℕ
unfolding value_text get_at index
sent_text id = value_text (get_at [] none (index id)) ++ codes "\r\n"

-- A module in a state, after a command: no level is to be set, its multiplexer runs, no timer is
-- set, it is not resetting, and `sanbuf` has the end of the line before.
unfoldable pub waits_for : ModuleState → AtId → Gsm → Gsm
unfolding sent_text
waits_for state asked g = record g {
  state = state;
  switchtype = none;
  resetting = false;
  already_set_mux_mode = true;
  vol = none;
  mic = none;
  at_last_sent = sent_text asked;
  at_last_recv = [];
  san = record { text = codes "\r\n"; idx = 2 };
  pool = record g.pool { retranstimer = 0 };
}

-- A text that comes in, the state and the command that it leads to, and what is sent.
pub record Exchange : Type 0 where
  pub text : List ℕ
  pub next : ModuleState
  pub command : AtId
  pub sends : List (List ℕ)

abbrev pub asks : List ℕ → ModuleState → AtId → Exchange
asks text next command = record {
  text = text;
  next = next;
  command = command;
  sends = sent_text command ∷ [];
}

abbrev pub ok : List ℕ
ok = codes "\r\nOK\r\n"

-- The text leads the module to this state, with this command sent.
abbrev pub Leads : Env → ModuleState → AtId → Exchange → Type 0
Leads env state asked x =
    (g : Gsm)
    → let h = module_of g (gsm_check_event env (waits_for state asked g) x.text) in
      (gsm_check_event env (waits_for state asked g) x.text
        ≡ returned false (waits_for x.next x.command h))
      × (h.sent ≡ g.sent ++ x.sends)

abbrev pub AllLead : Env → ModuleState → AtId → List Exchange → Type 0
AllLead env state asked [] = Unit
AllLead env state asked (x ∷ xs) = Leads env state asked x × AllLead env x.next x.command xs

abbrev pub manufacturer_told : Exchange
manufacturer_told = asks (codes "\r\nSIMCOM_Ltd\r\n\r\nOK\r\n") gsm_state_version_req at_get_version

abbrev pub version_told : Exchange
version_told = asks (codes "\r\nRevision:1137B02\r\n\r\nOK\r\n") gsm_state_imei_req at_get_imei

abbrev pub imei_told : Exchange
imei_told = asks (codes "\r\n861785006123456\r\n\r\nOK\r\n") gsm_state_sim_ready_req at_ask_pin

abbrev pub pin_told : Exchange
pin_told = asks (codes "\r\n+CPIN: READY\r\n\r\nOK\r\n") gsm_state_imsi_req at_imsi

abbrev pub imsi_told : Exchange
imsi_told =
    asks (codes "\r\n460001234567890\r\n\r\nOK\r\n") gsm_state_moc_state_enabled at_moc_enabled

-- It looks for a network; nothing is sent until it tells of one.
abbrev pub searching : Exchange
searching = record {
  text = codes "\r\n+CREG: 1,2\r\n\r\nOK\r\n";
  next = gsm_state_net_req;
  command = at_ask_net;
  sends = [];
}

abbrev pub registered : Exchange
registered = asks (codes "\r\n+CREG: 1,1\r\n\r\nOK\r\n") gsm_state_net_ok at_net_ok

abbrev pub smsc_told : Exchange
smsc_told =
    asks (codes "\r\n+CSCA: \"+8613800210500\",145\r\n\r\nOK\r\n") gsm_state_sms_set_charset
      at_sms_set_charset

-- The answers up to the question for the network, and those from a registered network on.
abbrev pub first_answers : List Exchange
first_answers =
    manufacturer_told
    ∷ version_told
    ∷ imei_told
    ∷ pin_told
    ∷ imsi_told
    ∷ asks ok gsm_state_set_side_tone at_set_side_tone
    ∷ asks ok gsm_state_clip_enabled at_clip_enabled
    ∷ asks ok gsm_state_dtr_wakeup_disabled at_dtr_wakeup
    ∷ asks ok gsm_state_rssi_enabled at_rssi_enabled
    ∷ asks ok gsm_state_set_net_urc at_set_net_urc
    ∷ asks ok gsm_state_net_req at_ask_net
    ∷ []

abbrev pub last_answers : List Exchange
last_answers =
    registered
    ∷ asks ok gsm_state_get_smsc_req at_get_smsc
    ∷ smsc_told
    ∷ asks ok gsm_at_mode at_mode
    ∷ asks ok gsm_state_sms_set_indication at_gsm
    ∷ asks ok gsm_state_net_name_req at_ask_net_name
    ∷ []

abbrev pub net_named : List ℕ
net_named = codes "\r\n+COPS: 0,0,\"CMCC\"\r\n\r\nOK\r\n"

abbrev pub texts : List Exchange → List (List ℕ)
texts [] = []
texts (x ∷ xs) = x.text ∷ texts xs

abbrev pub all_sent : List Exchange → List (List ℕ)
all_sent [] = []
all_sent (x ∷ xs) = x.sends ++ all_sent xs

abbrev pub last_state : ModuleState → List Exchange → ModuleState
last_state state [] = state
last_state state (x ∷ xs) = last_state x.next xs

abbrev pub last_command : AtId → List Exchange → AtId
last_command asked [] = asked
last_command asked (x ∷ xs) = last_command x.command xs
