-- ===== src/Gsm/Init.antt =====
-- The dialogue that brings a module up, from the name of the manufacturer to the network: the cases
-- of the switch of `module_receive`, in src/libgsmat/gsm_module.c, before `GSM_STATE_READY`.
-- The cases in which `get_at` gives NULL are left out.
pub mod Dialogue
pub mod Exchange
use chan_extra.Prelude.{
  ℕ, zero, suc, ◌+◌, ◌-◌, ◌*◌, ◌/◌, ◌%◌, ◌^◌, Bool, true, false, not, ◌&&◌, ◌||◌, Option, none,
  some, List, [], ◌∷◌, ◌++◌, ltb, leb, ◌==◌, if◌then◌else◌, take, drop, bind, length, set, get_or,
}
use chan_extra.Config.Commands.{
  AtId, at_ask_net, at_ask_net_name, at_ask_pin, at_check, at_check_net, at_clip_enabled, at_clvl,
  at_cme_error, at_cmic, at_creg10, at_creg11, at_creg12, at_creg13, at_creg14, at_creg15,
  at_dtr_wakeup, at_get_imei, at_get_manufacturer, at_get_smsc, at_get_version, at_gsm, at_imsi,
  at_moc_enabled, at_mode, at_net_name, at_net_ok, at_ok, at_pin_ready, at_pin_sim, at_rssi_enabled,
  at_set_net_urc, at_set_side_tone, at_sim_no_inserted, at_sms_set_charset, codes,
}
use chan_extra.Config.Template.{Expanded, expand, expanded, no_buffer, text_eq, undefined_text}
use chan_extra.Sms.Cstring.{decimal}
use chan_extra.Sms.Event.{SmsMode, sms_text}
use chan_extra.Gsm.Text.{gsm_get_line, gsm_get_operator, gsm_get_smsc, trim_crlf}
use chan_extra.Gsm.State.{
  EventId, ModuleState, at_call_state_null, gsm_at_mode, gsm_event_dchan_down, gsm_event_dchan_up,
  gsm_event_init_mux, gsm_event_pin_error, gsm_event_pin_required, gsm_event_restart_ack,
  gsm_event_sim_failed, gsm_init_mux, gsm_state_clip_enabled, gsm_state_dtr_wakeup_disabled,
  gsm_state_get_smsc_req, gsm_state_imei_req, gsm_state_imsi_req, gsm_state_manufacturer_req,
  gsm_state_moc_state_enabled, gsm_state_net_name_req, gsm_state_net_ok, gsm_state_net_req,
  gsm_state_ready, gsm_state_rssi_enabled, gsm_state_set_mic_vol, gsm_state_set_net_urc,
  gsm_state_set_side_tone, gsm_state_set_speak_vol, gsm_state_sim_pin_req, gsm_state_sim_ready,
  gsm_state_sim_ready_req, gsm_state_sms_set_charset, gsm_state_sms_set_indication,
  gsm_state_version_req, rank,
}
use chan_extra.Gsm.Call.{stop_timer, update_call}
use chan_extra.Gsm.Module.{
  Env, Gsm, Result, at, event, event_id, fault, gsm_switch_state, more, quiet, simple,
}
use chan_extra.Gsm.Start.{on_ok, says}
use chan_extra.Gsm.Network.{
  net_denied, net_home, net_roaming, net_searching, net_unknown, net_unregistered,
}

module _ (env : Env) where
  -- An answer to the command `asked`: after `OK` the command `id` in the state `next`, else what
  -- is made of a line that tells of no error.
  unfoldable pub on_info : Gsm → List ℕ → AtId → ModuleState → AtId → Gsm → Gsm
  unfolding says gsm_switch_state at
  on_info g buf asked next id stored =
      if not (says env g g.at_last_sent asked)
      then g
      else if says env g buf at_ok
      then gsm_switch_state env g next (at env g id)
      else if not (says env g buf at_cme_error)
      then stored
      else g

  -- The revision stands behind nine octets of the line: a shorter one is read past its end.
  unfoldable pub on_version_req : Gsm → List ℕ → Result
  unfolding says on_info gsm_get_line
  on_version_req g buf =
      let is_value =
        says env g g.at_last_sent at_get_version
        && (not (says env g buf at_ok) && not (says env g buf at_cme_error)) in
      if is_value && ltb (length buf) 9
      then fault
      else more
          (on_info g buf at_get_version gsm_state_imei_req at_get_imei
            (record g { revision = gsm_get_line (drop 9 buf) 256 }))
          buf

  -- `OK` whatever the last command.
  unfoldable pub on_any_ok : Gsm → List ℕ → ModuleState → AtId → Gsm
  unfolding says gsm_switch_state at
  on_any_ok g buf next id =
      if says env g buf at_ok then gsm_switch_state env g next (at env g id) else g

  unfoldable pub on_sim_ready_req : Gsm → List ℕ → Result
  unfolding says gsm_switch_state at rank
  on_sim_ready_req g buf =
      if says env g buf at_pin_ready
      then more (record g { sim_state = gsm_state_sim_ready }) buf
      else if says env g buf at_pin_sim
      then more (record g { sim_state = gsm_state_sim_pin_req }) buf
      else if says env g buf at_ok
      then (if rank g.sim_state == rank gsm_state_sim_ready
          then more (gsm_switch_state env g gsm_state_imsi_req (at env g at_imsi)) buf
          else if rank g.sim_state == rank gsm_state_sim_pin_req
          then event
              (record g { state = gsm_state_sim_pin_req; ev = simple gsm_event_pin_required })
          else more g buf)
      else if says env g buf at_cme_error
      then event (record g { ev = simple gsm_event_sim_failed })
      else more g buf

  unfoldable pub on_sim_pin_req : Gsm → List ℕ → Result
  unfolding says gsm_switch_state at
  on_sim_pin_req g buf =
      if says env g buf at_ok
      then more (gsm_switch_state env g gsm_state_imsi_req (at env g at_imsi)) buf
      else if says env g buf at_sim_no_inserted
      then event (record g { ev = simple gsm_event_sim_failed })
      else if says env g buf at_cme_error
      then event (record g { ev = simple gsm_event_pin_error })
      else more g buf

  -- The command that sets a level, of the template of `id`; the level is `none` where it is not
  -- to be set.
  unfoldable pub level_command : Gsm → AtId → List ℕ → Option ℕ → Expanded
  unfolding at expand
  level_command g id name level = elim level [
    | none ↦ no_buffer
    | some n ↦ expand (at env g id) name (codes "%d") (decimal n) 1024
  ]

  -- The microphone's level, where it is to be set, and else the caller's number.
  unfoldable pub set_mic : Gsm → List ℕ → Result
  unfolding level_command gsm_switch_state at
  set_mic g buf = elim (level_command g at_cmic (codes "$MICROPHONE_LEVEL") g.mic) [
    | undefined_text ↦ fault
    | expanded send ↦ more (gsm_switch_state env g gsm_state_set_mic_vol send) buf
    | no_buffer ↦
        more (gsm_switch_state env g gsm_state_clip_enabled (at env g at_clip_enabled)) buf
  ]

  unfoldable pub on_side_tone : Gsm → List ℕ → Result
  unfolding says level_command gsm_switch_state set_mic
  on_side_tone g buf =
      if says env g buf at_ok && says env g g.at_last_sent at_set_side_tone
      then elim (level_command g at_clvl (codes "$VOLUME_LEVEL") g.vol) [
        | undefined_text ↦ fault
        | expanded send ↦ more (gsm_switch_state env g gsm_state_set_speak_vol send) buf
        | no_buffer ↦ set_mic g buf
      ]
      else more g buf

  -- The network that an answer `+CREG: 1,n` tells of.
  unfoldable pub creg_network : Gsm → List ℕ → Option ℕ
  unfolding text_eq at
  creg_network g buf =
      let is = λ (id : AtId). text_eq buf (at env g id) in
      if is at_creg10
      then some net_unregistered
      else if is at_creg11
      then some net_home
      else if is at_creg12
      then some net_searching
      else if is at_creg13
      then some net_denied
      else if is at_creg14
      then some net_unknown
      else if is at_creg15
      then some net_roaming
      else none

  -- The answer to the question for the network; any other answer asks again.
  unfoldable pub on_net_answer : Gsm → List ℕ → Result
  unfolding says gsm_switch_state at creg_network
  on_net_answer g buf =
      if says env g buf at_ok
      then more
          (if g.network == net_home || g.network == net_roaming
            then gsm_switch_state env g gsm_state_net_ok (at env g at_net_ok)
            else g)
          buf
      else elim (creg_network g buf) [
        | some network ↦ more (record g { network = network }) buf
        | none ↦ quiet (
            gsm_switch_state env (record g { network = net_unregistered }) gsm_state_net_req
              (at env g at_ask_net))
      ]

  unfoldable pub is_down : EventId → Bool
  is_down gsm_event_dchan_down = true
  is_down other = false

  unfoldable pub on_net_req : Gsm → List ℕ → Result
  unfolding says trim_crlf on_net_answer event_id is_down
  on_net_req g buf =
      if says env g g.at_last_sent at_ask_net
      then on_net_answer g (trim_crlf buf)
      else if is_down (event_id g.ev)
      then more (record g { send_at = false }) buf
      else more g buf

  unfoldable pub on_indication : Gsm → List ℕ → Gsm
  unfolding says gsm_switch_state at
  on_indication g buf =
      if says env g buf at_ok && says env g g.at_last_sent at_gsm
      then gsm_switch_state env (record g { sms_mod_flag = sms_text }) gsm_state_net_name_req
          (at env g at_ask_net_name)
      else g

  -- The module is up, or its multiplexer comes first.
  unfoldable pub module_up : Gsm → List ℕ → Gsm
  unfolding gsm_get_operator update_call gsm_switch_state at
  module_up g buf =
      let g' : Gsm = record g {
        net_name = gsm_get_operator g.net_name buf;
        pool = update_call g.pool g.pool.cref (λ c. record c {
          ourcallstate = at_call_state_null;
          peercallstate = at_call_state_null;
        });
      } in
      if g.already_set_mux_mode
      then gsm_switch_state env g' gsm_state_ready (at env g at_net_name)
      else gsm_switch_state env g' gsm_init_mux (at env g at_check)

  unfoldable pub on_net_name_req : Gsm → List ℕ → Result
  unfolding says module_up stop_timer
  on_net_name_req g buf =
      if says env g buf at_check_net && says env g g.at_last_sent at_ask_net_name
      then (let h = module_up g buf in
          elim (stop_timer h.pool) [
            | none ↦ fault
            | some p ↦ event (record h {
              pool = record p { retranstimer = 0 };
              resetting = false;
              ev = simple (if h.resetting then gsm_event_restart_ack else gsm_event_dchan_up);
            })
          ])
      else more g buf

  -- A version is the text from the tenth octet on.
  unfoldable pub init_line : ModuleState → Gsm → List ℕ → Result
  unfolding on_info on_sim_ready_req on_sim_pin_req on_ok on_any_ok on_side_tone set_mic on_net_req
      on_indication on_net_name_req on_version_req gsm_get_line gsm_get_smsc says gsm_switch_state
      at
  init_line gsm_state_manufacturer_req g buf =
      more
        (on_info g buf at_get_manufacturer gsm_state_version_req at_get_version
          (record g { manufacturer = gsm_get_line buf 256 }))
        buf
  init_line gsm_state_version_req g buf = on_version_req g buf
  init_line gsm_state_imei_req g buf =
      more
        (on_info g buf at_get_imei gsm_state_sim_ready_req at_ask_pin
          (record g { imei = gsm_get_line buf 64 }))
        buf
  init_line gsm_state_sim_ready_req g buf = on_sim_ready_req g buf
  init_line gsm_state_sim_pin_req g buf = on_sim_pin_req g buf
  init_line gsm_state_imsi_req g buf =
      more
        (on_info g buf at_imsi gsm_state_moc_state_enabled at_moc_enabled
          (record g { imsi = gsm_get_line buf 64 }))
        buf
  init_line gsm_state_moc_state_enabled g buf =
      more (on_ok env g buf at_moc_enabled gsm_state_set_side_tone at_set_side_tone) buf
  init_line gsm_state_set_side_tone g buf = on_side_tone g buf
  init_line gsm_state_set_speak_vol g buf =
      if says env g buf at_ok then set_mic g buf else more g buf
  init_line gsm_state_set_mic_vol g buf =
      more (on_any_ok g buf gsm_state_clip_enabled at_clip_enabled) buf
  init_line gsm_state_clip_enabled g buf =
      more (on_ok env g buf at_clip_enabled gsm_state_dtr_wakeup_disabled at_dtr_wakeup) buf
  init_line gsm_state_dtr_wakeup_disabled g buf =
      more
        (if says env g g.at_last_sent at_dtr_wakeup
          then gsm_switch_state env g gsm_state_rssi_enabled (at env g at_rssi_enabled)
          else g)
        buf
  init_line gsm_state_rssi_enabled g buf =
      more (on_ok env g buf at_rssi_enabled gsm_state_set_net_urc at_set_net_urc) buf
  init_line gsm_state_set_net_urc g buf =
      more (on_ok env g buf at_set_net_urc gsm_state_net_req at_ask_net) buf
  init_line gsm_state_net_req g buf = on_net_req g buf
  init_line gsm_state_net_ok g buf =
      more (on_ok env g buf at_net_ok gsm_state_get_smsc_req at_get_smsc) buf
  init_line gsm_state_get_smsc_req g buf =
      more
        (on_info g buf at_get_smsc gsm_state_sms_set_charset at_sms_set_charset
          (record g { sim_smsc = gsm_get_smsc g.sim_smsc buf }))
        buf
  init_line gsm_state_sms_set_charset g buf = more (on_any_ok g buf gsm_at_mode at_mode) buf
  init_line gsm_at_mode g buf =
      more (on_ok env g buf at_mode gsm_state_sms_set_indication at_gsm) buf
  init_line gsm_state_sms_set_indication g buf = more (on_indication g buf) buf
  init_line gsm_state_net_name_req g buf = on_net_name_req g buf
  init_line gsm_init_mux g buf = event (record g { ev = simple gsm_event_init_mux })
  init_line other g buf = more g buf
