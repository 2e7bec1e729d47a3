-- ===== src/Gsm/State.antt =====
-- The states and the events: `enum STATE_DEFINE` and `enum EVENT_DEFINE` of
-- src/libgsmat/libgsmat.h, and the call states of src/libgsmat/gsm_internal.h.
use chan_extra.Prelude.{ℕ}

pub data ModuleState : Type 0 where
  gsm_state_down gsm_state_init gsm_state_up gsm_state_send_hangup gsm_state_set_echo
        gsm_state_set_report_error gsm_state_model_name_req gsm_state_manufacturer_req
        gsm_state_version_req gsm_state_gsn_req gsm_state_imei_req gsm_enable_sim_detect
        gsm_state_imsi_req gsm_state_init_0 gsm_state_init_1 gsm_state_init_2 gsm_state_init_3
        gsm_state_init_4 gsm_state_init_5 gsm_state_sim_ready_req gsm_state_sim_pin_req
        gsm_state_sim_puk_req gsm_state_sim_ready gsm_state_uim_ready_req gsm_state_uim_pin_req
        gsm_state_uim_puk_req gsm_state_uim_ready gsm_init_mux gsm_state_moc_state_enabled
        gsm_state_set_side_tone gsm_state_clip_enabled gsm_state_dtr_wakeup_disabled
        gsm_state_rssi_enabled gsm_state_set_net_urc gsm_state_net_req gsm_state_net_ok gsm_at_mode
        gsm_state_net_name_req gsm_state_ready gsm_state_call_init gsm_state_call_made
        gsm_state_call_present gsm_state_call_proceeding gsm_state_call_progress
        gsm_state_pre_answer gsm_state_call_active_req gsm_state_call_active gsm_state_clip
        gsm_state_ring gsm_state_ringing gsm_state_hangup_req gsm_state_hangup_acq gsm_state_hangup
        gsm_state_get_smsc_req gsm_state_sms_set_charset gsm_state_sms_set_indication
        gsm_state_sms_set_smsc gsm_state_set_speak_vol gsm_state_set_mic_vol
        gsm_state_sms_set_unicode gsm_state_sms_sending gsm_state_sms_sent gsm_state_sms_sent_end
        gsm_state_sms_received gsm_state_ussd_sending gsm_state_phone_check :
      ModuleState

-- The value of a constant, which the code compares.
unfoldable pub rank : ModuleState → ℕ
rank gsm_state_down = 0
rank gsm_state_init = 1
rank gsm_state_up = 2
rank gsm_state_send_hangup = 3
rank gsm_state_set_echo = 4
rank gsm_state_set_report_error = 5
rank gsm_state_model_name_req = 6
rank gsm_state_manufacturer_req = 7
rank gsm_state_version_req = 8
rank gsm_state_gsn_req = 9
rank gsm_state_imei_req = 10
rank gsm_enable_sim_detect = 11
rank gsm_state_imsi_req = 12
rank gsm_state_init_0 = 13
rank gsm_state_init_1 = 14
rank gsm_state_init_2 = 15
rank gsm_state_init_3 = 16
rank gsm_state_init_4 = 17
rank gsm_state_init_5 = 18
rank gsm_state_sim_ready_req = 19
rank gsm_state_sim_pin_req = 20
rank gsm_state_sim_puk_req = 21
rank gsm_state_sim_ready = 22
rank gsm_state_uim_ready_req = 23
rank gsm_state_uim_pin_req = 24
rank gsm_state_uim_puk_req = 25
rank gsm_state_uim_ready = 26
rank gsm_init_mux = 27
rank gsm_state_moc_state_enabled = 28
rank gsm_state_set_side_tone = 29
rank gsm_state_clip_enabled = 30
rank gsm_state_dtr_wakeup_disabled = 31
rank gsm_state_rssi_enabled = 32
rank gsm_state_set_net_urc = 33
rank gsm_state_net_req = 34
rank gsm_state_net_ok = 35
rank gsm_at_mode = 36
rank gsm_state_net_name_req = 37
rank gsm_state_ready = 38
rank gsm_state_call_init = 39
rank gsm_state_call_made = 40
rank gsm_state_call_present = 41
rank gsm_state_call_proceeding = 42
rank gsm_state_call_progress = 43
rank gsm_state_pre_answer = 44
rank gsm_state_call_active_req = 45
rank gsm_state_call_active = 46
rank gsm_state_clip = 47
rank gsm_state_ring = 48
rank gsm_state_ringing = 49
rank gsm_state_hangup_req = 50
rank gsm_state_hangup_acq = 51
rank gsm_state_hangup = 52
rank gsm_state_get_smsc_req = 53
rank gsm_state_sms_set_charset = 54
rank gsm_state_sms_set_indication = 55
rank gsm_state_sms_set_smsc = 56
rank gsm_state_set_speak_vol = 57
rank gsm_state_set_mic_vol = 58
rank gsm_state_sms_set_unicode = 59
rank gsm_state_sms_sending = 60
rank gsm_state_sms_sent = 61
rank gsm_state_sms_sent_end = 62
rank gsm_state_sms_received = 63
rank gsm_state_ussd_sending = 64
rank gsm_state_phone_check = 65

pub data EventId : Type 0 where
  no_event gsm_event_dchan_up gsm_event_detect_module_ok gsm_event_dchan_down gsm_event_restart
        gsm_event_config_err gsm_event_ring gsm_event_hangup gsm_event_ringing gsm_event_mo_ringing
        gsm_event_answer gsm_event_hangup_ack gsm_event_restart_ack gsm_event_facname
        gsm_event_info_received gsm_event_proceeding gsm_event_setup_ack gsm_event_hangup_req
        gsm_event_notify gsm_event_progress gsm_event_keypad_digit gsm_event_sms_received
        gsm_event_sim_failed gsm_event_pin_required gsm_event_pin_error gsm_event_sms_send_ok
        gsm_event_sms_send_failed gsm_event_ussd_received gsm_event_ussd_send_failed
        gsm_event_no_signal gsm_event_check_phone gsm_event_init_mux :
      EventId

pub data CallState : Type 0 where
  at_call_state_null at_call_state_call_initiated at_call_state_overlap_sending
        at_call_state_outgoing_call_proceeding at_call_state_call_delivered
        at_call_state_call_present at_call_state_call_received at_call_state_connect_request
        at_call_state_incoming_call_proceeding at_call_state_active at_call_state_disconnect_request
        at_call_state_disconnect_indication at_call_state_suspend_request
        at_call_state_resume_request at_call_state_release_request at_call_state_overlap_receiving
        at_call_state_restart_request at_call_state_restart :
      CallState
