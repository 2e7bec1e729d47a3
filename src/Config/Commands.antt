-- ===== src/Config/Commands.antt =====
-- The commands of the modules: `enum AT_CMDS` of src/libgsmat/gsm_config.h and the table `at_cmds`
-- of src/libgsmat/gsm_config.c, as they are without AUTO_SIM_CHECK.
use Prim.Native.Char.{code}
use Prim.Native.String.{String}
use chan_extra.Prelude.{ℕ, List, [], ◌∷◌}

-- A text literal of the source: its octets.
abbrev pub codes : String → List ℕ
codes String.[] = []
codes (String.◌∷◌ c s) = code c ∷ codes s

pub data AtId : Type 0 where
  at_check at_set_echo_mode at_set_cmee at_get_cgmm at_get_cgmi at_check_signal1 at_check_signal2
        at_get_signal1 at_get_signal2 at_dial at_atz at_answer at_hangup at_send_sms_text_mode
        at_send_sms_pdu_mode at_send_pin at_check_sms at_error at_no_carrier at_no_answer at_ok
        at_ucs2 at_gsm at_send_sms_len at_send_sms_des at_cms_error at_cme_error at_send_sms_success
        at_creg at_creg0 at_creg1 at_creg2 at_creg3 at_creg4 at_creg5 at_creg10 at_creg11 at_creg12
        at_creg13 at_creg14 at_creg15 at_get_manufacturer at_get_smsc at_get_version at_get_imei
        at_ask_pin at_pin_ready at_pin_sim at_imsi at_sim_no_inserted at_moc_enabled
        at_set_side_tone at_clip_enabled at_dtr_wakeup at_rssi_enabled at_set_net_urc at_ask_net
        at_net_ok at_sms_set_charset at_ask_net_name at_check_net at_net_name at_incoming_call
        at_get_cid at_ring at_call_init at_call_proceeding at_call_status at_mo_connected
        at_no_dialtone at_busy at_cmic at_clvl at_mode at_cmux at_send_ussd at_check_ussd at_vts :
      AtId

-- The value of a constant of the enumeration.
unfoldable pub index : AtId → ℕ
index at_check = 0
index at_set_echo_mode = 1
index at_set_cmee = 2
index at_get_cgmm = 3
index at_get_cgmi = 4
index at_check_signal1 = 5
index at_check_signal2 = 6
index at_get_signal1 = 7
index at_get_signal2 = 8
index at_dial = 9
index at_atz = 10
index at_answer = 11
index at_hangup = 12
index at_send_sms_text_mode = 13
index at_send_sms_pdu_mode = 14
index at_send_pin = 15
index at_check_sms = 16
index at_error = 17
index at_no_carrier = 18
index at_no_answer = 19
index at_ok = 20
index at_ucs2 = 21
index at_gsm = 22
index at_send_sms_len = 23
index at_send_sms_des = 24
index at_cms_error = 25
index at_cme_error = 26
index at_send_sms_success = 27
index at_creg = 28
index at_creg0 = 29
index at_creg1 = 30
index at_creg2 = 31
index at_creg3 = 32
index at_creg4 = 33
index at_creg5 = 34
index at_creg10 = 35
index at_creg11 = 36
index at_creg12 = 37
index at_creg13 = 38
index at_creg14 = 39
index at_creg15 = 40
index at_get_manufacturer = 41
index at_get_smsc = 42
index at_get_version = 43
index at_get_imei = 44
index at_ask_pin = 45
index at_pin_ready = 46
index at_pin_sim = 47
index at_imsi = 48
index at_sim_no_inserted = 49
index at_moc_enabled = 50
index at_set_side_tone = 51
index at_clip_enabled = 52
index at_dtr_wakeup = 53
index at_rssi_enabled = 54
index at_set_net_urc = 55
index at_ask_net = 56
index at_net_ok = 57
index at_sms_set_charset = 58
index at_ask_net_name = 59
index at_check_net = 60
index at_net_name = 61
index at_incoming_call = 62
index at_get_cid = 63
index at_ring = 64
index at_call_init = 65
index at_call_proceeding = 66
index at_call_status = 67
index at_mo_connected = 68
index at_no_dialtone = 69
index at_busy = 70
index at_cmic = 71
index at_clvl = 72
index at_mode = 73
index at_cmux = 74
index at_send_ussd = 75
index at_check_ussd = 76
index at_vts = 77

abbrev pub at_cmds_sum : ℕ
at_cmds_sum = 78

pub record AtCmd : Type 0 where
  pub id : AtId
  pub name : List ℕ
  pub value : List ℕ

abbrev entry : AtId → String → String → AtCmd
entry i n v = record { id = i; name = codes n; value = codes v }

unfoldable pub at_cmds : List AtCmd
at_cmds =
    entry at_check "AT_CHECK" "AT"
    ∷ entry at_set_echo_mode "AT_SET_ECHO_MODE" "ATE0"
    ∷ entry at_set_cmee "AT_SET_CMEE" "AT+CMEE=2"
    ∷ entry at_get_cgmm "AT_GET_CGMM" "AT+CGMM"
    ∷ entry at_get_cgmi "AT_GET_CGMI" "AT+CGMI"
    ∷ entry at_check_signal1 "AT_CHECK_SIGNAL1" "+CSQ:"
    ∷ entry at_check_signal2 "AT_CHECK_SIGNAL2" "+CSQN:"
    ∷ entry at_get_signal1 "AT_GET_SIGNAL1" "+CSQ: $COVERAGE,$BER"
    ∷ entry at_get_signal2 "AT_GET_SIGNAL2" "+CSQN: $COVERAGE,$BER"
    ∷ entry at_atz "AT_ATZ" "ATZ"
    ∷ entry at_dial "AT_DIAL" "ATD$D_NUMBER;"
    ∷ entry at_answer "AT_ANSWER" "ATA"
    ∷ entry at_hangup "AT_HANGUP" "ATH"
    ∷ entry at_send_sms_text_mode "AT_SEND_SMS_TEXT_MODE" "AT+CMGF=1"
    ∷ entry at_send_sms_pdu_mode "AT_SEND_SMS_PDU_MODE" "AT+CMGF=0"
    ∷ entry at_send_pin "AT_SEND_PIN" "AT+CPIN=\"$PIN_NUMBER\""
    ∷ entry at_check_sms "AT_CHECK_SMS" "+CMT:"
    ∷ entry at_error "AT_ERROR" "ERROR"
    ∷ entry at_no_carrier "AT_NO_CARRIER" "NO CARRIER"
    ∷ entry at_no_answer "AT_NO_ANSWER" "NO ANSWER"
    ∷ entry at_ok "AT_OK" "OK"
    ∷ entry at_ucs2 "AT_UCS2" "AT+CSCS=\"UCS2\""
    ∷ entry at_gsm "AT_GSM" "AT+CSCS=\"GSM\""
    ∷ entry at_send_sms_len "AT_SEND_SMS_LEN" "AT+CMGS=$SMS_LEN"
    ∷ entry at_send_sms_des "AT_SEND_SMS_DES" "AT+CMGS=\"$SMS_DES\""
    ∷ entry at_cms_error "AT_CMS_ERROR" "+CMS ERROR"
    ∷ entry at_cme_error "AT_CME_ERROR" "+CME ERROR"
    ∷ entry at_send_sms_success "AT_SEND_SMS_SUCCESS" "+CMGS:"
    ∷ entry at_creg "AT_CREG" "+CREG:"
    ∷ entry at_creg0 "AT_CREG0" "+CREG: 0"
    ∷ entry at_creg1 "AT_CREG1" "+CREG: 1"
    ∷ entry at_creg2 "AT_CREG2" "+CREG: 2"
    ∷ entry at_creg3 "AT_CREG3" "+CREG: 3"
    ∷ entry at_creg4 "AT_CREG4" "+CREG: 4"
    ∷ entry at_creg5 "AT_CREG5" "+CREG: 5"
    ∷ entry at_creg10 "AT_CREG10" "+CREG: 1,0"
    ∷ entry at_creg11 "AT_CREG11" "+CREG: 1,1"
    ∷ entry at_creg12 "AT_CREG12" "+CREG: 1,2"
    ∷ entry at_creg13 "AT_CREG13" "+CREG: 1,3"
    ∷ entry at_creg14 "AT_CREG14" "+CREG: 1,4"
    ∷ entry at_creg15 "AT_CREG15" "+CREG: 1,5"
    ∷ entry at_get_manufacturer "AT_GET_MANUFACTURER" "AT+CGMI"
    ∷ entry at_get_smsc "AT_GET_SMSC" "AT+CSCA?"
    ∷ entry at_get_version "AT_GET_VERSION" "AT+CGMR"
    ∷ entry at_get_imei "AT_GET_IMEI" "AT+CGSN"
    ∷ entry at_ask_pin "AT_ASK_PIN" "AT+CPIN?"
    ∷ entry at_pin_ready "AT_PIN_READY" "+CPIN: READY"
    ∷ entry at_pin_sim "AT_PIN_SIM" "+CPIN: SIM PIN"
    ∷ entry at_imsi "AT_IMSI" "AT+CIMI"
    ∷ entry at_sim_no_inserted "AT_SIM_NO_INSERTED" "+CME ERROR: SIM not inserted"
    ∷ entry at_moc_enabled "AT_MOC_ENABLED" "AT+QMOSTAT=1"
    ∷ entry at_set_side_tone "AT_SET_SIDE_TONE" "AT+QSIDET=0"
    ∷ entry at_clip_enabled "AT_CLIP_ENABLED" "AT+CLIP=1"
    ∷ entry at_dtr_wakeup "AT_DTR_WAKEUP" "AT"
    ∷ entry at_rssi_enabled "AT_RSSI_ENABLED" "AT+CREG=1"
    ∷ entry at_set_net_urc "AT_SET_NET_URC" "AT+QEXTUNSOL=\"SQ\",1"
    ∷ entry at_ask_net "AT_ASK_NET" "AT+CREG?"
    ∷ entry at_net_ok "AT_NET_OK" "AT+COPS=3,0"
    ∷ entry at_sms_set_charset "AT_SMS_SET_CHARSET" "AT+CNMI=2,2,0,0,0"
    ∷ entry at_ask_net_name "AT_ASK_NET_NAME" "AT+COPS?"
    ∷ entry at_check_net "AT_CHECK_NET" "+COPS:"
    ∷ entry at_net_name "AT_NET_NAME" "AT+CSQ"
    ∷ entry at_incoming_call "AT_INCOMING_CALL" "+CLIP:"
    ∷ entry at_get_cid "AT_GET_CID" "+CLIP: \"$CID_NUMBER\""
    ∷ entry at_ring "AT_RING" "RING"
    ∷ entry at_call_init "AT_CALL_INIT" "AT+QAUDCH=1"
    ∷ entry at_call_proceeding "AT_CALL_PROCEEDING" "AT+CLVL?"
    ∷ entry at_call_status "AT_CALL_STATUS" "AT+CLCC"
    ∷ entry at_mo_connected "AT_MO_CONNECTED" "MO CONNECTED"
    ∷ entry at_no_dialtone "AT_NO_DIALTONE" "NO DIALTONE"
    ∷ entry at_busy "AT_BUSY" "BUSY"
    ∷ entry at_cmic "AT_CMIC" "AT+QMIC=0,$MICROPHONE_LEVEL"
    ∷ entry at_clvl "AT_CLVL" "AT+CLVL=$VOLUME_LEVEL"
    ∷ entry at_mode "AT_MODE" "ATX4"
    ∷ entry at_cmux "AT_CMUX" "AT+CMUX=0"
    ∷ entry at_send_ussd "AT_SEND_USSD" "AT+CUSD=1,\"$USSD_CODE\""
    ∷ entry at_check_ussd "AT_CHECK_USSD" "+CUSD:"
    ∷ entry at_vts "AT_VTS" "AT+VTS=$DTMF"
    ∷ []
