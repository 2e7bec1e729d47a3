-- ===== src/Gsm/Tests.antt =====
-- Runs of a module at concrete inputs.
use chan_extra.Prelude.{
  get_or, ℕ, ◌≡◌, ◌≢◌, refl, List, [], ◌∷◌, ◌++◌, Option, none, some, true, false, take, replicate,
  arith,
}
use chan_extra.Config.Commands.{at_get_manufacturer, codes}
use chan_extra.Config.File.{default_value}
use chan_extra.Sms.Event.{sms_text, sms_pdu, SmsReceived}
use chan_extra.Sched.{deadline, empty_slot, find_free}
use chan_extra.Gsm.Text.{gsm_compare, gsm_get_smsc}
use chan_extra.Gsm.San.{arrays_fit, cr_of, gsm_san, out_text, san_add, san_rest, skip_of}
use chan_extra.Gsm.State.{
  EventId, ModuleState, gsm_event_detect_module_ok, gsm_event_hangup, gsm_event_ring,
  gsm_event_sms_send_ok, gsm_event_dchan_up, gsm_state_call_active, gsm_state_call_progress,
  gsm_state_down, gsm_state_manufacturer_req, gsm_state_net_req, gsm_state_ready, gsm_state_ring,
  gsm_state_sim_ready, gsm_state_up, no_event, rank,
}
use chan_extra.Gsm.Call.{Pool, find_call, gsm_getcall, gsm_new_call, new_at_call}
use chan_extra.Gsm.Call.Distinct.{IsDistinct, made, run-IsDistinct, stay, step}
use chan_extra.Gsm.Module.{
  Env, Gsm, SmsInfo, at, event, event_id, fault, is_ready, module_start, more, simple,
}
use chan_extra.Gsm.Start.{Return, crashed, returned, says, spinning, start_loop}
use chan_extra.Gsm.Start.Blank.{start_loop-blank, waiting}
use chan_extra.Gsm.Init.{init_line}
use chan_extra.Gsm.Init.Exchange.{
  first_answers, last_answers, net_named, searching, texts, waits_for,
}
use chan_extra.Gsm.Init.Dialogue.{commands, gsm_check_event-comes_up}
use chan_extra.Gsm.Sms.Dialogue.{run_text, run_text-ends}
use chan_extra.Gsm.Talk.{lose_call, no_carrier}
use chan_extra.Gsm.Receive.{
  after_line, check_lost, gsm_check_event, module_receive, receive_line, receive_loop, on_state,
}
use chan_extra.Gsm.Receive.Converse.{converse, module_of}
use chan_extra.Gsm.Receive.Lines.{each_line, module_receive-framed}
use chan_extra.Gsm.Receive.Rounds.{receive_loop-ends}
use chan_extra.Gsm.Receive.Lost.{receive_line-freed, receive_line-call_active, tells_lost}
use chan_extra.Gsm.Reset.{gsm_reset, gsm_reset_timeout}
use chan_extra.Gsm.Queue.{Queue, gsm_send, queued, run_callback, text_request}
use chan_extra.Gsm.Queue.Later.{run_callback-gsm_send}

abbrev env : Env
env = record {
  cfgs = [];
  accepts = λ text. true;
  now = 100;
  clock = record { sec = 100; usec = 0 };
  t316 = 30000;
  scan_number = λ format h. 21;
  scan_text = λ format h. (codes "10086", true);
  iconv = λ to from text n. none;
  sms_text_coding = codes "UTF-8";
}

abbrev idle_pool : Pool
idle_pool = record {
  callpool = new_at_call 3 ∷ new_at_call 5 ∷ [];
  cref = 5;
  sched = record { slots = []; maxsched = 0; schedev = false };
  retranstimer = 0;
}

abbrev no_sms : SmsReceived
no_sms = record {
  mode = sms_pdu;
  pdu = [];
  sender = [];
  smsc = [];
  time = [];
  tz = [];
  len = 0;
  text = [];
}

-- A module with two calls, in a state, that has received a text.
abbrev module_in : ModuleState → List ℕ → Gsm
module_in state text = record {
  state = state;
  sim_state = gsm_state_sim_ready;
  switchtype = none;
  network = 1;
  coverage = 20;
  resetting = false;
  already_set_mux_mode = false;
  send_at = false;
  auto_hangup_flag = false;
  check_timeout = 0;
  phone_stat = none;
  vol = none;
  mic = none;
  at_last_sent = codes "AT+CLVL?\r\n";
  at_last_recv = text;
  at_pre_recv = text;
  manufacturer = [];
  model_name = [];
  revision = [];
  imei = [];
  imsi = [];
  sim_smsc = replicate 32 0;
  net_name = replicate 64 0;
  sms_mod_flag = sms_text;
  sms_info = none;
  ussd_info = none;
  sms_recv_buffer = [];
  sms_sent_buffer = [];
  ussd_sent_buffer = [];
  san = record { text = []; idx = 0 };
  pool = idle_pool;
  ev = simple no_event;
  sms_event = no_sms;
  sent = [];
}

module_receive-framed_example :
    module_receive env 4 (module_in gsm_state_ready []) (codes "\r\n+CSQ: 21,0\r\n\r\nOK\r\n")
    ≡ each_line env 0
        (record (module_in gsm_state_ready []) { pool = gsm_getcall idle_pool 5 })
        (codes "+CSQ: 21,0" ∷ codes "OK" ∷ [])
module_receive-framed_example =
    module_receive-framed env 4 (module_in gsm_state_ready [])
      (codes "\r\n+CSQ: 21,0\r\n\r\nOK\r\n") [] (codes "+CSQ: 21,0") (codes "OK" ∷ [])
      (ground arith) (ground arith) refl refl tt (ground arith) (ground arith)

receive_loop-ends_example :
    receive_loop env 20 0 (module_in gsm_state_ready []) (codes "\r\nRING\r\n") ≢ spinning
receive_loop-ends_example =
    receive_loop-ends env 20 0 (module_in gsm_state_ready []) (codes "\r\nRING\r\n") (ground arith)

start_loop-blank_example :
    start_loop env 100
      (waiting (module_in gsm_state_up (codes "\r\n+CMT: \"1\",,\"d\"\r\n\r\n")) [])
      (codes "\r\n\r\n")
    ≡ spinning
unfolding gsm_compare says at default_value
start_loop-blank_example =
    start_loop-blank env 100 (module_in gsm_state_up (codes "\r\n+CMT: \"1\",,\"d\"\r\n\r\n")) []
      refl refl

run-IsDistinct_example : IsDistinct (gsm_new_call idle_pool).callpool
unfolding gsm_new_call new_at_call
run-IsDistinct_example = run-IsDistinct (step {p = idle_pool} made stay) (ground arith)

receive_line-call_active_example :
    receive_line env 1 (module_in gsm_state_call_active []) (codes "NO CARRIER") ≡ fault
unfolding find_call no_carrier default_value new_at_call
receive_line-call_active_example =
    receive_line-call_active env 1 (module_in gsm_state_call_active []) (codes "NO CARRIER")
      (new_at_call 5) refl refl

receive_line-freed_example :
    (q : Gsm) × (receive_line env 1 (module_in gsm_state_call_progress []) (codes "BUSY") ≡ event q)
    × (q.state ≡ gsm_state_ready)
    × (event_id q.ev ≡ gsm_event_hangup)
    × (find_call q.pool.callpool 5 ≡ none)
unfolding rank tells_lost default_value new_at_call on_state
receive_line-freed_example =
    receive_line-freed env 1 (module_in gsm_state_call_progress [])
      (module_in gsm_state_call_progress []) (codes "BUSY") (codes "BUSY") refl (ground arith) refl
      (ground arith) refl

gsm_check_event-comes_up_example :
    (h : Gsm) × (converse env
        (waits_for gsm_state_manufacturer_req at_get_manufacturer (module_in gsm_state_ready []))
        (texts first_answers
          ++ (searching.text ∷ searching.text ∷ (texts last_answers ++ (net_named ∷ []))))
      ≡ returned true h)
    × (h.state ≡ gsm_state_ready)
    × (h.ev ≡ simple gsm_event_dchan_up)
    × (h.sent ≡ commands)
gsm_check_event-comes_up_example = gsm_check_event-comes_up env (module_in gsm_state_ready []) 2

abbrev hello : SmsInfo
hello = record { destination = codes "10086"; message = codes "hi"; len = 0 }

run_text-ends_example :
    let h =
      module_of
        (module_in gsm_state_ready [])
        (run_text env (module_in gsm_state_ready []) hello (codes "hi")) in
    (run_text env (module_in gsm_state_ready []) hello (codes "hi") ≡ returned true h)
    × (h.state ≡ gsm_state_ready)
    × (h.ev ≡ simple gsm_event_sms_send_ok)
    × (h.sent
        ≡ codes "AT+CMGF=1\r\n"
          ∷ codes "AT+CSCS=\"GSM\"\r\n"
          ∷ codes "AT+CMGS=\"10086\"\r\n"
          ∷ codes "hi"
          ∷ (0x1a ∷ codes "\r\n")
          ∷ codes "AT+CMGF=0\r\n"
          ∷ [])
run_text-ends_example = run_text-ends env (module_in gsm_state_ready []) hello (codes "hi")

-- A shorter number leaves the end of the longer one that was there.
smsc_tail :
    take 5 (gsm_get_smsc (take 32 (codes "12345" ++ replicate 32 0)) (codes "+CSCA: \"99\",145"))
    ≡ codes "99345"
unfolding gsm_get_smsc
smsc_tail = refl

abbrev waiting_queue : Queue
waiting_queue = record {
  gsm = record (module_in gsm_state_net_req []) {
    pool = record idle_pool {
      sched = record {
        slots = empty_slot ∷ empty_slot ∷ empty_slot ∷ [];
        maxsched = 0;
        schedev = false;
      };
    };
  };
  heap = [];
}

run_callback-gsm_send_example :
    (q' : Queue) × (callback : ℕ) × (gsm_send env waiting_queue
        (text_request (codes "10086") (codes "hi"))
      ≡ queued q')
    × (get_or q'.gsm.pool.sched.slots 1 empty_slot
        ≡ record { when = deadline env.clock 2000; callback = some callback; arg = 0 })
    × (run_callback env callback (record q' { gsm = module_in gsm_state_ready [] }) 0
        ≡ gsm_send env
            (record waiting_queue { gsm = module_in gsm_state_ready [] })
            (text_request (codes "10086") (codes "hi")))
unfolding is_ready find_free
run_callback-gsm_send_example =
    run_callback-gsm_send env waiting_queue (text_request (codes "10086") (codes "hi")) 1
      (module_in gsm_state_ready []) refl refl (ground arith) refl

-- The event and the state that an input leads to.
abbrev outcome : Return → Option (EventId × ModuleState)
outcome spinning = none
outcome crashed = none
outcome (returned e g) = some (event_id g.ev, g.state)

incoming_call :
    outcome
      (gsm_check_event env (module_in gsm_state_ready []) (codes "\r\n+CLIP: \"10086\",129\r\n"))
    ≡ some (gsm_event_ring, gsm_state_ring)
unfolding gsm_check_event gsm_san san_add skip_of cr_of san_rest check_lost default_value event_id
    no_carrier lose_call after_line receive_line arrays_fit out_text
incoming_call = refl

first_answer :
    outcome (
      gsm_check_event env (module_start env (module_in gsm_state_down [])) (codes "AT\r\r\nOK\r\n"))
    ≡ some (gsm_event_detect_module_ok, gsm_state_up)
unfolding gsm_check_event gsm_san san_add skip_of cr_of san_rest default_value event_id module_start
first_answer = refl

-- The name of the model is asked for a second way, and the answer to that never comes to an end.
stuck_model :
    init_line env gsm_state_manufacturer_req
      (record (module_in gsm_state_manufacturer_req []) { at_last_sent = codes "AT+GMI\r\n" })
      (codes "OK")
    ≡ more
        (record (module_in gsm_state_manufacturer_req []) { at_last_sent = codes "AT+GMI\r\n" })
        (codes "OK")
unfolding init_line default_value
stuck_model = refl

abbrev reset_once : Gsm
reset_once = (gsm_reset env waiting_queue.gsm 1).0

-- A reset asks for the default settings, and again when its timer has run out.
reset_twice :
    (reset_once.state ≡ gsm_state_up)
    × (reset_once.pool.retranstimer ≡ 1)
    × ((gsm_reset_timeout env reset_once 0).at_last_sent ≡ codes "ATZ\r\n")
    × ((gsm_reset_timeout env reset_once 0).pool.retranstimer ≡ 2)
unfolding gsm_reset gsm_reset_timeout default_value
reset_twice = (refl, refl, refl, refl)
