-- ===== src/Gsm/Queue/Later.antt =====
-- A message that waits is sent as it would have been at once.
use chan_extra.Prelude.{
  ℕ, ◌≡◌, refl, true, false, some, List, [], ◌∷◌, ◌++◌, length, get_elem?, get_or, drop, ◌<◌,
  get_or-set_self, ◌∙◌, ◌/◌, ◌-◌, take,
}
use chan_extra.Sched.{deadline, find_free, gsm_schedule_check, gsm_schedule_event, empty_slot, Slot}
use chan_extra.Gsm.Module.{Env, Gsm, SmsInfo, is_ready}
use chan_extra.Sms.Hex.{gsm_hex2int}
use chan_extra.Sms.Submit.{pdu_get_send_number}
use chan_extra.Gsm.Queue.{
  Message, Queue, Request, gsm_resend_sms_pdu, gsm_resend_sms_txt, gsm_resend_ussd, gsm_send,
  gsm_send_pdu, gsm_send_text, gsm_send_ussd, pdu_message, message_at, pdu_request, queued,
  resend_message, run_callback, schedule_message, send_message, text_message, text_request,
  ussd_message, ussd_request,
}

get_elem-end : {A : Type 0} (xs : List A) (v : A) → get_elem? (xs ++ (v ∷ [])) (length xs) ≡ some v
get_elem-end [] v = refl
get_elem-end (x ∷ xs) v = get_elem-end xs v

-- The message waits in a slot of the table.
abbrev waiting : Env → Queue → ℕ → Message → Queue
waiting env q callback message =
    let pool = q.gsm.pool in
    let (sched, id) = gsm_schedule_event pool.sched env.clock 2000 callback (length q.heap) in
    record {
      gsm = record q.gsm { pool = record pool { sched = sched } };
      heap = q.heap ++ (some message ∷ []);
    }

waiting-message_at :
    (env : Env) (q : Queue) (callback : ℕ) (message : Message) (g : Gsm)
    → message_at (record (waiting env q callback message) { gsm = g }) (length q.heap)
      ≡ some message
unfolding message_at
waiting-message_at env q callback message g =
    rw (message_at, get_elem-end q.heap (some message)) refl

module _ (env : Env) (q : Queue) (callback : ℕ) (message : Message) (x : ℕ) where
  waits-send_message :
      is_ready q.gsm.state ≡ false
      → find_free (drop 1 q.gsm.pool.sched.slots) 1 ≡ some x
      → send_message env q callback message ≡ queued (waiting env q callback message)
  unfolding send_message schedule_message gsm_schedule_check gsm_schedule_event
  waits-send_message waits free =
      rw (send_message, waits, gsm_schedule_check, free, schedule_message, gsm_schedule_event, free)
        refl

  -- The slot is set as it is asked for.
  waiting-slot :
      find_free (drop 1 q.gsm.pool.sched.slots) 1 ≡ some x
      → x < length q.gsm.pool.sched.slots
      → get_or (waiting env q callback message).gsm.pool.sched.slots x empty_slot
        ≡ record { when = deadline env.clock 2000; callback = some callback; arg = length q.heap }
  unfolding gsm_schedule_event
  waiting-slot free inside =
      let slot : Slot = record {
        when = deadline env.clock 2000;
        callback = some callback;
        arg = length q.heap;
      } in
      let stored = get_or-set_self q.gsm.pool.sched.slots x slot empty_slot inside in
      rw (gsm_schedule_event, free, stored) refl

  -- A module that is ready gets the message as if it were given only now.
  resend_message-waiting :
      (g : Gsm)
      → is_ready g.state ≡ true
      → resend_message env
          (record (waiting env q callback message) { gsm = g })
          callback
          (length q.heap)
          message
        ≡ send_message env (record q { gsm = g }) callback message
  unfolding resend_message send_message
  resend_message-waiting g ready = rw (resend_message, send_message, ready) refl

-- The callbacks find the message of the kind that they are for.
run_callback-text :
    (env : Env) (q : Queue) (place : ℕ) (info : SmsInfo)
    → message_at q place ≡ some (text_message info)
    → run_callback env 2 q place ≡ resend_message env q 2 place (text_message info)
unfolding run_callback gsm_resend_sms_txt
run_callback-text env q place info there = rw (run_callback, gsm_resend_sms_txt, there) refl

run_callback-pdu :
    (env : Env) (q : Queue) (place : ℕ) (info : SmsInfo)
    → message_at q place ≡ some (pdu_message info)
    → run_callback env 3 q place ≡ resend_message env q 3 place (pdu_message info)
unfolding run_callback gsm_resend_sms_pdu
run_callback-pdu env q place info there = rw (run_callback, gsm_resend_sms_pdu, there) refl

run_callback-ussd :
    (env : Env) (q : Queue) (place : ℕ) (text : List ℕ)
    → message_at q place ≡ some (ussd_message text)
    → run_callback env 4 q place ≡ resend_message env q 4 place (ussd_message text)
unfolding run_callback gsm_resend_ussd
run_callback-ussd env q place text there = rw (run_callback, gsm_resend_ussd, there) refl

-- A request that comes to a module which is not ready, while the table has a free slot, is taken: the
-- first such slot is due after two seconds, with a callback and the message's place. When that callback is made
-- with that place and the module, whatever has become of it, is ready by then, it does what the
-- request would do if it came to the module only now, for a text, a PDU and a USSD alike.
pub run_callback-gsm_send :
    (env : Env) (q : Queue) (r : Request) (x : ℕ) (g : Gsm)
    → is_ready q.gsm.state ≡ false
    → find_free (drop 1 q.gsm.pool.sched.slots) 1 ≡ some x
    → x < length q.gsm.pool.sched.slots
    → is_ready g.state ≡ true
    → (q' : Queue) × (callback : ℕ) × (gsm_send env q r ≡ queued q')
      × (get_or q'.gsm.pool.sched.slots x empty_slot ≡ record {
        when = deadline env.clock 2000;
        callback = some callback;
        arg = length q.heap;
      })
      × (run_callback env callback (record q' { gsm = g }) (length q.heap)
          ≡ gsm_send env (record q { gsm = g }) r)
unfolding gsm_send gsm_send_text gsm_send_pdu gsm_send_ussd
run_callback-gsm_send env q (text_request destination text) x g waits free inside ready =
    let info : SmsInfo = record {
      destination = take 512 destination;
      message = take 1024 text;
      len = 0;
    } in
    let message = text_message info in
    let found = waiting-message_at env q 2 message g in
    (
      waiting env q 2 message,
      2,
      waits-send_message env q 2 message x waits free,
      waiting-slot env q 2 message x free inside,
      run_callback-text env (record (waiting env q 2 message) { gsm = g }) (length q.heap) info
            found
          ∙ resend_message-waiting env q 2 message x g ready,
    )
run_callback-gsm_send env q (pdu_request text) x g waits free inside ready =
    let info : SmsInfo = record {
      destination = take 512 (pdu_get_send_number text);
      message = take 1024 text;
      len = length text / 2 - 1 - gsm_hex2int (take 2 text) 2;
    } in
    let message = pdu_message info in
    let found = waiting-message_at env q 3 message g in
    (
      waiting env q 3 message,
      3,
      waits-send_message env q 3 message x waits free,
      waiting-slot env q 3 message x free inside,
      run_callback-pdu env (record (waiting env q 3 message) { gsm = g }) (length q.heap) info found
          ∙ resend_message-waiting env q 3 message x g ready,
    )
run_callback-gsm_send env q (ussd_request text) x g waits free inside ready =
    let message = ussd_message (take 1024 text) in
    let found = waiting-message_at env q 4 message g in
    (
      waiting env q 4 message,
      4,
      waits-send_message env q 4 message x waits free,
      waiting-slot env q 4 message x free inside,
      run_callback-ussd env (record (waiting env q 4 message) { gsm = g }) (length q.heap)
            (take 1024 text) found
          ∙ resend_message-waiting env q 4 message x g ready,
    )
