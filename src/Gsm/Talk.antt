-- ===== src/Gsm/Talk.antt =====
-- The calls of a module that is up: the cases of the switch of `module_receive`, in
-- src/libgsmat/gsm_module.c, from `GSM_STATE_READY` on, and `get_cid` of src/libgsmat/gsm_config.c.
use chan_extra.Prelude.{
  ℕ, ◌-◌, Bool, true, false, ◌&&◌, ◌||◌, Option, none, some, List, ◌++◌, ltb, if◌then◌else◌, take,
  length, replicate,
}
use chan_extra.Config.Commands.{
  at_answer, at_busy, at_call_init, at_call_proceeding, at_check_net, at_get_cid, at_hangup,
  at_incoming_call, at_mo_connected, at_net_name, at_no_answer, at_no_carrier, at_no_dialtone,
  at_ok, at_ring, codes,
}
use chan_extra.Config.Template.{replaced, str_check_symbol, str_replace, unchanged, undefined}
use chan_extra.Gsm.Text.{strchr}
use chan_extra.Gsm.State.{
  ModuleState, at_call_state_active, at_call_state_call_initiated, at_call_state_call_present,
  at_call_state_null, gsm_event_answer, gsm_event_mo_ringing, gsm_event_proceeding,
  gsm_event_progress, gsm_state_call_active, gsm_state_call_init, gsm_state_call_made,
  gsm_state_call_proceeding, gsm_state_call_progress, gsm_state_hangup_req, gsm_state_phone_check,
  gsm_state_pre_answer, gsm_state_ready, gsm_state_ring, gsm_state_ringing,
}
use chan_extra.Gsm.Call.{AtCall, find_call, gsm_call_destroy, new_at_call, update_call}
use chan_extra.Gsm.Module.{
  Env, Gsm, Result, answer, at, check_phone, event, fault, gsm_send_at, gsm_switch_state, hangup,
  more, proceeding, ring, ringing,
}
use chan_extra.Gsm.Start.{says}
use chan_extra.Gsm.Dial.{Hangup, bad_timer, freed, gsm_hangup, hung, not_hung}

-- The call that `module_receive` has looked up.
unfoldable pub call_of : Gsm → AtCall
unfolding find_call new_at_call
call_of g = elim (find_call g.pool.callpool g.pool.cref) [
  | none ↦ new_at_call g.pool.cref
  | some c ↦ c
]

unfoldable pub with_call : Gsm → (AtCall → AtCall) → Gsm
unfolding update_call
with_call g f = record g { pool = update_call g.pool g.pool.cref f }

-- The call is over, before it is freed.
unfoldable pub over : AtCall → AtCall
over c = record c {
  ourcallstate = at_call_state_null;
  peercallstate = at_call_state_null;
  alive = false;
  sendhangupack = false;
}

-- The call is lost: the module is ready, and the call is freed.
unfoldable pub lose_call : Gsm → Option (Option ℕ) → ℕ → Result
unfolding with_call over gsm_call_destroy
lose_call g channel cause =
    let g' : Gsm = record (with_call g over) {
      state = gsm_state_ready;
      ev = hangup channel cause g.pool.cref;
    } in
    elim (gsm_call_destroy g'.pool g.pool.cref) [
      | none ↦ fault
      | some p ↦ event (record g' { pool = p })
    ]

-- An array of `n` characters that `strncpy` has filled with a text.
unfoldable pub filled : ℕ → List ℕ → List ℕ
filled n text = take n text ++ replicate (n - length text) 0

-- The text up to a quote.
unfoldable pub unended : List ℕ → List ℕ
unfolding strchr
unended text = elim (strchr text b'"') [ none ↦ text | some found ↦ take found.0 text ]

-- The event is returned whatever `gsm_hangup` returns, if it does.
unfoldable pub hangup_result : Hangup → Result
hangup_result bad_timer = fault
hangup_result (freed g) = fault
hangup_result (not_hung g) = event g
hangup_result (hung g) = event g

module _ (env : Env) where
  -- On the template of the command: what is in the buffer of a caller's number. `none` is
  -- undefined.
  unfoldable pub get_cid : List ℕ → List ℕ → Option (List ℕ)
  unfolding str_check_symbol str_replace unended
  get_cid template h = elim (str_check_symbol template 1024) [
    | none ↦ none
    | some temp ↦ elim (str_replace temp 1024 (codes "$CID_NUMBER") (codes "%64s")) [
      | unchanged ↦ none
      | undefined ↦ none
      | replaced format ↦
          let (text, read) = env.scan_text format h in some (if read then unended text else text)
    ]
  ]

  -- A call comes in.
  unfoldable pub ring_call : Gsm → List ℕ → Gsm
  unfolding with_call call_of
  ring_call g caller_id =
      let c = call_of g in
      record (with_call g (λ c. record c {
        newcall = false;
        ourcallstate = at_call_state_call_present;
        peercallstate = at_call_state_call_initiated;
        alive = true;
      })) {
        state = gsm_state_ring;
        ev = ring c.channelno c.cr caller_id c.complete c.progress c.progressmask;
      }

  unfoldable pub on_ready : Gsm → List ℕ → Result
  unfolding says filled call_of get_cid at ring_call
  on_ready g_in buf =
      let g : Gsm = record g_in { already_set_mux_mode = false } in
      if says env g buf at_check_net
      then more (record g { net_name = filled 64 buf }) buf
      else if says env g buf at_incoming_call
      then (if (call_of g).newcall
          then elim (get_cid (at env g at_get_cid) buf) [
            | none ↦ fault
            | some caller_id ↦ event (ring_call g caller_id)
          ]
          else more g buf)
      else more (record g { send_at = false }) buf

  unfoldable pub on_ring : Gsm → List ℕ → Result
  unfolding says with_call call_of
  on_ring g buf =
      let c = call_of g in
      if says env g buf at_ring
      then event (record (with_call g (λ c. record c { alive = true })) {
        state = gsm_state_ringing;
        ev = ringing c.channelno c.cr c.progress c.progressmask;
      })
      else more g buf

  unfoldable pub no_carrier : Gsm → List ℕ → Bool
  unfolding says
  no_carrier g buf = says env g buf at_no_carrier || says env g buf at_no_answer

  unfoldable pub on_ringing : Gsm → List ℕ → Result
  unfolding no_carrier lose_call call_of
  on_ringing g buf =
      if no_carrier g buf then lose_call g (some (call_of g).channelno) 19 else more g buf

  unfoldable pub on_pre_answer : Gsm → List ℕ → Result
  unfolding says with_call call_of
  on_pre_answer g buf =
      let c = call_of g in
      if says env g buf at_ok && says env g g.at_last_sent at_answer
      then event
          (record (with_call g (λ c. record c {
            ourcallstate = at_call_state_active;
            peercallstate = at_call_state_active;
            alive = true;
          })) { state = gsm_state_call_active; ev = answer gsm_event_answer c.channelno c.cr })
      else more g buf

  -- The module as `gsm_hangup` finds it.
  unfoldable pub ended_call : Gsm → Gsm
  unfolding gsm_switch_state at with_call
  ended_call g =
      let ready = gsm_switch_state env g gsm_state_ready (at env g at_net_name) in
      record (with_call ready over) { ev = hangup (some (some 1)) 16 g.pool.cref }

  -- `gsm_hangup` frees the call, whose state it then reads.
  unfoldable pub on_call_active : Gsm → List ℕ → Result
  on_call_active g buf =
      if no_carrier g buf
      then hangup_result (gsm_hangup env (ended_call g) g.pool.cref (some 16))
      else more g buf

  unfoldable pub on_hangup_req : Gsm → List ℕ → Result
  unfolding says with_call over
  on_hangup_req g buf =
      if says env g buf at_ok && says env g g.at_last_sent at_hangup
      then event (record (with_call g over) {
        state = gsm_state_ready;
        ev = hangup (some (some 1)) 16 g.pool.cref;
      })
      else more g buf

  unfoldable pub on_call_init : Gsm → List ℕ → Gsm
  unfolding says gsm_send_at at
  on_call_init g buf =
      if says env g buf at_ok
      then record (gsm_send_at env g (at env g at_call_init)) { state = gsm_state_call_made }
      else g

  unfoldable pub on_call_made : Gsm → List ℕ → Result
  unfolding says with_call gsm_switch_state at
  on_call_made g buf =
      if says env g buf at_ok && says env g g.at_last_sent at_call_init
      then event
          (record (gsm_switch_state env (with_call g (λ c. record c { channelno = some 1 }))
            gsm_state_call_proceeding (at env g at_call_proceeding)) {
              ev = proceeding gsm_event_proceeding (some 1) g.pool.cref;
            })
      else more g buf

  unfoldable pub on_call_proceeding : Gsm → List ℕ → Result
  unfolding says call_of
  on_call_proceeding g buf =
      if says env g buf at_ok && says env g g.at_last_sent at_call_proceeding
      then event (record g {
        state = gsm_state_call_progress;
        ev = proceeding gsm_event_progress (call_of g).channelno g.pool.cref;
      })
      else more g buf

  unfoldable pub on_call_progress : Gsm → List ℕ → Result
  unfolding says with_call call_of
  on_call_progress g buf =
      let alive = with_call g (λ c. record c { alive = true }) in
      if says env g buf at_ring
      then event
          (record alive { ev = answer gsm_event_mo_ringing (call_of g).channelno g.pool.cref })
      else if says env g buf at_mo_connected
      then event (record alive {
        state = gsm_state_call_active;
        ev = answer gsm_event_answer (call_of g).channelno g.pool.cref;
      })
      else more g buf

  -- What has been found out of a phone, of `enum phone_stat`; the module hangs up where `hang`
  -- says so.
  unfoldable pub phone_found : Gsm → Bool → ℕ → Result
  unfolding gsm_switch_state at
  phone_found g hang info =
      let h =
        if hang then gsm_switch_state env g gsm_state_hangup_req (at env g at_hangup) else g in
      event (record h { ev = check_phone info; phone_stat = some info })

  -- The words that tell of a phone that does not ring.
  unfoldable pub on_phone_words : Gsm → List ℕ → Result
  unfolding says phone_found
  on_phone_words g buf =
      if says env g buf at_busy
      then phone_found g true 3
      else if says env g buf at_mo_connected
      then phone_found g true 1
      else if says env g buf at_no_carrier
      then phone_found g true 5
      else if says env g buf at_no_answer
      then phone_found g true 6
      else if says env g buf at_no_dialtone
      then phone_found g true 7
      else more g buf

  unfoldable pub on_phone_check : Gsm → List ℕ → Result
  unfolding says phone_found on_phone_words
  on_phone_check g buf =
      if ltb env.now g.check_timeout
      then (if says env g buf at_ring
          then phone_found g g.auto_hangup_flag 2
          else on_phone_words g buf)
      else if g.auto_hangup_flag
      then phone_found g true 8
      else on_phone_words g buf

  unfoldable pub talk_line : ModuleState → Gsm → List ℕ → Result
  unfolding on_ready on_ring on_ringing on_pre_answer on_call_active on_hangup_req on_call_init
      on_call_made on_call_proceeding on_call_progress on_phone_check
  talk_line gsm_state_ready g buf = on_ready g buf
  talk_line gsm_state_ring g buf = on_ring g buf
  talk_line gsm_state_ringing g buf = on_ringing g buf
  talk_line gsm_state_pre_answer g buf = on_pre_answer g buf
  talk_line gsm_state_call_active g buf = on_call_active g buf
  talk_line gsm_state_hangup_req g buf = on_hangup_req g buf
  talk_line gsm_state_call_init g buf = more (on_call_init g buf) buf
  talk_line gsm_state_call_made g buf = on_call_made g buf
  talk_line gsm_state_call_proceeding g buf = on_call_proceeding g buf
  talk_line gsm_state_call_progress g buf = on_call_progress g buf
  talk_line gsm_state_phone_check g buf = on_phone_check g buf
  talk_line other g buf = more g buf
