-- ===== src/Gsm/Start.antt =====
-- The first steps of a module: `gsm_set_switchtype` of src/libgsmat/gsm.c, from the first command
-- to the name of the model.
pub mod Blank
use chan_extra.Prelude.{
  ℕ, zero, suc, ◌+◌, ◌-◌, ◌*◌, ◌/◌, ◌%◌, ◌^◌, Bool, true, false, not, ◌&&◌, ◌||◌, Option, none,
  some, List, [], ◌∷◌, ◌++◌, ltb, leb, ◌==◌, if◌then◌else◌, take, drop, bind, length,
}
use chan_extra.Config.Commands.{
  AtId, at_atz, at_check, at_error, at_get_cgmi, at_get_cgmm, at_hangup, at_no_answer,
  at_no_carrier, at_ok, at_set_cmee, at_set_echo_mode, codes,
}
use chan_extra.Config.File.{gsm_set_module_id}
use chan_extra.Sched.{gsm_schedule_event}
use chan_extra.Gsm.Text.{gsm_compare, gsm_get_line}
use chan_extra.Gsm.San.{arrays_fit, blank, gsm_san, line, nothing, partial}
use chan_extra.Gsm.State.{
  ModuleState, at_call_state_null, gsm_event_detect_module_ok, gsm_event_restart, gsm_state_init,
  gsm_state_manufacturer_req, gsm_state_model_name_req, gsm_state_send_hangup, gsm_state_set_echo,
  gsm_state_set_report_error, gsm_state_up, rank,
}
use chan_extra.Gsm.Call.{gsm_getcall, update_call}
use chan_extra.Gsm.Module.{
  Env, Gsm, Result, at, event, fault, gsm_switch_state, more, quiet, simple,
}

-- The number of the callback `gsm_start_timeout`.
abbrev start_timeout : ℕ
start_timeout = 1

-- What the function returns: `true` for the event, `false` for NULL; `spinning` is a run that is
-- not over after the rounds given, `crashed` a fault of the memory.
pub data Return : Type 0 where
  spinning crashed : Return
  returned : Bool → Gsm → Return

module _ (env : Env) where
  -- Whether the text has the module's words for `id`.
  unfoldable pub says : Gsm → List ℕ → AtId → Bool
  unfolding gsm_compare at
  says g text id = gsm_compare text (at env g id)

  -- `OK` after the command `asked`: the command `id` in the state `next`.
  unfoldable pub on_ok : Gsm → List ℕ → AtId → ModuleState → AtId → Gsm
  unfolding says gsm_switch_state at
  on_ok g buf asked next id =
      if says g buf at_ok && says g g.at_last_sent asked
      then gsm_switch_state env g next (at env g id)
      else g

  -- The timer's id, with -1 for a full table.
  unfoldable pub start_timer : Gsm → Gsm
  unfolding gsm_schedule_event
  start_timer g =
      let (sched, id) =
        gsm_schedule_event g.pool.sched env.clock env.t316 start_timeout g.pool.cref in
      record g {
        pool = record g.pool {
          sched = sched;
          retranstimer = elim id [ none ↦ 2 ^ 32 - 1 | some i ↦ i ];
        };
      }

  unfoldable pub on_up : Gsm → List ℕ → Gsm
  unfolding says gsm_switch_state at update_call start_timer
  on_up g buf =
      if says g buf at_ok
      then (let g' =
            if says g g.at_last_sent at_atz
            then gsm_switch_state env g gsm_state_send_hangup (at env g at_hangup)
            else g in
          if g.resetting
          then record g' {
            pool = update_call g'.pool g.pool.cref (λ c. record c {
              ourcallstate = at_call_state_null;
              peercallstate = at_call_state_null;
            });
            ev = simple gsm_event_restart;
          }
          else g')
      else if says g buf at_atz
          || (gsm_compare buf (codes "Call Ready")
              || (says g buf at_error || (says g buf at_no_answer || says g buf at_no_carrier)))
      then g
      else if g.pool.retranstimer == 0
      then start_timer g
      else g

  unfoldable pub on_model_name : Gsm → List ℕ → Gsm
  unfolding says gsm_compare gsm_switch_state at gsm_get_line
  on_model_name g buf =
      if says g g.at_last_sent at_get_cgmm
      then (if says g buf at_ok && not (length g.model_name == 0)
          then gsm_switch_state env g gsm_state_manufacturer_req (at env g at_get_cgmi)
          else if gsm_compare buf (codes "ERROR")
          then gsm_switch_state env g gsm_state_model_name_req (codes "AT$HCTCM=0")
          else if not (gsm_compare buf (codes "+CME ERROR:"))
          then record g { model_name = gsm_get_line buf 256 }
          else g)
      else if gsm_compare g.at_last_sent (codes "AT$HCTCM=0")
      then (if gsm_compare buf (codes "OK")
          then gsm_switch_state env g gsm_state_model_name_req (codes "AT+GMM")
          else g)
      else if gsm_compare g.at_last_sent (codes "AT+GMM")
      then (if gsm_compare buf (codes "OK")
          then gsm_switch_state env g gsm_state_manufacturer_req (codes "AT+GMI")
          else if gsm_compare buf (codes "+GMM:")
          then record g { model_name = gsm_get_line (drop 6 buf) 256 }
          else g)
      else g

  -- The switch, on a line or the beginning of one.
  unfoldable pub start_line : ModuleState → Gsm → List ℕ → Result
  unfolding says gsm_switch_state at on_up on_ok on_model_name
  start_line gsm_state_init g buf =
      if says g buf at_ok && says g g.at_last_sent at_check
      then event
          (record (gsm_switch_state env (record g { already_set_mux_mode = false }) gsm_state_up
            (at env g at_atz)) { ev = simple gsm_event_detect_module_ok })
      else more g buf
  start_line gsm_state_up g buf = more (on_up g buf) buf
  start_line gsm_state_send_hangup g buf =
      more (on_ok g buf at_hangup gsm_state_set_echo at_set_echo_mode) buf
  start_line gsm_state_set_echo g buf =
      more (on_ok g buf at_set_echo_mode gsm_state_set_report_error at_set_cmee) buf
  start_line gsm_state_set_report_error g buf =
      more (on_ok g buf at_set_cmee gsm_state_model_name_req at_get_cgmm) buf
  start_line gsm_state_model_name_req g buf = more (on_model_name g buf) buf
  start_line other g buf = more g buf

  -- The loop, with `f` rounds left, on the rest of the input. The switch leaves
  -- `sanbuf` alone.
  unfoldable pub start_loop : ℕ → Gsm → List ℕ → Return
  unfolding gsm_san arrays_fit start_line rank gsm_set_module_id
  start_loop zero g input = spinning
  start_loop (suc f) g input =
      let (result, san) = gsm_san g.at_last_recv g.san input in
      let g' : Gsm = record g { san = san } in
      let go : List ℕ → Bool → Return = λ buf last. elim (start_line g.state g' buf) [
        | fault ↦ crashed
        | event h ↦ returned true h
        | quiet h ↦ returned false h
        | more h buf' ↦
            let rest =
              start_loop f (record h { san = record san { idx = 0 } }) (take san.idx san.text) in
            if last
            then returned false h
            else if rank h.state == rank gsm_state_manufacturer_req
            then returned false (record h {
              san = record san { idx = 0 };
              switchtype = gsm_set_module_id env.cfgs h.switchtype h.model_name;
            })
            else rest
      ] in
      elim (arrays_fit g.san input result) [
        | false ↦ crashed
        | true ↦ elim result [
          | nothing ↦ returned false g'
          | line buf ↦ go buf false
          | partial buf ↦ go buf true
          | blank ↦ go [] false
        ]
      ]

  unfoldable pub gsm_set_switchtype : ℕ → Gsm → List ℕ → Return
  unfolding start_loop gsm_getcall
  gsm_set_switchtype f g data_in =
      start_loop f (record g { pool = gsm_getcall g.pool g.pool.cref }) data_in
